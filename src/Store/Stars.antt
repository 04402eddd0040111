-- ===== src/Store/Stars.antt =====
-- internal/store/store.go: the stars table.
use xx_drive.Prelude.{
  ℕ, Bool, true, false, not, ◌&&◌, ◌≡◌, refl, sym, ap, ◌∙◌, List, [], ◌∷◌, ◌++◌, map, some, none,
  ◌==◌, nat_eq, bytes_eq, arith, any, keep, contains, if◌then◌else◌, Bool-cases, inl, inr,
}
use xx_drive.Prelude.Bytes.{Bytes}
use xx_drive.Prelude.Results.{Result, ok, err, other}
use xx_drive.Prelude.Tables.{any-snoc}
use xx_drive.Store.Rows.{Star, Db}
use xx_drive.Store.Users.{user_by_id}

abbrev pub is_star : ℕ → Bytes → Star → Bool
is_star user path s = s.user_id == user && s.path == path

-- `ToggleStar`: whether the path is starred after the call. A star needs a user.
unfoldable pub toggle_star : Db → ℕ → Bytes → Result Bool × Db
toggle_star db user path =
    if any (is_star user path) db.stars
    then (ok false, record db { stars = keep (λ s. not (is_star user path s)) db.stars })
    else elim (user_by_id db user) [
      | none ↦ (err other, db)
      | some u ↦
          (ok true, record db { stars = db.stars ++ record { user_id = user; path = path } ∷ [] })
    ]

-- `StarredPaths`, the set as its test.
unfoldable pub is_starred : Db → ℕ → Bytes → Bool
is_starred db user path =
    contains (map (λ (s : Star). s.path) (keep (λ (s : Star). s.user_id == user) db.stars)) path

is_starred-any :
    (user : ℕ) (path : Bytes) (stars : List Star)
    → contains (map (λ (s : Star). s.path) (keep (λ (s : Star). s.user_id == user) stars)) path
      ≡ any (is_star user path) stars
is_starred-any user path [] = refl
is_starred-any user path (s ∷ stars) = ground (arith, is_starred-any user path stars)

any-keep-not :
    (user : ℕ) (path : Bytes) (stars : List Star)
    → any (is_star user path) (keep (λ s. not (is_star user path s)) stars) ≡ false
any-keep-not user path [] = refl
any-keep-not user path (s ∷ stars) = ground (arith, any-keep-not user path stars)

any-keep_other :
    (user user' : ℕ) (path path' : Bytes) (stars : List Star)
    → (user == user' && path == path') ≡ false
    → any (is_star user' path') (keep (λ s. not (is_star user path s)) stars)
      ≡ any (is_star user' path') stars
any-keep_other user user' path path' [] h = refl
any-keep_other user user' path path' (s ∷ stars) h =
    ground (arith, any-keep_other user user' path path' stars h)

any-snoc_other :
    (user user' : ℕ) (path path' : Bytes) (stars : List Star)
    → (user == user' && path == path') ≡ false
    → any (is_star user' path') (stars ++ record { user_id = user; path = path } ∷ [])
      ≡ any (is_star user' path') stars
any-snoc_other user user' path path' [] h = ground arith
any-snoc_other user user' path path' (s ∷ stars) h =
    ground (arith, any-snoc_other user user' path path' stars h)

is_starred-eq :
    (db : Db) (user : ℕ) (path : Bytes) → is_starred db user path ≡ any (is_star user path) db.stars
unfolding is_starred
is_starred-eq db user path = is_starred-any user path db.stars

is_star_self :
    (user : ℕ) (path : Bytes) → is_star user path (record { user_id = user; path = path }) ≡ true
is_star_self user path = ground arith

-- Toggling flips whether the path is starred, and the answer is the new state. No other star changes.
pub toggle_star-is_starred :
    (db : Db) (user : ℕ) (path : Bytes) {on : Bool} {db' : Db}
    → toggle_star db user path ≡ (ok on, db')
    → (on ≡ not (is_starred db user path))
      × (is_starred db' user path ≡ on)
      × ((user' : ℕ) (path' : Bytes)
          → (user == user' && path == path') ≡ false
          → is_starred db' user' path' ≡ is_starred db user' path')
unfolding toggle_star
toggle_star-is_starred db user path {on} {db'} e =
    let new : Star = record { user_id = user; path = path } in
    elim (Bool-cases (any (is_star user path) db.stars)) [
      | inl starred ↦
          let was = is_starred-eq db user path ∙ starred in
          let rows : keep (λ s. not (is_star user path s)) db.stars ≡ db'.stars = ground arith in
          let off : false ≡ on = ground arith in
          let now = is_starred-eq db' user path in
          let gone = any-keep-not user path db.stars in
          (
            ground arith,
            now ∙ ap (any (is_star user path)) (sym rows) ∙ gone ∙ off,
            λ user' path' apart.
                is_starred-eq db' user' path'
                ∙ ap (any (is_star user' path')) (sym rows)
                ∙ any-keep_other user user' path path' db.stars apart
                ∙ sym (is_starred-eq db user' path'),
          )
      | inr plain ↦
          let was = is_starred-eq db user path ∙ plain in
          let rows : db.stars ++ new ∷ [] ≡ db'.stars = ground arith in
          let turned : true ≡ on = ground arith in
          (
            ground arith,
            is_starred-eq db' user path
                ∙ ap (any (is_star user path)) (sym rows)
                ∙ any-snoc (is_star user path) db.stars new (is_star_self user path)
                ∙ turned,
            λ user' path' apart.
                is_starred-eq db' user' path'
                ∙ ap (any (is_star user' path')) (sym rows)
                ∙ any-snoc_other user user' path path' db.stars apart
                ∙ sym (is_starred-eq db user' path'),
          )
    ]
