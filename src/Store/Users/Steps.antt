-- ===== src/Store/Users/Steps.antt =====
-- The histories of the users table, and what holds in all of them.
use xx_drive.Prelude.{
  ℕ, ◌≡◌, ◌≢◌, Bool-cases, inl, inr, false, sym, ap, ◌∙◌, Bool, List, [], ◌∷◌, some, ◌==◌, nat_eq,
  bytes_eq, arith, find, find-All,
}
use xx_drive.Prelude.Bytes.{Bytes}
use xx_drive.Prelude.Results.{ok}
use xx_drive.Prelude.Tables.{Distinct}
use xx_drive.Filepath.{slash}
use xx_drive.Drive.Resolve.{Lstat, resolve_user_path}
use xx_drive.Drive.Resolve.Links.{resolve_user_path_separate}
use xx_drive.Store.Rows.{User, Db, empty}
use xx_drive.Store.Users.{
  has_id, user_by_id, create_user, get_or_create_fabric_user, delete_user, set_password,
  set_disabled,
}
use xx_drive.Store.Users.Invariant.{
  HasUsers, IsUser, same_name, create_user-HasUsers, get_or_create_fabric_user-HasUsers,
  delete_user-HasUsers, set_password-HasUsers, set_disabled-HasUsers,
}

-- The calls that change the users table.
pub data UserStep : Db → Db → Type 0 where
  create :
      (db : Db) (name hash : Bytes) (admin : Bool) (now : ℕ)
      → UserStep db ((create_user db name hash admin now).1)
  arrive :
      (db : Db) (fid : Bytes) (now : ℕ) → UserStep db ((get_or_create_fabric_user db fid now).1)
  delete : (db : Db) (id : ℕ) → UserStep db ((delete_user db id).1)
  password : (db : Db) (id : ℕ) (hash : Bytes) → UserStep db (set_password db id hash)
  disable : (db : Db) (id : ℕ) (off : Bool) → UserStep db (set_disabled db id off)

pub data Reached : Db → Type 0 where
  fresh : Reached empty
  next : {db db' : Db} → Reached db → UserStep db db' → Reached db'

UserStep-HasUsers : {db db' : Db} → UserStep db db' → HasUsers db → HasUsers db'
UserStep-HasUsers (create db name hash admin now) h = create_user-HasUsers db name hash admin now h
UserStep-HasUsers (arrive db fid now) h = get_or_create_fabric_user-HasUsers db fid now h
UserStep-HasUsers (delete db id) h = delete_user-HasUsers db id h
UserStep-HasUsers (password db id hash) h = set_password-HasUsers db id hash h
UserStep-HasUsers (disable db id off) h = set_disabled-HasUsers db id off h

-- After any sequence of calls on a fresh database, and whatever they return: ids are below the next
-- one and unique, usernames are unique and each is one path segment, fabric ids are unique, and a
-- user with a fabric id bears the shadow name of that id.
pub Reached-HasUsers : {db : Db} → Reached db → HasUsers db
Reached-HasUsers fresh = record { each = tt; ids = tt; names = tt; fabrics = tt }
Reached-HasUsers (next r s) = UserStep-HasUsers s (Reached-HasUsers r)

clash : (u v : User) → u.username ≡ v.username → same_name u v ≡ false → ⊥
clash u v e h = ground arith

found-first :
    (us : List User) (u v : User) (i j : ℕ)
    → Distinct same_name us
    → find (has_id i) us ≡ some u
    → find (has_id j) us ≡ some v
    → u.username ≡ v.username
    → i ≡ j
found-first [] u v i j _ e _ _ = cc
found-first (w ∷ us) u v i j (d, ds) e e' same = elim (Bool-cases (w.id == i)) [
  | inl hit ↦ elim (Bool-cases (w.id == j)) [
    | inl hit' ↦ ground arith
    | inr passed' ↦
        let apart = find-All (λ y. same_name w y ≡ false) (has_id j) us {x = v} d (ground arith) in
        let here : w ≡ u = ground arith in
        absurd (clash w v (ap (λ r. r.username) here ∙ same) apart)
  ]
  | inr passed ↦ elim (Bool-cases (w.id == j)) [
    | inl hit' ↦
        let apart = find-All (λ y. same_name w y ≡ false) (has_id i) us {x = u} d (ground arith) in
        let here : w ≡ v = ground arith in
        absurd (clash w u (ap (λ r. r.username) here ∙ sym same) apart)
    | inr passed' ↦ found-first us u v i j ds (ground arith) (ground arith) same
  ]
]

-- No two users of a reached database ever share a place on the disk: requests of the users with two
-- different ids never resolve to one absolute path.
pub Reached-separate :
    (lstat : Bytes → Lstat) (r rel rel' : Bytes) {db : Db} (i j : ℕ) {u v : User}
    {abs logical logical' : Bytes}
    → Reached db
    → i ≢ j
    → user_by_id db i ≡ some u
    → user_by_id db j ≡ some v
    → resolve_user_path lstat (slash ∷ r) u.username rel ≡ ok (abs, logical)
    → resolve_user_path lstat (slash ∷ r) v.username rel' ≢ ok (abs, logical')
unfolding user_by_id
Reached-separate lstat r rel rel' {db} i j {u} {v} reached ne e e' way way' =
    let h = Reached-HasUsers reached in
    let k = find-All (IsUser db.next_user) (has_id i) db.users h.each e in
    let k' = find-All (IsUser db.next_user) (has_id j) db.users h.each e' in
    let same =
      resolve_user_path_separate lstat r u.username v.username rel rel' k.segment.no_slash
        k'.segment.no_slash way way' in
    ne (found-first db.users u v i j h.names e e' same)
