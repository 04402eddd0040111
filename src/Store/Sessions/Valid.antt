-- ===== src/Store/Sessions/Valid.antt =====
-- Which tokens are accepted, and for how long.
use xx_drive.Prelude.{
  ℕ, ◌+◌, ◌<◌, ◌≡◌, ◌≢◌, refl, sym, ap, ◌∙◌, true, false, not, [], ◌∷◌, ◌++◌, none, some, ◌==◌,
  nat_eq, bytes_eq, arith, any, find, find-All, Bool-cases, Option-cases, inl, inr, leb,
}
use xx_drive.Prelude.Bytes.{Bytes}
use xx_drive.Prelude.Results.{ok, err, not_found}
use xx_drive.Prelude.Tables.{find-some, find-append, find-keep-none, keep-All}
use xx_drive.Store.Rows.{User, Session, Db}
use xx_drive.Store.Users.{has_id, user_by_id, set_disabled}
use xx_drive.Store.Sessions.{slide, has_token_hash, create_session, session, delete_session}

pub user_by_id-held : (db : Db) (id : ℕ) {u : User} → user_by_id db id ≡ some u → u.id ≡ id
unfolding user_by_id
user_by_id-held db id {u} e = let hit = find-some (has_id id) db.users {x = u} e in ground arith

pub user_by_id-users :
    (db db' : Db) (id : ℕ) → db.users ≡ db'.users → user_by_id db id ≡ user_by_id db' id
unfolding user_by_id
user_by_id-users db db' id e = ap (find (has_id id)) e

delete_session-absent :
    (db : Db) (th : Bytes) → find (has_token_hash th) ((delete_session db th).sessions) ≡ none
unfolding delete_session
delete_session-absent db th =
    find-keep-none (has_token_hash th) (λ s. not (has_token_hash th s)) db.sessions
      (λ s h. ground arith)

find_self : (s : Session) → find (has_token_hash s.token_hash) (s ∷ []) ≡ some s
find_self s = ground arith

module _ (hash_token : Bytes → Bytes) where
  -- The parts of an accepted token.
  pub session-cases :
      (db : Db) (token : Bytes) (ttl now : ℕ) {s : Session} {u : User} {db' : Db}
      → session hash_token db token ttl now ≡ (ok (s, u), db')
      → (find (has_token_hash (hash_token token)) db.sessions ≡ some s)
        × (leb s.expires_at now ≡ false)
        × (user_by_id db s.user_id ≡ some u)
        × (u.disabled ≡ false)
        × (slide db s ttl now ≡ db')
  unfolding session
  session-cases db token ttl now {s} {u} {db'} e =
      elim (Option-cases (find (has_token_hash (hash_token token)) db.sessions)) [
        | inl absent ↦ absurd (ground arith)
        | inr (r, found) ↦ elim (Bool-cases (leb r.expires_at now)) [
          | inl over ↦ absurd (ground arith)
          | inr live ↦ elim (Option-cases (user_by_id db r.user_id)) [
            | inl gone ↦ absurd (ground arith)
            | inr (w, user) ↦ elim (Bool-cases w.disabled) [
              | inl off ↦ absurd (ground arith)
              | inr on ↦
                  let here : r ≡ s = ground arith in
                  let them : w ≡ u = ground arith in
                  rw (sym here, sym them) (found, live, user, on, ground arith)
            ]
          ]
        ]
      ]

  -- And back.
  pub session-accepts :
      (db : Db) (token : Bytes) (ttl now : ℕ) {s : Session} {u : User}
      → find (has_token_hash (hash_token token)) db.sessions ≡ some s
      → leb s.expires_at now ≡ false
      → user_by_id db s.user_id ≡ some u
      → u.disabled ≡ false
      → session hash_token db token ttl now ≡ (ok (s, u), slide db s ttl now)
  unfolding session slide
  session-accepts db token ttl now found live user on = rw (session, found, live, user, on) refl

  -- An accepted token is that of a stored session which has not expired, and the user is the session's
  -- own, exists and is not disabled.
  pub session_sound :
      (db : Db) (token : Bytes) (ttl now : ℕ) {s : Session} {u : User} {db' : Db}
      → session hash_token db token ttl now ≡ (ok (s, u), db')
      → (s.token_hash ≡ hash_token token)
        × (now < s.expires_at)
        × (u.id ≡ s.user_id)
        × (user_by_id db u.id ≡ some u)
        × (u.disabled ≡ false)
  session_sound db token ttl now {s} {u} e =
      let (found, live, user, on, _) = session-cases db token ttl now e in
      let hash = find-some (has_token_hash (hash_token token)) db.sessions found in
      let id = user_by_id-held db s.user_id user in
      (ground arith, ground arith, id, ap (user_by_id db) id ∙ user, on)

  -- Once a user is disabled, no token is accepted for that user, whatever was stored before.
  pub set_disabled-session :
      (db : Db) (id : ℕ) (token : Bytes) (ttl now : ℕ) {s : Session} {u : User} {db' : Db}
      → session hash_token (set_disabled db id true) token ttl now ≡ (ok (s, u), db')
      → u.id ≢ id
  unfolding set_disabled
  set_disabled-session db id token ttl now {s} {u} e same =
      let off = set_disabled db id true in
      let (found, _, user, _, _) = session-cases off token ttl now e in
      let owner = user_by_id-held off s.user_id user in
      let left =
        find-All (λ (r : Session). not (r.user_id == id) ≡ true) (has_token_hash (hash_token token))
          off.sessions {x = s} (keep-All (λ (r : Session). not (r.user_id == id)) db.sessions)
          found in
      ground arith

  -- A token that was logged out is not accepted at any later time.
  pub delete_session-session :
      (db : Db) (token : Bytes) (ttl now : ℕ)
      → session hash_token (delete_session db (hash_token token)) token ttl now
        ≡ (err not_found, delete_session db (hash_token token))
  unfolding session
  delete_session-session db token ttl now =
      rw (session, delete_session-absent db (hash_token token)) refl

  -- A new session's token is accepted until its lifetime is over, and names the user that it was
  -- created for. The user exists and is not disabled.
  pub create_session-session :
      (db : Db) (id : ℕ) (token label : Bytes) (ttl now ttl' later : ℕ) {u : User} {db' : Db}
      → create_session hash_token db id token label ttl now ≡ (ok tt, db')
      → user_by_id db id ≡ some u
      → u.disabled ≡ false
      → later < now + ttl
      → (s : Session) × (session hash_token db' token ttl' later
          ≡ (ok (s, u), slide db' s ttl' later))
  unfolding session create_session
  create_session-session db id token label ttl now ttl' later {u} {db'} e user on lt =
      let s : Session = record {
        token_hash = hash_token token;
        user_id = id;
        label = label;
        created_at = now;
        last_seen = now;
        expires_at = now + ttl;
      } in
      let free : any (has_token_hash (hash_token token)) db.sessions ≡ false = ground arith in
      let rows : db.sessions ++ s ∷ [] ≡ db'.sessions = ground arith in
      let users : db.users ≡ db'.users = ground arith in
      let found : find (has_token_hash (hash_token token)) db'.sessions ≡ some s =
        rw (sym rows) (
          find-append (has_token_hash (hash_token token)) db.sessions (s ∷ []) free
          ∙ find_self s) in
      let live : leb (now + ttl) later ≡ false = ground arith in
      let same : user_by_id db' id ≡ some u = rw (sym (user_by_id-users db db' id users)) user in
      (s, session-accepts db' token ttl' later found live same on)
