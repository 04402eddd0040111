-- ===== src/Store/Sessions.antt =====
-- internal/store/store.go: the sessions table.
pub mod Valid
pub mod Sliding
pub mod Slid
pub mod Calls
pub mod LookUp
pub mod Refined
use xx_drive.Prelude.{
  ℕ, ◌+◌, ◌/◌, ◌*◌, Bool, true, false, not, List, [], ◌∷◌, ◌++◌, Option, none, some, if◌then◌else◌,
  ◌==◌, nat_eq, bytes_eq, ltb, leb, any, find, keep,
}
use xx_drive.Prelude.Bytes.{Bytes}
use xx_drive.Prelude.Tables.{update, sort_by_desc}
use xx_drive.Prelude.Results.{Result, ok, err, not_found, disabled, other}
use xx_drive.Store.Rows.{User, Session, Db}
use xx_drive.Store.Users.{user_by_id}

abbrev pub has_token_hash : Bytes → Session → Bool
has_token_hash th s = s.token_hash == th

abbrev pub is_of : ℕ → Session → Bool
is_of id s = s.user_id == id

-- `DeleteSession`
unfoldable pub delete_session : Db → Bytes → Db
delete_session db th = record db { sessions = keep (λ s. not (has_token_hash th s)) db.sessions }

-- `ListSessions`
unfoldable pub list_sessions : Db → ℕ → List Session
list_sessions db id = sort_by_desc (λ (s : Session). s.created_at) (keep (is_of id) db.sessions)

-- The expiry slides when less than half of the lifetime is left.
unfoldable pub slide : Db → Session → ℕ → ℕ → Db
slide db s ttl now =
    if ltb (s.expires_at + ttl / 2) (now + ttl)
    then record db {
      sessions =
          update (has_token_hash s.token_hash)
            (λ r. record r { last_seen = now; expires_at = now + ttl }) db.sessions;
    }
    else db

module _ (hash_token : Bytes → Bytes) where
  -- `CreateSession`; the token hash is the primary key, and a session needs a user.
  unfoldable pub create_session : Db → ℕ → Bytes → Bytes → ℕ → ℕ → Result (Unit {0}) × Db
  create_session db user token label ttl now =
      let s : Session = record {
        token_hash = hash_token token;
        user_id = user;
        label = label;
        created_at = now;
        last_seen = now;
        expires_at = now + ttl;
      } in
      if any (has_token_hash s.token_hash) db.sessions
      then (err other, db)
      else elim (user_by_id db user) [
        | none ↦ (err other, db)
        | some u ↦ (ok tt, record db { sessions = db.sessions ++ s ∷ [] })
      ]

  -- `Session`
  unfoldable pub session : Db → Bytes → ℕ → ℕ → Result (Session × User) × Db
  session db token ttl now = elim (find (has_token_hash (hash_token token)) db.sessions) [
    | none ↦ (err not_found, db)
    | some s ↦
        if leb s.expires_at now
        then (err not_found, delete_session db (hash_token token))
        else elim (user_by_id db s.user_id) [
          | none ↦ (err not_found, db)
          | some u ↦ if u.disabled then (err disabled, db) else (ok (s, u), slide db s ttl now)
        ]
  ]
