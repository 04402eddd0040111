-- ===== src/Store/Sessions/Sliding.antt =====
-- The sliding expiry of a session in use.
use xx_drive.Prelude.{
  ℕ, ◌+◌, ◌/◌, ◌<◌, ◌≤◌, ◌≡◌, refl, sym, ap, ◌∙◌, List, [], ◌∷◌, some, nat_eq, bytes_eq, arith,
  find, Bool-cases, inl, inr, ltb,
}
use xx_drive.Prelude.Bytes.{Bytes}
use xx_drive.Prelude.Results.{ok}
use xx_drive.Prelude.Tables.{update, find-some}
use xx_drive.Store.Rows.{User, Session, Db}
use xx_drive.Store.Users.{user_by_id}
use xx_drive.Store.Sessions.{has_token_hash, slide, session}
use xx_drive.Store.Sessions.Valid.{session-cases, session-accepts, user_by_id-users}

find-update :
    (th : Bytes) (ttl now : ℕ) (rows : List Session) {s : Session}
    → find (has_token_hash th) rows ≡ some s
    → find (has_token_hash th) (
        update
          (has_token_hash th)
          (λ (r : Session). record r { last_seen = now; expires_at = now + ttl })
          rows)
      ≡ some (record s { last_seen = now; expires_at = now + ttl })
find-update th ttl now [] e = cc
find-update th ttl now (r ∷ rows) {s} e = ground (arith, find-update th ttl now rows {s = s})

pub find-hash :
    (th : Bytes) (rows : List Session) {s : Session}
    → find (has_token_hash th) rows ≡ some s
    → s.token_hash ≡ th
find-hash th rows {s} e = let hit = find-some (has_token_hash th) rows {x = s} e in ground arith

find-update_at :
    (th th' : Bytes) (ttl now : ℕ) (rows : List Session) {s : Session}
    → th' ≡ th
    → find (has_token_hash th) rows ≡ some s
    → find (has_token_hash th) (
        update
          (has_token_hash th')
          (λ (r : Session). record r { last_seen = now; expires_at = now + ttl })
          rows)
      ≡ some (record s { last_seen = now; expires_at = now + ttl })
find-update_at th th' ttl now rows same e = rw same (find-update th ttl now rows e)

slide-found :
    (db : Db) (ttl now : ℕ) (th : Bytes) {s : Session}
    → find (has_token_hash th) db.sessions ≡ some s
    → (r : Session) × (find (has_token_hash th) (slide db s ttl now).sessions ≡ some r)
      × (r.user_id ≡ s.user_id)
      × (s.expires_at ≤ r.expires_at)
      × (now + ttl ≤ r.expires_at + ttl / 2)
unfolding slide
slide-found db ttl now th {s} found = elim (Bool-cases (ltb (s.expires_at + ttl / 2) (now + ttl))) [
  | inl late ↦
      let moved =
        find-update_at th s.token_hash ttl now db.sessions (find-hash th db.sessions found) found in
      (
        record s { last_seen = now; expires_at = now + ttl },
        rw late moved,
        refl,
        ground arith,
        omega arith,
      )
  | inr early ↦ (s, rw early found, refl, omega arith, ground arith)
]

slide-users : (db : Db) (s : Session) (ttl now : ℕ) → db.users ≡ (slide db s ttl now).users
unfolding slide
slide-users db s ttl now = ground arith

-- A session in use stays alive: once a token was accepted, it is accepted for the same user at every
-- time before half of the lifetime has passed since (rounded up), and its stored end never came
-- closer.
pub session-session :
    (hash_token : Bytes → Bytes) (db : Db) (token : Bytes) (ttl now later : ℕ) {s : Session}
    {u : User} {db' : Db}
    → session hash_token db token ttl now ≡ (ok (s, u), db')
    → later + ttl / 2 < now + ttl
    → (r : Session) × (s.expires_at ≤ r.expires_at)
      × (session hash_token db' token ttl later ≡ (ok (r, u), slide db' r ttl later))
session-session hash_token db token ttl now later {s} {u} {db'} e lt =
    let (found, _, user, on, moved) = session-cases hash_token db token ttl now e in
    let (r, found', owner, longer, half) = slide-found db ttl now (hash_token token) found in
    let here : find (has_token_hash (hash_token token)) db'.sessions ≡ some r =
      ap (λ (d : Db). find (has_token_hash (hash_token token)) d.sessions) (sym moved) ∙ found' in
    let users = slide-users db s ttl now ∙ ap (λ (d : Db). d.users) moved in
    let same : user_by_id db' r.user_id ≡ some u =
      ap (user_by_id db') owner ∙ sym (user_by_id-users db db' s.user_id users) ∙ user in
    (r, longer, session-accepts hash_token db' token ttl later here (ground arith) same on)
