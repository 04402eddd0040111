-- ===== src/Store/Sessions/Calls.antt =====
-- The sessions table as a set, and what the store's calls may do to it.
use xx_drive.Prelude.{
  ℕ, ◌+◌, ◌/◌, ◌<◌, ◌≤◌, Bool, true, false, not, ◌&&◌, ◌||◌, ◌≡◌, none, some, ◌==◌, nat_eq,
  bytes_eq, any,
}
use xx_drive.Prelude.Bytes.{Bytes}
use xx_drive.Store.Rows.{Db}
use xx_drive.Store.Users.{has_id, user_by_id, delete_user, set_disabled}
use xx_drive.Store.Sessions.{create_session, session, delete_session}
use xx_drive.Store.Sessions.Slid.{is_session}

-- Which hash lets which user in, up to which time. Order, labels and the time of the last use are
-- forgotten.
abbrev pub Sessions : Type 0
Sessions = Bytes → ℕ → ℕ → Bool

abbrev pub view : Db → Sessions
view db hash user expiry = any (is_session hash user expiry) db.sessions

-- A hash has at most one session: it is the table's primary key.
abbrev pub IsKeyed : Sessions → Type 0
IsKeyed set = (h : Bytes) (u v e x : ℕ) → set h u e ≡ true → set h v x ≡ true → (u ≡ v) × (e ≡ x)

-- The store's calls that write to the table: `CreateSession`, `Session`, `DeleteSession`, `SetDisabled` and
-- `DeleteUser`.
pub data SessionCall : Type 0 where
  sign_in : ℕ → Bytes → Bytes → ℕ → ℕ → SessionCall
  look_up : Bytes → ℕ → ℕ → SessionCall
  sign_out : Bytes → SessionCall
  disable : ℕ → SessionCall
  remove : ℕ → SessionCall

-- Which users there are.
abbrev pub exists : Db → ℕ → Bool
exists db user = any (has_id user) db.users

-- Which users are found, and not disabled.
abbrev pub enabled : Db → ℕ → Bool
enabled db user = elim (user_by_id db user) [ none ↦ false | some u ↦ not u.disabled ]

abbrev pub Same : Sessions → Sessions → Type 0
Same before after = (h : Bytes) (u e : ℕ) → after h u e ≡ before h u e

-- All sessions of a user have ended, and no other.
abbrev pub Ended : ℕ → Sessions → Sessions → Type 0
Ended user before after = (h : Bytes) (u e : ℕ) → after h u e ≡ (not (u == user) && before h u e)

-- The sessions under a hash have ended, and no other.
abbrev pub SignedOut : Bytes → Sessions → Sessions → Type 0
SignedOut hash before after =
    (h : Bytes) (u e : ℕ) → after h u e ≡ (not (h == hash) && before h u e)

-- The hash lets the user in up to this time, and all else is as before.
abbrev pub Prolonged : Bytes → ℕ → ℕ → Sessions → Sessions → Type 0
Prolonged hash user end before after =
    (h : Bytes) (v x : ℕ)
    → after h v x ≡ ((not (h == hash) && before h v x) || (h == hash && v == user && x == end))

-- A look-up ends the session that it finds expired, and prolongs the one of an enabled user that has less
-- than half of the lifetime left.
abbrev pub LookedUp : Bytes → (ℕ → Bool) → ℕ → ℕ → Sessions → Sessions → Type 0
LookedUp hash on ttl now before after =
    (((u e : ℕ) → before hash u e ≡ false) → Same before after)
    × ((u e : ℕ)
        → before hash u e ≡ true
        → (e ≤ now → SignedOut hash before after)
          × (now < e → on u ≡ false → Same before after)
          × (now < e → now + ttl ≤ e + ttl / 2 → Same before after)
          × (now < e
              → on u ≡ true
              → e + ttl / 2 < now + ttl
              → Prolonged hash u (now + ttl) before after))

-- What a call does to the set. A session starts for a user that there is, under a hash that is not in use.
abbrev pub Allowed :
    (Bytes → Bytes) → (ℕ → Bool) → (ℕ → Bool) → SessionCall → Sessions → Sessions → Type 0
Allowed hash_token there on (sign_in user token label ttl now) before after =
    (there user ≡ false → Same before after)
    × ((u e : ℕ) → before (hash_token token) u e ≡ true → Same before after)
    × (there user ≡ true
        → ((u e : ℕ) → before (hash_token token) u e ≡ false)
        → (h : Bytes) (u e : ℕ)
        → after h u e ≡ (before h u e || (hash_token token == h && user == u && now + ttl == e)))
Allowed hash_token there on (look_up token ttl now) before after =
    LookedUp (hash_token token) on ttl now before after
Allowed hash_token there on (sign_out hash) before after = SignedOut hash before after
Allowed hash_token there on (disable user) before after = Ended user before after
Allowed hash_token there on (remove user) before after =
    (there user ≡ false → Same before after) × (there user ≡ true → Ended user before after)

module _ (hash_token : Bytes → Bytes) where
  abbrev pub call : Db → SessionCall → Db
  call db (sign_in user token label ttl now) =
      (create_session hash_token db user token label ttl now).1
  call db (look_up token ttl now) = (session hash_token db token ttl now).1
  call db (sign_out hash) = delete_session db hash
  call db (disable user) = set_disabled db user true
  call db (remove user) = (delete_user db user).1
