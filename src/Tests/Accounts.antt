-- ===== src/Tests/Accounts.antt =====
-- Logins and logouts of a small store.
use xx_drive.Prelude.{
  true, false, ◌≡◌, refl, [], ◌∷◌, Option, none, some, inr, nat_eq, bytes_eq, ℕ_discrete, arith,
  ◌==◌,
}
use xx_drive.Prelude.Bytes.{Bytes, bytes, has_prefix, trim_prefix}
use xx_drive.Prelude.Results.{ok, err, not_found}
use xx_drive.Store.Rows.{User, Session, Db, empty}
use xx_drive.Store.Users.{user_by_name, user_by_id, set_password}
use xx_drive.Store.Sessions.{session, create_session, delete_session, list_sessions}
use xx_drive.Store.Events.{add_event}
use xx_drive.Api.Auth.{Request}
use xx_drive.Api.Limiter.{login_allowed, login_failed}
use xx_drive.Api.History.{Reply, refused, done}
use xx_drive.Api.Accounts.{
  Gate, Clock, Hashing, handle_login, handle_logout, handle_revoke_others, handle_password_change,
}
use xx_drive.Api.Accounts.Logins.{handle_login-session, handle_logout-session}
use xx_drive.Tests.Versions.{amy}

-- Hashes that hide nothing.
abbrev plain : Hashing
plain = record { hash_token = λ t. t; check_password = λ h p. h == p }

abbrev clock : Clock
clock = record { now = 100; moment = 100 }

abbrev gate : Gate
gate = record { db = record empty { users = amy ∷ []; next_user = 2 }; rate = [] }

abbrev request : Bytes → Option Bytes → Request
request authorization cookie = record {
  authorization = authorization;
  cookie = cookie;
  origin = [];
  referer = [];
  csrf_header = [];
  host = [];
}

unfoldable runs : Db → Bytes → Option User
unfolding user_by_name user_by_id session create_session delete_session list_sessions add_event
    login_allowed login_failed handle_login handle_logout handle_revoke_others
    handle_password_change set_password has_prefix trim_prefix bytes_eq ℕ_discrete
runs = user_by_name

abbrev login : Gate → Bytes → Bytes → Reply (Bytes × User) × Gate
login g password token =
    handle_login plain 50 clock g (some (bytes "amy", password)) (bytes "10.0.0.1") false
      (some token)

-- The right password opens a session, a wrong one is counted.
logins :
    ((login gate (bytes "h") (bytes "t")).0 ≡ done (bytes "t", amy))
    × ((login gate (bytes "x") (bytes "t")).0 ≡ refused 401)
    × ((login gate (bytes "x") (bytes "t")).1.rate
        ≡ (bytes "10.0.0.1|amy", record { failures = 1; window = 100 }) ∷ [])
unfolding runs
logins = (refl, refl, refl)

abbrev signed_in : Db
signed_in = (login (login gate (bytes "h") (bytes "t")).1 (bytes "h") (bytes "s")).1.db

-- Of two sessions the one that is used stays.
others :
    ((handle_revoke_others plain 50 clock signed_in amy (request [] (some (bytes "t")))).0 ≡ 1)
    × ((session plain.hash_token
          (handle_revoke_others plain 50 clock signed_in amy (request [] (some (bytes "t")))).1
          (bytes "s")
          50
          101).0
        ≡ err not_found)
    × ((handle_password_change plain 50 clock signed_in amy
          (some (bytes "x", bytes "longenough"))
          (bytes "n")).0
        ≡ refused 401)
unfolding runs
others = (refl, refl, refl)

handle_login-session_example :
    ((login_allowed [] (bytes "10.0.0.1|amy") 100).0 ≡ true)
    × (user_by_name gate.db (bytes "amy") ≡ some amy)
    × (false ≡ false)
    × ((bytes "h" == bytes "h") ≡ true)
    × ((s : Session) × ((session plain.hash_token
            (login gate (bytes "h") (bytes "t")).1.db
            (bytes "t")
            50
            120).0
          ≡ ok (s, amy)))
unfolding runs
handle_login-session_example =
    handle_login-session plain 50 clock gate (bytes "amy") (bytes "h") (bytes "10.0.0.1") false
      (some (bytes "t")) 50 120 {token = bytes "t"} {u = amy} refl refl (omega arith)

handle_logout-session_example :
    (session plain.hash_token
      (handle_logout plain 50 clock signed_in (request (bytes "Bearer t") none))
      (bytes "t")
      50
      101).0
    ≡ err not_found
unfolding runs
handle_logout-session_example =
    handle_logout-session plain 50 clock signed_in (request (bytes "Bearer t") none) (bytes "t") 50
      101 (inr refl)
