-- ===== src/Api/Accounts.antt =====
-- internal/api/handlers.go: the handlers of logins, sessions, passwords and users. A body that cannot
-- be decoded is none.
pub mod Logins
use xx_drive.Prelude.{
  ℕ, zero, suc, ◌+◌, Bool, true, false, not, ◌&&◌, ◌||◌, List, [], ◌∷◌, ◌++◌, Option, none, some,
  if◌then◌else◌, ◌==◌, nat_eq, bytes_eq, ltb, length,
}
use xx_drive.Prelude.Bytes.{Bytes, bytes, has_prefix, trim_prefix}
use xx_drive.Prelude.Results.{Result, ok, err, conflict, disabled}
use xx_drive.Fabric.{Codecs, Keyring, user_id_for}
use xx_drive.Drive.Trash.{decimal}
use xx_drive.Drive.Folders.{remove_user}
use xx_drive.Disk.{Disk}
use xx_drive.Store.Rows.{User, Session, Db}
use xx_drive.Store.Users.{
  user_by_name, user_by_id, create_user, get_or_create_fabric_user, delete_user, set_password,
  set_disabled,
}
use xx_drive.Store.Sessions.{create_session, delete_session, list_sessions}
use xx_drive.Store.Events.{add_event}
use xx_drive.Api.Auth.{Request}
use xx_drive.Api.Limiter.{Buckets, login_allowed, login_failed}
use xx_drive.Api.History.{World, Reply, refused, done}

-- The states that a login changes.
pub record Gate : Type 0 where
  pub db : Db
  pub rate : Buckets

-- The clock, in seconds and in nanoseconds.
pub record Clock : Type 0 where
  pub now : ℕ
  pub moment : ℕ

-- The functions of package store on tokens and passwords.
pub record Hashing : Type 0 where
  pub hash_token : Bytes → Bytes
  pub check_password : Bytes → Bytes → Bool

-- The token of an Authorization header, if it has the scheme.
abbrev pub bearer_of : Request → Option Bytes
bearer_of r =
    if has_prefix r.authorization (bytes "Bearer ")
    then some (trim_prefix r.authorization (bytes "Bearer "))
    else none

module _ (hashing : Hashing) (ttl : ℕ) (clock : Clock) where
  -- The end of both logins: a session under a token that is drawn, if the source of entropy works.
  abbrev pub open_session : Db → User → Option Bytes → Bytes → Bytes → Reply (Bytes × User) × Db
  open_session db u none label detail = (refused 500, db)
  open_session db u (some token) label detail =
      let (result, db') = create_session hashing.hash_token db u.id token label ttl clock.now in
      elim result [
        | err e ↦ (refused 500, db')
        | ok created ↦ (done (token, u), add_event db' u.id (bytes "login") detail clock.now)
      ]

  abbrev with_db : Gate → Reply (Bytes × User) × Db → Reply (Bytes × User) × Gate
  with_db g (reply, db) = (reply, record g { db = db })

  -- The credentials of `handleLogin`: the user, unless it is unknown or disabled or the password wrong.
  abbrev pub check_login : Db → Bytes → Bytes → Option User
  check_login db username password = elim (user_by_name db username) [
    | none ↦ none
    | some u ↦
        if u.disabled || not (hashing.check_password u.password_hash password) then none else some u
  ]

  -- `handleLogin`, for a username and a password from an address.
  unfoldable pub handle_login :
      Gate → Option (Bytes × Bytes) → Bytes → Bool → Option Bytes → Reply (Bytes × User) × Gate
  handle_login g none ip is_cli drawn = (refused 400, g)
  handle_login g (some (username, password)) ip is_cli drawn =
      let key = ip ++ (bytes "|" ++ username) in
      let (allowed, rate) = login_allowed g.rate key clock.moment in
      let label = if is_cli then bytes "cli:" ++ ip else bytes "web" in
      let opened = λ (u : User).
        with_db (record g { rate = rate })
          (open_session g.db u drawn label (bytes "from " ++ ip)) in
      if not allowed
      then (refused 429, record g { rate = rate })
      else elim (check_login g.db username password) [
        | none ↦ (refused 401, record g { rate = login_failed rate key clock.moment })
        | some u ↦ opened u
      ]

  abbrev pub presented : Request → Option Bytes → Option Bytes
  presented r body = elim (bearer_of r) [ some t ↦ some t | none ↦ body ]

  -- `handleFabricLogin`, with the token of the body.
  unfoldable pub handle_fabric_login :
      {Float : Type 0}
      → Codecs Float
      → Option Keyring
      → Db
      → Request
      → Option Bytes
      → Bytes
      → Option Bytes
      → Reply (Bytes × User) × Db
  handle_fabric_login codecs none db r body ip drawn = (refused 503, db)
  handle_fabric_login codecs (some ring) db r body ip drawn = elim (presented r body) [
    | none ↦ (refused 400, db)
    | some token ↦
        if token == []
        then (refused 400, db)
        else elim (user_id_for codecs ring (bytes "Bearer " ++ token) clock.moment) [
          | err e ↦ (refused 401, db)
          | ok uid ↦
              let (found, db') = get_or_create_fabric_user db uid clock.now in
              elim found [
                | err disabled ↦ (refused 403, db')
                | err e ↦ (refused 500, db')
                | ok u ↦
                    open_session db' u drawn (bytes "fabric-sso") (bytes "fabric SSO from " ++ ip)
              ]
        ]
  ]

  abbrev pub drop_token : Db → Option Bytes → Db
  drop_token db none = db
  drop_token db (some token) = delete_session db (hashing.hash_token token)

  -- `handleLogout`: the sessions of both credentials end.
  unfoldable pub handle_logout : Db → Request → Db
  handle_logout db r = drop_token (drop_token db r.cookie) (bearer_of r)

  -- The hash of the session that a request comes with; the header counts before the cookie.
  abbrev pub current_hash : Request → Bytes
  current_hash r = elim (bearer_of r) [
    | some token ↦ hashing.hash_token token
    | none ↦ elim r.cookie [ some token ↦ hashing.hash_token token | none ↦ [] ]
  ]

  -- The loop of `handleRevokeOthers`, with the number of sessions that it ends.
  abbrev pub revoke_each : Bytes → Db → List Session → ℕ × Db
  revoke_each current db [] = (0, db)
  revoke_each current db (s ∷ ss) =
      let kept = revoke_each current db ss in
      let (n, db') = revoke_each current (delete_session db s.token_hash) ss in
      if s.token_hash == current then kept else (suc n, db')

  -- `handleRevokeOthers`
  unfoldable pub handle_revoke_others : Db → User → Request → ℕ × Db
  handle_revoke_others db u r =
      let (n, db') = revoke_each (current_hash r) db (list_sessions db u.id) in
      (n, add_event db' u.id (bytes "revoke_sessions") (decimal n ++ bytes " revoked") clock.now)

  -- `handlePasswordChange`, with the hash that is drawn for the new password.
  unfoldable pub handle_password_change :
      Db → User → Option (Bytes × Bytes) → Bytes → Reply (Unit {0}) × Db
  handle_password_change db u none hashed = (refused 400, db)
  handle_password_change db u (some (current, new)) hashed = elim (user_by_id db u.id) [
    | none ↦ (refused 500, db)
    | some cur ↦ elim cur.fabric_id [
      | some f ↦ (refused 400, db)
      | none ↦
          if not (hashing.check_password cur.password_hash current)
          then (refused 401, db)
          else if ltb (length new) 8
          then (refused 400, db)
          else (
            done tt,
            add_event (set_password db u.id hashed) u.id (bytes "change_password") [] clock.now,
          )
    ]
  ]

  -- `handleAdminCreateUser`
  unfoldable pub handle_admin_create_user :
      Db → Option (Bytes × Bytes × Bool) → Bytes → Reply (Unit {0}) × Db
  handle_admin_create_user db none hashed = (refused 400, db)
  handle_admin_create_user db (some (username, password, is_admin)) hashed =
      let (result, db') = create_user db username hashed is_admin clock.now in
      if ltb (length password) 8 then (refused 400, db) else elim result [
        | err conflict ↦ (refused 409, db')
        | err e ↦ (refused 400, db')
        | ok u ↦ (done tt, add_event db' u.id (bytes "admin_create_user") username clock.now)
      ]

  -- `handleAdminSetState`
  unfoldable pub handle_admin_set_state : Db → User → Option (Bytes × Bool) → Reply (Unit {0}) × Db
  handle_admin_set_state db admin none = (refused 400, db)
  handle_admin_set_state db admin (some (username, off)) = elim (user_by_name db username) [
    | none ↦ (refused 404, db)
    | some target ↦ if target.id == admin.id then (refused 400, db) else (
      done tt,
      add_event (set_disabled db target.id off) admin.id (bytes "admin_set_state") username
          clock.now,
    )
  ]

  -- `handleAdminSetPassword`
  unfoldable pub handle_admin_set_password :
      Db → User → Option (Bytes × Bytes) → Bytes → Reply (Unit {0}) × Db
  handle_admin_set_password db admin none hashed = (refused 400, db)
  handle_admin_set_password db admin (some (username, password)) hashed =
      if ltb (length password) 8 then (refused 400, db) else elim (user_by_name db username) [
        | none ↦ (refused 404, db)
        | some target ↦ (
          done tt,
          add_event (set_password db target.id hashed) admin.id (bytes "admin_reset_password")
              username clock.now,
        )
      ]

  -- `handleAdminDeleteUser`; the index of shares is invalidated behind it.
  unfoldable pub handle_admin_delete_user :
      (Bytes → Bool) → Bytes → World → User → Option Bytes → Reply (Unit {0}) × World
  handle_admin_delete_user fails data_root w admin none = (refused 400, w)
  handle_admin_delete_user fails data_root w admin (some username) =
      elim (user_by_name w.db username) [
        | none ↦ (refused 404, w)
        | some target ↦
            let (result, d) = remove_user fails data_root w.disk target.username in
            if target.id == admin.id
            then (refused 400, w)
            else if not target.disabled
            then (refused 400, w)
            else elim result [
              | err e ↦ (refused 500, record w { disk = d })
              | ok removed ↦
                  let (deleted, db) = delete_user w.db target.id in
                  elim deleted [
                    | err e ↦ (refused 500, record { db = db; disk = d })
                    | ok gone ↦ (
                      done tt,
                      record {
                        db =
                            add_event db admin.id (bytes "admin_delete_user") target.username
                              clock.now;
                        disk = d;
                      },
                    )
                  ]
            ]
      ]
