-- ===== src/Api/Auth.antt =====
-- internal/api/server.go: who a request comes from, and the checks before a handler that writes.
pub mod Identity
pub mod Csrf
use xx_drive.Prelude.{
  ℕ, Bool, true, false, not, ◌&&◌, ◌||◌, List, [], ◌∷◌, ◌++◌, Option, none, some, if◌then◌else◌,
  ◌==◌, nat_eq, bytes_eq, contains,
}
use xx_drive.Prelude.Bytes.{Bytes, bytes, has_prefix, trim_prefix}
use xx_drive.Prelude.Results.{Result, ok, err, disabled}
use xx_drive.Store.Rows.{User, Session, Db}
use xx_drive.Store.Users.{get_or_create_fabric_user}
use xx_drive.Store.Sessions.{session}
use xx_drive.Fabric.{Codecs, Keyring, looks_like_token, user_id_for}

-- The headers that are looked at; a header that is absent is the empty text.
pub record Request : Type 0 where
  pub authorization : Bytes
  pub cookie : Option Bytes
  pub origin : Bytes
  pub referer : Bytes
  pub csrf_header : Bytes
  pub host : Bytes

-- Either an error was written with this status, or the handler goes on with a value.
pub data Answer (V : Type 0) : Type 0 where
  refused : ℕ → Answer V
  pass : V → Answer V

-- The text up to the first of "/", "?" and "#".
abbrev pub up_to_mark : Bytes → Bytes
up_to_mark [] = []
up_to_mark (c ∷ s) =
    let rest = c ∷ up_to_mark s in if contains (b'/' ∷ b'?' ∷ b'#' ∷ []) c then [] else rest

-- `parseOrigin`
unfoldable pub parse_origin : Bytes → Option Bytes
parse_origin origin =
    let o = up_to_mark (trim_prefix (trim_prefix origin (bytes "https://")) (bytes "http://")) in
    if o == [] then none else some o

-- `originAbsent`
abbrev pub origin_absent : Request → Bool
origin_absent r = r.origin == [] && r.referer == []

module _ (split_host_port : Bytes → Option Bytes) where
  -- `hostOf`, with net.SplitHostPort as a function to the host.
  abbrev pub host_of : Bytes → Bytes
  host_of host_port = elim (split_host_port host_port) [ some h ↦ h | none ↦ host_port ]

  -- The host that the Origin, or else the Referer, names is the request's.
  unfoldable pub same_origin : Request → Bool
  same_origin r =
      let origin = if r.origin == [] then r.referer else r.origin in
      if origin == []
      then false
      else elim (parse_origin origin) [ none ↦ false | some o ↦ o == r.host || o == host_of r.host ]

  -- The checks of `mutating` before it takes the user's lock.
  unfoldable pub mutating_allowed : Request → Bool
  mutating_allowed r =
      if r.authorization == []
      then same_origin r || (origin_absent r && not (r.csrf_header == []))
      else true

-- The credential that `authenticate` looks at: a bearer token, or else the session cookie.
unfoldable pub credential : Request → Bytes
credential r =
    if has_prefix r.authorization (bytes "Bearer ")
    then trim_prefix r.authorization (bytes "Bearer ")
    else elim r.cookie [ some c ↦ c | none ↦ [] ]

abbrev pub identity_answer : Result User → Answer User
identity_answer (ok u) = pass u
identity_answer (err disabled) = refused 403
identity_answer (err e) = refused 500

abbrev pub session_answer : Result (Session × User) → Answer User
session_answer (ok (s, u)) = pass u
session_answer (err e) = refused 401

module _ {Float : Type 0} (codecs : Codecs Float) (hash_token : Bytes → Bytes) where
  -- `authenticateFabric`; the ring is absent when none is configured. `moment` is in nanoseconds and
  -- `now` in seconds.
  unfoldable pub authenticate_fabric : Option Keyring → Db → Bytes → ℕ → ℕ → Answer User × Db
  authenticate_fabric ring db token moment now = elim ring [
    | none ↦ (refused 401, db)
    | some keys ↦ elim (user_id_for codecs keys (bytes "Bearer " ++ token) moment) [
      | err e ↦ (refused 401, db)
      | ok uid ↦
          let (found, db') = get_or_create_fabric_user db uid now in (identity_answer found, db')
    ]
  ]

  -- `authenticate`
  unfoldable pub authenticate : Option Keyring → Db → Request → ℕ → ℕ → ℕ → Answer User × Db
  authenticate ring db r ttl moment now =
      let raw = credential r in
      if raw == []
      then (refused 401, db)
      else if looks_like_token raw
      then authenticate_fabric ring db raw moment now
      else let (found, db') = session hash_token db raw ttl now in (session_answer found, db')

-- `adminOnly` behind `authed`.
abbrev pub admin_only : User → Answer User
admin_only u = if u.is_admin then pass u else refused 403
