-- ===== src/Store/Users.antt =====
-- internal/store/store.go: the users table.
pub mod Invariant
pub mod Steps
pub mod Fabric
pub mod Deletion
use xx_drive.Prelude.{
  ℕ, suc, ◌+◌, Bool, true, false, not, ◌&&◌, ◌||◌, List, [], ◌∷◌, ◌++◌, Option, none, some, map,
  if◌then◌else◌, ◌==◌, nat_eq, bytes_eq, ltb, any, find, keep, length, contains,
}
use xx_drive.Prelude.Bytes.{Bytes, bytes, contains_any}
use xx_drive.Prelude.Tables.{update}
use xx_drive.Prelude.Results.{Result, ok, err, not_found, conflict, disabled, other}
use xx_drive.Filepath.{slash, dot, dot_dot, clean}
use xx_drive.Drive.Paths.{backslash}
use xx_drive.Store.Rows.{User, Session, Share, Star, Event, Version, Etag, Db}

-- `validSegmentName`
unfoldable pub valid_segment_name : Bytes → ℕ → Bool
unfolding contains_any clean
valid_segment_name name max_len =
    if name == [] || ltb max_len (length name)
    then false
    else if contains_any name (slash ∷ backslash ∷ 0 ∷ [])
    then false
    else if name == dot || name == dot_dot
    then false
    else clean name == name

-- `validUsername`
unfoldable pub valid_username : Bytes → Bool
unfolding valid_segment_name
valid_username name = valid_segment_name name 64

abbrev pub is_named : Bytes → User → Bool
is_named name u = u.username == name

abbrev pub has_id : ℕ → User → Bool
has_id id u = u.id == id

abbrev pub has_fabric_id : Bytes → User → Bool
has_fabric_id fid u = elim u.fabric_id [ some f ↦ f == fid | none ↦ false ]

-- `UserByName`, `UserByID` and `UserByFabricID`; `none` is ErrNotFound.
unfoldable pub user_by_name : Db → Bytes → Option User
user_by_name db name = find (is_named name) db.users

unfoldable pub user_by_id : Db → ℕ → Option User
user_by_id db id = find (has_id id) db.users

unfoldable pub user_by_fabric_id : Db → Bytes → Option User
user_by_fabric_id db fid = find (has_fabric_id fid) db.users

-- `ListUsers`; the rows are in the order of their ids.
unfoldable pub list_users : Db → List User
list_users db = db.users

-- `CountUsers`
unfoldable pub count_users : Db → ℕ
count_users db = length db.users

-- The UNIQUE constraints on the username and on the fabric id.
abbrev pub is_taken : Db → Bytes → Option Bytes → Bool
is_taken db name fid =
    any (is_named name) db.users
    || elim fid [ some f ↦ any (has_fabric_id f) db.users | none ↦ false ]

-- INSERT INTO users; `none` is a violated constraint.
unfoldable pub insert_user : Db → Bytes → Bytes → Bool → ℕ → Option Bytes → Option (User × Db)
insert_user db name hash admin now fid =
    let u : User = record {
      id = db.next_user;
      username = name;
      password_hash = hash;
      is_admin = admin;
      disabled = false;
      created_at = now;
      fabric_id = fid;
    } in
    if is_taken db name fid
    then none
    else some (u, record db { users = db.users ++ u ∷ []; next_user = suc db.next_user })

-- `CreateUser`. A refused name is wrapped as ErrNotFound, as in the source.
unfoldable pub create_user : Db → Bytes → Bytes → Bool → ℕ → Result User × Db
create_user db username hash admin now =
    if not (valid_username username)
    then (err not_found, db)
    else elim (insert_user db username hash admin now none) [
      | none ↦ (err conflict, db)
      | some (u, db') ↦ (ok u, db')
    ]

-- `fabricShadowUsername`
abbrev pub fabric_shadow_username : Bytes → Bytes
fabric_shadow_username fid = bytes "fabric_" ++ fid

-- The check on a user row that was found.
abbrev pub unless_disabled : User → Result User
unless_disabled u = if u.disabled then err disabled else ok u

-- The lookup after an insert, and after a failed one.
abbrev pub or_error : Option User → Result User
or_error none = err other
or_error (some u) = unless_disabled u

abbrev pub or_not_found : Option User → Result User
or_not_found none = err not_found
or_not_found (some u) = ok u

-- `GetOrCreateFabricUser`
unfoldable pub get_or_create_fabric_user : Db → Bytes → ℕ → Result User × Db
get_or_create_fabric_user db fid now =
    if not (valid_segment_name fid 200)
    then (err not_found, db)
    else elim (user_by_fabric_id db fid) [
      | some u ↦ (unless_disabled u, db)
      | none ↦ elim (insert_user db (fabric_shadow_username fid) (bytes "!") false now (some fid)) [
        | none ↦ (or_error (user_by_fabric_id db fid), db)
        | some (u, db') ↦ (or_not_found (user_by_fabric_id db' fid), db')
      ]
    ]

-- The rows that ON DELETE CASCADE leaves, and etag_cache without the user's.
abbrev pub without_user : Db → ℕ → Db
without_user db id = record db {
  users = keep (λ (u : User). not (u.id == id)) db.users;
  sessions = keep (λ (s : Session). not (s.user_id == id)) db.sessions;
  shares = keep (λ (s : Share). not (s.user_id == id)) db.shares;
  stars = keep (λ (s : Star). not (s.user_id == id)) db.stars;
  events = keep (λ (e : Event). not (e.user_id == id)) db.events;
  versions = keep (λ (v : Version). not (v.user_id == id)) db.versions;
  etags = keep (λ (e : Etag). not (e.user_id == id)) db.etags;
}

-- `DeleteUser`
unfoldable pub delete_user : Db → ℕ → Result (Unit {0}) × Db
delete_user db id =
    if any (has_id id) db.users then (ok tt, without_user db id) else (err not_found, db)

-- `SetPassword`
unfoldable pub set_password : Db → ℕ → Bytes → Db
set_password db id hash = record db {
  users = update (has_id id) (λ u. record u { password_hash = hash }) db.users;
}

-- `SetDisabled`; disabling ends the user's sessions.
unfoldable pub set_disabled : Db → ℕ → Bool → Db
set_disabled db id off = record db {
  users = update (has_id id) (λ u. record u { disabled = off }) db.users;
  sessions = if off then keep (λ (s : Session). not (s.user_id == id)) db.sessions else db.sessions;
}
