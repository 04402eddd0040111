-- ===== src/Store/Users/Fabric.antt =====
-- The users that a fabric login creates and finds.
use xx_drive.Prelude.{
  ℕ, ◌≡◌, ◌≢◌, refl, sym, ap, ◌∙◌, Bool, false, true, [], ◌∷◌, ◌++◌, Option, some, none, nat_eq,
  bytes_eq, arith, find, any, Option-cases, inl, inr,
}
use xx_drive.Prelude.Bytes.{Bytes, bytes}
use xx_drive.Prelude.Results.{ok, err, other}
use xx_drive.Prelude.Tables.{any-snoc, find-some, find-append}
use xx_drive.Store.Rows.{User, Db}
use xx_drive.Store.Users.{
  has_fabric_id, is_named, user_by_fabric_id, valid_segment_name, insert_user,
  fabric_shadow_username, get_or_create_fabric_user, unless_disabled, create_user,
}

has_fabric_id-some : (f : Bytes) (u : User) → has_fabric_id f u ≡ true → u.fabric_id ≡ some f
has_fabric_id-some f u h = elim (Option-cases u.fabric_id) [
  | inl local ↦ ground arith
  | inr (g, known) ↦ ground arith
]

unless_disabled-ok :
    (w : User) {u : User} → unless_disabled w ≡ ok u → (w ≡ u) × (u.disabled ≡ false)
unless_disabled-ok w e = ground arith

user_by_fabric_id-held :
    (db : Db) (fid : Bytes) {u : User} → user_by_fabric_id db fid ≡ some u → u.fabric_id ≡ some fid
unfolding user_by_fabric_id
user_by_fabric_id-held db fid {u} h =
    has_fabric_id-some fid u (find-some (has_fabric_id fid) db.users h)

-- The row that an insert for a fabric id adds is the one found under the id.
insert_user-found :
    (db : Db) (name hash : Bytes) (now : ℕ) (fid : Bytes) {u : User} {db' : Db}
    → insert_user db name hash false now (some fid) ≡ some (u, db')
    → (u.fabric_id ≡ some fid) × (u.disabled ≡ false) × (user_by_fabric_id db' fid ≡ some u)
unfolding insert_user user_by_fabric_id
insert_user-found db name hash now fid {u} {db'} e =
    let v : User = record {
      id = db.next_user;
      username = name;
      password_hash = hash;
      is_admin = false;
      disabled = false;
      created_at = now;
      fabric_id = some fid;
    } in
    let free : any (has_fabric_id fid) db.users ≡ false = ground arith in
    let here : v ≡ u = ground arith in
    let us : db'.users ≡ db.users ++ v ∷ [] = ground arith in
    let found = find-append (has_fabric_id fid) db.users (v ∷ []) free in
    rw (sym here, us) (refl, refl, found ∙ find_self v fid refl)
  where
    find_self :
        (v : User) (f : Bytes) → v.fabric_id ≡ some f → find (has_fabric_id f) (v ∷ []) ≡ some v
    find_self v f h = ground arith

-- A fabric login yields only the user that holds the presented id, never a disabled one, and the
-- database then finds that user under the id.
pub get_or_create_fabric_user-ok :
    (db : Db) (fid : Bytes) (now : ℕ) {u : User} {db' : Db}
    → get_or_create_fabric_user db fid now ≡ (ok u, db')
    → (u.fabric_id ≡ some fid) × (u.disabled ≡ false) × (user_by_fabric_id db' fid ≡ some u)
unfolding get_or_create_fabric_user
get_or_create_fabric_user-ok db fid now {u} {db'} e =
    elim (Option-cases (user_by_fabric_id db fid)) [
      | inr (w, known) ↦
          let same : db ≡ db' = ground arith in
          let passed : unless_disabled w ≡ ok u = ground arith in
          let (here, active) = unless_disabled-ok w passed in
          let has : user_by_fabric_id db' fid ≡ some u = rw (sym same, sym here) known in
          (user_by_fabric_id-held db' fid has, active, has)
      | inl unknown ↦
          let name = fabric_shadow_username fid in
          elim (Option-cases (insert_user db name (bytes "!") false now (some fid))) [
            | inl taken ↦ absurd (ground arith)
            | inr ((w, later), done) ↦
                let (held, active, has) = insert_user-found db name (bytes "!") now fid done in
                let same : later ≡ db' = ground arith in
                let here : w ≡ u = ground arith in rw (sym here, sym same) (held, active, has)
          ]
    ]

-- A second login with the same id yields the same user and changes nothing.
pub get_or_create_fabric_user-again :
    (db : Db) (fid : Bytes) (now later : ℕ) {u : User} {db' : Db}
    → get_or_create_fabric_user db fid now ≡ (ok u, db')
    → get_or_create_fabric_user db' fid later ≡ (ok u, db')
unfolding get_or_create_fabric_user
get_or_create_fabric_user-again db fid now later {u} {db'} e =
    let (held, active, has) = get_or_create_fabric_user-ok db fid now e in
    let valid : valid_segment_name fid 200 ≡ true = ground arith in rw (valid, has, active) refl

-- Logins with two different ids never yield one user, whatever happened between them.
pub get_or_create_fabric_user_separate :
    (db later : Db) (fid fid' : Bytes) (now now' : ℕ) {u v : User} {db' later' : Db}
    → fid ≢ fid'
    → get_or_create_fabric_user db fid now ≡ (ok u, db')
    → get_or_create_fabric_user later fid' now' ≡ (ok v, later')
    → u ≢ v
get_or_create_fabric_user_separate db later fid fid' now now' ne e e' same =
    let (held, _, _) = get_or_create_fabric_user-ok db fid now e in
    let (held', _, _) = get_or_create_fabric_user-ok later fid' now' e' in
    let ids = ap (λ (w : User). w.fabric_id) same in ground arith

create_user-named :
    (db : Db) (name hash : Bytes) (admin : Bool) (now : ℕ) {u : User} {db' : Db}
    → create_user db name hash admin now ≡ (ok u, db')
    → any (is_named name) db'.users ≡ true
unfolding create_user insert_user
create_user-named db name hash admin now {u} {db'} e =
    let v : User = record {
      id = db.next_user;
      username = name;
      password_hash = hash;
      is_admin = admin;
      disabled = false;
      created_at = now;
      fabric_id = none;
    } in
    let us : db.users ++ v ∷ [] ≡ db'.users = ground arith in
    rw (sym us) (any-snoc (is_named name) db.users v (self v))
  where
    self : (w : User) → is_named w.username w ≡ true
    self w = ground arith

insert_user-taken :
    (db : Db) (name hash : Bytes) (admin : Bool) (now : ℕ) (fid : Option Bytes)
    → any (is_named name) db.users ≡ true
    → insert_user db name hash admin now fid ≡ none
unfolding insert_user
insert_user-taken db name hash admin now fid h = rw h refl

-- A local user may take the shadow name of a fabric id that has not logged in yet. From then on each
-- login with that id fails.
pub create_user-blocks_fabric :
    (db : Db) (fid hash : Bytes) (admin : Bool) (now later : ℕ) {u : User} {db' : Db}
    → create_user db (fabric_shadow_username fid) hash admin now ≡ (ok u, db')
    → user_by_fabric_id db' fid ≡ none
    → valid_segment_name fid 200 ≡ true
    → get_or_create_fabric_user db' fid later ≡ (err other, db')
unfolding get_or_create_fabric_user
create_user-blocks_fabric db fid hash admin now later {u} {db'} e unknown valid =
    let name = fabric_shadow_username fid in
    let here = create_user-named db name hash admin now e in
    let taken = insert_user-taken db' name (bytes "!") false later (some fid) here in
    rw (valid, unknown, taken) (rw unknown refl)
