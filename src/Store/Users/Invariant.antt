-- ===== src/Store/Users/Invariant.antt =====
-- The users table: ids, names and fabric ids are unique, and every name is one path segment.
use xx_drive.Prelude.{
  ℕ, suc, ◌<◌, ◌≡◌, ◌≢◌, refl, inl, inr, Bool, true, false, not, List, [], ◌∷◌, ◌++◌, Option, none,
  some, ◌==◌, nat_eq, bytes_eq, arith, any, All, All-append, All-keep, Bool-cases, Option-cases,
  contains, ℕ_discrete,
}
use xx_drive.Prelude.Bytes.{Bytes, bytes, contains_any}
use xx_drive.Prelude.Tables.{
  Distinct, Distinct-snoc, Distinct-keep, Distinct-update, All-update, All-map, any-none, update,
}
use xx_drive.Filepath.{slash, dot, dot_dot}
use xx_drive.Filepath.Segments.{IsSegment, Lacks, Lacks-append}
use xx_drive.Drive.Paths.{backslash}
use xx_drive.Store.Rows.{User, Db}
use xx_drive.Store.Users.{
  valid_segment_name, valid_username, is_named, has_id, has_fabric_id, insert_user, create_user,
  fabric_shadow_username, get_or_create_fabric_user, delete_user, set_password, set_disabled,
  user_by_fabric_id,
}

abbrev pub same_id : User → User → Bool
same_id u v = u.id == v.id

abbrev pub same_name : User → User → Bool
same_name u v = u.username == v.username

abbrev pub same_fabric : User → User → Bool
same_fabric u v = elim v.fabric_id [ some f ↦ has_fabric_id f u | none ↦ false ]

-- A user is below the next id, its name is one path segment, and a fabric user bears its id's name.
pub record IsUser (next : ℕ) (u : User) : Type 0 where
  pub below : u.id < next
  pub segment : IsSegment u.username
  pub shadow : (f : Bytes) → u.fabric_id ≡ some f → u.username ≡ fabric_shadow_username f

pub record IsUsers (us : List User) (next : ℕ) : Type 0 where
  pub each : All (IsUser next) us
  pub ids : Distinct same_id us
  pub names : Distinct same_name us
  pub fabrics : Distinct same_fabric us

-- The users table of a database is well formed.
abbrev pub HasUsers : Db → Type 0
HasUsers db = IsUsers db.users db.next_user

contains_any-Lacks :
    (s chars : Bytes) (c : ℕ) → contains chars c ≡ true → contains_any s chars ≡ false → Lacks c s
unfolding contains_any
contains_any-Lacks [] chars c _ _ = refl
contains_any-Lacks (d ∷ s) chars c h e = ground (arith, contains_any-Lacks s chars c)

test-ne : (s t : Bytes) → (s == t) ≡ false → s ≢ t
test-ne s t h e = ground arith

valid_segment_name-tests :
    (name : Bytes) (max_len : ℕ)
    → valid_segment_name name max_len ≡ true
    → ((name == []) ≡ false)
      × ((name == dot) ≡ false)
      × ((name == dot_dot) ≡ false)
      × (contains_any name (slash ∷ backslash ∷ 0 ∷ []) ≡ false)
unfolding valid_segment_name
valid_segment_name-tests name max_len h = (ground arith, ground arith, ground arith, ground arith)

pub valid_segment_name-IsSegment :
    (name : Bytes) (max_len : ℕ) → valid_segment_name name max_len ≡ true → IsSegment name
unfolding ℕ_discrete
valid_segment_name-IsSegment name max_len h =
    let (some_byte, not_dot, not_dot_dot, plain) = valid_segment_name-tests name max_len h in
    record {
      some_byte = test-ne name [] some_byte;
      not_dot = test-ne name dot not_dot;
      not_dot_dot = test-ne name dot_dot not_dot_dot;
      no_slash = contains_any-Lacks name (slash ∷ backslash ∷ 0 ∷ []) slash refl plain;
    }

fabric_shadow_username-IsSegment :
    (fid : Bytes) → IsSegment fid → IsSegment (fabric_shadow_username fid)
unfolding ℕ_discrete
fabric_shadow_username-IsSegment fid s = record {
  some_byte = λ e. cc;
  not_dot = λ e. ground arith;
  not_dot_dot = λ e. ground arith;
  no_slash = Lacks-append slash (bytes "fabric_") fid refl s.no_slash;
}

IsUser-grow : (next : ℕ) (u : User) → IsUser next u → IsUser (suc next) u
IsUser-grow next u h = record { below = grind arith; segment = h.segment; shadow = h.shadow }

fresh_id :
    (next : ℕ) (us : List User) (v : User)
    → v.id ≡ next
    → All (IsUser next) us
    → All (λ u. same_id u v ≡ false) us
fresh_id next [] v _ _ = tt
fresh_id next (u ∷ us) v e (h, hs) = (let lt = h.below in ground arith, fresh_id next us v e hs)

All-true : (us : List User) → All (λ u. false ≡ false) us
All-true [] = tt
All-true (u ∷ us) = (refl, All-true us)

fresh_fabric :
    (us : List User) (v : User)
    → ((f : Bytes) → v.fabric_id ≡ some f → any (has_fabric_id f) us ≡ false)
    → All (λ u. same_fabric u v ≡ false) us
fresh_fabric us v h = elim (Option-cases v.fabric_id) [
  | inl local ↦ rw local (All-true us)
  | inr (f, shadow) ↦ rw shadow (any-none (has_fabric_id f) us (h f shadow))
]

-- An insert that the constraints admit.
pub insert_user-HasUsers :
    (db : Db) (name hash : Bytes) (admin : Bool) (now : ℕ) (fid : Option Bytes) {u : User}
    {db' : Db}
    → HasUsers db
    → IsSegment name
    → ((f : Bytes) → fid ≡ some f → name ≡ fabric_shadow_username f)
    → insert_user db name hash admin now fid ≡ some (u, db')
    → HasUsers db'
unfolding insert_user
insert_user-HasUsers db name hash admin now fid {u} {db'} h seg shadow e =
    let v : User = record {
      id = db.next_user;
      username = name;
      password_hash = hash;
      is_admin = admin;
      disabled = false;
      created_at = now;
      fabric_id = fid;
    } in
    let free : any (is_named name) db.users ≡ false = ground arith in
    let us : db'.users ≡ db.users ++ v ∷ [] = ground arith in
    let next : db'.next_user ≡ suc db.next_user = ground arith in
    let old : All (IsUser (suc db.next_user)) db.users =
      All-map (IsUser-grow db.next_user) db.users h.each in
    let new : IsUser (suc db.next_user) v = record {
      below = omega arith;
      segment = seg;
      shadow = shadow;
    } in
    rw (us, next)
      (record {
        each = All-append (IsUser (suc db.next_user)) db.users (v ∷ []) old (new, tt);
        ids = Distinct-snoc same_id db.users v h.ids (fresh_id db.next_user db.users v refl h.each);
        names = Distinct-snoc same_name db.users v h.names (any-none (is_named name) db.users free);
        fabrics =
            Distinct-snoc same_fabric db.users v h.fabrics
              (fresh_fabric db.users v (λ f same. ground arith));
      })

pub create_user-HasUsers :
    (db : Db) (name hash : Bytes) (admin : Bool) (now : ℕ)
    → HasUsers db
    → HasUsers ((create_user db name hash admin now).1)
unfolding create_user valid_username
create_user-HasUsers db name hash admin now h = elim (Bool-cases (valid_segment_name name 64)) [
  | inr refused ↦ rw refused h
  | inl valid ↦ elim (Option-cases (insert_user db name hash admin now none)) [
    | inl taken ↦ rw (valid, taken) h
    | inr ((u, db'), done) ↦
        rw (valid, done)
          (insert_user-HasUsers db name hash admin now none h
            (valid_segment_name-IsSegment name 64 valid) (λ f e. cc) done)
  ]
]

pub get_or_create_fabric_user-HasUsers :
    (db : Db) (fid : Bytes) (now : ℕ)
    → HasUsers db
    → HasUsers ((get_or_create_fabric_user db fid now).1)
unfolding get_or_create_fabric_user
get_or_create_fabric_user-HasUsers db fid now h = elim (Bool-cases (valid_segment_name fid 200)) [
  | inr refused ↦ rw refused h
  | inl valid ↦ elim (Option-cases (user_by_fabric_id db fid)) [
    | inr (u, known) ↦ rw (valid, known) h
    | inl unknown ↦
        let name = fabric_shadow_username fid in
        elim (Option-cases (insert_user db name (bytes "!") false now (some fid))) [
          | inl taken ↦ rw (valid, unknown, taken) h
          | inr ((u, db'), done) ↦
              rw (valid, unknown, done)
                (insert_user-HasUsers db name (bytes "!") false now (some fid) h
                  (fabric_shadow_username-IsSegment fid
                    (valid_segment_name-IsSegment fid 200 valid))
                  (λ f e. ground arith) done)
        ]
  ]
]

pub delete_user-HasUsers : (db : Db) (id : ℕ) → HasUsers db → HasUsers ((delete_user db id).1)
unfolding delete_user
delete_user-HasUsers db id h = elim (Bool-cases (any (has_id id) db.users)) [
  | inr absent ↦ rw absent h
  | inl here ↦
      let p : User → Bool = λ u. not (u.id == id) in
      rw here (record {
        each = All-keep (IsUser db.next_user) p db.users h.each;
        ids = Distinct-keep same_id p db.users h.ids;
        names = Distinct-keep same_name p db.users h.names;
        fabrics = Distinct-keep same_fabric p db.users h.fabrics;
      })
]

-- An update that leaves ids, names and fabric ids alone.
update-IsUsers :
    (p : User → Bool) (f : User → User) (us : List User) (next : ℕ)
    → ((u : User) → (f u).id ≡ u.id)
    → ((u : User) → (f u).username ≡ u.username)
    → ((u : User) → (f u).fabric_id ≡ u.fabric_id)
    → IsUsers us next
    → IsUsers (update p f us) next
update-IsUsers p f us next i n b h = record {
  each =
      All-update (IsUser next) p f us
        (λ u k. record {
          below = rw (i u) k.below;
          segment = rw (n u) k.segment;
          shadow = rw (n u, b u) k.shadow;
        })
        h.each;
  ids = Distinct-update same_id p f us (λ u v. rw (i u) refl) (λ u v. rw (i v) refl) h.ids;
  names = Distinct-update same_name p f us (λ u v. rw (n u) refl) (λ u v. rw (n v) refl) h.names;
  fabrics =
      Distinct-update same_fabric p f us (λ u v. ground (arith, b u, Option-cases v.fabric_id))
        (λ u v. rw (b v) refl) h.fabrics;
}

pub set_password-HasUsers :
    (db : Db) (id : ℕ) (hash : Bytes) → HasUsers db → HasUsers (set_password db id hash)
unfolding set_password
set_password-HasUsers db id hash h =
    update-IsUsers (has_id id) (λ u. record u { password_hash = hash }) db.users db.next_user
      (λ u. refl) (λ u. refl) (λ u. refl) h

pub set_disabled-HasUsers :
    (db : Db) (id : ℕ) (off : Bool) → HasUsers db → HasUsers (set_disabled db id off)
unfolding set_disabled
set_disabled-HasUsers db id off h =
    update-IsUsers (has_id id) (λ u. record u { disabled = off }) db.users db.next_user (λ u. refl)
      (λ u. refl) (λ u. refl) h
