-- ===== src/Tests/Versions.antt =====
-- The version index at concrete inputs, with LIKE as a function that behaves as documented.
use xx_drive.Prelude.{
  ◌≡◌, ◌≢◌, ◌⊎◌, ◌↔◌, inr, refl, ℕ, Bool, true, false, ◌&&◌, ◌||◌, ◌==◌, nat_eq, if◌then◌else◌, [],
  List, ◌∷◌, ◌++◌, none, any, bytes_eq, ℕ_discrete, arith,
}
use xx_drive.Prelude.Bytes.{Bytes, bytes, contains_any, split, join, has_prefix, trim_prefix}
use xx_drive.Prelude.Results.{Result}
use xx_drive.Filepath.{slash, clean}
use xx_drive.Filepath.Canonical.{IsTail}
use xx_drive.Store.Rows.{User, Version, Db, empty}
use xx_drive.Store.Users.{valid_segment_name, user_by_id, user_by_name}
use xx_drive.Store.Users.Invariant.{HasUsers, valid_segment_name-IsSegment}
use xx_drive.Store.Like.{
  escape_char, percent, underscore, escape_like, fold, is_special, is_under, IsLike,
}
use xx_drive.Store.Like.Subtree.{SameFolded, is_under_iff}
use xx_drive.Store.Versions.{
  VersionRef, add_version, list_versions, relocate_versions, delete_versions_under,
  move_specific_versions, move_version, delete_specific_versions, prune_versions,
}
use xx_drive.Store.Versions.Subtrees.{
  delete_versions_under-list_versions, delete_versions_under_other_case,
}
use xx_drive.Store.Versions.Relocated.{relocate_versions-list_versions}

abbrev pub suffixes : Bytes → List Bytes
suffixes [] = [] ∷ []
suffixes (c ∷ s) = (c ∷ s) ∷ suffixes s

-- The flag tells whether an escape character was read.
unfoldable pub match : Bool → Bytes → Bytes → Bool
match false [] s = s == []
match true [] s = false
match true (c ∷ p) [] = false
match true (c ∷ p) (d ∷ s) = fold d == fold c && match false p s
match false (c ∷ p) s =
    let escaped = match true p s in
    let many = any (match false p) (suffixes s) in
    if c == escape_char
    then escaped
    else if c == percent
    then many
    else elim s [ [] ↦ false | d ∷ t ↦ (c == underscore || fold d == fold c) && match false p t ]

abbrev pub like : Bytes → Bytes → Bool
like = match false

match-plain :
    (c d : ℕ) (p s : Bytes)
    → is_special c ≡ false
    → like (c ∷ p) (d ∷ s) ≡ (fold d == fold c && like p s)
unfolding match
match-plain c d p s h = ground arith

match-plain_end : (c : ℕ) (p : Bytes) → is_special c ≡ false → like (c ∷ p) [] ≡ false
unfolding match
match-plain_end c p h = ground arith

pub like-IsLike : IsLike like
unfolding match ℕ_discrete
like-IsLike = record {
  done = λ s. refl;
  wildcard_none = ground arith;
  wildcard_all = λ c s. ground arith;
  escaped = λ c d p s. refl;
  escaped_end = λ c p. refl;
  plain = λ c d p s h. match-plain c d p s h;
  plain_end = λ c p h. match-plain_end c p h;
}

unfoldable runs : Db → ℕ → Bytes → Bytes → ℕ → ℕ → Result (Unit {0}) × Db
unfolding add_version list_versions relocate_versions delete_versions_under move_specific_versions
    move_version delete_specific_versions prune_versions escape_like user_by_id user_by_name
    has_prefix trim_prefix match bytes_eq ℕ_discrete
runs = add_version

abbrev pub amy : User
amy = record {
  id = 1;
  username = bytes "amy";
  password_hash = bytes "h";
  is_admin = false;
  disabled = false;
  created_at = 1;
  fabric_id = none;
}

abbrev pub version : ℕ → Bytes → Bytes → Version
version id path name = record {
  id = id;
  user_id = 1;
  path = path;
  version_id = name;
  size = 3;
  created_at = id;
}

-- Two versions of /d_1/a, and one each of /D_1/b and /dx1/c.
abbrev db : Db
db = record empty {
  users = amy ∷ [];
  next_user = 2;
  versions =
      version 1 (bytes "/d_1/a") (bytes "v1")
      ∷ version 2 (bytes "/d_1/a") (bytes "v2")
      ∷ version 3 (bytes "/D_1/b") (bytes "v3")
      ∷ version 4 (bytes "/dx1/c") (bytes "v4")
      ∷ [];
  next_version = 5;
}

is_under_iff_example : (is_under like (bytes "/d_1") (bytes "/dx1/c") ≡ true) ↔ (
    (bytes "/dx1/c" ≡ bytes "/d_1")
    ⊎ ((q t : Bytes) × (bytes "/dx1/c" ≡ q ++ slash ∷ t) × SameFolded q (bytes "/d_1")))
is_under_iff_example = is_under_iff like like-IsLike (bytes "/d_1") (bytes "/dx1/c")

abbrev purged : Db
purged = (delete_versions_under like db 1 (bytes "/d_1")).1

delete_versions_under-list_versions_example :
    ((t : Bytes) → IsTail t → list_versions purged 1 (bytes "/d_1" ++ t) ≡ [])
    × ((user' : ℕ) (path : Bytes)
        → (user' ≢ 1)
          ⊎ ((path ≢ bytes "/d_1")
              × ((q t : Bytes) → SameFolded q (bytes "/d_1") → path ≢ q ++ slash ∷ t))
        → list_versions purged user' path ≡ list_versions db user' path)
unfolding runs
delete_versions_under-list_versions_example =
    delete_versions_under-list_versions like like-IsLike db 1 (bytes "/d_1")
      {paths = bytes "/d_1/a" ∷ bytes "/D_1/b" ∷ []} refl

delete_versions_under_other_case_example : list_versions purged 1 (bytes "/D_1/b") ≡ []
unfolding runs
delete_versions_under_other_case_example =
    delete_versions_under_other_case like like-IsLike db 1 (bytes "/d_1") (bytes "/D_1") (bytes "b")
      {paths = bytes "/d_1/a" ∷ bytes "/D_1/b" ∷ []} refl refl

relocate_versions-list_versions_example :
    list_versions ((relocate_versions like db 1 (bytes "/dx1") (bytes "/e")).1) 1 (bytes "/e/c")
    ≡ list_versions db 1 (bytes "/dx1/c")
unfolding runs
relocate_versions-list_versions_example =
    relocate_versions-list_versions like 1 (bytes "/dx1") (bytes "/e") like-IsLike db (bytes "/c")
      (inr (bytes "c", refl)) refl refl
      (
        record { spelled = λ h. cc; vacant = refl },
        (
          record { spelled = λ h. cc; vacant = refl },
          (
            record { spelled = λ h. cc; vacant = refl },
            (record { spelled = λ h. refl; vacant = refl }, tt),
          ),
        ),
      )

abbrev listed : List VersionRef
listed = record { path = bytes "/d_1/a"; version_id = bytes "v1" } ∷ []

db-HasUsers : HasUsers db
unfolding valid_segment_name contains_any clean split join bytes_eq ℕ_discrete
db-HasUsers = record {
  each = (
    record {
      below = ground arith;
      segment = valid_segment_name-IsSegment (bytes "amy") 64 refl;
      shadow = λ f e. cc;
    },
    tt,
  );
  ids = (tt, tt);
  names = (tt, tt);
  fabrics = (tt, tt);
}
