-- ===== src/Drive/Layout.antt =====
-- The areas of the data root: the users' files, the staging of uploads and the stored versions lie
-- apart from each other.
use xx_drive.Prelude.{
  ℕ, ◌≡◌, refl, ap, ◌∙◌, ◌≢◌, subst, drop, List, none, [], ◌∷◌, ◌++◌, append_assoc, nat_eq,
  bytes_eq, All, All-append, All-append_left, All-append_right, arith,
}
use xx_drive.Prelude.Bytes.{Bytes, bytes, split, join}
use xx_drive.Prelude.Results.{ok}
use xx_drive.Filepath.{slash, dot, dot_dot, clean, join_paths}
use xx_drive.Filepath.Segments.{Lacks-append, IsSegment, split_of_Lacks}
use xx_drive.Drive.Resolve.{Lstat, user_dir, resolve_user_path}
use xx_drive.Drive.Resolve.Within.{split_concat, resolve-split}
use xx_drive.Drive.Resolve.Location.{user_dir-plain, resolve_user_path-within, join_paths-cons}
use xx_drive.Drive.Resolve.Links.{within-IsTail}
use xx_drive.Drive.Trash.{trash_dir}
use xx_drive.Drive.Versions.{version_dir}
use xx_drive.Drive.Versions.Unharmed.{temp_at, final_at}
use xx_drive.Disk.{strip}
use xx_drive.Disk.Rename.{strip-longer}
use xx_drive.Disk.Strip.{Apart, Apart-longer, Apart-append}

-- A text whose parts between slashes are all segments.
abbrev pub IsPlain : Bytes → Type 0
IsPlain s = All IsSegment (split slash s)

pub IsPlain-append : (s t : Bytes) → IsPlain s → IsPlain t → IsPlain (s ++ slash ∷ t)
IsPlain-append s t h k = rw split_concat (All-append IsSegment (split slash s) (split slash t) h k)

pub IsPlain-left : (s t : Bytes) → IsPlain (s ++ slash ∷ t) → IsPlain s
IsPlain-left s t h =
    All-append_left IsSegment (split slash s) (split slash t)
      (subst (All IsSegment) (split_concat s t) h)

pub IsPlain-right : (s t : Bytes) → IsPlain (s ++ slash ∷ t) → IsPlain t
IsPlain-right s t h =
    All-append_right IsSegment (split slash s) (split slash t)
      (subst (All IsSegment) (split_concat s t) h)

pub IsPlain-segment : (p : Bytes) → IsSegment p → IsPlain p
IsPlain-segment p h = rw (split_of_Lacks slash p h.no_slash) (h, tt)

-- Where something resolves, the root and the username are plain.
pub resolved-IsPlain :
    (lstat : Bytes → Lstat) (r user rel : Bytes) {abs logical : Bytes}
    → resolve_user_path lstat (slash ∷ r) user rel ≡ ok (abs, logical)
    → IsPlain r × IsPlain user
resolved-IsPlain lstat r user rel e =
    let h = user_dir-plain lstat r user rel e in
    (
      IsPlain-left r (bytes "files" ++ slash ∷ user) h,
      IsPlain-right (bytes "files") user (IsPlain-right r (bytes "files" ++ slash ∷ user) h),
    )

join_two :
    (p e : Bytes) (es : List Bytes) → join slash (p ∷ e ∷ es) ≡ p ++ slash ∷ join slash (e ∷ es)
unfolding join
join_two p e es = refl

join_plain :
    (r e : Bytes) (es : List Bytes)
    → IsPlain r
    → IsPlain (join slash (e ∷ es))
    → join_paths ((slash ∷ r) ∷ e ∷ es) ≡ (slash ∷ r) ++ slash ∷ join slash (e ∷ es)
join_plain r e es h k =
    join_paths-cons slash r (e ∷ es)
    ∙ ap clean (join_two (slash ∷ r) e es)
    ∙ resolve-split (r ++ slash ∷ join slash (e ∷ es)) (IsPlain-append r (join slash (e ∷ es)) h k)

-- A place in the area of the root whose name begins with the letter.
abbrev pub InArea : Bytes → ℕ → Bytes → Type 0
InArea r letter p = (s : Bytes) × (p ≡ (slash ∷ (r ++ slash ∷ [])) ++ letter ∷ s)

-- A user's path lies in the area of the files.
pub resolved-in_files :
    (lstat : Bytes → Lstat) (r user rel : Bytes) {abs logical : Bytes}
    → resolve_user_path lstat (slash ∷ r) user rel ≡ ok (abs, logical)
    → InArea r b'f' abs
resolved-in_files lstat r user rel e =
    let (l, _, place) = resolve_user_path-within lstat r user rel e in
    let (s, _, same) = within-IsTail (user_dir (slash ∷ r) user) l.canonical in
    (bytes "iles" ++ slash ∷ (user ++ s), place ∙ same ∙ simp append_assoc)

tmp-IsSegment : IsSegment (bytes "tmp")
tmp-IsSegment = ground arith

versions-IsSegment : IsSegment (bytes "versions")
versions-IsSegment = ground arith

-- The names of the areas of the root.
pub staged-in_tmp :
    (r name : Bytes)
    → IsPlain r
    → IsSegment name
    → InArea r b't' (join_paths ((slash ∷ r) ∷ bytes "tmp" ∷ name ∷ []))
unfolding join
staged-in_tmp r name h k = (
  bytes "mp" ++ slash ∷ name,
  join_plain r (bytes "tmp") (name ∷ []) h (
        IsPlain-append (bytes "tmp") name (IsPlain-segment (bytes "tmp") tmp-IsSegment)
          (IsPlain-segment name k))
      ∙ simp append_assoc,
)

pub tmp-in_tmp :
    (r : Bytes) → IsPlain r → InArea r b't' (join_paths ((slash ∷ r) ∷ bytes "tmp" ∷ []))
unfolding join
tmp-in_tmp r h = (
  bytes "mp",
  join_plain r (bytes "tmp") [] h (IsPlain-segment (bytes "tmp") tmp-IsSegment) ∙ simp append_assoc,
)

trash-IsSegment : IsSegment (bytes "trash")
trash-IsSegment = ground arith

pub trash_dir-in_trash :
    (r user : Bytes) → IsPlain r → IsPlain user → InArea r b't' (trash_dir (slash ∷ r) user)
unfolding join
trash_dir-in_trash r user h k = (
  bytes "rash" ++ slash ∷ user,
  join_plain r (bytes "trash") (user ∷ []) h
        (IsPlain-append (bytes "trash") user (IsPlain-segment (bytes "trash") trash-IsSegment) k)
      ∙ simp append_assoc,
)

pub temp-IsSegment : (id : Bytes) → IsSegment id → IsSegment (id ++ bytes ".tmp")
temp-IsSegment id h = record {
  some_byte = append-ne id;
  not_dot = λ e. long id e;
  not_dot_dot = λ e. longer id e;
  no_slash = Lacks-append slash id (bytes ".tmp") h.no_slash (ground arith);
}
  where
    append-ne : (s : Bytes) → s ++ bytes ".tmp" ≢ []
    append-ne [] e = cc
    append-ne (c ∷ s) e = cc

    long : (s : Bytes) → s ++ bytes ".tmp" ≢ dot
    long [] e = ground arith
    long (c ∷ s) e = append-ne s (ap (drop 1) e)

    longer : (s : Bytes) → s ++ bytes ".tmp" ≢ dot_dot
    longer [] e = ground arith
    longer (c ∷ s) e = long s (ap (drop 1) e)

module _ (path_hash : Bytes → Bytes) (r user logical : Bytes) (root_plain : IsPlain r)
    (user_plain : IsPlain user) (hashed : IsSegment (path_hash logical)) where
  version_dir-IsPlain :
      (s : Bytes) × IsPlain s
      × (version_dir path_hash (slash ∷ r) user logical ≡ (slash ∷ r) ++ slash ∷ s)
      × (s ≡ bytes "versions" ++ slash ∷ (user ++ slash ∷ path_hash logical))
  unfolding join
  version_dir-IsPlain =
      let s = bytes "versions" ++ slash ∷ (user ++ slash ∷ path_hash logical) in
      let plain : IsPlain s =
        IsPlain-append (bytes "versions") (user ++ slash ∷ path_hash logical)
          (IsPlain-segment (bytes "versions") versions-IsSegment)
          (IsPlain-append user (path_hash logical) user_plain
            (IsPlain-segment (path_hash logical) hashed)) in
      (
        s,
        plain,
        join_plain r (bytes "versions") (user ∷ path_hash logical ∷ []) root_plain plain,
        refl,
      )

  -- The directory of the versions of a path, and what is in it, lie in the area of the versions.
  pub version_dir-in_versions : InArea r b'v' (version_dir path_hash (slash ∷ r) user logical)
  version_dir-in_versions =
      let (s, _, place, shape) = version_dir-IsPlain in
      (
        bytes "ersions" ++ slash ∷ (user ++ slash ∷ path_hash logical),
        place ∙ rw shape (simp append_assoc),
      )

  pub blob-in_versions :
      (name : Bytes)
      → IsSegment name
      → InArea r b'v' (join_paths (version_dir path_hash (slash ∷ r) user logical ∷ name ∷ []))
  unfolding join
  blob-in_versions name h =
      let (s, plain, place, shape) = version_dir-IsPlain in
      (
        bytes "ersions" ++ slash ∷ (user ++ slash ∷ (path_hash logical ++ slash ∷ name)),
        rw place (
            join_plain (r ++ slash ∷ s) name [] (IsPlain-append r s root_plain plain)
              (IsPlain-segment name h)
            ∙ rw shape (simp append_assoc)),
      )

-- Places in two areas.
pub areas-Apart :
    (r : Bytes) (c x : ℕ) {p q : Bytes} → c ≢ x → InArea r c p → InArea r x q → Apart p q
areas-Apart r c x ne (s, e) (t, e') =
    rw (e, e') (Apart-append (slash ∷ (r ++ slash ∷ [])) c x s t ne)

-- The names of a new blob are apart, and the directory is in neither.
module _ (path_hash : Bytes → Bytes) (r user logical id : Bytes) (root_plain : IsPlain r)
    (user_plain : IsPlain user) (hashed : IsSegment (path_hash logical))
    (named : IsSegment id) where
  abbrev pub vdir : Bytes
  vdir = version_dir path_hash (slash ∷ r) user logical

  blob_path : (name : Bytes) → IsSegment name → join_paths (vdir ∷ name ∷ []) ≡ vdir ++ slash ∷ name
  unfolding join
  blob_path name h =
      let (s, plain, place, shape) =
        version_dir-IsPlain path_hash r user logical root_plain user_plain hashed in
      rw place (
        join_plain (r ++ slash ∷ s) name [] (IsPlain-append r s root_plain plain)
          (IsPlain-segment name h))

  pub final-vdir : strip (final_at vdir id) vdir ≡ none
  final-vdir = rw (blob_path id named) (strip-longer vdir slash id)

  pub temp-vdir : strip (temp_at vdir id) vdir ≡ none
  temp-vdir =
      rw (blob_path (id ++ bytes ".tmp") (temp-IsSegment id named))
        (strip-longer vdir slash (id ++ bytes ".tmp"))

  pub final-temp : Apart (final_at vdir id) (temp_at vdir id)
  final-temp =
      rw (blob_path id named, blob_path (id ++ bytes ".tmp") (temp-IsSegment id named))
        (subst (λ q. Apart (vdir ++ slash ∷ id) q) (append_assoc vdir (slash ∷ id) (bytes ".tmp"))
          (Apart-longer (vdir ++ slash ∷ id) 46 (bytes "tmp") (λ e. ground arith)))
