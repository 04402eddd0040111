-- ===== src/Drive/Resolve/Location.antt =====
-- Where `ResolveUserPath` points: inside the directory of the user, and nowhere else.
use xx_drive.Prelude.{
  ℕ, ◌≡◌, refl, sym, ap, ◌∙◌, ◌≢◌, inl, inr, true, List, [], ◌∷◌, ◌++◌, nat_eq, bytes_eq, All,
  All-append_left, arith, subst, drop,
}
use xx_drive.Prelude.Bytes.{Bytes, bytes, split, join}
use xx_drive.Prelude.Results.{ok}
use xx_drive.Filepath.{slash, clean, join_paths, trim_slashes}
use xx_drive.Filepath.Segments.{IsSegment}
use xx_drive.Filepath.Canonical.{IsCanonical, clean-IsCanonical}
use xx_drive.Drive.Paths.{validate_rel}
use xx_drive.Drive.Paths.Validate.{IsLogical, validate_rel-IsLogical}
use xx_drive.Drive.Resolve.Within.{
  within, is_confined-cases, join-plain, split_concat, resolve-split, clean-within,
}
use xx_drive.Drive.Resolve.{Lstat, user_dir, user_root, walk, is_confined, resolve_user_path}

-- The containment check passes only where no part of the prefix is rewritten by `Clean`.
confined-plain :
    (e : Bytes) {abs : Bytes}
    → IsCanonical abs
    → e ≢ []
    → is_confined abs (slash ∷ e) ≡ true
    → All IsSegment (split slash e)
confined-plain e {abs} c ne h = elim (is_confined-cases abs (slash ∷ e) h) [
  | inl same ↦ join-plain c.segs e c.plain ne (ap (drop 1) (sym c.shape ∙ same))
  | inr (t, below) ↦ All-append_left IsSegment (split slash e) (split slash t) (
      subst (All IsSegment) (split_concat e t) (
        join-plain c.segs (e ++ slash ∷ t) c.plain (append-ne e (slash ∷ t) ne)
          (ap (drop 1) (sym c.shape ∙ below))))
]
  where
    append-ne : (x y : Bytes) → x ≢ [] → x ++ y ≢ []
    append-ne [] y k = absurd (k refl)
    append-ne (b ∷ x) y k = λ q. cc

module _ (lstat : Bytes → Lstat) (data_root username rel : Bytes) {abs logical : Bytes} where
  pub resolve_user_path-eq-ok :
      resolve_user_path lstat data_root username rel ≡ ok (abs, logical)
      → (validate_rel rel ≡ ok logical)
        × (abs ≡ join_paths (user_root data_root username ∷ logical ∷ []))
        × (is_confined abs (user_dir data_root username) ≡ true)
        × (walk lstat (user_root data_root username) (split slash (trim_slashes logical)) ≡ ok tt)
  unfolding resolve_user_path
  resolve_user_path-eq-ok e = ground arith

pub join_paths-cons :
    (c : ℕ) (s : Bytes) (es : List Bytes)
    → join_paths ((c ∷ s) ∷ es) ≡ clean (join slash ((c ∷ s) ∷ es))
unfolding join_paths
join_paths-cons c s es = ground arith

join_paths_two : (s q : Bytes) → join_paths ((slash ∷ s) ∷ q ∷ []) ≡ clean (slash ∷ s ++ slash ∷ q)
join_paths_two s q = join_paths-cons slash s (q ∷ []) ∙ ap clean (unfold join in refl)

join_paths_files :
    (r username : Bytes)
    → join_paths ((slash ∷ r) ∷ bytes "files" ∷ username ∷ [])
      ≡ clean (user_dir (slash ∷ r) username)
join_paths_files r username =
    join_paths-cons slash r (bytes "files" ∷ username ∷ []) ∙ ap clean (unfold join in refl)

user_root-clean :
    (r username : Bytes) → user_root (slash ∷ r) username ≡ clean (user_dir (slash ∷ r) username)
unfolding user_root
user_root-clean r username = join_paths_files r username

join_paths-IsCanonical :
    {d : Bytes} (q : Bytes) → IsCanonical d → IsCanonical (join_paths (d ∷ q ∷ []))
join_paths-IsCanonical {d} q c =
    rw c.shape (rw join_paths_two (clean-IsCanonical (join slash c.segs ++ slash ∷ q)))

pub files-ne-nil : (r t : Bytes) → r ++ slash ∷ t ≢ []
files-ne-nil [] t e = cc
files-ne-nil (c ∷ r) t e = cc

-- The directory that the checks compare with is canonical whenever a path is resolved.
pub user_dir-plain :
    (lstat : Bytes → Lstat) (r username rel : Bytes) {abs logical : Bytes}
    → resolve_user_path lstat (slash ∷ r) username rel ≡ ok (abs, logical)
    → All IsSegment (split slash (user_dir r username))
user_dir-plain lstat r username rel {abs = abs} e =
    let (_, place, confined, _) = resolve_user_path-eq-ok lstat (slash ∷ r) username rel e in
    confined-plain (user_dir r username) {abs = abs}
      (rw place
        (join_paths-IsCanonical _ (rw user_root-clean (clean-IsCanonical (user_dir r username)))))
      (files-ne-nil r _) confined

pub user_root-eq-user_dir :
    (r username : Bytes)
    → All IsSegment (split slash (user_dir r username))
    → user_root (slash ∷ r) username ≡ user_dir (slash ∷ r) username
user_root-eq-user_dir r username h = user_root-clean r username ∙ resolve-split _ h

-- Whatever the username and the path of a request are: a path that is resolved lies at the literal
-- place root/files/<username>/<logical path>, where the logical path is what `ValidateRel` returned.
-- So no username and no path leads out of the directory root/files/<username>.
pub resolve_user_path-within :
    (lstat : Bytes → Lstat) (r username rel : Bytes) {abs logical : Bytes}
    → resolve_user_path lstat (slash ∷ r) username rel ≡ ok (abs, logical)
    → IsLogical logical
      × (validate_rel rel ≡ ok logical)
      × (abs ≡ within (user_dir (slash ∷ r) username) logical)
resolve_user_path-within lstat r username rel {logical = logical} e =
    let (valid, place, _, _) = resolve_user_path-eq-ok lstat (slash ∷ r) username rel e in
    let plain = user_dir-plain lstat r username rel e in
    let h = validate_rel-IsLogical rel valid in
    let c = h.canonical in
    (
      h,
      valid,
      place
          ∙ ap (λ d. join_paths (d ∷ logical ∷ [])) (user_root-eq-user_dir r username plain)
          ∙ join_paths_two _ logical
          ∙ ap (λ v. clean (user_dir (slash ∷ r) username ++ slash ∷ v)) c.shape
          ∙ clean-within _ c.segs plain c.plain
          ∙ ap (within (user_dir (slash ∷ r) username)) (sym c.shape),
    )
