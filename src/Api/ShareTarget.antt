-- ===== src/Api/ShareTarget.antt =====
-- internal/api/shares.go: what a visitor may ask for within a share (`shareTarget`).
pub mod Contained
pub mod Links
use xx_drive.Prelude.{
  Bool, true, false, not, ◌&&◌, ◌||◌, List, [], ◌∷◌, ◌++◌, Option, none, some, if◌then◌else◌, ◌==◌,
  bytes_eq, any,
}
use xx_drive.Prelude.Bytes.{Bytes, has_prefix, trim_prefix, split}
use xx_drive.Prelude.Results.{Result, ok, err}
use xx_drive.Filepath.{slash, dot_dot}
use xx_drive.Drive.Paths.{root, validate_rel}

-- `hasDotDotSegment`
unfoldable pub has_dot_dot_segment : Bytes → Bool
unfolding split
has_dot_dot_segment p = any (λ seg. seg == dot_dot) (split slash p)

-- At the share's root, or under it.
abbrev pub is_inside : Bytes → Bytes → Bool
is_inside share full = full == share || has_prefix full (share ++ slash ∷ [])

-- The containment check at the end.
unfoldable pub check_inside : Bytes → Bytes → Bytes → Option (Bytes × Bytes)
check_inside share full sub = if is_inside share full then some (full, sub) else none

-- The two cases of a request with a path, and with a sub path, once it is validated.
unfoldable pub target_of_path : Bytes → Bytes → Option (Bytes × Bytes)
target_of_path share v = check_inside share v (trim_prefix v share)

unfoldable pub target_of_sub : Bytes → Bytes → Option (Bytes × Bytes)
target_of_sub share v =
    if v == root
    then check_inside share share []
    else if is_inside share v
    then check_inside share v (trim_prefix v share)
    else check_inside share (share ++ v) v

-- `shareTarget`: the logical path and the path relative to the share.
unfoldable pub share_target : Bytes → Bytes → Bytes → Option (Bytes × Bytes)
share_target share raw_path raw_sub =
    if not (raw_path == [])
    then if has_dot_dot_segment raw_path
      then none
      else elim (validate_rel raw_path) [ ok v ↦ target_of_path share v | err e ↦ none ]
    else if not (raw_sub == [])
    then if has_dot_dot_segment raw_sub
      then none
      else elim (validate_rel raw_sub) [ ok v ↦ target_of_sub share v | err e ↦ none ]
    else some (share, [])
