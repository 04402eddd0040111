-- ===== src/Drive/Resolve.antt =====
-- internal/fsdrv/fsdrv.go: `ResolveUserPath`, the way from a request's path to the disk.
pub mod Within
pub mod Location
pub mod Links
use xx_drive.Prelude.{
  ℕ, Bool, true, false, not, ◌&&◌, ◌||◌, List, [], ◌∷◌, ◌++◌, if◌then◌else◌, ◌==◌, nat_eq, bytes_eq,
  contains,
}
use xx_drive.Prelude.Bytes.{Bytes, bytes, has_prefix, split}
use xx_drive.Prelude.Results.{Result, ok, err, invalid, other, ◌>>=◌, ◌>>◌, require}
use xx_drive.Filepath.{slash, join_paths, trim_slashes}
use xx_drive.Drive.Paths.{validate_rel}

-- What os.Lstat reports of a path: an error, or the type of what is there. `file` is all that is
-- neither a symbolic link nor a directory.
pub data Lstat : Type 0 where
  missing failed link directory file : Lstat

-- The directory of a user, as the prefix that is compared, before `Clean`.
abbrev pub user_dir : Bytes → Bytes → Bytes
user_dir data_root username = data_root ++ slash ∷ (bytes "files" ++ slash ∷ username)

-- The same directory as the walk starts from it, cleaned by `Join`.
unfoldable pub user_root : Bytes → Bytes → Bytes
unfolding join_paths
user_root data_root username = join_paths (data_root ∷ bytes "files" ∷ username ∷ [])

-- The containment check on the lexical path.
unfoldable pub is_confined : Bytes → Bytes → Bool
unfolding has_prefix
is_confined abs expected = abs == expected || has_prefix abs (expected ++ slash ∷ [])

module _ (lstat : Bytes → Lstat) where
  -- The walk from the user's directory down.
  unfoldable pub walk : Bytes → List Bytes → Result (Unit {0})
  unfolding join_paths
  walk cur [] = ok tt
  walk cur (seg ∷ segs) =
      let skip = walk cur segs in
      let next = join_paths (cur ∷ seg ∷ []) in
      let deeper = walk next segs in
      if seg == [] then skip else elim (lstat next) [
        | missing ↦ ok tt
        | failed ↦ err other
        | link ↦ err invalid
        | directory ↦ deeper
        | file ↦ ok tt
      ]

  -- `ResolveUserPath`: the absolute and the logical path.
  unfoldable pub resolve_user_path : Bytes → Bytes → Bytes → Result (Bytes × Bytes)
  resolve_user_path data_root username rel = do
    logical ← validate_rel rel
    let expected = user_dir data_root username
    let start = user_root data_root username
    let abs = join_paths (start ∷ logical ∷ [])
    require (is_confined abs expected) invalid
    require (not (contains rel 0)) invalid
    walk start (split slash (trim_slashes logical))
    ok (abs, logical)
