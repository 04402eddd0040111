-- ===== src/Tests/Blobs.antt =====
-- Stored contents of versions on a small disk.
use xx_drive.Prelude.{Bool, false, ◌≡◌, refl, [], ◌∷◌, Option, some, nat_eq, bytes_eq, ℕ_discrete}
use xx_drive.Prelude.Bytes.{
  Bytes, bytes, split, join, has_prefix, contains_any, contains_text, to_lower, trim_suffix,
  has_suffix,
}
use xx_drive.Prelude.Results.{ok, err, not_found}
use xx_drive.Filepath.{clean, join_paths, trim_slashes, base, dir, ext}
use xx_drive.Drive.Paths.{validate_rel}
use xx_drive.Drive.Resolve.{resolve_user_path, walk, is_confined, user_root}
use xx_drive.Disk.{folder, content, Disk, rename}
use xx_drive.Drive.Trash.{valid_id}
use xx_drive.Drive.Versions.{
  SnapshotCall, snapshot_version, snapshot_current, open_version, delete_version_dir,
  prune_version_blob, merge_names, relocate_version_blobs, relocate_version_dir,
}

abbrev disk : Disk
disk = (bytes "/d", folder) ∷ (bytes "/d/files/bob/a", content (bytes "xy")) ∷ []

abbrev id : Bytes
id = bytes "00112233445566778899aabbccddeeff"

abbrev no_fault : SnapshotCall → Bool
no_fault s = false

abbrev never : Bytes → Bool
never p = false

-- A hash that keeps all but the first character of a path.
abbrev path_hash : Bytes → Bytes
path_hash [] = []
path_hash (c ∷ p) = p

unfoldable runs : Disk → Bytes → Bytes → Option Disk
unfolding rename valid_id resolve_user_path walk is_confined user_root join_paths trim_slashes
    validate_rel base dir ext clean split join has_prefix has_suffix trim_suffix contains_any
    contains_text to_lower bytes_eq ℕ_discrete snapshot_version snapshot_current open_version
    delete_version_dir prune_version_blob merge_names relocate_version_blobs relocate_version_dir
runs = rename

abbrev stored : Disk
stored = (snapshot_current path_hash (bytes "/d") (bytes "bob") no_fault disk (bytes "/a") id).1

-- A content is read back, also under the new path after a move, and not after a removal.
blob_runs :
    ((snapshot_current path_hash (bytes "/d") (bytes "bob") no_fault disk (bytes "/a") id).0
      ≡ ok (id, 2))
    × (open_version path_hash (bytes "/d") (bytes "bob") stored (bytes "/a") id
        ≡ ok (some (bytes "xy")))
    × (open_version path_hash
          (bytes "/d")
          (bytes "bob")
          ((relocate_version_dir path_hash
            (bytes "/d")
            (bytes "bob")
            stored
            (bytes "/a")
            (bytes "/b")).1)
          (bytes "/b")
          id
        ≡ ok (some (bytes "xy")))
    × (open_version path_hash
          (bytes "/d")
          (bytes "bob")
          ((relocate_version_blobs path_hash
            (bytes "/d")
            (bytes "bob")
            never
            stored
            (record { from_path = bytes "/a"; to_path = bytes "/c"; version_id = id } ∷ [])).1)
          (bytes "/c")
          id
        ≡ ok (some (bytes "xy")))
    × (open_version path_hash
          (bytes "/d")
          (bytes "bob")
          ((prune_version_blob path_hash (bytes "/d") (bytes "bob") stored (bytes "/a") id).1)
          (bytes "/a")
          id
        ≡ err not_found)
unfolding runs
blob_runs = (refl, refl, refl, refl, refl)

abbrev vdir : Bytes
vdir = bytes "/d/versions/bob/a"
