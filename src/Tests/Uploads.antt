-- ===== src/Tests/Uploads.antt =====
-- Uploads on a small disk.
use xx_drive.Prelude.{
  Bool, true, false, ◌≡◌, refl, [], ◌∷◌, Option, some, inl, nat_eq, bytes_eq, arith, ℕ_discrete,
}
use xx_drive.Prelude.Bytes.{
  Bytes, bytes, split, join, has_prefix, contains_any, contains_text, to_lower, trim_suffix,
  has_suffix,
}
use xx_drive.Prelude.Results.{Result, ok, err, conflict, too_large}
use xx_drive.Filepath.{clean, join_paths, trim_slashes, base, dir, ext}
use xx_drive.Filepath.Segments.{IsSegment}
use xx_drive.Drive.Paths.{
  validate_rel, name_of, parent_of, join_logical, sanitize_tag, is_staging_entry,
}
use xx_drive.Drive.Resolve.{resolve_user_path, walk, is_confined, user_root}
use xx_drive.Disk.{folder, content, Disk, node_at, rename}
use xx_drive.Drive.Versions.{SnapshotCall, snapshot_version}
use xx_drive.Drive.Entries.{Times, etag_of, list_entries, stat, open_file, comes_before}
use xx_drive.Drive.Upload.{
  UploadCall, commit, Request, Drawn, Uploaded, upload, place, commit_file, commit_beside,
  commit_over, free_name, counted, conflict_copy,
}
use xx_drive.Drive.Upload.Safe.{upload-node}
use xx_drive.Drive.Upload.Saved.{Saved, upload-Saved}

abbrev disk : Disk
disk =
    (bytes "/d", folder)
    ∷ (bytes "/d/files", folder)
    ∷ (bytes "/d/files/bob", folder)
    ∷ (bytes "/d/files/bob/a", content (bytes "old"))
    ∷ (bytes "/d/files/bob/b", content (bytes "b"))
    ∷ []

abbrev times : Times
times = record { modified = λ d p. 255; folder_size = 0 }

abbrev fine : UploadCall → Bool
fine c = false

-- The last rename fails.
abbrev no_commit : UploadCall → Bool
no_commit commit = true
no_commit c = false

abbrev no_fault : SnapshotCall → Bool
no_fault c = false

-- Every path has its versions in one directory.
abbrev path_hash : Bytes → Bytes
path_hash p = bytes "h"

abbrev sha : Bytes → Bytes
sha s = s

abbrev request : Request
request = record {
  body = bytes "new!";
  max_size = 4;
  if_match = [];
  conflict_rename = false;
  device_tag = [];
}

abbrev drawn : Drawn
drawn = record { now = 9; stamp = bytes "T"; staging_name = bytes "up-1"; version_id = bytes "v1" }

unfoldable runs : Disk → Bytes → Bytes → Option Disk
unfolding rename resolve_user_path walk is_confined user_root join_paths trim_slashes validate_rel
    base dir ext clean split join has_prefix has_suffix trim_suffix contains_any contains_text
    to_lower bytes_eq ℕ_discrete snapshot_version upload place commit_file commit_beside commit_over
    free_name counted conflict_copy name_of parent_of join_logical sanitize_tag etag_of
    is_staging_entry list_entries stat open_file comes_before
runs = rename

abbrev run : (UploadCall → Bool) → Request → Result Uploaded × Disk
run fails asked =
    upload times path_hash sha fails no_fault (bytes "/d") (bytes "bob") disk (bytes "a") asked
      drawn

-- The content is replaced, and the one before is the version v1.
replaced :
    (open_file times (bytes "/d") (bytes "bob") ((run fine request).1) (bytes "/a")
      ≡ ok (bytes "new!", bytes "/a"))
    × (node_at ((run fine request).1) (bytes "/d/versions/bob/h/v1") ≡ some (content (bytes "old")))
unfolding runs
replaced = (refl, refl)

-- In a conflict the content stays, and the new one is beside it.
beside :
    (open_file times
        (bytes "/d")
        (bytes "bob")
        ((run fine (record request { conflict_rename = true })).1)
        (bytes "/a")
      ≡ ok (bytes "old", bytes "/a"))
    × (open_file times
          (bytes "/d")
          (bytes "bob")
          ((run fine (record request { conflict_rename = true })).1)
          (bytes "/a (conflict from another device T)")
        ≡ ok (bytes "new!", bytes "/a (conflict from another device T)"))
unfolding runs
beside = (refl, refl)

refusals :
    ((run fine (record request { max_size = 3 })).0 ≡ err too_large)
    × ((run fine (record request { if_match = bytes "\"0-3\"" })).0 ≡ err conflict)
    × (etag_of 255 3 ≡ bytes "\"ff-3\"")
unfolding runs
refusals = (refl, refl, refl)

segment : IsSegment (bytes "h")
segment = ground arith

upload-node_example :
    node_at ((run no_commit request).1) (bytes "/d/files/bob/b") ≡ some (content (bytes "b"))
unfolding runs
upload-node_example =
    upload-node times path_hash sha no_commit no_fault (bytes "d") (bytes "bob") (λ v. segment) disk
      (bytes "a") request drawn (bytes "/d/files/bob/b") (ground arith) (ground arith) refl
      (bytes "iles/bob/b", refl) refl (inl refl)

upload-Saved_example :
    Saved times path_hash sha no_commit no_fault
      (bytes "d")
      (bytes "bob")
      (λ v. segment)
      ((run no_commit request).1)
      (bytes "/d/files/bob/a")
      (bytes "/a")
      (bytes "v1")
      (bytes "old")
unfolding runs
upload-Saved_example =
    upload-Saved times path_hash sha no_commit no_fault (bytes "d") (bytes "bob") (λ v. segment)
      disk (bytes "a") (bytes "old") request drawn (ground arith) (ground arith) refl refl
      (refl, refl)
