-- ===== src/Api/History.antt =====
-- internal/api/handlers.go: the version history that follows files, over the store and the driver.
use xx_drive.Prelude.{
  ℕ, Bool, not, ◌||◌, List, [], ◌∷◌, ◌++◌, if◌then◌else◌, ◌==◌, nat_eq, bytes_eq, contains,
}
use xx_drive.Prelude.Bytes.{Bytes, has_prefix, trim_prefix}
use xx_drive.Prelude.Results.{Error, ok, err, not_found, exists, invalid, too_large, conflict}
use xx_drive.Disk.{Disk}
use xx_drive.Drive.Paths.{root}
use xx_drive.Drive.Entries.{Times}
use xx_drive.Drive.Trash.{Json}
use xx_drive.Drive.Versions.{
  BlobMove, delete_version_dir, prune_version_blob, relocate_version_blobs, relocate_version_dir,
}
use xx_drive.Store.Rows.{User, Db}
use xx_drive.Store.Versions.{
  VersionRef, relocate_versions, delete_versions_under, move_specific_versions,
  delete_specific_versions,
}

-- The states that a handler changes.
pub record World : Type 0 where
  pub db : Db
  pub disk : Disk

-- Code outside of the repository, and the data root.
pub record Outside : Type 0 where
  pub like : Bytes → Bytes → Bool
  pub path_hash : Bytes → Bytes
  pub sha : Bytes → Bytes
  pub json : Json
  pub times : Times
  pub data_root : Bytes

-- What a handler answers: a status of refusal, or 200 (or 201) with a value.
pub data Reply (V : Type 0) : Type 0 where
  refused : ℕ → Reply V
  done : V → Reply V

-- `mapFsErr`
unfoldable pub status_of : Error → ℕ
status_of not_found = 404
status_of exists = 409
status_of invalid = 400
status_of too_large = 413
status_of conflict = 412
status_of e = 500

module _ (outside : Outside) (u : User) where
  -- The loop of `relocateVersionHistory`; an error is logged, and the loop goes on.
  abbrev pub relocate_dirs : Disk → Bytes → Bytes → List Bytes → Disk
  relocate_dirs d old_path new_path [] = d
  relocate_dirs d old_path new_path (old ∷ olds) =
      let np = new_path ++ trim_prefix old old_path in
      let moved =
        (relocate_version_dir outside.path_hash outside.data_root u.username d old np).1 in
      relocate_dirs moved old_path new_path olds

  -- `relocateVersionHistory`
  unfoldable pub relocate_version_history : World → Bytes → Bytes → World
  relocate_version_history w old_path new_path =
      if old_path == [] || old_path == root || old_path == new_path
      then w
      else let (olds, db) = relocate_versions outside.like w.db u.id old_path new_path in
        record { db = db; disk = relocate_dirs w.disk old_path new_path olds }

  abbrev pub delete_dirs : Disk → List Bytes → Disk
  delete_dirs d [] = d
  delete_dirs d (p ∷ ps) =
      delete_dirs (delete_version_dir outside.path_hash outside.data_root u.username d p) ps

  -- `purgeVersionHistory`
  unfoldable pub purge_version_history : World → Bytes → World
  purge_version_history w orig_path =
      let (result, db) = delete_versions_under outside.like w.db u.id orig_path in
      elim result [ err e ↦ w | ok paths ↦ record { db = db; disk = delete_dirs w.disk paths } ]

  abbrev pub prune_blobs : Disk → List Bytes → List VersionRef → Disk
  prune_blobs d paths [] = d
  prune_blobs d paths (ref ∷ refs) =
      let skip = prune_blobs d paths refs in
      let pruned =
        (prune_version_blob outside.path_hash outside.data_root u.username d ref.path
          ref.version_id).1 in
      let rest = prune_blobs pruned paths refs in if contains paths ref.path then rest else skip

  -- `purgeSpecificVersions`
  unfoldable pub purge_specific_versions : World → List VersionRef → World
  purge_specific_versions w refs =
      let (paths, db) = delete_specific_versions w.db u.id refs in
      record { db = db; disk = prune_blobs w.disk paths refs }

  abbrev pub blob_moves : Bytes → Bytes → List VersionRef → List BlobMove
  blob_moves old_root new_root [] = []
  blob_moves old_root new_root (ref ∷ refs) =
      let rest = blob_moves old_root new_root refs in
      if not (has_prefix ref.path old_root)
      then rest
      else record {
        from_path = ref.path;
        to_path = new_root ++ trim_prefix ref.path old_root;
        version_id = ref.version_id;
      }
        ∷ rest

  -- `moveSpecificVersions`; the rename of a path may fail.
  unfoldable pub move_owned : (Bytes → Bool) → World → Bytes → Bytes → List VersionRef → World
  move_owned fails w old_root new_root refs =
      let db = move_specific_versions w.db u.id refs old_root new_root in
      let moves = blob_moves old_root new_root refs in
      record {
        db = db;
        disk =
            (relocate_version_blobs outside.path_hash outside.data_root u.username fails w.disk
              moves).1;
      }
