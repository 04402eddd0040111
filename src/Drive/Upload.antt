-- ===== src/Drive/Upload.antt =====
-- internal/fsdrv/fsdrv.go: `Upload`, from the staging of the body to the commit by a rename.
pub mod Kept
pub mod Safe
pub mod Saved
pub mod Ends
use xx_drive.Prelude.{
  ℕ, ◌+◌, Bool, true, false, not, ◌&&◌, ◌||◌, List, [], ◌∷◌, ◌++◌, Option, none, some,
  if◌then◌else◌, ◌==◌, nat_eq, bytes_eq, ltb, length, zero, suc, take,
}
use xx_drive.Prelude.Bytes.{Bytes, bytes, trim_suffix}
use xx_drive.Prelude.Results.{Result, ok, err, exists, invalid, too_large, conflict, other}
use xx_drive.Filepath.{ext, join_paths}
use xx_drive.Disk.{Node, folder, content, Disk, node_at, remove_all, write_file, rename, make_all}
use xx_drive.Drive.Paths.{max_path, name_of, parent_of, join_logical, sanitize_tag}
use xx_drive.Drive.Resolve.{resolve_user_path}
use xx_drive.Drive.Trash.{lstat_of, attempt, decimal}
use xx_drive.Drive.Versions.{SnapshotCall, snapshot_version}
use xx_drive.Drive.Entries.{Entry, Times, entry_of, etag_of, node_size}

-- The calls of `Upload` that may fail.
pub data UploadCall : Type 0 where
  make_staging : UploadCall
  create_staging : UploadCall
  read_body : UploadCall
  sync_staging : UploadCall
  make_parents : UploadCall
  commit : UploadCall
  stat_target : UploadCall

-- The content that an upload replaced, as a version; the id is empty where there was none.
pub record Previous : Type 0 where
  pub version_id : Bytes
  pub size : ℕ
  pub created_at : ℕ

abbrev pub no_previous : Previous
no_previous = record { version_id = []; size = 0; created_at = 0 }

pub record Uploaded : Type 0 where
  pub sha : Bytes
  pub entry : Entry
  pub conflicted : Bool
  pub previous : Previous

-- What a caller asks for.
pub record Request : Type 0 where
  pub body : Bytes
  pub max_size : ℕ
  pub if_match : Bytes
  pub conflict_rename : Bool
  pub device_tag : Bytes

-- What the clock and the random numbers give.
pub record Drawn : Type 0 where
  pub now : ℕ
  pub stamp : Bytes
  pub staging_name : Bytes
  pub version_id : Bytes

-- The name of a conflict copy.
unfoldable pub conflict_copy : Bytes → Bytes → Bytes → Bytes
conflict_copy name tag stamp =
    let device = if tag == [] then bytes "another device" else tag in
    trim_suffix name (ext name)
    ++ (bytes " (conflict from "
        ++ (sanitize_tag device ++ (bytes " " ++ (stamp ++ (bytes ")" ++ ext name)))))

-- The next name that the loop tries.
unfoldable pub counted : Bytes → ℕ → Bytes
counted np i = trim_suffix np (ext np) ++ ((bytes " (" ++ (decimal i ++ bytes ")")) ++ ext np)

module _ (data_root user : Bytes) where
  -- The loop that looks for a free name; `none` means that the fuel ran out.
  unfoldable pub free_name : ℕ → Disk → Bytes → ℕ → Option (Result Bytes)
  free_name zero d np i = none
  free_name (suc fuel) d np i =
      let next = free_name fuel d (counted np i) (i + 1) in
      elim (resolve_user_path (lstat_of d) data_root user np) [
        | err e ↦ some (err e)
        | ok (probe, logical) ↦ elim (node_at d probe) [ none ↦ some (ok np) | some n ↦ next ]
      ]

-- Enough for `free_name`, since each round lengthens the path.
abbrev pub name_fuel : ℕ
name_fuel = 4098

-- The staged body, under the name that os.CreateTemp gives it.
abbrev pub staging_at : Bytes → Bytes → Bytes
staging_at data_root name = join_paths (data_root ∷ bytes "tmp" ∷ name ∷ [])

-- The staged file is removed at the end, if it is still there.
abbrev pub unstage : Bytes → Result Uploaded × Disk → Result Uploaded × Disk
unstage staged (result, d) = (result, remove_all d staged)

module _ (times : Times) (path_hash sha : Bytes → Bytes) (fails : UploadCall → Bool)
    (faults : SnapshotCall → Bool) (data_root user : Bytes) where
  -- The end of `Upload`: the parents are made, and the staged file is renamed to its place.
  unfoldable pub commit_file :
      Disk → Bytes → Bytes → Bytes → Bytes → Bool → Previous → Result Uploaded × Disk
  commit_file d staged target logical body conflicted previous =
      elim (resolve_user_path (lstat_of d) data_root user (parent_of logical)) [
        | err e ↦ (err e, d)
        | ok (parent, above) ↦ elim (attempt (fails make_parents) (make_all d parent)) [
          | none ↦ (err other, d)
          | some made ↦ elim (attempt (fails commit) (rename made staged target)) [
            | none ↦ (err other, made)
            | some placed ↦
                if fails stat_target then (err other, placed) else elim (node_at placed target) [
                  | none ↦ (err other, placed)
                  | some node ↦ (
                    ok (record {
                      sha = sha body;
                      entry = record (entry_of times placed target (name_of logical) logical node) {
                        is_dir = false;
                      };
                      conflicted = conflicted;
                      previous = previous;
                    }),
                    placed,
                  )
                ]
          ]
        ]
      ]

  -- The branch that keeps what is there and takes a free name.
  unfoldable pub commit_beside : Disk → Bytes → Bytes → Request → Drawn → Result Uploaded × Disk
  commit_beside d staged logical request drawn =
      elim (join_logical (parent_of logical)
        (conflict_copy (name_of logical) request.device_tag drawn.stamp)) [
          | err e ↦ (err e, d)
          | ok np ↦ elim (free_name data_root user name_fuel d np 2) [
            | none ↦ (err other, d)
            | some (err e) ↦ (err e, d)
            | some (ok free) ↦ elim (resolve_user_path (lstat_of d) data_root user free) [
              | err e ↦ (err e, d)
              | ok (target, named) ↦ commit_file d staged target named request.body true no_previous
            ]
          ]
        ]

  -- The branch that stores what is there as a version, and replaces it.
  unfoldable pub commit_over :
      Disk → Bytes → Bytes → Bytes → Request → Drawn → Result Uploaded × Disk
  commit_over d staged abs logical request drawn =
      let (snapshot, stored) =
        snapshot_version path_hash data_root user faults d logical abs drawn.version_id in
      elim snapshot [
        | err e ↦ (err e, stored)
        | ok (id, size) ↦
            commit_file stored staged abs logical request.body false
              (record { version_id = id; size = size; created_at = drawn.now })
      ]

  -- What `Upload` does once the body is staged.
  unfoldable pub place : Disk → Bytes → Bytes → Bytes → Request → Drawn → Result Uploaded × Disk
  place d staged abs logical request drawn = elim (node_at d abs) [
    | some folder ↦ (err exists, d)
    | none ↦ commit_file d staged abs logical request.body false no_previous
    | some (content text) ↦
        if request.conflict_rename
        then commit_beside d staged logical request drawn
        else if not (request.if_match == [])
            && not (request.if_match == etag_of (times.modified d abs) (length text))
        then (err conflict, d)
        else commit_over d staged abs logical request drawn
  ]

  -- `Upload`
  unfoldable pub upload : Disk → Bytes → Request → Drawn → Result Uploaded × Disk
  upload d rel request drawn = elim (resolve_user_path (lstat_of d) data_root user rel) [
    | err e ↦ (err e, d)
    | ok (abs, logical) ↦
        if name_of logical == []
        then (err invalid, d)
        else elim (attempt (fails make_staging)
            (make_all d (join_paths (data_root ∷ bytes "tmp" ∷ [])))) [
              | none ↦ (err other, d)
              | some made ↦
                  let staged = staging_at data_root drawn.staging_name in
                  let read = take (suc request.max_size) request.body in
                  if fails create_staging
                  then (err other, made)
                  else if fails read_body
                  then unstage staged (err other, write_file made staged read)
                  else if ltb request.max_size (length read)
                  then unstage staged (err too_large, write_file made staged read)
                  else if fails sync_staging
                  then unstage staged (err other, write_file made staged read)
                  else unstage staged
                      (place (write_file made staged read) staged abs logical request drawn)
            ]
  ]
