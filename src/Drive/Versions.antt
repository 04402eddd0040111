-- ===== src/Drive/Versions.antt =====
-- internal/fsdrv/fsdrv.go: the stored contents of versions, one directory per logical path.
pub mod Unharmed
pub mod Stored
use xx_drive.Prelude.{
  ℕ, Bool, not, ◌||◌, List, [], ◌∷◌, ◌++◌, Option, none, some, if◌then◌else◌, ◌==◌, bytes_eq,
  nat_eq, length,
}
use xx_drive.Prelude.Bytes.{Bytes, bytes}
use xx_drive.Prelude.Results.{Error, Result, ok, err, not_found, invalid, other}
use xx_drive.Filepath.{join_paths, dir}
use xx_drive.Disk.{Node, folder, content, Disk, node_at, remove_all, write_file, rename, make_all}
use xx_drive.Drive.Resolve.{resolve_user_path}
use xx_drive.Drive.Trash.{valid_id, lstat_of}
use xx_drive.Drive.Trash.Purge.{names_in}

-- os.Remove: of a file, or of a directory that is empty.
abbrev pub remove_one : Disk → Bytes → Option Disk
remove_one d p = elim (node_at d p) [
  | none ↦ none
  | some (content text) ↦ some (remove_all d p)
  | some folder ↦ elim (names_in d p) [ [] ↦ some (remove_all d p) | name ∷ names ↦ none ]
]

-- os.Rename, which does nothing for a file onto itself.
abbrev pub rename_blob : Disk → Bytes → Bytes → Option Disk
rename_blob d src dst = elim (node_at d src) [
  | none ↦ none
  | some folder ↦ rename d src dst
  | some (content text) ↦ if src == dst then some d else rename d src dst
]

-- The calls of `snapshotVersion` that may fail.
pub data SnapshotCall : Type 0 where
  open_source : SnapshotCall
  make_dir : SnapshotCall
  draw_id : SnapshotCall
  create_temp : SnapshotCall
  copy_content : SnapshotCall
  publish_blob : SnapshotCall

-- `BlobMove`
pub record BlobMove : Type 0 where
  pub from_path : Bytes
  pub to_path : Bytes
  pub version_id : Bytes

-- The first error stays.
abbrev pub first_error : Option Error → Option Error
first_error none = some other
first_error (some e) = some e

abbrev pub result_of : Option Error → Result (Unit {0})
result_of none = ok tt
result_of (some e) = err e

-- The loop of `RelocateVersionDir`, which skips a name that a directory has at the destination.
unfoldable pub merge_names : Disk → Bytes → Bytes → List Bytes → Result (Unit {0}) × Disk
merge_names d src dst [] = elim (remove_one d src) [ none ↦ (err other, d) | some d' ↦ (ok tt, d') ]
merge_names d src dst (name ∷ names) =
    let target = join_paths (dst ∷ name ∷ []) in
    elim (rename_blob d (join_paths (src ∷ name ∷ [])) target) [
      | some d' ↦ merge_names d' src dst names
      | none ↦ elim (node_at d target) [
        | none ↦ (err other, d)
        | some (content text) ↦ (err other, d)
        | some folder ↦ merge_names d src dst names
      ]
    ]

-- `pathHash` is an argument.
module _ (path_hash : Bytes → Bytes) (data_root user : Bytes) where
  abbrev pub version_dir : Bytes → Bytes
  version_dir logical = join_paths (data_root ∷ bytes "versions" ∷ user ∷ path_hash logical ∷ [])

  -- `VersionBlobPath`
  abbrev pub version_blob_path : Bytes → Bytes → Bytes
  version_blob_path rel id =
      join_paths (data_root ∷ bytes "versions" ∷ user ∷ path_hash rel ∷ id ∷ [])

  -- The part of `snapshotVersion` that writes the content and publishes it.
  abbrev pub write_blob :
      (SnapshotCall → Bool) → Disk → Bytes → Bytes → Node → Result (Bytes × ℕ) × Disk
  write_blob fails d vdir id node =
      let temp = join_paths (vdir ∷ (id ++ bytes ".tmp") ∷ []) in
      if fails create_temp then (err other, d) else elim (node_at d temp) [
        | some n ↦ (err other, d)
        | none ↦ elim node [
          | folder ↦ (err other, d)
          | content text ↦
              let written = write_file d temp text in
              if fails copy_content
              then (err other, remove_all written temp)
              else if fails publish_blob
              then (err other, written)
              else elim (rename written temp (join_paths (vdir ∷ id ∷ []))) [
                | none ↦ (err other, written)
                | some published ↦ (ok (id, length text), published)
              ]
        ]
      ]

  -- `snapshotVersion`, with the id that `newID` draws.
  unfoldable pub snapshot_version :
      (SnapshotCall → Bool) → Disk → Bytes → Bytes → Bytes → Result (Bytes × ℕ) × Disk
  snapshot_version fails d logical abs id =
      if fails open_source then (err other, d) else elim (node_at d abs) [
        | none ↦ (err other, d)
        | some node ↦
            if fails make_dir then (err other, d) else elim (make_all d (version_dir logical)) [
              | none ↦ (err other, d)
              | some made ↦
                  if fails draw_id
                  then (err other, made)
                  else write_blob fails made (version_dir logical) id node
            ]
      ]

  -- `SnapshotCurrent`
  unfoldable pub snapshot_current :
      (SnapshotCall → Bool) → Disk → Bytes → Bytes → Result (Bytes × ℕ) × Disk
  snapshot_current fails d rel id = elim (resolve_user_path (lstat_of d) data_root user rel) [
    | err e ↦ (err e, d)
    | ok (abs, logical) ↦ elim (node_at d abs) [
      | none ↦ (err not_found, d)
      | some folder ↦ (err invalid, d)
      | some (content text) ↦ snapshot_version fails d logical abs id
    ]
  ]

  -- `OpenVersion`; the content that the opened file gives. A directory opens too, and has none.
  unfoldable pub open_version : Disk → Bytes → Bytes → Result (Option Bytes)
  open_version d rel id =
      if not (valid_id id)
      then err invalid
      else elim (resolve_user_path (lstat_of d) data_root user rel) [
        | err e ↦ err e
        | ok (abs, logical) ↦ elim (node_at d (version_blob_path logical id)) [
          | none ↦ err not_found
          | some folder ↦ ok none
          | some (content text) ↦ ok (some text)
        ]
      ]

  -- `DeleteVersionDir`
  unfoldable pub delete_version_dir : Disk → Bytes → Disk
  delete_version_dir d logical = remove_all d (version_dir logical)

  -- `PruneVersionBlob`; the directory goes with its last content.
  unfoldable pub prune_version_blob : Disk → Bytes → Bytes → Result (Unit {0}) × Disk
  prune_version_blob d rel id =
      let blob = version_blob_path rel id in
      let (result, removed) : Result (Unit {0}) × Disk = elim (node_at d blob) [
        | none ↦ (ok tt, d)
        | some n ↦ elim (remove_one d blob) [ none ↦ (err other, d) | some d' ↦ (ok tt, d') ]
      ] in
      elim (remove_one removed (dir blob)) [
        | none ↦ (result, removed)
        | some emptied ↦ (result, emptied)
      ]

  -- One round of `RelocateVersionBlobs`.
  abbrev pub relocate_blob : (Bytes → Bool) → Option Error × Disk → BlobMove → Option Error × Disk
  relocate_blob fails (first, d) move =
      let src = version_blob_path move.from_path move.version_id in
      let target = version_dir move.to_path in
      if not (valid_id move.version_id) || move.from_path == [] || move.to_path == []
      then (first, d)
      else elim (make_all d target) [
        | none ↦ (first_error first, d)
        | some made ↦ if fails src then (first_error first, made) else elim (node_at made src) [
          | none ↦ (first, made)
          | some n ↦ elim (rename_blob made src (join_paths (target ∷ move.version_id ∷ []))) [
            | none ↦ (first_error first, made)
            | some moved ↦ (first, moved)
          ]
        ]
      ]

  abbrev pub relocate_blobs :
      (Bytes → Bool) → Option Error × Disk → List BlobMove → Option Error × Disk
  relocate_blobs fails s [] = s
  relocate_blobs fails s (move ∷ moves) = relocate_blobs fails (relocate_blob fails s move) moves

  -- `RelocateVersionBlobs`; the rename of a path may fail.
  unfoldable pub relocate_version_blobs :
      (Bytes → Bool) → Disk → List BlobMove → Result (Unit {0}) × Disk
  relocate_version_blobs fails d moves =
      let (first, last) = relocate_blobs fails (none, d) moves in (result_of first, last)

  -- `RelocateVersionDir`
  unfoldable pub relocate_version_dir : Disk → Bytes → Bytes → Result (Unit {0}) × Disk
  relocate_version_dir d old_logical new_logical =
      let src = version_dir old_logical in
      let dst = version_dir new_logical in
      elim (node_at d src) [
        | none ↦ (ok tt, d)
        | some n ↦ elim (make_all d (dir dst)) [
          | none ↦ (err other, d)
          | some made ↦ elim (node_at made dst) [
            | none ↦ elim (rename made src dst) [
              | none ↦ (err other, made)
              | some moved ↦ (ok tt, moved)
            ]
            | some m ↦ elim n [
              | content text ↦ (err other, made)
              | folder ↦ merge_names made src dst (names_in made src)
            ]
          ]
        ]
      ]
