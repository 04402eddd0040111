-- ===== src/Drive/Moves.antt =====
-- internal/fsdrv/fsdrv.go: renaming and moving.
pub mod Whole
use xx_drive.Prelude.{
  ℕ, Bool, true, false, not, ◌&&◌, ◌||◌, List, [], ◌∷◌, ◌++◌, Option, none, some, if◌then◌else◌,
  ◌==◌, bytes_eq,
}
use xx_drive.Prelude.Bytes.{Bytes, has_prefix}
use xx_drive.Prelude.Results.{Result, ok, err, exists, not_found, invalid, other}
use xx_drive.Filepath.{slash}
use xx_drive.Disk.{Disk, node_at, rename}
use xx_drive.Drive.Paths.{root, name_of, parent_of, join_logical, valid_name}
use xx_drive.Drive.Resolve.{resolve_user_path}
use xx_drive.Drive.Trash.{lstat_of}

-- os.Rename, unless there is something at the destination; with the error that `mapStatErr` gives.
unfoldable pub rename_to_free : Bool → Disk → Bytes → Bytes → Bytes → Result Bytes × Disk
rename_to_free fails d src dst logical = elim (node_at d dst) [
  | some n ↦ (err exists, d)
  | none ↦ if fails then (err other, d) else elim (node_at d src) [
    | none ↦ (err not_found, d)
    | some m ↦ elim (rename d src dst) [ none ↦ (err other, d) | some d' ↦ (ok logical, d') ]
  ]
]

module _ (fails : Bool) (data_root user : Bytes) where
  -- `Rename`; the logical path of the new entry is returned.
  unfoldable pub rename_entry : Disk → Bytes → Bytes → Result Bytes × Disk
  rename_entry d from to_name =
      if not (valid_name to_name)
      then (err invalid, d)
      else elim (resolve_user_path (lstat_of d) data_root user from) [
        | err e ↦ (err e, d)
        | ok (src, src_logical) ↦
            if name_of src_logical == []
            then (err invalid, d)
            else elim (join_logical (parent_of src_logical) to_name) [
              | err e ↦ (err e, d)
              | ok dst_logical ↦ elim (resolve_user_path (lstat_of d) data_root user dst_logical) [
                | err e ↦ (err e, d)
                | ok (dst, logical) ↦ rename_to_free fails d src dst logical
              ]
            ]
      ]

  -- `Move`
  unfoldable pub move_entry : Disk → Bytes → Bytes → Result Bytes × Disk
  move_entry d from dest_dir = elim (resolve_user_path (lstat_of d) data_root user from) [
    | err e ↦ (err e, d)
    | ok (src, src_logical) ↦ elim (resolve_user_path (lstat_of d) data_root user dest_dir) [
      | err e ↦ (err e, d)
      | ok (dir, dir_logical) ↦
          if name_of src_logical == []
          then (err invalid, d)
          else if src_logical == dir_logical || has_prefix dir_logical (src_logical ++ slash ∷ [])
          then (err invalid, d)
          else elim (join_logical dir_logical (name_of src_logical)) [
            | err e ↦ (err e, d)
            | ok dst_logical ↦ elim (resolve_user_path (lstat_of d) data_root user dst_logical) [
              | err e ↦ (err e, d)
              | ok (dst, logical) ↦ rename_to_free fails d src dst logical
            ]
          ]
    ]
  ]
