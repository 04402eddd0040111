-- ===== src/Drive/Folders.antt =====
-- internal/fsdrv/fsdrv.go: making folders, removing a user's data, and copying.
pub mod Nested
use xx_drive.Prelude.{
  ℕ, zero, suc, Bool, true, false, not, ◌&&◌, ◌||◌, List, [], ◌∷◌, ◌++◌, Option, none, some,
  if◌then◌else◌, ◌==◌, nat_eq, bytes_eq,
}
use xx_drive.Prelude.Bytes.{Bytes, bytes, contains_any}
use xx_drive.Prelude.Results.{Result, ok, err, exists, not_found, invalid, other}
use xx_drive.Filepath.{slash, dot, dot_dot, clean, join_paths, dir as dir_name}
use xx_drive.Disk.{Node, folder, content, Disk, node_at, remove_all, write_file, make_all}
use xx_drive.Drive.Paths.{backslash, name_of, parent_of, join_logical, valid_name}
use xx_drive.Drive.Resolve.{resolve_user_path}
use xx_drive.Drive.Trash.{lstat_of, attempt}
use xx_drive.Drive.Trash.Purge.{names_in}
use xx_drive.Drive.Entries.{Entry, Times, entry_of, node_size, text_lt}

-- The calls of package os that may fail.
pub data FolderCall : Type 0 where
  make_user_folder : FolderCall
  make_one : FolderCall

module _ (fails : FolderCall → Bool) (data_root user : Bytes) where
  -- os.Mkdir: it fails on what exists, and without a parent.
  abbrev pub make_folder : Disk → Bytes → Bytes → Result (Unit {0}) × Disk
  make_folder d abs parent = elim (node_at d abs) [
    | some n ↦ (err other, d)
    | none ↦ if fails make_one then (err other, d) else elim (node_at d parent) [
      | none ↦ (err not_found, d)
      | some (content text) ↦ (err other, d)
      | some folder ↦ (ok tt, (abs, folder) ∷ d)
    ]
  ]

  -- `Mkdir`
  unfoldable pub mkdir : Disk → Bytes → Result (Unit {0}) × Disk
  mkdir d rel = elim (resolve_user_path (lstat_of d) data_root user rel) [
    | err e ↦ (err e, d)
    | ok (abs, logical) ↦
        if name_of logical == []
        then (err exists, d)
        else elim (attempt (fails make_user_folder)
            (make_all d (join_paths (data_root ∷ bytes "files" ∷ user ∷ [])))) [
              | none ↦ (err other, d)
              | some made ↦ make_folder made abs (dir_name abs)
            ]
  ]

-- `RemoveUser`; the removal of a path may fail. The areas are removed one after the other.
abbrev pub remove_areas :
    (Bytes → Bool) → Bytes → Bytes → Disk → List Bytes → Result (Unit {0}) × Disk
remove_areas fails data_root user d [] = (ok tt, d)
remove_areas fails data_root user d (area ∷ areas) =
    let p = join_paths (data_root ∷ area ∷ user ∷ []) in
    let rest = remove_areas fails data_root user (remove_all d p) areas in
    if not (p == data_root ++ slash ∷ (area ++ slash ∷ user))
    then (err invalid, d)
    else if fails p
    then (err other, d)
    else rest

unfoldable pub remove_user : (Bytes → Bool) → Bytes → Disk → Bytes → Result (Unit {0}) × Disk
unfolding contains_any
remove_user fails data_root d user =
    if user == []
      || user == dot
      || user == dot_dot
      || contains_any user (slash ∷ backslash ∷ 0 ∷ [])
      || not (clean user == user)
    then (err invalid, d)
    else remove_areas fails data_root user d (bytes "files" ∷ bytes "trash" ∷ bytes "versions" ∷ [])

-- The names in a directory in the order of filepath.WalkDir.
abbrev pub insert_name : Bytes → List Bytes → List Bytes
insert_name n [] = n ∷ []
insert_name n (x ∷ xs) = let rest = x ∷ insert_name n xs in if text_lt x n then rest else n ∷ x ∷ xs

abbrev pub sort_names : List Bytes → List Bytes
sort_names [] = []
sort_names (n ∷ ns) = insert_name n (sort_names ns)

-- `copyFile`: the target must not exist. A copy that breaks off is not modelled.
abbrev pub copy_file : (Bytes → Bool) → Disk → Bytes → Bytes → Result (Unit {0}) × Disk
copy_file fails d text target = elim (node_at d target) [
  | some n ↦ (err other, d)
  | none ↦ if fails target then (err other, d) else (ok tt, write_file d target text)
]

-- The entries of one directory, the first error ends the walk; `none` means that the fuel ran out.
abbrev pub copy_each :
    (Disk → Bytes → Bytes → Option (Result (Unit {0}) × Disk))
    → Disk
    → Bytes
    → Bytes
    → List Bytes
    → Option (Result (Unit {0}) × Disk)
copy_each walk d p target [] = some (ok tt, d)
copy_each walk d p target (name ∷ names) =
    elim (walk d (p ++ slash ∷ name) (target ++ slash ∷ name)) [
      | none ↦ none
      | some (err e, d') ↦ some (err e, d')
      | some (ok done, d') ↦ copy_each walk d' p target names
    ]

-- `copyTree`: a directory is made at the target before it is read at the source. The fuel bounds the
-- depth of the walk.
unfoldable pub copy_tree :
    (Bytes → Bool) → ℕ → Disk → Bytes → Bytes → Option (Result (Unit {0}) × Disk)
copy_tree fails zero d p target = none
copy_tree fails (suc fuel) d p target =
    let deeper = copy_tree fails fuel in
    elim (node_at d p) [
      | none ↦ some (err other, d)
      | some (content text) ↦ some (copy_file fails d text target)
      | some folder ↦ elim (attempt (fails target) (make_all d target)) [
        | none ↦ some (err other, d)
        | some made ↦ copy_each deeper made p target (sort_names (names_in made p))
      ]
    ]

module _ (times : Times) (fails : Bytes → Bool) (data_root user : Bytes) where
  -- The end of `Copy`, for a target that is resolved.
  abbrev pub copy_to : ℕ → Disk → Bytes → Bytes → Bytes → Bytes → Option (Result Entry × Disk)
  copy_to fuel d src dst name logical = elim (node_at d dst) [
    | some n ↦ some (err exists, d)
    | none ↦ elim (node_at d src) [
      | none ↦ some (err not_found, d)
      | some node ↦ elim (copy_tree fails fuel d src dst) [
        | none ↦ none
        | some (err e, d') ↦ some (err e, d')
        | some (ok done, d') ↦ elim (node_at d' dst) [
          | none ↦ some (err other, d')
          | some copied ↦ some (ok (entry_of times d' dst name logical copied), d')
        ]
      ]
    ]
  ]

  -- `Copy`
  unfoldable pub copy_entry : ℕ → Disk → Bytes → Bytes → Bytes → Option (Result Entry × Disk)
  copy_entry fuel d from dest_dir rename_to =
      elim (resolve_user_path (lstat_of d) data_root user from) [
        | err e ↦ some (err e, d)
        | ok (src, src_logical) ↦
            if name_of src_logical == []
            then some (err invalid, d)
            else elim (resolve_user_path (lstat_of d) data_root user dest_dir) [
              | err e ↦ some (err e, d)
              | ok (dir, dir_logical) ↦
                  let name = if rename_to == [] then name_of src_logical else rename_to in
                  if not (rename_to == []) && not (valid_name rename_to)
                  then some (err invalid, d)
                  else elim (join_logical dir_logical name) [
                    | err e ↦ some (err e, d)
                    | ok dst_logical ↦
                        elim (resolve_user_path (lstat_of d) data_root user dst_logical) [
                          | err e ↦ some (err e, d)
                          | ok (dst, logical) ↦ copy_to fuel d src dst name logical
                        ]
                  ]
            ]
      ]
