-- ===== src/Drive/Trash/Purge.antt =====
-- internal/fsdrv/fsdrv.go: the metadata of trashed items, and their permanent removal.
use xx_drive.Prelude.{
  ℕ, Bool, not, List, [], ◌∷◌, ◌++◌, Option, none, some, if◌then◌else◌, nat_eq, bytes_eq, ltb,
  contains,
}
use xx_drive.Prelude.Bytes.{Bytes, bytes, has_suffix, trim_suffix}
use xx_drive.Prelude.Results.{Result, ok, err, not_found, invalid, other}
use xx_drive.Filepath.{slash, join_paths}
use xx_drive.Disk.{folder, content, Disk, strip, node_at, remove_all}
use xx_drive.Drive.Trash.{TrashItem, Json, trash_dir, payload_at, meta_at, valid_id}

-- The text of a regular file.
abbrev pub text_at : Disk → Bytes → Option Bytes
text_at d p = elim (node_at d p) [
  | none ↦ none
  | some folder ↦ none
  | some (content text) ↦ some text
]

-- `ReadTrashMeta`
unfoldable pub read_trash_meta : Json → Bytes → Disk → Bytes → Bytes → Result TrashItem
read_trash_meta json data_root d user id =
    if not (valid_id id)
    then err invalid
    else elim (node_at d (meta_at (trash_dir data_root user) id)) [
      | none ↦ err not_found
      | some folder ↦ err other
      | some (content text) ↦ elim (json.unmarshal text) [ none ↦ err other | some item ↦ ok item ]
    ]

-- `PurgeTrashItem`; the removal of a path may fail.
unfoldable pub purge_trash_item :
    (Bytes → Bool) → Bytes → Disk → Bytes → Bytes → Result (Unit {0}) × Disk
purge_trash_item fails data_root d user id =
    let dir = trash_dir data_root user in
    if not (valid_id id) then (err invalid, d) else elim (node_at d (meta_at dir id)) [
      | none ↦ (err not_found, d)
      | some n ↦
          if fails (payload_at dir id)
          then (err other, d)
          else if fails (meta_at dir id)
          then (err other, remove_all d (payload_at dir id))
          else (ok tt, remove_all (remove_all d (payload_at dir id)) (meta_at dir id))
    ]

-- `EmptyTrash`
unfoldable pub empty_trash : Bytes → Disk → Bytes → Disk
empty_trash data_root d user = remove_all d (trash_dir data_root user)

-- os.ReadDir: the names in a directory.
abbrev pub entry_name : Option Bytes → Option Bytes
entry_name (some (c ∷ name)) = if contains name slash then none else some name
entry_name o = none

abbrev pub names_in : Disk → Bytes → List Bytes
names_in [] dir = []
names_in ((q, n) ∷ d) dir =
    let rest = names_in d dir in
    elim (entry_name (strip dir q)) [ some name ↦ name ∷ rest | none ↦ rest ]

-- `minPlausibleUnix`
abbrev pub min_plausible_unix : ℕ
min_plausible_unix = 1000000000

-- `PurgedTrash`
pub record PurgedTrash : Type 0 where
  pub username : Bytes
  pub orig_path : Bytes

-- The metadata of an entry that may be purged: readable, with a plausible time before the cutoff.
-- Times are seconds, and the cutoff is its time in seconds rounded up.
abbrev pub expired_item : Json → Disk → Bytes → Bytes → ℕ → Option TrashItem
expired_item json d dir name cutoff =
    if not (has_suffix name (bytes ".json"))
    then none
    else elim (text_at d (join_paths (dir ∷ name ∷ []))) [
      | none ↦ none
      | some text ↦ elim (json.unmarshal text) [
        | none ↦ none
        | some item ↦
            if ltb item.deleted_at min_plausible_unix
            then none
            else if ltb item.deleted_at cutoff
            then some item
            else none
      ]
    ]

module _ (fails : Bytes → Bool) (json : Json) (cutoff : ℕ) (dir user : Bytes) where
  -- One round of the inner loop of `PurgeOldTrash`; the removal of a path may fail.
  abbrev pub purge_entry : Disk → Bytes → List PurgedTrash × Disk
  purge_entry d name = elim (expired_item json d dir name cutoff) [
    | none ↦ ([], d)
    | some item ↦
        let payload = join_paths (dir ∷ trim_suffix name (bytes ".json") ∷ []) in
        let meta = join_paths (dir ∷ name ∷ []) in
        if fails payload then ([], d) else (
          record { username = user; orig_path = item.orig_path } ∷ [],
          if fails meta then remove_all d payload else remove_all (remove_all d payload) meta,
        )
  ]

  abbrev pub purge_entries : Disk → List Bytes → List PurgedTrash × Disk
  purge_entries d [] = ([], d)
  purge_entries d (name ∷ names) =
      let (first, mid) = purge_entry d name in
      let (rest, last) = purge_entries mid names in (first ++ rest, last)

-- `PurgeOldTrash` for the users' folders in the trash.
unfoldable pub purge_old_trash :
    (Bytes → Bool) → Json → ℕ → Bytes → Disk → List Bytes → List PurgedTrash × Disk
purge_old_trash fails json cutoff data_root d [] = ([], d)
purge_old_trash fails json cutoff data_root d (user ∷ users) =
    let dir = join_paths (data_root ∷ bytes "trash" ∷ user ∷ []) in
    let (first, mid) = purge_entries fails json cutoff dir user d (names_in d dir) in
    let (rest, last) = purge_old_trash fails json cutoff data_root mid users in
    (first ++ rest, last)
