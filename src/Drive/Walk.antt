-- ===== src/Drive/Walk.antt =====
-- internal/fsdrv/fsdrv.go: walks over a user's tree, the listing of the trash, and the restore of a
-- version.
pub mod Bounded
use xx_drive.Prelude.{
  ℕ, zero, suc, ◌+◌, Bool, true, false, not, ◌&&◌, ◌||◌, List, [], ◌∷◌, ◌++◌, Option, none, some,
  if◌then◌else◌, ◌==◌, nat_eq, bytes_eq, leb, length,
}
use xx_drive.Prelude.Tables.{sort_by_desc}
use xx_drive.Prelude.Bytes.{
  Bytes, bytes, has_prefix, has_suffix, trim_suffix, contains_text, to_lower,
}
use xx_drive.Prelude.Results.{Result, ok, err, not_found, other}
use xx_drive.Filepath.{slash, base, join_paths}
use xx_drive.Disk.{Node, folder, content, Disk, node_at}
use xx_drive.Drive.Paths.{root, name_of, is_staging_entry}
use xx_drive.Drive.Resolve.{resolve_user_path}
use xx_drive.Drive.Trash.{TrashItem, Json, lstat_of, trash_dir}
use xx_drive.Drive.Trash.Purge.{names_in, text_at}
use xx_drive.Drive.Versions.{SnapshotCall, open_version}
use xx_drive.Drive.Entries.{Entry, Times, entry_of}
use xx_drive.Drive.Folders.{sort_names}
use xx_drive.Drive.Upload.{UploadCall, read_body, Request, Drawn, Uploaded, upload}

-- An entry with its absolute path, as `WalkTree` hands them on.
abbrev pub Visit : Type 0
Visit = Entry × Bytes

-- A directory's entries, one after the other; `none` means that the fuel ran out.
abbrev pub walk_names :
    (Bytes → Bytes → Bytes → Option (List Visit)) → Bytes → Bytes → List Bytes → Option (List Visit)
walk_names walk p logical [] = some []
walk_names walk p logical (name ∷ names) =
    elim (walk (p ++ slash ∷ name) (logical ++ slash ∷ name) name) [
      | none ↦ none
      | some visits ↦ elim (walk_names walk p logical names) [
        | none ↦ none
        | some more ↦ some (visits ++ more)
      ]
    ]

module _ (times : Times) (d : Disk) where
  -- filepath.WalkDir with the function of `WalkTree`. The fuel bounds the depth.
  unfoldable pub walk_at : ℕ → Bytes → Bytes → Bytes → Option (List Visit)
  walk_at zero p logical name = none
  walk_at (suc fuel) p logical name =
      let deeper = walk_at fuel in
      if is_staging_entry name then some [] else elim (node_at d p) [
        | none ↦ some []
        | some (content text) ↦ some ((entry_of times d p name logical (content text), p) ∷ [])
        | some folder ↦ elim (walk_names deeper p logical (sort_names (names_in d p))) [
          | none ↦ none
          | some visits ↦ some ((entry_of times d p name logical folder, p) ∷ visits)
        ]
      ]

  -- `WalkTree`; what it hands to a function that does not fail.
  unfoldable pub walk_tree : ℕ → Bytes → Bytes → Bytes → Option (Result (List Visit))
  walk_tree fuel data_root user rel = elim (resolve_user_path (lstat_of d) data_root user rel) [
    | err e ↦ some (err e)
    | ok (abs, logical) ↦ elim (node_at d abs) [
      | none ↦ some (err not_found)
      | some (content text) ↦
          some (ok ((entry_of times d abs (name_of logical) logical (content text), abs) ∷ []))
      | some folder ↦ elim (walk_at fuel abs logical (base abs)) [
        | none ↦ none
        | some visits ↦ some (ok visits)
      ]
    ]
  ]

-- The entries found so far, and whether the walk is to stop.
abbrev pub Found : Type 0
Found = List Entry × Bool

abbrev pub search_names :
    (Bytes → Bytes → Bytes → List Entry → Option Found)
    → Bytes
    → Bytes
    → List Bytes
    → List Entry
    → Option Found
search_names seek p rel [] out = some (out, false)
search_names seek p rel (name ∷ names) out =
    elim (seek (p ++ slash ∷ name) (rel ++ slash ∷ name) name out) [
      | none ↦ none
      | some (out', true) ↦ some (out', true)
      | some (out', false) ↦ search_names seek p rel names out'
    ]

module _ (times : Times) (d : Disk) (query : Bytes) (limit : ℕ) where
  -- filepath.WalkDir with the function of `Search`; `top` tells the directory that it starts from.
  unfoldable pub search_at : ℕ → Bool → Bytes → Bytes → Bytes → List Entry → Option Found
  search_at zero top p rel name out = none
  search_at (suc fuel) top p rel name out =
      let deeper = search_at fuel false in
      if leb limit (length out) then some (out, true) else elim (node_at d p) [
        | none ↦ some (out, false)
        | some (content text) ↦
            if contains_text (to_lower name) query
            then some (out ++ entry_of times d p name rel (content text) ∷ [], false)
            else some (out, false)
        | some folder ↦
            if has_prefix name (bytes ".") && not top
            then some (out, false)
            else search_names deeper p rel (sort_names (names_in d p)) out
      ]

-- `Search`
unfoldable pub search_entries :
    Times → ℕ → Disk → Bytes → Bytes → Bytes → ℕ → Option (Result (List Entry))
search_entries times fuel d data_root user query limit =
    elim (resolve_user_path (lstat_of d) data_root user root) [
      | err e ↦ some (err e)
      | ok (abs, logical) ↦
          elim (search_at times d (to_lower query) limit fuel true abs [] (base abs) []) [
            | none ↦ none
            | some (out, stopped) ↦ some (ok out)
          ]
    ]

-- A `TrashItem` as `ListTrash` gives it.
pub record Listed : Type 0 where
  pub id : Bytes
  pub item : TrashItem
  pub size : ℕ

abbrev pub payload_size : Times → Option Node → Bool → ℕ
payload_size times none is_dir = 0
payload_size times (some folder) is_dir = if is_dir then 0 else times.folder_size
payload_size times (some (content text)) is_dir = if is_dir then 0 else length text

-- The loop of `ListTrash`.
abbrev pub trash_items : Times → Json → Disk → Bytes → List Bytes → List Listed
trash_items times json d dir [] = []
trash_items times json d dir (name ∷ names) =
    let rest = trash_items times json d dir names in
    if not (has_suffix name (bytes ".json"))
    then rest
    else elim (text_at d (join_paths (dir ∷ name ∷ []))) [
      | none ↦ rest
      | some text ↦ elim (json.unmarshal text) [
        | none ↦ rest
        | some item ↦
            let id = trim_suffix name (bytes ".json") in
            record {
              id = id;
              item = item;
              size = payload_size times (node_at d (join_paths (dir ∷ id ∷ []))) item.is_dir;
            }
            ∷ rest
      ]
    ]

-- `ListTrash`: the newest first.
unfoldable pub list_trash : Times → Json → Bytes → Disk → Bytes → Result (List Listed)
list_trash times json data_root d user = elim (node_at d (trash_dir data_root user)) [
  | none ↦ ok []
  | some (content text) ↦ err other
  | some folder ↦ ok (
      sort_by_desc (λ l. l.item.deleted_at)
        (trash_items times json d (trash_dir data_root user)
          (names_in d (trash_dir data_root user))))
]

-- The reading of a directory fails.
abbrev pub unreadable : (UploadCall → Bool) → UploadCall → Bool
unreadable fails read_body = true
unreadable fails c = fails c

-- `RestoreVersion`
unfoldable pub restore_version :
    Times
    → (Bytes → Bytes)
    → (Bytes → Bytes)
    → (UploadCall → Bool)
    → (SnapshotCall → Bool)
    → Bytes
    → Bytes
    → Disk
    → Bytes
    → Bytes
    → Drawn
    → Result (Unit {0}) × Disk
restore_version times path_hash sha fails faults data_root user d rel id drawn =
    elim (open_version path_hash data_root user d rel id) [
      | err e ↦ (err e, d)
      | ok content_of ↦
          let text : Bytes = elim content_of [ none ↦ [] | some t ↦ t ] in
          let refusing : UploadCall → Bool = elim content_of [
            | none ↦ unreadable fails
            | some t ↦ fails
          ] in
          let request : Request = record {
            body = text;
            max_size = length text + 1048576;
            if_match = [];
            conflict_rename = false;
            device_tag = [];
          } in
          let (result, d') =
            upload times path_hash sha refusing faults data_root user d rel request drawn in
          elim result [ err e ↦ (err e, d') | ok uploaded ↦ (ok tt, d') ]
    ]
