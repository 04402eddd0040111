-- ===== src/Api/FileHandlers.antt =====
-- internal/api/handlers.go: the handlers that change files, behind the authentication. A body that
-- cannot be decoded is none.
use xx_drive.Prelude.{
  ℕ, Bool, List, [], ◌∷◌, ◌++◌, Option, none, some, if◌then◌else◌, ◌==◌, nat_eq, bytes_eq,
}
use xx_drive.Prelude.Bytes.{Bytes, bytes}
use xx_drive.Prelude.Results.{ok, err}
use xx_drive.Drive.Paths.{must_validate, validate_rel}
use xx_drive.Drive.Trash.{decimal}
use xx_drive.Drive.Entries.{Entry}
use xx_drive.Drive.Versions.{SnapshotCall}
use xx_drive.Drive.Moves.{rename_entry, move_entry}
use xx_drive.Drive.Folders.{FolderCall, mkdir, copy_entry}
use xx_drive.Drive.Upload.{UploadCall, Drawn, Request, Uploaded, upload}
use xx_drive.Store.Rows.{User, Db}
use xx_drive.Store.Events.{add_event}
use xx_drive.Store.Etags.{move_etags, put_etag}
use xx_drive.Store.Versions.{add_version}
use xx_drive.Api.History.{World, Outside, Reply, refused, done, status_of, relocate_version_history}

-- The text of an arrow, with spaces, in UTF-8.
abbrev arrow : Bytes
arrow = bytes " " ++ (226 ∷ 134 ∷ 146 ∷ bytes " ")

-- What `ValidateRel` returns when its error is ignored.
abbrev logical_of : Bytes → Bytes
logical_of path = elim (validate_rel path) [ err e ↦ [] | ok v ↦ v ]

-- The multipart form of `handleUpload`: the name and the content of a part, or an error.
abbrev pub Form : Type 0
Form = List (Option (Bytes × Bytes))

-- What the loop of `handleUpload` finds.
pub data Part : Type 0 where
  no_part : Part
  broken : Part
  part : Bytes → Part

abbrev file_part : Form → Part
file_part [] = no_part
file_part (none ∷ form) = broken
file_part (some (name, body) ∷ form) =
    let rest = file_part form in if name == bytes "file" then part body else rest

-- What `handleUpload` takes from the request.
pub record Upload : Type 0 where
  pub target : Bytes
  pub conflict_rename : Bool
  pub device_tag : Bytes
  pub if_match : Bytes
  pub form : Option Form

module _ (outside : Outside) (u : User) (now : ℕ) where
  abbrev log_event : World → Bytes → Bytes → World
  log_event w kind detail = record w { db = add_event w.db u.id kind detail now }

  -- `handleMkdir`
  unfoldable pub handle_mkdir :
      (FolderCall → Bool) → World → Option Bytes → Reply (Unit {0}) × World
  handle_mkdir fails w none = (refused 400, w)
  handle_mkdir fails w (some path) =
      let (result, d) = mkdir fails outside.data_root u.username w.disk path in
      elim result [
        | err e ↦ (refused (status_of e), record w { disk = d })
        | ok made ↦ (done tt, log_event (record w { disk = d }) (bytes "mkdir") (logical_of path))
      ]

  -- What follows a rename or a move: the etags and the versions follow the file.
  abbrev follow : World → Bytes → Bytes → Bytes → World
  follow w kind old_path new_path =
      let renamed = record w { db = move_etags outside.like w.db u.id old_path new_path } in
      log_event (relocate_version_history outside u renamed old_path new_path) kind
        (old_path ++ (arrow ++ new_path))

  -- `handleRename`
  unfoldable pub handle_rename : Bool → World → Option (Bytes × Bytes) → Reply Bytes × World
  handle_rename fails w none = (refused 400, w)
  handle_rename fails w (some (path, new_name)) =
      let (result, d) = rename_entry fails outside.data_root u.username w.disk path new_name in
      elim result [
        | err e ↦ (refused (status_of e), record w { disk = d })
        | ok new_path ↦ (
          done new_path,
          follow (record w { disk = d }) (bytes "rename") (logical_of path) new_path,
        )
      ]

  -- `handleMove`
  unfoldable pub handle_move : Bool → World → Option (Bytes × Bytes) → Reply Bytes × World
  handle_move fails w none = (refused 400, w)
  handle_move fails w (some (path, dest_dir)) =
      let (result, d) = move_entry fails outside.data_root u.username w.disk path dest_dir in
      elim result [
        | err e ↦ (refused (status_of e), record w { disk = d })
        | ok new_path ↦ (
          done new_path,
          follow (record w { disk = d }) (bytes "move") (logical_of path) new_path,
        )
      ]

  -- `handleCopy`, for a path, a directory and a new name; `none` means that the fuel ran out.
  unfoldable pub handle_copy :
      (Bytes → Bool) → ℕ → World → Option (Bytes × Bytes × Bytes) → Option (Reply Entry × World)
  handle_copy fails fuel w none = some (refused 400, w)
  handle_copy fails fuel w (some (path, dest_dir, new_name)) =
      elim (copy_entry outside.times fails outside.data_root u.username fuel w.disk path dest_dir
        new_name) [
          | none ↦ none
          | some (err e, d) ↦ some (refused (status_of e), record w { disk = d })
          | some (ok entry, d) ↦ some (
            done entry,
            log_event (record w { disk = d }) (bytes "copy") (path ++ (arrow ++ entry.path)),
          )
        ]

  -- The rows that `handleUpload` writes for a stored file.
  abbrev pub record_upload : Db → Bytes → Uploaded → Db
  record_upload db target up =
      let known = put_etag db u.id up.entry.path up.entry.size up.entry.mod_time up.sha in
      let kept =
        if up.previous.version_id == []
        then known
        else (add_version known u.id (must_validate target) up.previous.version_id up.previous.size
            now).1 in
      add_event kept u.id (bytes "upload")
        (up.entry.path ++ (bytes " (" ++ (decimal up.entry.size ++ bytes " bytes)"))) now

  -- `handleUpload`; an upload that sets a conflict copy aside is answered with 201 in place of 200.
  unfoldable pub handle_upload :
      (UploadCall → Bool)
      → (SnapshotCall → Bool)
      → ℕ
      → World
      → Upload
      → Drawn
      → Reply (ℕ × Uploaded) × World
  handle_upload fails faults max_bytes w asked drawn = elim asked.form [
    | none ↦ (refused 400, w)
    | some form ↦ elim (file_part form) [
      | no_part ↦ (refused 400, w)
      | broken ↦ (refused 500, w)
      | part body ↦
          let request : Request = record {
            body = body;
            max_size = max_bytes;
            if_match = asked.if_match;
            conflict_rename = asked.conflict_rename;
            device_tag = asked.device_tag;
          } in
          let (result, d) =
            upload outside.times outside.path_hash outside.sha fails faults outside.data_root
              u.username w.disk asked.target request drawn in
          elim result [
            | err e ↦ (refused (status_of e), record w { disk = d })
            | ok up ↦ (
              done (if up.conflicted then 201 else 200, up),
              record { db = record_upload w.db asked.target up; disk = d },
            )
          ]
    ]
  ]
