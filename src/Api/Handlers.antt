-- ===== src/Api/Handlers.antt =====
-- internal/api/handlers.go: the handlers of the trash and of versions, behind the authentication.
-- A body that cannot be decoded is none.
pub mod Purged
pub mod Recorded
use xx_drive.Prelude.{
  ℕ, Bool, true, false, not, ◌&&◌, ◌||◌, List, [], ◌∷◌, ◌++◌, Option, none, some, if◌then◌else◌,
  ◌==◌, nat_eq, bytes_eq,
}
use xx_drive.Prelude.Bytes.{Bytes, bytes}
use xx_drive.Prelude.Results.{Result, ok, err}
use xx_drive.Drive.Paths.{must_validate}
use xx_drive.Drive.Trash.{TrashItem, Call, delete_with_versions, restore}
use xx_drive.Drive.Trash.Purge.{read_trash_meta, purge_trash_item, empty_trash}
use xx_drive.Drive.Versions.{SnapshotCall, snapshot_current}
use xx_drive.Drive.Upload.{UploadCall, Drawn}
use xx_drive.Drive.Walk.{Listed, list_trash, restore_version}
use xx_drive.Store.Rows.{User, Db}
use xx_drive.Store.Events.{add_event}
use xx_drive.Store.Etags.{delete_etags_under}
use xx_drive.Store.Versions.{VersionRef, versions_under, get_version, add_version}
use xx_drive.Api.History.{
  World, Outside, Reply, refused, done, status_of, purge_version_history, purge_specific_versions,
  move_owned,
}

-- Where a deletion recorded no versions, those under the original path.
abbrev recorded_or : List VersionRef → List VersionRef → List VersionRef
recorded_or [] under = under
recorded_or (ref ∷ refs) under = ref ∷ refs

module _ (outside : Outside) (u : User) where
  -- The versions that `handleTrashRestore` takes for the item's.
  abbrev pub owned_by : Db → Result TrashItem → List VersionRef
  owned_by db (err e) = []
  owned_by db (ok item) =
      if item.orig_path == []
      then []
      else recorded_or item.versions (versions_under outside.like db u.id item.orig_path)

  -- The end of `handleTrashRestore`: the versions follow an item that is restored beside its old place.
  abbrev follow : (Bytes → Bool) → World → Result TrashItem → List VersionRef → Bytes → World
  follow fails w (err e) refs dest = w
  follow fails w (ok item) [] dest = w
  follow fails w (ok item) (ref ∷ refs) dest =
      if item.orig_path == [] || item.orig_path == dest
      then w
      else move_owned outside u fails w item.orig_path dest (ref ∷ refs)

  -- The versions of an item that is gone for good.
  abbrev pub purge_owned : World → List VersionRef → Bytes → World
  purge_owned w [] orig_path =
      if orig_path == [] then w else purge_version_history outside u w orig_path
  purge_owned w (ref ∷ refs) orig_path = purge_specific_versions outside u w (ref ∷ refs)

  abbrev pub purge_all : World → List Listed → World
  purge_all w [] = w
  purge_all w (l ∷ ls) = purge_all (purge_owned w l.item.versions l.item.orig_path) ls

module _ (outside : Outside) (u : User) (now : ℕ) where
  abbrev pub log_event : World → Bytes → Bytes → World
  log_event w kind detail = record w { db = add_event w.db u.id kind detail now }

  -- `handleDelete`, with the id that is drawn for the item.
  unfoldable pub handle_delete : (Call → Bool) → World → Option Bytes → Bytes → Reply Bytes × World
  handle_delete fails w none id = (refused 400, w)
  handle_delete fails w (some path) id =
      let owned = versions_under outside.like w.db u.id (must_validate path) in
      let (result, d) =
        delete_with_versions fails outside.json outside.data_root w.disk u.username path owned id
          now in
      elim result [
        | err e ↦ (refused (status_of e), record w { disk = d })
        | ok (trash_id, orig) ↦ (
          done trash_id,
          log_event (record { db = delete_etags_under outside.like w.db u.id orig; disk = d })
              (bytes "delete") orig,
        )
      ]

  -- `handleTrashRestore`
  unfoldable pub handle_trash_restore :
      (Call → Bool) → (Bytes → Bool) → World → Option Bytes → Reply Bytes × World
  handle_trash_restore fails fails_blob w none = (refused 400, w)
  handle_trash_restore fails fails_blob w (some id) =
      let meta = read_trash_meta outside.json outside.data_root w.disk u.username id in
      let owned = owned_by outside u w.db meta in
      let (result, d) = restore fails outside.data_root u.username outside.json w.disk id in
      elim result [
        | err e ↦ (refused (status_of e), record w { disk = d })
        | ok dest ↦ (
          done dest,
          log_event (follow outside u fails_blob (record w { disk = d }) meta owned dest)
              (bytes "restore") dest,
        )
      ]

  -- `handleTrashDelete`; the removal of a path may fail.
  unfoldable pub handle_trash_delete :
      (Bytes → Bool) → World → Option Bytes → Reply (Unit {0}) × World
  handle_trash_delete fails w none = (refused 400, w)
  handle_trash_delete fails w (some id) =
      elim (read_trash_meta outside.json outside.data_root w.disk u.username id) [
        | err e ↦ (refused (status_of e), w)
        | ok item ↦
            let (result, d) = purge_trash_item fails outside.data_root w.disk u.username id in
            elim result [
              | err e ↦ (refused (status_of e), record w { disk = d })
              | ok purged ↦ (
                done tt,
                log_event
                    (purge_owned outside u (record w { disk = d }) item.versions item.orig_path)
                    (bytes "purge") id,
              )
            ]
      ]

  -- `handleTrashEmpty`; a listing that fails is empty.
  unfoldable pub handle_trash_empty : World → Reply (Unit {0}) × World
  handle_trash_empty w =
      let items : List Listed =
        elim (list_trash outside.times outside.json outside.data_root w.disk u.username) [
          | err e ↦ []
          | ok listed ↦ listed
        ] in
      let emptied = record w { disk = empty_trash outside.data_root w.disk u.username } in
      (done tt, log_event (purge_all outside u emptied items) (bytes "empty_trash") [])

  -- The current content becomes a version; an error is passed over.
  abbrev keep_current : (SnapshotCall → Bool) → World → Bytes → Bytes → World
  keep_current faults w path version_id =
      let (result, d) =
        snapshot_current outside.path_hash outside.data_root u.username faults w.disk path
          version_id in
      elim result [
        | err e ↦ record w { disk = d }
        | ok (id, size) ↦ record {
          db = (add_version w.db u.id (must_validate path) id size now).1;
          disk = d;
        }
      ]

  -- `handleVersionRestore`, for a path and a version; an id is drawn for the current content.
  unfoldable pub handle_version_restore :
      (UploadCall → Bool)
      → (SnapshotCall → Bool)
      → World
      → Option (Bytes × Bytes)
      → Bytes
      → Drawn
      → Reply (Unit {0}) × World
  handle_version_restore fails faults w none version_id drawn = (refused 400, w)
  handle_version_restore fails faults w (some (path, wanted)) version_id drawn =
      elim (get_version w.db u.id (must_validate path) wanted) [
        | err e ↦ (refused 404, w)
        | ok info ↦
            let kept = keep_current faults w path version_id in
            let (result, d) =
              restore_version outside.times outside.path_hash outside.sha fails faults
                outside.data_root u.username kept.disk path wanted drawn in
            elim result [
              | err e ↦ (refused (status_of e), record kept { disk = d })
              | ok restored ↦ (
                done tt,
                log_event (record kept { disk = d }) (bytes "version_restore")
                    (path ++ (bytes " @ " ++ wanted)),
              )
            ]
      ]
