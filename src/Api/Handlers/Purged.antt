-- ===== src/Api/Handlers/Purged.antt =====
-- What the permanent removal of a trashed item does to the index of versions.
use xx_drive.Prelude.{
  ℕ, Bool, false, not, ◌&&◌, ◌≡◌, ◌≢◌, refl, sym, ap, ◌∙◌, inl, inr, List, [], ◌∷◌, ◌++◌, some,
  ◌==◌, nat_eq, bytes_eq, arith, any, keep, contains, Bool-cases, Option-cases,
}
use xx_drive.Prelude.Bytes.{Bytes, bytes}
use xx_drive.Prelude.Results.{Error, Result, ok, err, Result-cases}
use xx_drive.Prelude.Tables.{keep-not_or, keep-all}
use xx_drive.Filepath.Canonical.{IsTail}
use xx_drive.Drive.Trash.{TrashItem}
use xx_drive.Drive.Trash.Purge.{read_trash_meta, purge_trash_item}
use xx_drive.Store.Rows.{User, Version, Db}
use xx_drive.Store.Users.{user_by_id}
use xx_drive.Store.Events.{add_event}
use xx_drive.Store.Like.{IsLike}
use xx_drive.Store.Versions.{
  VersionRef, is_ref, is_root, list_versions, delete_refs, delete_specific_versions,
  delete_versions_under,
}
use xx_drive.Store.Versions.Subtrees.{delete_versions_under-list_versions}
use xx_drive.Api.History.{World, Outside, done, purge_version_history, purge_specific_versions}
use xx_drive.Api.Handlers.{log_event, handle_trash_delete, purge_owned}

-- Whether one of the references names a row.
abbrev pub is_named : ℕ → List VersionRef → Version → Bool
is_named user refs v = any (λ ref. is_ref user ref v) refs

delete_refs-rows :
    (user : ℕ) (seen : List Bytes) (refs : List VersionRef) (rows : List Version)
    → (delete_refs user seen refs rows).1 ≡ keep (λ v. not (is_named user refs v)) rows
delete_refs-rows user seen [] rows = sym (keep-all rows)
delete_refs-rows user seen (ref ∷ refs) rows =
    let left = keep (λ v. not (is_ref user ref v)) rows in
    let fused = keep-not_or (is_ref user ref) (is_named user refs) rows in
    let first = delete_refs-rows user (ref.path ∷ seen) refs left in
    let second = delete_refs-rows user seen refs left in
    elim (Bool-cases (any (is_ref user ref) rows && not (contains seen ref.path))) [
      | inl removed ↦ rw removed (first ∙ fused)
      | inr known ↦ rw known (second ∙ fused)
    ]

pub add_event-versions :
    (db : Db) (user : ℕ) (kind detail : Bytes) (now : ℕ)
    → (add_event db user kind detail now).versions ≡ db.versions
unfolding add_event
add_event-versions db user kind detail now = elim (Option-cases (user_by_id db user)) [
  | inl none_such ↦ rw (add_event, none_such) refl
  | inr (u, known) ↦ rw (add_event, known) refl
]

list_versions-rows :
    (db db' : Db) (user : ℕ) (path : Bytes)
    → db.versions ≡ db'.versions
    → list_versions db user path ≡ list_versions db' user path
unfolding list_versions
list_versions-rows db db' user path e = rw e refl

module _ (outside : Outside) (u : User) where
  delete_versions_under-not_err :
      (db : Db) (orig : Bytes) {e : Error}
      → is_root orig ≡ false
      → (delete_versions_under outside.like db u.id orig).0 ≢ err e
  unfolding delete_versions_under
  delete_versions_under-not_err db orig deep h = ground arith

  purge_specific-rows :
      (w : World) (refs : List VersionRef)
      → (purge_specific_versions outside u w refs).db.versions
        ≡ keep (λ v. not (is_named u.id refs v)) w.db.versions
  unfolding purge_specific_versions delete_specific_versions
  purge_specific-rows w refs = delete_refs-rows u.id [] refs w.db.versions

  purge_owned_named :
      (w : World) (refs : List VersionRef) (orig : Bytes)
      → refs ≢ []
      → (purge_owned outside u w refs orig).db.versions
        ≡ keep (λ v. not (is_named u.id refs v)) w.db.versions
  purge_owned_named w [] orig ne = absurd (ne refl)
  purge_owned_named w (ref ∷ refs) orig ne = purge_specific-rows w (ref ∷ refs)

  pub purge_owned_unnamed :
      IsLike outside.like
      → (w : World) (orig t : Bytes) → is_root orig ≡ false
      → IsTail t
      → list_versions (purge_owned outside u w [] orig).db u.id (orig ++ t) ≡ []
  unfolding purge_version_history
  purge_owned_unnamed laws w orig t deep tail =
      let some_path : (orig == []) ≡ false = ground arith in
      elim (Result-cases ((delete_versions_under outside.like w.db u.id orig).0)) [
        | inr (e, failed) ↦ absurd (delete_versions_under-not_err w.db orig deep failed)
        | inl (paths, gone) ↦
            rw (some_path, purge_version_history, gone)
              ((delete_versions_under-list_versions outside.like laws w.db u.id orig {paths = paths}
                  (ap
                    (λ (r : Result (List Bytes)).
                      (r, (delete_versions_under outside.like w.db u.id orig).1))
                    gone)).0
                t tail)
      ]

  -- What the handler leaves when it succeeds.
  handle_trash_delete-eq :
      (now : ℕ) (fails : Bytes → Bool) (w : World) (id : Bytes) {item : TrashItem} {w' : World}
      → read_trash_meta outside.json outside.data_root w.disk u.username id ≡ ok item
      → handle_trash_delete outside u now fails w (some id) ≡ (done tt, w')
      → log_event outside u now
          (purge_owned outside u
            (record w { disk = (purge_trash_item fails outside.data_root w.disk u.username id).1 })
            item.versions
            item.orig_path)
          (bytes "purge")
          id
        ≡ w'
  unfolding handle_trash_delete
  handle_trash_delete-eq now fails w id {item} {w'} known e =
      elim (Result-cases ((purge_trash_item fails outside.data_root w.disk u.username id).0)) [
        | inr (why, failed) ↦
            let k = rw (handle_trash_delete, known, failed) at e in absurd (ground arith)
        | inl (purged, gone) ↦ let k = rw (handle_trash_delete, known, gone) at e in ground arith
      ]

  -- A permanent removal takes exactly the rows that the item's metadata names, if it names any: a newer
  -- file at the same path keeps its history.
  pub handle_trash_delete_named :
      (now : ℕ) (fails : Bytes → Bool) (w : World) (id : Bytes) {item : TrashItem} {w' : World}
      → read_trash_meta outside.json outside.data_root w.disk u.username id ≡ ok item
      → item.versions ≢ []
      → handle_trash_delete outside u now fails w (some id) ≡ (done tt, w')
      → w'.db.versions ≡ keep (λ v. not (is_named u.id item.versions v)) w.db.versions
  handle_trash_delete_named now fails w id {item} {w'} known ne e =
      let d = (purge_trash_item fails outside.data_root w.disk u.username id).1 in
      let purged = purge_owned outside u (record w { disk = d }) item.versions item.orig_path in
      sym (ap (λ (x : World). x.db.versions) (handle_trash_delete-eq now fails w id known e))
      ∙ add_event-versions purged.db u.id (bytes "purge") id now
      ∙ purge_owned_named (record w { disk = d }) item.versions item.orig_path ne

  -- A permanent removal of an item whose metadata names no version, as none was there when it was
  -- deleted, empties the history of the path that it had, and of every path below it: also the history
  -- of a newer file.
  pub handle_trash_delete_unnamed :
      IsLike outside.like
      → (now : ℕ) (fails : Bytes → Bool) (w : World) (id : Bytes) {item : TrashItem} {w' : World}
      → read_trash_meta outside.json outside.data_root w.disk u.username id ≡ ok item
      → item.versions ≡ []
      → is_root item.orig_path ≡ false
      → handle_trash_delete outside u now fails w (some id) ≡ (done tt, w')
      → (t : Bytes) → IsTail t
      → list_versions w'.db u.id (item.orig_path ++ t) ≡ []
  handle_trash_delete_unnamed laws now fails w id {item} {w'} known none_named deep e t tail =
      let d = (purge_trash_item fails outside.data_root w.disk u.username id).1 in
      let purged = purge_owned outside u (record w { disk = d }) item.versions item.orig_path in
      let rows =
        sym (ap (λ (x : World). x.db.versions) (handle_trash_delete-eq now fails w id known e))
        ∙ add_event-versions purged.db u.id (bytes "purge") id now in
      list_versions-rows w'.db purged.db u.id (item.orig_path ++ t) rows
      ∙ rw none_named (purge_owned_unnamed laws (record w { disk = d }) item.orig_path t deep tail)
