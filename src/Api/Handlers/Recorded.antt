-- ===== src/Api/Handlers/Recorded.antt =====
-- A deletion records the versions that go with the item, and its permanent removal takes just these.
use xx_drive.Prelude.{
  ℕ, ◌<◌, All, Bool, true, not, ◌≡◌, ◌≢◌, refl, sym, ◌∙◌, inl, inr, List, [], ◌∷◌, some, ◌==◌,
  nat_eq, bytes_eq, subst, arith, keep, Bool-cases, Option-cases,
}
use xx_drive.Prelude.Bytes.{Bytes}
use xx_drive.Prelude.Results.{Result, ok, err, Result-cases}
use xx_drive.Filepath.{slash}
use xx_drive.Disk.{Disk, content, node_at}
use xx_drive.Drive.Paths.{root, name_of, validate_rel, must_validate}
use xx_drive.Drive.Resolve.{resolve_user_path}
use xx_drive.Drive.Resolve.Location.{resolve_user_path-eq-ok}
use xx_drive.Drive.Layout.{resolved-IsPlain, resolved-in_files, trash_dir-in_trash, areas-Apart}
use xx_drive.Drive.Trash.{
  TrashItem, Json, Call, lstat_of, is_folder, trash_dir, meta_at, valid_id, trash_item,
  delete_with_versions,
}
use xx_drive.Drive.Trash.Kept.{Kept, IsUnused, trash_item-Kept}
use xx_drive.Drive.Trash.Purge.{read_trash_meta}
use xx_drive.Store.Rows.{User}
use xx_drive.Store.Versions.{VersionRef, versions_under}
use xx_drive.Api.History.{World, Outside, done}
use xx_drive.Api.Handlers.{handle_delete, handle_trash_delete}
use xx_drive.Api.Handlers.Purged.{is_named, handle_trash_delete_named}

Kept-ok :
    (fails : Call → Bool) (d : Disk) (abs dir id meta : Bytes) (out : Result (Bytes × Bytes) × Disk)
    {r : Bytes × Bytes}
    → Kept fails d abs dir id meta out
    → out.0 ≡ ok r
    → (r.0 ≡ id) × (node_at (out.1) (meta_at dir id) ≡ some (content meta))
Kept-ok fails d abs dir id meta (ok q, d') {r} (same, _, _, stored) e =
    let one : q ≡ r = ground arith in (subst (λ x. x.0 ≡ id) one same, stored)
Kept-ok fails d abs dir id meta (err why, d') k e = absurd (ground arith)

-- The metadata that a deletion of the path writes.
abbrev pub recorded : Bytes → Bool → ℕ → List VersionRef → TrashItem
recorded rel dir now versions = record {
  orig_path = must_validate rel;
  name = name_of (must_validate rel);
  is_dir = dir;
  deleted_at = now;
  versions = versions;
}

-- The texts of an item are valid, and its time fits 64 bits with a sign.
abbrev pub IsWritable : (Bytes → Bool) → TrashItem → Type 0
IsWritable valid_string item =
    (valid_string item.orig_path ≡ true)
    × (valid_string item.name ≡ true)
    × (item.deleted_at < 9223372036854775808)
    × All (λ ref. (valid_string ref.path ≡ true) × (valid_string ref.version_id ≡ true))
        item.versions

must_validate-ok : (rel : Bytes) {v : Bytes} → validate_rel rel ≡ ok v → v ≡ must_validate rel
unfolding must_validate
must_validate-ok rel e = rw (must_validate, e) refl

module _ (fails : Call → Bool) (json : Json) (r user : Bytes) where
  -- A deletion that succeeds leaves the metadata under its id, with the versions that it was given.
  abbrev LeavesMeta : Bytes → Disk → Bytes → List VersionRef → Bytes → ℕ → Type 0
  LeavesMeta data_root d rel versions id now =
      (result : Bytes × Bytes)
      → IsUnused d (trash_dir data_root user) id
      → (delete_with_versions fails json data_root d user rel versions id now).0 ≡ ok result
      → (dir : Bool) × (result.0 ≡ id)
        × (node_at ((delete_with_versions fails json data_root d user rel versions id now).1)
              (meta_at (trash_dir data_root user) id)
            ≡ some (content (json.marshal (recorded rel dir now versions))))

  delete_with_versions-LeavesMeta :
      (d : Disk) (rel : Bytes) (versions : List VersionRef) (id : Bytes) (now : ℕ)
      → LeavesMeta (slash ∷ r) d rel versions id now
  unfolding delete_with_versions
  delete_with_versions-LeavesMeta d rel versions id now result unused e =
      elim (Result-cases (resolve_user_path (lstat_of d) (slash ∷ r) user rel)) [
        | inr (why, failed) ↦
            let k = rw (delete_with_versions, failed) at e in absurd (ground arith)
        | inl ((abs, logical), found) ↦ elim (Bool-cases (logical == root)) [
          | inl top ↦ let k = rw (delete_with_versions, found, top) at e in absurd (ground arith)
          | inr below ↦ elim (Option-cases (node_at d abs)) [
            | inl missing ↦
                let k = rw (delete_with_versions, found, below, missing) at e in
                absurd (ground arith)
            | inr (n, here) ↦
                let k = rw (delete_with_versions, found, below, here) at e in
                let item : TrashItem = record {
                  orig_path = logical;
                  name = name_of logical;
                  is_dir = is_folder (some n);
                  deleted_at = now;
                  versions = versions;
                } in
                let (root_plain, user_plain) = resolved-IsPlain (lstat_of d) r user rel found in
                let apart =
                  areas-Apart r b'f' b't' (λ q. ground arith)
                    (resolved-in_files (lstat_of d) r user rel found)
                    (trash_dir-in_trash r user root_plain user_plain) in
                let dir = trash_dir (slash ∷ r) user in
                let (same, stored) =
                  Kept-ok fails d abs dir id (json.marshal item)
                    (trash_item fails d abs logical dir id (json.marshal item))
                    (trash_item-Kept fails abs dir id apart d logical (json.marshal item) here
                      unused)
                    k in
                let (valid, _, _, _) =
                  resolve_user_path-eq-ok (lstat_of d) (slash ∷ r) user rel found in
                (
                  is_folder (some n),
                  same,
                  rw (delete_with_versions, found, below, here, sym (must_validate-ok rel valid))
                      stored,
                )
          ]
        ]
      ]

module _ (outside : Outside) (u : User) (r : Bytes) (at_root : outside.data_root ≡ slash ∷ r) where
  -- The handler of deletions leaves the metadata of the item, with the versions that were under its path.
  handle_delete-recorded :
      (now : ℕ) (fails : Call → Bool) (w : World) (path id : Bytes) {trash_id : Bytes} {w' : World}
      → IsUnused w.disk (trash_dir outside.data_root u.username) id
      → handle_delete outside u now fails w (some path) id ≡ (done trash_id, w')
      → (dir : Bool) × (trash_id ≡ id)
        × (node_at w'.disk (meta_at (trash_dir outside.data_root u.username) id)
            ≡ some (
                content (
                  outside.json.marshal (
                    recorded path dir now
                      (versions_under outside.like w.db u.id (must_validate path))))))
  unfolding handle_delete
  handle_delete-recorded now fails w path id {trash_id} {w'} unused e =
      let owned = versions_under outside.like w.db u.id (must_validate path) in
      let out =
        delete_with_versions fails outside.json outside.data_root w.disk u.username path owned id
          now in
      elim (Result-cases (out.0)) [
        | inr (why, failed) ↦ let k = rw (handle_delete, failed) at e in absurd (ground arith)
        | inl (result, deleted) ↦
            let k = rw (handle_delete, deleted) at e in
            let (dir, same, stored) =
              subst (λ d. LeavesMeta fails outside.json r u.username d w.disk path owned id now)
                (sym at_root)
                (delete_with_versions-LeavesMeta fails outside.json r u.username w.disk path owned
                  id now)
                result unused deleted in
            let answer : result.0 ≡ trash_id = ground arith in
            let left : out.1 ≡ w'.disk = ground arith in
            (
              dir,
              sym answer ∙ same,
              subst
                  (λ d.
                    node_at d (meta_at (trash_dir outside.data_root u.username) id)
                    ≡ some (content (outside.json.marshal (recorded path dir now owned))))
                  left stored,
            )
      ]

  -- An item's versions go with it: when a deleted item is removed for good, at whatever time, exactly
  -- the versions that were under its path when it was deleted leave the index. There was at least one,
  -- and the metadata is still what the deletion wrote; a file that took the path in between keeps its
  -- own versions. The path, and those of the versions, are valid strings; JSON reads back the items
  -- whose texts are.
  pub handle_delete-handle_trash_delete :
      (valid_string : Bytes → Bool) (now later : ℕ) (fails : Call → Bool) (fails' : Bytes → Bool)
      (w w₁ w₂ w₃ : World) (path id : Bytes) {trash_id : Bytes}
      → ((item : TrashItem)
          → IsWritable valid_string item
          → outside.json.unmarshal (outside.json.marshal item) ≡ some item)
      → ((dir : Bool)
          → IsWritable valid_string
              (recorded path dir now (versions_under outside.like w.db u.id (must_validate path))))
      → valid_id id ≡ true
      → IsUnused w.disk (trash_dir outside.data_root u.username) id
      → handle_delete outside u now fails w (some path) id ≡ (done trash_id, w₁)
      → versions_under outside.like w.db u.id (must_validate path) ≢ []
      → node_at w₂.disk (meta_at (trash_dir outside.data_root u.username) id)
        ≡ node_at w₁.disk (meta_at (trash_dir outside.data_root u.username) id)
      → handle_trash_delete outside u later fails' w₂ (some trash_id) ≡ (done tt, w₃)
      → w₃.db.versions
        ≡ keep
            (λ v.
              not (is_named u.id (versions_under outside.like w.db u.id (must_validate path)) v))
            w₂.db.versions
  unfolding read_trash_meta
  handle_delete-handle_trash_delete valid_string now later fails fails' w w₁ w₂ w₃ path id
        {trash_id} round writable valid unused deleted some_version still removed =
      let owned = versions_under outside.like w.db u.id (must_validate path) in
      let (dir, same, stored) = handle_delete-recorded now fails w path id unused deleted in
      let item = recorded path dir now owned in
      let known : read_trash_meta outside.json outside.data_root w₂.disk u.username id ≡ ok item =
        rw (read_trash_meta, valid, still ∙ stored, round item (writable dir)) refl in
      handle_trash_delete_named outside u later fails' w₂ id known some_version (
        subst (λ i. handle_trash_delete outside u later fails' w₂ (some i) ≡ (done tt, w₃)) same
          removed)
