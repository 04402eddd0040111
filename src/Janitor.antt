-- ===== src/Janitor.antt =====
-- cmd/xxdrive-server/main.go: the maintenance sweep, runJanitorOnce.
pub mod Emptied
use xx_drive.Prelude.{
  ℕ, ◌+◌, Bool, true, false, not, ◌&&◌, ◌||◌, List, [], ◌∷◌, ◌++◌, Option, none, some,
  if◌then◌else◌, ◌==◌, nat_eq, bytes_eq, contains, ltb,
}
use xx_drive.Prelude.Bytes.{Bytes, bytes}
use xx_drive.Prelude.Results.{Result, ok, err}
use xx_drive.Filepath.{join_paths}
use xx_drive.Disk.{Disk, node_at, remove_all}
use xx_drive.Drive.Paths.{root}
use xx_drive.Drive.Trash.Purge.{PurgedTrash, names_in, purge_old_trash}
use xx_drive.Drive.Versions.{prune_version_blob, remove_one}
use xx_drive.Store.Rows.{User, Db}
use xx_drive.Store.Users.{user_by_name}
use xx_drive.Store.Versions.{PrunedRow, prune_versions}
use xx_drive.Api.Grants.{Grant, sweep_grants}
use xx_drive.Api.History.{World, Outside, purge_version_history}

-- The number of versions of a path that stay, and the age of a staged file that goes.
abbrev pub version_limit : ℕ
version_limit = 32

abbrev pub staging_age : ℕ
staging_age = 86400

-- The purged paths of one user, in their order.
abbrev pub paths_of : Bytes → List PurgedTrash → List Bytes
paths_of username [] = []
paths_of username (it ∷ items) =
    let rest = paths_of username items in
    if it.orig_path == [] || it.orig_path == root
    then rest
    else if it.username == username
    then it.orig_path ∷ rest
    else rest

-- The users of the purged items, in the order of their first item. Go's map has no order.
abbrev pub users_of : List Bytes → List PurgedTrash → List Bytes
users_of seen [] = []
users_of seen (it ∷ items) =
    let skip = users_of seen items in
    let more = users_of (it.username ∷ seen) items in
    if it.orig_path == [] || it.orig_path == root || contains seen it.username
    then skip
    else it.username ∷ more

module _ (outside : Outside) where
  abbrev pub purge_paths : User → World → List Bytes → World
  purge_paths u w [] = w
  purge_paths u w (p ∷ ps) = purge_paths u (purge_version_history outside u w p) ps

  abbrev pub purge_users : List PurgedTrash → World → List Bytes → World
  purge_users purged w [] = w
  purge_users purged w (username ∷ usernames) =
      let next = λ (u : User). purge_paths u w (paths_of username purged) in
      elim (user_by_name w.db username) [
        | none ↦ purge_users purged w usernames
        | some u ↦ purge_users purged (next u) usernames
      ]

  -- `purgeVersionsOfPurgedTrash`: what `purgeVersionHistory` does, for each path of each user.
  unfoldable pub purge_versions_of_purged_trash : World → List PurgedTrash → World
  purge_versions_of_purged_trash w purged = purge_users purged w (users_of [] purged)

  abbrev pub prune_blobs_of : Disk → List PrunedRow → Disk
  prune_blobs_of d [] = d
  prune_blobs_of d (p ∷ ps) =
      prune_blobs_of
        ((prune_version_blob outside.path_hash outside.data_root p.username d p.path
          p.version_id).1)
        ps

  -- The staged files that are more than a day old; a removal that fails is passed over.
  abbrev pub drop_staged : ℕ → Disk → List Bytes → Disk
  drop_staged now d [] = d
  drop_staged now d (name ∷ names) =
      let p = join_paths (outside.data_root ∷ bytes "tmp" ∷ name ∷ []) in
      let removed : Disk = elim (remove_one d p) [ none ↦ d | some d' ↦ d' ] in
      let swept = drop_staged now removed names in
      let kept = drop_staged now d names in
      elim (node_at d p) [
        | none ↦ kept
        | some n ↦ if ltb (outside.times.modified d p + staging_age) now then swept else kept
      ]

  -- `runJanitorOnce`, with the cutoff for the trash and the users' folders in it.
  unfoldable pub run_janitor_once :
      (Bytes → Bool) → ℕ → ℕ → List Bytes → World × List Grant → World × List Grant
  run_janitor_once fails cutoff now users (w, grants) =
      let (purged, d) = purge_old_trash fails outside.json cutoff outside.data_root w.disk users in
      let cleaned = purge_versions_of_purged_trash (record w { disk = d }) purged in
      let (rows, db) = prune_versions cleaned.db version_limit in
      let pruned = prune_blobs_of cleaned.disk rows in
      let swept =
        drop_staged now pruned
          (names_in pruned (join_paths (outside.data_root ∷ bytes "tmp" ∷ []))) in
      (record { db = db; disk = swept }, sweep_grants grants now)
