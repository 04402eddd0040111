-- ===== src/Janitor/Emptied.antt =====
-- What the janitor does to the history of a path whose old item it purges.
use xx_drive.Prelude.{false, ◌≡◌, [], ◌∷◌, ◌++◌, some, ◌==◌, nat_eq, bytes_eq, arith}
use xx_drive.Prelude.Bytes.{Bytes}
use xx_drive.Filepath.{slash}
use xx_drive.Filepath.Canonical.{IsTail}
use xx_drive.Drive.Trash.Purge.{PurgedTrash}
use xx_drive.Store.Rows.{User}
use xx_drive.Store.Users.{user_by_name}
use xx_drive.Store.Like.{IsLike}
use xx_drive.Store.Versions.{is_root, list_versions}
use xx_drive.Api.History.{World, Outside, purge_version_history}
use xx_drive.Api.Handlers.{purge_owned}
use xx_drive.Api.Handlers.Purged.{purge_owned_unnamed}
use xx_drive.Janitor.{paths_of, users_of, purge_users, purge_versions_of_purged_trash}

module _ (outside : Outside) (laws : IsLike outside.like) where
  -- When the janitor has purged an old item of a user, nothing is left of the history of the path that
  -- the item had, or of any path below it, whichever versions the item owned: also the history of a
  -- newer file there is gone.
  pub purge_versions_of_purged_trash_emptied :
      (w : World) (u : User) (orig t : Bytes)
      → user_by_name w.db u.username ≡ some u
      → is_root orig ≡ false
      → IsTail t
      → list_versions
          (purge_versions_of_purged_trash outside w
            (record { username = u.username; orig_path = orig } ∷ [])).db
          u.id
          (orig ++ t)
        ≡ []
  unfolding purge_versions_of_purged_trash
  purge_versions_of_purged_trash_emptied w u orig t known deep tail =
      let some_path : (orig == []) ≡ false = ground arith in
      let below : (orig == slash ∷ []) ≡ false = ground arith in
      let item : PurgedTrash = record { username = u.username; orig_path = orig } in
      let users : users_of [] (item ∷ []) ≡ u.username ∷ [] = ground arith in
      let paths : paths_of u.username (item ∷ []) ≡ orig ∷ [] = ground arith in
      let emptied : list_versions (purge_version_history outside u w orig).db u.id (orig ++ t)
          ≡ [] =
        rw (purge_owned, some_path) at (purge_owned_unnamed outside u laws w orig t deep tail) in
      rw (purge_versions_of_purged_trash, users, purge_users, known, paths) emptied
