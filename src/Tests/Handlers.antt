-- ===== src/Tests/Handlers.antt =====
-- The handlers on a small drive.
use xx_drive.Prelude.{
  any, leb, Bool, false, not, ◌≡◌, refl, [], ◌∷◌, ◌++◌, Option, some, inl, nat_eq, bytes_eq,
  ℕ_discrete, arith, keep,
}
use xx_drive.Prelude.Bytes.{
  Bytes, bytes, split, join, has_prefix, contains_any, contains_text, to_lower, trim_suffix,
  has_suffix,
}
use xx_drive.Filepath.{clean, join_paths, trim_slashes, base, dir, ext}
use xx_drive.Drive.Paths.{validate_rel, must_validate, name_of, parent_of, join_logical, valid_name}
use xx_drive.Drive.Resolve.{resolve_user_path, walk, is_confined, user_root}
use xx_drive.Disk.{folder, content, Disk, node_at, rename}
use xx_drive.Drive.Trash.{
  Call, valid_id, trash_item, move_item, publish_item, delete_with_versions, restore_to, restore_at,
  restore,
}
use xx_drive.Drive.Trash.Purge.{read_trash_meta, purge_trash_item}
use xx_drive.Store.Rows.{empty}
use xx_drive.Store.Users.{user_by_id, user_by_name}
use xx_drive.Store.Events.{add_event}
use xx_drive.Store.Etags.{delete_etags_under}
use xx_drive.Store.Like.{escape_like}
use xx_drive.Store.Versions.{
  list_versions, versions_under, delete_versions_under, delete_specific_versions,
}
use xx_drive.Api.History.{World, Outside, status_of, purge_version_history, purge_specific_versions}
use xx_drive.Api.Handlers.{handle_delete, handle_trash_restore, handle_trash_delete}
use xx_drive.Api.Handlers.Purged.{is_named, handle_trash_delete_unnamed}
use xx_drive.Api.Handlers.Recorded.{handle_delete-handle_trash_delete}
use xx_drive.Janitor.{purge_versions_of_purged_trash}
use xx_drive.Tests.Codec.{codec, codec-round}
use xx_drive.Tests.Versions.{amy, version, match, like, like-IsLike}

abbrev outside : Outside
outside = record {
  like = like;
  path_hash = λ p. bytes "h";
  sha = λ s. s;
  json = codec;
  times = record { modified = λ d p. 5; folder_size = 0 };
  data_root = bytes "/d";
}

-- Two files, of which /a has a version.
abbrev world : World
world = record {
  db = record empty {
    users = amy ∷ [];
    next_user = 2;
    versions = version 1 (bytes "/a") (bytes "v1") ∷ [];
    next_version = 2;
  };
  disk =
      (bytes "/d", folder)
      ∷ (bytes "/d/files", folder)
      ∷ (bytes "/d/files/amy", folder)
      ∷ (bytes "/d/files/amy/a", content (bytes "a"))
      ∷ (bytes "/d/files/amy/b", content (bytes "b"))
      ∷ [];
}

abbrev id : Bytes
id = bytes "00112233445566778899aabbccddeeff"

abbrev no_fault : Call → Bool
no_fault c = false

abbrev no_failure : Bytes → Bool
no_failure p = false

unfoldable runs : Disk → Bytes → Bytes → Option Disk
unfolding rename trash_item move_item publish_item delete_with_versions restore_to restore_at
    restore valid_id resolve_user_path walk is_confined user_root join_paths trim_slashes
    validate_rel must_validate name_of parent_of join_logical valid_name base dir ext clean split
    join has_prefix has_suffix trim_suffix contains_any contains_text to_lower bytes_eq ℕ_discrete
    read_trash_meta purge_trash_item add_event delete_etags_under escape_like list_versions
    versions_under delete_versions_under delete_specific_versions status_of purge_version_history
    purge_specific_versions handle_delete handle_trash_restore handle_trash_delete match user_by_id
    user_by_name purge_versions_of_purged_trash
runs = rename

abbrev deleted : Bytes → World
deleted path = (handle_delete outside amy 50 no_fault world (some path) id).1

-- A newer file has come to the path, with a version of its own.
abbrev newer : World → Bytes → World
newer w path = record w {
  db = record w.db { versions = w.db.versions ++ version 2 path (bytes "n1") ∷ [] };
}

abbrev purged : World → World
purged w = (handle_trash_delete outside amy 60 no_failure w (some id)).1

-- The purge of /a leaves the newer file's version; the purge of /b, which had none, does not.
purges :
    ((purged (newer (deleted (bytes "/a")) (bytes "/a"))).db.versions
      ≡ version 2 (bytes "/a") (bytes "n1") ∷ [])
    × ((purged (newer (deleted (bytes "/b")) (bytes "/b"))).db.versions
        ≡ version 1 (bytes "/a") (bytes "v1") ∷ [])
unfolding runs
purges = (refl, refl)

-- A restored file is back.
restored :
    node_at
      ((handle_trash_restore outside amy 60 no_fault no_failure
        (deleted (bytes "/a"))
        (some id)).1.disk)
      (bytes "/d/files/amy/a")
    ≡ some (content (bytes "a"))
unfolding runs
restored = refl

abbrev is_ascii : Bytes → Bool
is_ascii s = not (any (λ c. leb 128 c) s)

handle_delete-handle_trash_delete_example :
    (purged (newer (deleted (bytes "/a")) (bytes "/a"))).db.versions
    ≡ keep
        (λ v. not (is_named 1 (versions_under like world.db 1 (must_validate (bytes "/a"))) v))
        (newer (deleted (bytes "/a")) (bytes "/a")).db.versions
unfolding runs
handle_delete-handle_trash_delete_example =
    handle_delete-handle_trash_delete outside amy (bytes "d") refl is_ascii 50 60 no_fault
      no_failure world (deleted (bytes "/a")) (newer (deleted (bytes "/a")) (bytes "/a"))
      (purged (newer (deleted (bytes "/a")) (bytes "/a"))) (bytes "/a") id
      (λ item writable. codec-round item) (λ dir. (refl, refl, omega arith, ((refl, refl), tt)))
      refl (refl, refl) refl (ground arith) refl refl

handle_trash_delete_unnamed_example :
    list_versions (purged (newer (deleted (bytes "/b")) (bytes "/b"))).db 1 (bytes "/b" ++ []) ≡ []
unfolding runs
handle_trash_delete_unnamed_example =
    handle_trash_delete_unnamed outside amy like-IsLike 60 no_failure
      (newer (deleted (bytes "/b")) (bytes "/b")) id refl refl refl refl [] (inl refl)
