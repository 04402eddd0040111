-- ===== src/Tests/Visits.antt =====
-- A visitor of a share on a small drive.
use xx_drive.Prelude.{
  true, false, ◌≡◌, refl, [], ◌∷◌, Option, none, some, nat_eq, bytes_eq, ℕ_discrete,
}
use xx_drive.Prelude.Bytes.{
  Bytes, bytes, split, join, has_prefix, contains_any, contains_text, to_lower, trim_suffix,
  has_suffix,
}
use xx_drive.Filepath.{clean, join_paths, trim_slashes, base, dir, from_last_dot}
use xx_drive.Drive.Paths.{validate_rel, name_of}
use xx_drive.Drive.Resolve.{resolve_user_path, walk, is_confined, user_root}
use xx_drive.Drive.Entries.{stat, list_entries, open_file}
use xx_drive.Disk.{folder, content, Disk, rename}
use xx_drive.Store.Rows.{Share, empty}
use xx_drive.Store.Users.{user_by_id}
use xx_drive.Store.Shares.{
  share_by_token, check_share_password, list_shares, revoke_share, create_share,
}
use xx_drive.Store.Events.{add_event}
use xx_drive.Api.Grants.{has_grant, issue_grant, cap_grants, sweep_grants}
use xx_drive.Api.Limiter.{login_allowed, login_failed}
use xx_drive.Api.ShareIndex.{resolve_share}
use xx_drive.Api.ShareTarget.{
  share_target, target_of_path, target_of_sub, has_dot_dot_segment, check_inside,
}
use xx_drive.Api.History.{Reply, refused, done, status_of}
use xx_drive.Api.ShareHandlers.{
  Desk, Visit, Download, text_of, Settings, guard_share, handle_public_list, handle_public_download,
  handle_public_password, handle_share_revoke, handle_share_create,
}
use xx_drive.Tests.Versions.{amy}

abbrev plain : Settings
plain = record {
  hash_token = λ t. t;
  check_password = λ h p. true;
  times = record { modified = λ d p. 5; folder_size = 0 };
  data_root = bytes "/d";
  index_fails = false;
}

abbrev token : Bytes
token = bytes "01234567890123456"

-- The folder /p is shared, with a password and without downloads.
abbrev share : Share
share = record {
  id = 1;
  token_hash = token;
  user_id = 1;
  path = bytes "/p";
  has_password = true;
  password_hash = bytes "h";
  allow_download = false;
  expires_at = 0;
  created_at = 1;
  revoked = false;
}

abbrev desk : Desk
desk = record {
  db = record empty { users = amy ∷ []; next_user = 2; shares = share ∷ []; next_share = 2 };
  disk =
      (bytes "/d", folder)
      ∷ (bytes "/d/files", folder)
      ∷ (bytes "/d/files/amy", folder)
      ∷ (bytes "/d/files/amy/p", folder)
      ∷ (bytes "/d/files/amy/p/x.png", content (bytes "x"))
      ∷ (bytes "/d/files/amy/p/y.txt", content (bytes "y"))
      ∷ (bytes "/d/files/amy/z", content (bytes "z"))
      ∷ [];
  index = record { entries = []; is_stale = true };
  grants = (record { token_hash = token; grant = bytes "g"; expires = 90 }) ∷ [];
  rate = [];
}

abbrev visit : Option Bytes → Bytes → Visit
visit cookie sub = record { token = token; cookie = cookie; path = []; sub = sub; inline = true }

unfoldable runs : Disk → Bytes → Bytes → Option Disk
unfolding rename resolve_user_path walk is_confined user_root join_paths trim_slashes validate_rel
    name_of base dir clean split join has_prefix has_suffix trim_suffix contains_any contains_text
    to_lower bytes_eq ℕ_discrete from_last_dot stat list_entries open_file user_by_id share_by_token
    check_share_password list_shares revoke_share create_share add_event has_grant issue_grant
    cap_grants sweep_grants login_allowed login_failed resolve_share share_target target_of_path
    target_of_sub has_dot_dot_segment check_inside status_of guard_share handle_public_list
    handle_public_download handle_public_password handle_share_revoke handle_share_create
runs = rename

abbrev download : Option Bytes → Bytes → Reply Download
download cookie sub = (handle_public_download plain 50 50 desk (visit cookie sub)).0

downloads :
    (download (some (bytes "g")) (bytes "/x.png") ≡ done (text_of (bytes "x")))
    × (download (some (bytes "g")) (bytes "/y.txt") ≡ refused 403)
    × (download none (bytes "/x.png") ≡ refused 401)
    × (download (some (bytes "g")) (bytes "/../z") ≡ refused 404)
unfolding runs
downloads = (refl, refl, refl, refl)
