-- ===== src/Tests/Links.antt =====
-- Short share links at concrete inputs.
use xx_drive.Prelude.{true, false, ◌≡◌, refl, List, [], ◌∷◌, none, some, bytes_eq, ℕ_discrete}
use xx_drive.Prelude.Bytes.{Bytes, bytes}
use xx_drive.Store.Rows.{User, Share, Db, empty}
use xx_drive.Store.Users.{list_users}
use xx_drive.Store.Shares.{list_shares}
use xx_drive.Api.ShareIndex.{
  ShareIndex, all_live_shares, build_share_index, refreshed, share_by_prefix, invalidate,
}

abbrev amy : User
amy = record {
  id = 1;
  username = bytes "amy";
  password_hash = bytes "h";
  is_admin = false;
  disabled = false;
  created_at = 1;
  fabric_id = none;
}

abbrev share : Share
share = record {
  id = 1;
  token_hash = bytes "0123456789abcdefXYZ";
  user_id = 1;
  path = bytes "/a";
  has_password = false;
  password_hash = [];
  allow_download = true;
  expires_at = 0;
  created_at = 50;
  revoked = false;
}

abbrev db : Db
db = record empty { users = amy ∷ []; next_user = 2; shares = share ∷ []; next_share = 2 }

-- The same database after the revocation.
abbrev revoked : Db
revoked = record db { shares = record share { revoked = true } ∷ [] }

abbrev prefix : Bytes
prefix = bytes "0123456789abcdef"

abbrev index : ShareIndex
index = record { entries = (prefix, share) ∷ []; is_stale = false }

unfoldable runs : Db → List Share
unfolding all_live_shares build_share_index refreshed share_by_prefix list_shares list_users
    bytes_eq ℕ_discrete
runs = all_live_shares

link_runs :
    ((share_by_prefix false (invalidate index) revoked prefix 60).0 ≡ none)
    × ((share_by_prefix false index db prefix 60).0 ≡ some share)
unfolding runs
link_runs = (refl, refl)

-- When the index cannot be built again, a revoked share resolves by its old entry.
not_rebuilt :
    share_by_prefix true (invalidate index) revoked prefix 60 ≡ (some share, invalidate index)
unfolding runs
not_rebuilt = refl
