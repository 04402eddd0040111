-- ===== src/Api/ShareHandlers/Guarded.antt =====
-- What a visitor of a share gets.
use xx_drive.Prelude.{ℕ, true, false, ◌≡◌, ◌⊎◌, some, nat_eq, bytes_eq}
use xx_drive.Prelude.Bytes.{Bytes}
use xx_drive.Prelude.Results.{ok}
use xx_drive.Disk.{Disk}
use xx_drive.Drive.Entries.{open_file}
use xx_drive.Store.Rows.{User, Share}
use xx_drive.Api.Grants.{has_grant}
use xx_drive.Api.ShareIndex.{resolve_share}
use xx_drive.Api.ShareHandlers.{Desk, Visit, Download, text_of, archive_of, Settings}

module _ (settings : Settings) (now moment : ℕ) where
  -- The link resolves to the share, and where it has a password the visitor has a grant.
  abbrev pub IsGuarded : Desk → Visit → Share → Type 0
  IsGuarded w v sh =
      ((resolve_share settings.hash_token settings.index_fails w.index w.db v.token now).0
        ≡ some sh)
      × ((sh.has_password ≡ false) ⊎ ((has_grant w.grants sh.token_hash v.cookie now).0 ≡ true))

  -- What is handed out: the owner's file at the path, or the archive of the folder there.
  abbrev pub IsContent : Disk → User → Bytes → Download → Type 0
  IsContent d owner full (archive_of p) = p ≡ full
  IsContent d owner full (text_of text) =
      (logical : Bytes) × (open_file settings.times settings.data_root owner.username d full
        ≡ ok (text, logical))
