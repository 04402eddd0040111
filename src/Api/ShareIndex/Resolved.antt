-- ===== src/Api/ShareIndex/Resolved.antt =====
-- Which links resolve.
use xx_drive.Prelude.{false, ◌≡◌, nat_eq, bytes_eq, take}
use xx_drive.Prelude.Bytes.{Bytes}
use xx_drive.Store.Rows.{Share}
use xx_drive.Api.ShareIndex.{ShareIndex}

-- The share was not revoked, and its token hash begins with the text.
abbrev pub IsListed : Bytes × Share → Type 0
IsListed (p, s) = (s.revoked ≡ false) × (take 16 s.token_hash ≡ p)

abbrev pub IsActive : Share → Type 0
IsActive s = s.revoked ≡ false
