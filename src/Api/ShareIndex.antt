-- ===== src/Api/ShareIndex.antt =====
-- internal/api/shares.go: the resolution of full and of short share links.
pub mod Resolved
use xx_drive.Prelude.{
  ℕ, Bool, true, false, not, ◌&&◌, ◌||◌, List, [], ◌∷◌, ◌++◌, Option, none, some, if◌then◌else◌,
  ◌==◌, nat_eq, bytes_eq, ltb, length, take,
}
use xx_drive.Prelude.Bytes.{Bytes}
use xx_drive.Prelude.Results.{Result, ok, err}
use xx_drive.Store.Rows.{User, Share, Db}
use xx_drive.Store.Users.{list_users}
use xx_drive.Store.Shares.{is_over, list_shares, share_by_token}

-- `shareIdx` and `shareIdxStale`
pub record ShareIndex : Type 0 where
  pub entries : List (Bytes × Share)
  pub is_stale : Bool

-- The shares of one user after the other.
abbrev pub shares_of : Db → List User → List Share
shares_of db [] = []
shares_of db (u ∷ us) = list_shares db u.id ++ shares_of db us

-- `allLiveShares`
unfoldable pub all_live_shares : Db → List Share
all_live_shares db = shares_of db (list_users db)

-- idx[sh.TokenHash[:16]] = sh, for one share after the other
abbrev pub add_shares : List (Bytes × Share) → List Share → List (Bytes × Share)
add_shares idx [] = idx
add_shares idx (s ∷ ss) = add_shares ((take 16 s.token_hash, s) ∷ idx) ss

-- `buildShareIndex`
unfoldable pub build_share_index : Db → List (Bytes × Share)
build_share_index db = add_shares [] (all_live_shares db)

abbrev pub entry : List (Bytes × Share) → Bytes → Option Share
entry [] prefix = none
entry ((p, s) ∷ idx) prefix = if p == prefix then some s else entry idx prefix

-- `invalidateShareIndex`
abbrev pub invalidate : ShareIndex → ShareIndex
invalidate i = record i { is_stale = true }

-- The index that a lookup uses: a stale one is built again, unless that fails.
unfoldable pub refreshed : Bool → ShareIndex → Db → ShareIndex
refreshed fails i db =
    if i.is_stale && not fails
    then record { entries = build_share_index db; is_stale = false }
    else i

-- `shareByPrefix`
unfoldable pub share_by_prefix : Bool → ShareIndex → Db → Bytes → ℕ → Option Share × ShareIndex
share_by_prefix fails i db prefix now =
    let index = refreshed fails i db in
    elim (entry index.entries prefix) [
      | none ↦ (none, index)
      | some s ↦ if is_over now s then (none, index) else (some s, index)
    ]

-- `resolveShare`
unfoldable pub resolve_share :
    (Bytes → Bytes) → Bool → ShareIndex → Db → Bytes → ℕ → Option Share × ShareIndex
resolve_share hash_token fails i db v now =
    if v == []
    then (none, i)
    else if ltb 16 (length v)
    then elim (share_by_token hash_token db v now) [ ok s ↦ (some s, i) | err e ↦ (none, i) ]
    else if length v == 16
    then share_by_prefix fails i db v now
    else (none, i)
