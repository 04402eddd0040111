-- ===== src/Store/Shares/Steps.antt =====
-- Sequences of calls on the shares table.
use xx_drive.Prelude.{ℕ, ◌≡◌, Bool}
use xx_drive.Prelude.Bytes.{Bytes}
use xx_drive.Prelude.Results.{ok, err, not_found}
use xx_drive.Store.Rows.{Db}
use xx_drive.Store.Shares.{revoke_share, create_share, share_by_token}
use xx_drive.Store.Shares.Live.{
  HasShares, IsRevoked, revoke_share-ok, revoke_share-IsRevoked, create_share-IsRevoked,
  share_by_token-IsRevoked,
}

module _ (hash_token : Bytes → Bytes) where
  pub data ShareStep : Db → Db → Type 0 where
    create :
        (db : Db) (user : ℕ) (path token hash : Bytes) (down : Bool) (end now : ℕ)
        → ShareStep db ((create_share hash_token db user path token hash down end now).1)
    revoke : (db : Db) (user : ℕ) (th : Bytes) → ShareStep db ((revoke_share db user th).1)

  pub data ShareSteps (db : Db) : Db → Type 0 where
    none_yet : ShareSteps db db
    more : {mid last : Db} → ShareSteps db mid → ShareStep mid last → ShareSteps db last

  step-IsRevoked :
      (th : Bytes) {db db' : Db} → ShareStep db db' → IsRevoked th db → IsRevoked th db'
  step-IsRevoked th (create db user path token hash down end now) r =
      create_share-IsRevoked hash_token db user path token hash down end now th r
  step-IsRevoked th (revoke db user th') r = revoke_share-IsRevoked db user th th' r

  steps-IsRevoked :
      (th : Bytes) {db db' : Db} → ShareSteps db db' → IsRevoked th db → IsRevoked th db'
  steps-IsRevoked th none_yet r = r
  steps-IsRevoked th (more ss s) r = step-IsRevoked th s (steps-IsRevoked th ss r)

  -- Revocation is for good: after a successful revocation of a token's share, no sequence of creations
  -- and revocations of shares, by any users, makes the token resolve again, at any time. Token hashes
  -- are unique in the table.
  pub revoke_share-share_by_token :
      (db : Db) (user : ℕ) (token : Bytes) (now : ℕ) {db' last : Db}
      → HasShares db
      → revoke_share db user (hash_token token) ≡ (ok tt, db')
      → ShareSteps db' last
      → share_by_token hash_token last token now ≡ err not_found
  revoke_share-share_by_token db user token now {db'} {last} h e steps =
      share_by_token-IsRevoked hash_token last token now
        (steps-IsRevoked (hash_token token) steps (revoke_share-ok db user (hash_token token) h e))
