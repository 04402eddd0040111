-- ===== src/Store/Shares.antt =====
-- internal/store/store.go: the shares table.
pub mod Live
pub mod Steps
use xx_drive.Prelude.{
  ℕ, suc, Bool, true, false, not, ◌&&◌, ◌||◌, List, [], ◌∷◌, ◌++◌, none, some, if◌then◌else◌, ◌==◌,
  nat_eq, bytes_eq, leb, any, find, keep,
}
use xx_drive.Prelude.Bytes.{Bytes}
use xx_drive.Prelude.Tables.{update, sort_by_desc}
use xx_drive.Prelude.Results.{Result, ok, err, not_found, other}
use xx_drive.Store.Rows.{Share, Db}
use xx_drive.Store.Users.{user_by_id}

abbrev pub bears : Bytes → Share → Bool
bears th s = s.token_hash == th

-- The WHERE clause of `RevokeShare`.
abbrev pub is_revocable : ℕ → Bytes → Share → Bool
is_revocable user th s = s.user_id == user && bears th s

-- An end that has come; 0 is none.
abbrev pub is_over : ℕ → Share → Bool
is_over now s = not (s.expires_at == 0) && leb s.expires_at now

-- `ListShares`
unfoldable pub list_shares : Db → ℕ → List Share
list_shares db user =
    sort_by_desc (λ (s : Share). s.created_at)
      (keep (λ (s : Share). s.user_id == user && not s.revoked) db.shares)

-- `RevokeShare`
unfoldable pub revoke_share : Db → ℕ → Bytes → Result (Unit {0}) × Db
revoke_share db user th =
    if any (is_revocable user th) db.shares
    then (
      ok tt,
      record db {
        shares = update (is_revocable user th) (λ s. record s { revoked = true }) db.shares;
      },
    )
    else (err not_found, db)

module _ (hash_token : Bytes → Bytes) where
  -- The row that `CreateShare` inserts.
  abbrev pub new_share : Db → ℕ → Bytes → Bytes → Bytes → Bool → ℕ → ℕ → Share
  new_share db user path token password_hash allow_download expires_at now = record {
    id = db.next_share;
    token_hash = hash_token token;
    user_id = user;
    path = path;
    has_password = not (password_hash == []);
    password_hash = password_hash;
    allow_download = allow_download;
    expires_at = expires_at;
    created_at = now;
    revoked = false;
  }

  -- `CreateShare`; the token hash is unique, and a share needs a user. The share that is returned
  -- lacks its id.
  unfoldable pub create_share : Db → ℕ → Bytes → Bytes → Bytes → Bool → ℕ → ℕ → Result Share × Db
  create_share db user path token password_hash allow_download expires_at now =
      let s = new_share db user path token password_hash allow_download expires_at now in
      if any (bears s.token_hash) db.shares then (err other, db) else elim (user_by_id db user) [
        | none ↦ (err other, db)
        | some u ↦ (
          ok (record s { id = 0 }),
          record db { shares = db.shares ++ s ∷ []; next_share = suc db.next_share },
        )
      ]

  -- `ShareByToken`
  unfoldable pub share_by_token : Db → Bytes → ℕ → Result Share
  share_by_token db token now = elim (find (bears (hash_token token)) db.shares) [
    | none ↦ err not_found
    | some s ↦ if s.revoked || is_over now s then err not_found else ok s
  ]

-- `CheckSharePassword`; `check_password` is `CheckPassword`.
unfoldable pub check_share_password : (Bytes → Bytes → Bool) → Share → Bytes → Bool
check_share_password check_password s candidate =
    if not s.has_password then true else check_password s.password_hash candidate
