-- ===== src/Tests/Sessions.antt =====
-- The sessions and shares tables at concrete inputs. Tokens are stored as they are.
use xx_drive.Prelude.{
  ◌≡◌, ◌≤◌, ◌<◌, ◌⊎◌, refl, ℕ, true, false, [], ◌∷◌, some, none, find, bytes_eq, ℕ_discrete, arith,
}
use xx_drive.Prelude.Bytes.{Bytes, bytes}
use xx_drive.Prelude.Results.{Result, ok, err, not_found}
use xx_drive.Store.Rows.{User, Session, Share, Db, empty}
use xx_drive.Store.Users.{user_by_id, set_disabled}
use xx_drive.Store.Sessions.{create_session, session, slide, delete_session}
use xx_drive.Store.Sessions.Valid.{delete_session-session}
use xx_drive.Store.Sessions.Sliding.{session-session}
use xx_drive.Store.Sessions.Calls.{Allowed, IsKeyed, exists, enabled, view, call, look_up}
use xx_drive.Store.Sessions.Refined.{call-Allowed}
use xx_drive.Store.Shares.{bears, create_share, revoke_share, share_by_token}
use xx_drive.Store.Shares.Live.{share_by_token_sound}
use xx_drive.Store.Shares.Steps.{create, none_yet, more, revoke_share-share_by_token}

abbrev plain : Bytes → Bytes
plain token = token

unfoldable runs : Db → Bytes → ℕ → ℕ → Result (Session × User) × Db
unfolding session slide create_session delete_session user_by_id set_disabled create_share
    revoke_share share_by_token bytes_eq ℕ_discrete
runs = session plain

abbrev amy : User
amy = record {
  id = 1;
  username = bytes "amy";
  password_hash = bytes "h";
  is_admin = false;
  disabled = false;
  created_at = 1;
  fabric_id = none;
}

abbrev with_amy : Db
with_amy = record empty { users = amy ∷ []; next_user = 2 }

abbrev signed_in : Db
signed_in = (create_session plain with_amy 1 (bytes "t") (bytes "web") 100 50).1

abbrev row : Session
row = record {
  token_hash = bytes "t";
  user_id = 1;
  label = bytes "web";
  created_at = 50;
  last_seen = 50;
  expires_at = 150;
}

abbrev used : Db
used = (session plain signed_in (bytes "t") 100 120).1

session_runs :
    (session plain signed_in (bytes "t") 100 150 ≡ (err not_found, with_amy))
    × (session plain signed_in (bytes "u") 100 60 ≡ (err not_found, signed_in))
    × (session plain signed_in (bytes "t") 100 90 ≡ (ok (row, amy), signed_in))
unfolding runs
session_runs = (refl, refl, refl)

abbrev bea : User
bea = record amy { id = 2; username = bytes "bea" }

abbrev two_in : Db
two_in = record signed_in { users = amy ∷ bea ∷ []; next_user = 3 }

delete_session-session_example :
    session plain (delete_session signed_in (bytes "t")) (bytes "t") 100 90
    ≡ (err not_found, delete_session signed_in (bytes "t"))
delete_session-session_example = delete_session-session plain signed_in (bytes "t") 100 90

session-session_example :
    (r : Session) × (150 ≤ r.expires_at)
    × (session plain used (bytes "t") 100 169 ≡ (ok (r, amy), slide used r 100 169))
unfolding runs
session-session_example =
    session-session plain signed_in (bytes "t") 100 120 169 {s = row} {u = amy} refl (omega arith)

abbrev shared : Db
shared = (create_share plain with_amy 1 (bytes "/a") (bytes "s") [] true 0 50).1

abbrev share : Share
share = record {
  id = 1;
  token_hash = bytes "s";
  user_id = 1;
  path = bytes "/a";
  has_password = false;
  password_hash = [];
  allow_download = true;
  expires_at = 0;
  created_at = 50;
  revoked = false;
}

share_by_token_sound_example :
    (find (bears (bytes "s")) shared.shares ≡ some share)
    × (share.token_hash ≡ bytes "s")
    × (share.revoked ≡ false)
    × ((share.expires_at ≡ 0) ⊎ (60 < share.expires_at))
unfolding runs
share_by_token_sound_example = share_by_token_sound plain shared (bytes "s") 60 refl

abbrev revoked : Db
revoked = (revoke_share shared 1 (bytes "s")).1

revoke_share-share_by_token_example :
    share_by_token plain
      ((create_share plain revoked 1 (bytes "/a") (bytes "s") [] true 0 70).1)
      (bytes "s")
      80
    ≡ err not_found
unfolding runs
revoke_share-share_by_token_example =
    revoke_share-share_by_token plain shared 1 (bytes "s") 80 (tt, tt) refl
      (more none_yet (create revoked 1 (bytes "/a") (bytes "s") [] true 0 70))

signed_in-IsKeyed : IsKeyed (view signed_in)
unfolding runs
signed_in-IsKeyed h u v e x k l = (ground arith, ground arith)

call-Allowed_example :
    Allowed plain
      (exists signed_in)
      (enabled signed_in)
      (look_up (bytes "t") 100 120)
      (view signed_in)
      (view (call plain signed_in (look_up (bytes "t") 100 120)))
call-Allowed_example = call-Allowed plain signed_in (look_up (bytes "t") 100 120) signed_in-IsKeyed
