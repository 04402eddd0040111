-- ===== src/Tests/Store.antt =====
-- The stars, events and etag_cache tables at concrete inputs.
use xx_drive.Prelude.{◌≡◌, refl, ℕ, Bool, true, false, nat_eq, [], ◌∷◌, none, bytes_eq, ℕ_discrete}
use xx_drive.Prelude.Bytes.{Bytes, bytes}
use xx_drive.Prelude.Results.{Result}
use xx_drive.Store.Rows.{User, Db, empty}
use xx_drive.Store.Users.{user_by_id}
use xx_drive.Store.Stars.{toggle_star, is_starred}
use xx_drive.Store.Events.{add_event, list_events}
use xx_drive.Store.Etags.{cached_etag, put_etag}

abbrev amy : User
amy = record {
  id = 1;
  username = bytes "amy";
  password_hash = bytes "h";
  is_admin = false;
  disabled = false;
  created_at = 1;
  fabric_id = none;
}

abbrev with_amy : Db
with_amy = record empty { users = amy ∷ []; next_user = 2 }

unfoldable runs : Db → ℕ → Bytes → Result Bool × Db
unfolding toggle_star is_starred add_event list_events cached_etag put_etag user_by_id bytes_eq
    ℕ_discrete
runs = toggle_star

abbrev starred : Db
starred = (toggle_star with_amy 1 (bytes "/a")).1

star_runs :
    (is_starred starred 1 (bytes "/a") ≡ true) × ((toggle_star starred 1 (bytes "/a")).1 ≡ with_amy)
unfolding runs
star_runs = (refl, refl)

abbrev logged : Db
logged = add_event with_amy 1 (bytes "upload") (bytes "/a") 5
