-- ===== src/Tests/Users.antt =====
-- The users table at concrete inputs.
use xx_drive.Prelude.{◌≡◌, ◌≢◌, refl, ℕ, Bool, false, some, none, bytes_eq, ℕ_discrete}
use xx_drive.Prelude.Bytes.{
  Bytes, bytes, split, join, has_prefix, contains_any, contains_text, to_lower,
}
use xx_drive.Prelude.Results.{Result, ok, err, other}
use xx_drive.Filepath.{clean, join_paths, trim_slashes}
use xx_drive.Drive.Paths.{validate_rel}
use xx_drive.Drive.Resolve.{missing, resolve_user_path, walk, is_confined, user_root}
use xx_drive.Store.Rows.{User, Db, empty}
use xx_drive.Store.Users.{
  valid_username, valid_segment_name, create_user, get_or_create_fabric_user, delete_user,
  insert_user, user_by_id, user_by_fabric_id, set_password, set_disabled,
}
use xx_drive.Store.Users.Invariant.{HasUsers}
use xx_drive.Store.Users.Steps.{
  Reached, fresh, next, create, arrive, Reached-HasUsers, Reached-separate,
}
use xx_drive.Store.Users.Fabric.{create_user-blocks_fabric}
use xx_drive.Store.Users.Deletion.{IsGone, Agree, delete_user-IsGone}

unfoldable runs : Db → Bytes → Bytes → Bool → ℕ → Result User × Db
unfolding create_user get_or_create_fabric_user delete_user insert_user user_by_id user_by_fabric_id
    set_password set_disabled valid_username valid_segment_name contains_any clean split join
    bytes_eq ℕ_discrete resolve_user_path walk is_confined user_root join_paths trim_slashes
    validate_rel has_prefix contains_text to_lower
runs = create_user

-- A database with the local user bob and the fabric user "7".
abbrev with_bob : Db
with_bob = (create_user empty (bytes "bob") (bytes "hash") false 5).1

abbrev two_users : Db
two_users = (get_or_create_fabric_user with_bob (bytes "7") 6).1

two_users-Reached : Reached two_users
two_users-Reached =
    next (next fresh (create empty (bytes "bob") (bytes "hash") false 5))
      (arrive with_bob (bytes "7") 6)

user_runs :
    ((create_user empty (bytes "a/b") (bytes "hash") false 5).1 ≡ empty)
    × ((create_user with_bob (bytes "bob") (bytes "hash") false 5).1 ≡ with_bob)
    × (two_users.next_user ≡ 3)
unfolding runs
user_runs = (refl, refl, refl)

Reached-HasUsers_example : HasUsers two_users
Reached-HasUsers_example = Reached-HasUsers two_users-Reached

abbrev bob : User
bob = record {
  id = 1;
  username = bytes "bob";
  password_hash = bytes "hash";
  is_admin = false;
  disabled = false;
  created_at = 5;
  fabric_id = none;
}

abbrev seven : User
seven = record {
  id = 2;
  username = bytes "fabric_7";
  password_hash = bytes "!";
  is_admin = false;
  disabled = false;
  created_at = 6;
  fabric_id = some (bytes "7");
}

Reached-separate_example :
    resolve_user_path (λ p. missing) (bytes "/d") (bytes "fabric_7") (bytes "/a")
    ≢ ok (bytes "/d/files/bob/a", bytes "/a")
unfolding runs
Reached-separate_example =
    Reached-separate (λ p. missing) (bytes "d") (bytes "/a") (bytes "/a") {db = two_users} 1 2
      {u = bob} {v = seven} two_users-Reached (λ e. cc) refl refl refl

abbrev double : User
double = record {
  id = 3;
  username = bytes "fabric_77";
  password_hash = bytes "!";
  is_admin = false;
  disabled = false;
  created_at = 9;
  fabric_id = some (bytes "77");
}

abbrev squatted : Db
squatted = (create_user empty (bytes "fabric_7") (bytes "hash") false 5).1

create_user-blocks_fabric_example :
    get_or_create_fabric_user squatted (bytes "7") 9 ≡ (err other, squatted)
unfolding runs
create_user-blocks_fabric_example =
    create_user-blocks_fabric empty (bytes "7") (bytes "hash") false 5 9 refl refl refl

delete_user-IsGone_example :
    IsGone 1 ((delete_user two_users 1).1)
    × ((o : ℕ) → o ≢ 1 → Agree o ((delete_user two_users 1).1) two_users)
unfolding runs
delete_user-IsGone_example = delete_user-IsGone two_users 1 refl
