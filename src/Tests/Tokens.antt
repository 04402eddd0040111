-- ===== src/Tests/Tokens.antt =====
-- Tokens and requests at concrete inputs. The codecs stand for the standard library's: a text is its
-- own encoding, and a secret with the length of a text is its code.
use xx_drive.Prelude.{
  ℕ, false, ◌≡◌, ◌⊎◌, refl, [], ◌∷◌, ◌++◌, none, some, ◌==◌, nat_eq, bytes_eq, ℕ_discrete, leb,
  length,
}
use xx_drive.Prelude.Bytes.{Bytes, bytes, split, has_prefix, trim_prefix, to_lower, contains_any}
use xx_drive.Prelude.Results.{Result, ok, err, other}
use xx_drive.Filepath.{clean}
use xx_drive.Store.Rows.{User, empty}
use xx_drive.Store.Users.{
  valid_segment_name, insert_user, get_or_create_fabric_user, user_by_id, user_by_fabric_id,
}
use xx_drive.Store.Sessions.{session}
use xx_drive.Fabric.{
  Claims, Codecs, Keyring, validate, validate_parts, check_parts, read_claims, check_claims,
  unb64url, looks_like_token, user_id_for, fields,
}
use xx_drive.Fabric.Sound.{IsSigned, validate-IsSigned}
use xx_drive.Fabric.Complete.{validate_of_signed}
use xx_drive.Api.Auth.{Request, authenticate, authenticate_fabric, credential}
use xx_drive.Api.Auth.Identity.{ByToken, BySession, authenticate-pass}

abbrev codecs : Codecs ℕ
codecs = record {
  hmac = λ secret text. secret ++ length text ∷ [];
  raw_url = λ s. some s;
  padded_url = λ s. none;
  unmarshal = λ s. some (record { user_id = s; jti = []; iat = 0; exp = 100 });
  is_zero = λ t. t == 0;
  reached = λ now exp. leb exp now;
}

abbrev ring : Keyring
ring = (bytes "k", bytes "secret") ∷ []

-- The text before the signature has eight bytes.
abbrev token : Bytes
token = bytes "v1.k.bob.secret" ++ 8 ∷ []

abbrev claims : Claims ℕ
claims = record { user_id = bytes "bob"; jti = []; iat = 0; exp = 100 }

unfoldable runs : Keyring → Bytes → ℕ → Result (Claims ℕ)
unfolding validate validate_parts check_parts read_claims check_claims unb64url looks_like_token
    user_id_for fields authenticate authenticate_fabric credential session get_or_create_fabric_user
    insert_user valid_segment_name user_by_id user_by_fabric_id contains_any clean to_lower split
    has_prefix trim_prefix bytes_eq ℕ_discrete
runs = validate codecs

token_runs :
    (validate codecs ring token 99 ≡ ok claims)
    × (validate codecs ring token 100 ≡ err other)
    × (validate codecs [] token 99 ≡ err other)
unfolding runs
token_runs = (refl, refl, refl)

validate-IsSigned_example : IsSigned codecs ring 99 token claims
unfolding runs
validate-IsSigned_example = validate-IsSigned codecs ring token 99 refl

signed : IsSigned codecs ring 99 token claims
unfolding runs
signed = record {
  key = bytes "k";
  body = bytes "bob";
  sig = bytes "secret" ++ 8 ∷ [];
  secret = bytes "secret";
  payload = bytes "bob";
  shape = refl;
  accepted = refl;
  signature = refl;
  decoded = refl;
  claimed = refl;
  has_expiry = refl;
  alive = refl;
  named = λ e. cc;
}

validate_of_signed_example : validate codecs ring token 99 ≡ ok claims
unfolding runs signed
validate_of_signed_example =
    validate_of_signed codecs ring 99 {token = token} {c = claims} signed refl refl refl

abbrev request : Request
request = record {
  authorization = bytes "Bearer " ++ token;
  cookie = none;
  origin = [];
  referer = [];
  csrf_header = [];
  host = bytes "drive";
}

abbrev bob : User
bob = record {
  id = 1;
  username = bytes "fabric_bob";
  password_hash = bytes "!";
  is_admin = false;
  disabled = false;
  created_at = 7;
  fabric_id = some (bytes "bob");
}

authenticate-pass_example :
    (bob.disabled ≡ false)
    × (ByToken codecs (λ t. t) (some ring) (credential request) 99 bob
        ⊎ BySession codecs (λ t. t) empty token 7 bob)
unfolding runs
authenticate-pass_example =
    authenticate-pass codecs (λ t. t) (some ring) empty request 60 99 7 {u = bob} refl
