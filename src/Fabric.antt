-- ===== src/Fabric.antt =====
-- internal/fabric/token.go: the validation of single sign-on tokens.
pub mod Sound
pub mod Complete
use xx_drive.Prelude.{
  ℕ, Bool, true, false, not, ◌&&◌, ◌||◌, List, [], ◌∷◌, ◌++◌, Option, none, some, if◌then◌else◌,
  ◌==◌, nat_eq, bytes_eq, leb, length,
}
use xx_drive.Prelude.Bytes.{Bytes, bytes, split, to_lower}
use xx_drive.Prelude.Results.{Result, ok, err, other}

abbrev pub period : ℕ
period = b'.'

abbrev pub token_version : Bytes
token_version = bytes "v1"

-- `Claims`; the times are floating-point numbers.
pub record Claims (Float : Type 0) : Type 0 where
  pub user_id : Bytes
  pub jti : Bytes
  pub iat : Float
  pub exp : Float

-- `Keyring`: the secrets of the accepted keys.
abbrev pub Keyring : Type 0
Keyring = List (Bytes × Bytes)

abbrev pub lookup : Keyring → Bytes → Option Bytes
lookup [] key = none
lookup ((k, secret) ∷ ring) key = if k == key then some secret else lookup ring key

-- `LooksLikeToken`
unfoldable pub looks_like_token : Bytes → Bool
looks_like_token raw =
    let parts = split period raw in
    length parts == 4 && elim parts [ [] ↦ false | v ∷ rest ↦ v == token_version ]

-- The ASCII characters that separate fields.
abbrev pub is_space : ℕ → Bool
is_space c = c == 32 || (leb 9 c && leb c 13)

abbrev pub add_to_field : ℕ → Bool → List Bytes → List Bytes
add_to_field c false fs = (c ∷ []) ∷ fs
add_to_field c true [] = (c ∷ []) ∷ []
add_to_field c true (f ∷ fs) = (c ∷ f) ∷ fs

-- Whether a text begins with a character of a field.
abbrev pub in_field : Bytes → Bool
in_field [] = false
in_field (c ∷ s) = not (is_space c)

-- strings.Fields
unfoldable pub fields : Bytes → List Bytes
fields [] = []
fields (c ∷ s) =
    let rest = fields s in if is_space c then rest else add_to_field c (in_field s) rest

-- The second of two fields, behind "bearer" in either case. Splitting into fields trims as well, and
-- no field is empty.
abbrev pub bearer_token : List Bytes → Option Bytes
bearer_token (scheme ∷ token ∷ []) = if to_lower scheme == bytes "bearer" then some token else none
bearer_token parts = none

-- The text that is signed.
abbrev pub signed_part : Bytes → Bytes → Bytes
signed_part key body = token_version ++ period ∷ (key ++ period ∷ body)

-- The standard library's encodings as functions: HMAC-SHA256 of a secret and a text, the two base64
-- decoders, and json.Unmarshal into the claims. `is_zero` tells whether a time is 0, and `reached now
-- exp` whether a moment in nanoseconds, in seconds, is at or after it.
pub record Codecs (Float : Type 0) : Type 0 where
  pub hmac : Bytes → Bytes → Bytes
  pub raw_url : Bytes → Option Bytes
  pub padded_url : Bytes → Option Bytes
  pub unmarshal : Bytes → Option (Claims Float)
  pub is_zero : Float → Bool
  pub reached : ℕ → Float → Bool

module _ {Float : Type 0} (codecs : Codecs Float) where
  -- `unb64url`
  unfoldable pub unb64url : Bytes → Option Bytes
  unb64url s = elim (codecs.raw_url s) [ some b ↦ some b | none ↦ codecs.padded_url s ]

  -- The tests on the claims.
  unfoldable pub check_claims : ℕ → Claims Float → Result (Claims Float)
  check_claims now c =
      if codecs.is_zero c.exp
      then err other
      else if codecs.reached now c.exp
      then err other
      else if c.user_id == []
      then err other
      else ok c

  -- The claims of a token whose signature holds.
  unfoldable pub read_claims : ℕ → Bytes → Result (Claims Float)
  read_claims now body = elim (unb64url body) [
    | none ↦ err other
    | some payload ↦ elim (codecs.unmarshal payload) [
      | none ↦ err other
      | some c ↦ check_claims now c
    ]
  ]

  -- From the lookup of the key on.
  unfoldable pub check_parts : Keyring → ℕ → Bytes → Bytes → Bytes → Result (Claims Float)
  check_parts ring now key body sig = elim (lookup ring key) [
    | none ↦ err other
    | some secret ↦ elim (unb64url sig) [
      | none ↦ err other
      | some presented ↦
          if codecs.hmac secret (signed_part key body) == presented
          then read_claims now body
          else err other
    ]
  ]

  -- The four parts of a split token.
  unfoldable pub validate_parts : Keyring → ℕ → List Bytes → Result (Claims Float)
  validate_parts ring now (v ∷ key ∷ body ∷ sig ∷ []) =
      if v == token_version then check_parts ring now key body sig else err other
  validate_parts ring now parts = err other

  -- `Validate`; `now` is in nanoseconds.
  unfoldable pub validate : Keyring → Bytes → ℕ → Result (Claims Float)
  validate ring token now =
      if token == [] then err other else validate_parts ring now (split period token)

  -- `UserIDFor`
  unfoldable pub user_id_for : Keyring → Bytes → ℕ → Result Bytes
  user_id_for ring header now = elim (bearer_token (fields header)) [
    | none ↦ err other
    | some token ↦ elim (validate ring token now) [ err e ↦ err e | ok c ↦ ok c.user_id ]
  ]
