-- ===== src/Fabric/Complete.antt =====
-- Signed tokens are accepted, and accepted tokens are recognised.
use xx_drive.Prelude.{
  ℕ, true, false, ◌&&◌, ◌≡◌, ◌≢◌, refl, ap, ◌∙◌, inl, inr, List, [], ◌∷◌, ◌++◌, some, ◌==◌, nat_eq,
  bytes_eq, arith, Bool-cases, append_assoc, length, ℕ_discrete,
}
use xx_drive.Prelude.Bytes.{Bytes, split}
use xx_drive.Prelude.Results.{ok}
use xx_drive.Filepath.Segments.{Lacks, split-append, split_of_Lacks}
use xx_drive.Fabric.{
  period, token_version, Claims, Keyring, Codecs, signed_part, unb64url, check_claims, read_claims,
  check_parts, validate_parts, validate, looks_like_token,
}
use xx_drive.Fabric.Sound.{IsSigned}

split-signed :
    (key body sig : Bytes)
    → Lacks period key
    → Lacks period body
    → Lacks period sig
    → split period (signed_part key body ++ period ∷ sig) ≡ token_version ∷ key ∷ body ∷ sig ∷ []
unfolding ℕ_discrete
split-signed key body sig k b s =
    ap (λ t. split period (token_version ++ period ∷ t))
      (append_assoc key (period ∷ body) (period ∷ sig))
    ∙ split-append period token_version (key ++ period ∷ (body ++ period ∷ sig)) refl
    ∙ ap (λ r. token_version ∷ r) (split-append period key (body ++ period ∷ sig) k)
    ∙ ap (λ r. token_version ∷ key ∷ r) (split-append period body sig b)
    ∙ ap (λ r. token_version ∷ key ∷ body ∷ r) (split_of_Lacks period sig s)

same_self : (s : Bytes) → (s == s) ≡ true
same_self s = ground arith

other_false : (s : Bytes) → s ≢ [] → (s == []) ≡ false
other_false s ne = ground arith

module _ {Float : Type 0} (codecs : Codecs Float) where
  check_claims-accepts :
      (now : ℕ) (c : Claims Float)
      → codecs.is_zero c.exp ≡ false
      → codecs.reached now c.exp ≡ false
      → c.user_id ≢ []
      → check_claims codecs now c ≡ ok c
  unfolding check_claims
  check_claims-accepts now c a b d = rw (check_claims, a, b, other_false c.user_id d) refl

  read_claims-accepts :
      (now : ℕ) (body payload : Bytes) (c : Claims Float)
      → unb64url codecs body ≡ some payload
      → codecs.unmarshal payload ≡ some c
      → check_claims codecs now c ≡ ok c
      → read_claims codecs now body ≡ ok c
  unfolding read_claims
  read_claims-accepts now body payload c d u k = rw (read_claims, d, u) k

  -- Every properly signed token is accepted, with the claims of its body. No part of it holds a
  -- period.
  pub validate_of_signed :
      (ring : Keyring) (now : ℕ) {token : Bytes} {c : Claims Float}
      → (signed : IsSigned codecs ring now token c) → Lacks period signed.key
      → Lacks period signed.body
      → Lacks period signed.sig
      → validate codecs ring token now ≡ ok c
  unfolding validate validate_parts check_parts
  validate_of_signed ring now {token} {c} signed k b s =
      let parts : split period token ≡ token_version ∷ signed.key ∷ signed.body ∷ signed.sig ∷ [] =
        ap (split period) signed.shape ∙ split-signed signed.key signed.body signed.sig k b s in
      let some_text : (token == []) ≡ false = rw signed.shape (ground arith) in
      let claims =
        read_claims-accepts now signed.body signed.payload c signed.decoded signed.claimed
          (check_claims-accepts now c signed.has_expiry signed.alive signed.named) in
      rw
        (
          validate,
          some_text,
          parts,
          same_self token_version,
          check_parts,
          signed.accepted,
          signed.signature,
          same_self (codecs.hmac signed.secret (signed_part signed.key signed.body)),
        )
        claims

  looks_like_parts :
      (ring : Keyring) (now : ℕ) (parts : List Bytes) (c : Claims Float)
      → validate_parts codecs ring now parts ≡ ok c
      → (length parts == 4 && elim parts [ [] ↦ false | v ∷ rest ↦ v == token_version ]) ≡ true
  unfolding validate_parts ℕ_discrete
  looks_like_parts ring now [] c e = cc
  looks_like_parts ring now (v ∷ []) c e = cc
  looks_like_parts ring now (v ∷ key ∷ []) c e = cc
  looks_like_parts ring now (v ∷ key ∷ body ∷ []) c e = cc
  looks_like_parts ring now (v ∷ key ∷ body ∷ sig ∷ x ∷ more) c e = cc
  looks_like_parts ring now (v ∷ key ∷ body ∷ sig ∷ []) c e =
      elim (Bool-cases (v == token_version)) [
        | inl same ↦ rw same (ground arith)
        | inr other ↦ absurd (ground arith)
      ]

  -- A token that is accepted has the shape by which the server tells such tokens from session tokens.
  pub validate-looks_like_token :
      (ring : Keyring) (token : Bytes) (now : ℕ) {c : Claims Float}
      → validate codecs ring token now ≡ ok c
      → looks_like_token token ≡ true
  unfolding validate validate_parts looks_like_token
  validate-looks_like_token ring token now {c} e =
      looks_like_parts ring now (split period token) c (ground arith)
