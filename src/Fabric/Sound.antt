-- ===== src/Fabric/Sound.antt =====
-- What an accepted token proves.
use xx_drive.Prelude.{
  ℕ, false, ◌≡◌, ◌≢◌, refl, sym, ap, ◌∙◌, inl, inr, List, [], ◌∷◌, ◌++◌, some, nat_eq, bytes_eq,
  arith, Option-cases, append_assoc,
}
use xx_drive.Prelude.Bytes.{Bytes, split, join}
use xx_drive.Prelude.Results.{ok}
use xx_drive.Filepath.Segments.{join-split}
use xx_drive.Fabric.{
  period, token_version, Claims, Keyring, Codecs, lookup, signed_part, unb64url, check_claims,
  read_claims, check_parts, validate_parts, validate,
}

module _ {Float : Type 0} (codecs : Codecs Float) where
  -- The token is the signed part, a period and the signature of a key of the ring over exactly that
  -- part; the claims are those of the signed body, name a user, and have an expiry that is still to
  -- come.
  pub record IsSigned (ring : Keyring) (now : ℕ) (token : Bytes) (c : Claims Float) : Type 0 where
    pub key : Bytes
    pub body : Bytes
    pub sig : Bytes
    pub secret : Bytes
    pub payload : Bytes
    pub shape : token ≡ signed_part key body ++ period ∷ sig
    pub accepted : lookup ring key ≡ some secret
    pub signature : unb64url codecs sig ≡ some (codecs.hmac secret (signed_part key body))
    pub decoded : unb64url codecs body ≡ some payload
    pub claimed : codecs.unmarshal payload ≡ some c
    pub has_expiry : codecs.is_zero c.exp ≡ false
    pub alive : codecs.reached now c.exp ≡ false
    pub named : c.user_id ≢ []

  check_claims-ok :
      (now : ℕ) (c d : Claims Float)
      → check_claims codecs now c ≡ ok d
      → (c ≡ d)
        × (codecs.is_zero c.exp ≡ false)
        × (codecs.reached now c.exp ≡ false)
        × (c.user_id ≢ [])
  unfolding check_claims
  check_claims-ok now c d e = (ground arith, ground arith, ground arith, λ h. ground arith)

  read_claims-ok :
      (now : ℕ) (body : Bytes) (c : Claims Float)
      → read_claims codecs now body ≡ ok c
      → (payload : Bytes) × (unb64url codecs body ≡ some payload)
        × (codecs.unmarshal payload ≡ some c)
        × (codecs.is_zero c.exp ≡ false)
        × (codecs.reached now c.exp ≡ false)
        × (c.user_id ≢ [])
  unfolding read_claims
  read_claims-ok now body c e = elim (Option-cases (unb64url codecs body)) [
    | inl bad ↦ absurd (ground arith)
    | inr (payload, decoded) ↦ elim (Option-cases (codecs.unmarshal payload)) [
      | inl bad ↦ absurd (ground arith)
      | inr (d, claimed) ↦
          let (same, has_expiry, alive, named) = check_claims-ok now d c (ground arith) in
          (
            payload,
            decoded,
            claimed ∙ ap some same,
            rw (sym same) has_expiry,
            rw (sym same) alive,
            rw (sym same) named,
          )
    ]
  ]

  split-shape :
      (token key body sig : Bytes)
      → split period token ≡ token_version ∷ key ∷ body ∷ sig ∷ []
      → token ≡ signed_part key body ++ period ∷ sig
  split-shape token key body sig e =
      sym (join-split period token)
      ∙ ap (join period) e
      ∙ unfold join in
        (ap (λ t. token_version ++ period ∷ t)
          (sym (append_assoc key (period ∷ body) (period ∷ sig))))

  validate_parts-ok :
      (ring : Keyring) (now : ℕ) (token : Bytes) (parts : List Bytes) (c : Claims Float)
      → split period token ≡ parts
      → validate_parts codecs ring now parts ≡ ok c
      → IsSigned ring now token c
  unfolding validate_parts check_parts
  validate_parts-ok ring now token [] c s e = cc
  validate_parts-ok ring now token (v ∷ []) c s e = cc
  validate_parts-ok ring now token (v ∷ key ∷ []) c s e = cc
  validate_parts-ok ring now token (v ∷ key ∷ body ∷ []) c s e = cc
  validate_parts-ok ring now token (v ∷ key ∷ body ∷ sig ∷ x ∷ more) c s e = cc
  validate_parts-ok ring now token (v ∷ key ∷ body ∷ sig ∷ []) c s e =
      elim (Option-cases (lookup ring key)) [
        | inl bad ↦ absurd (ground arith)
        | inr (secret, accepted) ↦ elim (Option-cases (unb64url codecs sig)) [
          | inl bad ↦ absurd (ground arith)
          | inr (presented, signed) ↦
              let good : codecs.hmac secret (signed_part key body) ≡ presented = ground arith in
              let version : v ≡ token_version = ground arith in
              let claims : read_claims codecs now body ≡ ok c = ground arith in
              let (payload, decoded, claimed, has_expiry, alive, named) =
                read_claims-ok now body c claims in
              record {
                key = key;
                body = body;
                sig = sig;
                secret = secret;
                payload = payload;
                shape =
                    split-shape token key body sig
                      (s ∙ ap (λ w. w ∷ key ∷ body ∷ sig ∷ []) version);
                accepted = accepted;
                signature = signed ∙ ap some (sym good);
                decoded = decoded;
                claimed = claimed;
                has_expiry = has_expiry;
                alive = alive;
                named = named;
              }
        ]
      ]

  -- Only signed tokens are accepted: the presented text is a version, the id of a key of the ring, a
  -- body and a signature, separated by periods; the signature decodes to the key's HMAC over exactly
  -- the text before it; and the claims returned are those that the body decodes to, with a user id
  -- and an expiry that is not reached.
  pub validate-IsSigned :
      (ring : Keyring) (token : Bytes) (now : ℕ) {c : Claims Float}
      → validate codecs ring token now ≡ ok c
      → IsSigned ring now token c
  unfolding validate
  validate-IsSigned ring token now {c} e =
      validate_parts-ok ring now token (split period token) c refl (ground arith)
