-- ===== src/Api/Auth/Identity.antt =====
-- Whom a request may act as.
use xx_drive.Prelude.{
  ℕ, ◌<◌, false, ◌≡◌, refl, sym, ap, ◌∙◌, ◌⊎◌, inl, inr, List, [], ◌∷◌, ◌++◌, ℕ_discrete, Option,
  some, ◌==◌, nat_eq, bytes_eq, arith, find, Bool-cases, Option-cases,
}
use xx_drive.Prelude.Bytes.{Bytes, bytes}
use xx_drive.Prelude.Results.{
  Result, ok, err, not_found, exists, invalid, not_empty, too_large, conflict, disabled, other,
  Result-cases,
}
use xx_drive.Store.Rows.{User, Session, Db}
use xx_drive.Store.Users.{user_by_id, get_or_create_fabric_user}
use xx_drive.Store.Users.Fabric.{get_or_create_fabric_user-ok}
use xx_drive.Store.Sessions.{has_token_hash, session}
use xx_drive.Store.Sessions.Valid.{session-cases, session_sound}
use xx_drive.Fabric.{
  Claims, Codecs, Keyring, validate, user_id_for, bearer_token, fields, looks_like_token,
}
use xx_drive.Fabric.Sound.{IsSigned, validate-IsSigned}
use xx_drive.Api.Auth.{
  Request, Answer, pass, credential, identity_answer, session_answer, authenticate_fabric,
  authenticate,
}

fields-bearer : (raw : Bytes) → fields (bytes "Bearer " ++ raw) ≡ bytes "Bearer" ∷ fields raw
unfolding fields ℕ_discrete
fields-bearer raw = refl

-- Behind the word "Bearer" and a space there is one field, and it is the token.
bearer_token-fields :
    (raw : Bytes) {token : Bytes}
    → bearer_token (fields (bytes "Bearer " ++ raw)) ≡ some token
    → fields raw ≡ token ∷ []
bearer_token-fields raw {token} e =
    one_field (fields raw) (sym (ap bearer_token (fields-bearer raw)) ∙ e)
  where
    one_field :
        (fs : List Bytes) → bearer_token (bytes "Bearer" ∷ fs) ≡ some token → fs ≡ token ∷ []
    one_field [] h = absurd (ground arith)
    one_field (f ∷ []) h = ground arith
    one_field (f ∷ g ∷ fs) h = absurd (ground arith)

pair-eq : {A B : Type 0} (p : A × B) {a : A} {b : B} → p.0 ≡ a → p.1 ≡ b → p ≡ (a, b)
pair-eq p h k = ground arith

identity_answer-pass : (r : Result User) {u : User} → identity_answer r ≡ pass u → r ≡ ok u
identity_answer-pass (ok v) h = ground arith
identity_answer-pass (err not_found) h = cc
identity_answer-pass (err exists) h = cc
identity_answer-pass (err invalid) h = cc
identity_answer-pass (err not_empty) h = cc
identity_answer-pass (err too_large) h = cc
identity_answer-pass (err conflict) h = cc
identity_answer-pass (err disabled) h = cc
identity_answer-pass (err other) h = cc

session_answer-pass :
    (r : Result (Session × User)) {u : User}
    → session_answer r ≡ pass u
    → (s : Session) × (r ≡ ok (s, u))
session_answer-pass (ok (s, v)) h = (s, ground arith)
session_answer-pass (err e) h = cc

module _ {Float : Type 0} (codecs : Codecs Float) (hash_token : Bytes → Bytes) where
  -- The user holds the user id of the token that the credential is, but for white space around it, which
  -- a key of the ring signed and which has not expired.
  pub record ByToken (ring : Option Keyring) (raw : Bytes) (moment : ℕ) (u : User) : Type 0 where
    pub keys : Keyring
    pub token : Bytes
    pub claims : Claims Float
    pub configured : ring ≡ some keys
    pub carried : fields raw ≡ token ∷ []
    pub signed : IsSigned codecs keys moment token claims
    pub identity : u.fabric_id ≡ some claims.user_id

  -- The user is that of a stored session that has not expired.
  pub record BySession (db : Db) (raw : Bytes) (now : ℕ) (u : User) : Type 0 where
    pub row : Session
    pub stored : find (has_token_hash (hash_token raw)) db.sessions ≡ some row
    pub alive : now < row.expires_at
    pub owner : u.id ≡ row.user_id
    pub exists_in : user_by_id db u.id ≡ some u

  user_id_for-ok :
      (keys : Keyring) (header : Bytes) (moment : ℕ) {uid : Bytes}
      → user_id_for codecs keys header moment ≡ ok uid
      → (token : Bytes) × (c : Claims Float) × (bearer_token (fields header) ≡ some token)
        × IsSigned codecs keys moment token c
        × (c.user_id ≡ uid)
  unfolding user_id_for
  user_id_for-ok keys header moment {uid} e = elim (Option-cases (bearer_token (fields header))) [
    | inl bad ↦ absurd (ground arith)
    | inr (token, bearer) ↦ elim (Result-cases (validate codecs keys token moment)) [
      | inl (c, valid) ↦
          (token, c, bearer, validate-IsSigned codecs keys token moment valid, ground arith)
      | inr (_, bad) ↦ absurd (ground arith)
    ]
  ]

  authenticate_fabric-pass :
      (ring : Option Keyring) (db : Db) (token : Bytes) (moment now : ℕ) {u : User} {db' : Db}
      → authenticate_fabric codecs hash_token ring db token moment now ≡ (pass u, db')
      → (u.disabled ≡ false) × ByToken ring token moment u
  unfolding authenticate_fabric
  authenticate_fabric-pass ring db token moment now {u} {db'} e = elim (Option-cases ring) [
    | inl absent ↦ absurd (ground arith)
    | inr (keys, configured) ↦
        elim (Result-cases (user_id_for codecs keys (bytes "Bearer " ++ token) moment)) [
          | inr (_, bad) ↦ absurd (ground arith)
          | inl (uid, valid) ↦
              let both : ◌≡◌ {A = Answer User × Db}
                  (
                    identity_answer (get_or_create_fabric_user db uid now).0,
                    (get_or_create_fabric_user db uid now).1,
                  )
                  (pass u, db') =
                ground arith in
              let found =
                pair-eq (get_or_create_fabric_user db uid now)
                  (identity_answer-pass (get_or_create_fabric_user db uid now).0
                    (ap (λ p. p.0) both))
                  (ap (λ p. p.1) both) in
              let (holds, on, _) = get_or_create_fabric_user-ok db uid now found in
              let (accepted, c, bearer, signed, same) =
                user_id_for-ok keys (bytes "Bearer " ++ token) moment valid in
              (
                on,
                record {
                  keys = keys;
                  token = accepted;
                  claims = c;
                  configured = configured;
                  carried = bearer_token-fields token bearer;
                  signed = signed;
                  identity = holds ∙ ap some (sym same);
                },
              )
        ]
  ]

  -- A request acts as a user only on the credential that it carries, and never as a disabled one: the
  -- credential is, but for white space around it, a token that a key of the configured ring signed, that
  -- has not expired, and whose user id is the user's fabric id; or it is the token of a stored session
  -- of the user that has not expired.
  pub authenticate-pass :
      (ring : Option Keyring) (db : Db) (r : Request) (ttl moment now : ℕ) {u : User} {db' : Db}
      → authenticate codecs hash_token ring db r ttl moment now ≡ (pass u, db')
      → (u.disabled ≡ false)
        × (ByToken ring (credential r) moment u ⊎ BySession db (credential r) now u)
  unfolding authenticate
  authenticate-pass ring db r ttl moment now {u} {db'} e = elim (Bool-cases (credential r == [])) [
    | inl nothing ↦ absurd (ground arith)
    | inr given ↦ elim (Bool-cases (looks_like_token (credential r))) [
      | inl shaped ↦
          let (on, by) =
            authenticate_fabric-pass ring db (credential r) moment now {u = u} {db' = db'}
              (ground arith) in
          (on, inl by)
      | inr plain ↦
          let both : ◌≡◌ {A = Answer User × Db}
              (
                session_answer (session hash_token db (credential r) ttl now).0,
                (session hash_token db (credential r) ttl now).1,
              )
              (pass u, db') =
            ground arith in
          let (s, found) =
            session_answer-pass (session hash_token db (credential r) ttl now).0
              (ap (λ p. p.0) both) in
          let whole =
            pair-eq (session hash_token db (credential r) ttl now) found (ap (λ p. p.1) both) in
          let (stored, _, _, _, _) = session-cases hash_token db (credential r) ttl now whole in
          let (_, alive, owner, exists_in, on) =
            session_sound hash_token db (credential r) ttl now whole in
          (
            on,
            inr (record {
              row = s;
              stored = stored;
              alive = alive;
              owner = owner;
              exists_in = exists_in;
            }),
          )
    ]
  ]
