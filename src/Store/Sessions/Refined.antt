-- ===== src/Store/Sessions/Refined.antt =====
-- What the store's calls do to who may sign in with what, and until when.
use xx_drive.Prelude.{
  ℕ, ◌+◌, not, ◌||◌, ◌≡◌, refl, inl, inr, List, [], ◌∷◌, ◌++◌, ◌==◌, nat_eq, bytes_eq, Bool, arith,
  any, Bool-cases, Option-cases,
}
use xx_drive.Prelude.Bytes.{Bytes}
use xx_drive.Prelude.Tables.{find-any, find-none}
use xx_drive.Store.Rows.{Session, Db}
use xx_drive.Store.Users.{has_id, user_by_id, delete_user, set_disabled}
use xx_drive.Store.Sessions.{has_token_hash, create_session, delete_session}
use xx_drive.Store.Sessions.Slid.{is_session, any-keep_sound, unused_hash, used_hash}
use xx_drive.Store.Sessions.Calls.{
  view, IsKeyed, SessionCall, sign_in, look_up, sign_out, disable, remove, exists, enabled, Allowed,
  call,
}
use xx_drive.Store.Sessions.LookUp.{look_up-LookedUp}

module _ (hash_token : Bytes → Bytes) where
  any_last :
      (p : Session → Bool) (rows : List Session) (s : Session)
      → any p (rows ++ s ∷ []) ≡ (any p rows || p s)
  any_last p [] s = ground arith
  any_last p (r ∷ rows) s = ground (arith, any_last p rows s)

  -- Signing in refines its specification.
  sign_in-Allowed :
      (db : Db) (user : ℕ) (token label : Bytes) (ttl now : ℕ)
      → Allowed hash_token
          (exists db)
          (enabled db)
          (sign_in user token label ttl now)
          (view db)
          (view (call hash_token db (sign_in user token label ttl now)))
  unfolding create_session user_by_id
  sign_in-Allowed db user token label ttl now = (
    λ none_such h u e. elim (Option-cases (user_by_id db user)) [
      | inl missing ↦ elim (Bool-cases (any (has_token_hash (hash_token token)) db.sessions)) [
        | inl used ↦ rw (call, create_session, used) refl
        | inr free ↦ rw (call, create_session, free, missing) refl
      ]
      | inr (v, known) ↦ absurd (ground (arith, find-any (has_id user) db.users known))
    ],
    λ v f taken h u e.
        let used = used_hash (hash_token token) v f db.sessions taken in
        rw (call, create_session, used) refl,
    λ there free h u e. elim (Option-cases (user_by_id db user)) [
      | inl missing ↦ absurd (ground (arith, find-none (has_id user) db.users missing))
      | inr (v, known) ↦
          let unused = unused_hash (hash_token token) db.sessions free in
          rw (call, create_session, unused, known)
            (any_last (is_session h u e) db.sessions (record {
              token_hash = hash_token token;
              user_id = user;
              label = label;
              created_at = now;
              last_seen = now;
              expires_at = now + ttl;
            }))
    ],
  )

  -- Seen as a set of hashes, users and times, the table of sessions does what the specification says at
  -- each of the store's calls that write to it: signing in, looking a token up, signing out, disabling
  -- and deleting a user. Token hashes are unique in the table.
  pub call-Allowed :
      (db : Db) (c : SessionCall)
      → IsKeyed (view db)
      → Allowed hash_token (exists db) (enabled db) c (view db) (view (call hash_token db c))
  unfolding delete_session set_disabled delete_user
  call-Allowed db (sign_in user token label ttl now) keyed =
      sign_in-Allowed db user token label ttl now
  call-Allowed db (look_up token ttl now) keyed = look_up-LookedUp hash_token db token ttl now keyed
  call-Allowed db (sign_out hash) keyed = λ h u e.
      any-keep_sound (is_session h u e) (λ s. not (has_token_hash hash s)) (not (h == hash))
        db.sessions (λ s k. let same : s.token_hash ≡ h = ground arith in rw same refl)
  call-Allowed db (disable user) keyed = λ h u e.
      any-keep_sound (is_session h u e) (λ s. not (s.user_id == user)) (not (u == user)) db.sessions
        (λ s k. let same : s.user_id ≡ u = ground arith in rw same refl)
  call-Allowed db (remove user) keyed = (
    λ none_such h u e. rw (call, delete_user, none_such) refl,
    λ there h u e.
        rw (call, delete_user, there)
          (any-keep_sound (is_session h u e) (λ s. not (s.user_id == user)) (not (u == user))
            db.sessions (λ s k. let same : s.user_id ≡ u = ground arith in rw same refl)),
  )
