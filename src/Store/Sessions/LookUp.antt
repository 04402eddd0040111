-- ===== src/Store/Sessions/LookUp.antt =====
-- What looking up a token does to the set of sessions.
use xx_drive.Prelude.{
  ℕ, ◌+◌, ◌/◌, ◌<◌, ◌≤◌, true, false, not, ◌≡◌, refl, sym, inl, inr, some, find, ◌==◌, nat_eq,
  bytes_eq, arith, subst, leb, ltb, Bool-cases, Option-cases,
}
use xx_drive.Prelude.Bytes.{Bytes}
use xx_drive.Prelude.Tables.{find-any, find-none}
use xx_drive.Store.Rows.{Session, Db}
use xx_drive.Store.Users.{user_by_id}
use xx_drive.Store.Sessions.{has_token_hash, delete_session, slide, session}
use xx_drive.Store.Sessions.Sliding.{find-hash}
use xx_drive.Store.Sessions.Slid.{
  is_session, no_foreign, any-update, found-is_session, any-keep_sound, used_hash,
}
use xx_drive.Store.Sessions.Calls.{view, IsKeyed, enabled, Same, SignedOut, Prolonged, LookedUp}

delete_session-SignedOut :
    (db : Db) (hash : Bytes) → SignedOut hash (view db) (view (delete_session db hash))
unfolding delete_session
delete_session-SignedOut db hash = λ h u e.
    any-keep_sound (is_session h u e) (λ s. not (has_token_hash hash s)) (not (h == hash))
      db.sessions (λ s k. let same : s.token_hash ≡ h = ground arith in rw same refl)

slide-Same :
    (db : Db) (s : Session) (ttl now : ℕ)
    → now + ttl ≤ s.expires_at + ttl / 2
    → Same (view db) (view (slide db s ttl now))
unfolding slide
slide-Same db s ttl now early h u e =
    let stays : ltb (s.expires_at + ttl / 2) (now + ttl) ≡ false = ground arith in
    rw (slide, stays) refl

slide-Prolonged :
    (db : Db) (s : Session) (ttl now : ℕ)
    → IsKeyed (view db)
    → find (has_token_hash s.token_hash) db.sessions ≡ some s
    → s.expires_at + ttl / 2 < now + ttl
    → Prolonged s.token_hash s.user_id (now + ttl) (view db) (view (slide db s ttl now))
unfolding slide bytes_eq
slide-Prolonged db s ttl now keyed found late h v x =
    let moves : ltb (s.expires_at + ttl / 2) (now + ttl) ≡ true = ground arith in
    let here = found-is_session s.token_hash db.sessions found in
    let own =
      no_foreign s.token_hash s.user_id db.sessions
        (λ w y k. (keyed s.token_hash w s.user_id y s.expires_at k here).0) in
    let hit = find-any (has_token_hash s.token_hash) db.sessions found in
    let rows = any-update s.token_hash h s.user_id v x (now + ttl) now db.sessions own in
    rw (slide, moves) (ground arith)

module _ (hash_token : Bytes → Bytes) where
  -- The row under the hash decides.
  session-row :
      (db : Db) (token : Bytes) (ttl now : ℕ) {s : Session}
      → IsKeyed (view db)
      → find (has_token_hash (hash_token token)) db.sessions ≡ some s
      → (s.expires_at ≤ now
          → SignedOut (hash_token token) (view db) (view ((session hash_token db token ttl now).1)))
        × (now < s.expires_at
            → enabled db s.user_id ≡ false
            → Same (view db) (view ((session hash_token db token ttl now).1)))
        × (now < s.expires_at
            → now + ttl ≤ s.expires_at + ttl / 2
            → Same (view db) (view ((session hash_token db token ttl now).1)))
        × (now < s.expires_at
            → enabled db s.user_id ≡ true
            → s.expires_at + ttl / 2 < now + ttl
            → Prolonged
                (hash_token token)
                s.user_id
                (now + ttl)
                (view db)
                (view ((session hash_token db token ttl now).1)))
  unfolding session
  session-row db token ttl now {s} keyed found = (
    λ over.
        let ended : leb s.expires_at now ≡ true = ground arith in
        rw (session, found, ended) (delete_session-SignedOut db (hash_token token)),
    λ live off.
        let alive : leb s.expires_at now ≡ false = ground arith in
        elim (Option-cases (user_by_id db s.user_id)) [
          | inl missing ↦ rw (session, found, alive, missing) (λ h u e. refl)
          | inr (u, known) ↦
              let barred : u.disabled ≡ true = ground arith in
              rw (session, found, alive, known, barred) (λ h u e. refl)
        ],
    λ live early.
        let alive : leb s.expires_at now ≡ false = ground arith in
        elim (Option-cases (user_by_id db s.user_id)) [
          | inl missing ↦ rw (session, found, alive, missing) (λ h u e. refl)
          | inr (u, known) ↦ elim (Bool-cases u.disabled) [
            | inl barred ↦ rw (session, found, alive, known, barred) (λ h u e. refl)
            | inr free ↦ rw (session, found, alive, known, free) (slide-Same db s ttl now early)
          ]
        ],
    λ live on late.
        let alive : leb s.expires_at now ≡ false = ground arith in
        elim (Option-cases (user_by_id db s.user_id)) [
          | inl missing ↦ absurd (ground arith)
          | inr (u, known) ↦
              let free : u.disabled ≡ false = ground arith in
              let same = find-hash (hash_token token) db.sessions found in
              rw (session, found, alive, known, free)
                (subst
                  (λ k. Prolonged k s.user_id (now + ttl) (view db) (view (slide db s ttl now)))
                  same
                  (slide-Prolonged db s ttl now keyed
                    (subst (λ k. find (has_token_hash k) db.sessions ≡ some s) (sym same) found)
                    late))
        ],
  )

  pub look_up-LookedUp :
      (db : Db) (token : Bytes) (ttl now : ℕ)
      → IsKeyed (view db)
      → LookedUp
          (hash_token token)
          (enabled db)
          ttl
          now
          (view db)
          (view ((session hash_token db token ttl now).1))
  unfolding session
  look_up-LookedUp db token ttl now keyed =
      elim (Option-cases (find (has_token_hash (hash_token token)) db.sessions)) [
        | inl absent ↦ (
          λ unused h u e. rw (session, absent) refl,
          λ u e used.
              let hit = used_hash (hash_token token) u e db.sessions used in
              let miss = find-none (has_token_hash (hash_token token)) db.sessions absent in
              absurd (ground arith),
        )
        | inr (s, found) ↦
            let here = found-is_session (hash_token token) db.sessions found in
            (
              λ unused h u e. absurd (let no = unused s.user_id s.expires_at in ground arith),
              λ u e used.
                  let (owner, end) =
                    keyed (hash_token token) s.user_id u s.expires_at e here used in
                  rw (sym owner, sym end) (session-row db token ttl now keyed found),
            )
      ]
