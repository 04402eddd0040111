-- ===== src/Store/Sessions/Slid.antt =====
-- The rows of a session set under a deletion, and when their expiry slides.
use xx_drive.Prelude.{
  ℕ, Bool, true, false, not, ◌&&◌, ◌||◌, ◌≡◌, refl, inl, inr, List, [], ◌∷◌, ◌==◌, nat_eq, bytes_eq,
  arith, any, keep, Bool-cases, find, some,
}
use xx_drive.Prelude.Bytes.{Bytes}
use xx_drive.Prelude.Tables.{update}
use xx_drive.Store.Rows.{Session}
use xx_drive.Store.Sessions.{has_token_hash}

abbrev pub is_session : Bytes → ℕ → ℕ → Session → Bool
is_session hash user expiry s = s.token_hash == hash && s.user_id == user && s.expires_at == expiry

-- A session under the hash that another user owns.
abbrev pub is_foreign : Bytes → ℕ → Session → Bool
is_foreign hash user s = s.token_hash == hash && not (s.user_id == user)

pub no_foreign :
    (hash : Bytes) (user : ℕ) (rows : List Session)
    → ((v x : ℕ) → any (is_session hash v x) rows ≡ true → v ≡ user)
    → any (is_foreign hash user) rows ≡ false
no_foreign hash user [] own = refl
no_foreign hash user (s ∷ rows) own =
    let here = own s.user_id s.expires_at in
    let rest = no_foreign hash user rows (λ v x k.
      own v x (elim (Bool-cases (is_session hash v x s)) [
        | inl hit ↦ rw hit refl
        | inr miss ↦ rw miss k
      ])) in
    elim (Bool-cases (s.token_hash == hash)) [ inl same ↦ ground arith | inr other ↦ ground arith ]

pub any-update :
    (hash h : Bytes) (user v x end now : ℕ) (rows : List Session)
    → any (is_foreign hash user) rows ≡ false
    → any (is_session h v x) (
        update
          (has_token_hash hash)
          (λ (r : Session). record r { last_seen = now; expires_at = end })
          rows)
      ≡ ((not (h == hash) && any (is_session h v x) rows)
          || (h == hash && v == user && x == end && any (has_token_hash hash) rows))
any-update hash h user v x end now [] own = ground arith
any-update hash h user v x end now (s ∷ rows) own =
    let rest = any-update hash h user v x end now rows (ground arith) in
    elim (Bool-cases (s.token_hash == hash)) [ inl same ↦ ground arith | inr other ↦ ground arith ]

pub found-is_session :
    (hash : Bytes) (rows : List Session) {s : Session}
    → find (has_token_hash hash) rows ≡ some s
    → any (is_session hash s.user_id s.expires_at) rows ≡ true
found-is_session hash [] e = absurd (ground arith)
found-is_session hash (r ∷ rows) {s} e = elim (Bool-cases (has_token_hash hash r)) [
  | inl hit ↦ ground arith
  | inr miss ↦ let rest = found-is_session hash rows {s = s} (ground arith) in ground arith
]

pub any-keep_sound :
    (p q : Session → Bool) (c : Bool) (rows : List Session)
    → ((s : Session) → p s ≡ true → q s ≡ c)
    → any p (keep q rows) ≡ (c && any p rows)
any-keep_sound p q c [] h = ground arith
any-keep_sound p q c (s ∷ rows) h = elim (Bool-cases (p s)) [
  | inl hit ↦ ground (arith, h s hit, any-keep_sound p q c rows h)
  | inr miss ↦ ground (arith, any-keep_sound p q c rows h)
]

pub unused_hash :
    (hash : Bytes) (rows : List Session)
    → ((u e : ℕ) → any (is_session hash u e) rows ≡ false)
    → any (has_token_hash hash) rows ≡ false
unused_hash hash [] free = refl
unused_hash hash (s ∷ rows) free =
    let here = free s.user_id s.expires_at in
    let rest = unused_hash hash rows (λ u e. let k = free u e in ground arith) in ground arith

pub used_hash :
    (hash : Bytes) (u e : ℕ) (rows : List Session)
    → any (is_session hash u e) rows ≡ true
    → any (has_token_hash hash) rows ≡ true
used_hash hash u e [] h = absurd (ground arith)
used_hash hash u e (s ∷ rows) h = elim (Bool-cases (is_session hash u e s)) [
  | inl here ↦ ground arith
  | inr off ↦ let rest = used_hash hash u e rows (ground arith) in ground arith
]
