-- ===== src/Api/Grants/Bounded.antt =====
-- The grants that are held are few, and none has expired.
use xx_drive.Prelude.{
  ℕ, zero, suc, ◌+◌, ◌-◌, ◌≤◌, ◌<◌, Bool, true, not, ◌≡◌, refl, inl, inr, List, [], ◌∷◌, ◌++◌, none,
  some, nat_eq, bytes_eq, arith, leb, length, any, keep, All, All-keep, length-keep-le, Bool-cases,
  Option-cases,
}
use xx_drive.Prelude.Bytes.{Bytes}
use xx_drive.Prelude.Tables.{keep-All, All-map}
use xx_drive.Store.Rows.{Share}
use xx_drive.Api.Grants.{
  Grant, is_grant, max_entries, sweep_grants, soonest, evict, evict_times, cap_grants, issue_grant,
}

soonest-any :
    (gs : List Grant) {v : Grant}
    → soonest gs ≡ some v
    → any (is_grant v.token_hash v.grant) gs ≡ true
soonest-any [] e = cc
soonest-any (g ∷ gs) {v} e = elim (Option-cases (soonest gs)) [
  | inl alone ↦ ground arith
  | inr (h, rest) ↦
      let later = soonest-any gs rest in
      elim (Bool-cases (leb g.expires h.expires)) [
        | inl first ↦ ground arith
        | inr second ↦ ground arith
      ]
]

length-keep-lt :
    (p : Grant → Bool) (gs : List Grant)
    → any p gs ≡ true
    → length (keep (λ h. not (p h)) gs) < length gs
length-keep-lt p [] e = cc
length-keep-lt p (g ∷ gs) e = elim (Bool-cases (p g)) [
  | inl hit ↦ let le = length-keep-le (λ h. not (p h)) gs in ground arith
  | inr passed ↦ let lt = length-keep-lt p gs (ground arith) in ground arith
]

soonest-none : (gs : List Grant) → soonest gs ≡ none → gs ≡ []
soonest-none [] e = refl
soonest-none (g ∷ gs) e = elim (Option-cases (soonest gs)) [
  | inl alone ↦ absurd (ground arith)
  | inr (h, rest) ↦ elim (Bool-cases (leb g.expires h.expires)) [
    | inl first ↦ absurd (ground arith)
    | inr second ↦ absurd (ground arith)
  ]
]

evict-some :
    (gs : List Grant) {v : Grant}
    → soonest gs ≡ some v
    → evict gs ≡ keep (λ h. not (is_grant v.token_hash v.grant h)) gs
evict-some gs e = rw (evict, e) refl

evict-none : (gs : List Grant) → soonest gs ≡ none → evict gs ≡ gs
evict-none gs e = rw (evict, e) refl

length-evict-le : (gs : List Grant) → length (evict gs) ≤ length gs - 1
length-evict-le gs = elim (Option-cases (soonest gs)) [
  | inl empty ↦ let nothing = soonest-none gs empty in rw nothing (omega arith)
  | inr (v, found) ↦
      let lt = length-keep-lt (is_grant v.token_hash v.grant) gs (soonest-any gs found) in
      rw (evict-some gs found) (omega arith)
]

length-evict_times-le : (n : ℕ) (gs : List Grant) → length (evict_times n gs) ≤ length gs - n
length-evict_times-le zero gs = omega arith
length-evict_times-le (suc n) gs =
    let one = length-evict-le gs in let more = length-evict_times-le n (evict gs) in omega arith

evict-All : (P : Grant → Type 0) (gs : List Grant) → All P gs → All P (evict gs)
evict-All P gs h = elim (Option-cases (soonest gs)) [
  | inl empty ↦ rw (evict-none gs empty) h
  | inr (v, found) ↦
      rw (evict-some gs found) (All-keep P (λ k. not (is_grant v.token_hash v.grant k)) gs h)
]

evict_times-All :
    (P : Grant → Type 0) (n : ℕ) (gs : List Grant) → All P gs → All P (evict_times n gs)
evict_times-All P zero gs h = h
evict_times-All P (suc n) gs h = evict_times-All P n (evict gs) (evict-All P gs h)

-- After a grant is issued at most 1024 are held, however many there were, and none that has expired.
pub issue_grant_bounded :
    (gs : List Grant) (sh : Share) (grant : Bytes) (now : ℕ)
    → (length (issue_grant gs sh grant now) ≤ max_entries)
      × All (λ g. now < g.expires) (issue_grant gs sh grant now)
unfolding issue_grant cap_grants sweep_grants
issue_grant_bounded gs sh grant now =
    let held =
      keep (λ h. not (is_grant sh.token_hash grant h)) gs
      ++ record { token_hash = sh.token_hash; grant = grant; expires = now + 86400 } ∷ [] in
    let swept = keep (λ (g : Grant). not (leb g.expires now)) held in
    let le = length-evict_times-le (length swept - max_entries) swept in
    (
      omega arith,
      evict_times-All (λ g. now < g.expires) (length swept - max_entries) swept
          (All-map (λ g h. ground arith) swept
            (keep-All (λ (g : Grant). not (leb g.expires now)) held)),
    )
