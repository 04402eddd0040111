-- ===== src/Api/Grants.antt =====
-- internal/api/shares.go: the grants of visitors who gave a share's password.
pub mod Bounded
use xx_drive.Prelude.{
  ℕ, zero, suc, ◌+◌, ◌-◌, Bool, true, false, not, ◌&&◌, ◌||◌, List, [], ◌∷◌, ◌++◌, Option, none,
  some, if◌then◌else◌, ◌==◌, nat_eq, bytes_eq, ltb, leb, length, find, keep,
}
use xx_drive.Prelude.Bytes.{Bytes}
use xx_drive.Store.Rows.{Share}

-- One entry of `pubGr`, which maps token hashes and grants to expiries.
pub record Grant : Type 0 where
  pub token_hash : Bytes
  pub grant : Bytes
  pub expires : ℕ

abbrev pub is_grant : Bytes → Bytes → Grant → Bool
is_grant token_hash grant g = g.token_hash == token_hash && g.grant == grant

-- `shareGrantTTL`, in seconds, and `pubGrantMaxEnts`.
abbrev pub share_grant_ttl : ℕ
share_grant_ttl = 86400

abbrev pub max_entries : ℕ
max_entries = 1024

-- `hasGrant`, with the value of the cookie.
unfoldable pub has_grant : List Grant → Bytes → Option Bytes → ℕ → Bool × List Grant
has_grant gs token_hash cookie now = elim cookie [
  | none ↦ (false, gs)
  | some c ↦ elim (find (is_grant token_hash c) gs) [
    | none ↦ (false, gs)
    | some g ↦
        if ltb g.expires now
        then (false, keep (λ h. not (is_grant token_hash c h)) gs)
        else (true, gs)
  ]
]

-- `sweepGrantsLocked`; maps that become empty are dropped.
unfoldable pub sweep_grants : List Grant → ℕ → List Grant
sweep_grants gs now = keep (λ (g : Grant). not (leb g.expires now)) gs

-- The entry that expires first, the first one found of those that tie.
abbrev pub soonest : List Grant → Option Grant
soonest [] = none
soonest (g ∷ gs) = elim (soonest gs) [
  | none ↦ some g
  | some h ↦ if leb g.expires h.expires then some g else some h
]

-- One round of the loop of `capGrantsLocked`.
abbrev pub evict : List Grant → List Grant
evict gs = elim (soonest gs) [
  | none ↦ gs
  | some v ↦ keep (λ h. not (is_grant v.token_hash v.grant h)) gs
]

abbrev pub evict_times : ℕ → List Grant → List Grant
evict_times zero gs = gs
evict_times (suc n) gs = evict_times n (evict gs)

-- `capGrantsLocked`: as many rounds as there are entries too many.
unfoldable pub cap_grants : List Grant → List Grant
cap_grants gs = evict_times (length gs - max_entries) gs

-- `issueGrant`, with the random grant.
unfoldable pub issue_grant : List Grant → Share → Bytes → ℕ → List Grant
issue_grant gs sh grant now =
    let new : Grant = record {
      token_hash = sh.token_hash;
      grant = grant;
      expires = now + share_grant_ttl;
    } in
    cap_grants (sweep_grants (keep (λ h. not (is_grant sh.token_hash grant h)) gs ++ new ∷ []) now)
