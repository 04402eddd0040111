-- ===== src/Api/Limiter.antt =====
-- internal/api/server.go: `loginAllowed` and `loginFailed`, the limit on failed logins.
pub mod Blocked
use xx_drive.Prelude.{
  ℕ, suc, ◌+◌, ◌*◌, Bool, true, false, not, List, [], ◌∷◌, Option, none, some, if◌then◌else◌, ◌==◌,
  bytes_eq, nat_eq, ltb,
}
use xx_drive.Prelude.Bytes.{Bytes}

-- `rateBucket`; times are in nanoseconds.
pub record RateBucket : Type 0 where
  pub failures : ℕ
  pub window : ℕ

abbrev pub Buckets : Type 0
Buckets = List (Bytes × RateBucket)

abbrev pub bucket : Buckets → Bytes → Option RateBucket
bucket [] key = none
bucket ((k, b) ∷ bs) key = if k == key then some b else bucket bs key

-- delete(s.rate, key)
abbrev pub without_key : Buckets → Bytes → Buckets
without_key [] key = []
without_key ((k, b) ∷ bs) key =
    let rest = without_key bs key in if k == key then rest else (k, b) ∷ rest

-- s.rate[key] = b
abbrev pub with_bucket : Buckets → Bytes → RateBucket → Buckets
with_bucket bs key b = (key, b) ∷ without_key bs key

-- Fifteen minutes.
abbrev pub window_length : ℕ
window_length = 900000000000

-- time.Since(b.window) > 15*time.Minute
abbrev pub is_stale : RateBucket → ℕ → Bool
is_stale b now = ltb (b.window + window_length) now

-- `loginAllowed`
unfoldable pub login_allowed : Buckets → Bytes → ℕ → Bool × Buckets
login_allowed bs key now = elim (bucket bs key) [
  | none ↦ (true, bs)
  | some b ↦ if is_stale b now then (true, without_key bs key) else (ltb b.failures 10, bs)
]

-- `loginFailed`
unfoldable pub login_failed : Buckets → Bytes → ℕ → Buckets
login_failed bs key now = elim (bucket bs key) [
  | none ↦ with_bucket bs key (record { failures = 1; window = now })
  | some b ↦
      if is_stale b now
      then with_bucket bs key (record { failures = 1; window = now })
      else with_bucket bs key (record b { failures = suc b.failures })
]
