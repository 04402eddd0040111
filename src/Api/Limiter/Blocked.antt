-- ===== src/Api/Limiter/Blocked.antt =====
-- Ten failures in a window block the key until the window is over.
use xx_drive.Prelude.{
  ℕ, suc, ◌+◌, ◌≤◌, ◌≡◌, ◌≢◌, refl, sym, ap, ◌∙◌, false, ◌||◌, List, [], ◌∷◌, none, some, bytes_eq,
  arith, length, All, ltb, inl, inr, Bool-cases, Option-cases,
}
use xx_drive.Prelude.Bytes.{Bytes}
use xx_drive.Api.Limiter.{
  RateBucket, Buckets, bucket, without_key, with_bucket, window_length, is_stale, login_allowed,
  login_failed,
}

bucket-with_bucket :
    (bs : Buckets) (key : Bytes) (b : RateBucket) → bucket (with_bucket bs key b) key ≡ some b
bucket-with_bucket bs key b = ground arith

bucket-without_key_other :
    (bs : Buckets) (key other : Bytes)
    → key ≢ other
    → bucket (without_key bs key) other ≡ bucket bs other
bucket-without_key_other [] key other ne = refl
bucket-without_key_other ((k, b) ∷ bs) key other ne =
    ground (arith, bucket-without_key_other bs key other ne)

bucket-with_bucket_other :
    (bs : Buckets) (key other : Bytes) (b : RateBucket)
    → key ≢ other
    → bucket (with_bucket bs key b) other ≡ bucket bs other
bucket-with_bucket_other bs key other b ne =
    ground (arith, bucket-without_key_other bs key other ne)

-- Failures of one key at the given times, one after the other.
abbrev pub fail_all : Buckets → Bytes → List ℕ → Buckets
fail_all bs key [] = bs
fail_all bs key (t ∷ ts) = fail_all (login_failed bs key t) key ts

login_failed-bucket :
    (bs : Buckets) (key : Bytes) (n window now : ℕ)
    → bucket bs key ≡ some (record { failures = n; window = window })
    → now ≤ window + window_length
    → bucket (login_failed bs key now) key ≡ some (record { failures = suc n; window = window })
unfolding login_failed
login_failed-bucket bs key n window now e h =
    let fresh : ltb (window + window_length) now ≡ false = ground arith in
    rw (login_failed, e, fresh)
      (bucket-with_bucket bs key (record { failures = suc n; window = window }))

fail_all-bucket :
    (bs : Buckets) (key : Bytes) (n window : ℕ) (ts : List ℕ)
    → bucket bs key ≡ some (record { failures = n; window = window })
    → All (λ t. t ≤ window + window_length) ts
    → bucket (fail_all bs key ts) key ≡ some (record { failures = n + length ts; window = window })
fail_all-bucket bs key n window [] e _ =
    e ∙ ap (λ m. some (record { failures = m; window = window })) (omega arith)
fail_all-bucket bs key n window (t ∷ ts) e (h, hs) =
    fail_all-bucket (login_failed bs key t) key (suc n) window ts
      (login_failed-bucket bs key n window t e h) hs
    ∙ ap (λ m. some (record { failures = m; window = window })) (omega arith)

login_failed-other :
    (bs : Buckets) (key other : Bytes) (now : ℕ)
    → key ≢ other
    → bucket (login_failed bs key now) other ≡ bucket bs other
unfolding login_failed
login_failed-other bs key other now ne = elim (Option-cases (bucket bs key)) [
  | inl new ↦ rw (login_failed, new) (bucket-with_bucket_other bs key other _ ne)
  | inr (b, known) ↦ elim (Bool-cases (is_stale b now)) [
    | inl stale ↦ rw (login_failed, known, stale) (bucket-with_bucket_other bs key other _ ne)
    | inr fresh ↦ rw (login_failed, known, fresh) (bucket-with_bucket_other bs key other _ ne)
  ]
]

fail_all-other :
    (bs : Buckets) (key other : Bytes) (ts : List ℕ)
    → key ≢ other
    → bucket (fail_all bs key ts) other ≡ bucket bs other
fail_all-other bs key other [] ne = refl
fail_all-other bs key other (t ∷ ts) ne =
    fail_all-other (login_failed bs key t) key other ts ne ∙ login_failed-other bs key other t ne

login_allowed-bucket :
    (bs : Buckets) (key : Bytes) (now : ℕ) (b : RateBucket)
    → bucket bs key ≡ some b
    → (login_allowed bs key now).0 ≡ (is_stale b now || ltb b.failures 10)
unfolding login_allowed
login_allowed-bucket bs key now b e = elim (Bool-cases (is_stale b now)) [
  | inl stale ↦ rw (login_allowed, e, stale) refl
  | inr fresh ↦ rw (login_allowed, e, fresh) refl
]

login_failed-first :
    (bs : Buckets) (key : Bytes) (now : ℕ)
    → bucket bs key ≡ none
    → bucket (login_failed bs key now) key ≡ some (record { failures = 1; window = now })
unfolding login_failed
login_failed-first bs key now e =
    rw (login_failed, e) (bucket-with_bucket bs key (record { failures = 1; window = now }))

login_allowed-same :
    (bs bs' : Buckets) (key : Bytes) (now : ℕ)
    → bucket bs key ≡ bucket bs' key
    → (login_allowed bs key now).0 ≡ (login_allowed bs' key now).0
unfolding login_allowed
login_allowed-same bs bs' key now e = elim (Option-cases (bucket bs' key)) [
  | inl new ↦ rw (login_allowed, e, new) refl
  | inr (b, known) ↦
      login_allowed-bucket bs key now b (e ∙ known) ∙ sym (login_allowed-bucket bs' key now b known)
]

-- A key without failures that fails at a first time and then, within fifteen minutes of it, at a list
-- of others is blocked until the fifteen minutes are over exactly if these are ten failures or more,
-- and is allowed again after them. Other keys are allowed or blocked as before.
pub login_allowed-fail_all :
    (bs : Buckets) (key : Bytes) (first now : ℕ) (ts : List ℕ)
    → bucket bs key ≡ none
    → All (λ t. t ≤ first + window_length) ts
    → ((login_allowed (fail_all bs key (first ∷ ts)) key now).0
        ≡ (ltb (first + window_length) now || ltb (suc (length ts)) 10))
      × ((other : Bytes)
          → key ≢ other
          → (login_allowed (fail_all bs key (first ∷ ts)) other now).0
            ≡ (login_allowed bs other now).0)
login_allowed-fail_all bs key first now ts e h = (
  login_allowed-bucket (fail_all bs key (first ∷ ts)) key now
      (record { failures = suc (length ts); window = first })
      (fail_all-bucket (login_failed bs key first) key 1 first ts
          (login_failed-first bs key first e) h
        ∙ ap (λ m. some (record { failures = m; window = first })) (omega arith)),
  λ other ne.
      login_allowed-same (fail_all bs key (first ∷ ts)) bs other now
        (fail_all-other bs key other (first ∷ ts) ne),
)
