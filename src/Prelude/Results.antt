-- ===== src/Prelude/Results.antt =====
-- The pair (value, error) of a Go function.
use mathlib.Core.Bool.{Bool, cond}
use mathlib.Core.Logic.{inl, inr, ◌⊎◌}
use mathlib.Core.Path.{refl, ◌≡◌}

-- The sentinel errors of packages fsdrv and store; `other` is any error that is none of them.
pub data Error : Type 0 where
  not_found exists invalid not_empty too_large conflict disabled other : Error

-- Either the error is set, or the value counts.
pub data Result {κ} (V : Type κ) : Type κ where
  err : Error → Result V
  ok : V → Result V

-- `if err != nil { return err }`
infixl 5 ◌>>=◌ ◌>>◌
abbrev pub ◌>>=◌ {κ μ} : {V : Type κ} {W : Type μ} → Result V → (V → Result W) → Result W
first >>= more = elim first [ err e ↦ err e | ok v ↦ more v ]

abbrev pub ◌>>◌ {μ} : {W : Type μ} → Result (Unit {0}) → Result W → Result W
first >> more = first >>= (λ done. more)

-- An early return of an error, unless the test holds.
abbrev pub require : Bool → Error → Result (Unit {0})
require test e = cond test (ok tt) (err e)

pub Result-cases {κ} :
    {V : Type κ} (r : Result V) → ((v : V) × (r ≡ ok v)) ⊎ ((e : Error) × (r ≡ err e))
Result-cases (ok v) = inl (v, refl)
Result-cases (err e) = inr (e, refl)
