-- ===== src/Client/Dict.antt =====
-- Go maps with texts as keys.
use xx_drive.Prelude.{
  ◌≡◌, List, [], ◌∷◌, Option, none, some, if◌then◌else◌, ◌==◌, bytes_eq, arith, Bool-cases, inl,
  inr,
}
use xx_drive.Prelude.Bytes.{Bytes}

module _ {ℓ} {V : Type ℓ} where
  abbrev pub lookup : Bytes → List (Bytes × V) → Option V
  lookup k [] = none
  lookup k ((j, v) ∷ m) = if j == k then some v else lookup k m

  abbrev pub erase : Bytes → List (Bytes × V) → List (Bytes × V)
  erase k [] = []
  erase k ((j, v) ∷ m) = let rest = erase k m in if j == k then rest else (j, v) ∷ rest

  abbrev pub insert : Bytes → V → List (Bytes × V) → List (Bytes × V)
  insert k v m = (k, v) ∷ erase k m

  pub lookup-erase :
      (k j : Bytes) (m : List (Bytes × V))
      → lookup j (erase k m) ≡ (if k == j then none else lookup j m)
  lookup-erase k j [] = ground arith
  lookup-erase k j ((i, v) ∷ m) = elim (Bool-cases (i == k)) [
    | inl here ↦ ground (arith, lookup-erase k j m)
    | inr other ↦ ground (arith, lookup-erase k j m)
  ]

  pub lookup-insert :
      (k j : Bytes) (v : V) (m : List (Bytes × V))
      → lookup j (insert k v m) ≡ (if k == j then some v else lookup j m)
  lookup-insert k j v m = ground (arith, lookup-erase k j m)
