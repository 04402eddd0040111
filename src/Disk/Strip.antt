-- ===== src/Disk/Strip.antt =====
-- Paths of which neither is in the other.
use xx_drive.Prelude.{
  ℕ, ◌≡◌, ◌≢◌, refl, ◌⊎◌, inl, inr, [], ◌∷◌, ◌++◌, none, some, ◌==◌, nat_eq, arith, Bool-cases,
}
use xx_drive.Prelude.Bytes.{Bytes}
use xx_drive.Filepath.{slash}
use xx_drive.Filepath.Canonical.{IsTail}
use xx_drive.Disk.{strip}

-- Nothing is in both.
abbrev pub Apart : Bytes → Bytes → Type 0
Apart p q = (k : Bytes) → (strip p k ≡ none) ⊎ (strip q k ≡ none)

pub Apart-sym : (p q : Bytes) → Apart p q → Apart q p
Apart-sym p q a k = elim (a k) [ inl h ↦ inr h | inr h ↦ inl h ]

pub strip-append : (p t : Bytes) → IsTail t → strip p (p ++ t) ≡ some t
strip-append [] t (inl e) = rw e refl
strip-append [] t (inr (u, e)) = rw e (ground arith)
strip-append (c ∷ p) t tail = ground (arith, strip-append p t tail)

-- What is stripped is a tail.
pub strip_sound : (p k : Bytes) {t : Bytes} → strip p k ≡ some t → (k ≡ p ++ t) × IsTail t
strip_sound [] [] {t} e = (ground arith, inl (ground arith))
strip_sound [] (c ∷ s) {t} e = elim (Bool-cases (c == slash)) [
  | inl here ↦ (ground arith, inr (s, ground arith))
  | inr other ↦ absurd (ground arith)
]
strip_sound (c ∷ p) [] e = cc
strip_sound (c ∷ p) (d ∷ s) {t} e =
    let (same, tail) = strip_sound p s {t = t} (ground arith) in (ground arith, tail)

-- Paths that part at a byte.
pub Apart-append :
    (pre : Bytes) (c d : ℕ) (s t : Bytes) → c ≢ d → Apart (pre ++ c ∷ s) (pre ++ d ∷ t)
Apart-append [] c d s t ne [] = inl refl
Apart-append [] c d s t ne (x ∷ k) = elim (Bool-cases (c == x)) [
  | inl same ↦ inr (ground arith)
  | inr other ↦ inl (ground arith)
]
Apart-append (a ∷ pre) c d s t ne [] = inl refl
Apart-append (a ∷ pre) c d s t ne (x ∷ k) = elim (Bool-cases (a == x)) [
  | inl same ↦ elim (Apart-append pre c d s t ne k) [
    | inl h ↦ inl (ground arith)
    | inr h ↦ inr (ground arith)
  ]
  | inr other ↦ inl (ground arith)
]

-- A longer name in the same directory.
pub Apart-longer : (p : Bytes) (c : ℕ) (s : Bytes) → c ≢ slash → Apart p (p ++ c ∷ s)
Apart-longer [] c s ne [] = inr refl
Apart-longer [] c s ne (x ∷ k) = elim (Bool-cases (x == slash)) [
  | inl same ↦ inr (ground arith)
  | inr other ↦ inl (ground arith)
]
Apart-longer (a ∷ p) c s ne [] = inl refl
Apart-longer (a ∷ p) c s ne (x ∷ k) = elim (Bool-cases (a == x)) [
  | inl same ↦ elim (Apart-longer p c s ne k) [
    | inl h ↦ inl (ground arith)
    | inr h ↦ inr (ground arith)
  ]
  | inr other ↦ inl (ground arith)
]

-- What is apart from a directory is apart from all in it.
pub strip-deeper : (q t k : Bytes) → strip q k ≡ none → strip (q ++ slash ∷ t) k ≡ none
strip-deeper [] t [] e = refl
strip-deeper [] t (x ∷ k) e = elim (Bool-cases (x == slash)) [
  | inl same ↦ absurd (ground arith)
  | inr other ↦ ground arith
]
strip-deeper (c ∷ q) t [] e = refl
strip-deeper (c ∷ q) t (x ∷ k) e = elim (Bool-cases (c == x)) [
  | inl same ↦ ground (arith, strip-deeper q t k)
  | inr other ↦ ground arith
]

pub Apart-deeper : (p q t : Bytes) → Apart p q → Apart p (q ++ slash ∷ t)
Apart-deeper p q t a k = elim (a k) [ inl h ↦ inl h | inr h ↦ inr (strip-deeper q t k h) ]
