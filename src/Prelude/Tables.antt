-- ===== src/Prelude/Tables.antt =====
-- Lists of rows: no two rows that agree on a key, and what inserts, deletes and updates keep of it.
use Prim.Native.Nat.{ℕ}
use mathlib.Core.Path.{◌≡◌, refl, ap}
use mathlib.Core.Bool.{Bool, true, false, not, ◌||◌, cond}
use mathlib.Core.Option.{none, some}
use mathlib.Core.List.{List, [], ◌∷◌, ◌++◌}
use native.Mathlib.Omega.{arith}
use mathlib.Core.Logic.{inl, inr}
use xx_drive.Prelude.Tests.{Bool-cases, ltb}
use xx_drive.Prelude.Lists.{any, find, keep, All, All-keep, All-append}

module _ {ℓ κ μ} {A : Type ℓ} {P : A → Type κ} {Q : A → Type μ} where
  pub All-map : (f : (x : A) → P x → Q x) (xs : List A) → All P xs → All Q xs
  All-map f [] _ = tt
  All-map f (x ∷ xs) (p, ps) = (f x p, All-map f xs ps)

module _ {ℓ} {A : Type ℓ} where
  pub any-none : (p : A → Bool) (xs : List A) → any p xs ≡ false → All (λ x. p x ≡ false) xs
  any-none p [] _ = tt
  any-none p (x ∷ xs) h = (ground arith, any-none p xs (ground arith))

  pub find-none : (p : A → Bool) (xs : List A) → find p xs ≡ none → any p xs ≡ false
  find-none p [] _ = refl
  find-none p (x ∷ xs) e = ground (arith, find-none p xs)

  pub find-some : (p : A → Bool) (xs : List A) {x : A} → find p xs ≡ some x → p x ≡ true
  find-some p [] e = cc
  find-some p (y ∷ ys) {x} e = ground (arith, find-some p ys {x = x})

  pub find-any : (p : A → Bool) (xs : List A) {x : A} → find p xs ≡ some x → any p xs ≡ true
  find-any p [] e = cc
  find-any p (y ∷ ys) {x} e = ground (arith, find-any p ys {x = x})

  pub keep-All : (p : A → Bool) (xs : List A) → All (λ x. p x ≡ true) (keep p xs)
  keep-All p [] = tt
  keep-All p (x ∷ xs) = ground (arith, keep-All p xs)

  -- UPDATE … SET … WHERE
  abbrev pub update : (A → Bool) → (A → A) → List A → List A
  update p f [] = []
  update p f (x ∷ xs) = cond (p x) (f x) x ∷ update p f xs

  -- ORDER BY … DESC: of two rows that tie, the one inserted first comes first, one of the orders that
  -- the database may choose.
  abbrev pub insert_by_desc : (A → ℕ) → A → List A → List A
  insert_by_desc key x [] = x ∷ []
  insert_by_desc key x (y ∷ ys) =
      let rest = y ∷ insert_by_desc key x ys in cond (ltb (key x) (key y)) rest (x ∷ y ∷ ys)

  abbrev pub sort_by_desc : (A → ℕ) → List A → List A
  sort_by_desc key [] = []
  sort_by_desc key (x ∷ xs) = insert_by_desc key x (sort_by_desc key xs)

  -- A search whose rows all survive a deletion finds the same row after it.
  pub find-keep :
      (p q : A → Bool) (xs : List A)
      → ((x : A) → p x ≡ true → q x ≡ true)
      → find p (keep q xs) ≡ find p xs
  find-keep p q [] h = refl
  find-keep p q (x ∷ xs) h = ground (arith, h x, find-keep p q xs h)

  -- A search that meets no deleted row finds none.
  pub find-keep-none :
      (p q : A → Bool) (xs : List A)
      → ((x : A) → p x ≡ true → q x ≡ false)
      → find p (keep q xs) ≡ none
  find-keep-none p q [] h = refl
  find-keep-none p q (x ∷ xs) h = ground (arith, h x, find-keep-none p q xs h)

  pub find-append :
      (p : A → Bool) (xs ys : List A) → any p xs ≡ false → find p (xs ++ ys) ≡ find p ys
  find-append p [] ys _ = refl
  find-append p (x ∷ xs) ys h = ground (arith, find-append p xs ys)

  pub any-snoc : (p : A → Bool) (xs : List A) (y : A) → p y ≡ true → any p (xs ++ y ∷ []) ≡ true
  any-snoc p [] y h = ground arith
  any-snoc p (x ∷ xs) y h = ground (arith, any-snoc p xs y h)

  pub any-keep :
      (p : A → Bool) (q : A → Bool) (xs : List A) → any p xs ≡ false → any p (keep q xs) ≡ false
  any-keep p q [] h = refl
  any-keep p q (x ∷ xs) h = ground (arith, any-keep p q xs)

  -- A deletion leaves a selection alone if it takes none of its rows.
  pub keep-nothing :
      (p q : A → Bool) (xs : List A)
      → ((x : A) → p x ≡ true → q x ≡ false)
      → keep p (keep q xs) ≡ []
  keep-nothing p q [] h = refl
  keep-nothing p q (x ∷ xs) h = ground (arith, h x, keep-nothing p q xs h)

  pub keep-all : (xs : List A) → keep (λ x. true) xs ≡ xs
  keep-all [] = refl
  keep-all (x ∷ xs) = ap (λ r. x ∷ r) (keep-all xs)

  pub keep-not_or :
      (p q : A → Bool) (xs : List A)
      → keep (λ x. not (q x)) (keep (λ x. not (p x)) xs) ≡ keep (λ x. not (p x || q x)) xs
  keep-not_or p q [] = refl
  keep-not_or p q (x ∷ xs) = ground (arith, keep-not_or p q xs)

  pub keep-append : (p : A → Bool) (xs ys : List A) → keep p (xs ++ ys) ≡ keep p xs ++ keep p ys
  keep-append p [] ys = refl
  keep-append p (x ∷ xs) ys = ground (arith, keep-append p xs ys)

  pub keep-keep :
      (p q : A → Bool) (xs : List A)
      → ((x : A) → p x ≡ true → q x ≡ true)
      → keep p (keep q xs) ≡ keep p xs
  keep-keep p q [] h = refl
  keep-keep p q (x ∷ xs) h = ground (arith, h x, keep-keep p q xs h)

  module _ {κ} (P : A → Type κ) where
    pub All-update :
        (p : A → Bool) (f : A → A) (xs : List A)
        → ((x : A) → P x → P (f x))
        → All P xs
        → All P (update p f xs)
    All-update p f [] h _ = tt
    All-update p f (x ∷ xs) h (k, ks) = ground (arith, h x k, All-update p f xs h ks)

  -- `same` tells whether two rows agree on a key.
  module _ (same : A → A → Bool) where
    abbrev pub Distinct : List A → Type 0
    Distinct [] = Unit
    Distinct (x ∷ xs) = All (λ y. same x y ≡ false) xs × Distinct xs

    pub Distinct-snoc :
        (xs : List A) (y : A)
        → Distinct xs
        → All (λ x. same x y ≡ false) xs
        → Distinct (xs ++ y ∷ [])
    Distinct-snoc [] y _ _ = (tt, tt)
    Distinct-snoc (x ∷ xs) y (d, ds) (h, hs) =
        (All-append (λ z. same x z ≡ false) xs (y ∷ []) d (h, tt), Distinct-snoc xs y ds hs)

    pub Distinct-keep : (p : A → Bool) (xs : List A) → Distinct xs → Distinct (keep p xs)
    Distinct-keep p [] _ = tt
    Distinct-keep p (x ∷ xs) (d, ds) =
        ground (arith, Distinct-keep p xs ds, All-keep (λ z. same x z ≡ false) p xs d)

    All-same-update :
        (p : A → Bool) (f : A → A) (x : A) (xs : List A)
        → ((y z : A) → same y (f z) ≡ same y z)
        → All (λ y. same x y ≡ false) xs
        → All (λ y. same x y ≡ false) (update p f xs)
    All-same-update p f x [] h _ = tt
    All-same-update p f x (y ∷ ys) h (k, ks) = ground (arith, h x y, All-same-update p f x ys h ks)

    All-update_same :
        (f : A → A) (x : A) (xs : List A)
        → ((y z : A) → same (f y) z ≡ same y z)
        → All (λ y. same x y ≡ false) xs
        → All (λ y. same (f x) y ≡ false) xs
    All-update_same f x [] h _ = tt
    All-update_same f x (y ∷ ys) h (k, ks) = (ground (arith, h x y), All-update_same f x ys h ks)

    -- An update that leaves the key alone keeps the rows apart.
    pub Distinct-update :
        (p : A → Bool) (f : A → A) (xs : List A)
        → ((y z : A) → same (f y) z ≡ same y z)
        → ((y z : A) → same y (f z) ≡ same y z)
        → Distinct xs
        → Distinct (update p f xs)
    Distinct-update p f [] h k _ = tt
    Distinct-update p f (x ∷ xs) h k (d, ds) =
        let far = All-same-update p f x xs k d in
        let rest = Distinct-update p f xs h k ds in
        elim (Bool-cases (p x)) [
          | inl hit ↦ rw hit (All-update_same f x (update p f xs) h far, rest)
          | inr passed ↦ rw passed (far, rest)
        ]
