-- ===== src/Store/Like/Subtree.antt =====
-- Which paths the queries for a subtree select.
use xx_drive.Prelude.{
  ℕ, Bool, true, false, ◌&&◌, ◌≡◌, refl, ap, ◌∙◌, ◌↔◌, ◌⊎◌, inl, inr, [], ◌∷◌, ◌++◌, map, ◌==◌,
  nat_eq, bytes_eq, ℕ_discrete, arith, Bool-cases,
}
use xx_drive.Prelude.Bytes.{Bytes}
use xx_drive.Filepath.{slash}
use xx_drive.Store.Like.{escape_like, is_special, percent, fold, is_under, IsLike}

-- The texts agree but for the case of ASCII letters.
abbrev pub SameFolded : Bytes → Bytes → Type 0
SameFolded s t = map fold s ≡ map fold t

fold-slash : (d : ℕ) → (fold d == fold slash && true) ≡ (d == slash)
fold-slash d = ground arith

slash-plain : is_special slash ≡ false
unfolding ℕ_discrete
slash-plain = refl

slash-slash : (slash == slash) ≡ true
unfolding ℕ_discrete
slash-slash = refl

module _ (like : Bytes → Bytes → Bool) (laws : IsLike like) where
  like-percent : (s : Bytes) → like (percent ∷ []) s ≡ true
  like-percent [] = laws.wildcard_none
  like-percent (c ∷ s) = laws.wildcard_all c s ∙ like-percent s

  like-cons :
      (c d : ℕ) (root s : Bytes)
      → like (escape_like (c ∷ root) ++ slash ∷ percent ∷ []) (d ∷ s)
        ≡ (fold d == fold c && like (escape_like root ++ slash ∷ percent ∷ []) s)
  unfolding escape_like
  like-cons c d root s = elim (Bool-cases (is_special c)) [
    | inl special ↦ rw special (laws.escaped c d (escape_like root ++ slash ∷ percent ∷ []) s)
    | inr plain ↦ rw plain (laws.plain c d (escape_like root ++ slash ∷ percent ∷ []) s plain)
  ]

  like-cons_end :
      (c : ℕ) (root : Bytes) → like (escape_like (c ∷ root) ++ slash ∷ percent ∷ []) [] ≡ false
  unfolding escape_like
  like-cons_end c root = elim (Bool-cases (is_special c)) [
    | inl special ↦ rw special (laws.escaped_end c (escape_like root ++ slash ∷ percent ∷ []))
    | inr plain ↦ rw plain (laws.plain_end c (escape_like root ++ slash ∷ percent ∷ []) plain)
  ]

  like-slash : (d : ℕ) (s : Bytes) → like (slash ∷ percent ∷ []) (d ∷ s) ≡ (d == slash)
  like-slash d s =
      laws.plain slash d (percent ∷ []) s slash-plain
      ∙ ap (λ b. fold d == fold slash && b) (like-percent s)
      ∙ fold-slash d

  -- A match of the pattern splits into a folded copy of the root, and a tail.
  like_sound :
      (root s : Bytes)
      → like (escape_like root ++ slash ∷ percent ∷ []) s ≡ true
      → (q t : Bytes) × (s ≡ q ++ slash ∷ t) × SameFolded q root
  like_sound [] [] h =
      let end = laws.plain_end slash (percent ∷ []) slash-plain in unfold escape_like in cc
  like_sound [] (d ∷ s) h =
      let hit = like-slash d s in ([], s, unfold escape_like in ground arith, refl)
  like_sound (c ∷ root) [] h = let end = like-cons_end c root in cc
  like_sound (c ∷ root) (d ∷ s) h =
      let step = like-cons c d root s in
      let (q, t, split, same) = like_sound root s (ground arith) in
      (d ∷ q, t, ground arith, ground arith)

  like_complete :
      (root q t : Bytes)
      → SameFolded q root
      → like (escape_like root ++ slash ∷ percent ∷ []) (q ++ slash ∷ t) ≡ true
  like_complete [] [] t same = unfold escape_like in (like-slash slash t ∙ slash-slash)
  like_complete [] (d ∷ q) t same = cc
  like_complete (c ∷ root) [] t same = cc
  like_complete (c ∷ root) (d ∷ q) t same =
      let rest = like_complete root q t (ground arith) in
      like-cons c d root (q ++ slash ∷ t) ∙ ground arith

  -- The queries for a subtree select the root, and exactly the paths that are, but for the case of
  -- ASCII letters, the root followed by a slash. Percent signs, underscores and backslashes in the
  -- root stand for themselves. LIKE behaves as the database documents it.
  pub is_under_iff :
      (root path : Bytes)
      → (is_under like root path ≡ true)
        ↔ ((path ≡ root) ⊎ ((q t : Bytes) × (path ≡ q ++ slash ∷ t) × SameFolded q root))
  is_under_iff root path = (only, back)
    where
      only :
          is_under like root path ≡ true
          → (path ≡ root) ⊎ ((q t : Bytes) × (path ≡ q ++ slash ∷ t) × SameFolded q root)
      only h = elim (Bool-cases (path == root)) [
        | inl same ↦ inl (ground arith)
        | inr other ↦ inr (like_sound root path (ground arith))
      ]

      back :
          (path ≡ root) ⊎ ((q t : Bytes) × (path ≡ q ++ slash ∷ t) × SameFolded q root)
          → is_under like root path ≡ true
      back (inl same) = ground arith
      back (inr (q, t, split, same)) = let hit = like_complete root q t same in ground arith
