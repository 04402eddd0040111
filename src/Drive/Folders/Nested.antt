-- ===== src/Drive/Folders/Nested.antt =====
-- A folder that is copied into itself.
use xx_drive.Prelude.{
  ℕ, zero, suc, Bool, true, false, not, ◌&&◌, ◌≡◌, ◌≢◌, refl, sym, ap, ◌∙◌, inl, inr, [], ◌∷◌, ◌++◌,
  append_assoc, append-nil, none, some, ◌==◌, nat_eq, bytes_eq, arith, Bool-cases, Option-cases,
}
use xx_drive.Prelude.Bytes.{Bytes}
use xx_drive.Filepath.{slash}
use xx_drive.Filepath.Segments.{Lacks}
use xx_drive.Filepath.Children.{append-ne-nil}
use xx_drive.Disk.{folder, Disk, strip, tree_at, node_at, enter, make_dirs, make_all}
use xx_drive.Disk.Strip.{strip-append, strip_sound}
use xx_drive.Disk.Rename.{strip_self, at_root, node_at-tree}
use xx_drive.Disk.Nodes.{AllRoot, AllRoot-head, AllRoot-tail}
use xx_drive.Drive.Trash.Purge.{names_in}
use xx_drive.Drive.Folders.{copy_tree}

-- All the directories that os.MkdirAll of the path passes are there.
abbrev pub Standing : Disk → Bytes → Bytes → Type 0
Standing d pre [] = node_at d pre ≡ some folder
Standing d pre (c ∷ s) =
    ((c == slash && not (pre == [])) ≡ true → node_at d pre ≡ some folder)
    × Standing d (pre ++ c ∷ []) s

folder-cons :
    (d : Disk) (k q : Bytes) → node_at d q ≡ some folder → node_at ((k, folder) ∷ d) q ≡ some folder
folder-cons d k q h = ground arith

Standing-cons : (d : Disk) (k pre s : Bytes) → Standing d pre s → Standing ((k, folder) ∷ d) pre s
Standing-cons d k pre [] h = folder-cons d k pre h
Standing-cons d k pre (c ∷ s) (h, hs) =
    (λ e. folder-cons d k pre (h e), Standing-cons d k (pre ++ c ∷ []) s hs)

make_dirs_plain :
    (d : Disk) (pre name : Bytes) → Lacks slash name → make_dirs d pre name ≡ enter d (pre ++ name)
make_dirs_plain d pre [] h = rw append-nil refl
make_dirs_plain d pre (c ∷ name) h =
    let ih = make_dirs_plain d (pre ++ c ∷ []) name (ground arith) in
    let place = append_assoc pre (c ∷ []) name in
    let other : (c == slash) ≡ false = ground arith in
    rw (make_dirs, other) (ih ∙ ap (enter d) place)

-- Below a directory that stands, os.MkdirAll makes the last directory only.
make_dirs-below :
    (d : Disk) (pre s name : Bytes)
    → pre ++ s ≢ []
    → Lacks slash name
    → Standing d pre s
    → make_dirs d pre (s ++ slash ∷ name) ≡ enter d ((pre ++ s) ++ slash ∷ name)
make_dirs-below d pre [] name ne h stands =
    let deeper = make_dirs_plain d (pre ++ slash ∷ []) name h in
    let place = append_assoc pre (slash ∷ []) name in
    let whole = append-nil pre in
    let ne' : pre ≢ [] = λ e. ne (whole ∙ e) in rw whole (ground arith)
make_dirs-below d pre (c ∷ s) name ne h (here, stands) =
    let place = append_assoc pre (c ∷ []) s in
    let ih = make_dirs-below d (pre ++ c ∷ []) s name (λ e. ne (sym place ∙ e)) h stands in
    elim (Bool-cases (c == slash && not (pre == []))) [
      | inl passes ↦ let stood = here passes in ground arith
      | inr goes_on ↦ ground arith
    ]

Standing-below :
    (d : Disk) (pre s name : Bytes)
    → Lacks slash name
    → Standing d pre s
    → node_at d ((pre ++ s) ++ slash ∷ name) ≡ some folder
    → Standing d pre (s ++ slash ∷ name)
Standing-below d pre [] name h stands there = (
  λ e. stands,
  last (pre ++ slash ∷ []) name h
      (rw (append_assoc pre (slash ∷ []) name) (rw (append-nil pre) at there)),
)
  where
    last : (q n : Bytes) → Lacks slash n → node_at d (q ++ n) ≡ some folder → Standing d q n
    last q [] k t = rw (append-nil q) at t
    last q (c ∷ n) k t =
        let other : (c == slash) ≡ false = ground arith in
        (
          λ e. absurd (ground arith),
          last (q ++ c ∷ []) n (ground arith) (rw (append_assoc q (c ∷ []) n) t),
        )
Standing-below d pre (c ∷ s) name h (here, stands) there = (
  here,
  Standing-below d (pre ++ c ∷ []) s name h stands (rw (append_assoc pre (c ∷ []) s) there),
)

-- An empty folder, with all the directories above it.
pub record IsEmptyFolder (d : Disk) (p : Bytes) : Type 0 where
  pub standing : Standing d [] p
  pub alone : tree_at d p ≡ ([], folder) ∷ []

names_in_of_alone : (d : Disk) (p : Bytes) → AllRoot (tree_at d p) → names_in d p ≡ []
names_in_of_alone [] p h = refl
names_in_of_alone ((k, n) ∷ d) p h = elim (Option-cases (strip p k)) [
  | inl out ↦ let ih = names_in_of_alone d p (AllRoot-tail k n d p out h) in ground arith
  | inr (t, inside) ↦
      let (top, rest) = AllRoot-head k n d p t inside h in
      let ih = names_in_of_alone d p rest in ground arith
]

strip-below :
    (p name k : Bytes) {t : Bytes}
    → strip (p ++ slash ∷ name) k ≡ some t
    → (u : Bytes) × (strip p k ≡ some (slash ∷ u))
strip-below p name k {t} e =
    let (same, tail) = strip_sound (p ++ slash ∷ name) k {t = t} e in
    (
      name ++ t,
      rw (same, append_assoc p (slash ∷ name) t)
          (strip-append p (slash ∷ (name ++ t)) (inr (name ++ t, refl))),
    )

tree_at-below :
    (d : Disk) (p name : Bytes) → AllRoot (tree_at d p) → tree_at d (p ++ slash ∷ name) ≡ []
tree_at-below [] p name h = refl
tree_at-below ((k, n) ∷ d) p name h = elim (Option-cases (strip p k)) [
  | inl out ↦
      let ih = tree_at-below d p name (AllRoot-tail k n d p out h) in
      elim (Option-cases (strip (p ++ slash ∷ name) k)) [
        | inl away ↦ ground arith
        | inr (t, inside) ↦ let (u, e) = strip-below p name k inside in absurd (ground arith)
      ]
  | inr (t, inside) ↦
      let (top, rest) = AllRoot-head k n d p t inside h in
      let ih = tree_at-below d p name rest in
      elim (Option-cases (strip (p ++ slash ∷ name) k)) [
        | inl away ↦ ground arith
        | inr (s, deep) ↦ let (u, e) = strip-below p name k deep in absurd (ground arith)
      ]
]

module _ (fails : Bytes → Bool) (works : (p : Bytes) → fails p ≡ false) (c : ℕ) (rest : Bytes)
    (plain : Lacks slash (c ∷ rest)) where
  -- The copy of an empty folder into itself never ends: whatever depth the walk is given, it uses it
  -- up, since it finds the folder that it has just made.
  pub copy_tree_diverges :
      (fuel : ℕ) (d : Disk) (p : Bytes)
      → p ≢ []
      → IsEmptyFolder d p
      → copy_tree fails fuel d p (p ++ slash ∷ (c ∷ rest)) ≡ none
  unfolding copy_tree
  copy_tree_diverges zero d p ne e = refl
  copy_tree_diverges (suc fuel) d p ne e =
      let name = c ∷ rest in
      let q = p ++ slash ∷ name in
      let ok_here = works q in
      let here : node_at d p ≡ some folder = node_at-tree d p ∙ ap at_root e.alone ∙ ground arith in
      let root_only : AllRoot (tree_at d p) = rw e.alone (refl, tt) in
      let empty = tree_at-below d p name root_only in
      let new : node_at d q ≡ none = node_at-tree d q ∙ ap at_root empty in
      let made : make_all d q ≡ some ((q, folder) ∷ d) =
        make_dirs-below d [] p name ne plain e.standing ∙ ground arith in
      let below = strip-append p (slash ∷ name) (inr (name, refl)) in
      let names : names_in ((q, folder) ∷ d) p ≡ name ∷ [] =
        let nothing = names_in_of_alone d p root_only in ground arith in
      let next : IsEmptyFolder ((q, folder) ∷ d) q = record {
        standing =
            Standing-below ((q, folder) ∷ d) [] p name plain (Standing-cons d q [] p e.standing)
              (ground arith);
        alone = ground (arith, strip_self q);
      } in
      let ih =
        copy_tree_diverges fuel ((q, folder) ∷ d) q (append-ne-nil p (slash ∷ name) (λ z. cc))
          next in
      rw (copy_tree, here, ok_here, made, names, ih) refl
