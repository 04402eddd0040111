-- ===== src/Disk/Rename.antt =====
-- What the calls of package os do to the trees at the paths that they are given, and at others.
use xx_drive.Prelude.{
  ℕ, true, false, not, ◌&&◌, append-nil, append_assoc, ◌≡◌, refl, sym, ap, ◌∙◌, inl, inr, List, [],
  ◌∷◌, ◌++◌, Option, none, some, if◌then◌else◌, ◌==◌, nat_eq, bytes_eq, arith, Bool-cases,
  Option-cases,
}
use xx_drive.Prelude.Bytes.{Bytes}
use xx_drive.Filepath.{slash}
use xx_drive.Disk.{
  Node, folder, content, Disk, strip, tree_at, node_at, remove_all, write_file, enter, make_dirs,
  make_all, rename_entries, rename,
}
use xx_drive.Disk.Strip.{Apart, strip-append, strip_sound}

pub tree_at-remove_all :
    (d : Disk) (p q : Bytes) → Apart p q → tree_at (remove_all d q) p ≡ tree_at d p
tree_at-remove_all [] p q a = refl
tree_at-remove_all ((k, n) ∷ d) p q a = elim (Option-cases (strip q k)) [
  | inl out ↦ ground (arith, tree_at-remove_all d p q a)
  | inr (t, inside) ↦ elim (a k) [
    | inl off ↦ ground (arith, tree_at-remove_all d p q a)
    | inr not_inside ↦ absurd (ground arith)
  ]
]

pub strip_self : (p : Bytes) → strip p p ≡ some []
strip_self [] = refl
strip_self (c ∷ p) = ground (arith, strip_self p)

pub strip-self-other : (p q : Bytes) → Apart p q → strip p q ≡ none
strip-self-other p q a = elim (a q) [
  | inl h ↦ h
  | inr h ↦ let s = strip_self q in absurd (ground arith)
]

pub tree_at-write_file :
    (d : Disk) (p q text : Bytes) → Apart p q → tree_at (write_file d q text) p ≡ tree_at d p
tree_at-write_file d p q text a = ground (arith, strip-self-other p q a, tree_at-remove_all d p q a)

strip-shorter : (p q s : Bytes) → strip p (q ++ slash ∷ s) ≡ none → strip p q ≡ none
strip-shorter [] [] s e = absurd (ground arith)
strip-shorter [] (c ∷ q) s e = ground arith
strip-shorter (c ∷ p) [] s e = refl
strip-shorter (c ∷ p) (d ∷ q) s e = elim (Bool-cases (c == d)) [
  | inl same ↦ ground (arith, strip-shorter p q s)
  | inr other ↦ ground arith
]

enter-tree :
    (d : Disk) (p q : Bytes) {d' : Disk}
    → strip p q ≡ none
    → enter d q ≡ some d'
    → tree_at d' p ≡ tree_at d p
enter-tree d p q {d'} off e = elim (Option-cases (node_at d q)) [
  | inl new ↦ ground arith
  | inr (folder, known) ↦ ground arith
  | inr (content text, known) ↦ absurd (ground arith)
]

make_dirs-tree :
    (d : Disk) (p pre s : Bytes) {d' : Disk}
    → strip p (pre ++ s) ≡ none
    → make_dirs d pre s ≡ some d'
    → tree_at d' p ≡ tree_at d p
make_dirs-tree d p pre [] off e = enter-tree d p pre (rw (sym (append-nil pre)) off) e
make_dirs-tree d p pre (c ∷ s) {d'} off e =
    let off' : strip p ((pre ++ c ∷ []) ++ s) ≡ none = rw (append_assoc pre (c ∷ []) s) off in
    elim (Bool-cases (c == slash && not (pre == []))) [
      | inr deeper ↦ make_dirs-tree d p (pre ++ c ∷ []) s off' (ground arith)
      | inl ends ↦ elim (Option-cases (enter d pre)) [
        | inl failed ↦ absurd (ground arith)
        | inr (mid, entered) ↦
            let here : c ≡ slash = ground arith in
            make_dirs-tree mid p (pre ++ c ∷ []) s {d' = d'} off' (ground arith)
            ∙ enter-tree d p pre (strip-shorter p pre s (rw (sym here) off)) entered
      ]
    ]

-- Making a directory leaves every tree that it is not in.
pub make_all-tree :
    (d : Disk) (p q : Bytes) {d' : Disk}
    → strip p q ≡ none
    → make_all d q ≡ some d'
    → tree_at d' p ≡ tree_at d p
make_all-tree d p q off e = make_dirs-tree d p [] q off e

-- The entry of a path is the root of its tree.
abbrev pub at_root : List (Bytes × Node) → Option Node
at_root [] = none
at_root ((t, n) ∷ r) = let rest = at_root r in if t == [] then some n else rest

pub strip-nil : (p q : Bytes) → strip p q ≡ some [] → q ≡ p
strip-nil [] [] e = refl
strip-nil [] (c ∷ s) e = elim (Bool-cases (c == 47)) [
  | inl h ↦ absurd (ground arith)
  | inr h ↦ absurd (ground arith)
]
strip-nil (c ∷ p) [] e = cc
strip-nil (c ∷ p) (d ∷ s) e = let same = strip-nil p s (ground arith) in ground arith

pub node_at-tree : (d : Disk) (p : Bytes) → node_at d p ≡ at_root (tree_at d p)
node_at-tree [] p = refl
node_at-tree ((q, n) ∷ d) p = elim (Option-cases (strip p q)) [
  | inl out ↦
      let other : (q == p) ≡ false = elim (Bool-cases (q == p)) [
        | inl h ↦ let s = strip_self p in absurd (ground arith)
        | inr h ↦ h
      ] in
      ground (arith, node_at-tree d p)
  | inr (t, inside) ↦ elim (Bool-cases (t == [])) [
    | inl here ↦
        let hit = strip-nil p q (ground arith) in
        let same : (q == p) ≡ true = ground arith in ground arith
    | inr deeper ↦
        let miss : (q == p) ≡ false = elim (Bool-cases (q == p)) [
          | inl h ↦ let s = strip_self p in absurd (ground arith)
          | inr h ↦ h
        ] in
        ground (arith, node_at-tree d p)
  ]
]

-- A tree that moves to a free place is found there whole.
pub tree_at-rename_entries :
    (src dst : Bytes) (d : Disk)
    → tree_at d dst ≡ []
    → tree_at (rename_entries src dst d) dst ≡ tree_at d src
tree_at-rename_entries src dst [] e = refl
tree_at-rename_entries src dst ((q, n) ∷ d) e = elim (Option-cases (strip dst q)) [
  | inr (t, inside) ↦ absurd (filled t n d inside e)
  | inl out ↦ elim (Option-cases (strip src q)) [
    | inl stays ↦ ground (arith, tree_at-rename_entries src dst d (later out e))
    | inr (t, moves) ↦
        let (_, tail) = strip_sound src q moves in
        ground (arith, strip-append dst t tail, tree_at-rename_entries src dst d (later out e))
  ]
]
  where
    filled :
        (t : Bytes) (m : Node) (r : Disk) → strip dst q ≡ some t → tree_at ((q, m) ∷ r) dst ≡ [] → ⊥
    filled t m r inside h = ground arith

    later : strip dst q ≡ none → tree_at ((q, n) ∷ d) dst ≡ [] → tree_at d dst ≡ []
    later out h = ground arith

-- And nothing is left where it was.
pub tree_at-rename_entries_source :
    (src dst : Bytes) (d : Disk) → Apart src dst → tree_at (rename_entries src dst d) src ≡ []
tree_at-rename_entries_source src dst [] a = refl
tree_at-rename_entries_source src dst ((q, n) ∷ d) a = elim (Option-cases (strip src q)) [
  | inl stays ↦ ground (arith, tree_at-rename_entries_source src dst d a)
  | inr (t, moves) ↦
      let (_, tail) = strip_sound src q moves in
      let there = strip-append dst t tail in
      let gone : strip src (dst ++ t) ≡ none = elim (a (dst ++ t)) [
        | inl h ↦ h
        | inr h ↦ absurd (ground arith)
      ] in
      ground (arith, tree_at-rename_entries_source src dst d a)
]

pub rename-eq-some :
    (d : Disk) (src dst : Bytes) {d' : Disk}
    → tree_at d dst ≡ []
    → rename d src dst ≡ some d'
    → d' ≡ rename_entries src dst d
unfolding rename
rename-eq-some d src dst {d'} free e =
    let vacant : node_at d dst ≡ none = node_at-tree d dst ∙ ap at_root free in ground arith

pub rename-free :
    (d : Disk) (src dst : Bytes) {n : Node}
    → node_at d src ≡ some n
    → tree_at d dst ≡ []
    → rename d src dst ≡ some (rename_entries src dst d)
unfolding rename
rename-free d src dst {n} here free =
    let vacant : node_at d dst ≡ none = node_at-tree d dst ∙ ap at_root free in
    of_node n here vacant
  where
    of_node :
        (m : Node)
        → node_at d src ≡ some m
        → node_at d dst ≡ none
        → rename d src dst ≡ some (rename_entries src dst d)
    of_node folder h v = ground arith
    of_node (content text) h v = ground arith

-- Every other tree stays.
pub tree_at-rename_entries_other :
    (src dst p : Bytes) (d : Disk)
    → Apart p src
    → Apart p dst
    → tree_at (rename_entries src dst d) p ≡ tree_at d p
tree_at-rename_entries_other src dst p [] a b = refl
tree_at-rename_entries_other src dst p ((q, n) ∷ d) a b = elim (Option-cases (strip src q)) [
  | inl stays ↦
      let rest = tree_at-rename_entries_other src dst p d a b in
      elim (Option-cases (strip p q)) [ inl out ↦ ground arith | inr (t, inside) ↦ ground arith ]
  | inr (t, moves) ↦
      let (_, tail) = strip_sound src q moves in
      let there = strip-append dst t tail in
      let off : strip p (dst ++ t) ≡ none = elim (b (dst ++ t)) [
        | inl h ↦ h
        | inr h ↦ absurd (ground arith)
      ] in
      let out : strip p q ≡ none = elim (a q) [ inl h ↦ h | inr h ↦ absurd (ground arith) ] in
      ground (arith, tree_at-rename_entries_other src dst p d a b)
]

-- A longer path is not in a shorter one.
pub strip-longer : (q : Bytes) (c : ℕ) (s : Bytes) → strip (q ++ c ∷ s) q ≡ none
strip-longer [] c s = refl
strip-longer (a ∷ q) c s = ground (arith, strip-longer q c s)

pub node_at-write_file :
    (d : Disk) (p text : Bytes) → node_at (write_file d p text) p ≡ some (content text)
node_at-write_file d p text = ground arith
