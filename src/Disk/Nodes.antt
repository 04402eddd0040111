-- ===== src/Disk/Nodes.antt =====
-- What the calls of package os do to single files.
use xx_drive.Prelude.{
  false, not, ◌&&◌, ◌≡◌, ◌≢◌, refl, ap, ◌∙◌, ◌⊎◌, inl, inr, List, [], ◌∷◌, ◌++◌, append-nil, none,
  some, ◌==◌, nat_eq, bytes_eq, All, arith, Bool-cases, Option-cases,
}
use xx_drive.Prelude.Bytes.{Bytes}
use xx_drive.Filepath.{slash}
use xx_drive.Disk.{
  Node, folder, content, Disk, strip, tree_at, node_at, remove_all, write_file, enter, make_dirs,
  make_all, rename_entries, rename,
}
use xx_drive.Disk.Rename.{
  strip_self, strip-nil, at_root, node_at-tree, tree_at-rename_entries, tree_at-remove_all,
}
use xx_drive.Disk.Strip.{Apart}

pub node_at-remove_all :
    (d : Disk) (p q : Bytes) → strip q p ≡ none → node_at (remove_all d q) p ≡ node_at d p
node_at-remove_all [] p q off = refl
node_at-remove_all ((k, n) ∷ d) p q off = elim (Bool-cases (k == p)) [
  | inl here ↦ ground (arith, node_at-remove_all d p q off)
  | inr other ↦ ground (arith, node_at-remove_all d p q off)
]

pub node_at-write_file_other :
    (d : Disk) (p q text : Bytes) → strip q p ≡ none → node_at (write_file d q text) p ≡ node_at d p
node_at-write_file_other d p q text off =
    let s = strip_self q in ground (arith, node_at-remove_all d p q off)

enter-node :
    (d : Disk) (p q : Bytes) {n : Node} {d' : Disk}
    → node_at d p ≡ some n
    → enter d q ≡ some d'
    → node_at d' p ≡ some n
enter-node d p q here e = elim (Option-cases (node_at d q)) [
  | inl new ↦ ground arith
  | inr (folder, known) ↦ ground arith
  | inr (content text, known) ↦ absurd (ground arith)
]

make_dirs-node :
    (d : Disk) (p pre s : Bytes) {n : Node} {d' : Disk}
    → node_at d p ≡ some n
    → make_dirs d pre s ≡ some d'
    → node_at d' p ≡ some n
make_dirs-node d p pre [] here e = enter-node d p pre here e
make_dirs-node d p pre (c ∷ s) {n} {d'} here e = elim (Bool-cases (c == slash && not (pre == []))) [
  | inr deeper ↦ make_dirs-node d p (pre ++ c ∷ []) s here (ground arith)
  | inl ends ↦ elim (Option-cases (enter d pre)) [
    | inl failed ↦ absurd (ground arith)
    | inr (mid, entered) ↦
        make_dirs-node mid p (pre ++ c ∷ []) s {n = n} {d' = d'} (enter-node d p pre here entered)
          (ground arith)
  ]
]

-- Making directories takes nothing away.
pub make_all-node :
    (d : Disk) (p q : Bytes) {n : Node} {d' : Disk}
    → node_at d p ≡ some n
    → make_all d q ≡ some d'
    → node_at d' p ≡ some n
make_all-node d p q here e = make_dirs-node d p [] q here e

-- A single file, with nothing below it.
abbrev pub IsFile : Disk → Bytes → Bytes → Type 0
IsFile d p text = tree_at d p ≡ ([], content text) ∷ []

tree_at-remove_all_self : (d : Disk) (p : Bytes) → tree_at (remove_all d p) p ≡ []
tree_at-remove_all_self [] p = refl
tree_at-remove_all_self ((k, n) ∷ d) p = elim (Option-cases (strip p k)) [
  | inl out ↦ ground (arith, tree_at-remove_all_self d p)
  | inr (t, inside) ↦ ground (arith, tree_at-remove_all_self d p)
]

pub write_file-IsFile : (d : Disk) (p text : Bytes) → IsFile (write_file d p text) p text
write_file-IsFile d p text = ground (arith, strip_self p, tree_at-remove_all_self d p)

abbrev pub AllRoot : List (Bytes × Node) → Type 0
AllRoot = All (λ e. e.0 ≡ [])

pub AllRoot-tail :
    (k : Bytes) (n : Node) (d : Disk) (src : Bytes)
    → strip src k ≡ none
    → AllRoot (tree_at ((k, n) ∷ d) src)
    → AllRoot (tree_at d src)
AllRoot-tail k n d src e h = rw (tree_at, e) at h

pub AllRoot-head :
    (k : Bytes) (n : Node) (d : Disk) (src t : Bytes)
    → strip src k ≡ some t
    → AllRoot (tree_at ((k, n) ∷ d) src)
    → (t ≡ []) × AllRoot (tree_at d src)
AllRoot-head k n d src t e h = rw (tree_at, e) at h

-- The moved file leaves every other node as it is.
node_at-rename_entries :
    (d : Disk) (src dst p : Bytes)
    → AllRoot (tree_at d src)
    → strip src p ≡ none
    → dst ≢ p
    → node_at (rename_entries src dst d) p ≡ node_at d p
node_at-rename_entries [] src dst p _ off ne = refl
node_at-rename_entries ((k, n) ∷ d) src dst p h off ne = elim (Option-cases (strip src k)) [
  | inl stays ↦
      let ih = node_at-rename_entries d src dst p (AllRoot-tail k n d src stays h) off ne in
      ground arith
  | inr (t, moves) ↦
      let (top, rest) = AllRoot-head k n d src t moves h in
      let same : k ≡ src = strip-nil src k (moves ∙ ap some top) in
      let self = strip_self src in
      let other : (k == p) ≡ false = ground arith in
      let place : dst ++ t ≡ dst = ap (λ u. dst ++ u) top ∙ append-nil dst in
      let gone : (dst ++ t == p) ≡ false = rw place (ground arith) in
      let ih = node_at-rename_entries d src dst p rest off ne in ground arith
]

remove_all-AllRoot :
    (d : Disk) (src q : Bytes) → AllRoot (tree_at d src) → AllRoot (tree_at (remove_all d q) src)
remove_all-AllRoot [] src q h = tt
remove_all-AllRoot ((k, n) ∷ d) src q h = elim (Option-cases (strip src k)) [
  | inl out ↦ let ih = remove_all-AllRoot d src q (AllRoot-tail k n d src out h) in ground arith
  | inr (t, inside) ↦
      let (top, rest) = AllRoot-head k n d src t inside h in
      let ih = remove_all-AllRoot d src q rest in ground arith
]

pub node_at-IsFile :
    (d : Disk) (p text : Bytes) → IsFile d p text → node_at d p ≡ some (content text)
node_at-IsFile d p text file = node_at-tree d p ∙ ap at_root file ∙ ground arith

-- There is no file at the path.
abbrev pub NoFile : Disk → Bytes → Type 0
NoFile d p = (text : Bytes) → node_at d p ≢ some (content text)

enter-NoFile : (d : Disk) (p q : Bytes) {d' : Disk} → NoFile d p → enter d q ≡ some d' → NoFile d' p
enter-NoFile d p q h e text here = elim (Option-cases (node_at d q)) [
  | inl new ↦ let no = h text in ground arith
  | inr (folder, known) ↦ let no = h text in ground arith
  | inr (content t, known) ↦ absurd (ground arith)
]

make_dirs-NoFile :
    (d : Disk) (p pre s : Bytes) {d' : Disk}
    → NoFile d p
    → make_dirs d pre s ≡ some d'
    → NoFile d' p
make_dirs-NoFile d p pre [] h e = enter-NoFile d p pre h e
make_dirs-NoFile d p pre (c ∷ s) {d'} h e = elim (Bool-cases (c == slash && not (pre == []))) [
  | inr deeper ↦ make_dirs-NoFile d p (pre ++ c ∷ []) s h (ground arith)
  | inl ends ↦ elim (Option-cases (enter d pre)) [
    | inl failed ↦ absurd (ground arith)
    | inr (mid, entered) ↦
        make_dirs-NoFile mid p (pre ++ c ∷ []) s {d' = d'} (enter-NoFile d p pre h entered)
          (ground arith)
  ]
]

-- Making directories makes no file.
pub make_all-NoFile :
    (d : Disk) (p q : Bytes) {d' : Disk} → NoFile d p → make_all d q ≡ some d' → NoFile d' p
make_all-NoFile d p q h e = make_dirs-NoFile d p [] q h e

-- A file that is renamed leaves every other node, but for what it replaces.
pub rename-node :
    (d : Disk) (src dst p text : Bytes) {n : Node} {d' : Disk}
    → IsFile d src text
    → strip src p ≡ none
    → (strip dst p ≡ none) ⊎ NoFile d dst
    → node_at d p ≡ some n
    → rename d src dst ≡ some d'
    → node_at d' p ≡ some n
unfolding rename
rename-node d src dst p text {n} {d'} file off free here e =
    let alone : AllRoot (tree_at d src) = rw file (refl, tt) in
    let source = node_at-IsFile d src text file in
    let self = strip_self dst in
    elim (Option-cases (node_at d dst)) [
      | inl vacant ↦
          let moved = node_at-rename_entries d src dst p alone off (λ same. ground arith) in
          ground arith
      | inr (folder, taken) ↦ absurd (ground arith)
      | inr (content old, taken) ↦
          let clear : strip dst p ≡ none = elim free [ inl h ↦ h | inr h ↦ absurd (h old taken) ] in
          let kept = node_at-remove_all d p dst clear in
          let moved =
            node_at-rename_entries (remove_all d dst) src dst p (remove_all-AllRoot d src dst alone)
              off (λ same. ground arith) in
          ground arith
    ]

-- And it is found at its new place.
pub rename-IsFile :
    (d : Disk) (src dst text : Bytes) {d' : Disk}
    → IsFile d src text
    → Apart src dst
    → (node_at d dst ≡ none → tree_at d dst ≡ [])
    → rename d src dst ≡ some d'
    → IsFile d' dst text
unfolding rename
rename-IsFile d src dst text {d'} file apart whole e =
    let source = node_at-IsFile d src text file in
    elim (Option-cases (node_at d dst)) [
      | inl vacant ↦
          let moved = tree_at-rename_entries src dst d (whole vacant) in
          let same : d' ≡ rename_entries src dst d = ground arith in rw same (moved ∙ file)
      | inr (folder, taken) ↦ absurd (ground arith)
      | inr (content old, taken) ↦
          let moved =
            tree_at-rename_entries src dst (remove_all d dst) (tree_at-remove_all_self d dst) in
          let same : d' ≡ rename_entries src dst (remove_all d dst) = ground arith in
          rw same (moved ∙ tree_at-remove_all d src dst apart ∙ file)
    ]
