-- ===== src/Disk.antt =====
-- The disk as the storage driver sees it through package os: a list of absolute paths with what is
-- there. A call may fail for reasons of its own; the functions that use it take these as faults.
pub mod Strip
pub mod Rename
pub mod Nodes
use xx_drive.Prelude.{
  ℕ, Bool, true, false, not, ◌&&◌, ◌||◌, List, [], ◌∷◌, ◌++◌, Option, none, some, if◌then◌else◌,
  ◌==◌, nat_eq, bytes_eq,
}
use xx_drive.Prelude.Bytes.{Bytes}
use xx_drive.Filepath.{slash}

-- A directory, or a regular file with its content.
pub data Node : Type 0 where
  folder : Node
  content : Bytes → Node

abbrev pub Disk : Type 0
Disk = List (Bytes × Node)

-- What follows the path of a directory in the path of something in it, or of itself.
abbrev pub strip : Bytes → Bytes → Option Bytes
strip [] [] = some []
strip [] (c ∷ s) = if c == slash then some (c ∷ s) else none
strip (c ∷ p) [] = none
strip (c ∷ p) (d ∷ s) = let rest = strip p s in if c == d then rest else none

abbrev pub is_in : Bytes → Bytes → Bool
is_in p q = elim (strip p q) [ some t ↦ true | none ↦ false ]

-- The tree at a path: relative paths with what is there. It is empty if nothing is at the path.
abbrev pub tree_at : Disk → Bytes → List (Bytes × Node)
tree_at [] p = []
tree_at ((q, n) ∷ d) p =
    let rest = tree_at d p in elim (strip p q) [ some t ↦ (t, n) ∷ rest | none ↦ rest ]

-- os.Lstat
abbrev pub node_at : Disk → Bytes → Option Node
node_at [] p = none
node_at ((q, n) ∷ d) p = let rest = node_at d p in if q == p then some n else rest

-- os.RemoveAll, and os.Remove of a file
abbrev pub remove_all : Disk → Bytes → Disk
remove_all [] p = []
remove_all ((q, n) ∷ d) p = let rest = remove_all d p in if is_in p q then rest else (q, n) ∷ rest

-- os.WriteFile
abbrev pub write_file : Disk → Bytes → Bytes → Disk
write_file d p text = (p, content text) ∷ remove_all d p

abbrev pub rename_entries : Bytes → Bytes → Disk → Disk
rename_entries src dst [] = []
rename_entries src dst ((q, n) ∷ d) =
    let rest = rename_entries src dst d in
    elim (strip src q) [ some t ↦ (dst ++ t, n) ∷ rest | none ↦ (q, n) ∷ rest ]

-- os.Rename: it fails without a source, onto a directory, and from a directory onto a file; a file is
-- replaced.
unfoldable pub rename : Disk → Bytes → Bytes → Option Disk
rename d src dst = elim (node_at d src) [
  | none ↦ none
  | some folder ↦ elim (node_at d dst) [ none ↦ some (rename_entries src dst d) | some n ↦ none ]
  | some (content text) ↦ elim (node_at d dst) [
    | none ↦ some (rename_entries src dst d)
    | some folder ↦ none
    | some (content old) ↦ some (rename_entries src dst (remove_all d dst))
  ]
]

-- One directory of os.MkdirAll.
abbrev pub enter : Disk → Bytes → Option Disk
enter d p = elim (node_at d p) [
  | none ↦ some ((p, folder) ∷ d)
  | some folder ↦ some d
  | some (content text) ↦ none
]

-- os.MkdirAll of a rooted path: the directories that end before a slash, and the last.
abbrev pub make_dirs : Disk → Bytes → Bytes → Option Disk
make_dirs d pre [] = enter d pre
make_dirs d pre (c ∷ s) =
    let further = make_dirs d (pre ++ c ∷ []) s in
    if c == slash && not (pre == [])
    then elim (enter d pre) [ none ↦ none | some d' ↦ make_dirs d' (pre ++ c ∷ []) s ]
    else further

abbrev pub make_all : Disk → Bytes → Option Disk
make_all d p = make_dirs d [] p
