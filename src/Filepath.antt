-- ===== src/Filepath.antt =====
-- Package path/filepath as the program uses it, on Unix: `Clean`, `Base`, `Ext`, `Dir`, `Join`.
pub mod Segments
pub mod Canonical
pub mod Children
use mathlib.Core.List.{reverse}
use xx_drive.Prelude.{
  ℕ, ◌≡◌, refl, Bool, true, false, not, ◌&&◌, ◌||◌, List, [], ◌∷◌, ◌++◌, if◌then◌else◌, ◌==◌,
  nat_eq, bytes_eq, contains,
}
use xx_drive.Prelude.Bytes.{Bytes, bytes, has_prefix, split, join}

abbrev pub slash : ℕ
slash = b'/'

abbrev pub dot : Bytes
dot = b'.' ∷ []

abbrev pub dot_dot : Bytes
dot_dot = b'.' ∷ b'.' ∷ []

-- What ".." does to the segments so far, the last one first.
abbrev pub pop : Bool → List Bytes → List Bytes
pop true [] = []
pop false [] = dot_dot ∷ []
pop rooted (p ∷ stack) = if not rooted && p == dot_dot then dot_dot ∷ p ∷ stack else stack

unfoldable pub push_part : Bool → List Bytes → Bytes → List Bytes
push_part rooted stack p =
    if p == [] || p == dot then stack else if p == dot_dot then pop rooted stack else p ∷ stack

unfoldable pub resolve : Bool → List Bytes → List Bytes → List Bytes
unfolding push_part
resolve rooted stack [] = reverse stack
resolve rooted stack (p ∷ ps) = resolve rooted (push_part rooted stack p) ps

-- filepath.Clean
unfoldable pub clean : Bytes → Bytes
unfolding resolve split join
clean [] = dot
clean (c ∷ s) =
    if c == slash
    then slash ∷ join slash (resolve true [] (split slash s))
    else let r = join slash (resolve false [] (split slash (c ∷ s))) in if r == [] then dot else r

-- The bytes behind the last slash.
unfoldable pub after_last : Bytes → Bytes
after_last [] = []
after_last (c ∷ s) = let rest = after_last s in if contains (c ∷ s) slash then rest else c ∷ s

-- The bytes up to the last slash, with it.
unfoldable pub up_to_last : Bytes → Bytes
up_to_last [] = []
up_to_last (c ∷ s) = let rest = c ∷ up_to_last s in if contains (c ∷ s) slash then rest else []

unfoldable pub drop_slashes_end : Bytes → Bytes
drop_slashes_end [] = []
drop_slashes_end (c ∷ s) =
    let rest = drop_slashes_end s in if rest == [] && c == slash then [] else c ∷ rest

-- filepath.Base
unfoldable pub base : Bytes → Bytes
unfolding after_last drop_slashes_end
base [] = dot
base (c ∷ s) =
    let name = after_last (drop_slashes_end (c ∷ s)) in if name == [] then slash ∷ [] else name

-- The suffix from the last dot on.
unfoldable pub from_last_dot : Bytes → Bytes
from_last_dot [] = []
from_last_dot (c ∷ s) =
    let rest = from_last_dot s in if contains s b'.' then rest else if c == b'.' then c ∷ s else []

-- filepath.Ext
unfoldable pub ext : Bytes → Bytes
unfolding after_last from_last_dot
ext p = from_last_dot (after_last p)

-- filepath.Dir
unfoldable pub dir : Bytes → Bytes
unfolding up_to_last clean
dir p = clean (up_to_last p)

-- filepath.Join
unfoldable pub join_paths : List Bytes → Bytes
unfolding clean
join_paths [] = []
join_paths (e ∷ es) = if e == [] then join_paths es else clean (join slash (e ∷ es))

unfoldable pub drop_slashes : Bytes → Bytes
drop_slashes [] = []
drop_slashes (c ∷ s) = if c == slash then drop_slashes s else c ∷ s

-- strings.Trim(s, "/")
unfoldable pub trim_slashes : Bytes → Bytes
unfolding drop_slashes drop_slashes_end
trim_slashes s = drop_slashes_end (drop_slashes s)
