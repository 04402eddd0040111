-- ===== src/Store/Like.antt =====
-- internal/store/store.go: `EscapeLike`, and the condition of the queries for a subtree.
pub mod Subtree
use xx_drive.Prelude.{
  ℕ, suc, ◌+◌, Bool, true, false, not, ◌&&◌, ◌||◌, ◌≡◌, ◌≢◌, ◌↔◌, List, [], ◌∷◌, ◌++◌,
  if◌then◌else◌, ◌==◌, nat_eq, bytes_eq, leb,
}
use xx_drive.Prelude.Bytes.{Bytes}
use xx_drive.Filepath.{slash}

abbrev pub escape_char : ℕ
escape_char = b'\\'

abbrev pub percent : ℕ
percent = b'%'

abbrev pub underscore : ℕ
underscore = b'_'

-- The replacer treats each byte for itself, so no replacement is replaced again.
abbrev pub is_special : ℕ → Bool
is_special c = c == escape_char || c == percent || c == underscore

-- `EscapeLike`
unfoldable pub escape_like : Bytes → Bytes
escape_like [] = []
escape_like (c ∷ s) =
    let rest = escape_like s in if is_special c then escape_char ∷ c ∷ rest else c ∷ rest

-- LIKE's notion of one character for another: ASCII letters match in either case.
abbrev pub fold : ℕ → ℕ
fold c = if leb b'A' c && leb c b'Z' then c + 32 else c

-- `path = ? OR path LIKE ? ESCAPE '\'` with the path and the escaped path followed by "/%".
abbrev pub is_under : (Bytes → Bytes → Bool) → Bytes → Bytes → Bool
is_under like root path = path == root || like (escape_like root ++ slash ∷ percent ∷ []) path

-- What the database documents of `text LIKE pattern ESCAPE '\'`, given as `like pattern text`, for texts
-- in UTF-8 without NUL, whose characters it compares. A character behind the escape character stands
-- for itself, and ASCII letters match in either case there as well.
pub record IsLike (like : Bytes → Bytes → Bool) : Type 0 where
  pub done : (s : Bytes) → like [] s ≡ (s == [])
  pub wildcard_none : like (percent ∷ []) [] ≡ true
  pub wildcard_all : (c : ℕ) (s : Bytes) → like (percent ∷ []) (c ∷ s) ≡ like (percent ∷ []) s
  pub escaped :
      (c d : ℕ) (p s : Bytes) → like (escape_char ∷ c ∷ p) (d ∷ s) ≡ (fold d == fold c && like p s)
  pub escaped_end : (c : ℕ) (p : Bytes) → like (escape_char ∷ c ∷ p) [] ≡ false
  pub plain :
      (c d : ℕ) (p s : Bytes)
      → is_special c ≡ false
      → like (c ∷ p) (d ∷ s) ≡ (fold d == fold c && like p s)
  pub plain_end : (c : ℕ) (p : Bytes) → is_special c ≡ false → like (c ∷ p) [] ≡ false
