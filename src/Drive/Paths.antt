-- ===== src/Drive/Paths.antt =====
-- internal/fsdrv/fsdrv.go: the checks and the small functions on drive paths and names.
pub mod Validate
pub mod Names
use xx_drive.Prelude.{
  ℕ, ◌-◌, Bool, true, false, not, ◌&&◌, ◌||◌, List, [], ◌∷◌, ◌++◌, map, if◌then◌else◌, ltb, leb,
  ◌==◌, nat_eq, bytes_eq, contains, any, length, take,
}
use xx_drive.Prelude.Bytes.{
  Bytes, bytes, has_prefix, has_suffix, contains_text, contains_any, to_lower, split,
}
use xx_drive.Prelude.Results.{Result, ok, err, invalid}
use xx_drive.Filepath.{slash, dot, dot_dot, clean, base, dir}

abbrev pub root : Bytes
root = slash ∷ []

abbrev pub backslash : ℕ
backslash = b'\\'

-- A percent-encoded slash, backslash or dot, in lower case.
unfoldable pub is_encoded : Bytes → Bool
is_encoded s =
    contains_text s (bytes "%2f") || contains_text s (bytes "%5c") || contains_text s (bytes "%2e")

abbrev pub max_segment : ℕ
max_segment = 255

abbrev pub max_path : ℕ
max_path = 4096

unfoldable pub is_too_long : Bytes → Bool
is_too_long seg =
    if seg == [] || seg == dot || seg == dot_dot then false else ltb max_segment (length seg)

-- The checks of `ValidateRel` behind the call of `Clean`.
unfoldable pub check_clean : Bytes → Result Bytes
check_clean c =
    if c == dot || not (has_prefix c root)
    then ok root
    else if is_encoded (to_lower c)
    then err invalid
    else if any is_too_long (split slash c)
    then err invalid
    else if ltb max_path (length c)
    then err invalid
    else ok c

-- `ValidateRel`
unfoldable pub validate_rel : Bytes → Result Bytes
unfolding check_clean is_encoded is_too_long
validate_rel rel =
    if contains rel 0
    then err invalid
    else if rel == []
    then ok root
    else if contains rel backslash
    then err invalid
    else check_clean (clean (slash ∷ rel))

-- `mustValidate` of internal/api/handlers.go
unfoldable pub must_validate : Bytes → Bytes
must_validate p = elim (validate_rel p) [ ok v ↦ v | err e ↦ root ]

-- `NameOf`
unfoldable pub name_of : Bytes → Bytes
name_of logical = if logical == root then [] else base logical

-- `ParentOf`
unfoldable pub parent_of : Bytes → Bytes
parent_of logical =
    if logical == root then root else let p = dir logical in if p == dot then root else p

-- `JoinPath`
unfoldable pub join_logical : Bytes → Bytes → Result Bytes
unfolding contains_any
join_logical d name =
    if contains_any name (slash ∷ backslash ∷ [])
      || name == dot
      || name == dot_dot
      || contains name 0
      || name == []
    then err invalid
    else if d == root
    then ok (slash ∷ name)
    else ok (d ++ slash ∷ name)

-- `ValidName`
unfoldable pub valid_name : Bytes → Bool
unfolding contains_any has_suffix
valid_name name =
    if name == [] || name == dot || name == dot_dot || ltb max_segment (length name)
    then false
    else if contains_any name (slash ∷ backslash ∷ 0 ∷ [])
    then false
    else if has_suffix name (bytes " ") || has_suffix name (bytes ".")
    then false
    else true

-- `isStagingEntry`
unfoldable pub is_staging_entry : Bytes → Bool
unfolding has_prefix has_suffix
is_staging_entry name = has_prefix name (bytes ".xxpartial") || has_suffix name (bytes ".xxpart")

-- The replacement of one character in `sanitizeTag`. All of the replaced ones are ASCII.
abbrev clean_tag_char : ℕ → ℕ
clean_tag_char c = if contains (bytes "/\\:*?\"<>|" ++ 0 ∷ []) c then b'-' else c

-- `sanitizeTag`, over the bytes of valid UTF-8 text.
unfoldable pub sanitize_tag : Bytes → Bytes
sanitize_tag t = let u = map clean_tag_char t in if ltb 60 (length u) then take 60 u else u
