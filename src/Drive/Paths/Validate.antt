-- ===== src/Drive/Paths/Validate.antt =====
-- What `ValidateRel` accepts and returns.
use xx_drive.Prelude.{
  ℕ_discrete, ◌⊎◌, inl, inr, ◌≤◌, ◌≡◌, refl, true, false, List, [], ◌∷◌, if◌then◌else◌, nat_eq,
  bytes_eq, All, arith, any, length, ltb,
}
use xx_drive.Prelude.Bytes.{Bytes, split, join, to_lower, has_prefix, contains_text}
use xx_drive.Prelude.Results.{Result, ok, err, invalid}
use xx_drive.Filepath.{slash, clean}
use xx_drive.Filepath.Segments.{Lacks, IsSegment, split-append}
use xx_drive.Filepath.Canonical.{
  rooted, IsCanonical, split-join_segments, clean-IsCanonical, clean-slash, clean-Lacks,
}
use xx_drive.Drive.Paths.{
  root, backslash, is_encoded, is_too_long, max_segment, max_path, check_clean, validate_rel,
  must_validate,
}

abbrev pub IsShort : Bytes → Type 0
IsShort p = length p ≤ max_segment

-- A drive-relative path as the driver's operations take it.
pub record IsLogical (v : Bytes) : Type 0 where
  pub canonical : IsCanonical v
  pub no_nul : Lacks 0 v
  pub no_backslash : Lacks backslash v
  pub short : length v ≤ max_path
  pub short_segs : All IsShort canonical.segs
  pub not_encoded : is_encoded (to_lower v) ≡ false

is_too_long_segment : (p : Bytes) → IsSegment p → is_too_long p ≡ ltb max_segment (length p)
unfolding is_too_long
is_too_long_segment p h = ground arith

any-too_long : (ps : List Bytes) → All IsSegment ps → any is_too_long ps ≡ false → All IsShort ps
any-too_long [] _ _ = tt
any-too_long (p ∷ ps) (h, hs) e =
    (ground (arith, is_too_long_segment p h), any-too_long ps hs (ground arith))

not_any-too_long :
    (ps : List Bytes) → All IsSegment ps → All IsShort ps → any is_too_long ps ≡ false
not_any-too_long [] _ _ = refl
not_any-too_long (p ∷ ps) (h, hs) (k, ks) =
    ground (arith, is_too_long_segment p h, not_any-too_long ps hs ks)

nil_not_too_long : is_too_long [] ≡ false
unfolding is_too_long
nil_not_too_long = ground arith

split-rooted : (segs : List Bytes) → split slash (rooted segs) ≡ [] ∷ split slash (join slash segs)
split-rooted segs = split-append slash [] (join slash segs) refl

any-rooted :
    (segs : List Bytes)
    → All IsSegment segs
    → any is_too_long (split slash (rooted segs)) ≡ any is_too_long segs
any-rooted [] _ = rw split-rooted (rw nil_not_too_long (unfold split join in rw nil_not_too_long))
any-rooted (p ∷ ps) h = rw split-rooted (rw (nil_not_too_long, split-join_segments p ps h))

rooted-has_prefix : (s : Bytes) → has_prefix (slash ∷ s) root ≡ true
unfolding has_prefix
rooted-has_prefix s = ground arith

pub check_clean-rooted :
    (s : Bytes)
    → check_clean (slash ∷ s) ≡ (
        if is_encoded (to_lower (slash ∷ s))
        then err invalid
        else if any is_too_long (split slash (slash ∷ s))
        then err invalid
        else if ltb max_path (length (slash ∷ s))
        then err invalid
        else ok (slash ∷ s))
unfolding check_clean
check_clean-rooted s = ground (arith, rooted-has_prefix s)

check_clean-eq-ok :
    (segs : List Bytes) {v : Bytes}
    → All IsSegment segs
    → check_clean (rooted segs) ≡ ok v
    → (v ≡ rooted segs)
      × (is_encoded (to_lower (rooted segs)) ≡ false)
      × (any is_too_long segs ≡ false)
      × (length (rooted segs) ≤ max_path)
check_clean-eq-ok segs h e = ground (arith, check_clean-rooted (join slash segs), any-rooted segs h)

check_clean-IsLogical :
    (segs : List Bytes) {v : Bytes}
    → All IsSegment segs
    → Lacks 0 (rooted segs)
    → Lacks backslash (rooted segs)
    → check_clean (rooted segs) ≡ ok v
    → IsLogical v
check_clean-IsLogical segs h nul back e =
    let (same, plain, long, fits) = check_clean-eq-ok segs h e in
    rw same (record {
      canonical = record { segs = segs; shape = refl; plain = h };
      no_nul = nul;
      no_backslash = back;
      short = fits;
      short_segs = any-too_long segs h long;
      not_encoded = plain;
    })

root-IsLogical : IsLogical root
unfolding is_encoded contains_text to_lower bytes_eq ℕ_discrete
root-IsLogical = record {
  canonical = record { segs = []; shape = unfold join in refl; plain = tt };
  no_nul = refl;
  no_backslash = refl;
  short = omega arith;
  short_segs = tt;
  not_encoded = refl;
}

validate_rel-cases :
    (rel : Bytes) {v : Bytes}
    → validate_rel rel ≡ ok v
    → (v ≡ root) ⊎ (Lacks 0 rel × Lacks backslash rel × (check_clean (clean (slash ∷ rel)) ≡ ok v))
unfolding validate_rel
validate_rel-cases rel e = ground arith

-- Whatever text a request carries, an accepted path is rooted and canonical: its segments are none
-- of "", "." and "..", hold no slash and at most 255 bytes. It has no NUL byte, no backslash, no
-- percent-encoded separator or dot, and at most 4096 bytes.
pub validate_rel-IsLogical : (rel : Bytes) {v : Bytes} → validate_rel rel ≡ ok v → IsLogical v
validate_rel-IsLogical rel {v} e = elim (validate_rel-cases rel e) [
  | inl same ↦ rw same root-IsLogical
  | inr (nul, back, checked) ↦
      let c = clean-IsCanonical rel in
      check_clean-IsLogical c.segs c.plain (rw c.shape at (clean-Lacks 0 rel (omega arith) nul))
        (rw c.shape at (clean-Lacks backslash rel (omega arith) back)) (rw c.shape at checked)
]

check_clean_of_logical : {v : Bytes} → IsLogical v → check_clean v ≡ ok v
check_clean_of_logical {v} h =
    let c = h.canonical in
    let e = c.shape in
    let n : is_encoded (to_lower (rooted c.segs)) ≡ false = rw e at h.not_encoded in
    let l : length (rooted c.segs) ≤ max_path = rw e at h.short in
    rw e (
      ground (
        arith,
        check_clean-rooted (join slash c.segs),
        any-rooted c.segs c.plain,
        not_any-too_long c.segs c.plain h.short_segs,
      ))

-- An accepted path is accepted again, unchanged.
pub validate_rel_of_logical : {v : Bytes} → IsLogical v → validate_rel v ≡ ok v
unfolding validate_rel
validate_rel_of_logical {v} h =
    ground (arith, clean-slash h.canonical, check_clean_of_logical h, h.no_nul, h.no_backslash)

-- Validation is idempotent: what it returns it accepts, and returns again.
pub validate_rel-validate_rel :
    (rel : Bytes) {v : Bytes} → validate_rel rel ≡ ok v → validate_rel v ≡ ok v
validate_rel-validate_rel rel e = validate_rel_of_logical (validate_rel-IsLogical rel e)

-- The path that a handler falls back on is a logical path on every input.
pub must_validate-IsLogical : (p : Bytes) → IsLogical (must_validate p)
unfolding must_validate
must_validate-IsLogical p = go (validate_rel p) refl
  where
    go : (r : Result Bytes) → validate_rel p ≡ r → IsLogical (elim r [ ok v ↦ v | err e ↦ root ])
    go (ok v) e = validate_rel-IsLogical p e
    go (err _) e = root-IsLogical
