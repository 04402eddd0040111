-- ===== src/Filepath/Canonical.antt =====
-- The rooted paths that `Clean` returns: a slash, and segments joined by slashes.
use xx_drive.Prelude.{
  ℕ, ◌≡◌, refl, ap, ◌∙◌, ◌≢◌, ◌⊎◌, true, List, [], ◌∷◌, nat_eq, bytes_eq, All, arith,
}
use xx_drive.Prelude.Bytes.{Bytes, split, join}
use xx_drive.Filepath.{slash, push_part, resolve, clean}
use xx_drive.Filepath.Segments.{
  Lacks, IsSegment, split-Lacks, split-Lacks_sep, split-join, split-append, join-Lacks, resolve-All,
  resolve-IsSegment, resolve_of_segments,
}

abbrev pub rooted : List Bytes → Bytes
rooted segs = slash ∷ join slash segs

pub record IsCanonical (v : Bytes) : Type 0 where
  pub segs : List Bytes
  pub shape : v ≡ rooted segs
  pub plain : All IsSegment segs

-- What may stand behind the path of a directory: nothing, or a slash and more.
abbrev pub IsTail : Bytes → Type 0
IsTail t = (t ≡ []) ⊎ ((u : Bytes) × (t ≡ slash ∷ u))

pub IsSegments-Lacks : (ps : List Bytes) → All IsSegment ps → All (Lacks slash) ps
IsSegments-Lacks [] _ = tt
IsSegments-Lacks (p ∷ ps) (h, hs) = (h.no_slash, IsSegments-Lacks ps hs)

pub split-join_segments :
    (p : Bytes) (ps : List Bytes)
    → All IsSegment (p ∷ ps)
    → split slash (join slash (p ∷ ps)) ≡ p ∷ ps
split-join_segments p ps h = split-join slash p ps (IsSegments-Lacks (p ∷ ps) h)

pub resolve-join :
    (segs : List Bytes)
    → All IsSegment segs
    → resolve true [] (split slash (join slash segs)) ≡ segs
unfolding resolve
resolve-join [] _ = unfold join split push_part in ground arith
resolve-join (p ∷ ps) h = rw (split-join_segments p ps h) (resolve_of_segments true [] (p ∷ ps) h)

pub clean-rooted_eq : (s : Bytes) → clean (slash ∷ s) ≡ rooted (resolve true [] (split slash s))
unfolding clean
clean-rooted_eq s = ground arith

-- Cleaning a rooted path yields a canonical one.
pub clean-IsCanonical : (s : Bytes) → IsCanonical (clean (slash ∷ s))
clean-IsCanonical s = record {
  segs = resolve true [] (split slash s);
  shape = clean-rooted_eq s;
  plain = resolve-IsSegment [] (split slash s) tt (split-Lacks_sep slash s);
}

pub clean_of_rooted : (segs : List Bytes) → All IsSegment segs → clean (rooted segs) ≡ rooted segs
clean_of_rooted segs h = clean-rooted_eq _ ∙ ap rooted (resolve-join segs h)

-- A canonical path is left alone by `Clean`.
pub clean_of_canonical : {v : Bytes} → IsCanonical v → clean v ≡ v
clean_of_canonical {v} c = rw c.shape (clean_of_rooted c.segs c.plain)

resolve-nil_cons : (ps : List Bytes) → resolve true [] ([] ∷ ps) ≡ resolve true [] ps
unfolding resolve push_part
resolve-nil_cons ps = ground arith

-- A second slash in front changes nothing.
pub clean-slash : {v : Bytes} → IsCanonical v → clean (slash ∷ v) ≡ v
clean-slash {v} c = rw c.shape (
    clean-rooted_eq _
    ∙ ap rooted (
        ap (resolve true []) (split-append slash [] (join slash c.segs) refl)
        ∙ resolve-nil_cons _
        ∙ resolve-join c.segs c.plain))

-- `Clean` invents no byte but slashes.
pub clean-Lacks : (c : ℕ) (s : Bytes) → c ≢ slash → Lacks c s → Lacks c (clean (slash ∷ s))
clean-Lacks c s ne h = rw clean-rooted_eq (
    ground (
      arith,
      join-Lacks c (resolve true [] (split slash s)) ne
          (resolve-All (Lacks c) [] (split slash s) tt (split-Lacks slash c s h)),
    ))
