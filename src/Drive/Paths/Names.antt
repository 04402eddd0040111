-- ===== src/Drive/Paths/Names.antt =====
-- `NameOf`, `ParentOf` and `JoinPath` take a logical path apart and put it together.
use xx_drive.Prelude.{
  ℕ, ◌≡◌, refl, sym, ap, ◌∙◌, ◌≢◌, false, List, [], ◌∷◌, ◌++◌, nat_eq, bytes_eq, All, All-append,
  All-append_left, All-append_right, subst, arith,
}
use xx_drive.Prelude.Bytes.{Bytes, join, contains_any}
use xx_drive.Prelude.Results.{ok}
use xx_drive.Filepath.{slash}
use xx_drive.Filepath.Segments.{Lacks, Lacks-append_right, IsSegment}
use xx_drive.Filepath.Canonical.{rooted, IsCanonical}
use xx_drive.Filepath.Children.{child, rooted-snoc, dir-child, base_of_child, child-ne-root}
use xx_drive.Drive.Paths.{root, backslash, name_of, parent_of, join_logical}
use xx_drive.Drive.Paths.Validate.{IsLogical}

module _ (segs : List Bytes) (n : Bytes) (h : All IsSegment segs) (k : IsSegment n) where
  parent_of-rooted : parent_of (child (rooted segs) n) ≡ rooted segs
  unfolding parent_of
  parent_of-rooted = ground (arith, child-ne-root segs n k, dir-child segs n h k)

  name_of-rooted : name_of (child (rooted segs) n) ≡ n
  unfolding name_of
  name_of-rooted = ground (arith, child-ne-root segs n k, base_of_child segs n h k)

  child-IsCanonical : IsCanonical (child (rooted segs) n)
  child-IsCanonical = record {
    segs = segs ++ n ∷ [];
    shape = sym (rooted-snoc segs n h);
    plain = All-append IsSegment segs (n ∷ []) h (k, tt);
  }

contains_any-Lacks :
    (n : Bytes)
    → contains_any n (slash ∷ backslash ∷ []) ≡ false
    → Lacks slash n × Lacks backslash n
unfolding contains_any
contains_any-Lacks [] h = (refl, refl)
contains_any-Lacks (c ∷ n) h = ground (arith, contains_any-Lacks n)

Lacks-contains_any :
    (n : Bytes)
    → Lacks slash n
    → Lacks backslash n
    → contains_any n (slash ∷ backslash ∷ []) ≡ false
unfolding contains_any
Lacks-contains_any [] h k = refl
Lacks-contains_any (c ∷ n) h k = ground (arith, Lacks-contains_any n)

pub join_logical-eq-ok :
    (d n : Bytes) {p : Bytes} → join_logical d n ≡ ok p → IsSegment n × (p ≡ child d n)
unfolding join_logical
join_logical-eq-ok d n e = ground (arith, contains_any-Lacks n)

-- A name that `JoinPath` accepts becomes an entry of the directory: the result is canonical, its
-- parent is the directory and its name the given one. So no accepted name leaves the directory.
pub join_logical_parts :
    (d n : Bytes) {p : Bytes}
    → IsCanonical d
    → join_logical d n ≡ ok p
    → IsCanonical p × (parent_of p ≡ d) × (name_of p ≡ n)
join_logical_parts d n {p} c e =
    let (k, same) = join_logical-eq-ok d n e in
    rw (same, c.shape)
      (
        child-IsCanonical c.segs n c.plain k,
        parent_of-rooted c.segs n c.plain k,
        name_of-rooted c.segs n c.plain k,
      )

last_segment :
    (p : Bytes) (ps : List Bytes) → (init : List Bytes) × (n : Bytes) × (p ∷ ps ≡ init ++ n ∷ [])
last_segment p [] = ([], p, refl)
last_segment p (q ∷ ps) = let (init, n, e) = last_segment q ps in (p ∷ init, n, ap (λ r. p ∷ r) e)

Lacks-child : (c : ℕ) (d n : Bytes) → Lacks c (child d n) → Lacks c n
Lacks-child c d n h = ground (arith, Lacks-append_right c d (slash ∷ n))

join_logical_of_segment :
    (d n : Bytes)
    → IsSegment n
    → Lacks 0 (child d n)
    → Lacks backslash (child d n)
    → join_logical d n ≡ ok (child d n)
unfolding join_logical
join_logical_of_segment d n k nul back =
    ground (arith, Lacks-contains_any n, Lacks-child 0 d n nul, Lacks-child backslash d n back)

join_logical-rooted :
    (init : List Bytes) (n p : Bytes)
    → All IsSegment (init ++ n ∷ [])
    → p ≡ rooted (init ++ n ∷ [])
    → Lacks 0 p
    → Lacks backslash p
    → join_logical (parent_of p) (name_of p) ≡ ok p
join_logical-rooted init n p h e nul back =
    let before = All-append_left IsSegment init (n ∷ []) h in
    let (k, _) = All-append_right IsSegment init (n ∷ []) h in
    let same : p ≡ child (rooted init) n = e ∙ rooted-snoc init n before in
    ground (
      arith,
      ap parent_of same,
      ap name_of same,
      parent_of-rooted init n before k,
      name_of-rooted init n before k,
      join_logical_of_segment (rooted init) n k (rw same at nul) (rw same at back),
    )

-- Every logical path but the root is its name joined to its parent: `JoinPath` undoes the pair of
-- `ParentOf` and `NameOf`.
pub join_logical-parent_of-name_of :
    {p : Bytes} → IsLogical p → p ≢ root → join_logical (parent_of p) (name_of p) ≡ ok p
join_logical-parent_of-name_of {p} h ne = go h.canonical.segs h.canonical.plain h.canonical.shape
  where
    go :
        (segs : List Bytes)
        → All IsSegment segs
        → p ≡ rooted segs
        → join_logical (parent_of p) (name_of p) ≡ ok p
    go [] _ e = absurd (ne (unfold join in e))
    go (q ∷ ps) a e =
        let (init, n, same) = last_segment q ps in
        join_logical-rooted init n p (subst (All IsSegment) same a) (e ∙ ap rooted same) h.no_nul
          h.no_backslash
