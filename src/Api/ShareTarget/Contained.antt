-- ===== src/Api/ShareTarget/Contained.antt =====
-- A visitor of a share gets at nothing outside of it.
use xx_drive.Prelude.{
  ◌≡◌, refl, sym, ap, ◌∙◌, ◌≢◌, ◌⊎◌, inl, inr, true, false, List, [], ◌∷◌, ◌++◌, append_assoc,
  append-nil, Option, some, ◌==◌, bytes_eq, arith, All, All-append, Bool-cases,
}
use xx_drive.Prelude.Bytes.{
  Bytes, has_prefix, has_prefix_sound, trim_prefix, trim_prefix-append, join,
}
use xx_drive.Prelude.Results.{ok, Result-cases}
use xx_drive.Filepath.{slash}
use xx_drive.Filepath.Segments.{IsSegment}
use xx_drive.Filepath.Canonical.{rooted, IsCanonical, IsTail}
use xx_drive.Drive.Paths.{root, validate_rel}
use xx_drive.Drive.Paths.Validate.{validate_rel-IsLogical}
use xx_drive.Drive.Resolve.Within.{join-append}
use xx_drive.Api.ShareTarget.{is_inside, check_inside, target_of_path, target_of_sub, share_target}

-- The target is a canonical path, and it is the share's path with whole segments behind it.
pub record IsInside (share full sub : Bytes) : Type 0 where
  pub canonical : IsCanonical full
  pub below : full ≡ share ++ sub
  pub tail : IsTail sub

pub is_inside_sound :
    (share full : Bytes)
    → is_inside share full ≡ true
    → (sub : Bytes) × (full ≡ share ++ sub) × IsTail sub × (trim_prefix full share ≡ sub)
is_inside_sound share full h = elim (Bool-cases (has_prefix full (share ++ slash ∷ []))) [
  | inl under ↦
      let (t, e) = has_prefix_sound full (share ++ slash ∷ []) under in
      let same = e ∙ append_assoc share (slash ∷ []) t in
      (slash ∷ t, same, inr (t, refl), rw same (trim_prefix-append share (slash ∷ t)))
  | inr not_under ↦
      let same : full ≡ share ++ [] = ground (arith, append-nil share) in
      ([], same, inl refl, rw same (trim_prefix-append share []))
]

check_inside-path :
    (share v : Bytes) {full sub : Bytes}
    → IsCanonical v
    → check_inside share v (trim_prefix v share) ≡ some (full, sub)
    → IsInside share full sub
unfolding check_inside
check_inside-path share v {full} {sub} c e =
    let inside : is_inside share v ≡ true = ground arith in
    let (t, same, tail, trimmed) = is_inside_sound share v inside in
    let here : full ≡ v = ground arith in
    let there : sub ≡ t = ground arith in
    rw (here, there) (record { canonical = c; below = same; tail = tail })

append-rooted :
    (share v : Bytes)
    → IsCanonical share
    → IsCanonical v
    → share ≢ root
    → v ≢ root
    → IsCanonical (share ++ v)
append-rooted share v c d ns nv = go c.segs d.segs c.plain d.plain c.shape d.shape
  where
    go :
        (ps qs : List Bytes)
        → All IsSegment ps
        → All IsSegment qs
        → share ≡ rooted ps
        → v ≡ rooted qs
        → IsCanonical (share ++ v)
    go [] qs _ _ e _ = absurd (ns (unfold join in e))
    go (p ∷ ps) [] _ _ _ e = absurd (nv (unfold join in e))
    go (p ∷ ps) (q ∷ qs) h k e e' = record {
      segs = (p ∷ ps) ++ q ∷ qs;
      shape = rw (e, e') (ap (λ t. slash ∷ t) (sym (join-append (p ∷ ps) q qs (λ n. cc))));
      plain = All-append IsSegment (p ∷ ps) (q ∷ qs) h k;
    }

check_inside-eq-some :
    (share v t : Bytes) {full sub : Bytes}
    → check_inside share v t ≡ some (full, sub)
    → (full ≡ v) × (sub ≡ t) × (is_inside share v ≡ true)
unfolding check_inside
check_inside-eq-some share v t e = ground arith

target_of_sub-cases :
    (share v : Bytes) {r : Option (Bytes × Bytes)}
    → target_of_sub share v ≡ r
    → ((v ≡ root) × (check_inside share share [] ≡ r))
      ⊎ ((is_inside share v ≡ true) × (check_inside share v (trim_prefix v share) ≡ r))
      ⊎ ((v ≢ root) × (is_inside share v ≡ false) × (check_inside share (share ++ v) v ≡ r))
unfolding target_of_sub
target_of_sub-cases share v e = elim (Bool-cases (v == root)) [
  | inl top ↦ inl (ground arith, ground arith)
  | inr below ↦ elim (Bool-cases (is_inside share v)) [
    | inl under ↦ inr (inl (under, ground arith))
    | inr beside ↦ inr (inr (ground arith, beside, ground arith))
  ]
]

target_of_sub-IsInside :
    (share v : Bytes) {full sub : Bytes}
    → IsCanonical share
    → IsCanonical v
    → share ≢ root
    → target_of_sub share v ≡ some (full, sub)
    → IsInside share full sub
target_of_sub-IsInside share v c d ns e = elim (target_of_sub-cases share v e) [
  | inl (top, checked) ↦
      let (here, there, _) = check_inside-eq-some share share [] checked in
      rw (here, there) (record { canonical = c; below = sym (append-nil share); tail = inl refl })
  | inr (inl (under, checked)) ↦ check_inside-path share v d checked
  | inr (inr (below, _, checked)) ↦
      let (here, there, _) = check_inside-eq-some share (share ++ v) v checked in
      rw (here, there)
        (record {
          canonical = append-rooted share v c d ns below;
          below = refl;
          tail = inr (join slash d.segs, d.shape);
        })
]

share_target-cases :
    (share raw_path raw_sub : Bytes) {full sub : Bytes}
    → share_target share raw_path raw_sub ≡ some (full, sub)
    → ((v : Bytes) × (validate_rel raw_path ≡ ok v) × (target_of_path share v ≡ some (full, sub)))
      ⊎ ((v : Bytes) × (validate_rel raw_sub ≡ ok v) × (target_of_sub share v ≡ some (full, sub)))
      ⊎ ((full ≡ share) × (sub ≡ []))
unfolding share_target
share_target-cases share raw_path raw_sub e = elim (Bool-cases (raw_path == [])) [
  | inl no_path ↦ elim (Bool-cases (raw_sub == [])) [
    | inl no_sub ↦ inr (inr (ground arith, ground arith))
    | inr given ↦ elim (Result-cases (validate_rel raw_sub)) [
      | inl (v, valid) ↦ inr (inl (v, valid, ground arith))
      | inr (_, refused) ↦ absurd (ground arith)
    ]
  ]
  | inr given ↦ elim (Result-cases (validate_rel raw_path)) [
    | inl (v, valid) ↦ inl (v, valid, ground arith)
    | inr (_, refused) ↦ absurd (ground arith)
  ]
]

-- Whatever a visitor sends as `path` or `sub`, an accepted target is the share or lies under it: it
-- is a canonical path, so no ".." is left in it, and it is the share's path followed by the returned
-- sub path, which is empty or begins with a slash. The share's path is canonical and not the root.
pub share_target-IsInside :
    (share raw_path raw_sub : Bytes) {full sub : Bytes}
    → IsCanonical share
    → share ≢ root
    → share_target share raw_path raw_sub ≡ some (full, sub)
    → IsInside share full sub
share_target-IsInside share raw_path raw_sub c ns e =
    elim (share_target-cases share raw_path raw_sub e) [
      | inl (v, valid, target) ↦
          check_inside-path share v (validate_rel-IsLogical raw_path valid).canonical
            (unfold target_of_path in target)
      | inr (inl (v, valid, target)) ↦
          target_of_sub-IsInside share v c (validate_rel-IsLogical raw_sub valid).canonical ns
            target
      | inr (inr (here, there)) ↦
          rw (here, there)
            (record { canonical = c; below = sym (append-nil share); tail = inl refl })
    ]
