-- ===== src/Drive/Resolve/Within.antt =====
-- `Join` of a directory and a logical path, and the containment check, as facts on segments.
use mathlib.Core.List.{reverse, reverse-cons, reverse-reverse}
use xx_drive.Prelude.{
  ℕ, ◌≡◌, refl, sym, ap, ◌∙◌, ◌≢◌, ◌⊎◌, inl, inr, true, List, [], ◌∷◌, ◌++◌, append_assoc,
  append-nil, if◌then◌else◌, ◌==◌, nat_eq, bytes_eq, All, arith, subst, Bool-cases,
}
use xx_drive.Prelude.Bytes.{
  push_head, split-ne-nil, Bytes, split, join, has_prefix, has_prefix_sound,
}
use xx_drive.Filepath.{slash, clean, resolve, push_part}
use xx_drive.Filepath.Segments.{
  IsSegment, split-append, join-split, resolve_of_segments, push_part_of_segment,
}
use xx_drive.Filepath.Canonical.{rooted, IsCanonical, clean-rooted_eq, split-join_segments}
use xx_drive.Filepath.Children.{rooted-ne-root}
use xx_drive.Drive.Paths.{root}
use xx_drive.Drive.Resolve.{is_confined}

-- The place of a logical path below a directory.
abbrev pub within : Bytes → Bytes → Bytes
within d logical = if logical == root then d else d ++ logical

push_head-append :
    (c : ℕ) (ps qs : List Bytes) → ps ≢ [] → push_head c (ps ++ qs) ≡ push_head c ps ++ qs
push_head-append c [] qs h = absurd (h refl)
push_head-append c (p ∷ ps) qs h = refl

pub split_concat : (x y : Bytes) → split slash (x ++ slash ∷ y) ≡ split slash x ++ split slash y
unfolding split
split_concat [] y = ground arith
split_concat (c ∷ x) y = ground (
  arith,
  split_concat x y,
  push_head-append c (split slash x) (split slash y),
  split-ne-nil slash x,
)

resolve-append :
    (stack ps qs : List Bytes)
    → All IsSegment ps
    → resolve true stack (ps ++ qs) ≡ resolve true (reverse ps ++ stack) qs
unfolding resolve
resolve-append stack [] qs _ = refl
resolve-append stack (p ∷ ps) qs (h, hs) =
    ap (λ s. resolve true s (ps ++ qs)) (push_part_of_segment true stack p h)
    ∙ resolve-append (p ∷ stack) ps qs hs
    ∙ ap (λ s. resolve true s qs) (rw (reverse-cons, append_assoc))

-- A rooted path whose parts are all segments is canonical as it stands.
pub IsCanonical-of_split : (s : Bytes) → All IsSegment (split slash s) → IsCanonical (slash ∷ s)
IsCanonical-of_split s h = record {
  segs = split slash s;
  shape = ap (λ t. slash ∷ t) (sym (join-split slash s));
  plain = h;
}

pub resolve-split : (s : Bytes) → All IsSegment (split slash s) → clean (slash ∷ s) ≡ slash ∷ s
resolve-split s h =
    clean-rooted_eq s
    ∙ ap rooted (resolve_of_segments true [] (split slash s) h)
    ∙ ap (λ t. slash ∷ t) (join-split slash s)

join-append_segments :
    (p : Bytes) (ps : List Bytes) (q : Bytes) (qs : List Bytes)
    → join slash ((p ∷ ps) ++ q ∷ qs) ≡ join slash (p ∷ ps) ++ slash ∷ join slash (q ∷ qs)
unfolding join
join-append_segments p [] q qs = refl
join-append_segments p (r ∷ ps) q qs = ground (
  arith,
  join-append_segments r ps q qs,
  append_assoc p (slash ∷ join slash (r ∷ ps)) (slash ∷ join slash (q ∷ qs)),
)

resolve-skip_nil : (stack ps : List Bytes) → resolve true stack ([] ∷ ps) ≡ resolve true stack ps
unfolding resolve push_part
resolve-skip_nil stack ps = ground arith

resolve-join_onto :
    (stack segs : List Bytes)
    → All IsSegment segs
    → resolve true stack (split slash (join slash segs)) ≡ reverse stack ++ segs
unfolding resolve
resolve-join_onto stack [] _ =
    unfold join split push_part in ground (arith, append-nil (reverse stack))
resolve-join_onto stack (p ∷ ps) h =
    rw (split-join_segments p ps h) (resolve_of_segments true stack (p ∷ ps) h)

resolve-append_rooted :
    (ps segs : List Bytes)
    → All IsSegment ps
    → All IsSegment segs
    → resolve true [] (ps ++ split slash (rooted segs)) ≡ ps ++ segs
resolve-append_rooted ps segs h k =
    resolve-append [] ps (split slash (rooted segs)) h
    ∙ ap (resolve true (reverse ps ++ [])) (split-append slash [] (join slash segs) refl)
    ∙ resolve-skip_nil (reverse ps ++ []) (split slash (join slash segs))
    ∙ resolve-join_onto (reverse ps ++ []) segs k
    ∙ rw (append-nil, reverse-reverse)

pub join-append :
    (ps : List Bytes) (q : Bytes) (qs : List Bytes)
    → ps ≢ []
    → join slash (ps ++ q ∷ qs) ≡ join slash ps ++ slash ∷ join slash (q ∷ qs)
join-append [] q qs ne = absurd (ne refl)
join-append (p ∷ ps) q qs ne = join-append_segments p ps q qs

rooted-split_append :
    (s : Bytes) (segs : List Bytes)
    → All IsSegment segs
    → rooted (split slash s ++ segs) ≡ within (slash ∷ s) (rooted segs)
rooted-split_append s [] _ =
    unfold join in ground (arith, append-nil (split slash s), join-split slash s)
rooted-split_append s (q ∷ qs) k = ground (
  arith,
  join-append (split slash s) q qs (split-ne-nil slash s),
  join-split slash s,
  rooted-ne-root q qs k,
)

-- `Join` of a canonical directory and a logical path puts the one behind the other.
pub clean-within :
    (s : Bytes) (segs : List Bytes)
    → All IsSegment (split slash s)
    → All IsSegment segs
    → clean (slash ∷ s ++ slash ∷ rooted segs) ≡ within (slash ∷ s) (rooted segs)
clean-within s segs h k =
    clean-rooted_eq (s ++ slash ∷ rooted segs)
    ∙ ap (λ ps. rooted (resolve true [] ps)) (split_concat s (rooted segs))
    ∙ ap rooted (resolve-append_rooted (split slash s) segs h k)
    ∙ rooted-split_append s segs k

pub is_confined-cases :
    (abs expected : Bytes)
    → is_confined abs expected ≡ true
    → (abs ≡ expected) ⊎ ((t : Bytes) × (abs ≡ expected ++ slash ∷ t))
unfolding is_confined
is_confined-cases abs expected h = elim (Bool-cases (has_prefix abs (expected ++ slash ∷ []))) [
  | inl below ↦
      let (t, e) = has_prefix_sound abs (expected ++ slash ∷ []) below in
      inr (t, e ∙ append_assoc expected (slash ∷ []) t)
  | inr above ↦ inl (ground arith)
]

pub join-plain :
    (segs : List Bytes) (x : Bytes)
    → All IsSegment segs
    → x ≢ []
    → join slash segs ≡ x
    → All IsSegment (split slash x)
join-plain [] x _ ne e = absurd (ne (sym (unfold join in e)))
join-plain (p ∷ ps) x h ne e =
    subst (All IsSegment) (sym (split-join_segments p ps h) ∙ ap (split slash) e) h
