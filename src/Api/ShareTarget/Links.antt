-- ===== src/Api/ShareTarget/Links.antt =====
-- The links of a share's page (`renderPubPage`): whether each leads to the entry it stands for.
use mathlib.Core.List.{map-append}
use xx_drive.Prelude.{
  ◌≡◌, refl, sym, ap, ◌∙◌, ◌≢◌, inl, inr, true, false, List, [], ◌∷◌, ◌++◌, append_assoc,
  append-nil, some, ◌==◌, nat_eq, bytes_eq, any, arith, All, All-append_right, subst, length-append,
  drop,
}
use xx_drive.Prelude.Bytes.{
  bytes, Bytes, trim_prefix, trim_prefix-append, split, join, has_prefix-append, to_lower,
  contains_text,
}
use xx_drive.Filepath.{slash, dot_dot}
use xx_drive.Filepath.Segments.{IsSegment, Lacks-append_right, split-append, join-split}
use xx_drive.Filepath.Canonical.{rooted, IsCanonical, IsTail, split-join_segments}
use xx_drive.Drive.Paths.{root, backslash, is_encoded}
use xx_drive.Drive.Paths.Validate.{IsLogical, IsShort, validate_rel_of_logical}
use xx_drive.Drive.Resolve.Within.{split_concat}
use xx_drive.Drive.Resolve.Location.{files-ne-nil}
use xx_drive.Api.ShareTarget.{
  is_inside, check_inside, target_of_sub, share_target, has_dot_dot_segment,
}

-- The `sub` parameter of the link to an entry.
unfoldable pub link_sub : Bytes → Bytes → Bytes
unfolding trim_prefix
link_sub share path = trim_prefix path share

any-dot_dot : (ps : List Bytes) → All IsSegment ps → any (λ seg. seg == dot_dot) ps ≡ false
any-dot_dot [] _ = refl
any-dot_dot (p ∷ ps) (h, hs) = let n = h.not_dot_dot in ground (arith, any-dot_dot ps hs)

split-rooted : (segs : List Bytes) → split slash (rooted segs) ≡ [] ∷ split slash (join slash segs)
split-rooted segs = split-append slash [] (join slash segs) refl

-- A canonical path has no segment "..".
has_dot_dot-canonical : {v : Bytes} → IsCanonical v → has_dot_dot_segment v ≡ false
unfolding has_dot_dot_segment
has_dot_dot-canonical {v} c = rw c.shape (go c.segs c.plain)
  where
    go :
        (segs : List Bytes)
        → All IsSegment segs
        → any (λ seg. seg == dot_dot) (split slash (rooted segs)) ≡ false
    go [] _ = unfold join in unfold split in ground arith
    go (p ∷ ps) h =
        rw (split-rooted (p ∷ ps), split-join_segments p ps h)
          (ground (arith, any-dot_dot (p ∷ ps) h))

-- A sub path that is a logical path itself goes straight to the last case distinction.
share_target_of_sub :
    (share : Bytes) {v : Bytes} → IsLogical v → share_target share [] v ≡ target_of_sub share v
unfolding share_target
share_target_of_sub share {v} h =
    ground (arith, has_dot_dot-canonical h.canonical, validate_rel_of_logical h, h.canonical.shape)

contains_text-append :
    (x y t : Bytes) → contains_text (x ++ y) t ≡ false → contains_text y t ≡ false
unfolding contains_text
contains_text-append [] y t h = h
contains_text-append (c ∷ x) y t h = ground (arith, contains_text-append x y t)

is_encoded-append : (x y : Bytes) → is_encoded (x ++ y) ≡ false → is_encoded y ≡ false
unfolding is_encoded
is_encoded-append x y h = ground (
  arith,
  contains_text-append x y (bytes "%2f"),
  contains_text-append x y (bytes "%5c"),
  contains_text-append x y (bytes "%2e"),
)

to_lower-append : (x y : Bytes) → to_lower (x ++ y) ≡ to_lower x ++ to_lower y
unfolding to_lower
to_lower-append x y = map-append _ x y

module _ (s u : Bytes) (h : IsLogical ((slash ∷ s) ++ slash ∷ u)) where
  parts_of_tail : (P : Bytes → Type 0) → All P h.canonical.segs → All P (split slash u)
  parts_of_tail P a = go h.canonical.segs h.canonical.plain a (ap (drop 1) (sym h.canonical.shape))
    where
      go :
          (segs : List Bytes)
          → All IsSegment segs
          → All P segs
          → join slash segs ≡ s ++ slash ∷ u
          → All P (split slash u)
      go [] _ _ e = absurd (files-ne-nil s u (sym (unfold join in e)))
      go (p ∷ ps) k b e = All-append_right P (split slash s) (split slash u) (
          subst (All P) (sym (split-join_segments p ps k) ∙ ap (split slash) e ∙ split_concat s u)
            b)

  -- What stands behind a path is a logical path itself.
  tail-IsLogical : IsLogical (slash ∷ u)
  tail-IsLogical = record {
    canonical = record {
      segs = split slash u;
      shape = ap (λ t. slash ∷ t) (sym (join-split slash u));
      plain = parts_of_tail IsSegment h.canonical.plain;
    };
    no_nul = Lacks-append_right 0 (slash ∷ s) (slash ∷ u) h.no_nul;
    no_backslash = Lacks-append_right backslash (slash ∷ s) (slash ∷ u) h.no_backslash;
    short = omega (arith, length-append (slash ∷ s) (slash ∷ u), h.short);
    short_segs = parts_of_tail IsShort h.short_segs;
    not_encoded =
        is_encoded-append (to_lower (slash ∷ s)) (to_lower (slash ∷ u))
          (rw to_lower-append at h.not_encoded);
  }

  tail-ne-nil : u ≢ []
  tail-ne-nil e =
      go (split slash u) (ap (split slash) e) (parts_of_tail IsSegment h.canonical.plain)
    where
      go : (ps : List Bytes) → ps ≡ split slash [] → All IsSegment ps → ⊥
      go [] q _ = unfold split in cc
      go (p ∷ ps) q (k, _) = k.some_byte (unfold split in cc)

target_of_sub_beside :
    (share v : Bytes)
    → v ≢ root
    → is_inside share v ≡ false
    → is_inside share (share ++ v) ≡ true
    → target_of_sub share v ≡ some (share ++ v, v)
unfolding target_of_sub check_inside
target_of_sub_beside share v top beside inside = ground arith

target_of_sub_under :
    (share v : Bytes)
    → v ≢ root
    → is_inside share v ≡ true
    → target_of_sub share v ≡ some (v, trim_prefix v share)
unfolding target_of_sub check_inside
target_of_sub_under share v top inside = ground arith

is_inside-append : (share t : Bytes) → IsTail t → is_inside share (share ++ t) ≡ true
is_inside-append share t (inl e) = rw e (ground (arith, append-nil share))
is_inside-append share t (inr (u, e)) =
    rw e
      (ground (arith, append_assoc share (slash ∷ []) u, has_prefix-append (share ++ slash ∷ []) u))

append-ne-root : (share t : Bytes) → IsCanonical share → share ≢ root → share ++ t ≢ root
append-ne-root [] t c ns e = let s = c.shape in cc
append-ne-root (a ∷ []) t c ns e = let s = c.shape in ground arith
append-ne-root (a ∷ b ∷ r) t c ns e = cc

-- An entry below the share is found through its own link, unless its path relative to the share
-- begins with the share's path again.
pub share_target-link_sub :
    (s u : Bytes)
    → IsLogical ((slash ∷ s) ++ slash ∷ u)
    → is_inside (slash ∷ s) (slash ∷ u) ≡ false
    → let path = (slash ∷ s) ++ slash ∷ u in
      share_target (slash ∷ s) [] (link_sub (slash ∷ s) path) ≡ some (path, slash ∷ u)
unfolding link_sub
share_target-link_sub s u h beside =
    ap (share_target (slash ∷ s) []) (trim_prefix-append (slash ∷ s) (slash ∷ u))
    ∙ share_target_of_sub (slash ∷ s) (tail-IsLogical s u h)
    ∙ target_of_sub_beside (slash ∷ s) (slash ∷ u) (λ e. tail-ne-nil s u h (ap (drop 1) e)) beside
        (is_inside-append (slash ∷ s) (slash ∷ u) (inr (u, refl)))

-- The link to an entry whose path relative to the share begins with the share's own path leads
-- elsewhere: in a share of /photos, the link to /photos/photos/x leads to /photos/x, and the link
-- to /photos/photos to the share itself.
pub share_target-link_sub_doubled :
    (share t : Bytes)
    → IsCanonical share
    → share ≢ root
    → IsTail t
    → IsLogical (share ++ t)
    → share_target share [] (link_sub share (share ++ (share ++ t))) ≡ some (share ++ t, t)
unfolding link_sub
share_target-link_sub_doubled share t c ns tail h =
    ap (share_target share []) (trim_prefix-append share (share ++ t))
    ∙ share_target_of_sub share h
    ∙ target_of_sub_under share (share ++ t) (append-ne-root share t c ns)
        (is_inside-append share t tail)
    ∙ ap (λ u. some (share ++ t, u)) (trim_prefix-append share t)
