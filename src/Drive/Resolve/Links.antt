-- ===== src/Drive/Resolve/Links.antt =====
-- `ResolveUserPath` follows no symbolic link, and keeps users apart.
use mathlib.Core.List.{append_cancel_left}
use xx_drive.Prelude.{
  ◌≡◌, refl, sym, ap, ◌∙◌, ◌≢◌, inl, inr, List, [], ◌∷◌, ◌++◌, append_assoc, append-nil, ◌==◌,
  nat_eq, bytes_eq, All, arith, subst, drop, Bool-cases,
}
use xx_drive.Prelude.Bytes.{Bytes, bytes, split, join}
use xx_drive.Prelude.Results.{ok}
use xx_drive.Filepath.{slash, join_paths, trim_slashes, drop_slashes, drop_slashes_end}
use xx_drive.Filepath.Segments.{Lacks, IsSegment}
use xx_drive.Filepath.Canonical.{rooted, IsCanonical, IsTail, split-join_segments}
use xx_drive.Filepath.Children.{drop_slashes_end_of_Lacks, append-ne-nil}
use xx_drive.Drive.Paths.{root}
use xx_drive.Drive.Paths.Validate.{validate_rel-IsLogical}
use xx_drive.Drive.Resolve.Within.{within}
use xx_drive.Drive.Resolve.{Lstat, link, directory, user_dir, walk, resolve_user_path}
use xx_drive.Drive.Resolve.Location.{
  resolve_user_path-eq-ok, resolve_user_path-within, user_dir-plain, user_root-eq-user_dir,
}

-- No component of the path is a symbolic link, as far down as directories lead.
abbrev pub NoLink : (Bytes → Lstat) → Bytes → List Bytes → Type 0
NoLink lstat cur [] = Unit
NoLink lstat cur (seg ∷ segs) =
    let next = join_paths (cur ∷ seg ∷ []) in
    (lstat next ≢ link) × (lstat next ≡ directory → NoLink lstat next segs)

walk-NoLink :
    (lstat : Bytes → Lstat) (cur : Bytes) (segs : List Bytes)
    → All IsSegment segs
    → walk lstat cur segs ≡ ok tt
    → NoLink lstat cur segs
unfolding walk
walk-NoLink lstat cur [] _ _ = tt
walk-NoLink lstat cur (seg ∷ segs) (h, hs) e =
    (ground arith, λ d. walk-NoLink lstat (join_paths (cur ∷ seg ∷ [])) segs hs (ground arith))

drop_slashes-segment : (p t : Bytes) → IsSegment p → drop_slashes (p ++ t) ≡ p ++ t
unfolding drop_slashes
drop_slashes-segment [] t h = absurd (h.some_byte refl)
drop_slashes-segment (c ∷ p) t h = let n = h.no_slash in ground arith

drop_slashes_end-onto :
    (x y : Bytes) → y ≢ [] → drop_slashes_end y ≡ y → drop_slashes_end (x ++ y) ≡ x ++ y
unfolding drop_slashes_end
drop_slashes_end-onto [] y ne h = h
drop_slashes_end-onto (c ∷ x) y ne h =
    ground (arith, drop_slashes_end-onto x y ne h, append-ne-nil x y ne)

join-ne-nil : (p : Bytes) (ps : List Bytes) → IsSegment p → join slash (p ∷ ps) ≢ []
unfolding join
join-ne-nil [] ps h = absurd (h.some_byte refl)
join-ne-nil (c ∷ p) [] h = λ e. cc
join-ne-nil (c ∷ p) (q ∷ ps) h = λ e. cc

drop_slashes_end-join :
    (p : Bytes) (ps : List Bytes)
    → All IsSegment (p ∷ ps)
    → drop_slashes_end (join slash (p ∷ ps)) ≡ join slash (p ∷ ps)
unfolding join
drop_slashes_end-join p [] (h, _) = drop_slashes_end_of_Lacks p h.no_slash
drop_slashes_end-join p (q ∷ ps) (h, (k, ks)) = ground (
  arith,
  drop_slashes_end-onto (p ++ slash ∷ []) (join slash (q ∷ ps)) (join-ne-nil q ps k)
      (drop_slashes_end-join q ps (k, ks)),
  append_assoc p (slash ∷ []) (join slash (q ∷ ps)),
)

drop_slashes-rooted :
    (p : Bytes) (ps : List Bytes)
    → IsSegment p
    → drop_slashes (rooted (p ∷ ps)) ≡ join slash (p ∷ ps)
unfolding drop_slashes join
drop_slashes-rooted [] ps h = absurd (h.some_byte refl)
drop_slashes-rooted (c ∷ p) [] h = let n = h.no_slash in ground arith
drop_slashes-rooted (c ∷ p) (q ∷ ps) h = let n = h.no_slash in ground arith

walk-rooted :
    (lstat : Bytes → Lstat) (cur : Bytes) (segs : List Bytes)
    → All IsSegment segs
    → walk lstat cur (split slash (trim_slashes (rooted segs))) ≡ ok tt
    → walk lstat cur segs ≡ ok tt
unfolding trim_slashes
walk-rooted lstat cur [] _ _ = unfold walk in refl
walk-rooted lstat cur (p ∷ ps) (h, hs) e =
    subst (λ qs. walk lstat cur qs ≡ ok tt)
      (ap (λ t. split slash (drop_slashes_end t)) (drop_slashes-rooted p ps h)
        ∙ ap (split slash) (drop_slashes_end-join p ps (h, hs))
        ∙ split-join_segments p ps (h, hs))
      e

-- On the way to a resolved path, every component that exists below the user's directory has been
-- looked at, as far as directories lead, and none of them is a symbolic link.
pub resolve_user_path-NoLink :
    (lstat : Bytes → Lstat) (r username rel : Bytes) {abs logical : Bytes}
    → resolve_user_path lstat (slash ∷ r) username rel ≡ ok (abs, logical)
    → (segs : List Bytes) × (logical ≡ rooted segs)
      × NoLink lstat (user_dir (slash ∷ r) username) segs
resolve_user_path-NoLink lstat r username rel {logical = logical} e =
    let (valid, _, _, walked) = resolve_user_path-eq-ok lstat (slash ∷ r) username rel e in
    let c = (validate_rel-IsLogical rel valid).canonical in
    let same = user_root-eq-user_dir r username (user_dir-plain lstat r username rel e) in
    (
      c.segs,
      c.shape,
      walk-NoLink lstat _ c.segs c.plain (
          walk-rooted lstat _ c.segs c.plain (
            subst
              (λ v.
                walk lstat (user_dir (slash ∷ r) username) (split slash (trim_slashes v)) ≡ ok tt)
              c.shape
              (subst (λ d. walk lstat d (split slash (trim_slashes logical)) ≡ ok tt) same
                walked))),
    )

names_eq :
    (u v s t : Bytes)
    → Lacks slash u
    → Lacks slash v
    → IsTail s
    → IsTail t
    → u ++ s ≡ v ++ t
    → u ≡ v
names_eq [] [] s t _ _ _ _ _ = refl
names_eq [] (d ∷ v) s t _ k i j e = ground arith
names_eq (c ∷ u) [] s t h _ i j e = ground arith
names_eq (c ∷ u) (d ∷ v) s t h k i j e =
    ground (arith, names_eq u v s t (ground arith) (ground arith) i j)

pub within-IsTail :
    (d : Bytes) {logical : Bytes}
    → IsCanonical logical
    → (s : Bytes) × IsTail s × (within d logical ≡ d ++ s)
within-IsTail d {logical} c = elim (Bool-cases (logical == root)) [
  | inl at_root ↦ ([], inl refl, rw (at_root, within) (sym (append-nil d)))
  | inr below ↦ (logical, inr (join slash c.segs, c.shape), rw (below, within))
]

user_dir-append : (d u s : Bytes) → user_dir d u ++ s ≡ user_dir d (u ++ s)
user_dir-append d u s = append_assoc d (slash ∷ (bytes "files" ++ slash ∷ u)) s

user_dir-injective : (d x y : Bytes) → user_dir d x ≡ user_dir d y → x ≡ y
user_dir-injective d x y e = ap (drop 7) (append_cancel_left d _ _ e)

-- Two users never reach the same place: if any request of one user and any request of another
-- resolve to one absolute path, the users are the same. Usernames hold no slash.
pub resolve_user_path_separate :
    (lstat : Bytes → Lstat) (r u v rel rel' : Bytes) {abs logical logical' : Bytes}
    → Lacks slash u
    → Lacks slash v
    → resolve_user_path lstat (slash ∷ r) u rel ≡ ok (abs, logical)
    → resolve_user_path lstat (slash ∷ r) v rel' ≡ ok (abs, logical')
    → u ≡ v
resolve_user_path_separate lstat r u v rel rel' h k e e' =
    let (l, _, place) = resolve_user_path-within lstat r u rel e in
    let (l', _, place') = resolve_user_path-within lstat r v rel' e' in
    let (s, i, same) = within-IsTail (user_dir (slash ∷ r) u) l.canonical in
    let (t, j, same') = within-IsTail (user_dir (slash ∷ r) v) l'.canonical in
    names_eq u v s t h k i j (
      user_dir-injective (slash ∷ r) (u ++ s) (v ++ t) (
        sym (user_dir-append (slash ∷ r) u s)
        ∙ sym same
        ∙ sym place
        ∙ place'
        ∙ same'
        ∙ user_dir-append (slash ∷ r) v t))
