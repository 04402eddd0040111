-- ===== src/Filepath/Children.antt =====
-- The entries of a directory: `Base` and `Dir` of a canonical path with one more segment.
use mathlib.Core.List.{reverse, reverse-cons}
use xx_drive.Prelude.{
  ◌≡◌, refl, sym, ap, ◌∙◌, ◌≢◌, true, List, [], ◌∷◌, ◌++◌, append-nil, append_assoc, if◌then◌else◌,
  ◌==◌, nat_eq, bytes_eq, contains, All, All-append, arith,
}
use xx_drive.Prelude.Bytes.{Bytes, join}
use xx_drive.Filepath.{
  slash, clean, resolve, push_part, after_last, up_to_last, drop_slashes_end, base, dir,
}
use xx_drive.Filepath.Segments.{push_part_of_segment, Lacks, IsSegment, split-join}
use xx_drive.Filepath.Canonical.{rooted, clean_of_rooted, clean-rooted_eq, IsSegments-Lacks}

-- The path of the entry `name` of a directory.
abbrev pub child : Bytes → Bytes → Bytes
child d name = if d == slash ∷ [] then slash ∷ name else d ++ slash ∷ name

join-snoc :
    (p : Bytes) (ps : List Bytes) (n : Bytes)
    → join slash ((p ∷ ps) ++ n ∷ []) ≡ join slash (p ∷ ps) ++ slash ∷ n
unfolding join
join-snoc p [] n = refl
join-snoc p (q ∷ ps) n =
    ground (arith, join-snoc q ps n, append_assoc p (slash ∷ join slash (q ∷ ps)) (slash ∷ n))

pub rooted-ne-root :
    (p : Bytes) (ps : List Bytes) → All IsSegment (p ∷ ps) → rooted (p ∷ ps) ≢ slash ∷ []
unfolding join
rooted-ne-root [] _ (h, _) _ = h.some_byte refl
rooted-ne-root (c ∷ p) [] (h, _) e = ground arith
rooted-ne-root (c ∷ p) (q ∷ ps) (h, _) e = ground arith

pub rooted-snoc :
    (segs : List Bytes) (n : Bytes)
    → All IsSegment segs
    → rooted (segs ++ n ∷ []) ≡ child (rooted segs) n
rooted-snoc [] n _ = unfold join in ground arith
rooted-snoc (p ∷ ps) n h = ground (arith, join-snoc p ps n, rooted-ne-root p ps h)

pub contains-slash : (x n : Bytes) → contains (x ++ slash ∷ n) slash ≡ true
contains-slash [] n = ground arith
contains-slash (c ∷ x) n = ground (arith, contains-slash x n)

after_last_of_Lacks : (n : Bytes) → Lacks slash n → after_last n ≡ n
unfolding after_last
after_last_of_Lacks [] h = refl
after_last_of_Lacks (c ∷ n) h = ground arith

up_to_last_of_Lacks : (n : Bytes) → Lacks slash n → up_to_last n ≡ []
unfolding up_to_last
up_to_last_of_Lacks [] h = refl
up_to_last_of_Lacks (c ∷ n) h = ground arith

pub after_last-append : (x n : Bytes) → Lacks slash n → after_last (x ++ slash ∷ n) ≡ n
unfolding after_last
after_last-append [] n h = ground (arith, after_last_of_Lacks n h)
after_last-append (c ∷ x) n h = ground (arith, after_last-append x n h, contains-slash (c ∷ x) n)

pub up_to_last-append :
    (x n : Bytes) → Lacks slash n → up_to_last (x ++ slash ∷ n) ≡ x ++ slash ∷ []
unfolding up_to_last
up_to_last-append [] n h = ground (arith, up_to_last_of_Lacks n h)
up_to_last-append (c ∷ x) n h = ground (arith, up_to_last-append x n h, contains-slash (c ∷ x) n)

pub drop_slashes_end_of_Lacks : (n : Bytes) → Lacks slash n → drop_slashes_end n ≡ n
unfolding drop_slashes_end
drop_slashes_end_of_Lacks [] h = refl
drop_slashes_end_of_Lacks (c ∷ n) h = ground (arith, drop_slashes_end_of_Lacks n)

pub append-ne-nil : (x n : Bytes) → n ≢ [] → x ++ n ≢ []
append-ne-nil [] n h = h
append-ne-nil (c ∷ x) n h = λ e. cc

pub drop_slashes_end-append :
    (x n : Bytes) → n ≢ [] → Lacks slash n → drop_slashes_end (x ++ n) ≡ x ++ n
unfolding drop_slashes_end
drop_slashes_end-append [] n ne h = drop_slashes_end_of_Lacks n h
drop_slashes_end-append (c ∷ x) n ne h =
    ground (arith, drop_slashes_end-append x n ne h, append-ne-nil x n ne)

base-child : (x n : Bytes) → n ≢ [] → Lacks slash n → base (slash ∷ x ++ slash ∷ n) ≡ n
unfolding base
base-child x n ne h = ground (
  arith,
  after_last-append (slash ∷ x) n h,
  append_assoc (slash ∷ x) (slash ∷ []) n,
  drop_slashes_end-append ((slash ∷ x) ++ slash ∷ []) n ne h,
)

base-top : (n : Bytes) → n ≢ [] → Lacks slash n → base (slash ∷ n) ≡ n
unfolding base
base-top n ne h =
    ground (arith, after_last-append [] n h, drop_slashes_end-append (slash ∷ []) n ne h)

resolve-snoc_nil :
    (stack ps : List Bytes)
    → All IsSegment ps
    → resolve true stack (ps ++ [] ∷ []) ≡ reverse stack ++ ps
unfolding resolve
resolve-snoc_nil stack [] _ = unfold push_part in ground (arith, append-nil (reverse stack))
resolve-snoc_nil stack (p ∷ ps) (h, hs) =
    ap (λ s. resolve true s (ps ++ [] ∷ [])) (push_part_of_segment true stack p h)
    ∙ resolve-snoc_nil (p ∷ stack) ps hs
    ∙ rw (reverse-cons, append_assoc)

clean-trailing_slash :
    (p : Bytes) (ps : List Bytes)
    → All IsSegment (p ∷ ps)
    → clean (rooted (p ∷ ps) ++ slash ∷ []) ≡ rooted (p ∷ ps)
clean-trailing_slash p ps h =
    ap (λ s. clean (slash ∷ s)) (sym (join-snoc p ps []))
    ∙ clean-rooted_eq _
    ∙ ap (λ r. rooted (resolve true [] r))
        (split-join slash p (ps ++ [] ∷ [])
          (All-append (Lacks slash) (p ∷ ps) ([] ∷ []) (IsSegments-Lacks (p ∷ ps) h) (refl, tt)))
    ∙ ap rooted (resolve-snoc_nil [] (p ∷ ps) h)

pub dir-child :
    (segs : List Bytes) (n : Bytes)
    → All IsSegment segs
    → IsSegment n
    → dir (child (rooted segs) n) ≡ rooted segs
unfolding dir
dir-child [] n _ k =
    unfold join in ground (arith, up_to_last-append [] n k.no_slash, clean_of_rooted [] tt)
dir-child (p ∷ ps) n h k = ground (
  arith,
  rooted-ne-root p ps h,
  up_to_last-append (rooted (p ∷ ps)) n k.no_slash,
  clean-trailing_slash p ps h,
)

pub base_of_child :
    (segs : List Bytes) (n : Bytes)
    → All IsSegment segs
    → IsSegment n
    → base (child (rooted segs) n) ≡ n
base_of_child [] n _ k = unfold join in ground (arith, base-top n k.some_byte k.no_slash)
base_of_child (p ∷ ps) n h k =
    ground (arith, rooted-ne-root p ps h, base-child (join slash (p ∷ ps)) n k.some_byte k.no_slash)

pub child-ne-root :
    (segs : List Bytes) (n : Bytes) → IsSegment n → child (rooted segs) n ≢ slash ∷ []
child-ne-root segs [] k _ = k.some_byte refl
child-ne-root [] (c ∷ n) k e = unfold join in ground arith
child-ne-root (p ∷ ps) (c ∷ n) k e =
    ground (arith, append-ne-nil (join slash (p ∷ ps)) (slash ∷ c ∷ n) (λ q. cc))
