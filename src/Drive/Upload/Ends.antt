-- ===== src/Drive/Upload/Ends.antt =====
-- The search for a free name ends: each round lengthens the path, and long paths are refused.
use xx_drive.Prelude.{
  ℕ, zero, suc, ◌+◌, ◌/◌, ◌%◌, ◌≤◌, ◌<◌, false, ◌≡◌, ◌≢◌, refl, sym, ap, ◌∙◌, ◌⊎◌, inl, inr, List,
  [], ◌∷◌, ◌++◌, append_assoc, append-nil, some, ◌==◌, nat_eq, bytes_eq, arith, Bool-cases,
  Option-cases, ltb, length, length-append, All, contains, subst,
}
use xx_drive.Prelude.Bytes.{Bytes, bytes, trim_suffix, join}
use xx_drive.Prelude.Results.{Result, ok, err, Result-cases}
use xx_drive.Filepath.{slash, clean, ext, from_last_dot}
use xx_drive.Filepath.Segments.{
  Lacks, Lacks-append, Lacks-append_left, Lacks-append_right, IsSegment,
}
use xx_drive.Filepath.Canonical.{rooted, IsCanonical, clean-slash, split-join_segments}
use xx_drive.Filepath.Children.{after_last-append}
use xx_drive.Disk.{Disk, node_at}
use xx_drive.Drive.Paths.{root, max_path, join_logical, validate_rel, check_clean}
use xx_drive.Drive.Paths.Validate.{check_clean-rooted}
use xx_drive.Drive.Resolve.{resolve_user_path}
use xx_drive.Drive.Resolve.Within.{IsCanonical-of_split}
use xx_drive.Drive.Resolve.Location.{resolve_user_path-eq-ok}
use xx_drive.Drive.Trash.{lstat_of, decimal, digits}
use xx_drive.Drive.Layout.{IsPlain, IsPlain-append, IsPlain-segment}
use xx_drive.Drive.Upload.{counted, free_name, name_fuel}
use xx_drive.Drive.Paths.Names.{join_logical-eq-ok}

from_last_dot-suffix : (n : Bytes) → (u : Bytes) × (n ≡ u ++ from_last_dot n)
unfolding from_last_dot
from_last_dot-suffix [] = ([], refl)
from_last_dot-suffix (c ∷ n) = elim (Bool-cases (contains n b'.')) [
  | inl later ↦ let (u, e) = from_last_dot-suffix n in (c ∷ u, ground arith)
  | inr last ↦ elim (Bool-cases (c == b'.')) [
    | inl here ↦ ([], ground arith)
    | inr plain ↦ (c ∷ n, ground (arith, append-nil (c ∷ n)))
  ]
]

longer_ne : (s e : Bytes) (c : ℕ) → c ∷ (s ++ e) ≢ e
longer_ne s e c h = absurd (omega (arith, ap length h, length-append {0} s e))

trim_suffix-append : (u e : Bytes) → trim_suffix (u ++ e) e ≡ u
unfolding trim_suffix
trim_suffix-append [] [] = refl
trim_suffix-append [] (c ∷ e) = ground arith
trim_suffix-append (c ∷ u) e = ground (arith, longer_ne u e c, trim_suffix-append u e)

mark : ℕ → Bytes
mark i = bytes " (" ++ (decimal i ++ bytes ")")

digits-Lacks : (fuel n : ℕ) → Lacks slash (digits fuel n)
digits-Lacks zero n = refl
digits-Lacks (suc fuel) n = elim (Bool-cases (ltb n 10)) [
  | inl small ↦ ground arith
  | inr large ↦
      let last : Lacks slash ((b'0' + n % 10) ∷ []) = ground arith in
      let all =
        Lacks-append slash (digits fuel (n / 10)) ((b'0' + n % 10) ∷ [])
          (digits-Lacks fuel (n / 10)) last in
      ground arith
]

-- A directory of a path, without its last slash.
abbrev IsBelow : Bytes → Type 0
IsBelow x = (x ≡ []) ⊎ ((y : Bytes) × (x ≡ slash ∷ y) × IsPlain y)

below-IsCanonical : (x n : Bytes) → IsBelow x → IsSegment n → IsCanonical (x ++ slash ∷ n)
below-IsCanonical x n (inl e) h = rw e (IsCanonical-of_split n (IsPlain-segment n h))
below-IsCanonical x n (inr (y, e, p)) h =
    rw e (IsCanonical-of_split (y ++ slash ∷ n) (IsPlain-append y n p (IsPlain-segment n h)))

counted_shape :
    (p e stem : Bytes) (i : ℕ)
    → ext p ≡ e
    → trim_suffix p e ≡ stem
    → counted p i ≡ stem ++ (mark i ++ e)
unfolding counted mark
counted_shape p e stem i he ht = rw (he, ht) refl

-- The next name is in the same directory, and longer.
counted_lem :
    (x n : Bytes) (i : ℕ)
    → IsSegment n
    → (n' : Bytes) × (counted (x ++ slash ∷ n) i ≡ x ++ slash ∷ n')
      × IsSegment n'
      × (length n < length n')
unfolding ext mark
counted_lem x n i h =
    let e = from_last_dot n in
    let (u, parts) = from_last_dot-suffix n in
    let no_slash : Lacks slash (u ++ e) = subst (Lacks slash) parts h.no_slash in
    let n' = u ++ (mark i ++ e) in
    let grown : length n + 3 ≤ length n' = omega (
      arith,
      ap length parts,
      length-append {0} u e,
      length-append {0} u (mark i ++ e),
      length-append {0} (mark i) e,
      length-append {0} (decimal i) (bytes ")"),
    ) in
    let ext_eq : ext (x ++ slash ∷ n) ≡ e = ap from_last_dot (after_last-append x n h.no_slash) in
    let trimmed : trim_suffix (x ++ slash ∷ n) e ≡ x ++ slash ∷ u =
      ap (λ t. trim_suffix t e)
        (ap (λ m. x ++ slash ∷ m) parts ∙ sym (append_assoc x (slash ∷ u) e))
      ∙ trim_suffix-append (x ++ slash ∷ u) e in
    let shape =
      counted_shape (x ++ slash ∷ n) e (x ++ slash ∷ u) i ext_eq trimmed
      ∙ append_assoc x (slash ∷ u) (mark i ++ e) in
    (
      n',
      shape,
      record {
        some_byte = λ q. absurd (omega (arith, ap length q));
        not_dot = λ q. absurd (omega (arith, ap length q));
        not_dot_dot = λ q. absurd (omega (arith, ap length q));
        no_slash = Lacks-append slash u (mark i ++ e) (Lacks-append_left slash u e no_slash) (
            Lacks-append slash (mark i) e
              (Lacks-append slash (bytes " (") (decimal i ++ bytes ")") (ground arith) (
                Lacks-append slash (decimal i) (bytes ")") (digits-Lacks (suc i) i) (ground arith)))
              (Lacks-append_right slash u e no_slash));
      },
      omega arith,
    )

validate_rel-checked :
    (c : ℕ) (s : Bytes) {w : Bytes}
    → validate_rel (c ∷ s) ≡ ok w
    → check_clean (clean (slash ∷ c ∷ s)) ≡ ok w
unfolding validate_rel
validate_rel-checked c s e = ground arith

long_refused_rooted :
    (s : Bytes) {w : Bytes}
    → clean (slash ∷ slash ∷ s) ≡ slash ∷ s
    → max_path < length (slash ∷ s)
    → validate_rel (slash ∷ s) ≢ ok w
long_refused_rooted s {w} same long e =
    let checked : check_clean (slash ∷ s) ≡ ok w =
      subst (λ t. check_clean t ≡ ok w) same (validate_rel-checked slash s e) in
    ground (arith, check_clean-rooted s)

long_refused : {v w : Bytes} → IsCanonical v → max_path < length v → validate_rel v ≢ ok w
long_refused {v} {w} c long e =
    long_refused_rooted (join slash c.segs) {w = w}
      (subst (λ t. clean (slash ∷ t) ≡ t) c.shape (clean-slash c))
      (subst (λ t. max_path < length t) c.shape long) (subst (λ t. validate_rel t ≡ ok w) c.shape e)

join_nil : join slash [] ≡ []
unfolding join
join_nil = refl

module _ (r user : Bytes) (d : Disk) where
  free_name_total :
      (fuel : ℕ) (x n : Bytes) (i : ℕ)
      → IsBelow x
      → IsSegment n
      → max_path < fuel + length (x ++ slash ∷ n)
      → (result : Result Bytes) × (free_name (slash ∷ r) user (suc fuel) d (x ++ slash ∷ n) i
          ≡ some result)
  unfolding free_name
  free_name_total zero x n i below seg enough =
      elim (Result-cases (resolve_user_path (lstat_of d) (slash ∷ r) user (x ++ slash ∷ n))) [
        | inr (e, failed) ↦ (err e, ground arith)
        | inl ((probe, logical), found) ↦
            let (valid, _, _, _) =
              resolve_user_path-eq-ok (lstat_of d) (slash ∷ r) user (x ++ slash ∷ n) found in
            absurd (long_refused (below-IsCanonical x n below seg) (omega arith) valid)
      ]
  free_name_total (suc fuel) x n i below seg enough =
      elim (Result-cases (resolve_user_path (lstat_of d) (slash ∷ r) user (x ++ slash ∷ n))) [
        | inr (e, failed) ↦ (err e, ground arith)
        | inl ((probe, logical), found) ↦ elim (Option-cases (node_at d probe)) [
          | inl vacant ↦ (ok (x ++ slash ∷ n), ground arith)
          | inr (m, taken) ↦
              let (n', shape, seg', grown) = counted_lem x n i seg in
              let (result, done) = free_name_total fuel x n' (i + 1) below seg' (
                omega (arith, length-append {0} x (slash ∷ n), length-append {0} x (slash ∷ n'))) in
              (result, ground arith)
        ]
      ]

  -- The search for the name of a conflict copy comes to an end, whatever is on the disk: the fuel that
  -- the model gives to it is never used up.
  pub free_name_ends :
      (parent name : Bytes) {np : Bytes}
      → IsCanonical parent
      → join_logical parent name ≡ ok np
      → (result : Result Bytes) × (free_name (slash ∷ r) user name_fuel d np 2 ≡ some result)
  free_name_ends parent name {np} c e =
      let (seg, place) = join_logical-eq-ok parent name e in
      elim (Bool-cases (parent == root)) [
        | inl top ↦
            let same : np ≡ [] ++ slash ∷ name = ground arith in
            rw same (free_name_total 4097 [] name 2 (inl refl) seg (omega arith))
        | inr deep ↦
            let same : np ≡ parent ++ slash ∷ name = ground arith in
            rw same (free_name_total 4097 parent name 2 (below_of c deep) seg (omega arith))
      ]
    where
      go :
          (segs : List Bytes)
          → parent ≡ rooted segs
          → All IsSegment segs
          → (parent == root) ≡ false
          → IsBelow parent
      go [] shape plain ne = absurd (ground (arith, join_nil))
      go (s ∷ ss) shape plain ne =
          inr (join slash (s ∷ ss), shape, rw (split-join_segments s ss plain) plain)

      below_of : IsCanonical parent → (parent == root) ≡ false → IsBelow parent
      below_of k ne = go k.segs k.shape k.plain ne
