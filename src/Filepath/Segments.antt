-- ===== src/Filepath/Segments.antt =====
-- Splitting a path at its slashes, joining segments, and resolving "." and "..".
use mathlib.Core.List.{reverse, reverse-cons}
use xx_drive.Prelude.{
  ℕ, ◌≡◌, refl, sym, ap, ◌∙◌, ◌≢◌, Bool, true, false, List, [], ◌∷◌, ◌++◌, append-nil, append_assoc,
  ◌==◌, nat_eq, bytes_eq, contains, All, arith, ◌≡⟨◌⟩◌, ◌∎,
}
use xx_drive.Prelude.Bytes.{Bytes, push_head, split, split-ne-nil, join}
use xx_drive.Filepath.{slash, dot, dot_dot, push_part, resolve}

-- The byte does not occur in the text.
abbrev pub Lacks : ℕ → Bytes → Type 0
Lacks c s = contains s c ≡ false

-- A segment names an entry of a directory: it is none of "", ".", ".." and holds no slash.
pub record IsSegment (p : Bytes) : Type 0 where
  pub some_byte : p ≢ []
  pub not_dot : p ≢ dot
  pub not_dot_dot : p ≢ dot_dot
  pub no_slash : Lacks slash p

pub Lacks-append : (c : ℕ) (s t : Bytes) → Lacks c s → Lacks c t → Lacks c (s ++ t)
Lacks-append c [] t _ k = k
Lacks-append c (d ∷ s) t h k = ground (arith, Lacks-append c s t)

pub Lacks-append_left : (c : ℕ) (s t : Bytes) → Lacks c (s ++ t) → Lacks c s
Lacks-append_left c [] t _ = refl
Lacks-append_left c (d ∷ s) t h = ground (arith, Lacks-append_left c s t)

pub Lacks-append_right : (c : ℕ) (s t : Bytes) → Lacks c (s ++ t) → Lacks c t
Lacks-append_right c [] t h = h
Lacks-append_right c (d ∷ s) t h = ground (arith, Lacks-append_right c s t)

All-push_head :
    (c sep : ℕ) (d : ℕ) (ps : List Bytes)
    → (d == c) ≡ false
    → All (Lacks c) ps
    → All (Lacks c) (push_head d ps)
All-push_head c sep d [] h _ = (ground arith, tt)
All-push_head c sep d (p ∷ ps) h (k, ks) = (ground arith, ks)

-- No part of a split holds the separator.
pub split-Lacks_sep : (sep : ℕ) (s : Bytes) → All (Lacks sep) (split sep s)
unfolding split
split-Lacks_sep sep [] = (refl, tt)
split-Lacks_sep sep (c ∷ s) =
    ground (arith, split-Lacks_sep sep s, All-push_head sep sep c (split sep s))

-- Nor a byte that the text lacks.
pub split-Lacks : (sep c : ℕ) (s : Bytes) → Lacks c s → All (Lacks c) (split sep s)
unfolding split
split-Lacks sep c [] _ = (refl, tt)
split-Lacks sep c (d ∷ s) h =
    ground (arith, split-Lacks sep c s, All-push_head c sep d (split sep s))

pub join-Lacks : (c : ℕ) (ps : List Bytes) → c ≢ slash → All (Lacks c) ps → Lacks c (join slash ps)
unfolding join
join-Lacks c [] _ _ = refl
join-Lacks c (p ∷ []) _ (h, _) = h
join-Lacks c (p ∷ q ∷ ps) ne (h, hs) =
    Lacks-append c p (slash ∷ join slash (q ∷ ps)) h (ground (arith, join-Lacks c (q ∷ ps) ne hs))

pub split_of_Lacks : (sep : ℕ) (p : Bytes) → Lacks sep p → split sep p ≡ p ∷ []
unfolding split
split_of_Lacks sep [] _ = refl
split_of_Lacks sep (c ∷ p) h = ground (arith, split_of_Lacks sep p)

pub split-append :
    (sep : ℕ) (p t : Bytes) → Lacks sep p → split sep (p ++ sep ∷ t) ≡ p ∷ split sep t
unfolding split
split-append sep [] t _ = ground arith
split-append sep (c ∷ p) t h = ground (arith, split-append sep p t)

-- Joining segments and splitting again gives them back.
pub split-join :
    (sep : ℕ) (p : Bytes) (ps : List Bytes)
    → All (Lacks sep) (p ∷ ps)
    → split sep (join sep (p ∷ ps)) ≡ p ∷ ps
unfolding join
split-join sep p [] (h, _) = split_of_Lacks sep p h
split-join sep p (q ∷ ps) (h, hs) =
    split-append sep p _ h ∙ ap (λ r. p ∷ r) (split-join sep q ps hs)

join-push_head :
    (sep c : ℕ) (ps : List Bytes) → ps ≢ [] → join sep (push_head c ps) ≡ c ∷ join sep ps
unfolding join
join-push_head sep c [] h = absurd (h refl)
join-push_head sep c (p ∷ []) h = refl
join-push_head sep c (p ∷ q ∷ ps) h = refl

join-cons_nil : (sep : ℕ) (ps : List Bytes) → ps ≢ [] → join sep ([] ∷ ps) ≡ sep ∷ join sep ps
unfolding join
join-cons_nil sep [] h = absurd (h refl)
join-cons_nil sep (p ∷ ps) h = refl

-- Joining the parts of a split gives the text back.
pub join-split : (sep : ℕ) (s : Bytes) → join sep (split sep s) ≡ s
unfolding split
join-split sep [] = unfold join in refl
join-split sep (c ∷ s) = ground (
  arith,
  join-split sep s,
  join-push_head sep c (split sep s),
  join-cons_nil sep (split sep s),
  split-ne-nil sep s,
)

module _ (P : Bytes → Type 0) where
  pub All-reverse : (xs ys : List Bytes) → All P xs → All P ys → All P (reverse xs ++ ys)
  All-reverse [] ys _ k = k
  All-reverse (x ∷ xs) ys (h, hs) k =
      rw (reverse-cons, append_assoc) (All-reverse xs (x ∷ ys) hs (h, k))

  push_part-All :
      (stack : List Bytes) (p : Bytes) → All P stack → P p → All P (push_part true stack p)
  unfolding push_part
  push_part-All [] p h k = ground arith
  push_part-All (q ∷ stack) p h k = ground arith

  -- Resolving a rooted path invents no segment.
  pub resolve-All : (stack ps : List Bytes) → All P stack → All P ps → All P (resolve true stack ps)
  unfolding resolve
  resolve-All stack [] h _ = rw (sym (append-nil (reverse stack))) (All-reverse stack [] h tt)
  resolve-All stack (p ∷ ps) h (k, ks) =
      resolve-All (push_part true stack p) ps (push_part-All stack p h k) ks

push_part-IsSegment :
    (stack : List Bytes) (p : Bytes)
    → All IsSegment stack
    → Lacks slash p
    → All IsSegment (push_part true stack p)
unfolding push_part
push_part-IsSegment [] p h k = ground arith
push_part-IsSegment (q ∷ stack) p h k = ground arith

pub resolve-IsSegment :
    (stack ps : List Bytes)
    → All IsSegment stack
    → All (Lacks slash) ps
    → All IsSegment (resolve true stack ps)
unfolding resolve
resolve-IsSegment stack [] h _ =
    rw (sym (append-nil (reverse stack))) (All-reverse IsSegment stack [] h tt)
resolve-IsSegment stack (p ∷ ps) h (k, ks) =
    resolve-IsSegment (push_part true stack p) ps (push_part-IsSegment stack p h k) ks

pub push_part_of_segment :
    (rooted : Bool) (stack : List Bytes) (p : Bytes)
    → IsSegment p
    → push_part rooted stack p ≡ p ∷ stack
unfolding push_part
push_part_of_segment rooted stack p h = ground arith

-- Segments resolve to themselves.
pub resolve_of_segments :
    (rooted : Bool) (stack ps : List Bytes)
    → All IsSegment ps
    → resolve rooted stack ps ≡ reverse stack ++ ps
unfolding resolve
resolve_of_segments rooted stack [] _ = sym (append-nil (reverse stack))
resolve_of_segments rooted stack (p ∷ ps) (h, hs) =
    resolve rooted (push_part rooted stack p) ps
    ≡⟨ ap (λ s. resolve rooted s ps) (push_part_of_segment rooted stack p h) ⟩
      resolve rooted (p ∷ stack) ps
    ≡⟨ resolve_of_segments rooted (p ∷ stack) ps hs ⟩ reverse (p ∷ stack) ++ ps
    ≡⟨ (rw (reverse-cons, append_assoc)) ⟩ reverse stack ++ p ∷ ps ∎
