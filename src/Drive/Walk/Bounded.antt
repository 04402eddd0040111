-- ===== src/Drive/Walk/Bounded.antt =====
-- The walks end, and what they may return.
use xx_drive.Prelude.{
  ℕ, zero, suc, ◌+◌, ◌≤◌, ◌<◌, Bool, true, false, not, ◌&&◌, ◌≡◌, refl, ap, inl, inr, List, [], ◌∷◌,
  ◌++◌, Option, some, if◌then◌else◌, ◌==◌, nat_eq, bytes_eq, leb, ltb, length, length-append, arith,
  Bool-cases, Option-cases, subst,
}
use xx_drive.Prelude.Results.{Result, ok, err, not_found, Result-cases}
use xx_drive.Prelude.Bytes.{Bytes, has_prefix, bytes, contains_text, to_lower}
use xx_drive.Filepath.{slash, base}
use xx_drive.Disk.{Node, folder, content, Disk, node_at}
use xx_drive.Drive.Paths.{root, name_of, is_staging_entry}
use xx_drive.Drive.Resolve.{resolve_user_path}
use xx_drive.Drive.Trash.{lstat_of}
use xx_drive.Drive.Trash.Purge.{names_in}
use xx_drive.Drive.Entries.{Entry, Times, entry_of}
use xx_drive.Drive.Folders.{sort_names}
use xx_drive.Drive.Walk.{
  Visit, walk_names, walk_at, Found, search_names, search_at, walk_tree, search_entries,
}

-- The length of the longest path.
abbrev pub longest : Disk → ℕ
longest [] = 0
longest ((k, n) ∷ d) = let rest = longest d in if ltb rest (length k) then length k else rest

node_at-longest : (d : Disk) (p : Bytes) {n : Node} → node_at d p ≡ some n → length p ≤ longest d
node_at-longest [] p e = cc
node_at-longest ((k, m) ∷ d) p {n} e = elim (Bool-cases (k == p)) [
  | inl here ↦ let same : k ≡ p = ground arith in ground (arith, ap (λ (q : Bytes). length q) same)
  | inr other ↦ let ih = node_at-longest d p {n = n} (ground arith) in ground arith
]

module _ (times : Times) (d : Disk) where
  walk_names_total :
      (walk : Bytes → Bytes → Bytes → Option (List Visit)) (p logical : Bytes) (names : List Bytes)
      → ((name : Bytes)
          → (v : List Visit) × (walk (p ++ slash ∷ name) (logical ++ slash ∷ name) name ≡ some v))
      → (v : List Visit) × (walk_names walk p logical names ≡ some v)
  walk_names_total walk p logical [] h = ([], refl)
  walk_names_total walk p logical (name ∷ names) h =
      let (v, e) = h name in
      let (w, f) = walk_names_total walk p logical names h in (v ++ w, ground arith)

  -- A walk that may go as deep as the longest path on the disk comes to an end.
  pub walk_at_total :
      (fuel : ℕ) (p logical name : Bytes)
      → longest d < fuel + length p
      → (v : List Visit) × (walk_at times d (suc fuel) p logical name ≡ some v)
  unfolding walk_at
  walk_at_total zero p logical name enough = elim (Bool-cases (is_staging_entry name)) [
    | inl skipped ↦ ([], ground arith)
    | inr seen ↦ elim (Option-cases (node_at d p)) [
      | inl gone ↦ ([], ground arith)
      | inr (n, here) ↦ absurd (omega (arith, node_at-longest d p here))
    ]
  ]
  walk_at_total (suc fuel) p logical name enough = elim (Bool-cases (is_staging_entry name)) [
    | inl skipped ↦ ([], ground arith)
    | inr seen ↦ elim (Option-cases (node_at d p)) [
      | inl gone ↦ ([], ground arith)
      | inr (content text, here) ↦
          ((entry_of times d p name logical (content text), p) ∷ [], rw (walk_at, seen, here) refl)
      | inr (folder, here) ↦
          let (v, e) =
            walk_names_total (walk_at times d (suc fuel)) p logical (sort_names (names_in d p))
              (λ m.
                walk_at_total fuel (p ++ slash ∷ m) (logical ++ slash ∷ m) m
                  (omega (arith, length-append {0} p (slash ∷ m)))) in
          ((entry_of times d p name logical folder, p) ∷ v, rw (walk_at, seen, here, e) refl)
    ]
  ]

module _ (times : Times) (d : Disk) (query : Bytes) (limit : ℕ) where
  -- A search has come to an end with at most as many entries as the limit.
  abbrev Ended : Option Found → Type 0
  Ended result = (found : Found) × (result ≡ some found) × (length found.0 ≤ limit)

  search_names-Ended :
      (seek : Bytes → Bytes → Bytes → List Entry → Option Found) (p rel : Bytes)
      (names : List Bytes) (out : List Entry)
      → length out ≤ limit
      → ((n : Bytes) (o : List Entry)
          → length o ≤ limit
          → Ended (seek (p ++ slash ∷ n) (rel ++ slash ∷ n) n o))
      → Ended (search_names seek p rel names out)
  search_names-Ended seek p rel [] out fits h = ((out, false), refl, fits)
  search_names-Ended seek p rel (name ∷ names) out fits h =
      let ((out', stop), e, fits') = h name out fits in
      elim (Bool-cases stop) [
        | inl stops ↦ ((out', true), rw (search_names, e, stops) refl, fits')
        | inr goes_on ↦
            let (found, f, bound) = search_names-Ended seek p rel names out' fits' h in
            (found, rw (search_names, e, goes_on) f, bound)
      ]

  pub search_at-Ended :
      (fuel : ℕ) (top : Bool) (p rel name : Bytes) (out : List Entry)
      → longest d < fuel + length p
      → length out ≤ limit
      → Ended (search_at times d query limit (suc fuel) top p rel name out)
  unfolding search_at
  search_at-Ended zero top p rel name out enough fits = elim (Bool-cases (leb limit (length out))) [
    | inl full ↦ ((out, true), rw full refl, fits)
    | inr room ↦ elim (Option-cases (node_at d p)) [
      | inl gone ↦ ((out, false), rw (room, gone) refl, fits)
      | inr (n, here) ↦ absurd (omega (arith, node_at-longest d p here))
    ]
  ]
  search_at-Ended (suc fuel) top p rel name out enough fits =
      let (found, below, bound) =
        search_names-Ended (search_at times d query limit (suc fuel) false) p rel
          (sort_names (names_in d p)) out fits
          (λ n o k.
            search_at-Ended fuel false (p ++ slash ∷ n) (rel ++ slash ∷ n) n o
              (omega (arith, length-append {0} p (slash ∷ n))) k) in
      elim (Bool-cases (leb limit (length out))) [
        | inl full ↦ ((out, true), rw full refl, fits)
        | inr room ↦ elim (Option-cases (node_at d p)) [
          | inl gone ↦ ((out, false), rw (room, gone) refl, fits)
          | inr (content text, here) ↦ elim (Bool-cases (contains_text (to_lower name) query)) [
            | inl hit ↦
                let e = entry_of times d p name rel (content text) in
                (
                  (out ++ e ∷ [], false),
                  rw (search_at, room, here, hit) refl,
                  ground (arith, length-append {0} out (e ∷ [])),
                )
            | inr miss ↦ ((out, false), rw (search_at, room, here, miss) refl, fits)
          ]
          | inr (folder, here) ↦ elim (Bool-cases (has_prefix name (bytes ".") && not top)) [
            | inl hidden ↦ ((out, false), rw (search_at, room, here, hidden) refl, fits)
            | inr open_one ↦ (found, rw (search_at, room, here, open_one) below, bound)
          ]
        ]
      ]

-- A walk whose fuel is more than the longest path on the disk comes to an end, with a result or an error.
pub walk_tree_ends :
    (times : Times) (fuel : ℕ) (d : Disk) (data_root user rel : Bytes)
    → longest d < fuel
    → (result : Result (List Visit)) × (walk_tree times d (suc fuel) data_root user rel
        ≡ some result)
unfolding walk_tree
walk_tree_ends times fuel d data_root user rel enough =
    elim (Result-cases (resolve_user_path (lstat_of d) data_root user rel)) [
      | inr (e, failed) ↦ (err e, rw (walk_tree, failed) refl)
      | inl ((abs, logical), found) ↦ elim (Option-cases (node_at d abs)) [
        | inl gone ↦ (err not_found, rw (walk_tree, found, gone) refl)
        | inr (content text, here) ↦ (
          ok ((entry_of times d abs (name_of logical) logical (content text), abs) ∷ []),
          rw (walk_tree, found, here) refl,
        )
        | inr (folder, here) ↦
            let (visits, done) = walk_at_total times d fuel abs logical (base abs) (omega arith) in
            (ok visits, rw (walk_tree, found, here, done) refl)
      ]
    ]

-- A search whose fuel is more than the longest path on the disk comes to an end, with an error or with
-- at most as many entries as the limit.
pub search_entries_ends :
    (times : Times) (fuel : ℕ) (d : Disk) (data_root user query : Bytes) (limit : ℕ)
    → longest d < fuel
    → (result : Result (List Entry)) × (search_entries times (suc fuel) d data_root user query limit
        ≡ some result)
      × ((es : List Entry) → result ≡ ok es → length es ≤ limit)
unfolding search_entries
search_entries_ends times fuel d data_root user query limit enough =
    elim (Result-cases (resolve_user_path (lstat_of d) data_root user root)) [
      | inr (e, failed) ↦ (err e, rw (search_entries, failed) refl, λ es q. absurd (ground arith))
      | inl ((abs, logical), found) ↦
          let ((out, stopped), done, bound) =
            search_at-Ended times d (to_lower query) limit fuel true abs [] (base abs) []
              (omega arith) (omega arith) in
          (
            ok out,
            rw (search_entries, found, done) refl,
            λ es q. let same : out ≡ es = ground arith in subst (λ x. length x ≤ limit) same bound,
          )
    ]
