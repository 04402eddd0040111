-- ===== src/Store/Versions/Pruned.antt =====
-- The nightly pruning of old versions.
use xx_drive.Prelude.{
  ℕ, ◌≤◌, Bool, true, false, not, ◌≡◌, refl, sym, ap, ◌∙◌, inl, inr, List, [], ◌∷◌, some, ◌==◌,
  nat_eq, bytes_eq, arith, any, find, keep, ltb, All, find-All, Bool-cases,
}
use xx_drive.Prelude.Bytes.{Bytes}
use xx_drive.Prelude.Tables.{keep-all, keep-not_or, Distinct, find-some, All-map}
use xx_drive.Store.Rows.{User, Version, Db}
use xx_drive.Store.Users.{has_id, is_named, user_by_id, user_by_name}
use xx_drive.Store.Users.Invariant.{HasUsers, same_name}
use xx_drive.Store.Versions.{
  PrunedRow, row_number, pruned_rows, is_pruned, delete_pruned, prune_versions,
}

same_self : (s : Bytes) → (s == s) ≡ true
same_self s = ground arith

-- The name of a user that an id finds leads back to the user.
find-named :
    (us : List User) (i : ℕ) {u : User}
    → Distinct same_name us
    → find (has_id i) us ≡ some u
    → find (is_named u.username) us ≡ some u
find-named [] i _ e = cc
find-named (x ∷ us) i {u} (d, ds) e = elim (Bool-cases (x.id == i)) [
  | inl hit ↦ let here : x ≡ u = ground arith in rw (sym here, same_self x.username) refl
  | inr passed ↦
      let later : find (has_id i) us ≡ some u = ground arith in
      let apart = find-All (λ y. same_name x y ≡ false) (has_id i) us {x = u} d later in
      let rest = find-named us i ds later in ground arith
]

-- The foreign key: each version has a user.
abbrev pub HasOwner : Db → Version → Type 0
HasOwner db v = (u : User) × (user_by_id db v.user_id ≡ some u)

delete_pruned-keep :
    (db : Db) (ps : List PrunedRow) (rows : List Version)
    → delete_pruned db ps rows ≡ keep (λ v. not (any (λ p. is_pruned db p v) ps)) rows
delete_pruned-keep db [] rows = sym (keep-all rows)
delete_pruned-keep db (p ∷ ps) rows =
    delete_pruned-keep db ps (keep (λ v. not (is_pruned db p v)) rows)
    ∙ keep-not_or (is_pruned db p) (λ v. any (λ q. is_pruned db q v) ps) rows

any-head :
    (f : PrunedRow → Bool) (p : PrunedRow) (ps : List PrunedRow)
    → f p ≡ true
    → any f (p ∷ ps) ≡ true
any-head f p ps h = ground arith

any-tail :
    (f : PrunedRow → Bool) (p : PrunedRow) (ps : List PrunedRow)
    → any f ps ≡ true
    → any f (p ∷ ps) ≡ true
any-tail f p ps h = ground arith

is_pruned_self :
    (db : Db) (v : Version) (u : User)
    → HasUsers db
    → user_by_id db v.user_id ≡ some u
    → is_pruned db (record { username = u.username; path = v.path; version_id = v.version_id }) v
      ≡ true
unfolding user_by_id user_by_name
is_pruned_self db v u h e =
    let back = find-named db.users v.user_id h.names e in
    let hit = find-some (has_id v.user_id) db.users {x = u} e in rw back (ground arith)

pruned_rows-hit :
    (db : Db) (limit : ℕ) (vs : List Version)
    → HasUsers db
    → All (HasOwner db) vs
    → All
        (λ v.
          ltb limit (row_number db.versions v) ≡ true
          → any (λ p. is_pruned db p v) (pruned_rows db limit vs) ≡ true)
        vs
pruned_rows-hit db limit [] h _ = tt
pruned_rows-hit db limit (v ∷ vs) h ((u, owner), hs) =
    let self = is_pruned_self db v u h owner in
    let rest = pruned_rows-hit db limit vs h hs in
    let p : PrunedRow = record {
      username = u.username;
      path = v.path;
      version_id = v.version_id;
    } in
    elim (Bool-cases (ltb limit (row_number db.versions v))) [
      | inl over ↦
          let shape : pruned_rows db limit (v ∷ vs) ≡ p ∷ pruned_rows db limit vs =
            rw (over, owner) refl in
          (
            (λ yes.
                ap (any (λ q. is_pruned db q v)) shape
                ∙ any-head (λ q. is_pruned db q v) p (pruned_rows db limit vs) self),
            All-map
                (λ w k yes.
                  ap (any (λ q. is_pruned db q w)) shape
                  ∙ any-tail (λ q. is_pruned db q w) p (pruned_rows db limit vs) (k yes))
                vs rest,
          )
      | inr within ↦
          let shape : pruned_rows db limit (v ∷ vs) ≡ pruned_rows db limit vs = rw within refl in
          (
            (λ yes. absurd (ground arith)),
            All-map (λ w k yes. ap (any (λ q. is_pruned db q w)) shape ∙ k yes) vs rest,
          )
    ]

-- After pruning, no row is left that stood beyond the limit in the history of its path, counted from
-- the newest. Every version has a user, and the users table is well formed.
pub prune_versions-row_number :
    (db : Db) (limit : ℕ)
    → HasUsers db
    → All (HasOwner db) db.versions
    → All (λ v. row_number db.versions v ≤ limit) ((prune_versions db limit).1.versions)
unfolding prune_versions
prune_versions-row_number db limit h owners =
    rw (delete_pruned-keep db (pruned_rows db limit db.versions) db.versions)
      (within db.versions (pruned_rows-hit db limit db.versions h owners))
  where
    at_most :
        (v : Version)
        → (ltb limit (row_number db.versions v) ≡ true
            → any (λ p. is_pruned db p v) (pruned_rows db limit db.versions) ≡ true)
        → any (λ p. is_pruned db p v) (pruned_rows db limit db.versions) ≡ false
        → row_number db.versions v ≤ limit
    at_most v k left = elim (Bool-cases (ltb limit (row_number db.versions v))) [
      | inl over ↦ let hit = k over in cc
      | inr in_limit ↦ ground arith
    ]

    within :
        (vs : List Version)
        → All
            (λ v.
              ltb limit (row_number db.versions v) ≡ true
              → any (λ p. is_pruned db p v) (pruned_rows db limit db.versions) ≡ true)
            vs
        → All
            (λ v. row_number db.versions v ≤ limit)
            (keep (λ v. not (any (λ p. is_pruned db p v) (pruned_rows db limit db.versions))) vs)
    within [] _ = tt
    within (v ∷ vs) (k, ks) =
        elim (Bool-cases (any (λ p. is_pruned db p v) (pruned_rows db limit db.versions))) [
          | inl gone ↦ rw gone (within vs ks)
          | inr left ↦ rw left (at_most v k left, within vs ks)
        ]
