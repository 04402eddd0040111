-- ===== src/Store/Versions/Relocated.antt =====
-- The histories after a rename or a move.
use mathlib.Core.List.{append_cancel_left}
use xx_drive.Prelude.{
  ℕ, Bool, true, false, ◌&&◌, ◌≡◌, refl, sym, ap, ◌∙◌, inl, inr, List, [], ◌∷◌, ◌++◌, map, ◌==◌,
  nat_eq, bytes_eq, arith, keep, length, drop, All, Bool-cases,
}
use xx_drive.Prelude.Bytes.{Bytes}
use xx_drive.Prelude.Tables.{update, sort_by_desc}
use xx_drive.Filepath.Canonical.{IsTail}
use xx_drive.Store.Rows.{Version, Db}
use xx_drive.Store.Like.{IsLike}
use xx_drive.Store.Versions.{
  is_at, in_subtree, is_root, info_of, VersionInfo, list_versions, relocate_versions,
}
use xx_drive.Store.Versions.Subtrees.{under-tail, is_at-in_subtree}

test_iff : (a b c d : Bytes) → (a ≡ b → c ≡ d) → (c ≡ d → a ≡ b) → (a == b) ≡ (c == d)
test_iff a b c d there back = elim (Bool-cases (a == b)) [
  | inl same ↦ let e = there (ground arith) in ground arith
  | inr apart ↦ elim (Bool-cases (c == d)) [
    | inl same ↦ let e = back (ground arith) in ground arith
    | inr apart' ↦ ground arith
  ]
]

module _ (like : Bytes → Bytes → Bool) (user : ℕ) (old new : Bytes) where
  -- The row's path is spelled like the old path where it is below it, and is not the new place.
  pub record IsPlain (t : Bytes) (v : Version) : Type 0 where
    pub spelled : in_subtree like user old v ≡ true → v.path ≡ old ++ drop (length old) v.path
    pub vacant : is_at user (new ++ t) v ≡ false

  moved-is_at :
      (t : Bytes) (v : Version)
      → in_subtree like user old v ≡ true
      → IsPlain t v
      → is_at user (new ++ t) (record v { path = new ++ drop (length old) v.path })
        ≡ is_at user (old ++ t) v
  moved-is_at t v h plain =
      let x = drop (length old) v.path in
      let e = plain.spelled h in
      ap (λ b. v.user_id == user && b)
        (test_iff (new ++ x) (new ++ t) v.path (old ++ t)
          (λ same. e ∙ ap (λ y. old ++ y) (append_cancel_left new _ _ same))
          (λ same. ap (λ y. new ++ y) (append_cancel_left old _ _ (sym e ∙ same))))

  history-moved :
      (laws : IsLike like) (t : Bytes) (rows : List Version)
      → IsTail t
      → All (IsPlain t) rows
      → map info_of (
          keep (is_at user (new ++ t)) (
            update
              (in_subtree like user old)
              (λ v. record v { path = new ++ drop (length old) v.path })
              rows))
        ≡ map info_of (keep (is_at user (old ++ t)) rows)
  history-moved laws t [] tail _ = refl
  history-moved laws t (v ∷ rows) tail (h, hs) = elim (Bool-cases (in_subtree like user old v)) [
    | inl hit ↦
        let same = moved-is_at t v hit h in
        let rest = history-moved laws t rows tail hs in
        rw hit (elim (Bool-cases (is_at user (old ++ t) v)) [
          | inl at ↦ rw (same ∙ at, at) (ap (λ r. info_of v ∷ r) rest)
          | inr off ↦ rw (same ∙ off, off) rest
        ])
    | inr out ↦
        let rest = history-moved laws t rows tail hs in
        elim (Bool-cases (is_at user (old ++ t) v)) [
          | inl at ↦
              let hit =
                is_at-in_subtree like user old (old ++ t) v (under-tail like laws old t tail) at in
              absurd (ground arith)
          | inr off ↦ rw (out, h.vacant, off) rest
        ]
  ]

  -- After a rename or a move, the history of each path at and below the new place is that of the path
  -- at and below the old one. Neither place is the root, no row of the user has the path at the new
  -- place already, and each row below the old place up to case is spelled like it.
  pub relocate_versions-list_versions :
      (laws : IsLike like) (db : Db) (t : Bytes)
      → IsTail t
      → is_root old ≡ false
      → is_root new ≡ false
      → All (IsPlain t) db.versions
      → list_versions ((relocate_versions like db user old new).1) user (new ++ t)
        ≡ list_versions db user (old ++ t)
  unfolding list_versions relocate_versions
  relocate_versions-list_versions laws db t tail h k plain =
      rw (h, k)
        (ap (sort_by_desc (λ (i : VersionInfo). i.created_at))
          (history-moved laws t db.versions tail plain))
