-- ===== src/Drive/Moves/Whole.antt =====
-- A rename or a move takes the whole tree along, and replaces nothing.
use xx_drive.Prelude.{
  Bool, ◌≡◌, ◌≢◌, refl, arith, ap, ◌∙◌, inl, inr, [], none, Bool-cases, Option-cases,
}
use xx_drive.Prelude.Bytes.{Bytes}
use xx_drive.Prelude.Results.{Result, ok, err}
use xx_drive.Disk.{Disk, tree_at, node_at, rename}
use xx_drive.Disk.Strip.{Apart}
use xx_drive.Disk.Rename.{
  tree_at-rename_entries, tree_at-rename_entries_source, tree_at-rename_entries_other,
  rename-eq-some,
}
use xx_drive.Drive.Moves.{rename_to_free}

-- A failure changes nothing. A success found nothing at the destination and something at the source, and
-- leaves the whole tree at the destination, none at the source, and every tree apart from the two as it
-- was.
abbrev pub Moved : Disk → Bytes → Bytes → Result Bytes × Disk → Type 0
Moved d src dst (err e, d') = d' ≡ d
Moved d src dst (ok l, d') =
    (node_at d dst ≡ none)
    × (node_at d src ≢ none)
    × (tree_at d' dst ≡ tree_at d src)
    × (tree_at d' src ≡ [])
    × ((p : Bytes) → Apart p src → Apart p dst → tree_at d' p ≡ tree_at d p)

-- The rename at the end of `Rename` and of `Move` replaces nothing: a failure changes nothing, and a
-- success only comes about where there was nothing at the destination and something at the source, moves
-- the whole tree and touches no other. The two places are apart, and below a
-- destination that does not exist there is nothing.
pub rename_to_free-Moved :
    (fails : Bool) (d : Disk) (src dst logical : Bytes)
    → Apart src dst
    → (node_at d dst ≡ none → tree_at d dst ≡ [])
    → Moved d src dst (rename_to_free fails d src dst logical)
unfolding rename_to_free
rename_to_free-Moved fails d src dst logical apart rooted = elim (Option-cases (node_at d dst)) [
  | inr (n, taken) ↦ rw (rename_to_free, taken) refl
  | inl free ↦ elim (Bool-cases fails) [
    | inl bad ↦ rw (rename_to_free, free, bad) refl
    | inr sound ↦ elim (Option-cases (node_at d src)) [
      | inl missing ↦ rw (rename_to_free, free, sound, missing) refl
      | inr (m, here) ↦ elim (Option-cases (rename d src dst)) [
        | inl refused ↦ rw (rename_to_free, free, sound, here, refused) refl
        | inr (d', done) ↦
            let shape = rename-eq-some d src dst (rooted free) done in
            rw (rename_to_free, free, sound, here, done)
              (
                free,
                λ missing. absurd (ground arith),
                ap (λ x. tree_at x dst) shape ∙ tree_at-rename_entries src dst d (rooted free),
                ap (λ x. tree_at x src) shape ∙ tree_at-rename_entries_source src dst d apart,
                λ p a b. ap (λ x. tree_at x p) shape ∙ tree_at-rename_entries_other src dst p d a b,
              )
      ]
    ]
  ]
]
