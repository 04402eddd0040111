-- ===== src/Drive/Trash/Kept.antt =====
-- No deletion loses what it is to keep.
use xx_drive.Prelude.{
  subst, Bool, false, ◌≡◌, ◌≢◌, refl, sym, ap, ◌∙◌, inl, inr, [], ◌∷◌, ◌++◌, Option, none, some,
  nat_eq, bytes_eq, arith, Bool-cases, Option-cases, append_assoc,
}
use xx_drive.Prelude.Bytes.{Bytes, bytes}
use xx_drive.Prelude.Results.{Result, ok, err}
use xx_drive.Filepath.{slash}
use xx_drive.Disk.{
  Node, content, Disk, tree_at, node_at, remove_all, write_file, make_all, rename, rename_entries,
}
use xx_drive.Disk.Strip.{Apart, Apart-sym, Apart-longer, Apart-deeper}
use xx_drive.Disk.Rename.{
  at_root, node_at-tree, tree_at-remove_all, tree_at-write_file, strip-self-other, make_all-tree,
  tree_at-rename_entries, tree_at-rename_entries_source, tree_at-rename_entries_other,
  rename-eq-some, rename-free, strip-longer, node_at-write_file,
}
use xx_drive.Drive.Trash.{
  Call, make_folder, write_sidecar, move_payload, publish, roll_back, attempt, payload_at, meta_at,
  sidecar_at, publish_item, move_item, trash_item,
}

-- Either the deletion succeeded: the item is whole in the trash, nothing is left at its path, and its
-- metadata is published. Or it failed, and the item is whole where it was, unless the rollback failed
-- as well.
abbrev pub Kept :
    (Call → Bool) → Disk → Bytes → Bytes → Bytes → Bytes → Result (Bytes × Bytes) × Disk → Type 0
Kept fails d abs dir id meta (ok r, d') =
    (r.0 ≡ id)
    × (tree_at d' (payload_at dir id) ≡ tree_at d abs)
    × (tree_at d' abs ≡ [])
    × (node_at d' (meta_at dir id) ≡ some (content meta))
Kept fails d abs dir id meta (err e, d') = fails roll_back ≡ false → tree_at d' abs ≡ tree_at d abs

-- The names of a new item.
abbrev pub IsUnused : Disk → Bytes → Bytes → Type 0
IsUnused d dir id = (tree_at d (payload_at dir id) ≡ []) × (tree_at d (meta_at dir id) ≡ [])

attempt-some : (f : Bool) (o : Option Disk) {d : Disk} → attempt f o ≡ some d → o ≡ some d
attempt-some f o e = ground arith

attempt-none : (f : Bool) (o : Option Disk) {d : Disk} → f ≡ false → attempt f o ≡ none → o ≢ some d
attempt-none f o sound e h = ground arith

module _ (fails : Call → Bool) (abs dir id : Bytes) (apart : Apart abs dir) where
  abs-payload : Apart abs (payload_at dir id)
  abs-payload = Apart-deeper abs dir id apart

  abs-meta : Apart abs (meta_at dir id)
  abs-meta =
      rw (append_assoc dir (slash ∷ id) (bytes ".json"))
        (Apart-deeper abs dir (id ++ bytes ".json") apart)

  abs-sidecar : Apart abs (sidecar_at dir id)
  abs-sidecar =
      rw (append_assoc dir (slash ∷ id) (bytes ".json.tmp"))
        (Apart-deeper abs dir (id ++ bytes ".json.tmp") apart)

  payload-meta : Apart (payload_at dir id) (meta_at dir id)
  payload-meta = Apart-longer (payload_at dir id) 46 (bytes "json") (λ e. ground arith)

  payload-sidecar : Apart (payload_at dir id) (sidecar_at dir id)
  payload-sidecar = Apart-longer (payload_at dir id) 46 (bytes "json.tmp") (λ e. ground arith)

  meta-sidecar : Apart (meta_at dir id) (sidecar_at dir id)
  meta-sidecar =
      subst (λ p. Apart (meta_at dir id) p)
        (append_assoc (payload_at dir id) (bytes ".json") (bytes ".tmp"))
        (Apart-longer (meta_at dir id) 46 (bytes "tmp") (λ e. ground arith))

  -- The item is in the trash, and its metadata in the sidecar.
  publish_item-Kept :
      (d moved : Disk) (logical meta : Bytes) {n : Node}
      → node_at d abs ≡ some n
      → tree_at moved (payload_at dir id) ≡ tree_at d abs
      → tree_at moved abs ≡ []
      → tree_at moved (meta_at dir id) ≡ []
      → node_at moved (sidecar_at dir id) ≡ some (content meta)
      → Kept fails d abs dir id meta (publish_item fails moved abs logical dir id)
  unfolding publish_item
  publish_item-Kept d moved logical meta {n} here item gone free text =
      let payload = payload_at dir id in
      let side = sidecar_at dir id in
      let into = meta_at dir id in
      elim (Option-cases (attempt (fails publish) (rename moved side into))) [
        | inr (done, published) ↦
            let renamed = attempt-some (fails publish) (rename moved side into) published in
            let shape = rename-eq-some moved side into free renamed in
            rw (publish_item, published)
              (
                refl,
                ap (λ x. tree_at x payload) shape
                    ∙ tree_at-rename_entries_other side into payload moved payload-sidecar
                        payload-meta
                    ∙ item,
                ap (λ x. tree_at x abs) shape
                    ∙ tree_at-rename_entries_other side into abs moved abs-sidecar abs-meta
                    ∙ gone,
                ap (λ x. node_at x into) shape
                    ∙ node_at-tree (rename_entries side into moved) into
                    ∙ ap at_root (tree_at-rename_entries side into moved free)
                    ∙ sym (node_at-tree moved side)
                    ∙ text,
              )
        | inl failed ↦
            let cleared = remove_all moved side in
            let whole = tree_at-remove_all moved payload side payload-sidecar ∙ item in
            let empty = tree_at-remove_all moved abs side abs-sidecar ∙ gone in
            let present : node_at cleared payload ≡ some n =
              node_at-tree cleared payload ∙ ap at_root whole ∙ sym (node_at-tree d abs) ∙ here in
            let works = rename-free cleared payload abs present empty in
            elim (Option-cases (attempt (fails roll_back) (rename cleared payload abs))) [
              | inl stuck ↦
                  rw (publish_item, failed, stuck)
                    (λ sound. absurd (
                      attempt-none (fails roll_back) (rename cleared payload abs) sound stuck
                        works))
              | inr (back, rolled) ↦
                  let renamed =
                    attempt-some (fails roll_back) (rename cleared payload abs) rolled in
                  let shape = rename-eq-some cleared payload abs empty renamed in
                  rw (publish_item, failed, rolled)
                    (λ sound.
                      ap (λ x. tree_at x abs) shape
                      ∙ tree_at-rename_entries payload abs cleared empty
                      ∙ whole)
            ]
      ]

  move_item-Kept :
      (d ready : Disk) (logical meta : Bytes) {n : Node}
      → node_at d abs ≡ some n
      → tree_at ready abs ≡ tree_at d abs
      → tree_at ready (payload_at dir id) ≡ []
      → tree_at ready (meta_at dir id) ≡ []
      → node_at ready (sidecar_at dir id) ≡ some (content meta)
      → Kept fails d abs dir id meta (move_item fails ready abs logical dir id)
  unfolding move_item
  move_item-Kept d ready logical meta {n} here same free free_meta text =
      let payload = payload_at dir id in
      let side = sidecar_at dir id in
      elim (Option-cases (attempt (fails move_payload) (rename ready abs payload))) [
        | inl failed ↦
            rw (move_item, failed) (λ sound. tree_at-remove_all ready abs side abs-sidecar ∙ same)
        | inr (moved, done) ↦
            let renamed = attempt-some (fails move_payload) (rename ready abs payload) done in
            let shape = rename-eq-some ready abs payload free renamed in
            rw (move_item, done)
              (publish_item-Kept d moved logical meta here
                (ap (λ x. tree_at x payload) shape
                  ∙ tree_at-rename_entries abs payload ready free
                  ∙ same)
                (ap (λ x. tree_at x abs) shape
                  ∙ tree_at-rename_entries_source abs payload ready abs-payload)
                (ap (λ x. tree_at x (meta_at dir id)) shape
                  ∙ tree_at-rename_entries_other abs payload (meta_at dir id) ready
                      (Apart-sym abs (meta_at dir id) abs-meta)
                      (Apart-sym payload (meta_at dir id) payload-meta)
                  ∙ free_meta)
                (ap (λ x. node_at x side) shape
                  ∙ node_at-tree (rename_entries abs payload ready) side
                  ∙ ap at_root (
                      tree_at-rename_entries_other abs payload side ready
                        (Apart-sym abs side abs-sidecar) (Apart-sym payload side payload-sidecar))
                  ∙ sym (node_at-tree ready side)
                  ∙ text))
      ]

  -- Whatever calls fail, a deletion either leaves the item whole in the trash, with its metadata
  -- published and nothing at its old path, or leaves it whole where it was, unless the rollback is one
  -- of the calls that fail. The item exists, its path and the trash folder are apart, and the id is
  -- not in use.
  pub trash_item-Kept :
      (d : Disk) (logical meta : Bytes) {n : Node}
      → node_at d abs ≡ some n
      → IsUnused d dir id
      → Kept fails d abs dir id meta (trash_item fails d abs logical dir id meta)
  unfolding trash_item
  trash_item-Kept d logical meta {n} here (free, free_meta) =
      let payload = payload_at dir id in
      let side = sidecar_at dir id in
      elim (Option-cases (attempt (fails make_folder) (make_all d dir))) [
        | inl failed ↦ rw (trash_item, failed) (λ sound. refl)
        | inr (made, done) ↦
            let whole = attempt-some (fails make_folder) (make_all d dir) done in
            let same = make_all-tree d abs dir (strip-self-other abs dir apart) whole in
            let still = make_all-tree d payload dir (strip-longer dir slash id) whole ∙ free in
            let still_meta =
              make_all-tree d (meta_at dir id) dir
                (rw (append_assoc dir (slash ∷ id) (bytes ".json"))
                  (strip-longer dir slash (id ++ bytes ".json")))
                whole
              ∙ free_meta in
            elim (Bool-cases (fails write_sidecar)) [
              | inl bad ↦
                  rw (trash_item, done, bad)
                    (λ sound. tree_at-remove_all made abs side abs-sidecar ∙ same)
              | inr written ↦
                  rw (trash_item, done, written)
                    (move_item-Kept d (write_file made side meta) logical meta here
                      (tree_at-write_file made abs side meta abs-sidecar ∙ same)
                      (tree_at-write_file made payload side meta payload-sidecar ∙ still)
                      (tree_at-write_file made (meta_at dir id) side meta meta-sidecar ∙ still_meta)
                      (node_at-write_file made side meta))
            ]
      ]
