-- ===== src/Drive/Trash/Spared.antt =====
-- What the purge of old trash leaves alone.
use xx_drive.Prelude.{
  ℕ, Bool, false, ◌<◌, ◌≤◌, ◌≡◌, refl, arith, ltb, if◌then◌else◌, some, sym, ap, ◌∙◌, ◌⊎◌, inl, inr,
  List, [], ◌∷◌, none, All, Bool-cases, Option-cases,
}
use xx_drive.Prelude.Bytes.{Bytes, bytes, has_suffix, trim_suffix}
use xx_drive.Filepath.{join_paths}
use xx_drive.Disk.{Disk, tree_at, node_at, remove_all}
use xx_drive.Disk.Strip.{Apart}
use xx_drive.Disk.Rename.{at_root, node_at-tree, tree_at-remove_all}
use xx_drive.Drive.Trash.{TrashItem, Json}
use xx_drive.Drive.Trash.Purge.{
  text_at, min_plausible_unix, expired_item, purge_entry, purge_entries,
}

abbrev pub entry_at : Bytes → Bytes → Bytes
entry_at dir name = join_paths (dir ∷ name ∷ [])

abbrev pub payload_of : Bytes → Bytes → Bytes
payload_of dir name = join_paths (dir ∷ trim_suffix name (bytes ".json") ∷ [])

-- The purge of an entry removes nothing in the place.
abbrev pub IsClear : Bytes → Bytes → Bytes → Type 0
IsClear dir p name = Apart p (payload_of dir name) × Apart p (entry_at dir name)

-- The purge of an entry leaves the places of `name` alone: it is `name` itself, no metadata file, or has
-- its payload and its metadata at other places.
abbrev pub IsElsewhere : Bytes → Bytes → Bytes → Type 0
IsElsewhere dir name n =
    (n ≡ name)
    ⊎ ((has_suffix n (bytes ".json") ≡ false)
        ⊎ (IsClear dir (payload_of dir name) n × IsClear dir (entry_at dir name) n))

module _ (json : Json) (cutoff : ℕ) (dir : Bytes) where
  -- Why an entry is no item to purge: it is no metadata file, its metadata is missing, unreadable or
  -- corrupt, or the time that it records is before the first plausible second or not before the cutoff.
  pub data IsSpared (d : Disk) (name : Bytes) : Type 0 where
    no_metadata : has_suffix name (bytes ".json") ≡ false → IsSpared d name
    unread : text_at d (entry_at dir name) ≡ none → IsSpared d name
    corrupt :
        (text : Bytes)
        → text_at d (entry_at dir name) ≡ some text
        → json.unmarshal text ≡ none
        → IsSpared d name
    mistimed :
        (text : Bytes) (item : TrashItem)
        → text_at d (entry_at dir name) ≡ some text
        → json.unmarshal text ≡ some item
        → (item.deleted_at < 1000000000) ⊎ (cutoff ≤ item.deleted_at)
        → IsSpared d name

  expired_item-spared :
      (d : Disk) (name : Bytes) → IsSpared d name → expired_item json d dir name cutoff ≡ none
  expired_item-spared d name (no_metadata other) = rw (expired_item, other) refl
  expired_item-spared d name (unread gone) = elim (Bool-cases (has_suffix name (bytes ".json"))) [
    | inl named ↦ rw (expired_item, named, gone) refl
    | inr other ↦ rw (expired_item, other) refl
  ]
  expired_item-spared d name (corrupt text there bad) =
      elim (Bool-cases (has_suffix name (bytes ".json"))) [
        | inl named ↦ rw (expired_item, named, there, bad) refl
        | inr other ↦ rw (expired_item, other) refl
      ]
  expired_item-spared d name (mistimed text item there read time) =
      elim (Bool-cases (has_suffix name (bytes ".json"))) [
        | inl named ↦ rw (expired_item, named, there, read) (not_expired item time)
        | inr other ↦ rw (expired_item, other) refl
      ]
    where
      not_expired :
          (item : TrashItem)
          → (item.deleted_at < 1000000000) ⊎ (cutoff ≤ item.deleted_at)
          → (if ltb item.deleted_at min_plausible_unix
              then none
              else if ltb item.deleted_at cutoff
              then some item
              else none)
            ≡ none
      not_expired item time = ground arith

  expired_item-same :
      (d d' : Disk) (name : Bytes)
      → tree_at d' (entry_at dir name) ≡ tree_at d (entry_at dir name)
      → expired_item json d dir name cutoff ≡ none
      → expired_item json d' dir name cutoff ≡ none
  expired_item-same d d' name same young =
      let nodes : node_at d' (entry_at dir name) ≡ node_at d (entry_at dir name) =
        node_at-tree d' (entry_at dir name)
        ∙ ap at_root same
        ∙ sym (node_at-tree d (entry_at dir name)) in
      rw (expired_item, nodes) young

module _ (fails : Bytes → Bool) (json : Json) (cutoff : ℕ) (dir user : Bytes) where
  purge_entry-clear :
      (d : Disk) (p name : Bytes)
      → IsClear dir p name
      → tree_at ((purge_entry fails json cutoff dir user d name).1) p ≡ tree_at d p
  purge_entry-clear d p name (a, b) = elim (Option-cases (expired_item json d dir name cutoff)) [
    | inl young ↦ rw (purge_entry, young) refl
    | inr (item, old) ↦ elim (Bool-cases (fails (payload_of dir name))) [
      | inl failed ↦ rw (purge_entry, old, failed) refl
      | inr done ↦ elim (Bool-cases (fails (entry_at dir name))) [
        | inl stays ↦
            rw (purge_entry, old, done, stays) (tree_at-remove_all d p (payload_of dir name) a)
        | inr gone ↦
            rw (purge_entry, old, done, gone)
              (tree_at-remove_all (remove_all d (payload_of dir name)) p (entry_at dir name) b
                ∙ tree_at-remove_all d p (payload_of dir name) a)
      ]
    ]
  ]

  purge_entry-young :
      (d : Disk) (name : Bytes)
      → expired_item json d dir name cutoff ≡ none
      → (purge_entry fails json cutoff dir user d name).1 ≡ d
  purge_entry-young d name young = rw (purge_entry, young) refl

  kept_through :
      (d : Disk) (names : List Bytes) (name : Bytes)
      → expired_item json d dir name cutoff ≡ none
      → All (IsElsewhere dir name) names
      → (tree_at ((purge_entries fails json cutoff dir user d names).1) (payload_of dir name)
          ≡ tree_at d (payload_of dir name))
        × (tree_at ((purge_entries fails json cutoff dir user d names).1) (entry_at dir name)
            ≡ tree_at d (entry_at dir name))
  kept_through d [] name young _ = (refl, refl)
  kept_through d (n ∷ names) name young (inl same, hs) =
      let kept = purge_entry-young d n (rw same young) in
      rw kept (kept_through d names name young hs)
  kept_through d (n ∷ names) name young (inr (inl payload), hs) =
      let kept = purge_entry-young d n (rw (expired_item, payload) refl) in
      rw kept (kept_through d names name young hs)
  kept_through d (n ∷ names) name young (inr (inr (a, b)), hs) =
      let mid = (purge_entry fails json cutoff dir user d n).1 in
      let payload = purge_entry-clear d (payload_of dir name) n a in
      let meta = purge_entry-clear d (entry_at dir name) n b in
      let (p, q) =
        kept_through mid names name (expired_item-same json cutoff dir d mid name meta young) hs in
      (p ∙ payload, q ∙ meta)

  -- An entry of a trash folder that is no metadata file, whose metadata is missing, unreadable or
  -- corrupt, or whose time is before second 1000000000 or not before the cutoff, keeps its payload and
  -- its metadata through the purge of the folder, whatever else is purged and whichever removals fail.
  -- The other metadata files of the folder, and their payloads, are at other places.
  pub purge_entries_spared :
      (d : Disk) (names : List Bytes) (name : Bytes)
      → IsSpared json cutoff dir d name
      → All (IsElsewhere dir name) names
      → (tree_at ((purge_entries fails json cutoff dir user d names).1) (payload_of dir name)
          ≡ tree_at d (payload_of dir name))
        × (tree_at ((purge_entries fails json cutoff dir user d names).1) (entry_at dir name)
            ≡ tree_at d (entry_at dir name))
  purge_entries_spared d names name spared others =
      kept_through d names name (expired_item-spared json cutoff dir d name spared) others
