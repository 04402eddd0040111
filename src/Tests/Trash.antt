-- ===== src/Tests/Trash.antt =====
-- The trash and renames on a small disk.
use xx_drive.Prelude.{
  Bool, true, false, ◌≡◌, refl, List, [], ◌∷◌, Option, none, some, inl, inr, ◌+◌, nat_eq, bytes_eq,
  ℕ_discrete, arith,
}
use xx_drive.Prelude.Bytes.{
  Bytes, bytes, split, join, has_prefix, contains_any, contains_text, to_lower, trim_suffix,
  has_suffix,
}
use xx_drive.Prelude.Results.{ok}
use xx_drive.Filepath.{clean, join_paths, trim_slashes, base, dir, ext}
use xx_drive.Drive.Paths.{validate_rel, name_of, parent_of, join_logical, valid_name}
use xx_drive.Drive.Resolve.{resolve_user_path, walk, is_confined, user_root}
use xx_drive.Disk.{folder, content, Disk, tree_at, rename}
use xx_drive.Disk.Strip.{Apart-append}
use xx_drive.Drive.Trash.{
  TrashItem, Call, publish, Json, valid_id, trash_item, move_item, publish_item,
  delete_with_versions, restore_to, restore_at, restore,
}
use xx_drive.Drive.Trash.Kept.{Kept, trash_item-Kept}
use xx_drive.Drive.Trash.Purge.{purge_entries}
use xx_drive.Drive.Trash.Spared.{IsSpared, mistimed, purge_entries_spared}
use xx_drive.Drive.Moves.{rename_to_free, rename_entry, move_entry}
use xx_drive.Drive.Moves.Whole.{Moved, rename_to_free-Moved}

abbrev disk : Disk
disk =
    (bytes "/d/files/bob/a", folder)
    ∷ (bytes "/d/files/bob/a/x.txt", content (bytes "x"))
    ∷ (bytes "/d/files/bob/ab", content (bytes "ab"))
    ∷ []

-- The publication of the metadata fails.
abbrev fails : Call → Bool
fails publish = true
fails c = false

abbrev no_fault : Call → Bool
no_fault c = false

-- Metadata that only keeps the original path.
abbrev json : Json
json = record {
  marshal = λ item. item.orig_path;
  unmarshal = λ s.
      some (record { orig_path = s; name = []; is_dir = false; deleted_at = 0; versions = [] });
}

unfoldable runs : Disk → Bytes → Bytes → Option Disk
unfolding rename trash_item move_item publish_item delete_with_versions restore_to restore_at
    restore rename_to_free rename_entry move_entry valid_id resolve_user_path walk is_confined
    user_root join_paths trim_slashes validate_rel name_of parent_of join_logical valid_name base
    dir ext clean split join has_prefix has_suffix trim_suffix contains_any contains_text to_lower
    bytes_eq ℕ_discrete
runs = rename

abbrev id : Bytes
id = bytes "00112233445566778899aabbccddeeff"

abbrev deleted : Disk
deleted =
    (delete_with_versions no_fault json (bytes "/d") disk (bytes "bob") (bytes "/a") [] id 7).1

trash_runs :
    (tree_at deleted (bytes "/d/files/bob/a") ≡ [])
    × (tree_at deleted (bytes "/d/files/bob/ab") ≡ ([], content (bytes "ab")) ∷ [])
    × ((delete_with_versions fails json (bytes "/d") disk (bytes "bob") (bytes "/") [] id 7).1
        ≡ disk)
    × ((restore no_fault (bytes "/d") (bytes "bob") json deleted id).0 ≡ ok (bytes "/a"))
    × ((move_entry false (bytes "/d") (bytes "bob") disk (bytes "/a") (bytes "/a/x")).1 ≡ disk)
    × ((rename_entry false (bytes "/d") (bytes "bob") disk (bytes "/a") (bytes "c")).0
        ≡ ok (bytes "/c"))
unfolding runs
trash_runs = (refl, refl, refl, refl, refl, refl)

trash_item-Kept_example :
    Kept fails disk (bytes "/d/files/bob/a") (bytes "/d/trash/bob") (bytes "1") (bytes "meta") (
      trash_item fails disk
        (bytes "/d/files/bob/a")
        (bytes "/a")
        (bytes "/d/trash/bob")
        (bytes "1")
        (bytes "meta"))
unfolding runs
trash_item-Kept_example =
    trash_item-Kept fails (bytes "/d/files/bob/a") (bytes "/d/trash/bob") (bytes "1")
      (Apart-append (bytes "/d/") 102 116 (bytes "iles/bob/a") (bytes "rash/bob")
        (λ e. ground arith))
      disk (bytes "/a") (bytes "meta") {n = folder} refl (refl, refl)

rename_to_free-Moved_example :
    Moved disk
      (bytes "/d/files/bob/a")
      (bytes "/d/files/bob/c")
      (rename_to_free false disk (bytes "/d/files/bob/a") (bytes "/d/files/bob/c") (bytes "/c"))
unfolding runs
rename_to_free-Moved_example =
    rename_to_free-Moved false disk (bytes "/d/files/bob/a") (bytes "/d/files/bob/c") (bytes "/c")
      (Apart-append (bytes "/d/files/bob/") 97 99 [] [] (λ e. ground arith)) (λ e. refl)

-- Metadata whose first byte is a time after the first plausible one.
abbrev dated_item : Bytes → Option TrashItem
dated_item [] = none
dated_item (c ∷ text) = some (record {
  orig_path = text;
  name = [];
  is_dir = false;
  deleted_at = 1000000000 + c;
  versions = [];
})

abbrev dated : Json
dated = record { marshal = λ item. item.orig_path; unmarshal = dated_item }

abbrev trashed : Disk
trashed =
    (bytes "/t/1", content (bytes "x"))
    ∷ (bytes "/t/1.json", content (bytes "b"))
    ∷ (bytes "/t/2", content (bytes "y"))
    ∷ (bytes "/t/2.json", content (bytes "a"))
    ∷ []

abbrev no_failure : Bytes → Bool
no_failure p = false

abbrev trashed_names : List Bytes
trashed_names = bytes "1" ∷ bytes "1.json" ∷ bytes "2" ∷ bytes "2.json" ∷ []

purged_run :
    (purge_entries no_failure dated 1000000098 (bytes "/t") (bytes "bob") trashed trashed_names).1
    ≡ (bytes "/t/1", content (bytes "x")) ∷ (bytes "/t/1.json", content (bytes "b")) ∷ []
unfolding runs
purged_run = refl

still_young : IsSpared dated 1000000098 (bytes "/t") trashed (bytes "1.json")
unfolding runs
still_young =
    mistimed (bytes "b")
      (record { orig_path = []; name = []; is_dir = false; deleted_at = 1000000098; versions = [] })
      refl refl (inr (omega arith))

purge_entries_spared_example :
    (tree_at
        ((purge_entries no_failure dated 1000000098
          (bytes "/t")
          (bytes "bob")
          trashed
          trashed_names).1)
        (bytes "/t/1")
      ≡ tree_at trashed (bytes "/t/1"))
    × (tree_at
          ((purge_entries no_failure dated 1000000098
            (bytes "/t")
            (bytes "bob")
            trashed
            trashed_names).1)
          (bytes "/t/1.json")
        ≡ tree_at trashed (bytes "/t/1.json"))
unfolding runs
purge_entries_spared_example =
    purge_entries_spared no_failure dated 1000000098 (bytes "/t") (bytes "bob") trashed
      trashed_names (bytes "1.json") still_young
      (
        inr (inl refl),
        (
          inl refl,
          (
            inr (inl refl),
            (
              inr (
                  inr (
                    (
                      Apart-append (bytes "/t/") 49 50 [] [] (λ e. ground arith),
                      Apart-append (bytes "/t/") 49 50 [] (bytes ".json") (λ e. ground arith),
                    ),
                    (
                      Apart-append (bytes "/t/") 49 50 (bytes ".json") [] (λ e. ground arith),
                      Apart-append (bytes "/t/") 49 50 (bytes ".json") (bytes ".json")
                          (λ e. ground arith),
                    ),
                  )),
              tt,
            ),
          ),
        ),
      )
