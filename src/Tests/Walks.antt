-- ===== src/Tests/Walks.antt =====
-- Walks, copies and the names of conflict copies on a small disk.
use xx_drive.Prelude.{
  Bool, false, ◌≡◌, ◌≤◌, refl, List, [], ◌∷◌, Option, none, some, nat_eq, bytes_eq, arith,
  ℕ_discrete, length,
}
use xx_drive.Prelude.Bytes.{
  Bytes, bytes, split, join, has_prefix, contains_any, contains_text, to_lower, trim_suffix,
  has_suffix,
}
use xx_drive.Prelude.Results.{Result, ok}
use xx_drive.Filepath.{clean, join_paths, trim_slashes, base, dir, ext}
use xx_drive.Filepath.Canonical.{clean-IsCanonical}
use xx_drive.Drive.Paths.{
  validate_rel, name_of, parent_of, join_logical, valid_name, is_staging_entry,
}
use xx_drive.Drive.Resolve.{resolve_user_path, walk, is_confined, user_root}
use xx_drive.Disk.{folder, content, Disk, rename}
use xx_drive.Drive.Entries.{Times, Entry}
use xx_drive.Drive.Upload.{free_name, name_fuel, counted}
use xx_drive.Drive.Upload.Ends.{free_name_ends}
use xx_drive.Drive.Folders.{copy_tree, copy_entry, mkdir}
use xx_drive.Drive.Folders.Nested.{IsEmptyFolder, copy_tree_diverges}
use xx_drive.Drive.Walk.{Visit, walk_at, walk_tree, search_at, search_entries}
use xx_drive.Drive.Walk.Bounded.{search_entries_ends}

abbrev disk : Disk
disk =
    (bytes "/d", folder)
    ∷ (bytes "/d/files", folder)
    ∷ (bytes "/d/files/bob", folder)
    ∷ (bytes "/d/files/bob/x.txt", content (bytes "x"))
    ∷ (bytes "/d/files/bob/e", folder)
    ∷ (bytes "/d/files/bob/e/Axe", content (bytes "axe"))
    ∷ []

abbrev times : Times
times = record { modified = λ d p. 5; folder_size = 0 }

abbrev no_failure : Bytes → Bool
no_failure p = false

unfoldable runs : Disk → Bytes → Bytes → Option Disk
unfolding rename resolve_user_path walk is_confined user_root join_paths trim_slashes validate_rel
    base dir ext clean split join has_prefix has_suffix trim_suffix contains_any contains_text
    to_lower bytes_eq ℕ_discrete name_of parent_of join_logical valid_name is_staging_entry walk_at
    walk_tree search_at search_entries copy_tree copy_entry mkdir free_name counted
runs = rename

abbrev names_of : List Entry → List Bytes
names_of [] = []
names_of (e ∷ es) = e.path ∷ names_of es

abbrev found : Option (Result (List Entry)) → List Bytes
found (some (ok es)) = names_of es
found result = []

abbrev visited_paths : List Visit → List Bytes
visited_paths [] = []
visited_paths ((e, p) ∷ vs) = e.path ∷ visited_paths vs

abbrev visited : Option (Result (List Visit)) → List Bytes
visited (some (ok vs)) = visited_paths vs
visited result = []

searches :
    (found (search_entries times 30 disk (bytes "/d") (bytes "bob") (bytes "X") 9)
      ≡ bytes "/e/Axe" ∷ bytes "/x.txt" ∷ [])
    × (found (search_entries times 30 disk (bytes "/d") (bytes "bob") (bytes "X") 1)
        ≡ bytes "/e/Axe" ∷ [])
    × (visited (walk_tree times disk 30 (bytes "/d") (bytes "bob") (bytes "e"))
        ≡ bytes "/e" ∷ bytes "/e/Axe" ∷ [])
unfolding runs
searches = (refl, refl, refl)

-- What is walked from the root has two slashes in front.
doubled :
    visited (walk_tree times disk 30 (bytes "/d") (bytes "bob") (bytes "/"))
    ≡ bytes "/" ∷ bytes "//e" ∷ bytes "//e/Axe" ∷ bytes "//x.txt" ∷ []
unfolding runs
doubled = refl

search_entries_ends_example :
    (result : Result (List Entry)) × (search_entries times 30 disk
        (bytes "/d")
        (bytes "bob")
        (bytes "x")
        1
      ≡ some result)
    × ((es : List Entry) → result ≡ ok es → length es ≤ 1)
search_entries_ends_example =
    search_entries_ends times 29 disk (bytes "/d") (bytes "bob") (bytes "x") 1 (omega arith)

free_name_ends_example :
    (result : Result Bytes) × (free_name
        (bytes "/d")
        (bytes "bob")
        name_fuel
        disk
        (bytes "/x.txt")
        2
      ≡ some result)
unfolding runs
free_name_ends_example =
    free_name_ends (bytes "d") (bytes "bob") disk (bytes "/") (bytes "x.txt") (clean-IsCanonical [])
      refl

-- A folder with nothing in it, at the end of a path of one segment.
abbrev lone : Disk
lone = (bytes "/a", folder) ∷ []

empty : IsEmptyFolder lone (bytes "/a")
unfolding ℕ_discrete bytes_eq
empty = record { standing = (ground arith, (ground arith, refl)); alone = refl }

copy_tree_diverges_example : copy_tree no_failure 1000 lone (bytes "/a") (bytes "/a/b") ≡ none
copy_tree_diverges_example =
    copy_tree_diverges no_failure (λ p. refl) b'b' [] (ground arith) 1000 lone (bytes "/a")
      (ground arith) empty
