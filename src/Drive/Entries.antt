-- ===== src/Drive/Entries.antt =====
-- internal/fsdrv/fsdrv.go: entries as the driver reports them, and the calls that only read.
use xx_drive.Prelude.{
  ℕ, ◌/◌, ◌%◌, ◌+◌, Bool, true, false, not, ◌&&◌, ◌||◌, List, [], ◌∷◌, ◌++◌, none, some,
  if◌then◌else◌, ◌==◌, nat_eq, bytes_eq, ltb, length, zero, suc,
}
use xx_drive.Prelude.Bytes.{Bytes, to_lower}
use xx_drive.Prelude.Results.{Result, ok, err, not_found, other}
use xx_drive.Filepath.{slash}
use xx_drive.Disk.{Node, folder, content, Disk, node_at}
use xx_drive.Drive.Paths.{root, name_of, is_staging_entry}
use xx_drive.Drive.Resolve.{resolve_user_path}
use xx_drive.Drive.Trash.{lstat_of, is_folder}
use xx_drive.Drive.Trash.Purge.{names_in}

-- `Entry`, without the star that the handlers add.
pub record Entry : Type 0 where
  pub name : Bytes
  pub path : Bytes
  pub is_dir : Bool
  pub size : ℕ
  pub mod_time : ℕ

abbrev pub hex_digit : ℕ → ℕ
hex_digit n = if ltb n 10 then b'0' + n else b'W' + n

-- The hexadecimal digits of a number; the fuel is the number itself and one more.
abbrev pub hex_digits : ℕ → ℕ → Bytes
hex_digits zero n = []
hex_digits (suc fuel) n =
    let front = hex_digits fuel (n / 16) in
    if ltb n 16 then hex_digit n ∷ [] else front ++ hex_digit (n % 16) ∷ []

-- `EtagOf`
unfoldable pub etag_of : ℕ → ℕ → Bytes
etag_of mtime size =
    b'"' ∷ (hex_digits (suc mtime) mtime ++ b'-' ∷ (hex_digits (suc size) size ++ b'"' ∷ []))

-- What os.Stat tells of a file or a directory beside its type: modification times, and the size that
-- a file system gives to a directory.
pub record Times : Type 0 where
  pub modified : Disk → Bytes → ℕ
  pub folder_size : ℕ

module _ (times : Times) where
  abbrev pub node_size : Node → ℕ
  node_size folder = times.folder_size
  node_size (content text) = length text

  abbrev pub entry_of : Disk → Bytes → Bytes → Bytes → Node → Entry
  entry_of d abs name logical node = record {
    name = name;
    path = logical;
    is_dir = is_folder (some node);
    size = node_size node;
    mod_time = times.modified d abs;
  }

-- strings.Compare of two lowered names: whether the first comes before the second.
abbrev pub text_lt : Bytes → Bytes → Bool
text_lt [] [] = false
text_lt [] (c ∷ t) = true
text_lt (c ∷ s) [] = false
text_lt (c ∷ s) (x ∷ t) = ltb c x || (c == x && text_lt s t)

-- The order of `List`: directories first, then by lowered name.
unfoldable pub comes_before : Entry → Entry → Bool
comes_before a b =
    if a.is_dir && not b.is_dir
    then true
    else if not a.is_dir && b.is_dir
    then false
    else text_lt (to_lower a.name) (to_lower b.name)

-- sort.Slice: of two entries that tie, one of the orders that it may choose.
abbrev pub insert_entry : Entry → List Entry → List Entry
insert_entry e [] = e ∷ []
insert_entry e (x ∷ xs) =
    let rest = x ∷ insert_entry e xs in if comes_before x e then rest else e ∷ x ∷ xs

abbrev pub sort_entries : List Entry → List Entry
sort_entries [] = []
sort_entries (e ∷ es) = insert_entry e (sort_entries es)

-- The logical path of an entry of a directory.
abbrev pub child_path : Bytes → Bytes → Bytes
child_path logical name = (if logical == root then slash ∷ [] else logical ++ slash ∷ []) ++ name

module _ (times : Times) (data_root user : Bytes) where
  -- `Stat`
  unfoldable pub stat : Disk → Bytes → Result Entry
  stat d rel = elim (resolve_user_path (lstat_of d) data_root user rel) [
    | err e ↦ err e
    | ok (abs, logical) ↦ elim (node_at d abs) [
      | none ↦ err not_found
      | some n ↦ ok (entry_of times d abs (name_of logical) logical n)
    ]
  ]

  -- The loop of `List`, over the names in the directory.
  abbrev pub listed : Disk → Bytes → Bytes → List Bytes → List Entry
  listed d abs logical [] = []
  listed d abs logical (name ∷ names) =
      let rest = listed d abs logical names in
      if is_staging_entry name then rest else elim (node_at d (abs ++ slash ∷ name)) [
        | none ↦ rest
        | some n ↦ entry_of times d (abs ++ slash ∷ name) name (child_path logical name) n ∷ rest
      ]

  -- `List`
  unfoldable pub list_entries : Disk → Bytes → Result (List Entry)
  list_entries d rel = elim (resolve_user_path (lstat_of d) data_root user rel) [
    | err e ↦ err e
    | ok (abs, logical) ↦ elim (node_at d abs) [
      | none ↦ err not_found
      | some (content text) ↦ err other
      | some folder ↦ ok (sort_entries (listed d abs logical (names_in d abs)))
    ]
  ]

  -- `OpenFile`; the content that the opened file gives, and its logical path.
  unfoldable pub open_file : Disk → Bytes → Result (Bytes × Bytes)
  open_file d rel = elim (resolve_user_path (lstat_of d) data_root user rel) [
    | err e ↦ err e
    | ok (abs, logical) ↦ elim (node_at d abs) [
      | none ↦ err not_found
      | some folder ↦ err not_found
      | some (content text) ↦ ok (text, logical)
    ]
  ]

  -- `HashFile`; the hash is an argument.
  unfoldable pub hash_file : (Bytes → Bytes) → Disk → Bytes → Result Bytes
  unfolding open_file
  hash_file sha d rel = elim (open_file d rel) [
    | err e ↦ err e
    | ok (text, logical) ↦ ok (sha text)
  ]
