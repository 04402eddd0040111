-- ===== src/Client/Sync.antt =====
-- cmd/xxdrive-cli/sync.go: the data of the sync engine, its names and its listings.
use xx_drive.Prelude.{
  ℕ, zero, suc, Bool, false, not, ◌&&◌, ◌||◌, List, [], ◌∷◌, ◌++◌, Option, none, some,
  if◌then◌else◌, ◌==◌, nat_eq, bytes_eq, length,
}
use xx_drive.Prelude.Bytes.{
  Bytes, bytes, has_prefix, has_suffix, trim_prefix, trim_suffix, contains_text, split,
}
use xx_drive.Filepath.{slash, after_last, up_to_last, ext}
use xx_drive.Drive.Paths.{root}
use xx_drive.Drive.Entries.{etag_of, text_lt}
use xx_drive.Client.Dict.{insert}

-- `syncMeta`
pub record Meta : Type 0 where
  pub size : ℕ
  pub mtime : ℕ
  pub etag : Bytes

abbrev pub no_meta : Meta
no_meta = record { size = 0; mtime = 0; etag = [] }

-- `same`
unfoldable pub same : Meta → Meta → Bool
same m o = m.size == o.size && m.mtime == o.mtime

-- `withEtag`
abbrev pub with_etag : Meta → Meta
with_etag m = record m { etag = etag_of m.mtime m.size }

-- A file in the local directory. Paths are relative to it, with a slash in front.
pub record File : Type 0 where
  pub text : Bytes
  pub mtime : ℕ

abbrev pub meta_of : File → Meta
meta_of f = record { size = length f.text; mtime = f.mtime; etag = [] }

-- `entry` of cmd/xxdrive-cli/main.go, as the server's JSON gives it.
pub record RemoteEntry : Type 0 where
  pub name : Bytes
  pub path : Bytes
  pub is_dir : Bool
  pub size : ℕ
  pub mtime : ℕ

-- What `uploadFile` returns: an error whose text has "HTTP 412", another error, or the answer, of
-- which `metaFromUploadResp` reads the entry.
pub data Answer : Type 0 where
  stale : Answer
  refused : Answer
  stored : Option RemoteEntry → Answer

-- What `listDir` returns: the text of an error, or the entries.
pub data Listing : Type 0 where
  failed : Bytes → Listing
  entries : List RemoteEntry → Listing

-- The server, as the client calls it. A call may fail, and others may change the state meanwhile.
pub record Server : Type 1 where
  pub State : Type 0
  pub upload : State → Bytes → Bytes → Bytes → Answer × State
  pub download : State → Bytes → Option Bytes × State
  pub delete : State → Bytes → Bool × State
  pub list : State → Bytes → Listing × State

-- `joinRemote`
abbrev pub join_remote : Bytes → Bytes → Bytes
join_remote remote_dir rel = if remote_dir == root then rel else remote_dir ++ rel

-- `conflictName`
unfoldable pub conflict_name : Bytes → Bytes → Bytes → Bytes
unfolding up_to_last after_last
conflict_name path tag stamp =
    let name = after_last path in
    up_to_last path
    ++ (trim_suffix name (ext name)
        ++ (bytes " (conflict from " ++ (tag ++ (bytes " " ++ (stamp ++ (bytes ")" ++ ext name))))))

-- `metaFromUploadResp`
unfoldable pub meta_from_entry : Option RemoteEntry → Option Meta
meta_from_entry none = none
meta_from_entry (some e) =
    if e.is_dir || e.path == []
    then none
    else some (with_etag (record { size = e.size; mtime = e.mtime; etag = [] }))

-- `parentDir` of cmd/xxdrive-cli/main.go: the text before the last slash.
unfoldable pub parent_dir : Bytes → Bytes
unfolding up_to_last
parent_dir p = let before = trim_suffix (up_to_last p) root in if before == [] then root else before

-- A directory that `walkLocal` does not enter, and a file that it leaves out.
abbrev pub is_hidden_dir : Bytes → Bool
is_hidden_dir name = name == bytes ".xxpart" || has_prefix name (bytes ".xxdrive-")

abbrev pub is_part : Bytes → Bool
is_part name = has_suffix name (bytes ".xxpart") || has_prefix name (bytes ".xxpartial")

-- The directories on the way to a file, from its path's segments.
abbrev pub passes_hidden : List Bytes → Bool
passes_hidden [] = false
passes_hidden (name ∷ []) = false
passes_hidden (dir ∷ name ∷ names) = is_hidden_dir dir || passes_hidden (name ∷ names)

-- Whether `walkLocal` comes by a file. What lies in an unreadable directory, and what cannot be read
-- itself, is skipped.
unfoldable pub is_walked : (Bytes → Bool) → Bytes → Bool
is_walked unreadable rp =
    not (unreadable rp) && not (passes_hidden (split slash rp)) && not (is_part (after_last rp))

-- `walkLocal`
unfoldable pub walk_local : (Bytes → Bool) → List (Bytes × File) → List (Bytes × Meta)
walk_local unreadable [] = []
walk_local unreadable ((rp, f) ∷ files) =
    let rest = walk_local unreadable files in
    if is_walked unreadable rp then (rp, meta_of f) ∷ rest else rest

-- The remote listing, relative to the pair, as `syncOnce` keeps it; the last entry of a path counts.
unfoldable pub pair_relative : Bytes → List RemoteEntry → List (Bytes × Meta) → List (Bytes × Meta)
pair_relative remote_dir [] remote = remote
pair_relative remote_dir (e ∷ es) remote =
    let meta : Meta = record { size = e.size; mtime = e.mtime; etag = [] } in
    pair_relative remote_dir es (
      if remote_dir == root
      then insert e.path meta remote
      else if not (has_prefix e.path (remote_dir ++ slash ∷ [])) && not (e.path == remote_dir)
      then remote
      else insert (trim_prefix e.path remote_dir) meta remote)

-- One path more in a sorted list of paths.
abbrev pub add_path : Bytes → List Bytes → List Bytes
add_path p [] = p ∷ []
add_path p (q ∷ qs) =
    let rest = q ∷ add_path p qs in
    if p == q then q ∷ qs else if text_lt q p then rest else p ∷ q ∷ qs

abbrev pub add_keys {ℓ} : {V : Type ℓ} → List (Bytes × V) → List Bytes → List Bytes
add_keys [] paths = paths
add_keys ((p, v) ∷ m) paths = add_path p (add_keys m paths)

abbrev pub files_of : List RemoteEntry → List RemoteEntry
files_of [] = []
files_of (e ∷ es) = let rest = files_of es in if e.is_dir then rest else e ∷ rest

abbrev pub folders_of : List RemoteEntry → List Bytes
folders_of [] = []
folders_of (e ∷ es) = let rest = folders_of es in if e.is_dir then e.path ∷ rest else rest

module _ (server : Server) where
  -- `walkRemote`: breadth first, the text of an error or the files. The fuel bounds the directories.
  unfoldable pub walk_queue :
      ℕ → Bytes → server.State → List Bytes → List RemoteEntry → Option (Listing × server.State)
  walk_queue fuel top s [] out = some (entries out, s)
  walk_queue zero top s (cur ∷ queue) out = none
  walk_queue (suc fuel) top s (cur ∷ queue) out =
      let (listing, s') = server.list s cur in
      let more = λ (es : List RemoteEntry).
        walk_queue fuel top s' (queue ++ folders_of es) (out ++ files_of es) in
      elim listing [
        | failed text ↦
            if contains_text text (bytes "404") && cur == top
            then some (entries out, s')
            else some (failed text, s')
        | entries es ↦ more es
      ]

  abbrev pub walk_remote : ℕ → server.State → Bytes → Option (Listing × server.State)
  walk_remote fuel s remote_dir = walk_queue fuel remote_dir s (remote_dir ∷ []) []
