-- ===== src/Tests/Sync.antt =====
-- Passes of the sync engine against a small server.
use xx_drive.Prelude.{
  ℕ, Bool, true, false, not, ◌&&◌, ◌≡◌, refl, List, [], ◌∷◌, ◌++◌, Option, none, some,
  if◌then◌else◌, ◌==◌, nat_eq, bytes_eq, ℕ_discrete, length,
}
use xx_drive.Prelude.Bytes.{
  Bytes, bytes, split, join, has_prefix, has_suffix, trim_prefix, trim_suffix, contains_text,
}
use xx_drive.Prelude.Results.{Result}
use xx_drive.Filepath.{base, ext, up_to_last, after_last}
use xx_drive.Drive.Paths.{root}
use xx_drive.Drive.Entries.{etag_of}
use xx_drive.Client.Dict.{lookup, insert, erase}
use xx_drive.Client.Sync.{
  Meta, same, File, RemoteEntry, Answer, stale, stored, Listing, failed, entries, Server,
  conflict_name, meta_from_entry, parent_dir, is_walked, walk_local, pair_relative, walk_queue,
}
use xx_drive.Client.Server.{logged}
use xx_drive.Client.Transfers.{
  World, Setting, pull_to, upload_file, stat_remote, mirror_conflict, converge, resolve_conflict,
}
use xx_drive.Client.Pass.{
  push, pull, delete_remote, trash_local, trash, reconcile, reconcile_all, sync_once,
}
use xx_drive.Client.Others.{text_of}

-- The files.
record State : Type 0 where
  files : List (Bytes × File)

abbrev entry_at : Bytes → File → RemoteEntry
entry_at p f = record {
  name = base p;
  path = p;
  is_dir = false;
  size = length f.text;
  mtime = f.mtime;
}

abbrev stale_for : Option File → Bytes → Bool
stale_for none if_match = false
stale_for (some f) if_match =
    not (if_match == []) && not (if_match == etag_of f.mtime (length f.text))

abbrev put : State → Bytes → Bytes → Bytes → Answer × State
put s p text if_match =
    if stale_for (lookup p s.files) if_match
    then (stale, s)
    else let f : File = record { text = text; mtime = 7 } in
      (stored (some (entry_at p f)), record { files = insert p f s.files })

abbrev fetch : State → Bytes → Option Bytes × State
fetch s p = (text_of s.files p, s)

abbrev drop : State → Bytes → Bool × State
drop s p = (true, record { files = erase p s.files })

abbrev entries_of : List (Bytes × File) → List RemoteEntry
entries_of [] = []
entries_of ((p, f) ∷ files) = entry_at p f ∷ entries_of files

abbrev show : State → Bytes → Listing × State
show s p = (entries (entries_of s.files), s)

abbrev server : Server
server = record { State = State; upload = put; download = fetch; delete = drop; list = show }

-- A server that fails at every listing, with a text that has 404 in it.
abbrev refuse : State → Bytes → Listing × State
refuse s p = (failed (bytes "HTTP 500: /docs404"), s)

abbrev failing : Server
failing = record { State = State; upload = put; download = fetch; delete = drop; list = refuse }

abbrev setting : Setting
setting = record {
  remote_dir = root;
  tag = bytes "pc";
  conflict_stamp = λ p. bytes "T";
  trash_stamp = bytes "S";
  now = 9;
  fails = λ c p. false;
}

abbrev file : Bytes → ℕ → File
file text mtime = record { text = text; mtime = mtime }

abbrev known : Meta
known = record { size = 3; mtime = 5; etag = etag_of 5 3 }

-- The local files and the server's, with a baseline for /a.
abbrev world_of : (server' : Server) → server'.State → List (Bytes × File) → World server'
world_of server' s local = record { local = local; base = (bytes "/a", known) ∷ []; remote = s }

abbrev remote_of : List (Bytes × File) → State
remote_of files = record { files = files }

abbrev all_read : Bytes → Bool
all_read p = false

abbrev world_after :
    Option (Result (Unit {0}) × World server × Option (List (Bytes × Meta)))
    → Option (List (Bytes × File) × List (Bytes × File))
world_after none = none
world_after (some (result, w, saved)) = some (w.local, w.remote.files)

abbrev local_after :
    Option (Result (Unit {0}) × World failing × Option (List (Bytes × Meta)))
    → Option (List (Bytes × File))
local_after none = none
local_after (some (result, w, saved)) = some w.local

unfoldable runs :
    World server → Option (Result (Unit {0}) × World server × Option (List (Bytes × Meta)))
unfolding same conflict_name meta_from_entry parent_dir is_walked walk_local pair_relative
    walk_queue pull_to upload_file stat_remote mirror_conflict converge resolve_conflict push pull
    delete_remote trash_local trash reconcile reconcile_all sync_once etag_of split join has_prefix
    has_suffix trim_prefix trim_suffix contains_text bytes_eq ℕ_discrete base ext up_to_last
    after_last
runs w = sync_once server setting 4 all_read w

abbrev old : List (Bytes × File)
old = (bytes "/a", file (bytes "old") 5) ∷ []

abbrev mine : List (Bytes × File)
mine = (bytes "/a", file (bytes "mine") 6) ∷ []

abbrev theirs : List (Bytes × File)
theirs = (bytes "/a", file (bytes "theirs") 8) ∷ []

-- A local change is pushed, a remote one is pulled.
moves_on :
    (world_after (runs (world_of server (remote_of old) mine))
      ≡ some ((bytes "/a", file (bytes "mine") 7) ∷ [], (bytes "/a", file (bytes "mine") 7) ∷ []))
    × (world_after (runs (world_of server (remote_of theirs) old)) ≡ some (theirs, theirs))
unfolding runs
moves_on = (refl, refl)

abbrev conflict : Bytes × File
conflict = (bytes "/a (conflict from pc T)", file (bytes "mine") 7)

-- Of two changes, the local one is set aside under the conflict name, on both sides.
conflicting :
    world_after (runs (world_of server (remote_of theirs) mine))
    ≡ some (conflict ∷ theirs, conflict ∷ theirs)
unfolding runs
conflicting = refl

-- A deletion on one side is one on the other, where the local file is moved to the trash.
deletions :
    (world_after (runs (world_of server (remote_of old) [])) ≡ some ([], []))
    × (world_after (runs (world_of server (remote_of []) old))
        ≡ some ((bytes "/.xxdrive-trash/S/a", file (bytes "old") 5) ∷ [], []))
unfolding runs
deletions = (refl, refl)

-- A failed listing whose text has 404 in it is taken for an empty directory: the file goes to the trash.
failed_listing :
    local_after (sync_once failing setting 4 all_read (world_of failing (remote_of old) old))
    ≡ some ((bytes "/.xxdrive-trash/S/a", file (bytes "old") 5) ∷ [])
unfolding runs
failed_listing = refl

abbrev mine_and_b : List (Bytes × File)
mine_and_b = mine ++ (bytes "/b", file (bytes "b") 5) ∷ []

abbrev b_sent : Bytes × File
b_sent = (bytes "/b", file (bytes "b") 7)

-- The states after the conflict, and what the server has answered for since.
abbrev parted : World (logged server)
parted = record {
  local = b_sent ∷ conflict ∷ theirs;
  base =
      (bytes "/b", record { size = 1; mtime = 7; etag = etag_of 7 1 })
      ∷ (bytes "/a (conflict from pc T)", record { size = 4; mtime = 7; etag = etag_of 7 4 })
      ∷ (bytes "/a", record { size = 6; mtime = 8; etag = etag_of 8 6 })
      ∷ [];
  remote = (
    record { files = b_sent ∷ conflict ∷ theirs },
    bytes "b" ∷ bytes "mine" ∷ bytes "theirs" ∷ bytes "mine" ∷ [],
  );
}
