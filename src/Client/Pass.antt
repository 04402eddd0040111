-- ===== src/Client/Pass.antt =====
-- cmd/xxdrive-cli/sync.go: one pass of the sync engine, over the local files and any server.
use xx_drive.Prelude.{
  ℕ, zero, suc, Bool, true, false, not, ◌&&◌, ◌||◌, List, [], ◌∷◌, Option, none, some,
  if◌then◌else◌, nat_eq, bytes_eq,
}
use xx_drive.Prelude.Bytes.{Bytes}
use xx_drive.Prelude.Results.{Result, ok, err, other}
use xx_drive.Client.Dict.{lookup, insert, erase}
use xx_drive.Client.Sync.{
  Meta, no_meta, same, with_etag, File, stale, refused, stored, failed, entries, Server,
  meta_from_entry, walk_local, pair_relative, add_keys, walk_remote,
}
use xx_drive.Client.Transfers.{
  LocalCall, make_folder, rename_trash, write_baseline, part_of, trash_place, World, Setting,
  target_of, pull_to, set_mtime, upload_file, resolve_conflict,
}

module _ (server : Server) (setting : Setting) where
  abbrev fails : LocalCall → Bytes → Bool
  fails = setting.fails

  -- A local change alone: the remote copy is overwritten.
  unfoldable pub push : World server → Bytes → Option Meta → Meta → World server
  push w rp known meta =
      let if_match : Bytes = elim known [ none ↦ [] | some b ↦ b.etag ] in
      let (answer, sent) = upload_file server setting w rp (target_of server setting rp) if_match in
      elim answer [
        | stale ↦ resolve_conflict server setting sent rp meta
        | refused ↦ sent
        | stored entry ↦ elim (meta_from_entry entry) [
          | none ↦ sent
          | some stored_meta ↦
              let w' = set_mtime server setting sent rp stored_meta.mtime in
              record w' { base = insert rp stored_meta w'.base }
        ]
      ]

  -- A remote change alone.
  unfoldable pub pull : World server → Bytes → Meta → Result (Unit {0}) × World server
  pull w rp meta =
      if fails make_folder rp
      then (err other, w)
      else let (pulled, w') = pull_to server setting w (target_of server setting rp) rp in
        let w'' = set_mtime server setting w' rp meta.mtime in
        if pulled
        then (
          ok tt,
          record w'' {
            local = erase (part_of rp) w''.local;
            base = insert rp (with_etag meta) w''.base;
          },
        )
        else (ok tt, w')

  -- A local deletion: the remote file goes too.
  unfoldable pub delete_remote : World server → Bytes → World server
  delete_remote w rp =
      let (done, s) = server.delete w.remote (target_of server setting rp) in
      if done then record w { base = erase rp w.base; remote = s } else record w { remote = s }

  -- The loop of `trashLocal`, with the rounds that are left; a place that is in use is passed over.
  unfoldable pub trash_local : ℕ → ℕ → World server → Bytes → File → Bool × World server
  trash_local zero n w rp f = (false, w)
  trash_local (suc left) n w rp f =
      let next = trash_local left (suc n) w rp f in
      let place = trash_place setting.trash_stamp n rp in
      elim (lookup place w.local) [
        | some g ↦ next
        | none ↦
            if fails make_folder place || fails rename_trash place
            then (false, w)
            else (true, record w { local = insert place f (erase rp w.local) })
      ]

  abbrev pub trash_rounds : ℕ
  trash_rounds = 1000

  -- A remote deletion: the local file is moved to the trash.
  unfoldable pub trash : World server → Bytes → World server
  trash w rp = elim (lookup rp w.local) [
    | none ↦ w
    | some f ↦
        let (moved, w') = trash_local trash_rounds 0 w rp f in
        if moved then record w' { base = erase rp w'.base } else w'
  ]

  abbrev pub changed : Option Meta → Option Meta → Bool
  changed none b = false
  changed (some m) none = true
  changed (some m) (some b) = not (same m b)

  abbrev pub gone : Option Meta → Option Meta → Bool
  gone none (some b) = true
  gone m b = false

  abbrev pub value : Option Meta → Meta
  value none = no_meta
  value (some m) = m

  -- One path: the switch of `syncOnce`.
  unfoldable pub reconcile :
      Option Meta → Option Meta → World server → Bytes → Result (Unit {0}) × World server
  reconcile l r w rp =
      let b = lookup rp w.base in
      if changed l b && changed r b
      then if same (value l) (value r)
        then (ok tt, record w { base = insert rp (with_etag (value l)) w.base })
        else (ok tt, resolve_conflict server setting w rp (value r))
      else if changed l b
      then (ok tt, push w rp b (value r))
      else if gone l b && not (changed r b) && not (gone r b)
      then (ok tt, delete_remote w rp)
      else if changed r b
      then pull w rp (value r)
      else if gone r b && not (gone l b)
      then (ok tt, trash w rp)
      else if gone l b && gone r b
      then (ok tt, record w { base = erase rp w.base })
      else (ok tt, w)

  -- The loop of `syncOnce` over the sorted paths.
  unfoldable pub reconcile_all :
      List (Bytes × Meta)
      → List (Bytes × Meta)
      → World server
      → List Bytes
      → Result (Unit {0}) × World server
  reconcile_all local remote w [] = (ok tt, w)
  reconcile_all local remote w (rp ∷ paths) =
      let (result, w') = reconcile (lookup rp local) (lookup rp remote) w rp in
      let rest = reconcile_all local remote w' paths in
      elim result [ err e ↦ (err e, w') | ok done ↦ rest ]

  -- `syncOnce`: the result, the states, and the baseline that is saved, if one is. `none` means that
  -- the fuel for the remote listing ran out.
  unfoldable pub sync_once :
      ℕ
      → (Bytes → Bool)
      → World server
      → Option (Result (Unit {0}) × World server × Option (List (Bytes × Meta)))
  sync_once fuel unreadable w =
      let local = walk_local unreadable w.local in
      elim (walk_remote server fuel w.remote setting.remote_dir) [
        | none ↦ none
        | some (failed text, s) ↦ some (err other, record w { remote = s }, none)
        | some (entries es, s) ↦
            let remote = pair_relative setting.remote_dir es [] in
            let paths = add_keys local (add_keys remote (add_keys w.base [])) in
            let (result, w') = reconcile_all local remote (record w { remote = s }) paths in
            elim result [
              | err e ↦ some (err e, w', none)
              | ok done ↦
                  if fails write_baseline []
                  then some (err other, w', none)
                  else some (ok tt, w', some w'.base)
            ]
      ]
