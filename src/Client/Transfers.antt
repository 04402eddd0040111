-- ===== src/Client/Transfers.antt =====
-- cmd/xxdrive-cli/sync.go and main.go: the transfers of a pass, and the resolution of a conflict.
use xx_drive.Prelude.{
  ℕ, zero, suc, Bool, true, false, List, [], ◌∷◌, ◌++◌, find, Option, none, some, if◌then◌else◌,
  ◌==◌, nat_eq, bytes_eq,
}
use xx_drive.Prelude.Bytes.{Bytes, bytes}
use xx_drive.Filepath.{base}
use xx_drive.Drive.Trash.{decimal}
use xx_drive.Client.Dict.{lookup, insert, erase}
use xx_drive.Client.Sync.{
  Meta, with_etag, File, RemoteEntry, Answer, stale, refused, stored, failed, entries, Server,
  join_remote, conflict_name, meta_from_entry, parent_dir,
}

-- The local calls that may fail at a path.
pub data LocalCall : Type 0 where
  open_file : LocalCall
  make_folder : LocalCall
  create_part : LocalCall
  copy_part : LocalCall
  rename_part : LocalCall
  set_times : LocalCall
  rename_trash : LocalCall
  write_baseline : LocalCall

-- The staging file of a download.
abbrev pub part_of : Bytes → Bytes
part_of rp = rp ++ bytes ".xxpart"

-- A place in the local trash; the number tells how often the stamp was in use.
abbrev pub trash_place : Bytes → ℕ → Bytes → Bytes
trash_place stamp zero rp = bytes "/.xxdrive-trash/" ++ (stamp ++ rp)
trash_place stamp (suc n) rp =
    bytes "/.xxdrive-trash/" ++ (stamp ++ (b'-' ∷ (decimal (suc n) ++ rp)))

-- The states that a pass changes.
pub record World (server : Server) : Type 0 where
  pub local : List (Bytes × File)
  pub base : List (Bytes × Meta)
  pub remote : server.State

-- What a pass takes from its environment: the pair, the host's name, the times as texts and as
-- numbers, and which local calls fail.
pub record Setting : Type 0 where
  pub remote_dir : Bytes
  pub tag : Bytes
  pub conflict_stamp : Bytes → Bytes
  pub trash_stamp : Bytes
  pub now : ℕ
  pub fails : LocalCall → Bytes → Bool

module _ (server : Server) (setting : Setting) where
  abbrev fails : LocalCall → Bytes → Bool
  fails = setting.fails

  abbrev pub target_of : Bytes → Bytes
  target_of rp = join_remote setting.remote_dir rp

  -- `pullTo`
  unfoldable pub pull_to : World server → Bytes → Bytes → Bool × World server
  pull_to w target rp =
      let (answer, s) = server.download w.remote target in
      elim answer [
        | none ↦ (false, record w { remote = s })
        | some text ↦
            let file : File = record { text = text; mtime = setting.now } in
            if fails create_part rp
            then (false, record w { remote = s })
            else if fails copy_part rp
            then (false, record w { local = erase (part_of rp) w.local; remote = s })
            else if fails rename_part rp
            then (false, record w { local = insert (part_of rp) file w.local; remote = s })
            else (
              true,
              record w { local = insert rp file (erase (part_of rp) w.local); remote = s },
            )
      ]

  -- os.Chtimes, whose error is ignored.
  abbrev pub set_mtime : World server → Bytes → ℕ → World server
  set_mtime w rp mtime = if fails set_times rp then w else elim (lookup rp w.local) [
    | none ↦ w
    | some f ↦ record w { local = insert rp (record f { mtime = mtime }) w.local }
  ]

  -- `uploadFile`, from the local file on.
  unfoldable pub upload_file : World server → Bytes → Bytes → Bytes → Answer × World server
  upload_file w rp target if_match = elim (lookup rp w.local) [
    | none ↦ (refused, w)
    | some f ↦
        if fails open_file rp
        then (refused, w)
        else let (answer, s) = server.upload w.remote target f.text if_match in
          (answer, record w { remote = s })
  ]

  -- `statRemote`
  unfoldable pub stat_remote : World server → Bytes → Option RemoteEntry × World server
  stat_remote w target =
      let (listing, s) = server.list w.remote (parent_dir target) in
      elim listing [
        | failed text ↦ (none, record w { remote = s })
        | entries es ↦ (find (λ e. e.name == base target) es, record w { remote = s })
      ]

  -- What the baseline takes for the canonical path after a conflict.
  abbrev pub fresh_meta : Meta → Option RemoteEntry → Meta
  fresh_meta meta none = meta
  fresh_meta meta (some e) =
      if e.is_dir then meta else with_etag (record { size = e.size; mtime = e.mtime; etag = [] })

  -- The end of `resolveConflict`: the local copy of the conflict copy, and the baseline.
  unfoldable pub mirror_conflict : World server → Bytes → Bytes → Meta → Meta → World server
  mirror_conflict w rp conflict_rel meta conf_meta =
      if fails make_folder conflict_rel
      then w
      else let (pulled, w') = pull_to w (target_of conflict_rel) conflict_rel in
        let w'' = set_mtime w' conflict_rel conf_meta.mtime in
        if pulled
        then record w'' { base = insert conflict_rel conf_meta (insert rp meta w''.base) }
        else w'

  -- The part of `resolveConflict` behind the upload: the canonical content is fetched.
  unfoldable pub converge : World server → Bytes → Bytes → Meta → Meta → World server
  converge w rp conflict_rel meta conf_meta =
      let (pulled, converged) = pull_to w (target_of rp) rp in
      let (fresh, known) = stat_remote converged (target_of rp) in
      let settled = fresh_meta meta fresh in
      if pulled
      then mirror_conflict (set_mtime known rp settled.mtime) rp conflict_rel settled conf_meta
      else converged

  -- `resolveConflict`
  unfoldable pub resolve_conflict : World server → Bytes → Meta → World server
  resolve_conflict w rp meta =
      let conflict_rel = conflict_name rp setting.tag (setting.conflict_stamp rp) in
      let (answer, parked) = upload_file w rp (target_of conflict_rel) [] in
      elim answer [
        | stale ↦ parked
        | refused ↦ parked
        | stored entry ↦ elim (meta_from_entry entry) [
          | none ↦ parked
          | some conf_meta ↦ converge parked rp conflict_rel meta conf_meta
        ]
      ]
