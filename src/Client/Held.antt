-- ===== src/Client/Held.antt =====
-- What the server holds, it holds through a pass.
use xx_drive.Prelude.{
  ℕ, zero, suc, ◌≡◌, refl, sym, inl, inr, [], Option, none, some, nat_eq, bytes_eq, arith, subst,
  Bool-cases, Option-cases,
}
use xx_drive.Prelude.Bytes.{Bytes}
use xx_drive.Client.Dict.{lookup}
use xx_drive.Client.Sync.{
  Meta, File, RemoteEntry, stored, Server, conflict_name, meta_from_entry, parent_dir,
}
use xx_drive.Client.Server.{IsKeeping}
use xx_drive.Client.Others.{text_of, Answer-cases}
use xx_drive.Client.Decision.{
  Did, adopted, resolved, pushed, deleted, pulled, trashed, forgotten, nothing, reconcile-Did,
}
use xx_drive.Client.Transfers.{
  open_file, make_folder, World, Setting, pull_to, set_mtime, upload_file, stat_remote, fresh_meta,
  mirror_conflict, converge, resolve_conflict, target_of,
}
use xx_drive.Client.Pass.{
  trash_rounds, push, pull, delete_remote, trash_local, trash, value, reconcile,
}

module _ (server : Server) (Holds : server.State → Bytes → Type 0)
    (keeping : IsKeeping server Holds) (setting : Setting) (t : Bytes) where
  abbrev HoldsIn : World server → Type 0
  HoldsIn w = Holds w.remote t

  held : {a b : server.State} → a ≡ b → Holds a t → Holds b t
  held e h = subst (λ s. Holds s t) e h

  pull_to-remote :
      (w : World server) (target rp : Bytes)
      → (server.download w.remote target).1 ≡ (pull_to server setting w target rp).1.remote
  unfolding pull_to
  pull_to-remote w target rp = ground arith

  set_mtime-remote :
      (w : World server) (rp : Bytes) (m : ℕ) → w.remote ≡ (set_mtime server setting w rp m).remote
  set_mtime-remote w rp m = ground arith

  stat_remote-remote :
      (w : World server) (target : Bytes)
      → (server.list w.remote (parent_dir target)).1
        ≡ (stat_remote server setting w target).1.remote
  unfolding stat_remote
  stat_remote-remote w target = ground arith

  pull_to-Holds :
      (w : World server) (target rp : Bytes)
      → HoldsIn w
      → HoldsIn ((pull_to server setting w target rp).1)
  pull_to-Holds w target rp h =
      held (pull_to-remote w target rp) (keeping.download_keeps w.remote target t h)

  set_mtime-Holds :
      (w : World server) (rp : Bytes) (m : ℕ)
      → HoldsIn w
      → HoldsIn (set_mtime server setting w rp m)
  set_mtime-Holds w rp m h = held (set_mtime-remote w rp m) h

  stat_remote-Holds :
      (w : World server) (target : Bytes)
      → HoldsIn w
      → HoldsIn ((stat_remote server setting w target).1)
  stat_remote-Holds w target h =
      held (stat_remote-remote w target) (keeping.list_keeps w.remote (parent_dir target) t h)

  pub upload_file-Holds :
      (w : World server) (rp target if_match : Bytes)
      → HoldsIn w
      → HoldsIn ((upload_file server setting w rp target if_match).1)
  unfolding upload_file
  upload_file-Holds w rp target if_match h = elim (Option-cases (lookup rp w.local)) [
    | inl missing ↦ rw (upload_file, missing) h
    | inr (f, here) ↦ elim (Bool-cases (setting.fails open_file rp)) [
      | inl unread ↦ rw (upload_file, here, unread) h
      | inr opened ↦
          rw (upload_file, here, opened) (keeping.upload_keeps w.remote target f.text if_match t h)
    ]
  ]

  -- The content of a file that the server has taken is held by it.
  pub upload_file-stored :
      (w : World server) (rp target if_match : Bytes) {e : Option RemoteEntry}
      → text_of w.local rp ≡ some t
      → (upload_file server setting w rp target if_match).0 ≡ stored e
      → HoldsIn ((upload_file server setting w rp target if_match).1)
  unfolding upload_file
  upload_file-stored w rp target if_match {e} has done = elim (Option-cases (lookup rp w.local)) [
    | inl missing ↦ absurd (ground arith)
    | inr (f, here) ↦ elim (Bool-cases (setting.fails open_file rp)) [
      | inl unread ↦ absurd (ground arith)
      | inr opened ↦
          let same : f.text ≡ t = ground arith in
          let taken : (server.upload w.remote target f.text if_match).0 ≡ stored e = ground arith in
          rw (upload_file, here, opened)
            (subst (λ x. Holds ((server.upload w.remote target f.text if_match).1) x) same
              (keeping.upload_stores w.remote target f.text if_match e taken))
    ]
  ]

  mirror_conflict-Holds :
      (w : World server) (rp conf : Bytes) (m c : Meta)
      → HoldsIn w
      → HoldsIn (mirror_conflict server setting w rp conf m c)
  unfolding mirror_conflict
  mirror_conflict-Holds w rp conf m c h =
      let target = target_of server setting conf in
      let fetched = pull_to-Holds w target conf h in
      let timed = set_mtime-Holds ((pull_to server setting w target conf).1) conf c.mtime fetched in
      elim (Bool-cases (setting.fails make_folder conf)) [
        | inl blocked ↦ rw (mirror_conflict, blocked) h
        | inr made ↦ elim (Bool-cases ((pull_to server setting w target conf).0)) [
          | inl done ↦ rw (mirror_conflict, made, done) timed
          | inr not_done ↦ rw (mirror_conflict, made, not_done) fetched
        ]
      ]

  pub converge-Holds :
      (w : World server) (rp conf : Bytes) (m c : Meta)
      → HoldsIn w
      → HoldsIn (converge server setting w rp conf m c)
  unfolding converge
  converge-Holds w rp conf m c h =
      let target = target_of server setting rp in
      let converged = (pull_to server setting w target rp).1 in
      let known = stat_remote server setting converged target in
      let settled = fresh_meta server setting m (known.0) in
      let fetched = pull_to-Holds w target rp h in
      let timed =
        set_mtime-Holds (known.1) rp settled.mtime (stat_remote-Holds converged target fetched) in
      elim (Bool-cases ((pull_to server setting w target rp).0)) [
        | inl done ↦
            rw (converge, done)
              (mirror_conflict-Holds (set_mtime server setting (known.1) rp settled.mtime) rp conf
                settled c timed)
        | inr not_done ↦ rw (converge, not_done) fetched
      ]

  pub resolve_conflict-Holds :
      (w : World server) (rp : Bytes) (m : Meta)
      → HoldsIn w
      → HoldsIn (resolve_conflict server setting w rp m)
  unfolding resolve_conflict
  resolve_conflict-Holds w rp m h =
      let conf = conflict_name rp setting.tag (setting.conflict_stamp rp) in
      let target = target_of server setting conf in
      let sent = upload_file-Holds w rp target [] h in
      elim (Answer-cases ((upload_file server setting w rp target []).0)) [
        | inl turned_down ↦ rw (resolve_conflict, turned_down) sent
        | inr (inl turned_down) ↦ rw (resolve_conflict, turned_down) sent
        | inr (inr (entry, done)) ↦ elim (Option-cases (meta_from_entry entry)) [
          | inl unread ↦ rw (resolve_conflict, done, unread) sent
          | inr (conf_meta, read) ↦
              rw (resolve_conflict, done, read)
                (converge-Holds ((upload_file server setting w rp target []).1) rp conf m conf_meta
                  sent)
        ]
      ]

  push-Holds :
      (w : World server) (rp : Bytes) (b : Option Meta) (m : Meta)
      → HoldsIn w
      → HoldsIn (push server setting w rp b m)
  unfolding push
  push-Holds w rp b m h =
      let if_match : Bytes = elim b [ none ↦ [] | some k ↦ k.etag ] in
      let target = target_of server setting rp in
      let parked = (upload_file server setting w rp target if_match).1 in
      let sent = upload_file-Holds w rp target if_match h in
      elim (Answer-cases ((upload_file server setting w rp target if_match).0)) [
        | inl old ↦ rw (push, old) (resolve_conflict-Holds parked rp m sent)
        | inr (inl turned_down) ↦ rw (push, turned_down) sent
        | inr (inr (entry, done)) ↦ elim (Option-cases (meta_from_entry entry)) [
          | inl unread ↦ rw (push, done, unread) sent
          | inr (stored_meta, read) ↦
              rw (push, done, read) (set_mtime-Holds parked rp stored_meta.mtime sent)
        ]
      ]

  pub pull-Holds :
      (w : World server) (rp : Bytes) (m : Meta)
      → HoldsIn w
      → HoldsIn ((pull server setting w rp m).1)
  unfolding pull
  pull-Holds w rp m h =
      let target = target_of server setting rp in
      let fetched = pull_to-Holds w target rp h in
      let timed = set_mtime-Holds ((pull_to server setting w target rp).1) rp m.mtime fetched in
      elim (Bool-cases (setting.fails make_folder rp)) [
        | inl blocked ↦ rw (pull, blocked) h
        | inr made ↦ elim (Bool-cases ((pull_to server setting w target rp).0)) [
          | inl done ↦ rw (pull, made, done) timed
          | inr not_done ↦ rw (pull, made, not_done) fetched
        ]
      ]

  delete_remote-Holds :
      (w : World server) (rp : Bytes) → HoldsIn w → HoldsIn (delete_remote server setting w rp)
  unfolding delete_remote
  delete_remote-Holds w rp h =
      let k = keeping.delete_keeps w.remote (target_of server setting rp) t h in
      elim (Bool-cases ((server.delete w.remote (target_of server setting rp)).0)) [
        | inl done ↦ rw (delete_remote, done) k
        | inr not_done ↦ rw (delete_remote, not_done) k
      ]

  trash_local-remote :
      (left n : ℕ) (w : World server) (rp : Bytes) (f : File)
      → w.remote ≡ (trash_local server setting left n w rp f).1.remote
  unfolding trash_local
  trash_local-remote zero n w rp f = refl
  trash_local-remote (suc left) n w rp f = ground (arith, trash_local-remote left (suc n) w rp f)

  trash-remote : (w : World server) (rp : Bytes) → w.remote ≡ (trash server setting w rp).remote
  unfolding trash
  trash-remote w rp = elim (Option-cases (lookup rp w.local)) [
    | inl missing ↦ rw (trash, missing) refl
    | inr (f, here) ↦
        let ih = trash_local-remote (trash_rounds server setting) 0 w rp f in ground arith
  ]

  -- Reconciling a path takes no content from the server.
  pub reconcile-Holds :
      (l r : Option Meta) (w : World server) (rp : Bytes)
      → HoldsIn w
      → HoldsIn ((reconcile server setting l r w rp).1)
  reconcile-Holds l r w rp h = of_Did (reconcile-Did server setting l r w rp)
    where
      at_world : {v v' : World server} → v' ≡ v → HoldsIn v → HoldsIn v'
      at_world e k = subst HoldsIn (sym e) k

      of_Did : {w' : World server} → Did server setting l r w rp w' → HoldsIn w'
      of_Did (adopted _ _ e) = at_world e h
      of_Did (resolved _ _ e) = at_world e (resolve_conflict-Holds w rp (value server setting r) h)
      of_Did (pushed _ _ e) =
          at_world e (push-Holds w rp (lookup rp w.base) (value server setting r) h)
      of_Did (deleted _ _ _ e) = at_world e (delete_remote-Holds w rp h)
      of_Did (pulled _ _ e) = at_world e (pull-Holds w rp (value server setting r) h)
      of_Did (trashed _ _ _ e) = at_world e (held (trash-remote w rp) h)
      of_Did (forgotten _ _ e) = at_world e h
      of_Did (nothing e) = at_world e h
