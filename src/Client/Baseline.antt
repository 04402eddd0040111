-- ===== src/Client/Baseline.antt =====
-- What the reconciliation of one path leaves alone in the baseline.
use xx_drive.Prelude.{
  ℕ, zero, suc, ◌≡◌, ◌≢◌, refl, ap, ◌∙◌, inl, inr, List, [], Option, none, some, nat_eq, bytes_eq,
  arith, Option-cases,
}
use xx_drive.Prelude.Bytes.{Bytes}
use xx_drive.Client.Dict.{lookup, insert, lookup-insert, lookup-erase}
use xx_drive.Client.Sync.{Meta, with_etag, File, Server, conflict_name, meta_from_entry}
use xx_drive.Client.Transfers.{
  World, Setting, pull_to, set_mtime, upload_file, stat_remote, fresh_meta, mirror_conflict,
  converge, resolve_conflict, target_of,
}
use xx_drive.Client.Pass.{
  trash_rounds, push, pull, delete_remote, trash_local, trash, value, reconcile,
}
use xx_drive.Client.Others.{Clear, Answer-cases}
use xx_drive.Client.Decision.{
  Did, adopted, resolved, pushed, deleted, pulled, trashed, forgotten, nothing, reconcile-Did,
}

module _ (server : Server) (setting : Setting) where
  pull_to-base :
      (w : World server) (target rp : Bytes) → (pull_to server setting w target rp).1.base ≡ w.base
  unfolding pull_to
  pull_to-base w target rp = ground arith

  set_mtime-base :
      (w : World server) (rp : Bytes) (m : ℕ) → (set_mtime server setting w rp m).base ≡ w.base
  set_mtime-base w rp m = ground arith

  upload_file-base :
      (w : World server) (rp target if_match : Bytes)
      → ((upload_file server setting w rp target if_match).1).base ≡ w.base
  unfolding upload_file
  upload_file-base w rp target if_match = ground arith

  stat_remote-base :
      (w : World server) (target : Bytes) → ((stat_remote server setting w target).1).base ≡ w.base
  unfolding stat_remote
  stat_remote-base w target = ground arith

  lookup-insert_other :
      (k j : Bytes) (v : Meta) (m m' : List (Bytes × Meta))
      → k ≢ j
      → m ≡ m'
      → lookup j (insert k v m) ≡ lookup j m'
  lookup-insert_other k j v m m' ne e = lookup-insert k j v m ∙ ground arith

  converge-base :
      (w : World server) (rp conf q : Bytes) (m c : Meta)
      → rp ≢ q
      → conf ≢ q
      → lookup q ((converge server setting w rp conf m c).base) ≡ lookup q w.base
  unfolding converge mirror_conflict
  converge-base w rp conf q m c a b =
      let target = target_of server setting rp in
      let converged = (pull_to server setting w target rp).1 in
      let known = stat_remote server setting converged target in
      let settled = fresh_meta server setting m (known.0) in
      let timed = set_mtime server setting (known.1) rp settled.mtime in
      let conf_target = target_of server setting conf in
      let copied = (pull_to server setting timed conf_target conf).1 in
      let last = set_mtime server setting copied conf c.mtime in
      let p = pull_to-base w target rp in
      let k = set_mtime-base (known.1) rp settled.mtime ∙ stat_remote-base converged target ∙ p in
      let d = pull_to-base timed conf_target conf ∙ k in
      let e = set_mtime-base copied conf c.mtime ∙ d in
      let one = lookup-insert_other rp q settled last.base w.base a e in
      let two = lookup-insert conf q c (insert rp settled last.base) in ground arith

  resolve_conflict-base :
      (w : World server) (rp q : Bytes) (m : Meta)
      → Clear setting q rp
      → lookup q ((resolve_conflict server setting w rp m).base) ≡ lookup q w.base
  unfolding resolve_conflict
  resolve_conflict-base w rp q m clear =
      let conf = conflict_name rp setting.tag (setting.conflict_stamp rp) in
      let target = target_of server setting conf in
      let parked = (upload_file server setting w rp target []).1 in
      let sent = ap (λ (l : List (Bytes × Meta)). lookup q l) (upload_file-base w rp target []) in
      elim (Answer-cases ((upload_file server setting w rp target []).0)) [
        | inl turned_down ↦ rw (resolve_conflict, turned_down) sent
        | inr (inl turned_down) ↦ rw (resolve_conflict, turned_down) sent
        | inr (inr (entry, done)) ↦ elim (Option-cases (meta_from_entry entry)) [
          | inl unread ↦ rw (resolve_conflict, done, unread) sent
          | inr (conf_meta, read) ↦
              rw (resolve_conflict, done, read)
                (converge-base parked rp conf q m conf_meta clear.path clear.conflict ∙ sent)
        ]
      ]

  push-base :
      (w : World server) (rp q : Bytes) (b : Option Meta) (m : Meta)
      → Clear setting q rp
      → lookup q ((push server setting w rp b m).base) ≡ lookup q w.base
  unfolding push
  push-base w rp q b m clear =
      let if_match : Bytes = elim b [ none ↦ [] | some k ↦ k.etag ] in
      let target = target_of server setting rp in
      let sent = (upload_file server setting w rp target if_match).1 in
      let same_base = upload_file-base w rp target if_match in
      let looked = ap (λ (l : List (Bytes × Meta)). lookup q l) same_base in
      elim (Answer-cases ((upload_file server setting w rp target if_match).0)) [
        | inl old ↦ rw (push, old) (resolve_conflict-base sent rp q m clear ∙ looked)
        | inr (inl turned_down) ↦ rw (push, turned_down) looked
        | inr (inr (entry, done)) ↦ elim (Option-cases (meta_from_entry entry)) [
          | inl unread ↦ rw (push, done, unread) looked
          | inr (stored_meta, read) ↦
              rw (push, done, read)
                (lookup-insert_other rp q stored_meta _ w.base clear.path
                  (set_mtime-base sent rp stored_meta.mtime ∙ same_base))
        ]
      ]

  pull-base :
      (w : World server) (rp q : Bytes) (m : Meta)
      → rp ≢ q
      → lookup q ((pull server setting w rp m).1.base) ≡ lookup q w.base
  unfolding pull
  pull-base w rp q m a =
      let target = target_of server setting rp in
      let w' = (pull_to server setting w target rp).1 in
      let timed = set_mtime server setting w' rp m.mtime in
      let p = pull_to-base w target rp in
      let k = set_mtime-base w' rp m.mtime ∙ p in
      let one = lookup-insert_other rp q (with_etag m) timed.base w.base a k in ground arith

  delete_remote-base :
      (w : World server) (rp q : Bytes)
      → rp ≢ q
      → lookup q ((delete_remote server setting w rp).base) ≡ lookup q w.base
  unfolding delete_remote
  delete_remote-base w rp q a = let one = lookup-erase rp q w.base in ground arith

  trash_local-base :
      (left n : ℕ) (w : World server) (rp : Bytes) (f : File)
      → (trash_local server setting left n w rp f).1.base ≡ w.base
  unfolding trash_local
  trash_local-base zero n w rp f = refl
  trash_local-base (suc left) n w rp f = ground (arith, trash_local-base left (suc n) w rp f)

  trash-base :
      (w : World server) (rp q : Bytes)
      → rp ≢ q
      → lookup q ((trash server setting w rp).base) ≡ lookup q w.base
  unfolding trash
  trash-base w rp q a = elim (Option-cases (lookup rp w.local)) [
    | inl missing ↦ rw (trash, missing) refl
    | inr (f, here) ↦
        let first = (trash_local server setting (trash_rounds server setting) 0 w rp f).1 in
        let ih = trash_local-base (trash_rounds server setting) 0 w rp f in
        let one = lookup-erase rp q first.base in ground arith
  ]

  -- The reconciliation of a path leaves what the baseline records of others.
  pub reconcile-base :
      (l r : Option Meta) (w : World server) (rp q : Bytes)
      → Clear setting q rp
      → lookup q ((reconcile server setting l r w rp).1.base) ≡ lookup q w.base
  reconcile-base l r w rp q clear = of_Did (reconcile-Did server setting l r w rp)
    where
      at_world :
          {v v' : World server}
          → v' ≡ v
          → lookup q v.base ≡ lookup q w.base
          → lookup q v'.base ≡ lookup q w.base
      at_world e k = ap (λ (x : World server). lookup q x.base) e ∙ k

      of_Did :
          {w' : World server} → Did server setting l r w rp w' → lookup q w'.base ≡ lookup q w.base
      of_Did (adopted _ _ e) = at_world e (
          lookup-insert_other rp q (with_etag (value server setting l)) w.base w.base clear.path
            refl)
      of_Did (resolved _ _ e) =
          at_world e (resolve_conflict-base w rp q (value server setting r) clear)
      of_Did (pushed _ _ e) =
          at_world e (push-base w rp q (lookup rp w.base) (value server setting r) clear)
      of_Did (deleted _ _ _ e) = at_world e (delete_remote-base w rp q clear.path)
      of_Did (pulled _ _ e) = at_world e (pull-base w rp q (value server setting r) clear.path)
      of_Did (trashed _ _ _ e) = at_world e (trash-base w rp q clear.path)
      of_Did (forgotten _ _ e) =
          at_world e (let one = lookup-erase rp q w.base in let ne = clear.path in ground arith)
      of_Did (nothing e) = at_world e refl
