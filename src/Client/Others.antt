-- ===== src/Client/Others.antt =====
-- What the reconciliation of one path leaves alone: the other local files.
use xx_drive.Prelude.{
  ℕ, zero, suc, ◌≡◌, ◌≢◌, refl, ap, ◌∙◌, ◌⊎◌, inl, inr, List, [], Option, none, some, nat_eq,
  bytes_eq, arith, Option-cases,
}
use xx_drive.Prelude.Bytes.{Bytes}
use xx_drive.Client.Dict.{lookup, erase, lookup-erase}
use xx_drive.Client.Sync.{
  Meta, File, RemoteEntry, Answer, stale, refused, stored, Server, conflict_name, meta_from_entry,
}
use xx_drive.Client.Transfers.{
  part_of, trash_place, World, Setting, pull_to, set_mtime, upload_file, stat_remote, fresh_meta,
  mirror_conflict, converge, resolve_conflict, target_of,
}
use xx_drive.Client.Pass.{
  trash_rounds, push, pull, delete_remote, trash_local, trash, value, reconcile,
}

-- The text of the file at a path.
abbrev pub text_of : List (Bytes × File) → Bytes → Option Bytes
text_of local p = elim (lookup p local) [ none ↦ none | some f ↦ some f.text ]

-- The paths that the reconciliation of a path touches are not the given one.
pub record Clear (setting : Setting) (p rp : Bytes) : Type 0 where
  pub path : rp ≢ p
  pub part : part_of rp ≢ p
  pub conflict : conflict_name rp setting.tag (setting.conflict_stamp rp) ≢ p
  pub conflict_part : part_of (conflict_name rp setting.tag (setting.conflict_stamp rp)) ≢ p
  pub place : (n : ℕ) → trash_place setting.trash_stamp n rp ≢ p

pub Answer-cases :
    (a : Answer) → (a ≡ stale) ⊎ ((a ≡ refused) ⊎ ((e : Option RemoteEntry) × (a ≡ stored e)))
Answer-cases stale = inl refl
Answer-cases refused = inr (inl refl)
Answer-cases (stored e) = inr (inr (e, refl))

module _ (server : Server) (setting : Setting) where
  pub pull_to-other :
      (w : World server) (target rp q : Bytes)
      → rp ≢ q
      → part_of rp ≢ q
      → lookup q ((pull_to server setting w target rp).1.local) ≡ lookup q w.local
  unfolding pull_to
  pull_to-other w target rp q a b =
      ground
        (arith, lookup-erase (part_of rp) q w.local, lookup-erase rp q (erase (part_of rp) w.local))

  pub set_mtime-other :
      (w : World server) (rp q : Bytes) (m : ℕ)
      → rp ≢ q
      → lookup q ((set_mtime server setting w rp m).local) ≡ lookup q w.local
  set_mtime-other w rp q m a = ground (arith, lookup-erase rp q w.local)

  pub set_mtime-text :
      (w : World server) (rp q : Bytes) (m : ℕ)
      → text_of ((set_mtime server setting w rp m).local) q ≡ text_of w.local q
  set_mtime-text w rp q m = ground (arith, lookup-erase rp q w.local)

  pub upload_file-local :
      (w : World server) (rp target if_match : Bytes)
      → ((upload_file server setting w rp target if_match).1).local ≡ w.local
  unfolding upload_file
  upload_file-local w rp target if_match = ground arith

  stat_remote-local :
      (w : World server) (target : Bytes)
      → ((stat_remote server setting w target).1).local ≡ w.local
  unfolding stat_remote
  stat_remote-local w target = ground arith

  mirror_conflict-other :
      (w : World server) (rp conf q : Bytes) (m c : Meta)
      → conf ≢ q
      → part_of conf ≢ q
      → lookup q ((mirror_conflict server setting w rp conf m c).local) ≡ lookup q w.local
  unfolding mirror_conflict
  mirror_conflict-other w rp conf q m c a b =
      let target = target_of server setting conf in
      ground (
        arith,
        pull_to-other w target conf q a b,
        set_mtime-other ((pull_to server setting w target conf).1) conf q c.mtime a,
      )

  converge-other :
      (w : World server) (rp conf q : Bytes) (m c : Meta)
      → rp ≢ q
      → part_of rp ≢ q
      → conf ≢ q
      → part_of conf ≢ q
      → lookup q ((converge server setting w rp conf m c).local) ≡ lookup q w.local
  unfolding converge
  converge-other w rp conf q m c a b e f =
      let target = target_of server setting rp in
      let converged = (pull_to server setting w target rp).1 in
      let known = stat_remote server setting converged target in
      let settled = fresh_meta server setting m (known.0) in
      let timed = set_mtime server setting (known.1) rp settled.mtime in
      let first = pull_to-other w target rp q a b in
      let second =
        mirror_conflict-other timed rp conf q settled c e f
        ∙ set_mtime-other (known.1) rp q settled.mtime a
        ∙ ap (λ (l : List (Bytes × File)). lookup q l) (stat_remote-local converged target)
        ∙ first in
      ground arith

  pub resolve_conflict-other :
      (w : World server) (rp q : Bytes) (m : Meta)
      → Clear setting q rp
      → lookup q ((resolve_conflict server setting w rp m).local) ≡ lookup q w.local
  unfolding resolve_conflict
  resolve_conflict-other w rp q m clear =
      let conf = conflict_name rp setting.tag (setting.conflict_stamp rp) in
      let target = target_of server setting conf in
      let parked = (upload_file server setting w rp target []).1 in
      let sent = ap (λ (l : List (Bytes × File)). lookup q l) (upload_file-local w rp target []) in
      elim (Answer-cases ((upload_file server setting w rp target []).0)) [
        | inl turned_down ↦ rw (resolve_conflict, turned_down) sent
        | inr (inl turned_down) ↦ rw (resolve_conflict, turned_down) sent
        | inr (inr (entry, done)) ↦ elim (Option-cases (meta_from_entry entry)) [
          | inl unread ↦ rw (resolve_conflict, done, unread) sent
          | inr (conf_meta, read) ↦
              rw (resolve_conflict, done, read)
                (converge-other parked rp conf q m conf_meta clear.path clear.part clear.conflict
                    clear.conflict_part
                  ∙ sent)
        ]
      ]

  push-other :
      (w : World server) (rp q : Bytes) (b : Option Meta) (m : Meta)
      → Clear setting q rp
      → lookup q ((push server setting w rp b m).local) ≡ lookup q w.local
  unfolding push
  push-other w rp q b m clear =
      let if_match : Bytes = elim b [ none ↦ [] | some k ↦ k.etag ] in
      let target = target_of server setting rp in
      let sent = (upload_file server setting w rp target if_match).1 in
      let same_local =
        ap (λ (l : List (Bytes × File)). lookup q l) (upload_file-local w rp target if_match) in
      elim (Answer-cases ((upload_file server setting w rp target if_match).0)) [
        | inl old ↦ rw (push, old) (resolve_conflict-other sent rp q m clear ∙ same_local)
        | inr (inl turned_down) ↦ rw (push, turned_down) same_local
        | inr (inr (entry, done)) ↦ elim (Option-cases (meta_from_entry entry)) [
          | inl unread ↦ rw (push, done, unread) same_local
          | inr (stored_meta, read) ↦
              rw (push, done, read)
                (set_mtime-other sent rp q stored_meta.mtime clear.path ∙ same_local)
        ]
      ]

  pull-other :
      (w : World server) (rp q : Bytes) (m : Meta)
      → rp ≢ q
      → part_of rp ≢ q
      → lookup q ((pull server setting w rp m).1.local) ≡ lookup q w.local
  unfolding pull
  pull-other w rp q m a b =
      let target = target_of server setting rp in
      let w' = (pull_to server setting w target rp).1 in
      let timed = set_mtime server setting w' rp m.mtime in
      ground (
        arith,
        pull_to-other w target rp q a b,
        set_mtime-other w' rp q m.mtime a,
        lookup-erase (part_of rp) q timed.local,
      )

  trash_local-other :
      (left n : ℕ) (w : World server) (rp q : Bytes) (f : File)
      → rp ≢ q
      → ((k : ℕ) → trash_place setting.trash_stamp k rp ≢ q)
      → lookup q ((trash_local server setting left n w rp f).1.local) ≡ lookup q w.local
  unfolding trash_local
  trash_local-other zero n w rp q f a places = refl
  trash_local-other (suc left) n w rp q f a places =
      let place = trash_place setting.trash_stamp n rp in
      let ih = trash_local-other left (suc n) w rp q f a places in
      let ne = places n in
      let one = lookup-erase rp q w.local in
      let two = lookup-erase place q (erase rp w.local) in ground arith

  trash-other :
      (w : World server) (rp q : Bytes)
      → Clear setting q rp
      → lookup q ((trash server setting w rp).local) ≡ lookup q w.local
  unfolding trash
  trash-other w rp q clear = elim (Option-cases (lookup rp w.local)) [
    | inl missing ↦ rw (trash, missing) refl
    | inr (f, here) ↦
        let ih =
          trash_local-other (trash_rounds server setting) 0 w rp q f clear.path clear.place in
        ground arith
  ]

  delete_remote-local :
      (w : World server) (rp : Bytes) → (delete_remote server setting w rp).local ≡ w.local
  unfolding delete_remote
  delete_remote-local w rp = ground arith

  -- The reconciliation of a path touches no file but those at the names that it makes of the path.
  pub reconcile-other :
      (l r : Option Meta) (w : World server) (rp q : Bytes)
      → Clear setting q rp
      → lookup q ((reconcile server setting l r w rp).1.local) ≡ lookup q w.local
  unfolding reconcile
  reconcile-other l r w rp q clear =
      let b = lookup rp w.base in
      let remote = value server setting r in
      let deleted = ap (λ (x : List (Bytes × File)). lookup q x) (delete_remote-local w rp) in
      ground (
        arith,
        resolve_conflict-other w rp q remote clear,
        push-other w rp q b remote clear,
        pull-other w rp q remote clear.path clear.part,
        trash-other w rp q clear,
      )
