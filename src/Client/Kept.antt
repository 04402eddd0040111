-- ===== src/Client/Kept.antt =====
-- A pass of the sync engine loses no local content.
use xx_drive.Prelude.{
  ℕ, zero, suc, true, false, ◌||◌, ◌≡◌, sym, ap, ◌∙◌, ◌⊎◌, inl, inr, List, [], Option, none, some,
  nat_eq, bytes_eq, arith, subst, Bool-cases, Option-cases,
}
use xx_drive.Prelude.Bytes.{Bytes}
use xx_drive.Client.Dict.{lookup}
use xx_drive.Client.Sync.{Meta, same, File, meta_of, Server, conflict_name, meta_from_entry}
use xx_drive.Client.Server.{IsKeeping}
use xx_drive.Client.Transfers.{
  make_folder, rename_trash, trash_place, World, Setting, upload_file, resolve_conflict, target_of,
}
use xx_drive.Client.Pass.{
  trash_rounds, push, delete_remote, trash_local, trash, changed, value, reconcile,
}
use xx_drive.Client.Others.{text_of, Answer-cases, set_mtime-text, upload_file-local}
use xx_drive.Client.Decision.{
  Did, adopted, resolved, pushed, deleted, pulled, trashed, forgotten, nothing, reconcile-Did,
}
use xx_drive.Client.Held.{converge-Holds, upload_file-stored, pull-Holds}

pub text_of-lookup :
    (a b : List (Bytes × File)) (p : Bytes) → lookup p a ≡ lookup p b → text_of a p ≡ text_of b p
text_of-lookup a b p e =
    ap (λ (o : Option File). elim o as (λ x. Option Bytes) [ none ↦ none | some f ↦ some f.text ]) e

module _ (server : Server) (Holds : server.State → Bytes → Type 0)
    (keeping : IsKeeping server Holds) (setting : Setting) (q t : Bytes) where
  -- The content of the path is in its file, in the local trash, or held by the server.
  abbrev pub Safe : World server → Type 0
  Safe w =
      (text_of w.local q ≡ some t)
      ⊎ (((n : ℕ) × (text_of w.local (trash_place setting.trash_stamp n q) ≡ some t))
          ⊎ Holds w.remote t)

  resolve_conflict-Safe :
      (w : World server) (m : Meta)
      → text_of w.local q ≡ some t
      → Safe (resolve_conflict server setting w q m)
  unfolding resolve_conflict
  resolve_conflict-Safe w m has =
      let conf = conflict_name q setting.tag (setting.conflict_stamp q) in
      let target = target_of server setting conf in
      let sent = upload_file server setting w q target [] in
      let kept =
        ap (λ (l : List (Bytes × File)). text_of l q)
          (upload_file-local server setting w q target [])
        ∙ has in
      elim (Answer-cases (sent.0)) [
        | inl turned_down ↦ inl (rw (resolve_conflict, turned_down) kept)
        | inr (inl turned_down) ↦ inl (rw (resolve_conflict, turned_down) kept)
        | inr (inr (entry, done)) ↦
            let stored_there =
              upload_file-stored server Holds keeping setting t w q target [] has done in
            elim (Option-cases (meta_from_entry entry)) [
              | inl unread ↦ inl (rw (resolve_conflict, done, unread) kept)
              | inr (conf_meta, read) ↦ inr (
                  inr (
                    rw (resolve_conflict, done, read)
                      (converge-Holds server Holds keeping setting t (sent.1) q conf m conf_meta
                        stored_there)))
            ]
      ]

  push-Safe :
      (w : World server) (b : Option Meta) (m : Meta)
      → text_of w.local q ≡ some t
      → Safe (push server setting w q b m)
  unfolding push
  push-Safe w b m has =
      let if_match : Bytes = elim b [ none ↦ [] | some k ↦ k.etag ] in
      let target = target_of server setting q in
      let sent = upload_file server setting w q target if_match in
      let kept =
        ap (λ (l : List (Bytes × File)). text_of l q)
          (upload_file-local server setting w q target if_match)
        ∙ has in
      elim (Answer-cases (sent.0)) [
        | inl old ↦ rw (push, old) (resolve_conflict-Safe (sent.1) m kept)
        | inr (inl turned_down) ↦ inl (rw (push, turned_down) kept)
        | inr (inr (entry, done)) ↦ elim (Option-cases (meta_from_entry entry)) [
          | inl unread ↦ inl (rw (push, done, unread) kept)
          | inr (stored_meta, read) ↦ inl (
              rw (push, done, read)
                (set_mtime-text server setting (sent.1) q q stored_meta.mtime ∙ kept))
        ]
      ]

  trash_local-Safe :
      (left n : ℕ) (w : World server) (f : File)
      → text_of w.local q ≡ some t
      → f.text ≡ t
      → Safe ((trash_local server setting left n w q f).1)
  unfolding trash_local
  trash_local-Safe zero n w f has held_text = inl has
  trash_local-Safe (suc left) n w f has held_text =
      let place = trash_place setting.trash_stamp n q in
      let ih = trash_local-Safe left (suc n) w f has held_text in
      elim (Option-cases (lookup place w.local)) [
        | inr (g, taken) ↦ rw (trash_local, taken) ih
        | inl free ↦
            elim (Bool-cases
              (setting.fails make_folder place || setting.fails rename_trash place)) [
                | inl refused_here ↦ inl (rw (trash_local, free, refused_here) has)
                | inr moved ↦ inr (inl (n, rw (trash_local, free, moved) (ground arith)))
              ]
      ]

  trash-Safe : (w : World server) → text_of w.local q ≡ some t → Safe (trash server setting w q)
  unfolding trash
  trash-Safe w has = elim (Option-cases (lookup q w.local)) [
    | inl missing ↦ absurd (ground arith)
    | inr (f, here) ↦
        let first = trash_local-Safe (trash_rounds server setting) 0 w f has (ground arith) in
        elim (Bool-cases ((trash_local server setting (trash_rounds server setting) 0 w q f).0)) [
          | inl moved ↦ rw (trash, here, moved) first
          | inr stays ↦ rw (trash, here, stays) first
        ]
  ]

  delete_remote-local : (w : World server) → (delete_remote server setting w q).local ≡ w.local
  unfolding delete_remote
  delete_remote-local w = ground arith

  -- Reconciling the path itself: what the listing saw is the file, and what the baseline records of it
  -- is held by the server.
  pub reconcile-Safe :
      (r : Option Meta) (w : World server) (f : File)
      → lookup q w.local ≡ some f
      → f.text ≡ t
      → ((b : Meta) → lookup q w.base ≡ some b → same (meta_of f) b ≡ true → Holds w.remote t)
      → Safe ((reconcile server setting (some (meta_of f)) r w q).1)
  reconcile-Safe r w f here content backed =
      of_Did (reconcile-Did server setting (some (meta_of f)) r w q)
    where
      has : text_of w.local q ≡ some t
      has = ground arith

      at_world : {v v' : World server} → v' ≡ v → Safe v → Safe v'
      at_world e k = subst Safe (sym e) k

      seen :
          (changed server setting (some (meta_of f)) (lookup q w.base) ≡ false) → Holds w.remote t
      seen lc = elim (Option-cases (lookup q w.base)) [
        | inl unknown ↦ absurd (ground arith)
        | inr (b, known) ↦ backed b known (ground arith)
      ]

      of_Did : {w' : World server} → Did server setting (some (meta_of f)) r w q w' → Safe w'
      of_Did (adopted _ _ e) = at_world e (inl has)
      of_Did (resolved _ _ e) = at_world e (resolve_conflict-Safe w (value server setting r) has)
      of_Did (pushed _ _ e) =
          at_world e (push-Safe w (lookup q w.base) (value server setting r) has)
      of_Did (deleted _ _ _ e) =
          at_world e
            (inl (ap (λ (x : List (Bytes × File)). text_of x q) (delete_remote-local w) ∙ has))
      of_Did (pulled lc _ e) = at_world e (
          inr (
            inr (pull-Holds server Holds keeping setting t w q (value server setting r) (seen lc))))
      of_Did (trashed _ _ _ e) = at_world e (trash-Safe w has)
      of_Did (forgotten _ _ e) = at_world e (inl has)
      of_Did (nothing e) = at_world e (inl has)
