-- ===== src/Client/Lossless.antt =====
-- A whole pass loses no local content.
use xx_drive.Prelude.{
  ℕ, true, ◌≡◌, sym, ◌∙◌, inl, inr, List, [], ◌∷◌, ◌++◌, Option, some, nat_eq, bytes_eq, arith, All,
}
use xx_drive.Prelude.Bytes.{Bytes}
use xx_drive.Prelude.Results.{Result-cases}
use xx_drive.Client.Dict.{lookup}
use xx_drive.Client.Sync.{Meta, same, File, meta_of, Server}
use xx_drive.Client.Server.{IsKeeping}
use xx_drive.Client.Transfers.{trash_place, World, Setting}
use xx_drive.Client.Pass.{reconcile, reconcile_all}
use xx_drive.Client.Held.{reconcile-Holds}
use xx_drive.Client.Baseline.{reconcile-base}
use xx_drive.Client.Others.{Clear, reconcile-other}
use xx_drive.Client.Kept.{Safe, text_of-lookup, reconcile-Safe}

-- Neither the path nor its places in the local trash are touched when another path is reconciled.
abbrev pub IsOutlying : Setting → Bytes → Bytes → Type 0
IsOutlying setting q rp =
    Clear setting q rp × ((n : ℕ) → Clear setting (trash_place setting.trash_stamp n q) rp)

module _ (server : Server) (Holds : server.State → Bytes → Type 0)
    (keeping : IsKeeping server Holds) (setting : Setting) (q t : Bytes) where
  reconcile-Safe_other :
      (l r : Option Meta) (w : World server) (rp : Bytes)
      → IsOutlying setting q rp
      → Safe server Holds keeping setting q t w
      → Safe server Holds keeping setting q t ((reconcile server setting l r w rp).1)
  reconcile-Safe_other l r w rp (clear, places) (inl h) =
      inl (text_of-lookup _ w.local q (reconcile-other server setting l r w rp q clear) ∙ h)
  reconcile-Safe_other l r w rp (clear, places) (inr (inl (n, h))) = inr (
      inl (
        n,
        text_of-lookup _ w.local (trash_place setting.trash_stamp n q) (
              reconcile-other server setting l r w rp (trash_place setting.trash_stamp n q)
                (places n))
            ∙ h,
      ))
  reconcile-Safe_other l r w rp (clear, places) (inr (inr h)) =
      inr (inr (reconcile-Holds server Holds keeping setting t l r w rp h))

  module _ (local remote : List (Bytes × Meta)) where
    after-Safe :
        (w : World server) (paths : List Bytes)
        → All (IsOutlying setting q) paths
        → Safe server Holds keeping setting q t w
        → Safe server Holds keeping setting q t
            ((reconcile_all server setting local remote w paths).1)
    unfolding reconcile_all
    after-Safe w [] _ h = h
    after-Safe w (rp ∷ paths) (o, os) h =
        let step = reconcile server setting (lookup rp local) (lookup rp remote) w rp in
        let next = reconcile-Safe_other (lookup rp local) (lookup rp remote) w rp o h in
        let rest = after-Safe (step.1) paths os next in
        elim (Result-cases (step.0)) [
          | inr (e, stopped) ↦ rw (reconcile_all, stopped) next
          | inl (done, went_on) ↦ rw (reconcile_all, went_on) rest
        ]

    -- What the baseline records of the file is held by the server.
    abbrev pub IsBacked : File → World server → Type 0
    IsBacked f w =
        (b : Meta) → lookup q w.base ≡ some b → same (meta_of f) b ≡ true → Holds w.remote t

    -- The loop over the paths keeps the content of the file at the path, wherever the path stands.
    pub reconcile_all-Safe :
        (w : World server) (f : File) (before after : List Bytes)
        → lookup q w.local ≡ some f
        → f.text ≡ t
        → lookup q local ≡ some (meta_of f)
        → IsBacked f w
        → All (IsOutlying setting q) before
        → All (IsOutlying setting q) after
        → Safe server Holds keeping setting q t
            ((reconcile_all server setting local remote w (before ++ q ∷ after)).1)
    unfolding reconcile_all
    reconcile_all-Safe w f [] after here content listed backed _ os =
        let step = reconcile server setting (lookup q local) (lookup q remote) w q in
        let own : Safe server Holds keeping setting q t (step.1) = rw listed (
          reconcile-Safe server Holds keeping setting q t (lookup q remote) w f here content
            backed) in
        let rest = after-Safe (step.1) after os own in
        elim (Result-cases (step.0)) [
          | inr (e, stopped) ↦ rw (reconcile_all, stopped) own
          | inl (done, went_on) ↦ rw (reconcile_all, went_on) rest
        ]
    reconcile_all-Safe w f (rp ∷ before) after here content listed backed ((clear, places), bs) os =
        let step = reconcile server setting (lookup rp local) (lookup rp remote) w rp in
        let still =
          reconcile-other server setting (lookup rp local) (lookup rp remote) w rp q clear ∙ here in
        let known =
          reconcile-base server setting (lookup rp local) (lookup rp remote) w rp q clear in
        let backed' : IsBacked f (step.1) = λ b e equal.
          reconcile-Holds server Holds keeping setting t (lookup rp local) (lookup rp remote) w rp
            (backed b (sym known ∙ e) equal) in
        let rest = reconcile_all-Safe (step.1) f before after still content listed backed' bs os in
        elim (Result-cases (step.0)) [
          | inr (e, stopped) ↦ rw (reconcile_all, stopped) (inl (ground arith))
          | inl (done, went_on) ↦ rw (reconcile_all, went_on) rest
        ]
