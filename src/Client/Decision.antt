-- ===== src/Client/Decision.antt =====
-- The decision table of the sync engine: what the reconciliation of a path has done, and when.
use xx_drive.Prelude.{Bool, true, false, ◌≡◌, refl, inl, inr, Option, nat_eq, bytes_eq, Bool-cases}
use xx_drive.Prelude.Bytes.{Bytes}
use xx_drive.Client.Dict.{lookup, insert, erase}
use xx_drive.Client.Sync.{Meta, same, with_etag, Server}
use xx_drive.Client.Transfers.{World, Setting, resolve_conflict}
use xx_drive.Client.Pass.{push, pull, delete_remote, trash, changed, gone, value, reconcile}

module _ (server : Server) (setting : Setting) (l r : Option Meta) (w : World server)
    (rp : Bytes) where
  abbrev l_changed : Bool
  l_changed = changed server setting l (lookup rp w.base)

  abbrev r_changed : Bool
  r_changed = changed server setting r (lookup rp w.base)

  abbrev l_gone : Bool
  l_gone = gone server setting l (lookup rp w.base)

  abbrev r_gone : Bool
  r_gone = gone server setting r (lookup rp w.base)

  abbrev remote_meta : Meta
  remote_meta = value server setting r

  -- Each constructor has the case of the switch with its guards.
  pub data Did (w' : World server) : Type 0 where
    adopted :
        l_changed ≡ true
        → r_changed ≡ true
        → w' ≡ record w { base = insert rp (with_etag (value server setting l)) w.base }
        → Did w'
    resolved :
        l_changed ≡ true
        → r_changed ≡ true
        → w' ≡ resolve_conflict server setting w rp remote_meta
        → Did w'
    pushed :
        l_changed ≡ true
        → r_changed ≡ false
        → w' ≡ push server setting w rp (lookup rp w.base) remote_meta
        → Did w'
    deleted :
        l_gone ≡ true
        → r_changed ≡ false
        → r_gone ≡ false
        → w' ≡ delete_remote server setting w rp
        → Did w'
    pulled :
        l_changed ≡ false
        → r_changed ≡ true
        → w' ≡ (pull server setting w rp remote_meta).1
        → Did w'
    trashed :
        l_changed ≡ false → l_gone ≡ false → r_gone ≡ true → w' ≡ trash server setting w rp → Did w'
    forgotten : l_gone ≡ true → r_gone ≡ true → w' ≡ record w { base = erase rp w.base } → Did w'
    nothing : w' ≡ w → Did w'

  pub reconcile-Did : Did ((reconcile server setting l r w rp).1)
  unfolding reconcile
  reconcile-Did = elim (Bool-cases l_changed) [
    | inl lc ↦ elim (Bool-cases r_changed) [
      | inl rc ↦ elim (Bool-cases (same (value server setting l) (value server setting r))) [
        | inl equal ↦ adopted lc rc (rw (reconcile, lc, rc, equal) refl)
        | inr differ ↦ resolved lc rc (rw (reconcile, lc, rc, differ) refl)
      ]
      | inr rc ↦ pushed lc rc (rw (reconcile, lc, rc) refl)
    ]
    | inr lc ↦ elim (Bool-cases r_changed) [
      | inl rc ↦ elim (Bool-cases l_gone) [
        | inl lg ↦ pulled lc rc (rw (reconcile, lc, rc, lg) refl)
        | inr lg ↦ pulled lc rc (rw (reconcile, lc, rc, lg) refl)
      ]
      | inr rc ↦ elim (Bool-cases l_gone) [
        | inl lg ↦ elim (Bool-cases r_gone) [
          | inl rg ↦ forgotten lg rg (rw (reconcile, lc, rc, lg, rg) refl)
          | inr rg ↦ deleted lg rc rg (rw (reconcile, lc, rc, lg, rg) refl)
        ]
        | inr lg ↦ elim (Bool-cases r_gone) [
          | inl rg ↦ trashed lc lg rg (rw (reconcile, lc, rc, lg, rg) refl)
          | inr rg ↦ nothing (rw (reconcile, lc, rc, lg, rg) refl)
        ]
      ]
    ]
  ]
