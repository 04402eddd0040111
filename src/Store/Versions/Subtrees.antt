-- ===== src/Store/Versions/Subtrees.antt =====
-- What moves and purges of a subtree do to the histories that `ListVersions` shows.
use xx_drive.Prelude.{
  ℕ, Bool, true, false, not, ◌≡◌, ◌≢◌, refl, ap, ◌∙◌, ◌⊎◌, inl, inr, List, [], ◌∷◌, ◌++◌, nat_eq,
  bytes_eq, arith, keep, append-nil, Bool-cases,
}
use xx_drive.Prelude.Bytes.{Bytes}
use xx_drive.Prelude.Tables.{keep-keep, keep-nothing}
use xx_drive.Prelude.Results.{ok}
use xx_drive.Filepath.{slash}
use xx_drive.Filepath.Canonical.{IsTail}
use xx_drive.Store.Rows.{Version, Db}
use xx_drive.Store.Like.{is_under, IsLike}
use xx_drive.Store.Like.Subtree.{SameFolded, is_under_iff}
use xx_drive.Store.Versions.{is_at, in_subtree, list_versions, delete_versions_under}

module _ (like : Bytes → Bytes → Bool) where
  delete_versions_under-rows :
      (db : Db) (user : ℕ) (root : Bytes) {paths : List Bytes} {db' : Db}
      → delete_versions_under like db user root ≡ (ok paths, db')
      → db'.versions ≡ keep (λ v. not (in_subtree like user root v)) db.versions
  unfolding delete_versions_under
  delete_versions_under-rows db user root e = ground arith

  pub is_at-in_subtree :
      (user : ℕ) (root path : Bytes) (v : Version)
      → is_under like root path ≡ true
      → is_at user path v ≡ true
      → not (in_subtree like user root v) ≡ false
  is_at-in_subtree user root path v h e =
      let owner : v.user_id ≡ user = ground arith in
      let here : v.path ≡ path = ground arith in
      let same : is_under like root v.path ≡ is_under like root path =
        ap (is_under like root) here in
      ground arith

  is_at-outside :
      (user user' : ℕ) (root path : Bytes) (v : Version)
      → (user' ≢ user) ⊎ (is_under like root path ≡ false)
      → is_at user' path v ≡ true
      → not (in_subtree like user root v) ≡ true
  is_at-outside user user' root path v h e =
      let owner : v.user_id ≡ user' = ground arith in
      let here : v.path ≡ path = ground arith in
      let same : is_under like root v.path ≡ is_under like root path =
        ap (is_under like root) here in
      ground arith

  list_versions-gone :
      (db : Db) (user : ℕ) (root path : Bytes) {paths : List Bytes} {db' : Db}
      → delete_versions_under like db user root ≡ (ok paths, db')
      → is_under like root path ≡ true
      → list_versions db' user path ≡ []
  unfolding list_versions
  list_versions-gone db user root path e h =
      rw
        (
          delete_versions_under-rows db user root e,
          keep-nothing (is_at user path) (λ v. not (in_subtree like user root v)) db.versions
              (λ v at. is_at-in_subtree user root path v h at),
        )
        refl

  list_versions-left :
      (db : Db) (user user' : ℕ) (root path : Bytes) {paths : List Bytes} {db' : Db}
      → delete_versions_under like db user root ≡ (ok paths, db')
      → (user' ≢ user) ⊎ (is_under like root path ≡ false)
      → list_versions db' user' path ≡ list_versions db user' path
  unfolding list_versions
  list_versions-left db user user' root path e h =
      rw
        (
          delete_versions_under-rows db user root e,
          keep-keep (is_at user' path) (λ v. not (in_subtree like user root v)) db.versions
              (λ v at. is_at-outside user user' root path v h at),
        )
        refl

module _ (like : Bytes → Bytes → Bool) (laws : IsLike like) where
  pub under-tail : (root t : Bytes) → IsTail t → is_under like root (root ++ t) ≡ true
  under-tail root t (inl e) =
      (is_under_iff like laws root (root ++ t)).1 (inl (ap (λ x. root ++ x) e ∙ append-nil root))
  under-tail root t (inr (u, e)) =
      (is_under_iff like laws root (root ++ t)).1 (inr (root, u, ap (λ x. root ++ x) e, refl))

  -- A purge of a subtree empties the histories of the root and of every path below it, and leaves
  -- every history of other users, and of paths that are not below the root but for the case of ASCII
  -- letters, as it was.
  pub delete_versions_under-list_versions :
      (db : Db) (user : ℕ) (root : Bytes) {paths : List Bytes} {db' : Db}
      → delete_versions_under like db user root ≡ (ok paths, db')
      → ((t : Bytes) → IsTail t → list_versions db' user (root ++ t) ≡ [])
        × ((user' : ℕ) (path : Bytes)
            → (user' ≢ user)
              ⊎ ((path ≢ root) × ((q t : Bytes) → SameFolded q root → path ≢ q ++ slash ∷ t))
            → list_versions db' user' path ≡ list_versions db user' path)
  delete_versions_under-list_versions db user root {paths} {db'} e = (
    (λ t tail. list_versions-gone like db user root (root ++ t) e (under-tail root t tail)),
    (λ user' path apart. list_versions-left like db user user' root path e (outside apart)),
  )
    where
      outside :
          {user' : ℕ} {path : Bytes}
          → (user' ≢ user)
            ⊎ ((path ≢ root) × ((q t : Bytes) → SameFolded q root → path ≢ q ++ slash ∷ t))
          → (user' ≢ user) ⊎ (is_under like root path ≡ false)
      outside (inl other) = inl other
      outside {user'} {path} (inr (ne, far)) = elim (Bool-cases (is_under like root path)) [
        | inr out ↦ inr out
        | inl under ↦ elim ((is_under_iff like laws root path).0 under) [
          | inl same ↦ absurd (ne same)
          | inr (q, t, split, same) ↦ absurd (far q t same split)
        ]
      ]

  -- A purge of a subtree also empties the histories below another folder whose path differs from the
  -- root only in the case of ASCII letters.
  pub delete_versions_under_other_case :
      (db : Db) (user : ℕ) (root q t : Bytes) {paths : List Bytes} {db' : Db}
      → delete_versions_under like db user root ≡ (ok paths, db')
      → SameFolded q root
      → list_versions db' user (q ++ slash ∷ t) ≡ []
  delete_versions_under_other_case db user root q t e same =
      list_versions-gone like db user root (q ++ slash ∷ t) e
        ((is_under_iff like laws root (q ++ slash ∷ t)).1 (inr (q, t, refl, same)))
