-- ===== src/Store/Versions/Listed.antt =====
-- Moves and deletions of the versions that a list names.
use xx_drive.Prelude.{
  ℕ, suc, Bool, not, ◌&&◌, ◌||◌, ◌≡◌, ◌≢◌, refl, sym, ap, ◌∙◌, ◌⊎◌, inl, inr, List, [], ◌∷◌, ◌++◌,
  map, ◌==◌, nat_eq, bytes_eq, arith, any, keep, length, contains, All, Bool-cases, append-nil,
}
use xx_drive.Prelude.Bytes.{Bytes, has_prefix, trim_prefix}
use xx_drive.Prelude.Tables.{keep-all, keep-not_or, keep-append, keep-keep, sort_by_desc}
use xx_drive.Store.Rows.{Version, Db}
use xx_drive.Store.Versions.{
  VersionRef, is_at, is_ref, info_of, VersionInfo, list_versions, is_root, copies, move_version,
  move_versions, move_specific_versions, delete_refs, delete_specific_versions,
}

abbrev pub is_listed : ℕ → List VersionRef → Version → Bool
is_listed user refs v = any (λ r. is_ref user r v) refs

delete_refs-keep :
    (user : ℕ) (seen : List Bytes) (refs : List VersionRef) (rows : List Version)
    → (delete_refs user seen refs rows).1 ≡ keep (λ v. not (is_listed user refs v)) rows
delete_refs-keep user seen [] rows = sym (keep-all rows)
delete_refs-keep user seen (ref ∷ refs) rows =
    let left = keep (λ v. not (is_ref user ref v)) rows in
    let one = delete_refs-keep user (ref.path ∷ seen) refs left in
    let two = delete_refs-keep user seen refs left in
    let both = keep-not_or (is_ref user ref) (is_listed user refs) rows in
    elim (Bool-cases (any (is_ref user ref) rows && not (contains seen ref.path))) [
      | inl lost ↦ rw lost (one ∙ both)
      | inr other ↦ rw other (two ∙ both)
    ]

-- The deletion of listed versions takes exactly the rows of the user that the list names by path and
-- version id, and keeps the others in their order.
pub delete_specific_versions-keep :
    (db : Db) (user : ℕ) (refs : List VersionRef)
    → (delete_specific_versions db user refs).1.versions
      ≡ keep (λ v. not (is_listed user refs v)) db.versions
unfolding delete_specific_versions
delete_specific_versions-keep db user refs = delete_refs-keep user [] refs db.versions

-- The history of a path of a user is out of reach of the move of a reference.
abbrev pub IsApart : ℕ → Bytes → Bytes → ℕ → Bytes → VersionRef → Type 0
IsApart user old_root new_root user' path ref =
    (user' ≢ user) ⊎ ((ref.path ≢ path) × (new_root ++ trim_prefix ref.path old_root ≢ path))

copies-vacant :
    (user user' next : ℕ) (ref : VersionRef) (np path : Bytes) (rows : List Version)
    → (user' ≢ user) ⊎ (np ≢ path)
    → keep (is_at user' path) (copies next np (keep (is_ref user ref) rows)) ≡ []
copies-vacant user user' next ref np path [] ne = refl
copies-vacant user user' next ref np path (v ∷ rows) ne = elim (Bool-cases (is_ref user ref v)) [
  | inl hit ↦
      let rest = copies-vacant user user' (suc next) ref np path rows ne in rw hit (ground arith)
  | inr passed ↦ rw passed (copies-vacant user user' next ref np path rows ne)
]

move_version-history :
    (old_root new_root : Bytes) (db : Db) (user user' : ℕ) (ref : VersionRef) (path : Bytes)
    → IsApart user old_root new_root user' path ref
    → keep (is_at user' path) ((move_version old_root new_root db user ref).versions)
      ≡ keep (is_at user' path) db.versions
unfolding move_version
move_version-history old_root new_root db user user' ref path apart =
    let selected = keep (is_ref user ref) db.versions in
    let np = new_root ++ trim_prefix ref.path old_root in
    elim (Bool-cases (not (has_prefix ref.path old_root) || length selected == 0)) [
      | inl skipped ↦ rw skipped refl
      | inr going ↦ rw going (
          keep-keep (is_at user' path) (λ v. not (is_ref user ref v))
            (db.versions ++ copies db.next_version np selected)
            (λ v at. elim apart [ inl other ↦ ground arith | inr (far, _) ↦ ground arith ])
          ∙ keep-append (is_at user' path) db.versions (copies db.next_version np selected)
          ∙ ap (λ r. keep (is_at user' path) db.versions ++ r)
              (copies-vacant user user' db.next_version ref np path db.versions
                (elim apart [ inl other ↦ inl other | inr (_, far) ↦ inr far ]))
          ∙ append-nil (keep (is_at user' path) db.versions))
    ]

move_versions-history :
    (old_root new_root : Bytes) (db : Db) (user user' : ℕ) (refs : List VersionRef) (path : Bytes)
    → All (IsApart user old_root new_root user' path) refs
    → keep (is_at user' path) ((move_versions old_root new_root db user refs).versions)
      ≡ keep (is_at user' path) db.versions
move_versions-history old_root new_root db user user' [] path _ = refl
move_versions-history old_root new_root db user user' (ref ∷ refs) path (h, hs) =
    move_versions-history old_root new_root (move_version old_root new_root db user ref) user user'
      refs path hs
    ∙ move_version-history old_root new_root db user user' ref path h

-- The move of listed versions leaves the history of every path that is neither the path of a listed
-- version nor the place it goes to, and all histories of other users, as they were.
pub move_specific_versions-list_versions :
    (old_root new_root : Bytes) (db : Db) (user user' : ℕ) (refs : List VersionRef) (path : Bytes)
    → All (IsApart user old_root new_root user' path) refs
    → list_versions (move_specific_versions db user refs old_root new_root) user' path
      ≡ list_versions db user' path
unfolding move_specific_versions list_versions
move_specific_versions-list_versions old_root new_root db user user' refs path h =
    elim (Bool-cases (is_root old_root || is_root new_root)) [
      | inl refused ↦ rw refused refl
      | inr going ↦ rw going (
          ap (λ rows. sort_by_desc (λ (i : VersionInfo). i.created_at) (map info_of rows))
            (move_versions-history old_root new_root db user user' refs path h))
    ]
