-- ===== src/Store/Versions.antt =====
-- internal/store/store.go: the index of old versions.
pub mod Subtrees
pub mod Relocated
pub mod Listed
pub mod Pruned
use xx_drive.Prelude.{
  ℕ, suc, ◌+◌, ◌<◌, Bool, true, false, not, ◌&&◌, ◌||◌, List, [], ◌∷◌, ◌++◌, map, Option, none,
  some, if◌then◌else◌, ◌==◌, nat_eq, bytes_eq, ltb, any, find, keep, length, drop, contains,
}
use xx_drive.Prelude.Bytes.{Bytes, has_prefix, trim_prefix}
use xx_drive.Prelude.Tables.{update, sort_by_desc}
use xx_drive.Prelude.Results.{Result, ok, err, not_found, other}
use xx_drive.Filepath.{slash}
use xx_drive.Store.Rows.{User, Version, Db}
use xx_drive.Store.Users.{user_by_id, user_by_name}
use xx_drive.Store.Like.{is_under}

-- `VersionRef`
pub record VersionRef : Type 0 where
  pub path : Bytes
  pub version_id : Bytes

-- `VersionInfo`
pub record VersionInfo : Type 0 where
  pub version_id : Bytes
  pub size : ℕ
  pub created_at : ℕ

-- `WHERE user_id = ? AND path = ?`
abbrev pub is_at : ℕ → Bytes → Version → Bool
is_at user path v = v.user_id == user && v.path == path

-- `WHERE user_id = ? AND path = ? AND version_id = ?`
abbrev pub is_ref : ℕ → VersionRef → Version → Bool
is_ref user ref v = v.user_id == user && v.path == ref.path && v.version_id == ref.version_id

abbrev pub ref_of : Version → VersionRef
ref_of v = record { path = v.path; version_id = v.version_id }

abbrev pub info_of : Version → VersionInfo
info_of v = record { version_id = v.version_id; size = v.size; created_at = v.created_at }

abbrev pub is_root : Bytes → Bool
is_root path = path == [] || path == slash ∷ []

-- `AddVersion`; a version needs a user.
unfoldable pub add_version : Db → ℕ → Bytes → Bytes → ℕ → ℕ → Result (Unit {0}) × Db
add_version db user path version_id size now =
    let v : Version = record {
      id = db.next_version;
      user_id = user;
      path = path;
      version_id = version_id;
      size = size;
      created_at = now;
    } in
    elim (user_by_id db user) [
      | none ↦ (err other, db)
      | some u ↦ (
        ok tt,
        record db { versions = db.versions ++ v ∷ []; next_version = suc db.next_version },
      )
    ]

-- `ListVersions`
unfoldable pub list_versions : Db → ℕ → Bytes → List VersionInfo
list_versions db user path =
    sort_by_desc (λ (i : VersionInfo). i.created_at)
      (map info_of (keep (is_at user path) db.versions))

-- `GetVersion`
unfoldable pub get_version : Db → ℕ → Bytes → Bytes → Result VersionInfo
get_version db user path version_id =
    elim (find (is_ref user (record { path = path; version_id = version_id })) db.versions) [
      | none ↦ err not_found
      | some v ↦ ok (info_of v)
    ]

-- `DeleteVersionsForPath`
unfoldable pub delete_versions_for_path : Db → ℕ → Bytes → Db
delete_versions_for_path db user path = record db {
  versions = keep (λ v. not (is_at user path v)) db.versions;
}

-- SELECT DISTINCT path, in the order of first appearance.
abbrev pub distinct_paths : List Bytes → List Version → List Bytes
distinct_paths seen [] = []
distinct_paths seen (v ∷ vs) =
    let skip = distinct_paths seen vs in
    let more = distinct_paths (v.path ∷ seen) vs in
    if contains seen v.path then skip else v.path ∷ more

module _ (like : Bytes → Bytes → Bool) where
  -- `WHERE user_id = ? AND (path = ? OR path LIKE ? ESCAPE '\')`
  abbrev pub in_subtree : ℕ → Bytes → Version → Bool
  in_subtree user root v = v.user_id == user && is_under like root v.path

  -- `RelocateVersions`: `path = ? || substr(path, length(?)+1)` for each selected row. A selected path
  -- has as many characters, and bytes, as the old path where the two agree up to case.
  unfoldable pub relocate_versions : Db → ℕ → Bytes → Bytes → List Bytes × Db
  relocate_versions db user old_path new_path =
      if is_root old_path || is_root new_path then ([], db) else (
        distinct_paths [] (keep (in_subtree user old_path) db.versions),
        record db {
          versions =
              update (in_subtree user old_path)
                (λ v. record v { path = new_path ++ drop (length old_path) v.path }) db.versions;
        },
      )

  -- `VersionsUnder`; the rows are in the order of their ids.
  unfoldable pub versions_under : Db → ℕ → Bytes → List VersionRef
  versions_under db user root = map ref_of (keep (in_subtree user root) db.versions)

  -- `DeleteVersionsUnder`
  unfoldable pub delete_versions_under : Db → ℕ → Bytes → Result (List Bytes) × Db
  delete_versions_under db user prefix = if is_root prefix then (err other, db) else (
    ok (distinct_paths [] (keep (in_subtree user prefix) db.versions)),
    record db { versions = keep (λ v. not (in_subtree user prefix v)) db.versions },
  )

-- INSERT INTO … SELECT: a copy of each selected row at the new path, with the next ids.
abbrev pub copies : ℕ → Bytes → List Version → List Version
copies next path [] = []
copies next path (v ∷ vs) = record v { id = next; path = path } ∷ copies (suc next) path vs

-- One round of the loop of `MoveSpecificVersions`.
unfoldable pub move_version : Bytes → Bytes → Db → ℕ → VersionRef → Db
move_version old_root new_root db user ref =
    let selected = keep (is_ref user ref) db.versions in
    let path = new_root ++ trim_prefix ref.path old_root in
    if not (has_prefix ref.path old_root) || length selected == 0 then db else record db {
      versions =
          keep (λ v. not (is_ref user ref v)) (db.versions ++ copies db.next_version path selected);
      next_version = db.next_version + length selected;
    }

abbrev pub move_versions : Bytes → Bytes → Db → ℕ → List VersionRef → Db
move_versions old_root new_root db user [] = db
move_versions old_root new_root db user (ref ∷ refs) =
    move_versions old_root new_root (move_version old_root new_root db user ref) user refs

-- `MoveSpecificVersions`
unfoldable pub move_specific_versions : Db → ℕ → List VersionRef → Bytes → Bytes → Db
move_specific_versions db user refs old_root new_root =
    if is_root old_root || is_root new_root
    then db
    else move_versions old_root new_root db user refs

-- The loop of `DeleteSpecificVersions`: the rows left, and the paths that lost rows.
abbrev pub delete_refs : ℕ → List Bytes → List VersionRef → List Version → List Bytes × List Version
delete_refs user seen [] rows = ([], rows)
delete_refs user seen (ref ∷ refs) rows =
    let left = keep (λ v. not (is_ref user ref v)) rows in
    let (removed, rest) = delete_refs user (ref.path ∷ seen) refs left in
    let (removed', rest') = delete_refs user seen refs left in
    if any (is_ref user ref) rows && not (contains seen ref.path)
    then (ref.path ∷ removed, rest)
    else (removed', rest')

-- `DeleteSpecificVersions`
unfoldable pub delete_specific_versions : Db → ℕ → List VersionRef → List Bytes × Db
delete_specific_versions db user refs =
    let (removed, rows) = delete_refs user [] refs db.versions in
    (removed, record db { versions = rows })

-- A row that stands before another in the history of one path: newer, or as new with a higher id.
abbrev pub is_newer : Version → Version → Bool
is_newer v w =
    w.user_id == v.user_id
    && w.path == v.path
    && (ltb v.created_at w.created_at || (w.created_at == v.created_at && ltb v.id w.id))

-- ROW_NUMBER() OVER (PARTITION BY user_id, path ORDER BY created_at DESC, id DESC)
abbrev pub row_number : List Version → Version → ℕ
row_number rows v = suc (length (keep (is_newer v) rows))

pub record PrunedRow : Type 0 where
  pub username : Bytes
  pub path : Bytes
  pub version_id : Bytes

-- The rows past the limit, joined with their users.
abbrev pub pruned_rows : Db → ℕ → List Version → List PrunedRow
pruned_rows db limit [] = []
pruned_rows db limit (v ∷ vs) =
    let rest = pruned_rows db limit vs in
    if ltb limit (row_number db.versions v)
    then elim (user_by_id db v.user_id) [
      | some u ↦ record { username = u.username; path = v.path; version_id = v.version_id } ∷ rest
      | none ↦ rest
    ]
    else rest

-- The row's user bears the name, and path and version id agree.
abbrev pub is_pruned : Db → PrunedRow → Version → Bool
is_pruned db p v =
    v.version_id == p.version_id
    && v.path == p.path
    && elim (user_by_name db p.username) [ some u ↦ v.user_id == u.id | none ↦ false ]

abbrev pub delete_pruned : Db → List PrunedRow → List Version → List Version
delete_pruned db [] rows = rows
delete_pruned db (p ∷ ps) rows = delete_pruned db ps (keep (λ v. not (is_pruned db p v)) rows)

-- `PruneVersions`
unfoldable pub prune_versions : Db → ℕ → List PrunedRow × Db
prune_versions db limit =
    let pruned = pruned_rows db limit db.versions in
    (pruned, record db { versions = delete_pruned db pruned db.versions })
