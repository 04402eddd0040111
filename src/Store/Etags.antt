-- ===== src/Store/Etags.antt =====
-- internal/store/store.go: the cache of content hashes.
use xx_drive.Prelude.{
  ℕ, Bool, true, false, not, ◌&&◌, ◌||◌, ◌≡◌, refl, ◌∙◌, List, [], ◌∷◌, ◌++◌, map, Option, some,
  none, ◌==◌, nat_eq, bytes_eq, arith, any, find, keep, if◌then◌else◌, Bool-cases, inl, inr,
}
use xx_drive.Prelude.Bytes.{Bytes, trim_prefix}
use xx_drive.Prelude.Tables.{update, find-append}
use xx_drive.Store.Rows.{Etag, Db}
use xx_drive.Store.Like.{is_under}

abbrev pub is_entry : ℕ → Bytes → Etag → Bool
is_entry user path e = e.user_id == user && e.path == path

-- `CachedEtag`: the hash, if the file still has the size and time that it was computed for.
unfoldable pub cached_etag : Db → ℕ → Bytes → ℕ → ℕ → Option Bytes
cached_etag db user path size mtime = elim (find (is_entry user path) db.etags) [
  | none ↦ none
  | some e ↦ if not (e.size == size) || not (e.mtime == mtime) then none else some e.sha256
]

-- `PutEtag`; ON CONFLICT DO UPDATE.
unfoldable pub put_etag : Db → ℕ → Bytes → ℕ → ℕ → Bytes → Db
put_etag db user path size mtime sha =
    if any (is_entry user path) db.etags
    then record db {
      etags =
          update (is_entry user path) (λ e. record e { size = size; mtime = mtime; sha256 = sha })
            db.etags;
    }
    else record db {
      etags =
          db.etags
          ++ record { user_id = user; path = path; size = size; mtime = mtime; sha256 = sha } ∷ [];
    }

-- `DropEtag`
unfoldable pub drop_etag : Db → ℕ → Bytes → Db
drop_etag db user path = record db { etags = keep (λ e. not (is_entry user path e)) db.etags }

module _ (like : Bytes → Bytes → Bool) where
  abbrev pub in_prefix : ℕ → Bytes → Etag → Bool
  in_prefix user prefix e = e.user_id == user && is_under like prefix e.path

  -- `DeleteEtagsUnder`
  unfoldable pub delete_etags_under : Db → ℕ → Bytes → Db
  delete_etags_under db user prefix = record db {
    etags = keep (λ e. not (in_prefix user prefix e)) db.etags;
  }

  -- The updates of `MoveEtags`, one for each path; one that meets an entry at its new path violates
  -- the primary key and is ignored.
  abbrev pub move_paths : ℕ → Bytes → Bytes → List Bytes → List Etag → List Etag
  move_paths user old_prefix new_prefix [] rows = rows
  move_paths user old_prefix new_prefix (p ∷ ps) rows =
      let np = new_prefix ++ trim_prefix p old_prefix in
      let next =
        if not (np == p) && any (is_entry user np) rows
        then rows
        else update (is_entry user p) (λ (e : Etag). record e { path = np }) rows in
      move_paths user old_prefix new_prefix ps next

  -- `MoveEtags`
  unfoldable pub move_etags : Db → ℕ → Bytes → Bytes → Db
  move_etags db user old_prefix new_prefix = record db {
    etags =
        move_paths user old_prefix new_prefix
          (map (λ (e : Etag). e.path) (keep (in_prefix user old_prefix) db.etags)) db.etags;
  }

-- The entry holds these columns.
record Holds (size mtime : ℕ) (sha : Bytes) (e : Etag) : Type 0 where
  size_is : e.size ≡ size
  mtime_is : e.mtime ≡ mtime
  sha_is : e.sha256 ≡ sha

find-refreshed :
    (user : ℕ) (path : Bytes) (size mtime : ℕ) (sha : Bytes) (rows : List Etag)
    → any (is_entry user path) rows ≡ true
    → (r : Etag) × (find (is_entry user path) (
          update
            (is_entry user path)
            (λ (e : Etag). record e { size = size; mtime = mtime; sha256 = sha })
            rows)
        ≡ some r)
      × Holds size mtime sha r
find-refreshed user path size mtime sha [] h = cc
find-refreshed user path size mtime sha (e ∷ rows) h = elim (Bool-cases (is_entry user path e)) [
  | inl hit ↦ (
    record e { size = size; mtime = mtime; sha256 = sha },
    ground arith,
    record { size_is = refl; mtime_is = refl; sha_is = refl },
  )
  | inr passed ↦
      let (r, found, holds) = find-refreshed user path size mtime sha rows (ground arith) in
      (r, ground arith, holds)
]

find-other_refreshed :
    (user user' : ℕ) (path path' : Bytes) (size mtime : ℕ) (sha : Bytes) (rows : List Etag)
    → (user == user' && path == path') ≡ false
    → find (is_entry user' path') (
        update
          (is_entry user path)
          (λ (e : Etag). record e { size = size; mtime = mtime; sha256 = sha })
          rows)
      ≡ find (is_entry user' path') rows
find-other_refreshed user user' path path' size mtime sha [] h = refl
find-other_refreshed user user' path path' size mtime sha (e ∷ rows) h =
    ground (arith, find-other_refreshed user user' path path' size mtime sha rows h)

find-other_snoc :
    (user' : ℕ) (path' : Bytes) (new : Etag) (rows : List Etag)
    → is_entry user' path' new ≡ false
    → find (is_entry user' path') (rows ++ new ∷ []) ≡ find (is_entry user' path') rows
find-other_snoc user' path' new [] h = ground arith
find-other_snoc user' path' new (e ∷ rows) h =
    ground (arith, find-other_snoc user' path' new rows h)

cached_etag-found :
    (db : Db) (user : ℕ) (path : Bytes) (size mtime size' mtime' : ℕ) (sha : Bytes) (r : Etag)
    → find (is_entry user path) db.etags ≡ some r
    → Holds size mtime sha r
    → cached_etag db user path size' mtime'
      ≡ (if size == size' && mtime == mtime' then some sha else none)
unfolding cached_etag
cached_etag-found db user path size mtime size' mtime' sha r found holds =
    rw (cached_etag, found) (ground (arith, holds.size_is, holds.mtime_is, holds.sha_is))

put_etag-found :
    (db : Db) (user : ℕ) (path : Bytes) (size mtime : ℕ) (sha : Bytes)
    → (r : Etag) × (find (is_entry user path) (put_etag db user path size mtime sha).etags ≡ some r)
      × Holds size mtime sha r
unfolding put_etag
put_etag-found db user path size mtime sha = elim (Bool-cases (any (is_entry user path) db.etags)) [
  | inl known ↦ rw known (find-refreshed user path size mtime sha db.etags known)
  | inr new ↦
      let e : Etag = record {
        user_id = user;
        path = path;
        size = size;
        mtime = mtime;
        sha256 = sha;
      } in
      rw new (
        e,
        find-append (is_entry user path) db.etags (e ∷ []) new ∙ find-entry_self e,
        record { size_is = refl; mtime_is = refl; sha_is = refl },
      )
]
  where
    find-entry_self : (e : Etag) → find (is_entry e.user_id e.path) (e ∷ []) ≡ some e
    find-entry_self e = ground arith

put_etag-other :
    (db : Db) (user user' : ℕ) (path path' : Bytes) (size mtime : ℕ) (sha : Bytes)
    → (user == user' && path == path') ≡ false
    → find (is_entry user' path') (put_etag db user path size mtime sha).etags
      ≡ find (is_entry user' path') db.etags
unfolding put_etag
put_etag-other db user user' path path' size mtime sha h =
    elim (Bool-cases (any (is_entry user path) db.etags)) [
      | inl known ↦ rw known (find-other_refreshed user user' path path' size mtime sha db.etags h)
      | inr new ↦ rw new (find-other_snoc user' path' _ db.etags h)
    ]

cached_etag-rows :
    (db db' : Db) (user : ℕ) (path : Bytes) (size mtime : ℕ)
    → find (is_entry user path) db.etags ≡ find (is_entry user path) db'.etags
    → cached_etag db user path size mtime ≡ cached_etag db' user path size mtime
unfolding cached_etag
cached_etag-rows db db' user path size mtime e = rw (cached_etag, e) refl

-- A stored hash is what the cache then answers for the same size and time, and for no other; the
-- entries of other paths and users stay.
pub put_etag-cached_etag :
    (db : Db) (user : ℕ) (path : Bytes) (size mtime : ℕ) (sha : Bytes)
    → ((size' mtime' : ℕ)
        → cached_etag (put_etag db user path size mtime sha) user path size' mtime'
          ≡ (if size == size' && mtime == mtime' then some sha else none))
      × ((user' : ℕ) (path' : Bytes) (size' mtime' : ℕ)
          → (user == user' && path == path') ≡ false
          → cached_etag (put_etag db user path size mtime sha) user' path' size' mtime'
            ≡ cached_etag db user' path' size' mtime')
put_etag-cached_etag db user path size mtime sha =
    let (r, found, holds) = put_etag-found db user path size mtime sha in
    let after = put_etag db user path size mtime sha in
    (
      (λ size' mtime'. cached_etag-found after user path size mtime size' mtime' sha r found holds),
      λ user' path' size' mtime' apart.
          cached_etag-rows after db user' path' size' mtime'
            (put_etag-other db user user' path path' size mtime sha apart),
    )
