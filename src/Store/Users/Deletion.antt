-- ===== src/Store/Users/Deletion.antt =====
-- What the deletion of a user takes away, and what it leaves.
use xx_drive.Prelude.{ℕ, ◌≡◌, ◌≢◌, sym, not, List, ◌==◌, nat_eq, bytes_eq, arith, All, keep}
use xx_drive.Prelude.Results.{ok}
use xx_drive.Prelude.Tables.{keep-All, keep-keep, All-map}
use xx_drive.Store.Rows.{User, Session, Share, Star, Event, Version, Etag, Db}
use xx_drive.Store.Users.{without_user, delete_user}

-- The row belongs to another user.
module _ {A : Type 0} (owner : A → ℕ) (id : ℕ) where
  abbrev pub IsOther : A → Type 0
  IsOther row = owner row ≢ id

  abbrev pub rows_of : List A → List A
  rows_of = keep (λ row. owner row == id)

  keep-IsOther : (rows : List A) → All IsOther (keep (λ row. not (owner row == id)) rows)
  keep-IsOther rows =
      All-map (λ row h e. ground arith) (keep (λ row. not (owner row == id)) rows)
        (keep-All (λ row. not (owner row == id)) rows)

module _ {A : Type 0} (owner : A → ℕ) (id other : ℕ) (ne : other ≢ id) where
  rows_of-other :
      (rows : List A)
      → rows_of owner other (keep (λ row. not (owner row == id)) rows) ≡ rows_of owner other rows
  rows_of-other rows =
      keep-keep (λ row. owner row == other) (λ row. not (owner row == id)) rows
        (λ row h. ground arith)

-- No table refers to the id.
pub record IsGone (id : ℕ) (db : Db) : Type 0 where
  pub users : All (IsOther (λ (r : User). r.id) id) db.users
  pub sessions : All (IsOther (λ (r : Session). r.user_id) id) db.sessions
  pub shares : All (IsOther (λ (r : Share). r.user_id) id) db.shares
  pub stars : All (IsOther (λ (r : Star). r.user_id) id) db.stars
  pub events : All (IsOther (λ (r : Event). r.user_id) id) db.events
  pub versions : All (IsOther (λ (r : Version). r.user_id) id) db.versions
  pub etags : All (IsOther (λ (r : Etag). r.user_id) id) db.etags

-- Two databases hold the same rows of a user, in the same order.
pub record Agree (id : ℕ) (db db' : Db) : Type 0 where
  pub users : rows_of (λ (r : User). r.id) id db.users ≡ rows_of (λ (r : User). r.id) id db'.users
  pub sessions :
      rows_of (λ (r : Session). r.user_id) id db.sessions
      ≡ rows_of (λ (r : Session). r.user_id) id db'.sessions
  pub shares :
      rows_of (λ (r : Share). r.user_id) id db.shares
      ≡ rows_of (λ (r : Share). r.user_id) id db'.shares
  pub stars :
      rows_of (λ (r : Star). r.user_id) id db.stars ≡ rows_of (λ (r : Star). r.user_id) id db'.stars
  pub events :
      rows_of (λ (r : Event). r.user_id) id db.events
      ≡ rows_of (λ (r : Event). r.user_id) id db'.events
  pub versions :
      rows_of (λ (r : Version). r.user_id) id db.versions
      ≡ rows_of (λ (r : Version). r.user_id) id db'.versions
  pub etags :
      rows_of (λ (r : Etag). r.user_id) id db.etags ≡ rows_of (λ (r : Etag). r.user_id) id db'.etags

without_user-IsGone : (db : Db) (id : ℕ) → IsGone id (without_user db id)
without_user-IsGone db id = record {
  users = keep-IsOther (λ (r : User). r.id) id db.users;
  sessions = keep-IsOther (λ (r : Session). r.user_id) id db.sessions;
  shares = keep-IsOther (λ (r : Share). r.user_id) id db.shares;
  stars = keep-IsOther (λ (r : Star). r.user_id) id db.stars;
  events = keep-IsOther (λ (r : Event). r.user_id) id db.events;
  versions = keep-IsOther (λ (r : Version). r.user_id) id db.versions;
  etags = keep-IsOther (λ (r : Etag). r.user_id) id db.etags;
}

without_user-Agree : (db : Db) (id other : ℕ) → other ≢ id → Agree other (without_user db id) db
without_user-Agree db id other ne = record {
  users = rows_of-other (λ (r : User). r.id) id other ne db.users;
  sessions = rows_of-other (λ (r : Session). r.user_id) id other ne db.sessions;
  shares = rows_of-other (λ (r : Share). r.user_id) id other ne db.shares;
  stars = rows_of-other (λ (r : Star). r.user_id) id other ne db.stars;
  events = rows_of-other (λ (r : Event). r.user_id) id other ne db.events;
  versions = rows_of-other (λ (r : Version). r.user_id) id other ne db.versions;
  etags = rows_of-other (λ (r : Etag). r.user_id) id other ne db.etags;
}

-- After a successful deletion no table refers to the user's id, and the rows of every other user are
-- the same as before in all seven tables.
pub delete_user-IsGone :
    (db : Db) (id : ℕ) {db' : Db}
    → delete_user db id ≡ (ok tt, db')
    → IsGone id db' × ((other : ℕ) → other ≢ id → Agree other db' db)
unfolding delete_user
delete_user-IsGone db id {db'} e =
    let same : without_user db id ≡ db' = ground arith in
    rw (sym same) (without_user-IsGone db id, without_user-Agree db id)
