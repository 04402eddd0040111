-- ===== src/Store/Events.antt =====
-- internal/store/store.go: the events table.
use xx_drive.Prelude.{
  ℕ, suc, ◌<◌, true, ◌||◌, ◌≡◌, ◌≢◌, append-nil, refl, sym, ap, ◌∙◌, List, [], ◌∷◌, ◌++◌, some,
  none, ◌==◌, nat_eq, bytes_eq, arith, keep, take, ltb, if◌then◌else◌, All,
}
use xx_drive.Prelude.Bytes.{Bytes}
use xx_drive.Prelude.Tables.{keep-append, sort_by_desc}
use xx_drive.Store.Rows.{User, Event, Db}
use xx_drive.Store.Users.{user_by_id}

-- `AddEvent`; an event needs a user, and a failure is ignored.
unfoldable pub add_event : Db → ℕ → Bytes → Bytes → ℕ → Db
add_event db user kind detail now =
    let e : Event = record {
      id = db.next_event;
      user_id = user;
      kind = kind;
      detail = detail;
      created_at = now;
    } in
    elim (user_by_id db user) [
      | none ↦ db
      | some u ↦ record db { events = db.events ++ e ∷ []; next_event = suc db.next_event }
    ]

-- The limit of `ListEvents`: one that is out of range is replaced.
abbrev pub event_limit : ℕ → ℕ
event_limit limit = if limit == 0 || ltb 500 limit then 100 else limit

-- `ListEvents`
unfoldable pub list_events : Db → ℕ → ℕ → List Event
list_events db user limit =
    take (event_limit limit)
      (sort_by_desc (λ (e : Event). e.id) (keep (λ (e : Event). e.user_id == user) db.events))

-- An event with the highest id is sorted to the front.
sort-snoc :
    (xs : List Event) (e : Event)
    → All (λ x. x.id < e.id) xs
    → sort_by_desc (λ (x : Event). x.id) (xs ++ e ∷ []) ≡ e ∷ sort_by_desc (λ (x : Event). x.id) xs
sort-snoc [] e _ = refl
sort-snoc (x ∷ xs) e (h, hs) = rw (sort-snoc xs e hs) (ground arith)

keep-below :
    (user next : ℕ) (xs : List Event)
    → All (λ x. x.id < next) xs
    → All (λ x. x.id < next) (keep (λ (e : Event). e.user_id == user) xs)
keep-below user next [] _ = tt
keep-below user next (x ∷ xs) (h, hs) = ground (arith, keep-below user next xs hs)

sort-fresh :
    (user : ℕ) (xs : List Event) (e : Event)
    → (e.user_id == user) ≡ true
    → All (λ x. x.id < e.id) xs
    → sort_by_desc (λ (x : Event). x.id) (keep (λ (x : Event). x.user_id == user) (xs ++ e ∷ []))
      ≡ e ∷ sort_by_desc (λ (x : Event). x.id) (keep (λ (x : Event). x.user_id == user) xs)
sort-fresh user xs e own below =
    ap (sort_by_desc (λ (x : Event). x.id))
      (keep-append (λ (x : Event). x.user_id == user) xs (e ∷ []) ∙ kept)
    ∙ sort-snoc (keep (λ (x : Event). x.user_id == user) xs) e (keep-below user e.id xs below)
  where
    kept :
        keep (λ (x : Event). x.user_id == user) xs
          ++ keep (λ (x : Event). x.user_id == user) (e ∷ [])
        ≡ keep (λ (x : Event). x.user_id == user) xs ++ e ∷ []
    kept = rw own refl

-- All events of a user, the newest first.
abbrev pub history : Db → ℕ → List Event
history db user =
    sort_by_desc (λ (e : Event). e.id) (keep (λ (e : Event). e.user_id == user) db.events)

-- An event that is added comes first in the list, before the user's older ones, and the list is cut
-- at the limit, or at 100 if the limit is 0 or over 500. What other users see does not change. The
-- user exists, and the ids of the stored events are below the next one.
pub add_event-list_events :
    (db : Db) (user limit : ℕ) (kind detail : Bytes) (now : ℕ) {u : User}
    → All (λ x. x.id < db.next_event) db.events
    → user_by_id db user ≡ some u
    → (list_events (add_event db user kind detail now) user limit
        ≡ take (event_limit limit) (
            record {
              id = db.next_event;
              user_id = user;
              kind = kind;
              detail = detail;
              created_at = now;
            }
            ∷ history db user))
      × ((other : ℕ)
          → other ≢ user
          → list_events (add_event db user kind detail now) other limit
            ≡ list_events db other limit)
unfolding add_event list_events
add_event-list_events db user limit kind detail now below known =
    let e : Event = record {
      id = db.next_event;
      user_id = user;
      kind = kind;
      detail = detail;
      created_at = now;
    } in
    rw (add_event, known)
      (
        ap (take (event_limit limit)) (sort-fresh user db.events e (own user) below),
        λ other ne.
            ap (λ rows. take (event_limit limit) (sort_by_desc (λ (x : Event). x.id) rows))
              (keep-append (λ (x : Event). x.user_id == other) db.events (e ∷ [])
                ∙ dropped other (λ same. ne (sym same))),
      )
  where
    own : (n : ℕ) → (n == n) ≡ true
    own n = ground arith

    dropped :
        (other : ℕ)
        → user ≢ other
        → keep (λ (x : Event). x.user_id == other) db.events
            ++ keep
                (λ (x : Event). x.user_id == other)
                (record {
                  id = db.next_event;
                  user_id = user;
                  kind = kind;
                  detail = detail;
                  created_at = now;
                }
                  ∷ [])
          ≡ keep (λ (x : Event). x.user_id == other) db.events
    dropped other ne =
        let off = append-nil (keep (λ (x : Event). x.user_id == other) db.events) in ground arith
