-- ===== src/Api/Accounts/Logins.antt =====
-- What a login requires and gives, and what a logout takes.
use xx_drive.Prelude.{
  ℕ, ◌+◌, ◌<◌, Bool, true, false, not, ◌||◌, ◌≡◌, refl, sym, ap, ◌∙◌, ◌⊎◌, inl, inr, List, [], ◌∷◌,
  ◌++◌, Option, none, some, if◌then◌else◌, nat_eq, bytes_eq, arith, subst, find, keep, Bool-cases,
  Option-cases,
}
use xx_drive.Prelude.Bytes.{Bytes, bytes}
use xx_drive.Prelude.Results.{Result, ok, err, not_found, Result-cases}
use xx_drive.Prelude.Tables.{find-keep-none}
use xx_drive.Store.Rows.{User, Session, Db}
use xx_drive.Store.Users.{has_id, user_by_name, user_by_id}
use xx_drive.Store.Sessions.{has_token_hash, session, create_session, delete_session}
use xx_drive.Store.Sessions.Valid.{create_session-session}
use xx_drive.Store.Events.{add_event}
use xx_drive.Api.Limiter.{login_allowed}
use xx_drive.Api.History.{Reply, done}
use xx_drive.Api.Accounts.{
  Gate, Clock, Hashing, open_session, check_login, handle_login, handle_logout, drop_token,
  bearer_of,
}
use xx_drive.Api.Auth.{Request}

add_event-sessions :
    (db : Db) (user : ℕ) (kind detail : Bytes) (now : ℕ)
    → (add_event db user kind detail now).sessions ≡ db.sessions
unfolding add_event
add_event-sessions db user kind detail now = elim (Option-cases (user_by_id db user)) [
  | inl none_such ↦ rw (add_event, none_such) refl
  | inr (u, known) ↦ rw (add_event, known) refl
]

add_event-users :
    (db : Db) (user : ℕ) (kind detail : Bytes) (now : ℕ)
    → (add_event db user kind detail now).users ≡ db.users
unfolding add_event
add_event-users db user kind detail now = elim (Option-cases (user_by_id db user)) [
  | inl none_such ↦ rw (add_event, none_such) refl
  | inr (u, known) ↦ rw (add_event, known) refl
]

-- A session depends on the rows of sessions and users alone.
session_of_rows :
    (hash_token : Bytes → Bytes) (db db' : Db) (token : Bytes) (ttl now : ℕ)
    → db.sessions ≡ db'.sessions
    → db.users ≡ db'.users
    → (session hash_token db token ttl now).0 ≡ (session hash_token db' token ttl now).0
unfolding session user_by_id
session_of_rows hash_token db db' token ttl now same_sessions same_users =
    elim (Option-cases (find (has_token_hash (hash_token token)) db.sessions)) [
      | inl missing ↦ ground arith
      | inr (s, here) ↦ elim (Option-cases (find (has_id s.user_id) db.users)) [
        | inl orphan ↦ ground arith
        | inr (u, owner) ↦ ground arith
      ]
    ]

session_of_none :
    (hash_token : Bytes → Bytes) (db : Db) (token : Bytes) (ttl now : ℕ)
    → find (has_token_hash (hash_token token)) db.sessions ≡ none
    → (session hash_token db token ttl now).0 ≡ err not_found
unfolding session
session_of_none hash_token db token ttl now missing = rw (session, missing) refl

deleted_gone :
    (db : Db) (hash : Bytes) → find (has_token_hash hash) (delete_session db hash).sessions ≡ none
unfolding delete_session
deleted_gone db hash =
    find-keep-none (has_token_hash hash) (λ s. not (has_token_hash hash s)) db.sessions
      (λ s e. ground arith)

deleted_still :
    (hash other : Bytes) (rows : List Session)
    → find (has_token_hash hash) rows ≡ none
    → find (has_token_hash hash) (keep (λ s. not (has_token_hash other s)) rows) ≡ none
deleted_still hash other [] h = refl
deleted_still hash other (s ∷ rows) h = elim (Bool-cases (has_token_hash hash s)) [
  | inl here ↦ absurd (ground arith)
  | inr off ↦ ground (arith, deleted_still hash other rows)
]

module _ (hashing : Hashing) (ttl : ℕ) (clock : Clock) where
  drop_token_still :
      (db : Db) (other : Option Bytes) (token : Bytes)
      → find (has_token_hash (hashing.hash_token token)) db.sessions ≡ none
      → find
          (has_token_hash (hashing.hash_token token))
          (drop_token hashing ttl clock db other).sessions
        ≡ none
  unfolding delete_session
  drop_token_still db none token h = h
  drop_token_still db (some o) token h =
      deleted_still (hashing.hash_token token) (hashing.hash_token o) db.sessions h

  check_login-eq-some :
      (db : Db) (username password : Bytes) {u : User}
      → check_login hashing ttl clock db username password ≡ some u
      → (user_by_name db username ≡ some u)
        × (u.disabled ≡ false)
        × (hashing.check_password u.password_hash password ≡ true)
  check_login-eq-some db username password {u} e = elim (Option-cases (user_by_name db username)) [
    | inl unknown ↦ absurd (ground arith)
    | inr (v, named) ↦
        elim (Bool-cases (v.disabled || not (hashing.check_password v.password_hash password))) [
          | inl turned_away ↦ absurd (ground arith)
          | inr welcome ↦
              let same : v ≡ u = ground arith in (ground arith, ground arith, ground arith)
        ]
  ]

  open_session-done :
      (db : Db) (u : User) (drawn : Option Bytes) (label detail : Bytes) {token : Bytes} {v : User}
      {db' : Db}
      → open_session hashing ttl clock db u drawn label detail ≡ (done (token, v), db')
      → (v ≡ u)
        × (drawn ≡ some token)
        × (create_session hashing.hash_token db u.id token label ttl clock.now
            ≡ (ok tt, (create_session hashing.hash_token db u.id token label ttl clock.now).1))
        × (add_event
              (create_session hashing.hash_token db u.id token label ttl clock.now).1
              u.id
              (bytes "login")
              detail
              clock.now
            ≡ db')
  open_session-done db u none label detail e = absurd (ground arith)
  open_session-done db u (some t) label detail {token} {v} {db'} e =
      let out = create_session hashing.hash_token db u.id t label ttl clock.now in
      elim (Result-cases (out.0)) [
        | inr (why, failed) ↦ absurd (ground arith)
        | inl (made, created) ↦
            let one : t ≡ token = ground arith in
            let who : u ≡ v = ground arith in
            let left : add_event out.1 u.id (bytes "login") detail clock.now ≡ db' = ground arith in
            (
              sym who,
              ap (λ (x : Bytes). some x) one,
              subst
                  (λ x.
                    create_session hashing.hash_token db u.id x label ttl clock.now
                    ≡ (ok tt, (create_session hashing.hash_token db u.id x label ttl clock.now).1))
                  one (ap (λ (x : Result (Unit {0})). (x, out.1)) created),
              subst
                  (λ x.
                    add_event (create_session hashing.hash_token db u.id x label ttl clock.now).1
                      u.id (bytes "login") detail clock.now
                    ≡ db')
                  one left,
            )
      ]

  -- A login succeeds only where the limit on failed logins allows it, for the user that is named, who is
  -- not disabled, with the password that the user's hash fits; and the token that it answers is then
  -- accepted for this user until the lifetime of the session is over. Ids are unique.
  pub handle_login-session :
      (g : Gate) (username password ip : Bytes) (is_cli : Bool) (drawn : Option Bytes)
      (ttl' later : ℕ) {token : Bytes} {u : User} {g' : Gate}
      → handle_login hashing ttl clock g (some (username, password)) ip is_cli drawn
        ≡ (done (token, u), g')
      → user_by_id g.db u.id ≡ some u
      → later < clock.now + ttl
      → ((login_allowed g.rate (ip ++ (bytes "|" ++ username)) clock.moment).0 ≡ true)
        × (user_by_name g.db username ≡ some u)
        × (u.disabled ≡ false)
        × (hashing.check_password u.password_hash password ≡ true)
        × ((s : Session) × ((session hashing.hash_token g'.db token ttl' later).0 ≡ ok (s, u)))
  unfolding handle_login
  handle_login-session g username password ip is_cli drawn ttl' later {token} {u} {g'} e known lt =
      let allowed = login_allowed g.rate (ip ++ (bytes "|" ++ username)) clock.moment in
      let label = if is_cli then bytes "cli:" ++ ip else bytes "web" in
      elim (Bool-cases (allowed.0)) [
        | inr blocked ↦ let k = rw (handle_login, blocked) at e in absurd (ground arith)
        | inl free ↦ elim (Option-cases (check_login hashing ttl clock g.db username password)) [
          | inl turned_away ↦
              let k = rw (handle_login, free, turned_away) at e in absurd (ground arith)
          | inr (v, welcome) ↦
              let k = rw (handle_login, free, welcome) at e in
              let out = open_session hashing ttl clock g.db v drawn label (bytes "from " ++ ip) in
              let (named, on, fits) = check_login-eq-some g.db username password welcome in
              let reply : out.0 ≡ done (token, u) =
                ap (λ (x : Reply (Bytes × User) × Gate). x.0) k in
              let left : out.1 ≡ g'.db = ap (λ (x : Reply (Bytes × User) × Gate). x.1.db) k in
              let (who, drew, created, logged) =
                open_session-done g.db v drawn label (bytes "from " ++ ip) {db' = out.1}
                  (ap (λ (x : Reply (Bytes × User)). (x, out.1)) reply) in
              let off : u.disabled ≡ false =
                subst (λ (x : User). x.disabled ≡ false) (sym who) on in
              let opened =
                (create_session hashing.hash_token g.db v.id token label ttl clock.now).1 in
              let (s, accepted) =
                create_session-session hashing.hash_token g.db v.id token label ttl clock.now ttl'
                  later {u = u} created
                  (subst (λ (x : User). user_by_id g.db x.id ≡ some u) who known) off lt in
              let kept = logged ∙ left in
              let sessions =
                sym (add_event-sessions opened v.id (bytes "login") (bytes "from " ++ ip) clock.now)
                ∙ ap (λ (d : Db). d.sessions) kept in
              let users =
                sym (add_event-users opened v.id (bytes "login") (bytes "from " ++ ip) clock.now)
                ∙ ap (λ (d : Db). d.users) kept in
              (
                free,
                subst (λ (x : User). user_by_name g.db username ≡ some x) (sym who) named,
                off,
                subst (λ (x : User). hashing.check_password x.password_hash password ≡ true)
                    (sym who) fits,
                (
                  s,
                  sym (
                        session_of_rows hashing.hash_token opened g'.db token ttl' later sessions
                          users)
                      ∙ ap (λ (x : Result (Session × User) × Db). x.0) accepted,
                ),
              )
        ]
      ]

  -- A logout ends the session of every credential that the request carries.
  pub handle_logout-session :
      (db : Db) (r : Request) (token : Bytes) (ttl' now : ℕ)
      → (r.cookie ≡ some token) ⊎ (bearer_of r ≡ some token)
      → (session hashing.hash_token (handle_logout hashing ttl clock db r) token ttl' now).0
        ≡ err not_found
  unfolding handle_logout
  handle_logout-session db r token ttl' now (inl in_cookie) =
      let dropped = drop_token hashing ttl clock db r.cookie in
      session_of_none hashing.hash_token (handle_logout hashing ttl clock db r) token ttl' now (
        drop_token_still dropped (bearer_of r) token
          (rw in_cookie (deleted_gone db (hashing.hash_token token))))
  handle_logout-session db r token ttl' now (inr in_header) =
      session_of_none hashing.hash_token (handle_logout hashing ttl clock db r) token ttl' now (
        rw in_header
          (deleted_gone (drop_token hashing ttl clock db r.cookie) (hashing.hash_token token)))
