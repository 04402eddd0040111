-- ===== src/Store/Shares/Live.antt =====
-- Which share tokens resolve, and that a revoked one never does again.
use xx_drive.Prelude.{
  ℕ, ◌<◌, ◌≡◌, refl, sym, ◌⊎◌, Bool, true, false, List, [], ◌∷◌, ◌++◌, some, nat_eq, bytes_eq,
  arith, any, find, All, Bool-cases, Option-cases, inl, inr,
}
use xx_drive.Prelude.Bytes.{Bytes}
use xx_drive.Prelude.Results.{ok, err, not_found}
use xx_drive.Prelude.Tables.{Distinct, Distinct-snoc, Distinct-update, any-none, update, find-some}
use xx_drive.Store.Rows.{Share, Db}
use xx_drive.Store.Users.{user_by_id}
use xx_drive.Store.Shares.{
  bears, is_revocable, is_over, new_share, revoke_share, create_share, share_by_token,
}

abbrev pub same_token : Share → Share → Bool
same_token s t = bears t.token_hash s

-- The UNIQUE constraint on the token hash.
abbrev pub HasShares : Db → Type 0
HasShares db = Distinct same_token db.shares

-- A share with this token hash is stored, and it is revoked.
abbrev pub IsRevoked : Bytes → Db → Type 0
IsRevoked th db = (s : Share) × (find (bears th) db.shares ≡ some s) × (s.revoked ≡ true)

find-append_some :
    (th : Bytes) (rows more : List Share) {s : Share}
    → find (bears th) rows ≡ some s
    → find (bears th) (rows ++ more) ≡ some s
find-append_some th [] more e = cc
find-append_some th (r ∷ rows) more {s} e = ground (arith, find-append_some th rows more {s = s})

-- A revocation never makes a row live, and leaves its token.
find-revoked :
    (th : Bytes) (p : Share → Bool) (rows : List Share) {s : Share}
    → find (bears th) rows ≡ some s
    → find (bears th) (update p (λ (r : Share). record r { revoked = true }) rows)
      ≡ some (elim (p s) [ true ↦ record s { revoked = true } | false ↦ s ])
find-revoked th p [] e = cc
find-revoked th p (r ∷ rows) {s} e = ground (arith, find-revoked th p rows {s = s})

only_first :
    (user : ℕ) (th : Bytes) (r : Share) (rows : List Share)
    → All (λ y. same_token r y ≡ false) rows
    → bears th r ≡ true
    → any (is_revocable user th) rows ≡ false
only_first user th r [] _ hit = refl
only_first user th r (y ∷ rows) (d, ds) hit = ground (arith, only_first user th r rows ds hit)

-- A row that is revocable is the first that bears the token, as no other bears it.
any-first :
    (user : ℕ) (th : Bytes) (rows : List Share)
    → Distinct same_token rows
    → any (is_revocable user th) rows ≡ true
    → (s : Share) × (find (bears th) rows ≡ some s) × (is_revocable user th s ≡ true)
any-first user th [] _ e = cc
any-first user th (r ∷ rows) (d, ds) e = elim (Bool-cases (bears th r)) [
  | inl hit ↦ (r, ground arith, let only = only_first user th r rows d hit in ground arith)
  | inr passed ↦
      let (s, found, mine) = any-first user th rows ds (ground arith) in (s, ground arith, mine)
]

pub revoke_share-HasShares :
    (db : Db) (user : ℕ) (th : Bytes) → HasShares db → HasShares ((revoke_share db user th).1)
unfolding revoke_share
revoke_share-HasShares db user th h = elim (Bool-cases (any (is_revocable user th) db.shares)) [
  | inr absent ↦ rw absent h
  | inl here ↦ rw here (
      Distinct-update same_token (is_revocable user th) (λ s. record s { revoked = true }) db.shares
        (λ s t. refl) (λ s t. refl) h)
]

pub revoke_share-IsRevoked :
    (db : Db) (user : ℕ) (th th' : Bytes)
    → IsRevoked th db
    → IsRevoked th ((revoke_share db user th').1)
unfolding revoke_share
revoke_share-IsRevoked db user th th' (s, found, off) =
    elim (Bool-cases (any (is_revocable user th') db.shares)) [
      | inr absent ↦ rw absent (s, found, off)
      | inl here ↦ rw here (
          let again = find-revoked th (is_revocable user th') db.shares found in
          elim (Bool-cases (is_revocable user th' s)) [
            | inl hit ↦ (record s { revoked = true }, ground arith, refl)
            | inr passed ↦ (s, ground arith, off)
          ])
    ]

-- A successful revocation leaves the share revoked.
pub revoke_share-ok :
    (db : Db) (user : ℕ) (th : Bytes) {db' : Db}
    → HasShares db
    → revoke_share db user th ≡ (ok tt, db')
    → IsRevoked th db'
unfolding revoke_share
revoke_share-ok db user th {db'} h e =
    let here : any (is_revocable user th) db.shares ≡ true = ground arith in
    let (s, found, mine) = any-first user th db.shares h here in
    let again = find-revoked th (is_revocable user th) db.shares found in
    let rows : update (is_revocable user th) (λ (r : Share). record r { revoked = true }) db.shares
        ≡ db'.shares =
      ground arith in
    (record s { revoked = true }, rw (sym rows) (ground arith), refl)

module _ (hash_token : Bytes → Bytes) where
  -- A token that resolves is that of a stored share that was not revoked and has not ended.
  pub share_by_token_sound :
      (db : Db) (token : Bytes) (now : ℕ) {s : Share}
      → share_by_token hash_token db token now ≡ ok s
      → (find (bears (hash_token token)) db.shares ≡ some s)
        × (s.token_hash ≡ hash_token token)
        × (s.revoked ≡ false)
        × ((s.expires_at ≡ 0) ⊎ (now < s.expires_at))
  unfolding share_by_token
  share_by_token_sound db token now {s} e =
      let found : find (bears (hash_token token)) db.shares ≡ some s =
        elim (Option-cases (find (bears (hash_token token)) db.shares)) [
          | inl absent ↦ absurd (ground arith)
          | inr (r, here) ↦ ground arith
        ] in
      let hit = find-some (bears (hash_token token)) db.shares {x = s} found in
      (
        found,
        ground arith,
        ground arith,
        elim (Bool-cases (is_over now s)) [
          | inl over ↦ absurd (ground arith)
          | inr going ↦ ground arith
        ],
      )

  pub share_by_token-IsRevoked :
      (db : Db) (token : Bytes) (now : ℕ)
      → IsRevoked (hash_token token) db
      → share_by_token hash_token db token now ≡ err not_found
  unfolding share_by_token
  share_by_token-IsRevoked db token now (s, found, off) = rw (share_by_token, found, off) refl

  create_share-rows :
      (db : Db) (user : ℕ) (path token hash : Bytes) (down : Bool) (end now : ℕ)
      → ((create_share hash_token db user path token hash down end now).1.shares ≡ db.shares)
        ⊎ ((s : Share) × ((create_share hash_token db user path token hash down end now).1.shares
              ≡ db.shares ++ s ∷ [])
            × (any (bears s.token_hash) db.shares ≡ false))
  unfolding create_share
  create_share-rows db user path token hash down end now =
      elim (Bool-cases (any (bears (hash_token token)) db.shares)) [
        | inl taken ↦ inl (rw (create_share, taken) refl)
        | inr free ↦ elim (Option-cases (user_by_id db user)) [
          | inl nobody ↦ inl (rw (create_share, free, nobody) refl)
          | inr (u, known) ↦ inr (
            new_share hash_token db user path token hash down end now,
            rw (create_share, free, known) refl,
            free,
          )
        ]
      ]

  pub create_share-HasShares :
      (db : Db) (user : ℕ) (path token hash : Bytes) (down : Bool) (end now : ℕ)
      → HasShares db
      → HasShares ((create_share hash_token db user path token hash down end now).1)
  create_share-HasShares db user path token hash down end now h =
      elim (create_share-rows db user path token hash down end now) [
        | inl same ↦ rw same h
        | inr (s, added, free) ↦
            rw added (
              Distinct-snoc same_token db.shares s h (any-none (bears s.token_hash) db.shares free))
      ]

  pub create_share-IsRevoked :
      (db : Db) (user : ℕ) (path token hash : Bytes) (down : Bool) (end now : ℕ) (th : Bytes)
      → IsRevoked th db
      → IsRevoked th ((create_share hash_token db user path token hash down end now).1)
  create_share-IsRevoked db user path token hash down end now th (s, found, off) =
      elim (create_share-rows db user path token hash down end now) [
        | inl same ↦ rw same (s, found, off)
        | inr (t, added, free) ↦ rw added (s, find-append_some th db.shares (t ∷ []) found, off)
      ]
