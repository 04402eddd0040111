-- ===== src/Api/ShareHandlers.antt =====
-- internal/api/shares.go: the handlers of shares, for their owners and for visitors.
pub mod Guarded
use xx_drive.Prelude.{
  ℕ, ◌+◌, Bool, true, false, not, ◌&&◌, ◌||◌, List, [], ◌∷◌, ◌++◌, Option, none, some,
  if◌then◌else◌, ◌==◌, nat_eq, bytes_eq, contains, length,
}
use xx_drive.Prelude.Bytes.{Bytes, bytes, has_prefix, to_lower}
use xx_drive.Prelude.Results.{Result, ok, err}
use xx_drive.Filepath.{from_last_dot}
use xx_drive.Disk.{Disk}
use xx_drive.Drive.Paths.{root, validate_rel, name_of}
use xx_drive.Drive.Entries.{Entry, Times, stat, list_entries, open_file}
use xx_drive.Store.Rows.{User, Share, Db}
use xx_drive.Store.Users.{user_by_id}
use xx_drive.Store.Shares.{list_shares, create_share, revoke_share, check_share_password}
use xx_drive.Store.Events.{add_event}
use xx_drive.Api.Limiter.{Buckets, login_allowed, login_failed}
use xx_drive.Api.Grants.{Grant, has_grant, issue_grant}
use xx_drive.Api.ShareIndex.{ShareIndex, invalidate, resolve_share}
use xx_drive.Api.ShareTarget.{share_target}
use xx_drive.Api.History.{Reply, refused, done, status_of}

-- The states that the handlers of shares read or change.
pub record Desk : Type 0 where
  pub db : Db
  pub disk : Disk
  pub index : ShareIndex
  pub grants : List Grant
  pub rate : Buckets

-- What a visitor sends.
pub record Visit : Type 0 where
  pub token : Bytes
  pub cookie : Option Bytes
  pub path : Bytes
  pub sub : Bytes
  pub inline : Bool

-- What an owner asks for: the path, the password, the end if there is one, and whether downloads are
-- allowed, which is so unless it is denied.
pub record ShareWish : Type 0 where
  pub path : Bytes
  pub password : Bytes
  pub expires_at : ℕ
  pub allow_download : Option Bool

-- What a download gives: a file's content, or an archive of the folder at a path.
pub data Download : Type 0 where
  text_of : Bytes → Download
  archive_of : Bytes → Download

-- `isImage` and `isVideo`
abbrev pub is_image : Bytes → Bool
is_image name =
    contains
      (bytes ".jpg"
        ∷ bytes ".jpeg"
        ∷ bytes ".png"
        ∷ bytes ".gif"
        ∷ bytes ".webp"
        ∷ bytes ".avif"
        ∷ bytes ".bmp"
        ∷ [])
      (to_lower (from_last_dot name))

abbrev pub is_video : Bytes → Bool
is_video name =
    contains (bytes ".mp4" ∷ bytes ".webm" ∷ bytes ".mov" ∷ bytes ".m4v" ∷ [])
      (to_lower (from_last_dot name))

-- The functions on tokens and passwords, the data root, and whether the index cannot be rebuilt.
pub record Settings : Type 0 where
  pub hash_token : Bytes → Bytes
  pub check_password : Bytes → Bytes → Bool
  pub times : Times
  pub data_root : Bytes
  pub index_fails : Bool

module _ (settings : Settings) (now moment : ℕ) where
  -- `handleShareCreate`, with the token and the password's hash that are drawn.
  unfoldable pub handle_share_create :
      Desk → User → Option ShareWish → Option Bytes → Bytes → Reply (Bytes × Share) × Desk
  handle_share_create w u none drawn hashed = (refused 400, w)
  handle_share_create w u (some wish) drawn hashed = elim (validate_rel wish.path) [
    | err e ↦ (refused 400, w)
    | ok logical ↦
        if logical == root
        then (refused 400, w)
        else elim (stat settings.times settings.data_root u.username w.disk logical) [
          | err e ↦ (refused (status_of e), w)
          | ok entry ↦ elim drawn [
            | none ↦ (refused 500, w)
            | some token ↦
                let allowed : Bool = elim wish.allow_download [ none ↦ true | some b ↦ b ] in
                let hash : Bytes = if wish.password == [] then [] else hashed in
                let (result, db) =
                  create_share settings.hash_token w.db u.id logical token hash allowed
                    wish.expires_at now in
                elim result [
                  | err e ↦ (refused 500, record w { db = db })
                  | ok sh ↦ (
                    done (token, sh),
                    record w {
                      db = add_event db u.id (bytes "share_create") logical now;
                      index = invalidate w.index;
                    },
                  )
                ]
          ]
        ]
  ]

  -- The loop of `handleShareRevoke`: the first share whose hash begins with the 16 characters.
  abbrev pub revoke_first : Desk → User → Bytes → List Share → Reply (Unit {0}) × Desk
  revoke_first w u hash16 [] = (refused 404, w)
  revoke_first w u hash16 (sh ∷ shares) =
      let rest = revoke_first w u hash16 shares in
      let (result, db) = revoke_share w.db u.id sh.token_hash in
      if has_prefix sh.token_hash hash16 && length hash16 == 16
      then elim result [
        | err e ↦ (refused 500, record w { db = db })
        | ok revoked ↦ (
          done tt,
          record w {
            db = add_event db u.id (bytes "share_revoke") sh.path now;
            index = invalidate w.index;
          },
        )
      ]
      else rest

  -- `handleShareRevoke`
  unfoldable pub handle_share_revoke : Desk → User → Bytes → Reply (Unit {0}) × Desk
  handle_share_revoke w u hash16 = revoke_first w u hash16 (list_shares w.db u.id)

  -- `guardShare`, for a list or a download.
  unfoldable pub guard_share : Desk → Visit → Reply Share × Desk
  guard_share w v =
      let (found, index) =
        resolve_share settings.hash_token settings.index_fails w.index w.db v.token now in
      let resolved = record w { index = index } in
      elim found [
        | none ↦ (refused 404, resolved)
        | some sh ↦
            let (granted, grants) = has_grant w.grants sh.token_hash v.cookie now in
            let asked = record resolved { grants = grants } in
            if not sh.has_password
            then (done sh, resolved)
            else if granted
            then (done sh, asked)
            else (refused 401, asked)
      ]

  -- The owner and the target of a guarded visit.
  abbrev pub locate : Db → Share → Visit → Reply (User × Bytes)
  locate db sh v = elim (user_by_id db sh.user_id) [
    | none ↦ refused 500
    | some owner ↦ elim (share_target sh.path v.path v.sub) [
      | none ↦ refused 404
      | some (full, sub) ↦ done (owner, full)
    ]
  ]

  abbrev pub list_at : Disk → User → Bytes → Reply (Entry × List Entry)
  list_at d owner full = elim (stat settings.times settings.data_root owner.username d full) [
    | err e ↦ refused (status_of e)
    | ok entry ↦
        if not entry.is_dir
        then done (entry, [])
        else elim (list_entries settings.times settings.data_root owner.username d full) [
          | err e ↦ refused (status_of e)
          | ok es ↦ done (entry, es)
        ]
  ]

  -- `handlePublicList`
  unfoldable pub handle_public_list : Desk → Visit → Reply (Entry × List Entry) × Desk
  handle_public_list w v =
      let (guarded, w') = guard_share w v in
      elim guarded [
        | refused status ↦ (refused status, w')
        | done sh ↦ elim (locate w.db sh v) [
          | refused status ↦ (refused status, w')
          | done (owner, full) ↦ (list_at w.disk owner full, w')
        ]
      ]

  -- A share without downloads shows images and videos in place, and nothing else.
  abbrev pub may_download : Share → Visit → Bytes → Bool
  may_download sh v name = sh.allow_download || (v.inline && (is_image name || is_video name))

  abbrev pub download_at : Disk → Share → Visit → User → Bytes → Reply Download
  download_at d sh v owner full =
      if name_of full == []
      then refused 400
      else elim (stat settings.times settings.data_root owner.username d full) [
        | err e ↦ refused (status_of e)
        | ok entry ↦
            if not (may_download sh v (name_of full))
            then refused 403
            else if entry.is_dir
            then done (archive_of full)
            else elim (open_file settings.times settings.data_root owner.username d full) [
              | err e ↦ refused (status_of e)
              | ok (text, logical) ↦ done (text_of text)
            ]
      ]

  -- `handlePublicDownload`
  unfoldable pub handle_public_download : Desk → Visit → Reply Download × Desk
  handle_public_download w v =
      let (guarded, w') = guard_share w v in
      elim guarded [
        | refused status ↦ (refused status, w')
        | done sh ↦ elim (locate w.db sh v) [
          | refused status ↦ (refused status, w')
          | done (owner, full) ↦ (download_at w.disk sh v owner full, w')
        ]
      ]

  -- `handlePublicPassword`, from an address, with the password of the form and the grant that is drawn;
  -- a form that cannot be read is none. The page that is answered is left out.
  unfoldable pub handle_public_password :
      Desk → Visit → Bytes → Option Bytes → Bytes → Reply (Unit {0}) × Desk
  handle_public_password w v ip form grant =
      let (found, index) =
        resolve_share settings.hash_token settings.index_fails w.index w.db v.token now in
      let resolved = record w { index = index } in
      elim found [
        | none ↦ (refused 404, resolved)
        | some sh ↦
            let key = ip ++ (bytes "|" ++ sh.token_hash) in
            let (allowed, rate) = login_allowed w.rate key moment in
            let counted = record resolved { rate = rate } in
            if not allowed then (refused 429, counted) else elim form [
              | none ↦ (refused 400, counted)
              | some password ↦
                  if check_share_password settings.check_password sh password
                  then (done tt, record counted { grants = issue_grant w.grants sh grant now })
                  else (refused 401, record counted { rate = login_failed rate key moment })
            ]
      ]
