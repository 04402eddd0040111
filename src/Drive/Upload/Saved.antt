-- ===== src/Drive/Upload/Saved.antt =====
-- What an upload replaces is stored as a version.
use xx_drive.Prelude.{
  Bool, false, not, ◌&&◌, ◌||◌, ◌≡◌, sym, ap, ◌∙◌, ◌⊎◌, inl, inr, [], ◌∷◌, ◌++◌, some, ◌==◌, nat_eq,
  bytes_eq, arith, Bool-cases, Option-cases, ltb, length, take, suc,
}
use xx_drive.Prelude.Bytes.{Bytes, bytes}
use xx_drive.Prelude.Results.{ok, Result-cases}
use xx_drive.Filepath.{slash, join_paths}
use xx_drive.Filepath.Segments.{IsSegment}
use xx_drive.Disk.{content, Disk, tree_at, node_at, write_file, make_all}
use xx_drive.Disk.Rename.{
  strip-self-other, make_all-tree, tree_at-write_file, at_root, node_at-tree,
}
use xx_drive.Disk.Nodes.{
  IsFile, node_at-remove_all, node_at-write_file_other, make_all-node, write_file-IsFile,
}
use xx_drive.Drive.Paths.{name_of}
use xx_drive.Drive.Resolve.{resolve_user_path}
use xx_drive.Drive.Trash.{lstat_of}
use xx_drive.Drive.Versions.{SnapshotCall, snapshot_version, version_dir}
use xx_drive.Drive.Versions.Unharmed.{temp_at, final_at}
use xx_drive.Drive.Versions.Stored.{snapshot_version-ok}
use xx_drive.Drive.Entries.{Times, etag_of}
use xx_drive.Drive.Layout.{
  IsPlain, InArea, resolved-IsPlain, resolved-in_files, staged-in_tmp, tmp-in_tmp, areas-Apart,
  blob-in_versions, temp-IsSegment, final-vdir, temp-vdir, final-temp,
}
use xx_drive.Drive.Upload.{
  UploadCall, make_staging, create_staging, read_body, sync_staging, Request, Drawn, staging_at,
  commit_over, place, upload,
}
use xx_drive.Drive.Upload.Kept.{commit_file-node, commit_beside-node, snapshot_version-area}

module _ (times : Times) (path_hash sha : Bytes → Bytes) (fails : UploadCall → Bool)
    (faults : SnapshotCall → Bool) (r user : Bytes)
    (hashed : (v : Bytes) → IsSegment (path_hash v)) where
  -- The names of the version that an upload may store are not in use.
  abbrev pub IsNew : Disk → Bytes → Bytes → Type 0
  IsNew d logical id =
      (tree_at d (temp_at (version_dir path_hash (slash ∷ r) user logical) id) ≡ [])
      × (tree_at d (final_at (version_dir path_hash (slash ∷ r) user logical) id) ≡ [])

  -- The content is where it was, or it is stored under the id.
  abbrev pub Saved : Disk → Bytes → Bytes → Bytes → Bytes → Type 0
  Saved d abs logical id text =
      (node_at d abs ≡ some (content text))
      ⊎ (node_at d (final_at (version_dir path_hash (slash ∷ r) user logical) id)
          ≡ some (content text))

  module _ (root_plain : IsPlain r) (user_plain : IsPlain user)
      (abs logical staged read text : Bytes) (request : Request) (drawn : Drawn)
      (seg : IsSegment drawn.version_id) (area : InArea r b't' staged)
      (below : InArea r b'f' abs) where
    final_place :
        InArea r b'v' (final_at (version_dir path_hash (slash ∷ r) user logical) drawn.version_id)
    final_place =
        blob-in_versions path_hash r user logical root_plain user_plain (hashed logical)
          drawn.version_id seg

    commit_over-Saved :
        (d : Disk)
        → IsFile d staged read
        → node_at d abs ≡ some (content text)
        → IsNew d logical drawn.version_id
        → Saved
            ((commit_over times path_hash sha fails faults
              (slash ∷ r)
              user
              d
              staged
              abs
              logical
              request
              drawn).1)
            abs
            logical
            drawn.version_id
            text
    unfolding commit_over
    commit_over-Saved d file here (no_temp, no_final) =
        let id = drawn.version_id in
        let final = final_at (version_dir path_hash (slash ∷ r) user logical) id in
        let snapshot = snapshot_version path_hash (slash ∷ r) user faults d logical abs id in
        let area_of =
          snapshot_version-area times path_hash sha fails faults r user hashed root_plain
            user_plain in
        elim (Result-cases (snapshot.0)) [
          | inr (e, failed) ↦
              let same = area_of d logical abs id abs b'f' seg (λ e. ground arith) below in
              let kept =
                node_at-tree (snapshot.1) abs ∙ ap at_root same ∙ sym (node_at-tree d abs) ∙ here in
              inl (rw (commit_over, failed) kept)
          | inl ((i, size), done) ↦
              let file' : IsFile (snapshot.1) staged read =
                area_of d logical abs id staged b't' seg (λ e. ground arith) area ∙ file in
              let stored =
                snapshot_version-ok path_hash (slash ∷ r) user faults d logical abs id text here
                  no_temp no_final
                  (temp-vdir path_hash r user logical id root_plain user_plain (hashed logical) seg)
                  (final-vdir path_hash r user logical id root_plain user_plain (hashed logical)
                    seg)
                  (final-temp path_hash r user logical id root_plain user_plain (hashed logical)
                    seg)
                  done in
              inr (
                rw (commit_over, done)
                  (commit_file-node times path_hash sha fails faults r user (snapshot.1) staged abs
                    logical request.body read false
                    (record { version_id = i; size = size; created_at = drawn.now }) final area
                    file'
                    (strip-self-other staged final
                      (areas-Apart r b't' b'v' (λ e. ground arith) area final_place))
                    (inl (
                      strip-self-other abs final
                        (areas-Apart r b'f' b'v' (λ e. ground arith) below final_place)))
                    stored))
        ]

    place-Saved :
        (d : Disk)
        → IsFile d staged read
        → node_at d abs ≡ some (content text)
        → IsNew d logical drawn.version_id
        → Saved
            ((place times path_hash sha fails faults
              (slash ∷ r)
              user
              d
              staged
              abs
              logical
              request
              drawn).1)
            abs
            logical
            drawn.version_id
            text
    unfolding place
    place-Saved d file here new =
        let outside =
          strip-self-other staged abs (areas-Apart r b't' b'f' (λ e. ground arith) area below) in
        elim (Bool-cases request.conflict_rename) [
          | inl beside ↦
              let kept =
                commit_beside-node times path_hash sha fails faults r user d staged logical read
                  request drawn abs area file outside here in
              inl (ground arith)
          | inr over ↦
              elim (Bool-cases (
                not (request.if_match == [])
                && not (request.if_match == etag_of (times.modified d abs) (length text)))) [
                  | inl stale ↦ inl (ground arith)
                  | inr current ↦ elim (commit_over-Saved d file here new) [
                    | inl h ↦ inl (ground arith)
                    | inr h ↦ inr (ground arith)
                  ]
                ]
        ]

  -- Whatever a request asks for and whichever calls fail, the content that a file had before an upload
  -- is still in the file after it, or it is stored as the version with the drawn id, if that id is new.
  pub upload-Saved :
      (d : Disk) (rel text : Bytes) (request : Request) (drawn : Drawn) {abs logical : Bytes}
      → IsSegment drawn.staging_name
      → IsSegment drawn.version_id
      → resolve_user_path (lstat_of d) (slash ∷ r) user rel ≡ ok (abs, logical)
      → node_at d abs ≡ some (content text)
      → IsNew d logical drawn.version_id
      → Saved
          ((upload times path_hash sha fails faults (slash ∷ r) user d rel request drawn).1)
          abs
          logical
          drawn.version_id
          text
  unfolding upload
  upload-Saved d rel text request drawn {abs} {logical} named seg found here (no_temp, no_final) =
      let (rp, up) = resolved-IsPlain (lstat_of d) r user rel found in
      let staged = staging_at (slash ∷ r) drawn.staging_name in
      let tmp = join_paths ((slash ∷ r) ∷ bytes "tmp" ∷ []) in
      let read = take (suc request.max_size) request.body in
      let vd = version_dir path_hash (slash ∷ r) user logical in
      let final = final_at vd drawn.version_id in
      let temp = temp_at vd drawn.version_id in
      let area : InArea r b't' staged = staged-in_tmp r drawn.staging_name rp named in
      let below = resolved-in_files (lstat_of d) r user rel found in
      let blob = blob-in_versions path_hash r user logical rp up (hashed logical) in
      let final_in = blob drawn.version_id seg in
      let temp_in = blob (drawn.version_id ++ bytes ".tmp") (temp-IsSegment drawn.version_id seg) in
      let outside =
        strip-self-other staged abs (areas-Apart r b't' b'f' (λ e. ground arith) area below) in
      let final_out =
        strip-self-other staged final (areas-Apart r b't' b'v' (λ e. ground arith) area final_in) in
      elim (Option-cases (make_all d tmp)) [
        | inl blocked ↦ inl (ground arith)
        | inr (made, done) ↦
            let written = write_file made staged read in
            let free : (q : Bytes) → InArea r b'v' q → tree_at d q ≡ [] → tree_at written q ≡ [] =
              λ q in_v e.
                tree_at-write_file made q staged read
                  (areas-Apart r b'v' b't' (λ e. ground arith) in_v area)
                ∙ make_all-tree d q tmp
                    (strip-self-other q tmp
                      (areas-Apart r b'v' b't' (λ e. ground arith) in_v (tmp-in_tmp r rp)))
                    done
                ∙ e in
            let kept = make_all-node d abs tmp here done in
            let still : node_at written abs ≡ some (content text) =
              node_at-write_file_other made abs staged read outside ∙ kept in
            let bare = node_at-remove_all written abs staged outside in
            let result =
              (place times path_hash sha fails faults (slash ∷ r) user written staged abs logical
                request drawn).1 in
            let last = node_at-remove_all result abs staged outside in
            let last' = node_at-remove_all result final staged final_out in
            elim (place-Saved rp up abs logical staged read text request drawn seg area below
              written (write_file-IsFile made staged read) still
              (free temp temp_in no_temp, free final final_in no_final)) [
                | inl h ↦ inl (ground arith)
                | inr h ↦
                    elim (Bool-cases (
                      fails make_staging
                      || (fails create_staging
                          || (fails read_body
                              || (ltb request.max_size (length read)
                                  || (fails sync_staging || name_of logical == [])))))) [
                                    | inl early ↦ inl (ground arith)
                                    | inr staged_whole ↦ inr (ground arith)
                                  ]
              ]
      ]
