-- ===== src/Drive/Upload/Safe.antt =====
-- No upload loses a file.
use xx_drive.Prelude.{
  Bool, true, false, ◌≡◌, ◌∙◌, ◌⊎◌, inl, inr, [], ◌∷◌, none, some, nat_eq, bytes_eq, arith,
  Bool-cases, Option-cases, take, suc,
}
use xx_drive.Prelude.Bytes.{Bytes, bytes}
use xx_drive.Prelude.Results.{ok}
use xx_drive.Filepath.{slash, join_paths}
use xx_drive.Filepath.Segments.{IsSegment}
use xx_drive.Disk.{Node, folder, content, Disk, strip, node_at, write_file, make_all}
use xx_drive.Disk.Rename.{strip-self-other}
use xx_drive.Disk.Nodes.{
  IsFile, node_at-remove_all, node_at-write_file_other, make_all-node, write_file-IsFile,
}
use xx_drive.Drive.Resolve.{resolve_user_path}
use xx_drive.Drive.Trash.{lstat_of}
use xx_drive.Drive.Versions.{SnapshotCall}
use xx_drive.Drive.Entries.{Times}
use xx_drive.Drive.Layout.{IsPlain, InArea, resolved-IsPlain, staged-in_tmp, areas-Apart}
use xx_drive.Drive.Upload.{UploadCall, Request, Drawn, staging_at, place, upload, no_previous}
use xx_drive.Drive.Upload.Kept.{commit_file-node, commit_beside-node, commit_over-node}

module _ (times : Times) (path_hash sha : Bytes → Bytes) (fails : UploadCall → Bool)
    (faults : SnapshotCall → Bool) (r user : Bytes)
    (hashed : (v : Bytes) → IsSegment (path_hash v)) where
  place-node :
      (d : Disk) (staged abs logical read : Bytes) (request : Request) (drawn : Drawn) (p : Bytes)
      {n : Node}
      → IsPlain r
      → IsPlain user
      → IsSegment drawn.version_id
      → InArea r b't' staged
      → InArea r b'f' p
      → IsFile d staged read
      → node_at d p ≡ some n
      → (strip abs p ≡ none) ⊎ (request.conflict_rename ≡ true)
      → node_at
          ((place times path_hash sha fails faults
            (slash ∷ r)
            user
            d
            staged
            abs
            logical
            request
            drawn).1)
          p
        ≡ some n
  unfolding place
  place-node d staged abs logical read request drawn p {n} rp up seg area below file here off =
      let outside =
        strip-self-other staged p (areas-Apart r b't' b'f' (λ e. ground arith) area below) in
      elim (Option-cases (node_at d abs)) [
        | inl vacant ↦
            rw (place, vacant)
              (commit_file-node times path_hash sha fails faults r user d staged abs logical
                request.body read false no_previous p area file outside (inr (λ text. ground arith))
                here)
        | inr (folder, known) ↦ rw (place, known) here
        | inr (content text, known) ↦ elim (Bool-cases request.conflict_rename) [
          | inl beside ↦
              let kept =
                commit_beside-node times path_hash sha fails faults r user d staged logical read
                  request drawn p area file outside here in
              ground arith
          | inr over ↦
              let clear : strip abs p ≡ none = elim off [
                | inl h ↦ h
                | inr h ↦ absurd (ground arith)
              ] in
              let kept =
                commit_over-node times path_hash sha fails faults r user hashed rp up d staged abs
                  logical read request drawn p area below seg file clear here in
              ground arith
        ]
      ]

  -- No upload, whatever calls fail, changes an entry in the users' files but the file at its own path,
  -- and not that one either if it is to be kept in case of a conflict.
  pub upload-node :
      (d : Disk) (rel : Bytes) (request : Request) (drawn : Drawn) (p : Bytes) {n : Node}
      {abs logical : Bytes}
      → IsSegment drawn.staging_name
      → IsSegment drawn.version_id
      → resolve_user_path (lstat_of d) (slash ∷ r) user rel ≡ ok (abs, logical)
      → InArea r b'f' p
      → node_at d p ≡ some n
      → (strip abs p ≡ none) ⊎ (request.conflict_rename ≡ true)
      → node_at ((upload times path_hash sha fails faults (slash ∷ r) user d rel request drawn).1) p
        ≡ some n
  unfolding upload
  upload-node d rel request drawn p {n} {abs} {logical} named seg found below here off =
      let (rp, up) = resolved-IsPlain (lstat_of d) r user rel found in
      let staged = staging_at (slash ∷ r) drawn.staging_name in
      let tmp = join_paths ((slash ∷ r) ∷ bytes "tmp" ∷ []) in
      let read = take (suc request.max_size) request.body in
      let area : InArea r b't' staged = staged-in_tmp r drawn.staging_name rp named in
      let outside =
        strip-self-other staged p (areas-Apart r b't' b'f' (λ e. ground arith) area below) in
      elim (Option-cases (make_all d tmp)) [
        | inl blocked ↦ ground arith
        | inr (made, done) ↦
            let kept = make_all-node d p tmp here done in
            let written = write_file made staged read in
            let still : node_at written p ≡ some n =
              node_at-write_file_other made p staged read outside ∙ kept in
            let placed =
              place-node written staged abs logical read request drawn p rp up seg area below
                (write_file-IsFile made staged read) still off in
            let bare = node_at-remove_all written p staged outside in
            let last =
              node_at-remove_all
                ((place times path_hash sha fails faults (slash ∷ r) user written staged abs logical
                  request drawn).1)
                p staged outside in
            ground arith
      ]
