-- ===== src/Drive/Upload/Kept.antt =====
-- What an upload leaves as it is.
use xx_drive.Prelude.{
  ℕ, zero, ◌+◌, Bool, true, false, ◌≡◌, ◌≢◌, sym, ap, ◌∙◌, ◌⊎◌, inl, inr, ◌∷◌, ◌++◌, none, some,
  nat_eq, bytes_eq, arith, Bool-cases, Option-cases, suc,
}
use xx_drive.Prelude.Bytes.{Bytes, bytes}
use xx_drive.Prelude.Results.{ok, err, Result-cases}
use xx_drive.Filepath.{slash}
use xx_drive.Filepath.Segments.{IsSegment}
use xx_drive.Disk.{Node, Disk, strip, tree_at, node_at, make_all, rename}
use xx_drive.Disk.Rename.{strip-self-other, make_all-tree, at_root, node_at-tree}
use xx_drive.Disk.Nodes.{IsFile, NoFile, make_all-node, make_all-NoFile, rename-node}
use xx_drive.Drive.Paths.{name_of, parent_of, join_logical}
use xx_drive.Drive.Resolve.{resolve_user_path}
use xx_drive.Drive.Trash.{lstat_of, attempt}
use xx_drive.Drive.Versions.{SnapshotCall, snapshot_version, version_dir}
use xx_drive.Drive.Versions.Unharmed.{snapshot_version-tree_at}
use xx_drive.Drive.Entries.{Times}
use xx_drive.Drive.Layout.{
  IsPlain, InArea, resolved-in_files, areas-Apart, version_dir-in_versions, blob-in_versions,
  temp-IsSegment,
}
use xx_drive.Drive.Upload.{
  UploadCall, make_parents, commit, stat_target, Previous, Request, Drawn, counted, free_name,
  name_fuel, conflict_copy, commit_file, commit_beside, commit_over, no_previous,
}

module _ (times : Times) (path_hash sha : Bytes → Bytes) (fails : UploadCall → Bool)
    (faults : SnapshotCall → Bool) (r user : Bytes) where
  pub commit_file-node :
      (d : Disk) (staged target logical body read : Bytes) (c : Bool) (v : Previous) (p : Bytes)
      {n : Node}
      → InArea r b't' staged
      → IsFile d staged read
      → strip staged p ≡ none
      → (strip target p ≡ none) ⊎ NoFile d target
      → node_at d p ≡ some n
      → node_at
          ((commit_file times path_hash sha fails faults
            (slash ∷ r)
            user
            d
            staged
            target
            logical
            body
            c
            v).1)
          p
        ≡ some n
  unfolding commit_file
  commit_file-node d staged target logical body read c v p area file off free here =
      elim (Result-cases (resolve_user_path (lstat_of d) (slash ∷ r) user (parent_of logical))) [
        | inr (e, failed) ↦ rw (commit_file, failed) here
        | inl ((parent, above), found) ↦
            elim (Option-cases (attempt (fails make_parents) (make_all d parent))) [
              | inl blocked ↦ rw (commit_file, found, blocked) here
              | inr (made, done) ↦
                  let made_all : make_all d parent ≡ some made = ground arith in
                  let kept = make_all-node d p parent here made_all in
                  let apart =
                    areas-Apart r b't' b'f' (λ e. ground arith) area
                      (resolved-in_files (lstat_of d) r user (parent_of logical) found) in
                  let file' : IsFile made staged read =
                    make_all-tree d staged parent (strip-self-other staged parent apart) made_all
                    ∙ file in
                  let free' : (strip target p ≡ none) ⊎ NoFile made target = elim free [
                    | inl h ↦ inl h
                    | inr h ↦ inr (make_all-NoFile d target parent h made_all)
                  ] in
                  elim (Option-cases (attempt (fails commit) (rename made staged target))) [
                    | inl refused ↦ rw (commit_file, found, done, refused) kept
                    | inr (placed, renamed) ↦
                        let moved : rename made staged target ≡ some placed = ground arith in
                        let last =
                          rename-node made staged target p read file' off free' kept moved in
                        elim (Bool-cases (fails stat_target)) [
                          | inl unread ↦ rw (commit_file, found, done, renamed, unread) last
                          | inr read_back ↦ elim (Option-cases (node_at placed target)) [
                            | inl gone ↦
                                rw (commit_file, found, done, renamed, read_back, gone) last
                            | inr (m, there) ↦
                                rw (commit_file, found, done, renamed, read_back, there) last
                          ]
                        ]
                  ]
            ]
      ]

  -- The name that the loop finds is free.
  free_name-free :
      (fuel : ℕ) (d : Disk) (np : Bytes) (i : ℕ) {free : Bytes}
      → free_name (slash ∷ r) user fuel d np i ≡ some (ok free)
      → (abs : Bytes) × (logical : Bytes) × (resolve_user_path (lstat_of d) (slash ∷ r) user free
          ≡ ok (abs, logical))
        × (node_at d abs ≡ none)
  unfolding free_name
  free_name-free zero d np i e = absurd (ground arith)
  free_name-free (suc fuel) d np i {free} e =
      elim (Result-cases (resolve_user_path (lstat_of d) (slash ∷ r) user np)) [
        | inr (failure, failed) ↦ absurd (ground arith)
        | inl ((probe, logical), found) ↦ elim (Option-cases (node_at d probe)) [
          | inl vacant ↦
              let same : np ≡ free = ground arith in (probe, logical, rw (sym same) found, vacant)
          | inr (n, taken) ↦
              free_name-free fuel d (counted np i) (i + 1) {free = free} (ground arith)
        ]
      ]

  pub commit_beside-node :
      (d : Disk) (staged logical read : Bytes) (request : Request) (drawn : Drawn) (p : Bytes)
      {n : Node}
      → InArea r b't' staged
      → IsFile d staged read
      → strip staged p ≡ none
      → node_at d p ≡ some n
      → node_at
          ((commit_beside times path_hash sha fails faults
            (slash ∷ r)
            user
            d
            staged
            logical
            request
            drawn).1)
          p
        ≡ some n
  unfolding commit_beside
  commit_beside-node d staged logical read request drawn p {n} area file off here =
      elim (Result-cases (
        join_logical (parent_of logical)
          (conflict_copy (name_of logical) request.device_tag drawn.stamp))) [
            | inr (e, failed) ↦ rw (commit_beside, failed) here
            | inl (np, named) ↦ elim (Option-cases (free_name (slash ∷ r) user name_fuel d np 2)) [
              | inl empty ↦ rw (commit_beside, named, empty) here
              | inr (err e, refused) ↦ rw (commit_beside, named, refused) here
              | inr (ok free, chosen) ↦
                  let (target, placed, found, vacant) = free_name-free name_fuel d np 2 chosen in
                  rw (commit_beside, named, chosen, found)
                    (commit_file-node d staged target placed request.body read true no_previous p
                      area file off (inr (λ text. ground arith)) here)
            ]
          ]

  module _ (hashed : (v : Bytes) → IsSegment (path_hash v)) (root_plain : IsPlain r)
      (user_plain : IsPlain user) where
    -- A snapshot changes nothing outside of the area of the versions.
    pub snapshot_version-area :
        (d : Disk) (logical abs id p : Bytes) (letter : ℕ)
        → IsSegment id
        → letter ≢ b'v'
        → InArea r letter p
        → tree_at ((snapshot_version path_hash (slash ∷ r) user faults d logical abs id).1) p
          ≡ tree_at d p
    snapshot_version-area d logical abs id p letter seg ne area =
        let blob =
          blob-in_versions path_hash r user logical root_plain user_plain (hashed logical) in
        snapshot_version-tree_at path_hash (slash ∷ r) user faults d logical abs id p
          (areas-Apart r letter b'v' ne area (blob (id ++ bytes ".tmp") (temp-IsSegment id seg)))
          (areas-Apart r letter b'v' ne area (blob id seg))
          (strip-self-other p (version_dir path_hash (slash ∷ r) user logical) (
            areas-Apart r letter b'v' ne area (
              version_dir-in_versions path_hash r user logical root_plain user_plain
                (hashed logical))))

    pub commit_over-node :
        (d : Disk) (staged abs logical read : Bytes) (request : Request) (drawn : Drawn) (p : Bytes)
        {n : Node}
        → InArea r b't' staged
        → InArea r b'f' p
        → IsSegment drawn.version_id
        → IsFile d staged read
        → strip abs p ≡ none
        → node_at d p ≡ some n
        → node_at
            ((commit_over times path_hash sha fails faults
              (slash ∷ r)
              user
              d
              staged
              abs
              logical
              request
              drawn).1)
            p
          ≡ some n
    unfolding commit_over
    commit_over-node d staged abs logical read request drawn p {n} area below seg file off here =
        let stored =
          (snapshot_version path_hash (slash ∷ r) user faults d logical abs drawn.version_id).1 in
        let kept =
          node_at-tree stored p
          ∙ ap at_root (
              snapshot_version-area d logical abs drawn.version_id p b'f' seg (λ e. ground arith)
                below)
          ∙ sym (node_at-tree d p)
          ∙ here in
        let file' =
          snapshot_version-area d logical abs drawn.version_id staged b't' seg (λ e. ground arith)
            area
          ∙ file in
        elim (Result-cases
          ((snapshot_version path_hash (slash ∷ r) user faults d logical abs drawn.version_id).0)) [
            | inr (e, failed) ↦ rw (commit_over, failed) kept
            | inl ((id, size), done) ↦
                rw (commit_over, done)
                  (commit_file-node stored staged abs logical request.body read false
                    (record { version_id = id; size = size; created_at = drawn.now }) p area file'
                    (strip-self-other staged p
                      (areas-Apart r b't' b'f' (λ e. ground arith) area below))
                    (inl off) kept)
          ]
