-- ===== src/Drive/Versions/Unharmed.antt =====
-- What a snapshot leaves alone, and what it stores.
use xx_drive.Prelude.{
  Bool, false, length, ◌≡◌, refl, sym, ap, ◌∙◌, inl, inr, [], ◌∷◌, ◌++◌, none, some, nat_eq,
  bytes_eq, arith, Bool-cases, Option-cases,
}
use xx_drive.Prelude.Bytes.{Bytes, bytes}
use xx_drive.Prelude.Results.{ok}
use xx_drive.Filepath.{join_paths}
use xx_drive.Disk.{
  Node, folder, content, Disk, strip, tree_at, node_at, remove_all, write_file, rename,
  rename_entries, make_all,
}
use xx_drive.Disk.Strip.{Apart}
use xx_drive.Disk.Rename.{
  at_root, node_at-tree, node_at-write_file, rename-free, tree_at-rename_entries,
  tree_at-remove_all, tree_at-write_file, tree_at-rename_entries_other, make_all-tree,
}
use xx_drive.Drive.Versions.{
  SnapshotCall, open_source, make_dir, draw_id, create_temp, copy_content, publish_blob,
  version_dir, write_blob, snapshot_version,
}

tree_at-rename_other :
    (d : Disk) (src dst p : Bytes) {d' : Disk}
    → Apart p src
    → Apart p dst
    → rename d src dst ≡ some d'
    → tree_at d' p ≡ tree_at d p
unfolding rename
tree_at-rename_other d src dst p {d'} a b e = elim (Option-cases (node_at d src)) [
  | inl gone ↦ absurd (ground arith)
  | inr (folder, here) ↦ elim (Option-cases (node_at d dst)) [
    | inl free ↦ ground (arith, tree_at-rename_entries_other src dst p d a b)
    | inr (n, taken) ↦ absurd (ground arith)
  ]
  | inr (content text, here) ↦ elim (Option-cases (node_at d dst)) [
    | inl free ↦ ground (arith, tree_at-rename_entries_other src dst p d a b)
    | inr (folder, taken) ↦ absurd (ground arith)
    | inr (content old, taken) ↦
        let cleared = tree_at-remove_all d p dst b in
        ground (arith, tree_at-rename_entries_other src dst p (remove_all d dst) a b)
  ]
]

abbrev pub temp_at : Bytes → Bytes → Bytes
temp_at vdir id = join_paths (vdir ∷ (id ++ bytes ".tmp") ∷ [])

abbrev pub final_at : Bytes → Bytes → Bytes
final_at vdir id = join_paths (vdir ∷ id ∷ [])

module _ (path_hash : Bytes → Bytes) (data_root user : Bytes) (fails : SnapshotCall → Bool) where
  write_blob-tree_at :
      (d : Disk) (vdir id p : Bytes) (n : Node)
      → Apart p (temp_at vdir id)
      → Apart p (final_at vdir id)
      → tree_at ((write_blob path_hash data_root user fails d vdir id n).1) p ≡ tree_at d p
  write_blob-tree_at d vdir id p n a b = elim (Bool-cases (fails create_temp)) [
    | inl failed ↦ rw (write_blob, failed) refl
    | inr created ↦ elim (Option-cases (node_at d (temp_at vdir id))) [
      | inr (m, taken) ↦ rw (write_blob, created, taken) refl
      | inl free ↦ of_node n created free
    ]
  ]
    where
      of_node :
          (m : Node)
          → fails create_temp ≡ false
          → node_at d (temp_at vdir id) ≡ none
          → tree_at ((write_blob path_hash data_root user fails d vdir id m).1) p ≡ tree_at d p
      of_node folder created free = rw (write_blob, created, free) refl
      of_node (content text) created free =
          let written = write_file d (temp_at vdir id) text in
          let kept : tree_at written p ≡ tree_at d p =
            tree_at-write_file d p (temp_at vdir id) text a in
          elim (Bool-cases (fails copy_content)) [
            | inl failed ↦
                rw (write_blob, created, free, failed)
                  (tree_at-remove_all written p (temp_at vdir id) a ∙ kept)
            | inr copied ↦ elim (Bool-cases (fails publish_blob)) [
              | inl failed ↦ rw (write_blob, created, free, copied, failed) kept
              | inr ready ↦
                  elim (Option-cases (rename written (temp_at vdir id) (final_at vdir id))) [
                    | inl blocked ↦ rw (write_blob, created, free, copied, ready, blocked) kept
                    | inr (last, renamed) ↦
                        rw (write_blob, created, free, copied, ready, renamed)
                          (tree_at-rename_other written (temp_at vdir id) (final_at vdir id) p a b
                              renamed
                            ∙ kept)
                  ]
            ]
          ]

  -- A snapshot, whatever calls fail, changes nothing at any place that is not the new content's
  -- final or temporary one, and that the directory of the contents is not in.
  pub snapshot_version-tree_at :
      (d : Disk) (logical abs id p : Bytes)
      → Apart p (temp_at (version_dir path_hash data_root user logical) id)
      → Apart p (final_at (version_dir path_hash data_root user logical) id)
      → strip p (version_dir path_hash data_root user logical) ≡ none
      → tree_at ((snapshot_version path_hash data_root user fails d logical abs id).1) p
        ≡ tree_at d p
  unfolding snapshot_version
  snapshot_version-tree_at d logical abs id p a b off =
      let vdir = version_dir path_hash data_root user logical in
      elim (Bool-cases (fails open_source)) [
        | inl failed ↦ rw (snapshot_version, failed) refl
        | inr opened ↦ elim (Option-cases (node_at d abs)) [
          | inl missing ↦ rw (snapshot_version, opened, missing) refl
          | inr (n, found) ↦ elim (Bool-cases (fails make_dir)) [
            | inl failed ↦ rw (snapshot_version, opened, found, failed) refl
            | inr ready ↦ elim (Option-cases (make_all d vdir)) [
              | inl blocked ↦ rw (snapshot_version, opened, found, ready, blocked) refl
              | inr (mid, made) ↦
                  let kept : tree_at mid p ≡ tree_at d p = make_all-tree d p vdir off made in
                  elim (Bool-cases (fails draw_id)) [
                    | inl failed ↦ rw (snapshot_version, opened, found, ready, made, failed) kept
                    | inr drawn ↦
                        rw (snapshot_version, opened, found, ready, made, drawn)
                          (write_blob-tree_at mid vdir id p n a b ∙ kept)
                  ]
            ]
          ]
        ]
      ]

  -- A snapshot of a file stores its content under the new id, if no call fails, the directory of the
  -- contents can be made, and the two names of the new content are unused.
  pub snapshot_version_stored :
      (d : Disk) (logical abs id text : Bytes) {mid : Disk}
      → ((c : SnapshotCall) → fails c ≡ false)
      → node_at d abs ≡ some (content text)
      → make_all d (version_dir path_hash data_root user logical) ≡ some mid
      → tree_at d (temp_at (version_dir path_hash data_root user logical) id) ≡ []
      → tree_at d (final_at (version_dir path_hash data_root user logical) id) ≡ []
      → strip
          (temp_at (version_dir path_hash data_root user logical) id)
          (version_dir path_hash data_root user logical)
        ≡ none
      → strip
          (final_at (version_dir path_hash data_root user logical) id)
          (version_dir path_hash data_root user logical)
        ≡ none
      → Apart
          (final_at (version_dir path_hash data_root user logical) id)
          (temp_at (version_dir path_hash data_root user logical) id)
      → ((snapshot_version path_hash data_root user fails d logical abs id).0
          ≡ ok (id, length text))
        × (node_at
              ((snapshot_version path_hash data_root user fails d logical abs id).1)
              (final_at (version_dir path_hash data_root user logical) id)
            ≡ some (content text))
  unfolding snapshot_version
  snapshot_version_stored d logical abs id text {mid} works found made no_temp no_final off off' a =
      let vdir = version_dir path_hash data_root user logical in
      let temp = temp_at vdir id in
      let final = final_at vdir id in
      let written = write_file mid temp text in
      let free : node_at mid temp ≡ none =
        node_at-tree mid temp ∙ ap at_root (make_all-tree d temp vdir off made ∙ no_temp) in
      let vacant : tree_at written final ≡ [] =
        tree_at-write_file mid final temp text a
        ∙ make_all-tree d final vdir off' made
        ∙ no_final in
      let source : node_at written temp ≡ some (content text) = node_at-write_file mid temp text in
      let renamed = rename-free written temp final source vacant in
      let stored : node_at (rename_entries temp final written) final ≡ some (content text) =
        node_at-tree (rename_entries temp final written) final
        ∙ ap at_root (tree_at-rename_entries temp final written vacant)
        ∙ sym (node_at-tree written temp)
        ∙ source in
      rw
        (
          snapshot_version,
          works open_source,
          found,
          works make_dir,
          made,
          works draw_id,
          write_blob,
          works create_temp,
          free,
          works copy_content,
          works publish_blob,
          renamed,
        )
        (refl, stored)
