-- ===== src/Drive/Versions/Stored.antt =====
-- What a snapshot that succeeds has done.
use xx_drive.Prelude.{
  ℕ, Bool, false, ◌≡◌, inl, inr, [], none, some, arith, Option-cases, nat_eq, bytes_eq,
}
use xx_drive.Prelude.Bytes.{Bytes}
use xx_drive.Prelude.Results.{ok}
use xx_drive.Disk.{Node, content, Disk, strip, tree_at, node_at, make_all}
use xx_drive.Disk.Strip.{Apart}
use xx_drive.Drive.Versions.{
  SnapshotCall, open_source, make_dir, draw_id, create_temp, copy_content, publish_blob,
  version_dir, write_blob, snapshot_version,
}
use xx_drive.Drive.Versions.Unharmed.{temp_at, final_at, snapshot_version_stored}

module _ (path_hash : Bytes → Bytes) (data_root user : Bytes) (fails : SnapshotCall → Bool) where
  write_blob-eq-ok :
      (d : Disk) (vdir id : Bytes) (n : Node) {v : Bytes × ℕ}
      → (write_blob path_hash data_root user fails d vdir id n).0 ≡ ok v
      → (fails create_temp ≡ false) × (fails copy_content ≡ false) × (fails publish_blob ≡ false)
  write_blob-eq-ok d vdir id n e = ground arith

  snapshot_version-eq-ok :
      (d : Disk) (logical abs id : Bytes) {v : Bytes × ℕ} {n : Node}
      → node_at d abs ≡ some n
      → (snapshot_version path_hash data_root user fails d logical abs id).0 ≡ ok v
      → ((c : SnapshotCall) → fails c ≡ false)
        × ((mid : Disk) × (make_all d (version_dir path_hash data_root user logical) ≡ some mid))
  unfolding snapshot_version
  snapshot_version-eq-ok d logical abs id {v} {n} found e =
      elim (Option-cases (make_all d (version_dir path_hash data_root user logical))) [
        | inl blocked ↦ absurd (ground arith)
        | inr (mid, made) ↦
            let wrote : (write_blob path_hash data_root user fails mid
                  (version_dir path_hash data_root user logical) id n).0
                ≡ ok v =
              ground arith in
            let (b, c, q) =
              write_blob-eq-ok mid (version_dir path_hash data_root user logical) id n wrote in
            let o : fails open_source ≡ false = ground arith in
            let m : fails make_dir ≡ false = ground arith in
            let i : fails draw_id ≡ false = ground arith in
            (
              λ call. elim call as (λ x. fails x ≡ false) [
                | open_source ↦ o
                | make_dir ↦ m
                | draw_id ↦ i
                | create_temp ↦ b
                | copy_content ↦ c
                | publish_blob ↦ q
              ],
              (mid, made),
            )
      ]

  -- A snapshot that reports success holds the content that the file had.
  pub snapshot_version-ok :
      (d : Disk) (logical abs id text : Bytes) {v : Bytes × ℕ}
      → node_at d abs ≡ some (content text)
      → tree_at d (temp_at (version_dir path_hash data_root user logical) id) ≡ []
      → tree_at d (final_at (version_dir path_hash data_root user logical) id) ≡ []
      → strip
          (temp_at (version_dir path_hash data_root user logical) id)
          (version_dir path_hash data_root user logical)
        ≡ none
      → strip
          (final_at (version_dir path_hash data_root user logical) id)
          (version_dir path_hash data_root user logical)
        ≡ none
      → Apart
          (final_at (version_dir path_hash data_root user logical) id)
          (temp_at (version_dir path_hash data_root user logical) id)
      → (snapshot_version path_hash data_root user fails d logical abs id).0 ≡ ok v
      → node_at
          ((snapshot_version path_hash data_root user fails d logical abs id).1)
          (final_at (version_dir path_hash data_root user logical) id)
        ≡ some (content text)
  snapshot_version-ok d logical abs id text found no_temp no_final off off' a e =
      let (works, (mid, made)) = snapshot_version-eq-ok d logical abs id found e in
      (snapshot_version_stored path_hash data_root user fails d logical abs id text works found made
        no_temp no_final off off' a).1
