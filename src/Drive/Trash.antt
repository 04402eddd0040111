-- ===== src/Drive/Trash.antt =====
-- internal/fsdrv/fsdrv.go: deletion into the trash, restoring and purging.
pub mod Kept
pub mod Purge
pub mod Spared
use xx_drive.Prelude.{
  ℕ, zero, suc, ◌+◌, ◌%◌, ◌/◌, Bool, true, false, not, ◌&&◌, ◌||◌, List, [], ◌∷◌, ◌++◌, Option,
  none, some, if◌then◌else◌, ◌==◌, nat_eq, bytes_eq, ltb, leb, length, any,
}
use xx_drive.Prelude.Bytes.{Bytes, bytes, trim_suffix}
use xx_drive.Prelude.Results.{Result, ok, err, not_found, invalid, other}
use xx_drive.Filepath.{slash, join_paths, ext}
use xx_drive.Disk.{Node, folder, content, Disk, node_at, remove_all, write_file, make_all, rename}
use xx_drive.Drive.Paths.{root, name_of, parent_of}
use xx_drive.Drive.Resolve.{Lstat, missing, directory, file, resolve_user_path}
use xx_drive.Store.Versions.{VersionRef}

-- `TrashItem` without its id and size, and `TrashVersionRef`.
pub record TrashItem : Type 0 where
  pub orig_path : Bytes
  pub name : Bytes
  pub is_dir : Bool
  pub deleted_at : ℕ
  pub versions : List VersionRef

-- The JSON text of an item's metadata, and back.
pub record Json : Type 0 where
  pub marshal : TrashItem → Bytes
  pub unmarshal : Bytes → Option TrashItem

-- The calls of `DeleteWithVersions` and `Restore` that may fail.
pub data Call : Type 0 where
  make_folder write_sidecar move_payload publish roll_back : Call

abbrev pub lstat_of : Disk → Bytes → Lstat
lstat_of d p = elim (node_at d p) [
  | none ↦ missing
  | some folder ↦ directory
  | some (content text) ↦ file
]

abbrev pub is_folder : Option Node → Bool
is_folder (some folder) = true
is_folder o = false

abbrev pub trash_dir : Bytes → Bytes → Bytes
trash_dir data_root user = join_paths (data_root ∷ bytes "trash" ∷ user ∷ [])

abbrev pub payload_at : Bytes → Bytes → Bytes
payload_at dir id = dir ++ slash ∷ id

abbrev pub meta_at : Bytes → Bytes → Bytes
meta_at dir id = payload_at dir id ++ bytes ".json"

abbrev pub sidecar_at : Bytes → Bytes → Bytes
sidecar_at dir id = payload_at dir id ++ bytes ".json.tmp"

-- A call that a fault makes fail.
abbrev pub attempt : Bool → Option Disk → Option Disk
attempt fails result = if fails then none else result

-- `validID`
abbrev pub is_hex : ℕ → Bool
is_hex c = (leb b'0' c && leb c b'9') || (leb b'a' c && leb c b'f') || (leb b'A' c && leb c b'F')

unfoldable pub valid_id : Bytes → Bool
valid_id id = length id == 32 && not (any (λ c. not (is_hex c)) id)

module _ (fails : Call → Bool) where
  -- The third step: publish the metadata, or move the payload home.
  unfoldable pub publish_item : Disk → Bytes → Bytes → Bytes → Bytes → Result (Bytes × Bytes) × Disk
  publish_item d abs logical dir id =
      elim (attempt (fails publish) (rename d (sidecar_at dir id) (meta_at dir id))) [
        | some done ↦ (ok (id, logical), done)
        | none ↦
            let cleared = remove_all d (sidecar_at dir id) in
            elim (attempt (fails roll_back) (rename cleared (payload_at dir id) abs)) [
              | none ↦ (err other, cleared)
              | some back ↦ (err other, back)
            ]
      ]

  -- The second step: move the payload.
  unfoldable pub move_item : Disk → Bytes → Bytes → Bytes → Bytes → Result (Bytes × Bytes) × Disk
  move_item d abs logical dir id =
      elim (attempt (fails move_payload) (rename d abs (payload_at dir id))) [
        | none ↦ (err other, remove_all d (sidecar_at dir id))
        | some moved ↦ publish_item moved abs logical dir id
      ]

  -- From the creation of the trash folder on.
  unfoldable pub trash_item :
      Disk → Bytes → Bytes → Bytes → Bytes → Bytes → Result (Bytes × Bytes) × Disk
  trash_item d abs logical dir id meta = elim (attempt (fails make_folder) (make_all d dir)) [
    | none ↦ (err other, d)
    | some made ↦
        if fails write_sidecar
        then (err other, remove_all made (sidecar_at dir id))
        else move_item (write_file made (sidecar_at dir id) meta) abs logical dir id
  ]

  -- `DeleteWithVersions`, with the id that `newID` returns.
  unfoldable pub delete_with_versions :
      Json
      → Bytes
      → Disk
      → Bytes
      → Bytes
      → List VersionRef
      → Bytes
      → ℕ
      → Result (Bytes × Bytes) × Disk
  delete_with_versions json data_root d user rel versions id now =
      elim (resolve_user_path (lstat_of d) data_root user rel) [
        | err e ↦ (err e, d)
        | ok (abs, logical) ↦ if logical == root then (err invalid, d) else elim (node_at d abs) [
          | none ↦ (err not_found, d)
          | some n ↦
              let item : TrashItem = record {
                orig_path = logical;
                name = name_of logical;
                is_dir = is_folder (some n);
                deleted_at = now;
                versions = versions;
              } in
              trash_item d abs logical (trash_dir data_root user) id (json.marshal item)
        ]
      ]

-- The decimal digits of a number; the fuel is the number itself and one more.
abbrev pub digits : ℕ → ℕ → Bytes
digits zero n = []
digits (suc fuel) n =
    let front = digits fuel (n / 10) in
    if ltb n 10 then (b'0' + n) ∷ [] else front ++ (b'0' + n % 10) ∷ []

abbrev pub decimal : ℕ → Bytes
decimal n = digits (suc n) n

-- The name that the next round of `Restore` tries.
abbrev pub numbered : Bytes → Bytes → ℕ → Bytes
numbered orig dest i =
    trim_suffix orig (ext dest) ++ bytes " (restored " ++ decimal i ++ bytes ")" ++ ext dest

module _ (fails : Call → Bool) (data_root user : Bytes) where
  -- Into a place that is free.
  unfoldable pub restore_to : Disk → Bytes → Bytes → Bytes → Bytes → Result Bytes × Disk
  restore_to d dir id abs logical =
      elim (resolve_user_path (lstat_of d) data_root user (parent_of logical)) [
        | err e ↦ (err e, d)
        | ok (parent, above) ↦ elim (attempt (fails make_folder) (make_all d parent)) [
          | none ↦ (err other, d)
          | some made ↦ elim (attempt (fails move_payload) (rename made (payload_at dir id) abs)) [
            | none ↦ (err other, made)
            | some moved ↦ (ok logical, remove_all moved (meta_at dir id))
          ]
        ]
      ]

  -- The loop of `Restore`: the first numbered name that is free.
  unfoldable pub restore_at : ℕ → Disk → Bytes → Bytes → Bytes → Bytes → ℕ → Result Bytes × Disk
  restore_at zero d dir id orig dest i = (err other, d)
  restore_at (suc fuel) d dir id orig dest i =
      let next = restore_at fuel d dir id orig (numbered orig dest i) (suc i) in
      elim (resolve_user_path (lstat_of d) data_root user dest) [
        | err e ↦ (err e, d)
        | ok (abs, logical) ↦ elim (node_at d abs) [
          | none ↦ restore_to d dir id abs logical
          | some n ↦ next
        ]
      ]

  -- `Restore`; the fuel is one more than the entries of the disk.
  unfoldable pub restore : Json → Disk → Bytes → Result Bytes × Disk
  restore json d id =
      if not (valid_id id)
      then (err invalid, d)
      else elim (node_at d (meta_at (trash_dir data_root user) id)) [
        | none ↦ (err not_found, d)
        | some folder ↦ (err not_found, d)
        | some (content text) ↦ elim (json.unmarshal text) [
          | none ↦ (err not_found, d)
          | some item ↦
              restore_at (suc (length d)) d (trash_dir data_root user) id item.orig_path
                item.orig_path 2
        ]
      ]
