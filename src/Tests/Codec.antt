-- ===== src/Tests/Codec.antt =====
-- A text for the metadata of trashed items: each text behind its length.
use xx_drive.Prelude.{
  ℕ, zero, suc, Bool-cases, inl, inr, ◌≡◌, refl, ap, List, [], ◌∷◌, ◌++◌, Option, none, some,
  nat_eq, bytes_eq, arith, length, take, drop, if◌then◌else◌, ◌==◌,
}
use xx_drive.Prelude.Bytes.{Bytes}
use xx_drive.Drive.Trash.{TrashItem, Json}
use xx_drive.Store.Versions.{VersionRef}

take-length : (t s : Bytes) → take (length t) (t ++ s) ≡ t
take-length [] s = refl
take-length (c ∷ t) s = ap (λ r. c ∷ r) (take-length t s)

drop-length : (t s : Bytes) → drop (length t) (t ++ s) ≡ s
drop-length [] s = refl
drop-length (c ∷ t) s = drop-length t s

abbrev put_text : Bytes → Bytes → Bytes
put_text t s = length t ∷ (t ++ s)

abbrev put_refs : List VersionRef → Bytes
put_refs [] = []
put_refs (ref ∷ refs) = put_text ref.path (put_text ref.version_id (put_refs refs))

-- A text, and what is behind it.
abbrev get_text : Bytes → Bytes × Bytes
get_text [] = ([], [])
get_text (n ∷ s) = (take n s, drop n s)

abbrev get_refs : ℕ → Bytes → List VersionRef
get_refs zero s = []
get_refs (suc n) s =
    let (path, behind) = get_text s in
    let (id, more) = get_text behind in record { path = path; version_id = id } ∷ get_refs n more

get_refs-put_refs : (refs : List VersionRef) → get_refs (length refs) (put_refs refs) ≡ refs
get_refs-put_refs [] = refl
get_refs-put_refs (ref ∷ refs) =
    let more = put_refs refs in
    let behind = put_text ref.version_id more in
    ground (
      arith,
      take-length ref.path behind,
      drop-length ref.path behind,
      take-length ref.version_id more,
      drop-length ref.version_id more,
      get_refs-put_refs refs,
    )

abbrev put_item : TrashItem → Bytes
put_item item =
    (if item.is_dir then 1 else 0)
    ∷ item.deleted_at
    ∷ length item.versions
    ∷ put_text item.orig_path (put_text item.name (put_refs item.versions))

abbrev get_item : Bytes → Option TrashItem
get_item (dir ∷ deleted_at ∷ n ∷ s) =
    let (orig, behind) = get_text s in
    let (name, refs) = get_text behind in
    some (record {
      orig_path = orig;
      name = name;
      is_dir = dir == 1;
      deleted_at = deleted_at;
      versions = get_refs n refs;
    })
get_item s = none

abbrev pub codec : Json
codec = record { marshal = put_item; unmarshal = get_item }

pub codec-round : (item : TrashItem) → codec.unmarshal (codec.marshal item) ≡ some item
codec-round item =
    let refs = put_refs item.versions in
    let behind = put_text item.name refs in
    elim (Bool-cases item.is_dir) [
      | inl dir ↦ ground (
        arith,
        dir,
        take-length item.orig_path behind,
        drop-length item.orig_path behind,
        take-length item.name refs,
        drop-length item.name refs,
        get_refs-put_refs item.versions,
      )
      | inr plain ↦ ground (
        arith,
        plain,
        take-length item.orig_path behind,
        drop-length item.orig_path behind,
        take-length item.name refs,
        drop-length item.name refs,
        get_refs-put_refs item.versions,
      )
    ]
