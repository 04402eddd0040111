-- ===== src/Tests/Drive.antt =====
-- The path checks and `ResolveUserPath` at concrete inputs.
use xx_drive.Prelude.{◌≡◌, refl, List, [], bytes_eq, ℕ_discrete, ◌==◌, if◌then◌else◌, true, false}
use xx_drive.Prelude.Bytes.{
  Bytes, bytes, split, join, has_prefix, contains_text, contains_any, to_lower,
}
use xx_drive.Prelude.Results.{Result, ok, err, invalid}
use xx_drive.Filepath.{clean, join_paths, trim_slashes}
use xx_drive.Filepath.Canonical.{rooted, IsCanonical, clean-IsCanonical}
use xx_drive.Drive.Paths.{
  root, validate_rel, name_of, parent_of, join_logical, valid_name, is_staging_entry, sanitize_tag,
}
use xx_drive.Drive.Paths.Validate.{IsLogical, validate_rel-IsLogical}
use xx_drive.Drive.Paths.Names.{join_logical-parent_of-name_of}
use xx_drive.Drive.Resolve.{
  Lstat, missing, link, directory, user_dir, resolve_user_path, walk, is_confined, user_root,
}
use xx_drive.Drive.Resolve.Within.{within}
use xx_drive.Drive.Resolve.Location.{resolve_user_path-within}
use xx_drive.Drive.Resolve.Links.{NoLink, resolve_user_path-NoLink}

-- All that a run of the path functions computes with.
unfoldable runs : Bytes → Result Bytes
unfolding validate_rel contains_text to_lower clean has_prefix split join bytes_eq ℕ_discrete
runs = validate_rel

validate_rel_runs :
    (validate_rel (bytes "a//../b/./c") ≡ ok (bytes "/b/c"))
    × (validate_rel [] ≡ ok root)
    × (validate_rel (bytes "../../etc") ≡ ok (bytes "/etc"))
    × (validate_rel (bytes "a\\..\\b") ≡ err invalid)
    × (validate_rel (bytes "/a%2Eb") ≡ err invalid)
unfolding runs
validate_rel_runs = (refl, refl, refl, refl, refl)

name_runs :
    (valid_name (bytes "a.") ≡ false)
    × (valid_name (bytes "a b.txt") ≡ true)
    × (is_staging_entry (bytes "x.xxpart") ≡ true)
    × (sanitize_tag (bytes "my/phone:1") ≡ bytes "my-phone-1")
unfolding runs valid_name is_staging_entry sanitize_tag contains_any
name_runs = (refl, refl, refl, refl)

abbrev pub sample : Bytes
sample = bytes "/docs/a.txt"

sample-IsLogical : IsLogical sample
unfolding runs
sample-IsLogical = validate_rel-IsLogical sample refl

validate_rel-IsLogical_example : IsLogical (bytes "/b/c")
unfolding runs
validate_rel-IsLogical_example = validate_rel-IsLogical (bytes "a//../b/./c") refl

docs-IsCanonical : IsCanonical (bytes "/docs")
unfolding runs
docs-IsCanonical = clean-IsCanonical (bytes "docs")

join_logical-parent_of-name_of_example :
    join_logical (parent_of sample) (name_of sample) ≡ ok sample
join_logical-parent_of-name_of_example =
    join_logical-parent_of-name_of {p = sample} sample-IsLogical (λ e. cc)

-- A disk with one directory and one link in the home of bob.
abbrev pub disk : Bytes → Lstat
disk p =
    if p == bytes "/d/files/bob/docs"
    then directory
    else if p == bytes "/d/files/bob/docs/out"
    then link
    else missing

unfoldable resolves : Bytes → Bytes → Result (Bytes × Bytes)
unfolding runs resolve_user_path walk is_confined user_root join_paths trim_slashes
resolves = resolve_user_path disk (bytes "/d")

resolve_runs :
    (resolves (bytes "bob") (bytes "docs/../docs/a.txt")
      ≡ ok (bytes "/d/files/bob/docs/a.txt", sample))
    × (resolves (bytes "bob") (bytes "/docs/out/x") ≡ err invalid)
    × (resolves (bytes "..") (bytes "/docs") ≡ err invalid)
    × (resolves (bytes "a/../bob") (bytes "/docs") ≡ err invalid)
unfolding resolves
resolve_runs = (refl, refl, refl, refl)

resolve_user_path-within_example :
    IsLogical sample
    × (validate_rel sample ≡ ok sample)
    × (bytes "/d/files/bob/docs/a.txt" ≡ within (user_dir (bytes "/d") (bytes "bob")) sample)
unfolding resolves
resolve_user_path-within_example =
    resolve_user_path-within disk (bytes "d") (bytes "bob") sample refl

resolve_user_path-NoLink_example :
    (segs : List Bytes) × (sample ≡ rooted segs)
    × NoLink disk (user_dir (bytes "/d") (bytes "bob")) segs
unfolding resolves
resolve_user_path-NoLink_example =
    resolve_user_path-NoLink disk (bytes "d") (bytes "bob") sample refl
