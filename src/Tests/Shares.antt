-- ===== src/Tests/Shares.antt =====
-- `shareTarget` and the links of a share's page at concrete inputs.
use xx_drive.Prelude.{◌≡◌, refl, inr, [], Option, some, none, bytes_eq, ℕ_discrete}
use xx_drive.Prelude.Bytes.{
  Bytes, bytes, split, join, has_prefix, contains_text, to_lower, trim_prefix,
}
use xx_drive.Filepath.{clean}
use xx_drive.Filepath.Canonical.{IsCanonical, clean-IsCanonical}
use xx_drive.Drive.Paths.{validate_rel}
use xx_drive.Drive.Paths.Validate.{IsLogical, validate_rel-IsLogical}
use xx_drive.Api.ShareTarget.{
  share_target, has_dot_dot_segment, target_of_path, target_of_sub, check_inside,
}
use xx_drive.Api.ShareTarget.Contained.{IsInside, share_target-IsInside}
use xx_drive.Api.ShareTarget.Links.{link_sub, share_target-link_sub_doubled}

unfoldable targets : Bytes → Bytes → Bytes → Option (Bytes × Bytes)
unfolding share_target has_dot_dot_segment target_of_path target_of_sub check_inside trim_prefix
    validate_rel contains_text to_lower clean has_prefix split join bytes_eq ℕ_discrete
targets = share_target

abbrev photos : Bytes
photos = bytes "/photos"

target_runs :
    (targets photos [] (bytes "/a") ≡ some (bytes "/photos/a", bytes "/a"))
    × (targets photos [] (bytes "/a/../../x") ≡ none)
    × (targets photos (bytes "/other/x") [] ≡ none)
    × (targets photos (bytes "/photos2") [] ≡ none)
    × (targets photos (bytes "/photos/a") [] ≡ some (bytes "/photos/a", bytes "/a"))
unfolding targets
target_runs = (refl, refl, refl, refl, refl)

photos-IsCanonical : IsCanonical photos
unfolding targets
photos-IsCanonical = clean-IsCanonical (bytes "photos")

nested-IsLogical : IsLogical (bytes "/photos/a")
unfolding targets
nested-IsLogical = validate_rel-IsLogical (bytes "/photos/a") refl

share_target-IsInside_example : IsInside photos (bytes "/photos/a") (bytes "/a")
unfolding targets
share_target-IsInside_example =
    share_target-IsInside photos [] (bytes "/a") photos-IsCanonical (λ e. cc) refl

share_target-link_sub_doubled_example :
    share_target photos [] (link_sub photos (bytes "/photos/photos/a"))
    ≡ some (bytes "/photos/a", bytes "/a")
share_target-link_sub_doubled_example =
    share_target-link_sub_doubled photos (bytes "/a") photos-IsCanonical (λ e. cc)
      (inr (bytes "a", refl)) nested-IsLogical
