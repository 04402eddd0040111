-- ===== src/Tests/Paths.antt =====
-- Paths: runs of `Clean` and its relatives.
use xx_drive.Prelude.{◌≡◌, refl, [], ◌∷◌}
use xx_drive.Prelude.Bytes.{bytes}
use xx_drive.Prelude.{bytes_eq, ℕ_discrete}
use xx_drive.Filepath.{clean, base, ext, dir, join_paths}

clean_runs :
    (clean (bytes "/a/./b/../../../c//d/") ≡ bytes "/c/d")
    × (clean (bytes "/..") ≡ bytes "/")
    × (clean (bytes "a/../../b") ≡ bytes "../b")
    × (clean [] ≡ bytes ".")
unfolding clean bytes_eq ℕ_discrete
clean_runs = (refl, refl, refl, refl)

name_runs :
    (base (bytes "/a/b.txt") ≡ bytes "b.txt")
    × (ext (bytes "/a.d/b") ≡ [])
    × (ext (bytes "/a.d/b.tar.gz") ≡ bytes ".gz")
    × (dir (bytes "/a/b") ≡ bytes "/a")
    × (dir (bytes "/a") ≡ bytes "/")
    × (join_paths (bytes "/r" ∷ bytes "../x" ∷ []) ≡ bytes "/x")
unfolding base ext dir join_paths bytes_eq ℕ_discrete
name_runs = (refl, refl, refl, refl, refl, refl)
