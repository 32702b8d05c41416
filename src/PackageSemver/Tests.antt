-- ===== src/PackageSemver/Tests.antt =====
-- The theorems of the package versions at concrete texts.
use duckdb_fdw.Base.{ℕ, ◌≡◌, ◌↔◌, refl, some, List, [], ◌∷◌}
use duckdb_fdw.PackageSemver.{
  PackageSemver, is_ascii_digit, read_digits, is_padded, is_empty, parse_component, split_dot, make,
  parse_last, parse,
}
use duckdb_fdw.PackageSemver.Complete.{parse_iff}
use duckdb_fdw.PackageSemver.Laws.{IsVersion}

-- "1.20.3"
abbrev text : List ℕ
text = b'1' ∷ b'.' ∷ b'2' ∷ b'0' ∷ b'.' ∷ b'3' ∷ []

abbrev version : ℕ → ℕ → ℕ → PackageSemver
version major minor patch = record { major = major; minor = minor; patch = patch; canonical = text }

parses : parse text ≡ some (version 1 20 3)
unfolding parse split_dot parse_last make parse_component is_empty is_padded read_digits
    is_ascii_digit
parses = refl

parse_iff_example : (parse text ≡ some (version 1 20 3)) ↔ IsVersion text (version 1 20 3)
parse_iff_example = parse_iff text (version 1 20 3)
