-- ===== src/PackageSemver/Complete.antt =====
-- Each canonical text parses.
use duckdb_fdw.Base.{
  ℕ, ◌+◌, ◌-◌, ◌*◌, ◌≤◌, ◌≡◌, ◌↔◌, refl, ◌∙◌, ap, none, some, List, [], ◌∷◌, ◌++◌, arith, All,
}
use duckdb_fdw.PackageSemver.{
  PackageSemver, is_ascii_digit, u32_max, read_digits, parse_component, split_dot, make, parse_last,
  parse,
}
use duckdb_fdw.PackageSemver.Laws.{denotes, IsDigit, IsCanonical, IsVersion, parse-IsVersion}

denotes_grows : (value : ℕ) (cs : List ℕ) → value ≤ denotes value cs
unfolding denotes
denotes_grows value [] = omega arith
denotes_grows value (c ∷ cs) = omega (arith, denotes_grows (value * 10 + (c - b'0')) cs)

read_digits_complete :
    (value : ℕ) (cs : List ℕ)
    → All IsDigit cs
    → denotes value cs ≤ u32_max
    → read_digits value cs ≡ some (denotes value cs)
unfolding read_digits denotes is_ascii_digit
read_digits_complete value [] d h = refl
read_digits_complete value (c ∷ cs) d h = ground (
  arith,
  denotes_grows (value * 10 + (c - b'0')) cs,
  read_digits_complete (value * 10 + (c - b'0')) cs d.1 h,
)

parse_component_complete : (cs : List ℕ) (n : ℕ) → IsCanonical cs n → parse_component cs ≡ some n
unfolding parse_component
parse_component_complete cs n v = ground (
  arith,
  v.nonempty,
  v.unpadded,
  v.value,
  read_digits_complete 0 cs v.digits (omega (arith, v.value, v.small)),
)

split_dot-digits :
    (cs after : List ℕ) → All IsDigit cs → split_dot (cs ++ b'.' ∷ after) ≡ some (cs, after)
unfolding split_dot
split_dot-digits [] after d = refl
split_dot-digits (c ∷ cs) after d = ground (arith, split_dot-digits cs after d.1)

split_dot-none : (cs : List ℕ) → All IsDigit cs → split_dot cs ≡ none
unfolding split_dot
split_dot-none [] d = refl
split_dot-none (c ∷ cs) d = ground (arith, split_dot-none cs d.1)

parse_complete : (value : List ℕ) (v : PackageSemver) → IsVersion value v → parse value ≡ some v
unfolding parse parse_last make
parse_complete value v w = ground (
  arith,
  ap split_dot w.joined ∙ split_dot-digits w.major (w.minor ++ b'.' ∷ w.patch) w.major_is.digits,
  split_dot-digits w.minor w.patch w.minor_is.digits,
  split_dot-none w.patch w.patch_is.digits,
  parse_component_complete w.major v.major w.major_is,
  parse_component_complete w.minor v.minor w.minor_is,
  parse_component_complete w.patch v.patch w.patch_is,
  w.kept,
)

-- A text parses to a version exactly where it is three canonical decimal numbers of 32 bits, not
-- padded, joined by two dots, and the version holds these numbers and the text.
pub parse_iff : (value : List ℕ) (v : PackageSemver) → (parse value ≡ some v) ↔ IsVersion value v
parse_iff value v = (parse-IsVersion value, parse_complete value v)
