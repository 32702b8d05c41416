-- ===== src/PackageSemver.antt =====
-- `PackageSemVer` of src/connector/package_semver.cpp. A string is the list of its characters'
-- codes; the exceptions of `Parse`, all of one type, are none.
pub mod Laws
pub mod Complete
mod Tests
use duckdb_fdw.Base.{
  ℕ, ◌+◌, ◌-◌, ◌*◌, ◌/◌, ◌^◌, ◌≡◌, refl, Bool, true, false, ◌&&◌, ◌||◌, not, Option, none, some,
  List, [], ◌∷◌, Ordering, ◌==◌, ltb, leb, if◌then◌else◌,
}

pub record PackageSemver : Type 0 where
  pub major : ℕ
  pub minor : ℕ
  pub patch : ℕ
  pub canonical : List ℕ

unfoldable pub is_ascii_digit : ℕ → Bool
is_ascii_digit value = leb b'0' value && leb value b'9'

-- `std::numeric_limits<std::uint32_t>::max()`
abbrev pub u32_max : ℕ
u32_max = 2 ^ 32 - 1

-- The loop of `ParseComponent`, from the value read so far.
unfoldable pub read_digits : ℕ → List ℕ → Option ℕ
read_digits value [] = some value
read_digits value (c ∷ cs) =
    let digit = c - b'0' in
    let rest = read_digits (value * 10 + digit) cs in
    if not (is_ascii_digit c)
    then none
    else if ltb ((u32_max - digit) / 10) value
    then none
    else rest

unfoldable pub is_padded : List ℕ → Bool
is_padded (c ∷ d ∷ cs) = c == b'0'
is_padded _ = false

unfoldable pub is_empty : List ℕ → Bool
is_empty [] = true
is_empty (c ∷ cs) = false

unfoldable pub parse_component : List ℕ → Option ℕ
parse_component component =
    if is_empty component || is_padded component then none else read_digits 0 component

-- `find('.')` with the two `substr` that follow: the text before the first dot and that after it.
unfoldable pub split_dot : List ℕ → Option (List ℕ × List ℕ)
split_dot [] = none
split_dot (c ∷ cs) =
    let rest = split_dot cs in
    if c == b'.'
    then some ([], cs)
    else elim rest [ none ↦ none | some (before, after) ↦ some (c ∷ before, after) ]

unfoldable pub make : Option ℕ → Option ℕ → Option ℕ → List ℕ → Option PackageSemver
make (some major) (some minor) (some patch) value =
    some (record { major = major; minor = minor; patch = patch; canonical = value })
make _ _ _ value = none

unfoldable pub parse_last : List ℕ → List ℕ → List ℕ → List ℕ → Option PackageSemver
parse_last major minor patch value = elim (split_dot patch) [
  | some _ ↦ none
  | none ↦ make (parse_component major) (parse_component minor) (parse_component patch) value
]

unfoldable pub parse : List ℕ → Option PackageSemver
parse value = elim (split_dot value) [
  | none ↦ none
  | some (major, rest) ↦ elim (split_dot rest) [
    | none ↦ none
    | some (minor, patch) ↦ parse_last major minor patch value
  ]
]

-- `Compare`: lt, eq and gt for -1, 0 and 1.
unfoldable pub compare_versions : PackageSemver → PackageSemver → Ordering
compare_versions a b =
    if not (a.major == b.major)
    then if ltb a.major b.major then Ordering.lt else Ordering.gt
    else if not (a.minor == b.minor)
    then if ltb a.minor b.minor then Ordering.lt else Ordering.gt
    else if not (a.patch == b.patch)
    then if ltb a.patch b.patch then Ordering.lt else Ordering.gt
    else Ordering.eq
