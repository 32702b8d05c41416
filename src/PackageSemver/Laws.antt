-- ===== src/PackageSemver/Laws.antt =====
-- The bounds of a version and the order of versions.
use duckdb_fdw.Base.{
  ℕ, ◌+◌, ◌-◌, ◌*◌, ◌≤◌, ◌≡◌, ◌↔◌, ◌∙◌, ap, false, Option, none, some, List, [], ◌∷◌, ◌++◌, ◌⊎◌,
  inl, inr, Option-cases, Ordering, arith, All,
}
use duckdb_fdw.PackageSemver.{
  PackageSemver, is_ascii_digit, u32_max, read_digits, is_padded, is_empty, parse_component,
  split_dot, make, parse_last, parse, compare_versions,
}

-- The number that a text of decimal digits denotes, read on from `value`.
unfoldable pub denotes : ℕ → List ℕ → ℕ
denotes value [] = value
denotes value (c ∷ cs) = denotes (value * 10 + (c - b'0')) cs

abbrev pub IsDigit : ℕ → Type 0
IsDigit c = (b'0' ≤ c) × (c ≤ b'9')

digits_step :
    (value c : ℕ) (cs : List ℕ) {n : ℕ}
    → value ≤ u32_max
    → read_digits value (c ∷ cs) ≡ some n
    → IsDigit c
      × (value * 10 + (c - b'0') ≤ u32_max)
      × (read_digits (value * 10 + (c - b'0')) cs ≡ some n)
unfolding read_digits is_ascii_digit
digits_step value c cs h e = ground arith

read_digits_sound :
    (value : ℕ) (cs : List ℕ) {n : ℕ}
    → value ≤ u32_max
    → read_digits value cs ≡ some n
    → All IsDigit cs × (n ≡ denotes value cs) × (n ≤ u32_max)
unfolding read_digits denotes
read_digits_sound value [] h e = ground arith
read_digits_sound value (c ∷ cs) h e =
    let s = digits_step value c cs h e in
    let r = read_digits_sound (value * 10 + (c - b'0')) cs s.1 s.2 in ((s.0, r.0), r.1, r.2)

-- The canonical decimal text of a uint32_t.
pub record IsCanonical (cs : List ℕ) (n : ℕ) : Type 0 where
  pub nonempty : is_empty cs ≡ false
  pub unpadded : is_padded cs ≡ false
  pub digits : All IsDigit cs
  pub value : n ≡ denotes 0 cs
  pub small : n ≤ u32_max

parse_component_checks :
    (cs : List ℕ) {n : ℕ}
    → parse_component cs ≡ some n
    → (is_empty cs ≡ false) × (is_padded cs ≡ false) × (read_digits 0 cs ≡ some n)
unfolding parse_component
parse_component_checks cs e = ground arith

parse_component-IsCanonical : (cs : List ℕ) {n : ℕ} → parse_component cs ≡ some n → IsCanonical cs n
parse_component-IsCanonical cs e =
    let c = parse_component_checks cs e in
    let r = read_digits_sound 0 cs (omega arith) c.2 in
    record { nonempty = c.0; unpadded = c.1; digits = r.0; value = r.1; small = r.2 }

split_dot_sound :
    (cs before after : List ℕ) → split_dot cs ≡ some (before, after) → cs ≡ before ++ b'.' ∷ after
unfolding split_dot
split_dot_sound [] before after e = ground arith
split_dot_sound (c ∷ cs) before after e =
    split (Option-cases (split_dot cs)) (λ x y s. split_dot_sound cs x y s)
  where
    split :
        (split_dot cs ≡ none) ⊎ ((p : List ℕ × List ℕ) × (split_dot cs ≡ some p))
        → ((x y : List ℕ) → split_dot cs ≡ some (x, y) → cs ≡ x ++ b'.' ∷ y)
        → c ∷ cs ≡ before ++ b'.' ∷ after
    split (inl n) sound = ground arith
    split (inr ((x, y), s)) sound = ground (arith, sound x y s)

-- Two versions compare equal exactly where their three numbers are equal.
pub compare_versions_eq :
    (a b : PackageSemver)
    → (compare_versions a b ≡ Ordering.eq)
      ↔ (a.major ≡ b.major) × (a.minor ≡ b.minor) × (a.patch ≡ b.patch)
unfolding compare_versions
compare_versions_eq a b = ground arith

-- Turned round, a comparison gives the opposite.
pub compare_versions_flip :
    (a b : PackageSemver)
    → (compare_versions a b ≡ Ordering.lt) ↔ (compare_versions b a ≡ Ordering.gt)
unfolding compare_versions
compare_versions_flip a b = ground arith

-- Less than is transitive.
pub compare_versions_trans :
    (a b c : PackageSemver)
    → compare_versions a b ≡ Ordering.lt
    → compare_versions b c ≡ Ordering.lt
    → compare_versions a c ≡ Ordering.lt
unfolding compare_versions
compare_versions_trans a b c p q = ground arith

-- `value` is three canonical decimal texts joined by dots, and the version holds their numbers.
pub record IsVersion (value : List ℕ) (v : PackageSemver) : Type 0 where
  pub major : List ℕ
  pub minor : List ℕ
  pub patch : List ℕ
  pub joined : value ≡ major ++ b'.' ∷ (minor ++ b'.' ∷ patch)
  pub major_is : IsCanonical major v.major
  pub minor_is : IsCanonical minor v.minor
  pub patch_is : IsCanonical patch v.patch
  pub kept : v.canonical ≡ value

make_parts :
    (x y z : Option ℕ) (value : List ℕ) (v : PackageSemver)
    → make x y z value ≡ some v
    → (x ≡ some v.major) × (y ≡ some v.minor) × (z ≡ some v.patch) × (v.canonical ≡ value)
unfolding make
make_parts none y z value v e = ground arith
make_parts (some x) none z value v e = ground arith
make_parts (some x) (some y) none value v e = ground arith
make_parts (some x) (some y) (some z) value v e = ground arith

-- The dots of a text that parses.
record Parts (value : List ℕ) (v : PackageSemver) : Type 0 where
  major : List ℕ
  rest : List ℕ
  minor : List ℕ
  patch : List ℕ
  first : split_dot value ≡ some (major, rest)
  second : split_dot rest ≡ some (minor, patch)
  made : parse_last major minor patch value ≡ some v

module _ (value : List ℕ) {v : PackageSemver} (e : parse value ≡ some v) where
  no_dot : split_dot value ≡ none → Parts value v
  unfolding parse
  no_dot n = ground arith

  one_dot :
      (major rest : List ℕ)
      → split_dot value ≡ some (major, rest)
      → split_dot rest ≡ none
      → Parts value v
  unfolding parse
  one_dot major rest s n = ground arith

  two_dots :
      (major rest minor patch : List ℕ)
      → split_dot value ≡ some (major, rest)
      → split_dot rest ≡ some (minor, patch)
      → parse_last major minor patch value ≡ some v
  unfolding parse
  two_dots major rest minor patch s r = ground arith

  parse-Parts : Parts value v
  parse-Parts = elim (Option-cases (split_dot value)) [
    | inl n ↦ no_dot n
    | inr ((major, rest), s) ↦ elim (Option-cases (split_dot rest)) [
      | inl n ↦ one_dot major rest s n
      | inr ((minor, patch), r) ↦ record {
        major = major;
        rest = rest;
        minor = minor;
        patch = patch;
        first = s;
        second = r;
        made = two_dots major rest minor patch s r;
      }
    ]
  ]

parse_last_makes :
    (major minor patch value : List ℕ) {v : PackageSemver}
    → parse_last major minor patch value ≡ some v
    → make (parse_component major) (parse_component minor) (parse_component patch) value ≡ some v
unfolding parse_last
parse_last_makes major minor patch value e = ground arith

-- A text that parses is three canonical decimal numbers of 32 bits, without padding, joined by two
-- dots, and the version holds these numbers and the text.
pub parse-IsVersion :
    (value : List ℕ) {v : PackageSemver} → parse value ≡ some v → IsVersion value v
parse-IsVersion value {v} e =
    let p = parse-Parts value e in
    let m =
      make_parts (parse_component p.major) (parse_component p.minor) (parse_component p.patch) value
        v (parse_last_makes p.major p.minor p.patch value p.made) in
    record {
      major = p.major;
      minor = p.minor;
      patch = p.patch;
      joined =
          split_dot_sound value p.major p.rest p.first
          ∙ ap (λ rest. p.major ++ b'.' ∷ rest) (split_dot_sound p.rest p.minor p.patch p.second);
      major_is = parse_component-IsCanonical p.major m.0;
      minor_is = parse_component-IsCanonical p.minor m.1;
      patch_is = parse_component-IsCanonical p.patch m.2;
      kept = m.3;
    }
