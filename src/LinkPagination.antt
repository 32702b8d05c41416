-- ===== src/LinkPagination.antt =====
-- The check of a next target, src/runtime/pagination/link_pagination.cpp. A string is the list of its
-- bytes. The policy error is none; allocations succeed.
pub mod Calls
pub mod Progress
pub mod Decimal
pub mod Fields
pub mod Target
mod Tests
use duckdb_fdw.Base.{
  ℕ, zero, suc, ◌+◌, ◌-◌, ◌*◌, ◌/◌, ◌%◌, ◌≡◌, Bool, true, false, ◌&&◌, ◌||◌, not, Option, none,
  some, List, [], ◌∷◌, ◌++◌, ◌==◌, ltb, leb, if◌then◌else◌, u64_mod,
}

pub record QueryParameter : Type 0 where
  pub name : List ℕ
  pub encoded_value : List ℕ

-- What a target names and what the state reads of `AdmittedPaginatedRestRequestProfile`. The query
-- parameters of the profile are read by no code here.
pub record Profile : Type 0 where
  pub scheme : List ℕ
  pub host : List ℕ
  pub port : ℕ
  pub path : List ℕ
  pub query_parameters : List QueryParameter
  pub page_number_parameter : List ℕ
  pub first_page : ℕ
  pub page_increment : ℕ
  pub page_size : ℕ

unfoldable pub same_text : List ℕ → List ℕ → Bool
same_text [] [] = true
same_text (x ∷ xs) (y ∷ ys) = x == y && same_text xs ys
same_text _ _ = false

abbrev pub is_empty : List ℕ → Bool
is_empty [] = true
is_empty (x ∷ xs) = false

unfoldable pub has_byte : ℕ → List ℕ → Bool
has_byte c [] = false
has_byte c (x ∷ xs) = x == c || has_byte c xs

-- `compare` at an offset and the move of the offset behind the text found there.
unfoldable pub strip : List ℕ → List ℕ → Option (List ℕ)
strip [] text = some text
strip (p ∷ ps) [] = none
strip (p ∷ ps) (x ∷ xs) = let rest = strip ps xs in if p == x then rest else none

-- `std::to_string`; one more than the number is fuel enough.
unfoldable pub digits : ℕ → ℕ → List ℕ
digits zero n = []
digits (suc fuel) n =
    let more = digits fuel (n / 10) in
    if ltb n 10 then (n + b'0') ∷ [] else more ++ (n % 10 + b'0') ∷ []

abbrev pub to_string : ℕ → List ℕ
to_string n = digits (n + 1) n

-- The loop of `ParsePositiveDecimal`.
unfoldable pub read_decimal : ℕ → List ℕ → Option ℕ
read_decimal result [] = some result
read_decimal result (c ∷ cs) =
    let digit = c - b'0' in
    let rest = read_decimal ((result * 10 + digit) % u64_mod) cs in
    if ltb c b'0' || ltb b'9' c
    then none
    else if ltb ((u64_mod - 1 - digit) / 10) result
    then none
    else rest

unfoldable pub parse_positive_decimal : List ℕ → Option ℕ
parse_positive_decimal [] = none
parse_positive_decimal (c ∷ cs) = if ltb c b'1' || ltb b'9' c then none else read_decimal 0 (c ∷ cs)

abbrev pub push : ℕ → List (List ℕ) → List (List ℕ)
push x [] = (x ∷ []) ∷ []
push x (f ∷ fs) = (x ∷ f) ∷ fs

-- The fields of the query, which the loop finds one after the other.
unfoldable pub split_fields : List ℕ → List (List ℕ)
split_fields [] = [] ∷ []
split_fields (x ∷ xs) = let rest = split_fields xs in if x == b'&' then [] ∷ rest else push x rest

-- The name and the value around the first `=`.
unfoldable pub split_equals : List ℕ → Option (List ℕ × List ℕ)
split_equals [] = none
split_equals (x ∷ xs) =
    let rest = split_equals xs in
    if x == b'='
    then some ([], xs)
    else elim rest [ none ↦ none | some (name, value) ↦ some (x ∷ name, value) ]

unfoldable pub is_received : List ℕ → List (List ℕ) → Bool
is_received name [] = false
is_received name (n ∷ ns) = same_text n name || is_received name ns

-- The loop over the fields of `ValidateNextTarget`, with the names received and the page read so far;
-- none is the policy error. It ends without a field that is empty.
unfoldable pub read_fields : List ℕ → List (List ℕ) → List (List ℕ) → ℕ → Option ℕ
read_fields parameter [] received parsed_page = some parsed_page
read_fields parameter (field ∷ fields) received parsed_page = elim (split_equals field) [
  | none ↦ none
  | some (name, value) ↦
      let same = read_fields parameter fields (name ∷ received) parsed_page in
      if is_empty name || has_byte b'=' value || is_received name received
      then none
      else if same_text name parameter
      then elim (parse_positive_decimal value) [
        | none ↦ none
        | some page ↦ read_fields parameter fields (name ∷ received) page
      ]
      else same
]

-- The progression of the page number.
unfoldable pub next_page : ℕ → ℕ → Option ℕ
next_page current_page page_increment =
    if ltb (u64_mod - 1 - page_increment) current_page
    then none
    else some ((current_page + page_increment) % u64_mod)

unfoldable pub check_page : ℕ → Option ℕ → Option ℕ
check_page parsed_page none = none
check_page parsed_page (some next) = if parsed_page == next then some parsed_page else none

unfoldable pub validate_query : Profile → ℕ → List ℕ → Option ℕ
validate_query profile current_page query =
    if is_empty query || has_byte b'#' query
    then none
    else elim (read_fields profile.page_number_parameter (split_fields query) [] 0) [
      | none ↦ none
      | some parsed_page ↦ check_page parsed_page (next_page current_page profile.page_increment)
    ]

unfoldable pub validate_path : Profile → ℕ → List ℕ → Option ℕ
validate_path profile current_page rest = elim (strip (profile.path ++ b'?' ∷ []) rest) [
  | none ↦ none
  | some query ↦ validate_query profile current_page query
]

abbrev pub https : List ℕ
https = b'h' ∷ b't' ∷ b't' ∷ b'p' ∷ b's' ∷ []

abbrev pub authority : Profile → List ℕ
authority profile = profile.scheme ++ (b':' ∷ b'/' ∷ b'/' ∷ profile.host)

-- `ValidateNextTarget`; none is the policy error.
unfoldable pub validate_next_target : List ℕ → ℕ → Profile → Option ℕ
validate_next_target target current_page profile = elim (strip (authority profile) target) [
  | none ↦ none
  | some rest ↦ elim (strip (b':' ∷ to_string profile.port) rest) [
    | some after ↦ validate_path profile current_page after
    | none ↦
        if not (same_text profile.scheme https) || not (profile.port == 443)
        then none
        else validate_path profile current_page rest
  ]
]
