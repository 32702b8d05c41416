-- ===== src/LinkPagination/Tests.antt =====
-- The link pagination at concrete inputs.
use duckdb_fdw.Base.{◌≡◌, refl, true, false, ◌||◌, some, [], ◌∷◌, arith}
use duckdb_fdw.LinkPagination.{
  Profile, to_string, validate_next_target, next_page, https, strip, digits, validate_path,
  validate_query, has_byte, split_fields, split_equals, same_text, read_fields, is_received,
  parse_positive_decimal, read_decimal, check_page,
}
use duckdb_fdw.LinkPagination.Calls.{
  State, moved, Visits, transition, select_next, advance, advance_by_count,
}
use duckdb_fdw.LinkPagination.Progress.{by_header, by_count, run, IsTurn, run-IsTurn, run-over}
use duckdb_fdw.LinkPagination.Target.{target_of, validate_next_target-target_of}
use duckdb_fdw.LinkPagination.Fields.{Field, value_of}

abbrev profile : Profile
profile = record {
  scheme = https;
  host = b'h' ∷ [];
  port = 443;
  path = b'/' ∷ b'r' ∷ [];
  query_parameters = record { name = b'v' ∷ []; encoded_value = b'1' ∷ [] } ∷ [];
  page_number_parameter = b'p' ∷ [];
  first_page = 1;
  page_increment = 1;
  page_size = 50;
}

-- A target with another field, and without the query parameter of the profile.
abbrev other_field : Field
other_field = (b'q' ∷ [], b'x' ∷ [])

abbrev page_field : Field
page_field = (b'p' ∷ [], b'2' ∷ [])

abbrev start : State
start = record { current_page = 1; seen_page_count = 1; exhausted = false; failed = false }

abbrev linked : Visits
linked = record {
  values = (target_of profile other_field (page_field ∷ []), true) ∷ [];
  malformed_after = false;
}

turns_page : (run start profile (by_header linked)).1 ≡ moved 2
unfolding run advance transition select_next validate_next_target strip digits validate_path
    validate_query has_byte split_fields split_equals same_text read_fields is_received
    parse_positive_decimal read_decimal check_page next_page
turns_page = refl

run-IsTurn_example : IsTurn start (run start profile (by_header linked)).0 1 2
run-IsTurn_example = run-IsTurn start profile (by_header linked) 2 (omega arith) turns_page

run-over_example :
    ((run start profile (by_count 3)).0.failed || (run start profile (by_count 3)).0.exhausted)
    ≡ true
unfolding run advance_by_count
run-over_example = run-over start profile (by_count 3) refl

names_page :
    value_of profile.page_number_parameter (other_field ∷ page_field ∷ []) ≡ some (to_string 2)
unfolding same_text digits
names_page = refl

validate_next_target-target_of_example :
    validate_next_target (target_of profile other_field (page_field ∷ [])) 1 profile ≡ some 2
unfolding is_received same_text
validate_next_target-target_of_example =
    validate_next_target-target_of profile 1 other_field (page_field ∷ [])
      (
        (((refl, refl, refl), tt), refl, ((refl, refl, refl), tt)),
        refl,
        ((((refl, refl, refl), tt), refl, ((refl, refl, refl), tt)), refl, tt),
      )
      names_page (omega arith) (omega arith)
