-- ===== src/LinkPagination/Calls.antt =====
-- `LinkPaginationState` and its three ways to advance, src/runtime/pagination/link_pagination.cpp.
-- What the parser of the Link header visits is an argument of the transition.
use duckdb_fdw.Base.{
  ℕ, ◌+◌, ◌%◌, Bool, true, false, ◌||◌, Option, none, some, List, [], ◌∷◌, ◌==◌, ltb, if◌then◌else◌,
  u64_mod,
}
use duckdb_fdw.LinkPagination.{Profile, is_empty, next_page, validate_next_target}

pub record State : Type 0 where
  pub current_page : ℕ
  pub seen_page_count : ℕ
  pub exhausted : Bool
  pub failed : Bool

-- The transition, or the kind of the error.
pub data Advanced : Type 0 where
  moved : ℕ → Advanced
  ended malformed policy state_error : Advanced

unfoldable pub create : Profile → State
create profile = record {
  current_page = profile.first_page;
  seen_page_count = 1;
  exhausted = false;
  failed = false;
}

abbrev pub turn_page : State → ℕ → State × Advanced
turn_page s page = (
  record s { current_page = page; seen_page_count = (s.seen_page_count + 1) % u64_mod },
  moved page,
)

abbrev pub exhaust : State → State × Advanced
exhaust s = (record s { exhausted = true }, ended)

abbrev pub fail : State → Advanced → State × Advanced
fail s error = (record s { failed = true }, error)

abbrev pub move_to : State → Option ℕ → State × Advanced
move_to s none = fail s policy
move_to s (some page) = turn_page s page

-- The values that `ParseLinkHeaderFields` visits, and whether it then throws.
pub record Visits : Type 0 where
  pub values : List (List ℕ × Bool)
  pub malformed_after : Bool

pub data Selected : Type 0 where
  no_next twice : Selected
  next_target : List ℕ → Selected

-- `NextTargetSelector`
unfoldable pub select_next : Selected → List (List ℕ × Bool) → Selected
select_next found [] = found
select_next twice (v ∷ vs) = twice
select_next no_next ((target, has_next_relation) ∷ vs) =
    let later = select_next no_next vs in
    let taken = select_next (next_target target) vs in if has_next_relation then taken else later
select_next (next_target first) ((target, has_next_relation) ∷ vs) =
    let later = select_next (next_target first) vs in if has_next_relation then twice else later

unfoldable pub transition : State → Profile → Selected → Bool → State × Advanced
transition s profile twice malformed_after = fail s policy
transition s profile no_next malformed_after =
    if malformed_after then fail s malformed else exhaust s
transition s profile (next_target target) malformed_after =
    if malformed_after
    then fail s malformed
    else move_to s (validate_next_target target s.current_page profile)

-- `Advance`, `AdvanceBody` and `AdvanceByCount`.
unfoldable pub advance : State → Profile → Visits → State × Advanced
advance s profile visits =
    if s.failed || s.exhausted
    then (s, state_error)
    else transition s profile (select_next no_next visits.values) visits.malformed_after

unfoldable pub advance_body : State → Profile → List ℕ → State × Advanced
advance_body s profile next_url =
    if s.failed || s.exhausted
    then (s, state_error)
    else if is_empty next_url
    then exhaust s
    else move_to s (validate_next_target next_url s.current_page profile)

unfoldable pub advance_by_count : State → Profile → ℕ → State × Advanced
advance_by_count s profile decoded_row_count =
    if s.failed || s.exhausted
    then (s, state_error)
    else if decoded_row_count == 0 || ltb decoded_row_count profile.page_size
    then exhaust s
    else move_to s (next_page s.current_page profile.page_increment)
