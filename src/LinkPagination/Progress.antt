-- ===== src/LinkPagination/Progress.antt =====
-- The state only moves by one increment, and an end is final.
use duckdb_fdw.Base.{
  ℕ, ◌+◌, ◌<◌, ◌≡◌, refl, sym, ◌∙◌, inl, inr, Bool, true, false, ◌||◌, Option, none, some, List, [],
  ◌∷◌, ◌++◌, arith, ◌==◌, ltb, u64_mod, Bool-cases, Option-cases,
}
use duckdb_fdw.LinkPagination.{
  Profile, is_empty, strip, to_string, authority, next_page, check_page, validate_query,
  validate_path, validate_next_target, read_fields, split_fields,
}
use duckdb_fdw.LinkPagination.Calls.{
  State, Advanced, moved, Visits, Selected, no_next, twice, next_target, move_to, transition,
  select_next, advance, advance_body, advance_by_count,
}

-- The three ways to advance.
pub data Op : Type 0 where
  by_header : Visits → Op
  by_body : List ℕ → Op
  by_count : ℕ → Op

unfoldable pub run : State → Profile → Op → State × Advanced
run s profile (by_header visits) = advance s profile visits
run s profile (by_body next_url) = advance_body s profile next_url
run s profile (by_count rows) = advance_by_count s profile rows

next_page-adds :
    (current increment page : ℕ)
    → next_page current increment ≡ some page
    → increment < u64_mod
    → (page ≡ current + increment) × (page < u64_mod)
unfolding next_page
next_page-adds current increment page e h = ground (arith, e)

check_page-next : (parsed page : ℕ) (o : Option ℕ) → check_page parsed o ≡ some page → o ≡ some page
unfolding check_page
check_page-next parsed page none e = ground (arith, e)
check_page-next parsed page (some next) e = ground (arith, e)

validate_query-next :
    (profile : Profile) (current page : ℕ) (query : List ℕ)
    → validate_query profile current query ≡ some page
    → next_page current profile.page_increment ≡ some page
unfolding validate_query
validate_query-next profile current page query e =
    elim (Option-cases (read_fields profile.page_number_parameter (split_fields query) [] 0)) [
      | inl absent ↦ ground (arith, e, absent)
      | inr (parsed, found) ↦
          check_page-next parsed page (next_page current profile.page_increment)
            (ground (arith, e, found))
    ]

validate_path-next :
    (profile : Profile) (current page : ℕ) (rest : List ℕ)
    → validate_path profile current rest ≡ some page
    → next_page current profile.page_increment ≡ some page
unfolding validate_path
validate_path-next profile current page rest e =
    elim (Option-cases (strip (profile.path ++ b'?' ∷ []) rest)) [
      | inl absent ↦ ground (arith, e, absent)
      | inr (query, found) ↦
          validate_query-next profile current page query (ground (arith, e, found))
    ]

-- A target that is accepted carries the page that follows.
pub validate_next_target-next :
    (target : List ℕ) (current page : ℕ) (profile : Profile)
    → validate_next_target target current profile ≡ some page
    → next_page current profile.page_increment ≡ some page
unfolding validate_next_target
validate_next_target-next target current page profile e =
    elim (Option-cases (strip (authority profile) target)) [
      | inl absent ↦ ground (arith, e, absent)
      | inr (rest, found) ↦ elim (Option-cases (strip (b':' ∷ to_string profile.port) rest)) [
        | inl portless ↦
            ground (arith, e, found, portless, validate_path-next profile current page rest)
        | inr (after, port) ↦
            validate_path-next profile current page after (ground (arith, e, found, port))
      ]
    ]

-- What a call of a state that goes on leaves: the page that follows, or an end.
pub record IsTurn (s t : State) (increment page : ℕ) : Type 0 where
  pub was_going : (s.failed || s.exhausted) ≡ false
  pub follows : page ≡ s.current_page + increment
  pub fits : page < u64_mod
  pub current : t.current_page ≡ page
  pub goes_on : (t.failed || t.exhausted) ≡ false

move_to-IsTurn :
    (s : State) (increment page : ℕ) (o : Option ℕ)
    → (s.failed || s.exhausted) ≡ false
    → increment < u64_mod
    → ((q : ℕ) → o ≡ some q → next_page s.current_page increment ≡ some q)
    → (move_to s o).1 ≡ moved page
    → IsTurn s (move_to s o).0 increment page
move_to-IsTurn s increment page none going h next e = ground (arith, e)
move_to-IsTurn s increment page (some q) going h next e =
    let same : q ≡ page = ground (arith, e) in
    let adds = next_page-adds s.current_page increment q (next q refl) h in
    record {
      was_going = going;
      follows = sym same ∙ adds.0;
      fits = ground (arith, adds.1, same);
      current = same;
      goes_on = going;
    }

transition-IsTurn :
    (s : State) (profile : Profile) (page : ℕ) (found : Selected) (malformed_after : Bool)
    → (s.failed || s.exhausted) ≡ false
    → profile.page_increment < u64_mod
    → (transition s profile found malformed_after).1 ≡ moved page
    → IsTurn s (transition s profile found malformed_after).0 profile.page_increment page
unfolding transition
transition-IsTurn s profile page twice malformed_after going h e = ground (arith, e)
transition-IsTurn s profile page no_next true going h e = ground (arith, e)
transition-IsTurn s profile page no_next false going h e = ground (arith, e)
transition-IsTurn s profile page (next_target target) true going h e = ground (arith, e)
transition-IsTurn s profile page (next_target target) false going h e =
    move_to-IsTurn s profile.page_increment page
      (validate_next_target target s.current_page profile) going h
      (λ q found. validate_next_target-next target s.current_page q profile found) e

-- Whatever the remote says, a state that moves is one that goes on, and it moves by exactly the
-- page increment of the admitted profile, within uint64_t.
pub run-IsTurn :
    (s : State) (profile : Profile) (op : Op) (page : ℕ)
    → profile.page_increment < u64_mod
    → (run s profile op).1 ≡ moved page
    → IsTurn s (run s profile op).0 profile.page_increment page
unfolding run advance advance_body advance_by_count
run-IsTurn s profile (by_header visits) page h e = elim (Bool-cases (s.failed || s.exhausted)) [
  | inl over ↦ ground (arith, e, over)
  | inr going ↦
      let found = select_next no_next visits.values in
      rw (going, run, advance)
        (transition-IsTurn s profile page found visits.malformed_after going h
          (ground (arith, e, going)))
]
run-IsTurn s profile (by_body next_url) page h e = elim (Bool-cases (s.failed || s.exhausted)) [
  | inl over ↦ ground (arith, e, over)
  | inr going ↦ elim (Bool-cases (is_empty next_url)) [
    | inl last ↦ ground (arith, e, going, last)
    | inr more ↦
        rw (going, more, run, advance_body)
          (move_to-IsTurn s profile.page_increment page
            (validate_next_target next_url s.current_page profile) going h
            (λ q found. validate_next_target-next next_url s.current_page q profile found)
            (ground (arith, e, going, more)))
  ]
]
run-IsTurn s profile (by_count rows) page h e = elim (Bool-cases (s.failed || s.exhausted)) [
  | inl over ↦ ground (arith, e, over)
  | inr going ↦ elim (Bool-cases (rows == 0 || ltb rows profile.page_size)) [
    | inl last ↦ ground (arith, e, going, last)
    | inr more ↦
        rw (going, more, run, advance_by_count)
          (move_to-IsTurn s profile.page_increment page
            (next_page s.current_page profile.page_increment) going h (λ q found. found)
            (ground (arith, e, going, more)))
  ]
]

abbrev pub has_moved : Advanced → Bool
has_moved (moved page) = true
has_moved _ = false

move_to-over :
    (s : State) (o : Option ℕ)
    → has_moved (move_to s o).1 ≡ false
    → ((move_to s o).0.failed || (move_to s o).0.exhausted) ≡ true
move_to-over s none e = refl
move_to-over s (some page) e = ground (arith, e)

or_true : (b : Bool) → (b || true) ≡ true
or_true true = refl
or_true false = refl

transition-over :
    (s : State) (profile : Profile) (found : Selected) (malformed_after : Bool)
    → has_moved (transition s profile found malformed_after).1 ≡ false
    → ((transition s profile found malformed_after).0.failed
        || (transition s profile found malformed_after).0.exhausted)
      ≡ true
unfolding transition
transition-over s profile twice malformed_after e = refl
transition-over s profile no_next true e = refl
transition-over s profile no_next false e = or_true s.failed
transition-over s profile (next_target target) true e = refl
transition-over s profile (next_target target) false e =
    move_to-over s (validate_next_target target s.current_page profile) e

-- A call that does not move, whether it ends the pages or fails, is the last that could: the state
-- that it leaves is over.
pub run-over :
    (s : State) (profile : Profile) (op : Op)
    → has_moved (run s profile op).1 ≡ false
    → ((run s profile op).0.failed || (run s profile op).0.exhausted) ≡ true
unfolding run advance advance_body advance_by_count
run-over s profile (by_header visits) e = elim (Bool-cases (s.failed || s.exhausted)) [
  | inl over ↦ rw (over, run, advance) over
  | inr going ↦
      rw (going, run, advance)
        (transition-over s profile (select_next no_next visits.values) visits.malformed_after
          (ground (arith, e, going)))
]
run-over s profile (by_body next_url) e = elim (Bool-cases (s.failed || s.exhausted)) [
  | inl over ↦ rw (over, run, advance_body) over
  | inr going ↦ elim (Bool-cases (is_empty next_url)) [
    | inl last ↦ rw (going, last, run, advance_body) (or_true s.failed)
    | inr more ↦
        rw (going, more, run, advance_body)
          (move_to-over s (validate_next_target next_url s.current_page profile)
            (ground (arith, e, going, more)))
  ]
]
run-over s profile (by_count rows) e = elim (Bool-cases (s.failed || s.exhausted)) [
  | inl over ↦ rw (over, run, advance_by_count) over
  | inr going ↦ elim (Bool-cases (rows == 0 || ltb rows profile.page_size)) [
    | inl last ↦ rw (going, last, run, advance_by_count) (or_true s.failed)
    | inr more ↦
        rw (going, more, run, advance_by_count)
          (move_to-over s (next_page s.current_page profile.page_increment)
            (ground (arith, e, going, more)))
  ]
]
