-- ===== src/CursorPagination.antt =====
-- `GraphqlCursorState` of src/runtime/pagination/graphql_cursor_pagination.cpp and its header
-- src/include/duckdb_api/internal/runtime/pagination/graphql_cursor_pagination.hpp. A cursor is the
-- list of its bytes; `seen` holds the `seen_count` slots in use, the latest last.
pub mod Laws
mod Tests
use duckdb_fdw.Base.{
  ℕ, ◌+◌, ◌≡◌, Bool, true, false, ◌&&◌, ◌||◌, not, Option, none, some, List, [], ◌∷◌, ◌++◌, ◌==◌,
  ltb, leb, if◌then◌else◌, length,
}

pub data ErrorKind : Type 0 where
  profile resource_budget protocol : ErrorKind

pub record CursorState : Type 0 where
  pub max_pages : ℕ
  pub max_cursor_bytes : ℕ
  pub requested_pages : ℕ
  pub exhausted : Bool
  pub failed : Bool
  pub seen : List (List ℕ)

pub data Result {ℓ} (A : Type ℓ) : Type ℓ where
  ok : A → Result A
  error : ErrorKind → Result A

abbrev pub Run : Type 0
Run = CursorState × Result (Unit {0})

unfoldable pub create : ℕ → ℕ → Result CursorState
create max_pages max_cursor_bytes =
    if max_pages == 0 || ltb 32 max_pages || max_cursor_bytes == 0 || ltb 512 max_cursor_bytes
    then error ErrorKind.profile
    else ok (record {
      max_pages = max_pages;
      max_cursor_bytes = max_cursor_bytes;
      requested_pages = 0;
      exhausted = false;
      failed = false;
      seen = [];
    })

unfoldable pub release : CursorState → CursorState
release s = record s { seen = [] }

-- `Fail`, and `Reject` up to its throw.
unfoldable pub fail : CursorState → CursorState
fail s = release (record s { failed = true })

unfoldable pub reject : CursorState → ErrorKind → Run
reject s kind = (fail s, error kind)

unfoldable pub last : List (List ℕ) → Option (List ℕ)
last [] = none
last (c ∷ []) = some c
last (c ∷ d ∷ cs) = last (d ∷ cs)

unfoldable pub current_cursor : CursorState → Option (List ℕ)
current_cursor s = if s.exhausted || s.failed then none else last s.seen

unfoldable pub mark_request_started : CursorState → Run
mark_request_started s =
    if s.failed || s.exhausted || leb s.max_pages s.requested_pages
    then reject s ErrorKind.resource_budget
    else (record s { requested_pages = s.requested_pages + 1 }, ok tt)

-- `==` of two strings.
unfoldable pub same_text : List ℕ → List ℕ → Bool
same_text [] [] = true
same_text (a ∷ as') (b ∷ bs) = a == b && same_text as' bs
same_text _ _ = false

-- The loop over `seen`.
unfoldable pub is_seen : List ℕ → List (List ℕ) → Bool
is_seen cursor [] = false
is_seen cursor (c ∷ cs) = same_text c cursor || is_seen cursor cs

unfoldable pub is_missing : List ℕ → Bool
is_missing [] = true
is_missing (b ∷ bs) = false

unfoldable pub advance : CursorState → Bool → List ℕ → Run
advance s has_next end_cursor =
    if s.failed || s.exhausted || s.requested_pages == 0
    then reject s ErrorKind.protocol
    else if not has_next
    then (release (record s { exhausted = true }), ok tt)
    else if is_missing end_cursor
    then reject s ErrorKind.protocol
    else if ltb s.max_cursor_bytes (length end_cursor)
    then reject s ErrorKind.resource_budget
    else if is_seen end_cursor s.seen
    then reject s ErrorKind.protocol
    else if leb 32 (length s.seen)
    then reject s ErrorKind.resource_budget
    else (record s { seen = s.seen ++ end_cursor ∷ [] }, ok tt)

-- The methods that change the state.
pub data Op : Type 0 where
  mark abandon drop : Op
  advances : Bool → List ℕ → Op

unfoldable pub run_op : CursorState → Op → CursorState
run_op s mark = (mark_request_started s).0
run_op s abandon = fail s
run_op s drop = release s
run_op s (advances has_next end_cursor) = (advance s has_next end_cursor).0

unfoldable pub run_all : CursorState → List Op → CursorState
run_all s [] = s
run_all s (o ∷ os) = run_all (run_op s o) os
