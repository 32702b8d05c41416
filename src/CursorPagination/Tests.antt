-- ===== src/CursorPagination/Tests.antt =====
-- The theorems of the cursor traversal at concrete inputs.
use duckdb_fdw.Base.{◌≡◌, refl, true, false, List, [], ◌∷◌}
use duckdb_fdw.CursorPagination.{CursorState, ok, create, Op, mark, advances, run_all}
use duckdb_fdw.CursorPagination.Laws.{IsSound, cursors-IsSound}

abbrev start : CursorState
start = record {
  max_pages = 3;
  max_cursor_bytes = 8;
  requested_pages = 0;
  exhausted = false;
  failed = false;
  seen = [];
}

made : create 3 8 ≡ ok start
unfolding create
made = refl

-- Two pages, the second with the cursor of the first: that is refused.
abbrev repeating : List Op
repeating = mark ∷ advances true (b'a' ∷ b'b' ∷ []) ∷ mark ∷ advances true (b'a' ∷ b'b' ∷ []) ∷ []

cursors-IsSound_example : IsSound (run_all start repeating)
cursors-IsSound_example = cursors-IsSound 3 8 repeating made
