-- ===== src/CursorPagination/Laws.antt =====
-- What the cursors of a traversal satisfy.
use duckdb_fdw.Base.{
  ℕ, ◌+◌, ◌≤◌, ◌≡◌, refl, ◌∙◌, Bool, true, false, ◌&&◌, ◌||◌, not, none, List, [], ◌∷◌, ◌++◌, ◌==◌,
  ltb, leb, if◌then◌else◌, length, length-append, All, All-append, arith,
}
use duckdb_fdw.CursorPagination.{
  ErrorKind, CursorState, ok, Run, create, release, fail, reject, current_cursor,
  mark_request_started, same_text, is_seen, is_missing, advance, Op, mark, abandon, drop, advances,
  run_op, run_all,
}

-- No cursor stands twice.
unfoldable pub distinct : List (List ℕ) → Bool
distinct [] = true
distinct (c ∷ cs) = not (is_seen c cs) && distinct cs

abbrev pub IsBounded : ℕ → List ℕ → Type 0
IsBounded limit cursor = (is_missing cursor ≡ false) × (length cursor ≤ limit)

same_text_sym : (a b : List ℕ) → same_text a b ≡ same_text b a
unfolding same_text
same_text_sym [] [] = refl
same_text_sym [] (b ∷ bs) = refl
same_text_sym (a ∷ as') [] = refl
same_text_sym (a ∷ as') (b ∷ bs) = ground (arith, same_text_sym as' bs)

is_seen-snoc :
    (x c : List ℕ) (cs : List (List ℕ)) → is_seen x (cs ++ c ∷ []) ≡ (is_seen x cs || same_text c x)
unfolding is_seen
is_seen-snoc x c [] = ground arith
is_seen-snoc x c (d ∷ cs) = ground (arith, is_seen-snoc x c cs)

distinct-snoc :
    (cs : List (List ℕ)) (c : List ℕ)
    → distinct cs ≡ true
    → is_seen c cs ≡ false
    → distinct (cs ++ c ∷ []) ≡ true
unfolding distinct is_seen
distinct-snoc [] c d n = refl
distinct-snoc (x ∷ cs) c d n =
    ground (arith, distinct-snoc cs c, is_seen-snoc x c cs, same_text_sym x c)

-- The pages requested are within the authority; the cursors held are nonempty, within the byte
-- limit, 32 at most and none twice; a traversal that has ended or failed holds none.
pub record IsSound (s : CursorState) : Type 0 where
  pub pages : s.requested_pages ≤ s.max_pages
  pub limits : (s.max_pages ≤ 32) × (s.max_cursor_bytes ≤ 512)
  pub room : length s.seen ≤ 32
  pub bounded : All (IsBounded s.max_cursor_bytes) s.seen
  pub unseen : distinct s.seen ≡ true
  pub ended : (s.failed || s.exhausted) ≡ true → s.seen ≡ []

emptied :
    (s t : CursorState)
    → IsSound s
    → t.seen ≡ []
    → t.requested_pages ≡ s.requested_pages
    → t.max_pages ≡ s.max_pages
    → t.max_cursor_bytes ≡ s.max_cursor_bytes
    → IsSound t
unfolding distinct
emptied s t v none_left same_requests same_pages same_bytes = record {
  pages = omega (arith, v.pages);
  limits = ground (arith, v.limits);
  room = rw none_left (omega arith);
  bounded = rw none_left tt;
  unseen = rw none_left refl;
  ended = λ e. none_left;
}

record Leaves (r : Run) : Type 0 where
  left : IsSound r.0

Leaves-if :
    (b : Bool) (x y : Run)
    → (b ≡ true → Leaves x)
    → (b ≡ false → Leaves y)
    → Leaves (if b then x else y)
Leaves-if true x y p q = p refl
Leaves-if false x y p q = q refl

module _ (s : CursorState) (v : IsSound s) where
  release-IsSound : IsSound (release s)
  unfolding release
  release-IsSound = emptied s _ v refl refl refl refl

  fail-IsSound : IsSound (fail s)
  unfolding fail release
  fail-IsSound = emptied s _ v refl refl refl refl

  rejects : (kind : ErrorKind) → Leaves (reject s kind)
  unfolding reject
  rejects kind = record { left = fail-IsSound }

  requests :
      (s.failed || s.exhausted || leb s.max_pages s.requested_pages) ≡ false
      → Leaves (record s { requested_pages = s.requested_pages + 1 }, ok tt)
  requests e = record {
    left = record {
      pages = ground arith;
      limits = v.limits;
      room = v.room;
      bounded = v.bounded;
      unseen = v.unseen;
      ended = v.ended;
    };
  }

  mark-Leaves : Leaves (mark_request_started s)
  unfolding mark_request_started
  mark-Leaves = search (Leaves-if, rejects, requests) depth 6

  exhausts : Leaves (release (record s { exhausted = true }), ok tt)
  unfolding release
  exhausts = record { left = emptied s _ v refl refl refl refl }

  continues :
      (c : List ℕ)
      → (s.failed || s.exhausted || s.requested_pages == 0) ≡ false
      → is_missing c ≡ false
      → ltb s.max_cursor_bytes (length c) ≡ false
      → is_seen c s.seen ≡ false
      → leb 32 (length s.seen) ≡ false
      → Leaves (record s { seen = s.seen ++ c ∷ [] }, ok tt)
  continues c going present short new room = record {
    left = record {
      pages = v.pages;
      limits = v.limits;
      room = ground (arith, length-append s.seen (c ∷ []));
      bounded =
          All-append (IsBounded s.max_cursor_bytes) s.seen (c ∷ []) v.bounded
            ((present, ground arith), tt);
      unseen = distinct-snoc s.seen c v.unseen new;
      ended = λ e. ground arith;
    };
  }

  advance-Leaves : (has_next : Bool) (c : List ℕ) → Leaves (advance s has_next c)
  unfolding advance
  advance-Leaves has_next c = search (Leaves-if, rejects, exhausts, continues) depth 10

run_op-IsSound : (s : CursorState) (o : Op) → IsSound s → IsSound (run_op s o)
unfolding run_op
run_op-IsSound s mark v = (mark-Leaves s v).left
run_op-IsSound s abandon v = fail-IsSound s v
run_op-IsSound s drop v = release-IsSound s v
run_op-IsSound s (advances has_next c) v = (advance-Leaves s v has_next c).left

run_all-IsSound : (s : CursorState) (os : List Op) → IsSound s → IsSound (run_all s os)
unfolding run_all
run_all-IsSound s [] v = v
run_all-IsSound s (o ∷ os) v = run_all-IsSound (run_op s o) os (run_op-IsSound s o v)

create_ok :
    (max_pages max_cursor_bytes : ℕ) {s : CursorState}
    → create max_pages max_cursor_bytes ≡ ok s
    → (s.seen ≡ []) × (s.requested_pages ≡ 0) × (s.max_pages ≤ 32) × (s.max_cursor_bytes ≤ 512)
unfolding create
create_ok max_pages max_cursor_bytes e = ground arith

create-IsSound :
    (max_pages max_cursor_bytes : ℕ) {s : CursorState}
    → create max_pages max_cursor_bytes ≡ ok s
    → IsSound s
unfolding distinct
create-IsSound max_pages max_cursor_bytes e =
    let c = create_ok max_pages max_cursor_bytes e in
    record {
      pages = omega (arith, c.1);
      limits = (c.2, c.3);
      room = rw (c.0) (omega arith);
      bounded = rw (c.0) tt;
      unseen = rw (c.0) refl;
      ended = λ x. c.0;
    }

-- From the constructor on, whatever methods are called in whatever order: no more pages are
-- requested than allowed, the cursors held are nonempty, within their byte limit, at most 32 and
-- none twice, and a traversal that ended or failed holds none.
pub cursors-IsSound :
    (max_pages max_cursor_bytes : ℕ) (os : List Op) {s : CursorState}
    → create max_pages max_cursor_bytes ≡ ok s
    → IsSound (run_all s os)
cursors-IsSound max_pages max_cursor_bytes os {s} e =
    run_all-IsSound s os (create-IsSound max_pages max_cursor_bytes e)

is_over : CursorState → Bool
is_over s = s.failed || s.exhausted

over-run_op : (s : CursorState) (o : Op) → is_over s ≡ true → is_over (run_op s o) ≡ true
unfolding run_op is_over mark_request_started advance fail reject release
over-run_op s mark e = ground arith
over-run_op s abandon e = ground arith
over-run_op s drop e = ground arith
over-run_op s (advances has_next c) e = ground arith

-- A traversal that ended or failed requests no page any more, and has no current cursor.
pub over_is_final :
    (s : CursorState) (os : List Op)
    → (s.failed || s.exhausted) ≡ true
    → ((run_all s os).requested_pages ≡ s.requested_pages) × (current_cursor (run_all s os) ≡ none)
unfolding run_all is_over current_cursor run_op mark_request_started advance fail reject release
over_is_final s [] e = ground arith
over_is_final s (o ∷ os) e =
    let r = over_is_final (run_op s o) os (over-run_op s o e) in (r.0 ∙ requested s o e, r.1)
  where
    requested :
        (s : CursorState) (o : Op)
        → (s.failed || s.exhausted) ≡ true
        → (run_op s o).requested_pages ≡ s.requested_pages
    requested s mark e = ground arith
    requested s abandon e = ground arith
    requested s drop e = ground arith
    requested s (advances has_next c) e = ground arith
