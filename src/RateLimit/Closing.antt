-- ===== src/RateLimit/Closing.antt =====
-- The end of a coordinator: its terminal status, and what is left of its table.
use duckdb_fdw.Base.{
  ℕ, ◌≡◌, refl, sym, ap, ◌∙◌, inl, inr, false, List, [], ◌∷◌, arith, if◌then◌else◌, weigh-nil,
  Option-cases,
}
use duckdb_fdw.RateLimit.Table.{find, total, AllOf}
use duckdb_fdw.RateLimit.Key.{QuotaBucketKey, same_key, same_key_iff, bucket_key}
use duckdb_fdw.RateLimit.Coordinator.{
  Limits, Bucket, Coordinator, is_open, put_back, erase_ticket, enter_terminal,
  extend_eligible_time, complete,
}
use duckdb_fdw.RateLimit.Sections.{load, acquire, requeue, wait_turn, wait_fault, close}
use duckdb_fdw.RateLimit.Invariant.{IsGood, holds, permits_of}
use duckdb_fdw.RateLimit.Steps.{
  System, Step, acquires, turns, faults, requeues, completes, extends, closes, Reach,
  coordinator-Inv,
}

no_buckets :
    (next limit : ℕ) (es : List (QuotaBucketKey × Bucket))
    → AllOf (IsGood next limit false) es
    → ((key : QuotaBucketKey) → permits_of (find key es) ≡ 0)
    → es ≡ []
unfolding find
no_buckets next limit [] a free = refl
no_buckets next limit ((key, b) ∷ es) a free =
    ground (arith, a.0.queue.cleared, a.0.live, free key, (same_key_iff key key).1 refl)

-- A closed coordinator whose callers hold no permit keeps nothing: its table is empty and its count of
-- waiters is zero.
pub closed-empty :
    (limits : Limits) (initial_ticket : ℕ) (a : System)
    → Reach limits initial_ticket a
    → is_open a.shared.terminal_status ≡ false
    → a.permits ≡ []
    → (a.shared.buckets ≡ []) × (a.shared.total_waiters ≡ 0)
closed-empty limits initial_ticket a reach closed idle =
    let v = coordinator-Inv limits initial_ticket a reach in
    let w : QuotaBucketKey → QuotaBucketKey → ℕ = λ key i. if same_key i key then 1 else 0 in
    let free : (key : QuotaBucketKey) → permits_of (find key a.shared.buckets) ≡ 0 =
      λ key. sym (v.held key) ∙ ap (holds key) idle ∙ weigh-nil (w key) in
    let none_left =
      no_buckets a.shared.next_ticket a.shared.limits.waiters_per_key a.shared.buckets
        (rw (sym closed) v.good) free in
    (
      none_left,
      v.counted ∙ ap (total load) none_left ∙ weigh-nil (λ (e : QuotaBucketKey × Bucket). load e.1),
    )

-- The status and the ticket counter of two states are the same.
abbrev pub SameEnd : Coordinator → Coordinator → Type 0
SameEnd s t = (t.terminal_status ≡ s.terminal_status) × (t.next_ticket ≡ s.next_ticket)

erase_ticket-SameEnd :
    (s : Coordinator) (key : QuotaBucketKey) (b : Bucket) (ticket : ℕ)
    → SameEnd s (erase_ticket s key b ticket)
unfolding erase_ticket put_back
erase_ticket-SameEnd s key b ticket = ground arith

wait_fault-SameEnd :
    (s : Coordinator) (key : QuotaBucketKey) (ticket : ℕ) → SameEnd s (wait_fault s key ticket)
unfolding wait_fault
wait_fault-SameEnd s key ticket = elim (Option-cases (find key s.buckets)) [
  | inl absent ↦ rw (absent, wait_fault) (refl, refl)
  | inr (b, found) ↦ rw (found, wait_fault) (erase_ticket-SameEnd s key b ticket)
]

complete-SameEnd : (s : Coordinator) (key : QuotaBucketKey) → SameEnd s (complete s key)
unfolding complete put_back
complete-SameEnd s key = elim (Option-cases (find key s.buckets)) [
  | inl absent ↦ rw (absent, complete) (refl, refl)
  | inr (b, found) ↦ rw (found, complete) (ground arith)
]

extend_eligible_time-SameEnd :
    (s : Coordinator) (key : QuotaBucketKey) (eligible : ℕ)
    → SameEnd s (extend_eligible_time s key eligible).0
unfolding extend_eligible_time
extend_eligible_time-SameEnd s key eligible = elim (Option-cases (find key s.buckets)) [
  | inl absent ↦ rw (absent, extend_eligible_time) (refl, refl)
  | inr (b, found) ↦ rw (found, extend_eligible_time) (ground arith)
]

-- Once the coordinator has a terminal status no section changes it or issues a ticket.
pub Step-SameEnd :
    (a b : System) → Step a b → is_open a.shared.terminal_status ≡ false → SameEnd a.shared b.shared
unfolding acquire wait_turn requeue enter_terminal close
Step-SameEnd _ _ (acquires s permits key eligible deadline cancels r) closed =
    rw (closed, acquire) (refl, refl)
Step-SameEnd _ _ (turns s permits key ticket deadline r) closed =
    rw (closed, wait_turn) (refl, refl)
Step-SameEnd _ _ (faults s permits key ticket) closed = wait_fault-SameEnd s key ticket
Step-SameEnd _ _ (requeues s xs ys key eligible deadline cancels r) closed =
    rw (closed, requeue) (refl, refl)
Step-SameEnd _ _ (completes s xs ys key) closed = complete-SameEnd s key
Step-SameEnd _ _ (extends s xs ys key eligible) closed = extend_eligible_time-SameEnd s key eligible
Step-SameEnd _ _ (closes s permits) closed = rw (closed, enter_terminal) (refl, refl)
