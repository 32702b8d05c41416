-- ===== src/RateLimit/Sections.antt =====
-- The critical sections that wait for a permit, from
-- src/runtime/execution/rate_limit_coordinator.cpp, and `Close`. What a section reads from the clock
-- and from the caller's cancellation is an argument; the loop of `WaitForTicket` is `wait_turn`, one
-- call for each time that the caller holds the mutex between waits.
use duckdb_fdw.Base.{
  ℕ, ◌+◌, ◌-◌, ◌%◌, Bool, true, false, ◌&&◌, ◌||◌, not, none, some, List, [], ◌∷◌, ◌++◌, min, max,
  ◌==◌, ltb, leb, if◌then◌else◌, length, u64_mod, int64_max,
}
use duckdb_fdw.RateLimit.Table.{find, replace}
use duckdb_fdw.RateLimit.Key.{QuotaBucketKey, bucket_key}
use duckdb_fdw.RateLimit.Coordinator.{
  Status, Bucket, Coordinator, is_open, erase_ticket, enter_terminal,
}

-- How a critical section ends: with a status, with the permit, with a sleep before the next turn of
-- the ticket, with the lock given up before `permit->Complete()` and the return of a status, or with
-- the std::logic_error of `Requeue`.
pub data Outcome : Type 0 where
  ended : Status → Outcome
  permitted_at : QuotaBucketKey → Outcome
  waits : ℕ → ℕ → Outcome
  gives_up : Status → Outcome
  lost_authority : Outcome

pub record Turn : Type 0 where
  pub cancelled : Bool
  pub now : ℕ

-- `WaitSlice`.
unfoldable pub wait_slice : ℕ → ℕ → ℕ → ℕ
wait_slice now target maximum_slice =
    if leb target now
    then 0
    else if leb now (int64_max - maximum_slice) && ltb (now + maximum_slice) target
    then maximum_slice
    else target - now

abbrev pub is_front : ℕ → List ℕ → Bool
is_front ticket [] = false
is_front ticket (t ∷ ts) = t == ticket

abbrev pub pop_front : List ℕ → List ℕ
pop_front [] = []
pop_front (t ∷ ts) = ts

-- The ticket gets the permit of its key in this turn.
abbrev pub gets_permit : Bucket → ℕ → ℕ → ℕ → Bool
gets_permit b ticket deadline now =
    not b.permitted && is_front ticket b.tickets && leb b.eligible now && leb now deadline

unfoldable pub wait_at :
    Coordinator → QuotaBucketKey → Bucket → ℕ → ℕ → Turn → Coordinator × Outcome
wait_at s key b ticket deadline r =
    if r.cancelled
    then (erase_ticket s key b ticket, ended Status.cancelled)
    else if gets_permit b ticket deadline r.now
    then (
      record s {
        buckets =
            replace key (record b { permitted = true; tickets = pop_front b.tickets }) s.buckets;
      },
      permitted_at key,
    )
    else if leb deadline r.now || ltb deadline b.eligible
    then (erase_ticket s key b ticket, ended Status.deadline_reached)
    else (
      s,
      waits ticket (
          wait_slice r.now (if ltb r.now b.eligible then min b.eligible deadline else deadline)
            s.limits.interrupt_slice_milliseconds),
    )

-- One turn of the loop of `WaitForTicket`.
unfoldable pub wait_turn : Coordinator → QuotaBucketKey → ℕ → ℕ → Turn → Coordinator × Outcome
wait_turn s key ticket deadline r =
    if not (is_open s.terminal_status)
    then (s, ended s.terminal_status)
    else elim (find key s.buckets) [
      | none ↦ (s, ended Status.scheduler_closed)
      | some b ↦ wait_at s key b ticket deadline r
    ]

-- The handler of an exception in the loop.
unfoldable pub wait_fault : Coordinator → QuotaBucketKey → ℕ → Coordinator
wait_fault s key ticket = elim (find key s.buckets) [
  | none ↦ s
  | some b ↦ erase_ticket s key b ticket
]

abbrev pub load : Bucket → ℕ
load b = length b.tickets + (if b.permitted then 1 else 0)

abbrev pub with_ticket : Coordinator → List (QuotaBucketKey × Bucket) → ℕ → Coordinator
with_ticket s buckets waiters = record s {
  next_ticket = s.next_ticket + 1;
  total_waiters = waiters;
  buckets = buckets;
}

-- `Acquire` at a key that has a bucket, its embargo extended.
unfoldable pub acquire_known :
    Coordinator → QuotaBucketKey → Bucket → ℕ → Turn → Coordinator × Outcome
acquire_known s key b deadline r =
    if leb s.limits.waiters_per_key (load b) || leb s.limits.total_waiters s.total_waiters
    then (s, ended Status.queue_saturated)
    else if s.next_ticket == u64_mod - 1
    then (enter_terminal s Status.ticket_exhausted, ended Status.ticket_exhausted)
    else wait_turn
        (with_ticket s
          (replace key (record b { tickets = b.tickets ++ s.next_ticket ∷ [] }) s.buckets)
          ((s.total_waiters + 1) % u64_mod))
        key s.next_ticket deadline r

abbrev pub new_bucket : ℕ → ℕ → Bucket
new_bucket eligible ticket = record {
  eligible = eligible;
  permitted = false;
  tickets = ticket ∷ [];
}

-- `Acquire` at a key that has none.
unfoldable pub acquire_new : Coordinator → QuotaBucketKey → ℕ → ℕ → Turn → Coordinator × Outcome
acquire_new s key eligible deadline r =
    if s.limits.waiters_per_key == 0 || leb s.limits.total_waiters s.total_waiters
    then (s, ended Status.queue_saturated)
    else if s.next_ticket == u64_mod - 1
    then (enter_terminal s Status.ticket_exhausted, ended Status.ticket_exhausted)
    else wait_turn
        (with_ticket s ((key, new_bucket eligible s.next_ticket) ∷ s.buckets)
          ((s.total_waiters + 1) % u64_mod))
        key s.next_ticket deadline r

abbrev pub extended : Bucket → ℕ → Bucket
extended b eligible = record b { eligible = max b.eligible eligible }

-- `Acquire` up to its first wait. The permit that it fills is empty.
unfoldable pub acquire : Coordinator → QuotaBucketKey → ℕ → ℕ → Bool → Turn → Coordinator × Outcome
acquire s key eligible deadline cancels r =
    if not (is_open s.terminal_status)
    then (s, ended s.terminal_status)
    else if cancels
    then (s, ended Status.cancelled)
    else elim (find key s.buckets) [
      | none ↦ acquire_new s key eligible deadline r
      | some b ↦
          acquire_known (record s { buckets = replace key (extended b eligible) s.buckets }) key
            (extended b eligible) deadline r
    ]

-- `Requeue` of a permit of this coordinator, at the bucket of its key, its embargo extended.
unfoldable pub requeue_at : Coordinator → QuotaBucketKey → Bucket → ℕ → Turn → Coordinator × Outcome
requeue_at s key b deadline r =
    if s.next_ticket == u64_mod - 1
    then (enter_terminal s Status.ticket_exhausted, gives_up Status.ticket_exhausted)
    else wait_turn
        (with_ticket s
          (replace key (record b { permitted = false; tickets = b.tickets ++ s.next_ticket ∷ [] })
            s.buckets)
          s.total_waiters)
        key s.next_ticket deadline r

unfoldable pub requeue : Coordinator → QuotaBucketKey → ℕ → ℕ → Bool → Turn → Coordinator × Outcome
requeue s key eligible deadline cancels r =
    if not (is_open s.terminal_status) || cancels
    then (s, gives_up (if is_open s.terminal_status then Status.cancelled else s.terminal_status))
    else elim (find key s.buckets) [
      | none ↦ (s, lost_authority)
      | some b ↦
          if not b.permitted
          then (s, lost_authority)
          else requeue_at (record s { buckets = replace key (extended b eligible) s.buckets }) key
              (extended b eligible) deadline r
    ]

unfoldable pub close : Coordinator → Coordinator
close s = enter_terminal s Status.scheduler_closed

abbrev pub is_closed : Coordinator → Bool
is_closed s = not (is_open s.terminal_status)
