-- ===== src/Admission/Acquire.antt =====
-- The operations of `AdmissionController` in src/runtime/execution/admission_controller.cpp. Each
-- function is one critical section of the mutex. What a section reads from the clock and from the
-- caller's cancellation is an argument; allocations succeed, and the injected hook's exception is
-- `claim_fault`. The loop of `AcquireQueued` is `take_turn`, one call for each time that the
-- caller holds the mutex between waits.
pub mod Invariant
pub mod Behaviour
pub mod Closing
pub mod Leaving
pub mod HardLimits
use duckdb_fdw.Base.{
  ℕ, ◌+◌, ◌-◌, ◌%◌, Bool, true, false, ◌&&◌, ◌||◌, not, Option, none, some, List, [], ◌∷◌, ◌++◌,
  min, ◌==◌, ltb, leb, if◌then◌else◌, u64_mod,
}
use duckdb_fdw.Admission.Identity.{Hasher, Identity}
use duckdb_fdw.Admission.Usage.{
  Reason, Observation, empty_observation, Counters, check_fits, add_usage, subtract_usage,
}
use duckdb_fdw.Admission.Profile.{
  ResourceKind, QueueKind, Profile, resource_index, resource_limits, queue_limits, saturated_reason,
  timeout_reason,
}
use duckdb_fdw.Admission.Controller.{
  WaitPolicy, Ticket, PermitHandle, SharedState, same_resource, set_resource, set_queue, is_open,
  has_scope, accounted_wait, wait_slice, grant_eligible, TicketId, find_ticket, erase_ticket,
  remove_ticket,
}

pub data Status : Type 0 where
  acquired rejected cancelled scan_deadline_reached : Status

-- How a critical section of an acquisition ends.
pub data Outcome : Type 0 where
  invalid_argument unknown_ticket faulted : Outcome
  finished : Status → Observation → Outcome
  permitted : PermitHandle → Observation → Outcome
  waiting : TicketId → ℕ → Outcome

-- `queue` is none for QueueKind::NONE, `permit_held` is `permit->IsValid()`.
pub record Request : Type 0 where
  pub resource : ResourceKind
  pub queue : Option QueueKind
  pub identity : Identity
  pub wait : WaitPolicy
  pub permit_held : Bool

-- What one pass of the waiting loop reads: `ended` for the wait of a caller that leaves, `now` for
-- the deadlines, `granting` inside `GrantEligibleLocked`.
pub record Turn : Type 0 where
  pub ended : ℕ
  pub cancelled : Bool
  pub now : ℕ
  pub granting : ℕ

pub record Entry : Type 0 where
  pub cancelled : Bool
  pub evaluated : ℕ
  pub started : ℕ
  pub granting : ℕ
  pub turn : Turn

abbrev pub permit_of : Ticket → PermitHandle
permit_of t = record { resource = t.resource; identity = t.identity; amount = 1 }

abbrev waited : Observation → Ticket → ℕ → Observation
waited o t ended = record o { waited_milliseconds = accounted_wait t ended }

-- How long a caller that goes on waiting sleeps.
unfoldable pub next_slice : Profile → Ticket → ℕ → ℕ
next_slice profile t now =
    let deadline =
      if t.wait.has_scan_deadline
      then min t.wait.queue_deadline_milliseconds t.wait.scan_deadline_milliseconds
      else t.wait.queue_deadline_milliseconds in
    wait_slice now
      (if t.wait.has_aggregate_deadline
        then min deadline t.wait.aggregate_deadline_milliseconds
        else deadline)
      profile.interrupt_slice_milliseconds

-- `ticket->granted`: the authority of the ticket becomes a permit.
unfoldable pub claim : SharedState → TicketId → Ticket → SharedState × Outcome
claim s id t = (
  record s { granted = erase_ticket id s.granted },
  permitted (permit_of t) (waited empty_observation t t.granted_at),
)

-- The injected hook throws before the permit is made: the capacity goes back.
unfoldable pub claim_fault : Hasher → SharedState → TicketId → ℕ → SharedState × Outcome
claim_fault h s id granting = elim (find_ticket id s.granted) [
  | none ↦ (s, unknown_ticket)
  | some t ↦ (
    grant_eligible h
        (record s {
          resources =
              set_resource s.resources t.resource
                (subtract_usage h (s.resources t.resource) t.identity 1);
          granted = erase_ticket id s.granted;
        })
        t.resource granting,
    faulted,
  )
]

-- After `GrantEligibleLocked`: claim, or go on waiting.
unfoldable pub after_grant : SharedState → TicketId → Ticket → ℕ → SharedState × Outcome
after_grant s id t now = elim (find_ticket id s.granted) [
  | none ↦ (s, waiting id (next_slice s.profile t now))
  | some t' ↦ claim s id t'
]

-- One pass of the loop for a ticket that is not granted.
unfoldable pub wait_turn : Hasher → SharedState → TicketId → Ticket → Turn → SharedState × Outcome
wait_turn h s id t r =
    if not (is_open s.terminal_reason)
    then (
      remove_ticket h s id,
      finished rejected
          (waited (record empty_observation { reason = s.terminal_reason }) t r.ended),
    )
    else if r.cancelled
    then (remove_ticket h s id, finished cancelled (waited empty_observation t r.ended))
    else if t.wait.has_scan_deadline && leb t.wait.scan_deadline_milliseconds r.now
    then (remove_ticket h s id, finished scan_deadline_reached (waited empty_observation t r.now))
    else if t.wait.has_aggregate_deadline && leb t.wait.aggregate_deadline_milliseconds r.now
    then (
      remove_ticket h s id,
      finished rejected
          (waited (record t.last_blocking { reason = Reason.admission_waiting_exhausted }) t r.now),
    )
    else if leb t.wait.queue_deadline_milliseconds r.now
    then (
      remove_ticket h s id,
      finished rejected
          (waited (record t.last_blocking { reason = timeout_reason t.queue }) t r.now),
    )
    else after_grant (grant_eligible h s t.resource r.granting) id t r.now

unfoldable pub take_turn : Hasher → SharedState → TicketId → Turn → SharedState × Outcome
take_turn h s id r = elim (find_ticket id s.granted) [
  | some t ↦ claim s id t
  | none ↦ elim (find_ticket id s.tickets) [
    | some t ↦ wait_turn h s id t r
    | none ↦ (s, unknown_ticket)
  ]
]

unfoldable pub any_queued : ResourceKind → List Ticket → Bool
any_queued resource [] = false
any_queued resource (t ∷ ts) = same_resource t.resource resource || any_queued resource ts

abbrev pub ticket_exhausted : SharedState → SharedState
ticket_exhausted s = record s { terminal_reason = Reason.ticket_exhausted }

-- std::make_shared<SharedState::Ticket>(...)
abbrev pub new_ticket : SharedState → Request → QueueKind → Observation → ℕ → Ticket
new_ticket s q queue blocking started = record {
  resource = q.resource;
  queue = queue;
  identity = q.identity;
  ordinal = s.next_ticket queue;
  wait = q.wait;
  started = started;
  granted_at = started;
  last_blocking = blocking;
}

-- The new ticket at the tail, its queue charged.
unfoldable pub enqueue : Hasher → SharedState → Request → QueueKind → Observation → ℕ → SharedState
enqueue h s q queue blocking started = record s {
  next_ticket = set_queue s.next_ticket queue ((s.next_ticket queue + 1) % u64_mod);
  queues = set_queue s.queues queue (add_usage h (s.queues queue) q.identity 1);
  tickets = s.tickets ++ new_ticket s q queue blocking started ∷ [];
}

-- No capacity at once, or others wait for the same resource: the caller queues.
unfoldable pub queue_up :
    Hasher → SharedState → Request → QueueKind → Observation → Entry → SharedState × Outcome
queue_up h s q queue blocking e =
    let full = check_fits h (s.queues queue) q.identity 1 (queue_limits s.profile queue) in
    if has_scope full
    then (s, finished rejected (record full { reason = saturated_reason queue }))
    else if s.next_ticket queue == u64_mod - 1
    then (
      ticket_exhausted s,
      finished rejected (record empty_observation { reason = Reason.ticket_exhausted }),
    )
    else take_turn h
        (grant_eligible h (enqueue h s q queue blocking e.started) q.resource e.granting)
        (queue, s.next_ticket queue) e.turn

unfoldable pub acquire_now : Hasher → SharedState → Request → SharedState × Outcome
acquire_now h s q = (
  record s {
    resources =
        set_resource s.resources q.resource (add_usage h (s.resources q.resource) q.identity 1);
  },
  permitted (record { resource = q.resource; identity = q.identity; amount = 1 }) empty_observation,
)

-- `AcquireQueued` from its validation up to the first wait.
unfoldable pub acquire_admitted :
    Hasher → SharedState → Request → QueueKind → Entry → SharedState × Outcome
acquire_admitted h s q queue e =
    let blocking =
      check_fits h (s.resources q.resource) q.identity 1 (resource_limits s.profile q.resource) in
    if not (is_open s.terminal_reason)
    then (s, finished rejected (record empty_observation { reason = s.terminal_reason }))
    else if e.cancelled
    then (s, finished cancelled empty_observation)
    else if q.wait.has_scan_deadline && leb q.wait.scan_deadline_milliseconds e.evaluated
    then (s, finished scan_deadline_reached empty_observation)
    else if q.wait.has_aggregate_deadline && leb q.wait.aggregate_deadline_milliseconds e.evaluated
    then (
      s,
      finished rejected
          (record empty_observation { reason = Reason.admission_waiting_exhausted; requested = 1 }),
    )
    else if leb q.wait.queue_deadline_milliseconds e.evaluated
    then (
      s,
      finished rejected (record empty_observation { reason = timeout_reason queue; requested = 1 }),
    )
    else if has_scope blocking && ltb blocking.limit blocking.requested
    then (s, finished rejected (record blocking { reason = saturated_reason queue }))
    else if not (has_scope blocking) && not (any_queued q.resource s.tickets)
    then acquire_now h s q
    else queue_up h s q queue blocking e

unfoldable pub is_credential : ResourceKind → Bool
is_credential ResourceKind.credential_resolution = true
is_credential _ = false

unfoldable pub acquire_queued : Hasher → SharedState → Request → Entry → SharedState × Outcome
acquire_queued h s q e = elim q.queue [
  | none ↦ (s, invalid_argument)
  | some queue ↦
      if q.permit_held
        || (not (is_credential q.resource) && not q.identity.complete)
        || q.wait.has_negative_queue_deadline
      then (s, invalid_argument)
      else acquire_admitted h s q queue e
]

-- `AcquireImmediate`.
unfoldable pub acquire_immediate :
    Hasher → SharedState → ResourceKind → Identity → ℕ → Reason → Bool → SharedState × Outcome
acquire_immediate h s resource identity amount reason permit_held =
    let blocking =
      check_fits h (s.resources resource) identity amount (resource_limits s.profile resource) in
    if permit_held || not identity.complete || amount == 0
    then (s, invalid_argument)
    else if not (is_open s.terminal_reason)
    then (s, finished rejected (record empty_observation { reason = s.terminal_reason }))
    else if has_scope blocking
    then (s, finished rejected (record blocking { reason = reason }))
    else (
      record s {
        resources =
            set_resource s.resources resource (add_usage h (s.resources resource) identity amount);
      },
      permitted (record { resource = resource; identity = identity; amount = amount })
          empty_observation,
    )

-- `ResizeBufferedBytes`: the permit that it leaves, and how it ends.
unfoldable pub resize_buffered_bytes :
    Hasher → SharedState → PermitHandle → ℕ → SharedState × PermitHandle × Outcome
resize_buffered_bytes h s p bytes =
    let counts = s.resources ResourceKind.buffered_bytes in
    let requested = bytes - p.amount in
    let blocking = check_fits h counts p.identity requested s.profile.buffered_bytes in
    if bytes == 0 || not (same_resource p.resource ResourceKind.buffered_bytes)
    then (s, p, invalid_argument)
    else if bytes == p.amount
    then (s, p, finished acquired empty_observation)
    else if ltb bytes p.amount
    then (
      record s {
        resources =
            set_resource s.resources ResourceKind.buffered_bytes
              (subtract_usage h counts p.identity (p.amount - bytes));
      },
      record p { amount = bytes },
      finished acquired empty_observation,
    )
    else if not (is_open s.terminal_reason)
    then (s, p, finished rejected (record empty_observation { reason = s.terminal_reason }))
    else if has_scope blocking
    then (s, p, finished rejected (record blocking { reason = Reason.buffered_bytes_exhausted }))
    else (
      record s {
        resources =
            set_resource s.resources ResourceKind.buffered_bytes
              (add_usage h counts p.identity requested);
      },
      record p { amount = bytes },
      finished acquired empty_observation,
    )

-- `Permit::Release`.
unfoldable pub release : Hasher → SharedState → PermitHandle → ℕ → SharedState
release h s p granting =
    grant_eligible h
      (record s {
        resources =
            set_resource s.resources p.resource
              (subtract_usage h (s.resources p.resource) p.identity p.amount);
      })
      p.resource granting

unfoldable pub close : SharedState → SharedState
close s =
    if is_open s.terminal_reason then record s { terminal_reason = Reason.runtime_closed } else s
