-- ===== src/Admission/Controller.antt =====
-- The shared state of src/runtime/execution/admission_controller.cpp, its tickets, and
-- `GrantEligibleLocked`. The vector of tickets is `tickets`; a ticket that was granted and erased
-- from it, and whose caller has not claimed it yet, is in `granted`. A shared pointer to a ticket is
-- its queue and ordinal. Steady-clock readings and deadlines are natural numbers of milliseconds. An
-- aggregate or scan deadline below zero is as one at zero, since no reading is before either; a queue
-- deadline below zero is told by a flag, since it is refused.
pub mod Tickets
pub mod Grant
pub mod Eligible
use duckdb_fdw.Base.{
  ℕ, suc, ◌+◌, ◌-◌, ◌≡◌, Bool, true, false, ◌&&◌, ◌||◌, not, Option, none, some, List, [], ◌∷◌,
  ◌++◌, min, ◌==◌, ltb, leb, if◌then◌else◌, int64_max,
}
use duckdb_fdw.Admission.Identity.{Hasher, Identity}
use duckdb_fdw.Admission.Usage.{
  Reason, Scope, Observation, DimensionLimits, Counters, empty_counters, check_fits, add_usage,
  subtract_usage,
}
use duckdb_fdw.Admission.Profile.{
  ResourceKind, QueueKind, Profile, resource_index, queue_index, resource_limits, validate_profile,
}

pub record WaitPolicy : Type 0 where
  pub has_negative_queue_deadline : Bool
  pub queue_deadline_milliseconds : ℕ
  pub has_aggregate_deadline : Bool
  pub aggregate_deadline_milliseconds : ℕ
  pub has_scan_deadline : Bool
  pub scan_deadline_milliseconds : ℕ

pub record Ticket : Type 0 where
  pub resource : ResourceKind
  pub queue : QueueKind
  pub identity : Identity
  pub ordinal : ℕ
  pub wait : WaitPolicy
  pub started : ℕ
  pub granted_at : ℕ
  pub last_blocking : Observation

pub record PermitHandle : Type 0 where
  pub resource : ResourceKind
  pub identity : Identity
  pub amount : ℕ

pub record SharedState : Type 0 where
  pub terminal_reason : Reason
  pub next_ticket : QueueKind → ℕ
  pub profile : Profile
  pub resources : ResourceKind → Counters
  pub queues : QueueKind → Counters
  pub tickets : List Ticket
  pub granted : List Ticket

abbrev pub same_resource : ResourceKind → ResourceKind → Bool
same_resource a b = resource_index a == resource_index b

abbrev pub same_queue : QueueKind → QueueKind → Bool
same_queue a b = queue_index a == queue_index b

-- `array[ResourceIndex(kind)] = value`, and the same at a queue.
abbrev pub set_resource {ℓ} :
    {A : Type ℓ} → (ResourceKind → A) → ResourceKind → A → ResourceKind → A
set_resource f kind value other = if same_resource kind other then value else f other

abbrev pub set_queue {ℓ} : {A : Type ℓ} → (QueueKind → A) → QueueKind → A → QueueKind → A
set_queue f kind value other = if same_queue kind other then value else f other

unfoldable pub is_open : Reason → Bool
is_open Reason.none = true
is_open _ = false

unfoldable pub has_scope : Observation → Bool
has_scope o = elim o.scope [ Scope.none ↦ false | _ ↦ true ]

unfoldable pub ticket_expired : Ticket → ℕ → Bool
ticket_expired t now =
    leb t.wait.queue_deadline_milliseconds now
    || (t.wait.has_aggregate_deadline && leb t.wait.aggregate_deadline_milliseconds now)
    || (t.wait.has_scan_deadline && leb t.wait.scan_deadline_milliseconds now)

unfoldable pub accounted_wait : Ticket → ℕ → ℕ
accounted_wait t ended =
    let waited = if ltb t.started ended then ended - t.started else 0 in
    if t.wait.has_aggregate_deadline
    then min waited (
        if ltb t.started t.wait.aggregate_deadline_milliseconds
        then t.wait.aggregate_deadline_milliseconds - t.started
        else 0)
    else waited

unfoldable pub wait_slice : ℕ → ℕ → ℕ → ℕ
wait_slice now target maximum_slice =
    if leb target now
    then 0
    else if leb now (int64_max - maximum_slice) && ltb (now + maximum_slice) target
    then maximum_slice
    else target - now

-- `GrantEligibleLocked`, one pass over the tickets.
pub data Decision : Type 0 where
  skip : Decision
  block : Observation → Decision
  grant : Decision

pub record Pass : Type 0 where
  pub counts : Counters
  pub queues : QueueKind → Counters
  pub tickets : List Ticket
  pub granted : List Ticket

module _ (h : Hasher) (resource : ResourceKind) (now : ℕ) (limits : DimensionLimits) where
  unfoldable pub decide : Ticket → Counters → Decision
  decide t counts =
      if not (same_resource t.resource resource) || ticket_expired t now
      then skip
      else if has_scope (check_fits h counts t.identity 1 limits)
      then block (check_fits h counts t.identity 1 limits)
      else grant

  abbrev pub counts_after : Decision → Ticket → Counters → Counters
  counts_after grant t counts = add_usage h counts t.identity 1
  counts_after _ t counts = counts

  abbrev pub queues_after : Decision → Ticket → (QueueKind → Counters) → QueueKind → Counters
  queues_after grant t queues =
      set_queue queues t.queue (subtract_usage h (queues t.queue) t.identity 1)
  queues_after _ t queues = queues

  abbrev pub place : Decision → Ticket → Pass → Pass
  place skip t p = record p { tickets = t ∷ p.tickets }
  place (block o) t p = record p { tickets = record t { last_blocking = o } ∷ p.tickets }
  place grant t p = record p { granted = record t { granted_at = now } ∷ p.granted }

  unfoldable pub grant_pass : List Ticket → Counters → (QueueKind → Counters) → Pass
  grant_pass [] counts queues = record {
    counts = counts;
    queues = queues;
    tickets = [];
    granted = [];
  }
  grant_pass (t ∷ ts) counts queues = place (decide t counts) t (
      grant_pass ts (counts_after (decide t counts) t counts)
        (queues_after (decide t counts) t queues))

abbrev pub install : SharedState → ResourceKind → Pass → SharedState
install s resource p = record s {
  resources = set_resource s.resources resource p.counts;
  queues = p.queues;
  tickets = p.tickets;
  granted = p.granted ++ s.granted;
}

unfoldable pub grant_eligible : Hasher → SharedState → ResourceKind → ℕ → SharedState
grant_eligible h s resource now =
    if is_open s.terminal_reason
    then install s resource (
        grant_pass h resource now (resource_limits s.profile resource) s.tickets
          (s.resources resource) s.queues)
    else s

-- `SharedState` as it is made.
abbrev pub empty_state : Profile → ℕ → SharedState
empty_state profile initial_ticket = record {
  terminal_reason = Reason.none;
  next_ticket = λ q. initial_ticket;
  profile = profile;
  resources = λ r. empty_counters;
  queues = λ q. empty_counters;
  tickets = [];
  granted = [];
}

-- The constructor of `AdmissionController`: `none` is std::invalid_argument.
unfoldable pub initial_state : Profile → ℕ → Option SharedState
initial_state profile initial_ticket =
    if not (validate_profile profile) || initial_ticket == 0
    then none
    else some (empty_state profile initial_ticket)

-- The identity of a ticket, and `std::find` and `erase` by it.
abbrev pub TicketId : Type 0
TicketId = QueueKind × ℕ

abbrev pub is_ticket : TicketId → Ticket → Bool
is_ticket id t = same_queue t.queue id.0 && t.ordinal == id.1

unfoldable pub find_ticket : TicketId → List Ticket → Option Ticket
find_ticket id [] = none
find_ticket id (t ∷ ts) = if is_ticket id t then some t else find_ticket id ts

unfoldable pub erase_ticket : TicketId → List Ticket → List Ticket
erase_ticket id [] = []
erase_ticket id (t ∷ ts) = if is_ticket id t then ts else t ∷ erase_ticket id ts

unfoldable pub remove_ticket : Hasher → SharedState → TicketId → SharedState
remove_ticket h s id = elim (find_ticket id s.tickets) [
  | none ↦ s
  | some t ↦ record s {
    queues = set_queue s.queues t.queue (subtract_usage h (s.queues t.queue) t.identity 1);
    tickets = erase_ticket id s.tickets;
  }
]
