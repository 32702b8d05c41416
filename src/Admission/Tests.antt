-- ===== src/Admission/Tests.antt =====
-- The admission theorems at concrete inputs: an in-flight request of one identity under the hard
-- profile, at a controller that was just made.
use duckdb_fdw.Base.{
  ℕ, ◌+◌, ◌-◌, ◌*◌, ◌%◌, ◌≤◌, ◌<◌, ◌≡◌, ◌↔◌, ◌==◌, ==_iff, refl, true, false, ◌||◌, none, some,
  List, [], ◌∷◌, arith, not, if◌then◌else◌, u64_mod,
}
use duckdb_fdw.Admission.Counts.{CountKey, KeyCount, count_for, add_count, subtract_count, IsTable}
use duckdb_fdw.Admission.Counts.Laws.{count_for-add_count, count_for-subtract_count}
use duckdb_fdw.Admission.Identity.{
  Hasher, Identity, rest, anonymous, to_bulkhead, hash_identity, hash_bytes, bulkhead_hash,
  destination_hash, principal_hash, combine_hash, opaque_equals, bytes_eq,
}
use duckdb_fdw.Admission.Usage.{
  Counters, connector_count, destination_count, principal_count, Reason, Scope, Observation,
  empty_counters, check_fits,
}
use duckdb_fdw.Admission.Usage.Rollback.{at_bulkhead, add_usage_throwing, add_usage-rollback}
use duckdb_fdw.Admission.Usage.Load.{
  everyone, of_connector, of_destination, of_principal, of_bulkhead, empty_counters-Tracks,
}
use duckdb_fdw.Admission.Usage.Fits.{Within, HasRoom, check_fits_iff}
use duckdb_fdw.Admission.Profile.{
  ResourceKind, QueueKind, hard, validate_profile, resource_limits, queue_limits, queue_index,
  validate_dimension,
}
use duckdb_fdw.Admission.Controller.{
  WaitPolicy, Ticket, TicketId, SharedState, initial_state, empty_state, is_open, find_ticket,
  grant_eligible,
}
use duckdb_fdw.Admission.Controller.Tickets.{resource_load, queue_load, queue_load-nil}
use duckdb_fdw.Admission.Acquire.{
  invalid_argument, is_credential, Request, Entry, Turn, acquire_queued, acquire_immediate,
  take_turn, close, enqueue, new_ticket,
}
use duckdb_fdw.Admission.Acquire.Invariant.{
  System, Inv, deliver, acquires, turns, here, next, closes, controller-Inv,
}
use duckdb_fdw.Admission.Acquire.Invariant.Queues.{enqueue-Inv}
use duckdb_fdw.Admission.Public.{usage, idle, idle-usage}
use duckdb_fdw.Admission.Acquire.Closing.{reason_is_final}
use duckdb_fdw.Admission.Acquire.Behaviour.{
  AllBlocked, grant_eligible_maximal, is_permitted, is_waiting, acquire_immediate_iff,
}
use duckdb_fdw.Admission.Acquire.Leaving.{is_due, HasLeft, take_turn-HasLeft}
use duckdb_fdw.Admission.Acquire.HardLimits.{reached-Within}

abbrev hasher : Hasher
hasher = record { string = λ s. 17; u16 = λ n. n * 31; u8 = λ n. n + 7; pointer = λ n. n }

abbrev identity : Identity
identity = record {
  connector_id = "github";
  destination = record { scheme = "https"; host = "api.github.com"; explicit_port = 443 };
  complete = true;
  relation_id = "issues";
  protocol = rest;
  operation_id = "list";
  principal = anonymous;
}

abbrev policy : WaitPolicy
policy = record {
  has_negative_queue_deadline = false;
  queue_deadline_milliseconds = 1100;
  has_aggregate_deadline = true;
  aggregate_deadline_milliseconds = 1050;
  has_scan_deadline = false;
  scan_deadline_milliseconds = 0;
}

abbrev request : Request
request = record {
  resource = ResourceKind.request;
  queue = some QueueKind.request;
  identity = identity;
  wait = policy;
  permit_held = false;
}

abbrev turn : Turn
turn = record { ended = 101; cancelled = false; now = 101; granting = 101 }

abbrev entry : Entry
entry = record { cancelled = false; evaluated = 100; started = 100; granting = 100; turn = turn }

-- The request with a queue deadline below zero.
abbrev expired_request : Request
expired_request = record request { wait = record policy { has_negative_queue_deadline = true } }

abbrev fresh : SharedState
fresh = empty_state hard 1

fresh_made : initial_state hard 1 ≡ some fresh
unfolding initial_state validate_profile hard validate_dimension
fresh_made = refl

expired_refused : acquire_queued hasher fresh expired_request entry ≡ (fresh, invalid_argument)
unfolding acquire_queued is_credential
expired_refused = refl

abbrev start : System
start = record { shared = fresh; permits = [] }

-- One caller acquires, then a turn for a ticket that is not there.
abbrev served : System
served = deliver [] (acquire_queued hasher fresh request entry)

abbrev two_steps : System
two_steps = deliver served.permits (take_turn hasher served.shared (QueueKind.request, 1) turn)

controller-Inv_example : Inv hasher two_steps
controller-Inv_example =
    controller-Inv hasher hard 1 fresh_made
      (next (next here (acquires request entry)) (turns (QueueKind.request, 1) turn))

start-Inv : Inv hasher start
start-Inv = controller-Inv hasher hard 1 fresh_made here

fresh_open : is_open fresh.terminal_reason ≡ true
unfolding is_open
fresh_open = refl

-- A request that waits in its queue: the next pass grants it.
abbrev blocking : Observation
blocking = check_fits hasher empty_counters identity 1 (resource_limits hard ResourceKind.request)

abbrev queued : SharedState
queued = enqueue hasher fresh request QueueKind.request blocking 100

queue_room :
    HasRoom (queue_limits hard QueueKind.request) (queue_load [] QueueKind.request) identity 1
unfolding hard
queue_room = record {
  global = omega (arith, queue_load-nil QueueKind.request everyone);
  connector = omega (arith, queue_load-nil QueueKind.request (of_connector "github"));
  destination =
      omega (arith, queue_load-nil QueueKind.request (of_destination identity.destination));
  principal = λ used. omega (arith, queue_load-nil QueueKind.request (of_principal anonymous));
  bulkhead =
      λ used. omega (arith, queue_load-nil QueueKind.request (of_bulkhead (to_bulkhead identity)));
}

queued-Inv : Inv hasher (record { shared = queued; permits = [] })
queued-Inv = enqueue-Inv hasher fresh [] request QueueKind.request blocking 100 queue_room start-Inv

queued_open : is_open queued.terminal_reason ≡ true
unfolding enqueue is_open
queued_open = refl

grant_eligible_maximal_example :
    AllBlocked hasher queued [] ResourceKind.request 100
      (grant_eligible hasher queued ResourceKind.request 100)
grant_eligible_maximal_example =
    grant_eligible_maximal hasher queued [] ResourceKind.request 100 queued-Inv queued_open

acquire_immediate_iff_example :
    (is_permitted
        (acquire_immediate hasher fresh ResourceKind.retry_waiter identity 1
          Reason.retry_wait_saturated false).1
      ≡ true)
    ↔ HasRoom
        (resource_limits hard ResourceKind.retry_waiter)
        (resource_load [] [] ResourceKind.retry_waiter)
        identity
        1
acquire_immediate_iff_example =
    acquire_immediate_iff hasher fresh [] ResourceKind.retry_waiter identity 1
      Reason.retry_wait_saturated start-Inv fresh_open refl refl

-- What stands in the queue is a ticket that was put there.
abbrev waiting_ticket : Ticket
waiting_ticket = new_ticket fresh request QueueKind.request blocking 100

abbrev late : Turn
late = record { ended = 1050; cancelled = false; now = 1050; granting = 1050 }

abbrev queued_id : TicketId
queued_id = (QueueKind.request, 1)

found_granted : find_ticket queued_id queued.granted ≡ none
unfolding find_ticket enqueue
found_granted = refl

found_waiting : find_ticket queued_id queued.tickets ≡ some waiting_ticket
unfolding find_ticket queue_index enqueue
found_waiting = refl

ticket_due :
    (not (is_open queued.terminal_reason) || late.cancelled || is_due waiting_ticket late.now)
    ≡ true
unfolding is_open enqueue
ticket_due = refl

take_turn-HasLeft_example :
    (is_waiting (take_turn hasher queued queued_id late).1 ≡ false)
    × (is_permitted (take_turn hasher queued queued_id late).1 ≡ false)
    × HasLeft hasher waiting_ticket
        (QueueKind.scan, 7)
        queued
        (take_turn hasher queued queued_id late).0
unfolding queue_index
take_turn-HasLeft_example =
    take_turn-HasLeft hasher queued [] queued_id waiting_ticket late (QueueKind.scan, 7) queued-Inv
      found_granted found_waiting ticket_due refl

check_fits_iff_example :
    ((check_fits hasher empty_counters identity 1 (resource_limits hard ResourceKind.request)).scope
      ≡ Scope.none)
    ↔ HasRoom (resource_limits hard ResourceKind.request) (λ select. 0) identity 1
check_fits_iff_example =
    check_fits_iff hasher empty_counters identity 1 (resource_limits hard ResourceKind.request)
      (empty_counters-Tracks hasher)

abbrev number_key : CountKey ℕ
number_key = record { beq = λ a b. a == b; hash = λ n. n % 4; beq_iff = ==_iff }

-- Two keys with one hash.
abbrev table : List (KeyCount ℕ)
table = record { hash = 1; key = 5; count = 3 } ∷ record { hash = 1; key = 9; count = 2 } ∷ []

table_is : IsTable ⦃k = number_key⦄ table
table_is = (refl, omega arith, (refl, tt), (refl, omega arith, tt, tt))

small : count_for ⦃k = number_key⦄ table 9 + 4 < u64_mod
unfolding count_for
small = omega arith

enough : 2 ≤ count_for ⦃k = number_key⦄ table 9
unfolding count_for
enough = omega arith

count_for-add_count_example :
    count_for ⦃k = number_key⦄ (add_count ⦃k = number_key⦄ table 9 4) 9 ≡ (
      if 9 == 9 then count_for ⦃k = number_key⦄ table 9 + 4 else count_for ⦃k = number_key⦄ table 9)
count_for-add_count_example = count_for-add_count ⦃k = number_key⦄ table 9 4 9 table_is small

count_for-subtract_count_example :
    count_for ⦃k = number_key⦄ (subtract_count ⦃k = number_key⦄ table 9 2) 5 ≡ (
      if 9 == 5 then count_for ⦃k = number_key⦄ table 5 - 2 else count_for ⦃k = number_key⦄ table 5)
count_for-subtract_count_example =
    count_for-subtract_count ⦃k = number_key⦄ table 9 2 5 table_is enough

reached-Within_example :
    ((r : ResourceKind)
      → Within
          (resource_limits hard r)
          (resource_load two_steps.permits two_steps.shared.granted r))
    × ((q : QueueKind) → Within (queue_limits hard q) (queue_load two_steps.shared.tickets q))
reached-Within_example =
    reached-Within hasher hard 1 fresh_made
      (next (next here (acquires request entry)) (turns (QueueKind.request, 1) turn))

-- A controller that was closed holds nothing.
abbrev shut : System
shut = record start { shared = close fresh }

shut_granted : shut.shared.granted ≡ []
unfolding close is_open
shut_granted = refl

shut_tickets : shut.shared.tickets ≡ []
unfolding close is_open
shut_tickets = refl

idle-usage_example : usage shut.shared ≡ idle
idle-usage_example =
    idle-usage hasher hard 1 fresh_made (next here closes) refl shut_granted shut_tickets

-- `HashIdentity` of two bytes, and the hash of an identity.
hash_identity_runs : hash_identity (1 ∷ 2 ∷ []) ≡ 11125486474286715500
unfolding hash_identity hash_bytes
hash_identity_runs = refl

bulkhead_hash_runs : bulkhead_hash hasher (to_bulkhead identity) ≡ 3031661774048035373
unfolding bulkhead_hash to_bulkhead destination_hash principal_hash combine_hash
bulkhead_hash_runs = refl

opaque_equals_runs :
    opaque_equals
      (record { type_tag = 1; authority = 7 ∷ [] })
      (record { type_tag = 1; authority = 7 ∷ [] })
    ≡ true
unfolding opaque_equals bytes_eq
opaque_equals_runs = refl

shut_closed : is_open shut.shared.terminal_reason ≡ false
unfolding close is_open
shut_closed = refl

reason_is_final_example :
    (deliver [] (acquire_queued hasher shut.shared request entry)).shared.terminal_reason
    ≡ shut.shared.terminal_reason
reason_is_final_example = reason_is_final hasher (next here (acquires request entry)) shut_closed

-- The connector holds three already; the destination and the principal are new.
abbrev holding : Counters
holding = record empty_counters {
  global = 3;
  connectors = record { hash = 17; key = "github"; count = 3 } ∷ [];
}

connector_room : connector_count hasher holding identity + 2 < u64_mod
unfolding count_for
connector_room = omega arith

destination_room : destination_count hasher holding identity + 2 < u64_mod
unfolding count_for
destination_room = omega arith

principal_room : principal_count hasher holding identity + 2 < u64_mod
unfolding count_for
principal_room = omega arith

add_usage-rollback_example : add_usage_throwing hasher at_bulkhead holding identity 2 ≡ holding
add_usage-rollback_example =
    add_usage-rollback hasher at_bulkhead holding identity 2 ((omega arith, omega arith), tt) tt tt
      (omega arith) (omega arith) connector_room destination_room principal_room
