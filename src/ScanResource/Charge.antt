-- ===== src/ScanResource/Charge.antt =====
-- The methods of `ScanResourceAccounting` that charge what a request or a wait used, those that a
-- retry asks, and all methods as one operation.
use duckdb_fdw.Base.{
  ℕ, ◌-◌, Bool, false, ◌&&◌, ◌||◌, not, List, [], ◌∷◌, max, ◌==◌, ltb, leb, if◌then◌else◌, u64_mod,
}
use duckdb_fdw.ScanResource.Types.{
  Phase, ready, step_active, request_active, request_body_committed, transport_committed,
  page_decoded, exhausted, failed, Result, ok, error, Field, Account, TransportUsage, DecodedUsage,
  Clock,
}
use duckdb_fdw.ScanResource.Profile.{add_checked}
use duckdb_fdw.ScanResource.Account.{
  Run, fail, attempt, same_phase, require_ready_for_next, begin_step, begin_attempt,
}

unfoldable pub commit_request_body : Account → ℕ → Run (Unit {0})
commit_request_body a bytes =
    if not (same_phase a.state request_active) || a.profile.page.serialized_request_body_bytes == 0
    then fail a Field.resource_state
    else if bytes == 0
    then fail a Field.request_body_bytes
    else if ltb a.active_allowance.serialized_request_body_bytes bytes
    then fail a Field.request_body_bytes
    else attempt a Field.resource_accounting
        (add_checked a.counters.serialized_request_body_bytes bytes
          a.profile.scan.serialized_request_body_bytes)
        λ total. (
          record a {
            counters = record (a.counters) { serialized_request_body_bytes = total };
            state = request_body_committed;
          },
          ok tt,
        )

abbrev pub with_header : Account → ℕ → Account
with_header a n = record a { counters = record (a.counters) { header_bytes = n } }

abbrev pub with_wire : Account → ℕ → Account
with_wire a n = record a { counters = record (a.counters) { wire_response_bytes = n } }

abbrev pub with_decompressed : Account → ℕ → Phase → Account
with_decompressed a n next = record a {
  counters = record (a.counters) { decompressed_response_bytes = n; active_requests = 0 };
  state = next;
}

-- The three counters in turn.
unfoldable pub charge_usage : Account → TransportUsage → Phase → Run (Unit {0})
charge_usage a u next =
    let scan = a.profile.scan in
    attempt a Field.resource_accounting
      (add_checked a.counters.header_bytes u.header_bytes scan.header_bytes)
      λ header.
        let b = with_header a header in
        attempt b Field.resource_accounting
          (add_checked b.counters.wire_response_bytes u.wire_response_bytes
            scan.wire_response_bytes)
          λ wire.
            let c = with_wire b wire in
            attempt c Field.resource_accounting
              (add_checked c.counters.decompressed_response_bytes u.decompressed_response_bytes
                scan.decompressed_response_bytes)
              λ decompressed. (with_decompressed c decompressed next, ok tt)

-- A request may be charged: its body is committed, where the profile has bodies.
abbrev pub may_commit : Account → Bool
may_commit a =
    (same_phase a.state request_active && a.profile.page.serialized_request_body_bytes == 0)
    || (same_phase a.state request_body_committed
        && not (a.profile.page.serialized_request_body_bytes == 0))

unfoldable pub commit_attempt_usage : Account → TransportUsage → Phase → Run (Unit {0})
commit_attempt_usage a u next =
    if not (may_commit a)
    then fail a Field.resource_state
    else if ltb a.active_allowance.header_bytes u.header_bytes
    then fail a Field.header_bytes
    else if ltb a.active_allowance.wire_response_bytes u.wire_response_bytes
    then fail a Field.response_bytes
    else if ltb a.active_allowance.decompressed_response_bytes u.decompressed_response_bytes
    then fail a Field.decompressed_bytes
    else charge_usage a u next

unfoldable pub commit_attempt_failure : Account → TransportUsage → Run (Unit {0})
commit_attempt_failure a u = commit_attempt_usage a u step_active

unfoldable pub commit_transport : Account → TransportUsage → Run (Unit {0})
commit_transport a u = commit_attempt_usage a u transport_committed

unfoldable pub commit_decoded_page : Account → DecodedUsage → Run (Unit {0})
commit_decoded_page a u =
    let c = a.counters in
    if not (same_phase a.state transport_committed)
    then fail a Field.resource_state
    else if ltb a.active_allowance.decoded_records u.decoded_records
    then fail a Field.decoded_records
    else if ltb a.active_allowance.decoded_memory_bytes u.decoded_memory_bytes
    then fail a Field.decoded_memory_bytes
    else attempt a Field.resource_accounting
        (add_checked c.decoded_records u.decoded_records a.profile.scan.decoded_records)
        λ records. (
          record a {
            counters = record c {
              decoded_records = records;
              retained_decoded_memory_bytes = u.decoded_memory_bytes;
              peak_decoded_memory_bytes = max c.peak_decoded_memory_bytes u.decoded_memory_bytes;
            };
            state = page_decoded;
          },
          ok tt,
        )

-- The end of a page: nothing is retained.
abbrev pub released : Account → Phase → Account
released a next = record a {
  counters = record (a.counters) { retained_decoded_memory_bytes = 0 };
  state = next;
  current_step_attempts = 0;
  current_step_page_committed = false;
}

unfoldable pub complete_page : Account → Bool → ℕ → Run (Unit {0})
complete_page a has_next now =
    if not (same_phase a.state page_decoded)
    then fail a Field.resource_state
    else if leb a.deadline now
    then fail a Field.wall_milliseconds
    else if not has_next
    then (released a exhausted, ok tt)
    else require_ready_for_next (released a ready) now

abbrev pub with_waiting : Account → ℕ → Account
with_waiting a n = record a {
  counters = record (a.counters) { cumulative_waiting_milliseconds = n };
}

-- The total is charged before the retries' share.
unfoldable pub commit_retry_wait : Account → ℕ → Run (Unit {0})
commit_retry_wait a milliseconds =
    let scan = a.profile.scan in
    if not (same_phase a.state step_active)
    then fail a Field.resource_state
    else attempt a Field.cumulative_waiting_milliseconds
        (add_checked a.counters.cumulative_waiting_milliseconds milliseconds
          scan.cumulative_waiting_milliseconds)
        λ total.
          attempt (with_waiting a total) Field.cumulative_waiting_milliseconds
            (add_checked a.counters.cumulative_retry_waiting_milliseconds milliseconds
              scan.cumulative_retry_waiting_milliseconds)
            λ retry. (
              record a {
                counters = record (a.counters) {
                  cumulative_waiting_milliseconds = total;
                  cumulative_retry_waiting_milliseconds = retry;
                };
              },
              ok tt,
            )

unfoldable pub commit_rate_limit_wait : Account → ℕ → Run (Unit {0})
commit_rate_limit_wait a milliseconds =
    let scan = a.profile.scan in
    if not (same_phase a.state step_active)
    then fail a Field.resource_state
    else attempt a Field.cumulative_waiting_milliseconds
        (add_checked a.counters.cumulative_waiting_milliseconds milliseconds
          scan.cumulative_waiting_milliseconds)
        λ total.
          attempt (with_waiting a total) Field.cumulative_waiting_milliseconds
            (add_checked a.counters.cumulative_rate_limit_waiting_milliseconds milliseconds
              scan.cumulative_rate_limit_waiting_milliseconds)
            λ limited. (
              record a {
                counters = record (a.counters) {
                  cumulative_waiting_milliseconds = total;
                  cumulative_rate_limit_waiting_milliseconds = limited;
                };
              },
              ok tt,
            )

unfoldable pub commit_admission_wait : Account → ℕ → ℕ → Run (Unit {0})
commit_admission_wait a milliseconds limit =
    if not (same_phase a.state step_active)
    then fail a Field.resource_state
    else attempt a Field.admission_waiting_milliseconds
        (add_checked a.counters.cumulative_admission_waiting_milliseconds milliseconds limit)
        λ total. (
          record a {
            counters = record (a.counters) { cumulative_admission_waiting_milliseconds = total };
          },
          ok tt,
        )

unfoldable pub commit_remote_transport_time : Account → ℕ → Run (Unit {0})
commit_remote_transport_time a milliseconds =
    if not (same_phase a.state request_active) && not (same_phase a.state request_body_committed)
    then fail a Field.resource_state
    else attempt a Field.wall_milliseconds
        (add_checked a.counters.cumulative_remote_transport_milliseconds milliseconds (u64_mod - 1))
        λ total. (
          record a {
            counters = record (a.counters) { cumulative_remote_transport_milliseconds = total };
          },
          ok tt,
        )

unfoldable pub abort_page : Account → Account
abort_page a = record a {
  counters = record (a.counters) { active_requests = 0; retained_decoded_memory_bytes = 0 };
  state = failed;
}

unfoldable pub can_begin_retry_attempt : Account → Bool
can_begin_retry_attempt a =
    same_phase a.state step_active
    && ltb a.current_step_attempts a.profile.page.request_attempts
    && ltb a.counters.request_attempts a.profile.scan.request_attempts

-- `RequireRetryAttemptResources`: it only reads.
unfoldable pub require_retry_attempt_resources : Account → ℕ → Result (Unit {0})
require_retry_attempt_resources a bytes =
    let c = a.counters in
    let page = a.profile.page in
    let scan = a.profile.scan in
    if not (can_begin_retry_attempt a)
    then error Field.request_attempts
    else if leb scan.header_bytes c.header_bytes
    then error Field.header_bytes
    else if leb scan.wire_response_bytes c.wire_response_bytes
    then error Field.response_bytes
    else if leb scan.decompressed_response_bytes c.decompressed_response_bytes
    then error Field.decompressed_bytes
    else if page.serialized_request_body_bytes == 0
    then if bytes == 0 then ok tt else error Field.request_body_bytes
    else if bytes == 0
        || ltb page.serialized_request_body_bytes bytes
        || ltb scan.serialized_request_body_bytes c.serialized_request_body_bytes
        || ltb (scan.serialized_request_body_bytes - c.serialized_request_body_bytes) bytes
    then error Field.request_body_bytes
    else ok tt

-- The methods that change the account. `BeginPage` is two of them, `BeginRetryAttempt` and
-- `CommitWait` one each.
pub data Op : Type 0 where
  step attempts : ℕ → Op
  body retry_wait rate_limit_wait transport_time : ℕ → Op
  failure transport : TransportUsage → Op
  decoded : DecodedUsage → Op
  completed : Bool → ℕ → Op
  admission_wait : ℕ → ℕ → Op
  aborted : Op

unfoldable pub run_op : Clock → Account → Op → Account
run_op k a (step now) = (begin_step k a now).0
run_op k a (attempts now) = (begin_attempt a now).0
run_op k a (body bytes) = (commit_request_body a bytes).0
run_op k a (retry_wait n) = (commit_retry_wait a n).0
run_op k a (rate_limit_wait n) = (commit_rate_limit_wait a n).0
run_op k a (transport_time n) = (commit_remote_transport_time a n).0
run_op k a (failure u) = (commit_attempt_failure a u).0
run_op k a (transport u) = (commit_transport a u).0
run_op k a (decoded u) = (commit_decoded_page a u).0
run_op k a (completed has_next now) = (complete_page a has_next now).0
run_op k a (admission_wait n limit) = (commit_admission_wait a n limit).0
run_op k a aborted = abort_page a

-- Any calls, in any order, those that throw included.
unfoldable pub run_all : Clock → Account → List Op → Account
run_all k a [] = a
run_all k a (o ∷ os) = run_all k (run_op k a o) os
