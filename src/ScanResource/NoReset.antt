-- ===== src/ScanResource/NoReset.antt =====
-- No method resets a budget: what is charged stays charged, and the deadline is set once.
use duckdb_fdw.Base.{ℕ, ◌≤◌, ◌≡◌, Bool, true, false, some, List, [], ◌∷◌, arith, if◌then◌else◌}
use duckdb_fdw.ScanResource.Types.{
  ready, exhausted, ok, Field, Account, Allowance, Clock, TransportUsage, DecodedUsage,
}
use duckdb_fdw.ScanResource.Profile.{add_checked}
use duckdb_fdw.ScanResource.Account.{
  Run, fail, begin_step, begin_attempt, and_then, attempt, open_request, open_step, charge_attempt,
  next_allowance, start_deadline, require_ready_for_next,
}
use duckdb_fdw.ScanResource.Charge.{
  released, commit_request_body, commit_attempt_usage, commit_attempt_failure, commit_transport,
  charge_usage, commit_decoded_page, complete_page, commit_retry_wait, commit_rate_limit_wait,
  commit_admission_wait, commit_remote_transport_time, abort_page, Op, step, attempts, body,
  retry_wait, rate_limit_wait, transport_time, failure, transport, decoded, completed,
  admission_wait, aborted, run_op, run_all,
}
use duckdb_fdw.ScanResource.Sound.{
  Leaves, Leaves-if, Leaves-attempt, Leaves-and_then, Ends, Ends-if,
}
use duckdb_fdw.ScanResource.Sound.Ready.{Leaves-ready, Leaves-ready_last}

-- `b` charges at least what `a` does, and has its deadline, where that is set.
abbrev pub Later : Account → Account → Type 0
Later a b =
    (b.profile ≡ a.profile)
    × (a.counters.request_attempts ≤ b.counters.request_attempts)
    × (a.counters.pages ≤ b.counters.pages)
    × (a.counters.header_bytes ≤ b.counters.header_bytes)
    × (a.counters.wire_response_bytes ≤ b.counters.wire_response_bytes)
    × (a.counters.decompressed_response_bytes ≤ b.counters.decompressed_response_bytes)
    × (a.counters.decoded_records ≤ b.counters.decoded_records)
    × (a.counters.peak_decoded_memory_bytes ≤ b.counters.peak_decoded_memory_bytes)
    × (a.counters.serialized_request_body_bytes ≤ b.counters.serialized_request_body_bytes)
    × (a.counters.cumulative_waiting_milliseconds ≤ b.counters.cumulative_waiting_milliseconds)
    × (a.counters.cumulative_retry_waiting_milliseconds
        ≤ b.counters.cumulative_retry_waiting_milliseconds)
    × (a.counters.cumulative_rate_limit_waiting_milliseconds
        ≤ b.counters.cumulative_rate_limit_waiting_milliseconds)
    × (a.counters.cumulative_remote_transport_milliseconds
        ≤ b.counters.cumulative_remote_transport_milliseconds)
    × (a.counters.cumulative_admission_waiting_milliseconds
        ≤ b.counters.cumulative_admission_waiting_milliseconds)
    × (a.deadline_started ≡ true → b.deadline_started ≡ true)
    × (a.deadline_started ≡ true → b.deadline ≡ a.deadline)

commit_request_body-Later : (a : Account) (bytes : ℕ) → Later a (commit_request_body a bytes).0
unfolding commit_request_body fail attempt add_checked
commit_request_body-Later a bytes = ground arith

commit_attempt_failure-Later :
    (a : Account) (u : TransportUsage) → Later a (commit_attempt_failure a u).0
unfolding commit_attempt_failure commit_attempt_usage charge_usage fail attempt add_checked
commit_attempt_failure-Later a u = ground arith

commit_transport-Later : (a : Account) (u : TransportUsage) → Later a (commit_transport a u).0
unfolding commit_transport commit_attempt_usage charge_usage fail attempt add_checked
commit_transport-Later a u = ground arith

commit_decoded_page-Later : (a : Account) (u : DecodedUsage) → Later a (commit_decoded_page a u).0
unfolding commit_decoded_page fail attempt add_checked
commit_decoded_page-Later a u = ground arith

commit_retry_wait-Later : (a : Account) (n : ℕ) → Later a (commit_retry_wait a n).0
unfolding commit_retry_wait fail attempt add_checked
commit_retry_wait-Later a n = ground arith

commit_rate_limit_wait-Later : (a : Account) (n : ℕ) → Later a (commit_rate_limit_wait a n).0
unfolding commit_rate_limit_wait fail attempt add_checked
commit_rate_limit_wait-Later a n = ground arith

commit_admission_wait-Later :
    (a : Account) (n limit : ℕ) → Later a (commit_admission_wait a n limit).0
unfolding commit_admission_wait fail attempt add_checked
commit_admission_wait-Later a n limit = ground arith

commit_remote_transport_time-Later :
    (a : Account) (n : ℕ) → Later a (commit_remote_transport_time a n).0
unfolding commit_remote_transport_time fail attempt add_checked
commit_remote_transport_time-Later a n = ground arith

abort_page-Later : (a : Account) → Later a (abort_page a)
unfolding abort_page fail attempt add_checked
abort_page-Later a = ground arith

fail-Later :
    {A : Type 0} (a b : Account) (field : Field)
    → Later a b
    → Leaves (Later a) (fail {A = A} b field)
unfolding fail
fail-Later a b field l = record { left = ground arith }

module _ (a : Account) (has_next : Bool) (now : ℕ) where
  goes_on : Leaves (Later a) (require_ready_for_next (released a ready) now)
  goes_on =
      Leaves-ready_last (Later a) (released a ready) now
        (λ field. fail-Later a (released a ready) field (ground arith)) (λ budget. ground arith)

  exhausts : Leaves {A = Unit {0}} (Later a) (released a exhausted, ok tt)
  exhausts = record { left = ground arith }

  fails : {A : Type 0} (field : Field) → Leaves (Later a) (fail {A = A} a field)
  fails field = fail-Later a a field (ground arith)

  complete_page-Leaves : Leaves (Later a) (complete_page a has_next now)
  unfolding complete_page
  complete_page-Leaves = search (Leaves-if, fails, exhausts, goes_on) depth 8

module _ (k : Clock) (a : Account) (now : ℕ) where
  throws_wall : Ends (Later a) (Later a) (fail {A = Unit {0}} a Field.wall_milliseconds)
  unfolding fail
  throws_wall = record { ends = ground arith }

  already : Ends {A = Unit {0}} (Later a) (Later a) (a, ok tt)
  already = record { ends = ground arith }

  started :
      (d : ℕ)
      → a.deadline_started ≡ false
      → Ends {A = Unit {0}}
          (Later a)
          (Later a)
          (record a { deadline = d; deadline_started = true }, ok tt)
  started d at = record { ends = ground arith }

  start_deadline-Ends : Ends (Later a) (Later a) (start_deadline k a now)
  unfolding start_deadline
  start_deadline-Ends = search (Ends-if, throws_wall, already, started) depth 8

  opened :
      (b : Account)
      → Later a b
      → Leaves {A = Unit {0}}
          (Later a)
          (and_then (require_ready_for_next b now) λ c. (open_step c, ok tt))
  opened b l =
      Leaves-ready (Later a) b now (λ c. (open_step c, ok tt)) (λ field. fail-Later a b field l)
        (λ budget. record { left = l })

  begun : Leaves {A = Unit {0}} (Later a) (
      and_then
        (start_deadline k a now)
        λ b. and_then (require_ready_for_next b now) λ c. (open_step c, ok tt))
  begun = Leaves-and_then (Later a) (Later a) _ _ start_deadline-Ends opened

  begin_step-Leaves : Leaves (Later a) (begin_step k a now)
  unfolding begin_step
  begin_step-Leaves = search (Leaves-if, fails a true now, begun) depth 8

module _ (a : Account) where
  next_allowance-Leaves :
      (next : Allowance → Run Allowance)
      → ((w : Allowance) → Leaves (Later a) (next w))
      → Leaves (Later a) (next_allowance a next)
  unfolding next_allowance
  next_allowance-Leaves next p = search (Leaves-attempt, fails a true 0, p) depth 12

  request-Later :
      (step_attempts scan_attempts pages active : ℕ) (w : Allowance)
      → add_checked a.counters.request_attempts 1 a.profile.scan.request_attempts
        ≡ some scan_attempts
      → (if a.current_step_page_committed
          then some a.counters.pages
          else add_checked a.counters.pages 1 a.profile.scan.pages)
        ≡ some pages
      → Later a (open_request a step_attempts scan_attempts pages active w)
  unfolding add_checked
  request-Later step_attempts scan_attempts pages active w e1 e2 = ground arith

  charge_attempt-Leaves : Leaves (Later a) (charge_attempt a)
  unfolding charge_attempt
  charge_attempt-Leaves =
      search (Leaves-attempt, fails a true 0, next_allowance-Leaves, requested) depth 12
    where
      requested :
          (step_attempts scan_attempts pages active : ℕ) (w : Allowance)
          → add_checked a.counters.request_attempts 1 a.profile.scan.request_attempts
            ≡ some scan_attempts
          → (if a.current_step_page_committed
              then some a.counters.pages
              else add_checked a.counters.pages 1 a.profile.scan.pages)
            ≡ some pages
          → Leaves (Later a) (open_request a step_attempts scan_attempts pages active w, ok w)
      requested step_attempts scan_attempts pages active w e1 e2 = record {
        left = request-Later step_attempts scan_attempts pages active w e1 e2;
      }

  begin_attempt-Leaves : (now : ℕ) → Leaves (Later a) (begin_attempt a now)
  unfolding begin_attempt
  begin_attempt-Leaves now = search (Leaves-if, fails a true 0, charge_attempt-Leaves) depth 8

run_op-Later : (k : Clock) (a : Account) (o : Op) → Later a (run_op k a o)
unfolding run_op
run_op-Later k a (step now) = (begin_step-Leaves k a now).left
run_op-Later k a (attempts now) = (begin_attempt-Leaves a now).left
run_op-Later k a (body bytes) = commit_request_body-Later a bytes
run_op-Later k a (retry_wait n) = commit_retry_wait-Later a n
run_op-Later k a (rate_limit_wait n) = commit_rate_limit_wait-Later a n
run_op-Later k a (transport_time n) = commit_remote_transport_time-Later a n
run_op-Later k a (failure u) = commit_attempt_failure-Later a u
run_op-Later k a (transport u) = commit_transport-Later a u
run_op-Later k a (decoded u) = commit_decoded_page-Later a u
run_op-Later k a (completed has_next now) = (complete_page-Leaves a has_next now).left
run_op-Later k a (admission_wait n limit) = commit_admission_wait-Later a n limit
run_op-Later k a aborted = abort_page-Later a

Later-trans : (a b c : Account) → Later a b → Later b c → Later a c
Later-trans a b c p q = ground arith

-- Whatever is called, in whatever order, failures included: no cumulative counter ever decreases,
-- the profile stays, and a deadline that has started is never moved or stopped.
pub nothing_is_reset : (k : Clock) (a : Account) (os : List Op) → Later a (run_all k a os)
unfolding run_all
nothing_is_reset k a [] = ground arith
nothing_is_reset k a (o ∷ os) =
    Later-trans a (run_op k a o) (run_all k (run_op k a o) os) (run_op-Later k a o)
      (nothing_is_reset k (run_op k a o) os)
