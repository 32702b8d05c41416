-- ===== src/ScanResource/Tests.antt =====
-- The theorems of the scan resources at concrete inputs.
use duckdb_fdw.Base.{◌≤◌, ◌<◌, ◌≡◌, ◌↔◌, refl, true, false, List, [], ◌∷◌, arith, ◌==◌}
use duckdb_fdw.ScanResource.Types.{Limits, Account, Clock, ok, TransportUsage, request_active}
use duckdb_fdw.ScanResource.Profile.{
  create, new_account, split_waiting, validate_profile, is_malformed, is_unrepresentable,
  add_checked, remaining,
}
use duckdb_fdw.ScanResource.Account.{
  begin_step, begin_attempt, same_phase, start_deadline, and_then, require_ready_for_next,
  charge_attempt, next_allowance, attempt, fail,
}
use duckdb_fdw.ScanResource.Charge.{
  Op, step, attempts, body, failure, retry_wait, transport_time, commit_remote_transport_time,
  aborted, run_op, run_all, may_commit, commit_transport, commit_request_body,
  require_retry_attempt_resources, can_begin_retry_attempt, commit_attempt_failure,
  commit_attempt_usage, charge_usage, commit_retry_wait, abort_page,
}
use duckdb_fdw.ScanResource.Sound.{IsSound}
use duckdb_fdw.ScanResource.Sound.Steps.{account-IsSound}
use duckdb_fdw.ScanResource.NoReset.{Later, nothing_is_reset}
use duckdb_fdw.ScanResource.Terminal.{is_terminal, terminal_charges_nothing}
use duckdb_fdw.ScanResource.Requests.{
  IsSmall, IsWithin, granted, requested, commit_transport_iff, commit_request_body_iff,
}
use duckdb_fdw.ScanResource.Retry.{retry_is_funded, retry_body_fits}

abbrev clock : Clock
clock = record { ticks = 1000000; maximum = 9223372036854775807 }

-- A profile with bodies: at most two attempts a page, four pages.
abbrev limits : Limits
limits = record {
  page = record {
    request_attempts = 2;
    header_bytes = 100;
    wire_response_bytes = 1000;
    decompressed_response_bytes = 2000;
    decoded_records = 10;
    decoded_memory_bytes = 5000;
    active_requests = 1;
    serialized_request_body_bytes = 64;
  };
  scan = record {
    request_attempts = 8;
    pages = 4;
    header_bytes = 300;
    wire_response_bytes = 3000;
    decompressed_response_bytes = 6000;
    decoded_records = 30;
    retained_decoded_memory_bytes = 5000;
    max_wall_milliseconds = 1000;
    active_requests = 1;
    serialized_request_body_bytes = 200;
    cumulative_waiting_milliseconds = 50;
    cumulative_retry_waiting_milliseconds = 50;
    cumulative_rate_limit_waiting_milliseconds = 0;
    cumulative_remote_transport_milliseconds = 0;
  };
}

made : create clock limits ≡ ok (new_account limits)
unfolding create split_waiting validate_profile is_malformed is_unrepresentable
made = refl

abbrev usage : TransportUsage
usage = record { header_bytes = 40; wire_response_bytes = 500; decompressed_response_bytes = 900 }

abbrev after : List Op → Account
after os = run_all clock (new_account limits) os

-- A step, a request whose body is sent, a failed attempt and a wait.
abbrev failing : List Op
failing = step 5 ∷ attempts 6 ∷ body 30 ∷ failure usage ∷ retry_wait 20 ∷ []

abbrev sending : List Op
sending = step 5 ∷ attempts 6 ∷ body 30 ∷ []

account-IsSound_example : IsSound (run_all clock (new_account limits) failing)
account-IsSound_example = account-IsSound clock limits failing made

-- The limit of the scan for the remote transport time is 0 here.
timed :
    (after (step 5 ∷ attempts 6 ∷ transport_time 5 ∷ [])
      ).counters.cumulative_remote_transport_milliseconds
    ≡ 5
unfolding run_all run_op begin_step start_deadline require_ready_for_next and_then begin_attempt
    charge_attempt next_allowance attempt add_checked remaining same_phase
    commit_remote_transport_time
timed = refl

nothing_is_reset_example :
    Later (after sending) (run_all clock (after sending) (failure usage ∷ aborted ∷ []))
nothing_is_reset_example = nothing_is_reset clock (after sending) (failure usage ∷ aborted ∷ [])

terminal_is : is_terminal (after (aborted ∷ [])).state ≡ true
unfolding run_all run_op begin_step start_deadline require_ready_for_next and_then begin_attempt
    charge_attempt next_allowance attempt add_checked remaining same_phase commit_request_body
    commit_attempt_failure commit_attempt_usage charge_usage commit_retry_wait abort_page fail
    is_terminal
terminal_is = refl

terminal_charges_nothing_example :
    run_all clock (after (aborted ∷ [])) (step 5 ∷ attempts 6 ∷ [])
    ≡ abort_page (after (aborted ∷ []))
terminal_charges_nothing_example =
    terminal_charges_nothing clock (after (aborted ∷ [])) (step 5) (attempts 6 ∷ []) terminal_is

may : may_commit (after sending) ≡ true
unfolding run_all run_op begin_step start_deadline require_ready_for_next and_then begin_attempt
    charge_attempt next_allowance attempt add_checked remaining same_phase commit_request_body
    commit_attempt_failure commit_attempt_usage charge_usage commit_retry_wait abort_page fail
    is_terminal
may = refl

sending-IsSmall : IsSmall (after sending).profile
unfolding run_all run_op begin_step start_deadline require_ready_for_next and_then begin_attempt
    charge_attempt next_allowance attempt add_checked remaining same_phase commit_request_body
    commit_attempt_failure commit_attempt_usage charge_usage commit_retry_wait abort_page fail
    is_terminal
sending-IsSmall = ground arith

commit_transport_iff_example :
    ((commit_transport (after sending) usage).1 ≡ ok tt)
    ↔ IsWithin usage (after sending).active_allowance
commit_transport_iff_example =
    commit_transport_iff (after sending) usage (account-IsSound clock limits sending made)
      sending-IsSmall may

at_request : same_phase (after (step 5 ∷ attempts 6 ∷ [])).state request_active ≡ true
unfolding run_all run_op begin_step start_deadline require_ready_for_next and_then begin_attempt
    charge_attempt next_allowance attempt add_checked remaining same_phase commit_request_body
    commit_attempt_failure commit_attempt_usage charge_usage commit_retry_wait abort_page fail
    is_terminal
at_request = refl

requesting-IsSmall : IsSmall (after (step 5 ∷ attempts 6 ∷ [])).profile
unfolding run_all run_op begin_step start_deadline require_ready_for_next and_then begin_attempt
    charge_attempt next_allowance attempt add_checked remaining same_phase commit_request_body
    commit_attempt_failure commit_attempt_usage charge_usage commit_retry_wait abort_page fail
    is_terminal
requesting-IsSmall = ground arith

bodied :
    ((after (step 5 ∷ attempts 6 ∷ [])).profile.page.serialized_request_body_bytes == 0) ≡ false
unfolding run_all run_op begin_step start_deadline require_ready_for_next and_then begin_attempt
    charge_attempt next_allowance attempt add_checked remaining same_phase commit_request_body
    commit_attempt_failure commit_attempt_usage charge_usage commit_retry_wait abort_page fail
    is_terminal
bodied = refl

commit_request_body_iff_example :
    ((commit_request_body (after (step 5 ∷ attempts 6 ∷ [])) 30).1 ≡ ok tt)
    ↔ (0 < 30)
      × (30 ≤ (after (step 5 ∷ attempts 6 ∷ [])).active_allowance.serialized_request_body_bytes)
commit_request_body_iff_example =
    commit_request_body_iff (after (step 5 ∷ attempts 6 ∷ [])) 30
      (account-IsSound clock limits (step 5 ∷ attempts 6 ∷ []) made) requesting-IsSmall at_request
      bodied

abbrev failed_once : Account
failed_once = after failing

failed_once-IsSound : IsSound failed_once
failed_once-IsSound = account-IsSound clock limits failing made

formed : is_malformed failed_once.profile ≡ false
unfolding run_all run_op begin_step start_deadline require_ready_for_next and_then begin_attempt
    charge_attempt next_allowance attempt add_checked remaining same_phase commit_request_body
    commit_attempt_failure commit_attempt_usage charge_usage commit_retry_wait abort_page fail
    is_terminal is_malformed
formed = refl

checked : require_retry_attempt_resources failed_once 30 ≡ ok tt
unfolding run_all run_op begin_step start_deadline require_ready_for_next and_then begin_attempt
    charge_attempt next_allowance attempt add_checked remaining same_phase commit_request_body
    commit_attempt_failure commit_attempt_usage charge_usage commit_retry_wait abort_page fail
    is_terminal require_retry_attempt_resources can_begin_retry_attempt
checked = refl

early : 40 < failed_once.deadline
unfolding run_all run_op begin_step start_deadline require_ready_for_next and_then begin_attempt
    charge_attempt next_allowance attempt add_checked remaining same_phase commit_request_body
    commit_attempt_failure commit_attempt_usage charge_usage commit_retry_wait abort_page fail
    is_terminal
early = omega arith

failed_once-IsSmall : IsSmall failed_once.profile
unfolding run_all run_op begin_step start_deadline require_ready_for_next and_then begin_attempt
    charge_attempt next_allowance attempt add_checked remaining same_phase commit_request_body
    commit_attempt_failure commit_attempt_usage charge_usage commit_retry_wait abort_page fail
    is_terminal
failed_once-IsSmall = ground arith

failed_once_bodied : (failed_once.profile.page.serialized_request_body_bytes == 0) ≡ false
unfolding run_all run_op begin_step start_deadline require_ready_for_next and_then begin_attempt
    charge_attempt next_allowance attempt add_checked remaining same_phase commit_request_body
    commit_attempt_failure commit_attempt_usage charge_usage commit_retry_wait abort_page fail
    is_terminal
failed_once_bodied = refl

retry_is_funded_example :
    (begin_attempt failed_once 40 ≡ (requested failed_once, ok (granted failed_once)))
    × (0 < (granted failed_once).header_bytes)
    × (0 < (granted failed_once).wire_response_bytes)
    × (0 < (granted failed_once).decompressed_response_bytes)
retry_is_funded_example = retry_is_funded failed_once 30 40 failed_once-IsSound formed checked early

retry_body_fits_example : (commit_request_body (begin_attempt failed_once 40).0 30).1 ≡ ok tt
retry_body_fits_example =
    retry_body_fits failed_once 30 40 failed_once-IsSound formed checked early failed_once-IsSmall
      failed_once_bodied
