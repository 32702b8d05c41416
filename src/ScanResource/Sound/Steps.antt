-- ===== src/ScanResource/Sound/Steps.antt =====
-- Each method of the account keeps the invariant.
use duckdb_fdw.Base.{ℕ, ◌≡◌, sym, subst, List, [], ◌∷◌, arith}
use duckdb_fdw.ScanResource.Types.{Limits, ok, Account, TransportUsage, DecodedUsage, Clock}
use duckdb_fdw.ScanResource.Profile.{create, new_account, split_waiting, add_checked}
use duckdb_fdw.ScanResource.Account.{fail, attempt, same_phase, start_deadline}
use duckdb_fdw.ScanResource.Charge.{
  commit_request_body, commit_attempt_usage, commit_attempt_failure, commit_transport, charge_usage,
  commit_decoded_page, commit_retry_wait, commit_rate_limit_wait, commit_admission_wait,
  commit_remote_transport_time, abort_page, Op, step, attempts, body, retry_wait, rate_limit_wait,
  transport_time, failure, transport, decoded, completed, admission_wait, aborted, run_op, run_all,
}
use duckdb_fdw.ScanResource.Sound.Attempt.{begin_attempt-IsSound}
use duckdb_fdw.ScanResource.Sound.Ready.{begin_step-IsSound, complete_page-IsSound}
use duckdb_fdw.ScanResource.Sound.{
  IsSound, in_request, is_decoded, is_step_active, is_request_active, undecoded,
}

pub start_deadline-IsSound :
    (a : Account) (k : Clock) (now : ℕ) → IsSound a → IsSound (start_deadline k a now).0
unfolding start_deadline fail attempt add_checked same_phase in_request is_decoded is_step_active
    is_request_active undecoded
start_deadline-IsSound a k now v = record {
  fits = ground (arith, v.fits, v.in_phase);
  in_phase = ground (arith, v.fits, v.in_phase);
}

pub commit_request_body-IsSound :
    (a : Account) (bytes : ℕ) → IsSound a → IsSound (commit_request_body a bytes).0
unfolding commit_request_body fail attempt add_checked same_phase in_request is_decoded
    is_step_active is_request_active undecoded
commit_request_body-IsSound a bytes v = record {
  fits = ground (arith, v.fits, v.in_phase);
  in_phase = ground (arith, v.fits, v.in_phase);
}

pub commit_attempt_failure-IsSound :
    (a : Account) (u : TransportUsage) → IsSound a → IsSound (commit_attempt_failure a u).0
unfolding commit_attempt_failure commit_attempt_usage charge_usage fail attempt add_checked
    same_phase in_request is_decoded is_step_active is_request_active undecoded
commit_attempt_failure-IsSound a u v = record {
  fits = ground (arith, v.fits, v.in_phase);
  in_phase = ground (arith, v.fits, v.in_phase);
}

pub commit_transport-IsSound :
    (a : Account) (u : TransportUsage) → IsSound a → IsSound (commit_transport a u).0
unfolding commit_transport commit_attempt_usage charge_usage fail attempt add_checked same_phase
    in_request is_decoded is_step_active is_request_active undecoded
commit_transport-IsSound a u v = record {
  fits = ground (arith, v.fits, v.in_phase);
  in_phase = ground (arith, v.fits, v.in_phase);
}

pub commit_decoded_page-IsSound :
    (a : Account) (u : DecodedUsage) → IsSound a → IsSound (commit_decoded_page a u).0
unfolding commit_decoded_page fail attempt add_checked same_phase in_request is_decoded
    is_step_active is_request_active undecoded
commit_decoded_page-IsSound a u v = record {
  fits = ground (arith, v.fits, v.in_phase);
  in_phase = ground (arith, v.fits, v.in_phase);
}

pub commit_retry_wait-IsSound :
    (a : Account) (n : ℕ) → IsSound a → IsSound (commit_retry_wait a n).0
unfolding commit_retry_wait fail attempt add_checked same_phase in_request is_decoded is_step_active
    is_request_active undecoded
commit_retry_wait-IsSound a n v = record {
  fits = ground (arith, v.fits, v.in_phase);
  in_phase = ground (arith, v.fits, v.in_phase);
}

pub commit_rate_limit_wait-IsSound :
    (a : Account) (n : ℕ) → IsSound a → IsSound (commit_rate_limit_wait a n).0
unfolding commit_rate_limit_wait fail attempt add_checked same_phase in_request is_decoded
    is_step_active is_request_active undecoded
commit_rate_limit_wait-IsSound a n v = record {
  fits = ground (arith, v.fits, v.in_phase);
  in_phase = ground (arith, v.fits, v.in_phase);
}

pub commit_admission_wait-IsSound :
    (a : Account) (n limit : ℕ) → IsSound a → IsSound (commit_admission_wait a n limit).0
unfolding commit_admission_wait fail attempt add_checked same_phase in_request is_decoded
    is_step_active is_request_active undecoded
commit_admission_wait-IsSound a n limit v = record {
  fits = ground (arith, v.fits, v.in_phase);
  in_phase = ground (arith, v.fits, v.in_phase);
}

pub commit_remote_transport_time-IsSound :
    (a : Account) (n : ℕ) → IsSound a → IsSound (commit_remote_transport_time a n).0
unfolding commit_remote_transport_time fail attempt add_checked same_phase in_request is_decoded
    is_step_active is_request_active undecoded
commit_remote_transport_time-IsSound a n v = record {
  fits = ground (arith, v.fits, v.in_phase);
  in_phase = ground (arith, v.fits, v.in_phase);
}

pub abort_page-IsSound : (a : Account) → IsSound a → IsSound (abort_page a)
unfolding abort_page fail attempt add_checked same_phase in_request is_decoded is_step_active
    is_request_active undecoded
abort_page-IsSound a v = record {
  fits = ground (arith, v.fits, v.in_phase);
  in_phase = ground (arith, v.fits, v.in_phase);
}

pub run_op-IsSound : (k : Clock) (a : Account) (o : Op) → IsSound a → IsSound (run_op k a o)
unfolding run_op
run_op-IsSound k a (step now) v = begin_step-IsSound k a now v
run_op-IsSound k a (attempts now) v = begin_attempt-IsSound a v now
run_op-IsSound k a (body bytes) v = commit_request_body-IsSound a bytes v
run_op-IsSound k a (retry_wait n) v = commit_retry_wait-IsSound a n v
run_op-IsSound k a (rate_limit_wait n) v = commit_rate_limit_wait-IsSound a n v
run_op-IsSound k a (transport_time n) v = commit_remote_transport_time-IsSound a n v
run_op-IsSound k a (failure u) v = commit_attempt_failure-IsSound a u v
run_op-IsSound k a (transport u) v = commit_transport-IsSound a u v
run_op-IsSound k a (decoded u) v = commit_decoded_page-IsSound a u v
run_op-IsSound k a (completed has_next now) v = complete_page-IsSound a has_next now v
run_op-IsSound k a (admission_wait n limit) v = commit_admission_wait-IsSound a n limit v
run_op-IsSound k a aborted v = abort_page-IsSound a v

run_all-IsSound : (k : Clock) (a : Account) (os : List Op) → IsSound a → IsSound (run_all k a os)
unfolding run_all
run_all-IsSound k a [] v = v
run_all-IsSound k a (o ∷ os) v = run_all-IsSound k (run_op k a o) os (run_op-IsSound k a o v)

new_account-IsSound : (p : Limits) → IsSound (new_account p)
unfolding in_request is_decoded is_step_active is_request_active undecoded
new_account-IsSound p = record { fits = ground arith; in_phase = ground arith }

create_ok :
    (k : Clock) (p : Limits) {a : Account} → create k p ≡ ok a → a ≡ new_account (split_waiting p)
unfolding create
create_ok k p e = ground arith

-- From the constructor on, whatever methods are called in whatever order, failures included: the
-- counters of attempts, pages, bytes, records, decoded memory and of the waits in all, for retries
-- and for rate limits are within the scan's limits; the cumulative remote transport and admission
-- waiting times fit a uint64_t, and no more is claimed of them; the waits of the two kinds are within
-- the total, at most one request is active and exactly in the phases of a request, decoded memory is
-- retained only between `CommitDecodedPage` and `CompletePage`, and the allowance that is out can be
-- paid.
pub account-IsSound :
    (k : Clock) (p : Limits) (os : List Op) {a : Account}
    → create k p ≡ ok a
    → IsSound (run_all k a os)
account-IsSound k p os e =
    subst (λ a. IsSound (run_all k a os)) (sym (create_ok k p e))
      (run_all-IsSound k (new_account (split_waiting p)) os (new_account-IsSound (split_waiting p)))
