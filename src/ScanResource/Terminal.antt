-- ===== src/ScanResource/Terminal.antt =====
-- After the end of the scan, or a failure, nothing more is charged.
use duckdb_fdw.Base.{◌≡◌, refl, ◌∙◌, ap, Bool, true, false, List, [], ◌∷◌, arith}
use duckdb_fdw.ScanResource.Types.{Phase, exhausted, failed, Account, Clock}
use duckdb_fdw.ScanResource.Account.{fail, same_phase, begin_step, begin_attempt}
use duckdb_fdw.ScanResource.Charge.{
  commit_request_body, commit_attempt_usage, commit_attempt_failure, commit_transport,
  commit_decoded_page, complete_page, commit_retry_wait, commit_rate_limit_wait,
  commit_admission_wait, commit_remote_transport_time, abort_page, Op, step, attempts, body,
  retry_wait, rate_limit_wait, transport_time, failure, transport, decoded, completed,
  admission_wait, aborted, run_op, run_all,
}

unfoldable pub is_terminal : Phase → Bool
is_terminal exhausted = true
is_terminal failed = true
is_terminal _ = false

-- The account as `AbortPage` leaves it.
run_op_terminal :
    (k : Clock) (a : Account) (o : Op) → is_terminal a.state ≡ true → run_op k a o ≡ abort_page a
unfolding run_op abort_page is_terminal same_phase fail begin_step begin_attempt commit_request_body
    commit_attempt_usage commit_attempt_failure commit_transport commit_decoded_page complete_page
    commit_retry_wait commit_rate_limit_wait commit_admission_wait commit_remote_transport_time
run_op_terminal k a (step now) t = ground arith
run_op_terminal k a (attempts now) t = ground arith
run_op_terminal k a (body bytes) t = ground arith
run_op_terminal k a (retry_wait n) t = ground arith
run_op_terminal k a (rate_limit_wait n) t = ground arith
run_op_terminal k a (transport_time n) t = ground arith
run_op_terminal k a (failure u) t = ground arith
run_op_terminal k a (transport u) t = ground arith
run_op_terminal k a (decoded u) t = ground arith
run_op_terminal k a (completed has_next now) t = ground arith
run_op_terminal k a (admission_wait n limit) t = ground arith
run_op_terminal k a aborted t = refl

-- After `EXHAUSTED` or `FAILED` every call, of whatever method, leaves the account as `AbortPage`
-- does: no attempt, page, byte, record or wait is charged any more, and nothing is active.
pub terminal_charges_nothing :
    (k : Clock) (a : Account) (o : Op) (os : List Op)
    → is_terminal a.state ≡ true
    → run_all k a (o ∷ os) ≡ abort_page a
unfolding run_all abort_page is_terminal
terminal_charges_nothing k a o [] t = run_op_terminal k a o t
terminal_charges_nothing k a o (o' ∷ os) t =
    ap (λ b. run_all k b (o' ∷ os)) (run_op_terminal k a o t)
    ∙ terminal_charges_nothing k (abort_page a) o' os refl
