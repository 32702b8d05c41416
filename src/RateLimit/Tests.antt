-- ===== src/RateLimit/Tests.antt =====
-- The coordinator at concrete inputs.
use duckdb_fdw.Base.{ℕ, ◌≤◌, ◌≡◌, ◌≢◌, refl, true, false, some, [], ◌∷◌, arith}
use duckdb_fdw.RateLimit.Table.{find, replace, remove}
use duckdb_fdw.RateLimit.Key.{
  QuotaBucketKey, shared, bucket_key, same_key, same_bucket, principal_equal,
}
use duckdb_fdw.RateLimit.Coordinator.{
  Status, Bucket, Coordinator, hard_limits, create, is_open, put_back, enter_terminal, complete,
}
use duckdb_fdw.RateLimit.Sections.{
  lost_authority, permitted_at, Turn, wait_at, wait_turn, acquire, acquire_new, acquire_known,
  requeue, close,
}
use duckdb_fdw.RateLimit.Invariant.{Inv, holds}
use duckdb_fdw.RateLimit.Steps.{
  System, system, handed, acquires, completes, closes, Reach, starts, steps, coordinator-Inv,
}
use duckdb_fdw.RateLimit.Permits.{permits-exclusive, requeue-keeps_authority}
use duckdb_fdw.RateLimit.Fairness.{IsDue, wait_turn-IsDue, complete-hands_over}
use duckdb_fdw.RateLimit.Closing.{closed-empty}

abbrev issues : QuotaBucketKey
issues = record {
  destination = record { scheme = "https"; host = "api.example.com"; explicit_port = 443 };
  operation = record { connector_id = "github"; package_major = 1; operation_family = "issues" };
  principal = shared "tenant";
  remote_bucket = some "core";
}

abbrev new_coordinator : Coordinator
new_coordinator = record {
  terminal_status = Status.acquired;
  next_ticket = 1;
  total_waiters = 0;
  limits = hard_limits;
  buckets = [];
}

abbrev at : ℕ → Turn
at now = record { cancelled = false; now = now }

-- One caller waits for the end of an embargo, and one for a permit that is out.
abbrev embargoed : System
embargoed = handed [] (acquire new_coordinator issues 10 100 false (at 5))

abbrev held : System
held = handed [] (acquire new_coordinator issues 5 100 false (at 5))

abbrev contended : System
contended = handed held.permits (acquire held.shared issues 5 100 false (at 6))

abbrev first_bucket : Bucket
first_bucket = record { eligible = 10; permitted = false; tickets = 1 ∷ [] }

abbrev contended_bucket : Bucket
contended_bucket = record { eligible = 5; permitted = true; tickets = 2 ∷ [] }

start : Reach hard_limits 1 (system new_coordinator [])
unfolding create
start = starts new_coordinator refl (omega arith)

embargoed-Reach : Reach hard_limits 1 embargoed
embargoed-Reach =
    steps (system new_coordinator []) embargoed start
      (acquires new_coordinator [] issues 10 100 false (at 5))

held-Reach : Reach hard_limits 1 held
held-Reach =
    steps (system new_coordinator []) held start
      (acquires new_coordinator [] issues 5 100 false (at 5))

contended-Reach : Reach hard_limits 1 contended
contended-Reach =
    steps held contended held-Reach (acquires held.shared held.permits issues 5 100 false (at 6))

contended_open : is_open contended.shared.terminal_status ≡ true
unfolding acquire acquire_new acquire_known wait_turn wait_at find replace same_key same_bucket
    principal_equal is_open
contended_open = refl

contended_found : find issues contended.shared.buckets ≡ some contended_bucket
unfolding acquire acquire_new acquire_known wait_turn wait_at find replace same_key same_bucket
    principal_equal is_open
contended_found = refl

contended_Reach : Reach hard_limits 1 (system contended.shared (issues ∷ []))
unfolding acquire acquire_new acquire_known wait_turn wait_at find replace same_key same_bucket
    principal_equal is_open
contended_Reach = contended-Reach

embargoed_found : find issues embargoed.shared.buckets ≡ some first_bucket
unfolding acquire acquire_new acquire_known wait_turn wait_at find replace same_key same_bucket
    principal_equal is_open
embargoed_found = refl

embargoed_due : (wait_turn embargoed.shared issues 1 100 (at 10)).1 ≡ permitted_at issues
unfolding acquire acquire_new acquire_known wait_turn wait_at find replace same_key same_bucket
    principal_equal is_open
embargoed_due = refl

-- The permit came back and the coordinator was closed.
abbrev completed : System
completed = system (complete contended.shared issues) []

abbrev closed : System
closed = system (close completed.shared) []

closed-Reach : Reach hard_limits 1 closed
closed-Reach =
    steps completed closed
      (steps (system contended.shared (issues ∷ [])) completed contended_Reach
        (completes contended.shared [] [] issues))
      (closes completed.shared [])

closed_status : is_open closed.shared.terminal_status ≡ false
unfolding acquire acquire_new acquire_known wait_turn wait_at find replace same_key same_bucket
    principal_equal is_open complete put_back remove close enter_terminal
closed_status = refl

coordinator-Inv_example : Inv contended.shared contended.permits
coordinator-Inv_example = coordinator-Inv hard_limits 1 contended contended-Reach

permits-exclusive_example : holds issues contended.permits ≤ 1
permits-exclusive_example = permits-exclusive hard_limits 1 contended contended-Reach issues

requeue-keeps_authority_example :
    (requeue contended.shared issues 5 100 false (at 7)).1 ≢ lost_authority
requeue-keeps_authority_example =
    requeue-keeps_authority hard_limits 1 contended.shared [] [] issues contended_Reach 5 100 false
      (at 7)

wait_turn-IsDue_example : IsDue first_bucket 1 100 (at 10)
wait_turn-IsDue_example =
    wait_turn-IsDue hard_limits 1 embargoed embargoed-Reach issues first_bucket embargoed_found 1
      100 (at 10) issues embargoed_due

complete-hands_over_example :
    (wait_turn (complete contended.shared issues) issues 2 100 (at 8)).1 ≡ permitted_at issues
complete-hands_over_example =
    complete-hands_over hard_limits 1 contended.shared [] [] issues contended_bucket 2 [] 100 (at 8)
      contended_Reach contended_open contended_found refl refl (omega arith) (omega arith)

closed-empty_example : (closed.shared.buckets ≡ []) × (closed.shared.total_waiters ≡ 0)
closed-empty_example = closed-empty hard_limits 1 closed closed-Reach closed_status refl
