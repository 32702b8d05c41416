-- ===== src/Admission/Acquire/Invariant/Steps.antt =====
-- Every step keeps the invariant, and so every controller that callers reach has it.
use duckdb_fdw.Base.{ℕ, ◌≡◌, subst, some, []}
use duckdb_fdw.Admission.Identity.{Hasher}
use duckdb_fdw.Admission.Profile.{Profile}
use duckdb_fdw.Admission.Controller.{SharedState, initial_state}
use duckdb_fdw.Admission.Acquire.Invariant.Defs.{
  System, Inv, Step, acquires, turns, faults, takes, resizes, releases, closes, Reach, here, next,
}
use duckdb_fdw.Admission.Acquire.Invariant.Parts.{system}
use duckdb_fdw.Admission.Acquire.Invariant.Opening.{close-Inv, initial_state-Inv}
use duckdb_fdw.Admission.Acquire.Invariant.Acquiring.{
  claim_fault-Inv, take_turn-Inv, acquire_queued-Inv, acquire_immediate-Inv,
}
use duckdb_fdw.Admission.Acquire.Invariant.Permits.{release-Inv, resize-Inv}

module _ {h : Hasher} where
  -- Every critical section keeps the counters equal to what is held and waits, and all within
  -- their limits.
  pub Step-Inv : {y z : System} → Step h y z → Inv h y → Inv h z
  Step-Inv {y} (acquires q e) v = (acquire_queued-Inv h y.permits y.shared q e v).inv
  Step-Inv {y} (turns id r) v = take_turn-Inv h y.permits y.shared id r v
  Step-Inv {y} (faults id granting) v = claim_fault-Inv h y.permits y.shared id granting v
  Step-Inv {y} (takes resource i amount reason permit_held) v =
      (acquire_immediate-Inv h y.permits y.shared resource i amount reason permit_held v).inv
  Step-Inv {y} (resizes xs p ys bytes e) v =
      (resize-Inv h y.shared xs p ys (subst (λ ps. Inv h (system h y.shared ps)) e v) bytes).inv
  Step-Inv {y} (releases xs p ys granting e) v =
      release-Inv h y.shared xs p ys (subst (λ ps. Inv h (system h y.shared ps)) e v) granting
  Step-Inv {y} closes v = close-Inv h y.shared y.permits v

  pub Reach-Inv : {y z : System} → Inv h y → Reach h y z → Inv h z
  Reach-Inv v here = v
  Reach-Inv v (next r st) = Step-Inv st (Reach-Inv v r)

-- From a new controller on, whatever callers do in whatever order: each counter of a resource is
-- the sum of the amounts of the permits held and of the tickets granted, each counter of a queue
-- the number of tickets that wait, none is past its limit, and no uint64_t wraps.
pub controller-Inv :
    (h : Hasher) (profile : Profile) (initial_ticket : ℕ) {s : SharedState} {z : System}
    → initial_state profile initial_ticket ≡ some s
    → Reach h (record { shared = s; permits = [] }) z
    → Inv h z
controller-Inv h profile initial_ticket e r =
    Reach-Inv (initial_state-Inv h profile initial_ticket e) r
