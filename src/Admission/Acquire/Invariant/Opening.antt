-- ===== src/Admission/Acquire/Invariant/Opening.antt =====
-- A new controller has the invariant, and closing one keeps it.
use duckdb_fdw.Base.{ℕ, ◌≡◌, subst, fun_ext, true, inl, inr, some, List, [], arith, Bool-cases}
use duckdb_fdw.Admission.Identity.{Hasher}
use duckdb_fdw.Admission.Usage.{DimensionLimits, Reason, empty_counters}
use duckdb_fdw.Admission.Usage.Load.{empty_counters-Tracks, Tracks-eq}
use duckdb_fdw.Admission.Usage.Fits.{Within}
use duckdb_fdw.Admission.Profile.{Profile, resource_limits, queue_limits, validate_profile}
use duckdb_fdw.Admission.Controller.{PermitHandle, SharedState, is_open, initial_state, empty_state}
use duckdb_fdw.Admission.Controller.Tickets.{resource_load-nil, queue_load-nil}
use duckdb_fdw.Admission.Acquire.{close}
use duckdb_fdw.Admission.Acquire.Invariant.Defs.{Inv}
use duckdb_fdw.Admission.Acquire.Invariant.Parts.{system}

-- A sound state under another terminal reason.
pub close_with-Inv :
    (h : Hasher) (s : SharedState) (permits : List PermitHandle) (reason : Reason)
    → Inv h (system h s permits)
    → Inv h (system h (record s { terminal_reason = reason }) permits)
close_with-Inv h s permits reason v = record {
  valid = v.valid;
  resources = v.resources;
  within = v.within;
  queues = v.queues;
  queues_within = v.queues_within;
}

pub close-Inv :
    (h : Hasher) (s : SharedState) (permits : List PermitHandle)
    → Inv h (system h s permits)
    → Inv h (system h (close s) permits)
unfolding close
close-Inv h s permits v = elim (Bool-cases (is_open s.terminal_reason)) [
  | inl opened ↦ rw opened (close_with-Inv h s permits Reason.runtime_closed v)
  | inr closed ↦ rw closed v
]

empty_state-Inv :
    (h : Hasher) (profile : Profile) (initial_ticket : ℕ)
    → validate_profile profile ≡ true
    → Inv h (system h (empty_state profile initial_ticket) [])
empty_state-Inv h profile initial_ticket valid = record {
  valid = valid;
  resources = λ r.
      Tracks-eq h empty_counters _ _ (λ select. omega (arith, resource_load-nil r select))
        (empty_counters-Tracks h);
  within = λ r.
      subst (Within (resource_limits profile r))
        (fun_ext λ select. omega (arith, resource_load-nil r select)) (nothing_within _);
  queues = λ q.
      Tracks-eq h empty_counters _ _ (λ select. omega (arith, queue_load-nil q select))
        (empty_counters-Tracks h);
  queues_within = λ q.
      subst (Within (queue_limits profile q))
        (fun_ext λ select. omega (arith, queue_load-nil q select)) (nothing_within _);
}
  where
    nothing_within : (limits : DimensionLimits) → Within limits (λ select. 0)
    nothing_within limits = record {
      global = omega arith;
      connector = λ key. omega arith;
      destination = λ key. omega arith;
      principal = λ key. omega arith;
      bulkhead = λ key. omega arith;
    }

-- A new controller holds nothing, and that soundly.
pub initial_state-Inv :
    (h : Hasher) (profile : Profile) (initial_ticket : ℕ) {s : SharedState}
    → initial_state profile initial_ticket ≡ some s
    → Inv h (system h s [])
unfolding initial_state
initial_state-Inv h profile initial_ticket {s} e = elim (Bool-cases (validate_profile profile)) [
  | inr invalid ↦ ground (arith, invalid)
  | inl valid ↦
      subst (λ t. Inv h (system h t [])) (ground (arith, valid))
        (empty_state-Inv h profile initial_ticket valid)
]
