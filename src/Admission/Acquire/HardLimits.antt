-- ===== src/Admission/Acquire/HardLimits.antt =====
-- The hard profile as a ceiling on every controller: AdmissionProfile::Hard and ValidateProfile of
-- src/runtime/execution/admission_controller.cpp.
use duckdb_fdw.Base.{ℕ, ◌≤◌, ◌≡◌, true, some, [], arith}
use duckdb_fdw.Admission.Identity.{Hasher}
use duckdb_fdw.Admission.Usage.{DimensionLimits}
use duckdb_fdw.Admission.Usage.Load.{Load}
use duckdb_fdw.Admission.Usage.Fits.{Within}
use duckdb_fdw.Admission.Profile.{
  ResourceKind, QueueKind, Profile, hard, resource_limits, queue_limits, validate_dimension,
  validated,
}
use duckdb_fdw.Admission.Controller.{SharedState, initial_state}
use duckdb_fdw.Admission.Controller.Tickets.{resource_load, queue_load}
use duckdb_fdw.Admission.Acquire.Invariant.{System, Reach, controller-Inv}

Within-bound :
    (value bound : DimensionLimits) (l : Load)
    → validate_dimension value bound ≡ true
    → Within value l
    → Within bound l
unfolding validate_dimension
Within-bound value bound l e w =
    let fits : (value.global ≤ bound.global)
        × (value.connector ≤ bound.connector)
        × (value.destination ≤ bound.destination)
        × (value.principal ≤ bound.principal)
        × (value.bulkhead ≤ bound.bulkhead) =
      ground (arith, e) in
    record {
      global = omega (arith, w.global, fits.0);
      connector = λ key. omega (arith, w.connector key, fits.1);
      destination = λ key. omega (arith, w.destination key, fits.2);
      principal = λ key. omega (arith, w.principal key, fits.3);
      bulkhead = λ key. omega (arith, w.bulkhead key, fits.4);
    }

-- Whatever profile a controller was made with, no dimension of a resource or of a queue ever holds
-- more than the hard profile has for it.
pub reached-Within :
    (h : Hasher) (profile : Profile) (initial_ticket : ℕ) {s : SharedState} {z : System}
    → initial_state profile initial_ticket ≡ some s
    → Reach h (record { shared = s; permits = [] }) z
    → ((r : ResourceKind)
        → Within (resource_limits hard r) (resource_load z.permits z.shared.granted r))
      × ((q : QueueKind) → Within (queue_limits hard q) (queue_load z.shared.tickets q))
reached-Within h profile initial_ticket e reach =
    let v = controller-Inv h profile initial_ticket e reach in
    let bounds = validated _ v.valid in
    (
      λ r. Within-bound _ (resource_limits hard r) _ (bounds.0 r) (v.within r),
      λ q. Within-bound _ (queue_limits hard q) _ (bounds.1 q) (v.queues_within q),
    )
