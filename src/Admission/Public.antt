-- ===== src/Admission/Public.antt =====
-- The named acquisitions of `AdmissionController` and what it shows of its usage, from the end of
-- src/runtime/execution/admission_controller.cpp.
use duckdb_fdw.Base.{ℕ, ◌≡◌, ap, ◌∙◌, fun_ext, Bool, not, some, [], if◌then◌else◌}
use duckdb_fdw.Admission.Identity.{Hasher, Identity}
use duckdb_fdw.Admission.Usage.{Reason}
use duckdb_fdw.Admission.Usage.Load.{everyone}
use duckdb_fdw.Admission.Profile.{ResourceKind, QueueKind, Profile}
use duckdb_fdw.Admission.Controller.{SharedState, WaitPolicy, is_open, initial_state}
use duckdb_fdw.Admission.Controller.Tickets.{
  resource_load, queue_load, resource_load-nil, queue_load-nil,
}
use duckdb_fdw.Admission.Acquire.{
  Outcome, invalid_argument, Request, Entry, acquire_queued, acquire_immediate,
}
use duckdb_fdw.Admission.Acquire.Invariant.{System, Inv, Reach, controller-Inv}

abbrev request_for : ResourceKind → QueueKind → Identity → WaitPolicy → Bool → Request
request_for resource queue identity wait held = record {
  resource = resource;
  queue = some queue;
  identity = identity;
  wait = wait;
  permit_held = held;
}

module _ (h : Hasher) (s : SharedState) (identity : Identity) where
  unfoldable pub acquire_credential_resolution : WaitPolicy → Bool → Entry → SharedState × Outcome
  acquire_credential_resolution wait held e =
      if identity.complete
      then (s, invalid_argument)
      else acquire_queued h s
          (request_for ResourceKind.credential_resolution QueueKind.credential_resolution identity
            wait held)
          e

  abbrev pub acquire_scan : WaitPolicy → Bool → Entry → SharedState × Outcome
  acquire_scan wait held e =
      acquire_queued h s (request_for ResourceKind.active_scan QueueKind.scan identity wait held) e

  abbrev pub acquire_request : WaitPolicy → Bool → Entry → SharedState × Outcome
  acquire_request wait held e =
      acquire_queued h s (request_for ResourceKind.request QueueKind.request identity wait held) e

  abbrev pub acquire_retry_waiter : Bool → SharedState × Outcome
  acquire_retry_waiter held =
      acquire_immediate h s ResourceKind.retry_waiter identity 1 Reason.retry_wait_saturated held

  abbrev pub acquire_rate_limit_waiter : Bool → SharedState × Outcome
  acquire_rate_limit_waiter held =
      acquire_immediate h s ResourceKind.rate_limit_waiter identity 1
        Reason.rate_limit_wait_saturated held

  abbrev pub reserve_buffered_bytes : ℕ → Bool → SharedState × Outcome
  reserve_buffered_bytes bytes held =
      acquire_immediate h s ResourceKind.buffered_bytes identity bytes
        Reason.buffered_bytes_exhausted held

  abbrev pub reserve_buffered_rows : ℕ → Bool → SharedState × Outcome
  reserve_buffered_rows rows held =
      acquire_immediate h s ResourceKind.buffered_rows identity rows Reason.buffered_rows_exhausted
        held

abbrev pub is_closed : SharedState → Bool
is_closed s = not (is_open s.terminal_reason)

pub record UsageSnapshot : Type 0 where
  pub credential_resolutions : ℕ
  pub active_scans : ℕ
  pub in_flight_requests : ℕ
  pub retry_waiters : ℕ
  pub rate_limit_waiters : ℕ
  pub buffered_bytes : ℕ
  pub buffered_rows : ℕ
  pub queued_credential_resolutions : ℕ
  pub queued_scan_admissions : ℕ
  pub queued_request_admissions : ℕ

abbrev snapshot : (ResourceKind → ℕ) → (QueueKind → ℕ) → UsageSnapshot
snapshot r q = record {
  credential_resolutions = r ResourceKind.credential_resolution;
  active_scans = r ResourceKind.active_scan;
  in_flight_requests = r ResourceKind.request;
  retry_waiters = r ResourceKind.retry_waiter;
  rate_limit_waiters = r ResourceKind.rate_limit_waiter;
  buffered_bytes = r ResourceKind.buffered_bytes;
  buffered_rows = r ResourceKind.buffered_rows;
  queued_credential_resolutions = q QueueKind.credential_resolution;
  queued_scan_admissions = q QueueKind.scan;
  queued_request_admissions = q QueueKind.request;
}

unfoldable pub usage : SharedState → UsageSnapshot
usage s = snapshot (λ r. (s.resources r).global) (λ q. (s.queues q).global)

-- A snapshot of zeros.
abbrev pub idle : UsageSnapshot
idle = snapshot (λ r. 0) (λ q. 0)

-- Nothing leaks: when every permit has been released and no ticket waits or is granted, whatever
-- was acquired, resized, cancelled, timed out, faulted or closed before, the usage is all zeros.
pub idle-usage :
    (h : Hasher) (profile : Profile) (initial_ticket : ℕ) {s : SharedState} {z : System}
    → initial_state profile initial_ticket ≡ some s
    → Reach h (record { shared = s; permits = [] }) z
    → z.permits ≡ []
    → z.shared.granted ≡ []
    → z.shared.tickets ≡ []
    → usage z.shared ≡ idle
unfolding usage
idle-usage h profile initial_ticket {s} {z} e r no_permits no_granted no_tickets =
    ap (λ f. snapshot f (λ q. (z.shared.queues q).global)) (fun_ext resource)
    ∙ ap (snapshot (λ r. 0)) (fun_ext queue)
  where
    v : Inv h z
    v = controller-Inv h profile initial_ticket e r

    resource : (r : ResourceKind) → (z.shared.resources r).global ≡ 0
    resource r =
        (v.resources r).global
        ∙ ap (λ ps. resource_load ps z.shared.granted r everyone) no_permits
        ∙ ap (λ ts. resource_load [] ts r everyone) no_granted
        ∙ resource_load-nil r everyone

    queue : (q : QueueKind) → (z.shared.queues q).global ≡ 0
    queue q =
        (v.queues q).global
        ∙ ap (λ ts. queue_load ts q everyone) no_tickets
        ∙ queue_load-nil q everyone
