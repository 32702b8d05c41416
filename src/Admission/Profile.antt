-- ===== src/Admission/Profile.antt =====
-- `AdmissionProfile` of src/runtime/execution/admission_controller.cpp: the limits of each resource
-- and queue, the hard profile and the validation against it.
use duckdb_fdw.Base.{
  ℕ, ◌*◌, ◌≤◌, ◌<◌, ◌≡◌, Bool, true, ◌&&◌, ◌||◌, not, arith, ◌==◌, ltb, leb, u64_mod,
}
use duckdb_fdw.Admission.Usage.{Reason, DimensionLimits}

pub data ResourceKind : Type 0 where
  credential_resolution active_scan request retry_waiter rate_limit_waiter : ResourceKind
  buffered_bytes buffered_rows : ResourceKind

-- `QueueKind`; its NONE is the `none` of `Option QueueKind`.
pub data QueueKind : Type 0 where
  credential_resolution scan request : QueueKind

unfoldable pub resource_index : ResourceKind → ℕ
resource_index ResourceKind.credential_resolution = 0
resource_index ResourceKind.active_scan = 1
resource_index ResourceKind.request = 2
resource_index ResourceKind.retry_waiter = 3
resource_index ResourceKind.rate_limit_waiter = 4
resource_index ResourceKind.buffered_bytes = 5
resource_index ResourceKind.buffered_rows = 6

-- static_cast<size_t>(kind) - 1
unfoldable pub queue_index : QueueKind → ℕ
queue_index QueueKind.credential_resolution = 0
queue_index QueueKind.scan = 1
queue_index QueueKind.request = 2

pub record Profile : Type 0 where
  pub credential_resolutions : DimensionLimits
  pub queued_credential_resolutions : DimensionLimits
  pub active_scans : DimensionLimits
  pub in_flight_requests : DimensionLimits
  pub queued_scan_admissions : DimensionLimits
  pub queued_request_admissions : DimensionLimits
  pub retry_waiters : DimensionLimits
  pub rate_limit_waiters : DimensionLimits
  pub buffered_bytes : DimensionLimits
  pub buffered_rows : DimensionLimits
  pub provider_queue_timeout_milliseconds : ℕ
  pub scan_queue_timeout_milliseconds : ℕ
  pub request_queue_timeout_milliseconds : ℕ
  pub aggregate_request_waiting_milliseconds : ℕ
  pub interrupt_slice_milliseconds : ℕ

abbrev dimensions : ℕ → ℕ → ℕ → ℕ → ℕ → DimensionLimits
dimensions g c d p b = record {
  global = g;
  connector = c;
  destination = d;
  principal = p;
  bulkhead = b;
}

-- `AdmissionProfile::Hard()`, its fields in the order of the struct.
unfoldable pub hard : Profile
hard = record {
  credential_resolutions = dimensions 16 8 8 0 0;
  queued_credential_resolutions = dimensions 64 16 16 0 0;
  active_scans = dimensions 64 16 16 8 4;
  in_flight_requests = dimensions 32 8 8 4 2;
  queued_scan_admissions = dimensions 256 64 64 32 16;
  queued_request_admissions = dimensions 256 64 64 32 16;
  retry_waiters = dimensions 32 16 16 8 4;
  rate_limit_waiters = dimensions 32 16 16 8 4;
  buffered_bytes =
      dimensions (256 * 1024 * 1024) (128 * 1024 * 1024) (128 * 1024 * 1024) (64 * 1024 * 1024)
        (32 * 1024 * 1024);
  buffered_rows = dimensions 6400 3200 3200 1600 800;
  provider_queue_timeout_milliseconds = 1000;
  scan_queue_timeout_milliseconds = 1000;
  request_queue_timeout_milliseconds = 1000;
  aggregate_request_waiting_milliseconds = 5000;
  interrupt_slice_milliseconds = 5;
}

unfoldable pub validate_dimension : DimensionLimits → DimensionLimits → Bool
validate_dimension value bound =
    leb value.global bound.global
    && leb value.connector bound.connector
    && leb value.destination bound.destination
    && leb value.principal bound.principal
    && leb value.bulkhead bound.bulkhead

-- `ValidateProfile`: false where it throws std::invalid_argument.
unfoldable pub validate_profile : Profile → Bool
validate_profile p = not (
    not (validate_dimension p.credential_resolutions hard.credential_resolutions)
    || not (validate_dimension p.queued_credential_resolutions hard.queued_credential_resolutions)
    || not (validate_dimension p.active_scans hard.active_scans)
    || not (validate_dimension p.in_flight_requests hard.in_flight_requests)
    || not (validate_dimension p.queued_scan_admissions hard.queued_scan_admissions)
    || not (validate_dimension p.queued_request_admissions hard.queued_request_admissions)
    || not (validate_dimension p.retry_waiters hard.retry_waiters)
    || not (validate_dimension p.rate_limit_waiters hard.rate_limit_waiters)
    || not (validate_dimension p.buffered_bytes hard.buffered_bytes)
    || not (validate_dimension p.buffered_rows hard.buffered_rows)
    || ltb hard.provider_queue_timeout_milliseconds p.provider_queue_timeout_milliseconds
    || ltb hard.scan_queue_timeout_milliseconds p.scan_queue_timeout_milliseconds
    || ltb hard.request_queue_timeout_milliseconds p.request_queue_timeout_milliseconds
    || ltb hard.aggregate_request_waiting_milliseconds p.aggregate_request_waiting_milliseconds
    || p.interrupt_slice_milliseconds == 0
    || ltb hard.interrupt_slice_milliseconds p.interrupt_slice_milliseconds)

abbrev pub resource_limits : Profile → ResourceKind → DimensionLimits
resource_limits p ResourceKind.credential_resolution = p.credential_resolutions
resource_limits p ResourceKind.active_scan = p.active_scans
resource_limits p ResourceKind.request = p.in_flight_requests
resource_limits p ResourceKind.retry_waiter = p.retry_waiters
resource_limits p ResourceKind.rate_limit_waiter = p.rate_limit_waiters
resource_limits p ResourceKind.buffered_bytes = p.buffered_bytes
resource_limits p ResourceKind.buffered_rows = p.buffered_rows

abbrev pub queue_limits : Profile → QueueKind → DimensionLimits
queue_limits p QueueKind.credential_resolution = p.queued_credential_resolutions
queue_limits p QueueKind.scan = p.queued_scan_admissions
queue_limits p QueueKind.request = p.queued_request_admissions

abbrev pub saturated_reason : QueueKind → Reason
saturated_reason QueueKind.credential_resolution = Reason.credential_resolution_queue_saturated
saturated_reason QueueKind.scan = Reason.scan_queue_saturated
saturated_reason QueueKind.request = Reason.request_queue_saturated

abbrev pub timeout_reason : QueueKind → Reason
timeout_reason QueueKind.credential_resolution = Reason.credential_resolution_queue_timeout
timeout_reason QueueKind.scan = Reason.scan_queue_timeout
timeout_reason QueueKind.request = Reason.request_queue_timeout

-- Every limit of a validated profile leaves a uint64_t counter far from its end.
pub record IsSmall (p : Profile) : Type 0 where
  pub resource : (r : ResourceKind) → (resource_limits p r).global < u64_mod
  pub queue : (q : QueueKind) → (queue_limits p q).global < u64_mod

validate_dimension_global :
    (value bound : DimensionLimits)
    → validate_dimension value bound ≡ true
    → value.global ≤ bound.global
unfolding validate_dimension
validate_dimension_global value bound e = ground arith

-- The dimension of a profile that `ValidateProfile` compares for a resource or a queue.
abbrev IsValidDimension : (Profile → DimensionLimits) → Profile → Type 0
IsValidDimension f p = validate_dimension (f p) (f hard) ≡ true

pub validated :
    (p : Profile)
    → validate_profile p ≡ true
    → ((r : ResourceKind) → IsValidDimension (λ q. resource_limits q r) p)
      × ((q : QueueKind) → IsValidDimension (λ o. queue_limits o q) p)
unfolding validate_profile
validated p e = (resources, queues)
  where
    resources : (r : ResourceKind) → IsValidDimension (λ q. resource_limits q r) p
    resources ResourceKind.credential_resolution = ground arith
    resources ResourceKind.active_scan = ground arith
    resources ResourceKind.request = ground arith
    resources ResourceKind.retry_waiter = ground arith
    resources ResourceKind.rate_limit_waiter = ground arith
    resources ResourceKind.buffered_bytes = ground arith
    resources ResourceKind.buffered_rows = ground arith

    queues : (q : QueueKind) → IsValidDimension (λ o. queue_limits o q) p
    queues QueueKind.credential_resolution = ground arith
    queues QueueKind.scan = ground arith
    queues QueueKind.request = ground arith

hard-IsSmall : IsSmall hard
unfolding hard
hard-IsSmall = record { resource = resource; queue = queue }
  where
    resource : (r : ResourceKind) → (resource_limits hard r).global < u64_mod
    resource ResourceKind.credential_resolution = omega arith
    resource _ = omega arith

    queue : (q : QueueKind) → (queue_limits hard q).global < u64_mod
    queue QueueKind.credential_resolution = omega arith
    queue _ = omega arith

-- `ValidateProfile` accepts only profiles whose global limits fit a uint64_t counter.
pub validate_profile-IsSmall : (p : Profile) → validate_profile p ≡ true → IsSmall p
validate_profile-IsSmall p e = record {
  resource = λ r.
      omega (arith, validate_dimension_global _ _ ((validated p e).0 r), hard-IsSmall.resource r);
  queue =
      λ q. omega (arith, validate_dimension_global _ _ ((validated p e).1 q), hard-IsSmall.queue q);
}
