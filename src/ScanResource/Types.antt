-- ===== src/ScanResource/Types.antt =====
-- The limits, counters and states of a scan's resources, from scan_resource_accounting.hpp. A time
-- point is its count of ticks since the epoch of the steady clock.
use duckdb_fdw.Base.{ℕ, Bool}

pub record PageLimits : Type 0 where
  pub request_attempts : ℕ
  pub header_bytes : ℕ
  pub wire_response_bytes : ℕ
  pub decompressed_response_bytes : ℕ
  pub decoded_records : ℕ
  pub decoded_memory_bytes : ℕ
  pub active_requests : ℕ
  pub serialized_request_body_bytes : ℕ

pub record ScanLimits : Type 0 where
  pub request_attempts : ℕ
  pub pages : ℕ
  pub header_bytes : ℕ
  pub wire_response_bytes : ℕ
  pub decompressed_response_bytes : ℕ
  pub decoded_records : ℕ
  pub retained_decoded_memory_bytes : ℕ
  pub max_wall_milliseconds : ℕ
  pub active_requests : ℕ
  pub serialized_request_body_bytes : ℕ
  pub cumulative_waiting_milliseconds : ℕ
  pub cumulative_retry_waiting_milliseconds : ℕ
  pub cumulative_rate_limit_waiting_milliseconds : ℕ
  pub cumulative_remote_transport_milliseconds : ℕ

pub record Limits : Type 0 where
  pub page : PageLimits
  pub scan : ScanLimits

pub record Allowance : Type 0 where
  pub header_bytes : ℕ
  pub wire_response_bytes : ℕ
  pub decompressed_response_bytes : ℕ
  pub decoded_records : ℕ
  pub decoded_memory_bytes : ℕ
  pub serialized_request_body_bytes : ℕ
  pub deadline : ℕ

pub record TransportUsage : Type 0 where
  pub header_bytes : ℕ
  pub wire_response_bytes : ℕ
  pub decompressed_response_bytes : ℕ

pub record DecodedUsage : Type 0 where
  pub decoded_records : ℕ
  pub decoded_memory_bytes : ℕ

pub record Counts : Type 0 where
  pub request_attempts : ℕ
  pub pages : ℕ
  pub header_bytes : ℕ
  pub wire_response_bytes : ℕ
  pub decompressed_response_bytes : ℕ
  pub decoded_records : ℕ
  pub retained_decoded_memory_bytes : ℕ
  pub peak_decoded_memory_bytes : ℕ
  pub active_requests : ℕ
  pub serialized_request_body_bytes : ℕ
  pub cumulative_waiting_milliseconds : ℕ
  pub cumulative_retry_waiting_milliseconds : ℕ
  pub cumulative_rate_limit_waiting_milliseconds : ℕ
  pub cumulative_remote_transport_milliseconds : ℕ
  pub cumulative_admission_waiting_milliseconds : ℕ

pub data Phase : Type 0 where
  ready step_active request_active request_body_committed transport_committed page_decoded exhausted
        failed :
      Phase

-- The field that a `ScanResourceError` names.
pub data Field : Type 0 where
  resource_profile resource_accounting resource_state wall_milliseconds pages request_attempts
        header_bytes response_bytes decompressed_bytes decoded_records decoded_memory_bytes
        request_body_bytes cumulative_waiting_milliseconds admission_waiting_milliseconds :
      Field

-- What a method returns, or the error that it throws.
pub data Result {ℓ} (A : Type ℓ) : Type ℓ where
  ok : A → Result A
  error : Field → Result A

-- `deadline` is read only once `deadline_started`.
pub record Account : Type 0 where
  pub profile : Limits
  pub counters : Counts
  pub state : Phase
  pub deadline_started : Bool
  pub deadline : ℕ
  pub active_allowance : Allowance
  pub current_step_attempts : ℕ
  pub current_step_page_committed : Bool

-- `std::chrono::steady_clock` of the platform: how many of its ticks make a millisecond, and the
-- greatest duration.
pub record Clock : Type 0 where
  pub ticks : ℕ
  pub maximum : ℕ
