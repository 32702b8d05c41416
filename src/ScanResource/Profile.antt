-- ===== src/ScanResource/Profile.antt =====
-- The helpers at the top of scan_resource_accounting.cpp, `ValidateProfile` and the constructor.
use duckdb_fdw.Base.{
  ℕ, ◌+◌, ◌-◌, ◌/◌, Bool, true, false, ◌&&◌, ◌||◌, not, Option, none, some, ◌==◌, ltb,
  if◌then◌else◌, u64_mod, int64_max,
}
use duckdb_fdw.ScanResource.Types.{Limits, Phase, Result, ok, error, Field, Account, Clock}

-- `AddChecked`; none is its exception.
unfoldable pub add_checked : ℕ → ℕ → ℕ → Option ℕ
add_checked current amount limit =
    if ltb limit current || ltb (limit - current) amount || ltb (u64_mod - 1 - current) amount
    then none
    else some (current + amount)

-- `Remaining`; none is its exception.
unfoldable pub remaining : ℕ → ℕ → Option ℕ
remaining limit used = if ltb limit used then none else some (limit - used)

-- The first condition of `ValidateProfile`.
unfoldable pub is_malformed : Limits → Bool
is_malformed p =
    p.page.request_attempts == 0
    || ltb 3 p.page.request_attempts
    || not (p.page.active_requests == 1)
    || not (p.scan.active_requests == 1)
    || ltb p.scan.request_attempts p.scan.pages
    || ltb 96 p.scan.request_attempts
    || p.page.header_bytes == 0
    || p.page.wire_response_bytes == 0
    || p.page.decompressed_response_bytes == 0
    || p.page.decoded_records == 0
    || p.page.decoded_memory_bytes == 0
    || p.scan.request_attempts == 0
    || p.scan.pages == 0
    || p.scan.header_bytes == 0
    || p.scan.wire_response_bytes == 0
    || p.scan.decompressed_response_bytes == 0
    || p.scan.decoded_records == 0
    || p.scan.retained_decoded_memory_bytes == 0
    || p.scan.max_wall_milliseconds == 0
    || differ (p.page.serialized_request_body_bytes == 0)
        (p.scan.serialized_request_body_bytes == 0)
    || ltb p.scan.cumulative_waiting_milliseconds p.scan.cumulative_retry_waiting_milliseconds
    || ltb p.scan.cumulative_waiting_milliseconds p.scan.cumulative_rate_limit_waiting_milliseconds
  where
    differ : Bool → Bool → Bool
    differ true b = not b
    differ false b = b

-- The second: the wall time is no duration of the clock.
unfoldable pub is_unrepresentable : Clock → Limits → Bool
is_unrepresentable k p =
    ltb int64_max p.scan.max_wall_milliseconds
    || k.maximum / k.ticks == 0
    || ltb (k.maximum / k.ticks) p.scan.max_wall_milliseconds

unfoldable pub validate_profile : Clock → Limits → Bool
validate_profile k p = not (is_malformed p) && not (is_unrepresentable k p)

-- A waiting budget that names no mechanism is one for retries.
unfoldable pub split_waiting : Limits → Limits
split_waiting p =
    if not (p.scan.cumulative_waiting_milliseconds == 0)
      && p.scan.cumulative_retry_waiting_milliseconds == 0
      && p.scan.cumulative_rate_limit_waiting_milliseconds == 0
    then record p {
      scan = record (p.scan) {
        cumulative_retry_waiting_milliseconds = p.scan.cumulative_waiting_milliseconds;
      };
    }
    else p

abbrev pub new_account : Limits → Account
new_account p = record {
  profile = p;
  counters = record {
    request_attempts = 0;
    pages = 0;
    header_bytes = 0;
    wire_response_bytes = 0;
    decompressed_response_bytes = 0;
    decoded_records = 0;
    retained_decoded_memory_bytes = 0;
    peak_decoded_memory_bytes = 0;
    active_requests = 0;
    serialized_request_body_bytes = 0;
    cumulative_waiting_milliseconds = 0;
    cumulative_retry_waiting_milliseconds = 0;
    cumulative_rate_limit_waiting_milliseconds = 0;
    cumulative_remote_transport_milliseconds = 0;
    cumulative_admission_waiting_milliseconds = 0;
  };
  state = Phase.ready;
  deadline_started = false;
  deadline = 0;
  active_allowance = record {
    header_bytes = 0;
    wire_response_bytes = 0;
    decompressed_response_bytes = 0;
    decoded_records = 0;
    decoded_memory_bytes = 0;
    serialized_request_body_bytes = 0;
    deadline = 0;
  };
  current_step_attempts = 0;
  current_step_page_committed = false;
}

-- The constructor.
unfoldable pub create : Clock → Limits → Result Account
create k p =
    let split = split_waiting p in
    if validate_profile k split then ok (new_account split) else error Field.resource_profile
