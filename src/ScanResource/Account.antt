-- ===== src/ScanResource/Account.antt =====
-- The methods of `ScanResourceAccounting` in scan_resource_accounting.cpp. Each gives the account
-- that it leaves, also when it throws: what was charged before a failed charge stays charged.
use duckdb_fdw.Base.{
  ℕ, ◌+◌, ◌-◌, ◌*◌, Bool, true, false, ◌&&◌, ◌||◌, not, Option, none, some, min, ◌==◌, ltb, leb,
  if◌then◌else◌,
}
use duckdb_fdw.ScanResource.Types.{
  Phase, ready, step_active, request_active, request_body_committed, transport_committed,
  page_decoded, exhausted, failed, Result, ok, error, Field, Account, Allowance, Clock,
}
use duckdb_fdw.ScanResource.Profile.{add_checked, remaining}

abbrev pub Run {ℓ} : Type ℓ → Type ℓ
Run A = Account × Result A

-- `Fail`.
unfoldable pub fail {ℓ} : {A : Type ℓ} → Account → Field → Run A
fail a field = (
  record a {
    counters = record (a.counters) { active_requests = 0; retained_decoded_memory_bytes = 0 };
    state = failed;
  },
  error field,
)

-- A computation inside `try`, whose exception ends in `Fail`.
unfoldable pub attempt {ℓ} : {A : Type ℓ} → Account → Field → Option ℕ → (ℕ → Run A) → Run A
attempt a field none next = fail a field
attempt a field (some n) next = next n

-- A call, and what follows where it returns.
unfoldable pub and_then {ℓ κ} : {A : Type ℓ} {B : Type κ} → Run A → (Account → Run B) → Run B
and_then (a, ok x) next = next a
and_then (a, error field) next = (a, error field)

unfoldable pub same_phase : Phase → Phase → Bool
same_phase ready ready = true
same_phase step_active step_active = true
same_phase request_active request_active = true
same_phase request_body_committed request_body_committed = true
same_phase transport_committed transport_committed = true
same_phase page_decoded page_decoded = true
same_phase exhausted exhausted = true
same_phase failed failed = true
same_phase _ _ = false

-- `RequireReadyForNext`.
unfoldable pub require_ready_for_next : Account → ℕ → Run (Unit {0})
require_ready_for_next a now =
    let c = a.counters in
    let scan = a.profile.scan in
    if a.deadline_started && leb a.deadline now
    then fail a Field.wall_milliseconds
    else if leb scan.pages c.pages
    then fail a Field.pages
    else if leb scan.request_attempts c.request_attempts
    then fail a Field.request_attempts
    else if leb scan.header_bytes c.header_bytes
    then fail a Field.header_bytes
    else if leb scan.wire_response_bytes c.wire_response_bytes
    then fail a Field.response_bytes
    else if leb scan.decompressed_response_bytes c.decompressed_response_bytes
    then fail a Field.decompressed_bytes
    else if leb scan.decoded_records c.decoded_records
    then fail a Field.decoded_records
    else if not (scan.serialized_request_body_bytes == 0)
        && leb scan.serialized_request_body_bytes c.serialized_request_body_bytes
    then fail a Field.request_body_bytes
    else (a, ok tt)

-- The block of `BeginStep` that starts the deadline.
unfoldable pub start_deadline : Clock → Account → ℕ → Run (Unit {0})
start_deadline k a now =
    let wall_time = a.profile.scan.max_wall_milliseconds * k.ticks in
    if a.deadline_started
    then (a, ok tt)
    else if ltb (k.maximum - wall_time) now
    then fail a Field.wall_milliseconds
    else (record a { deadline = now + wall_time; deadline_started = true }, ok tt)

abbrev pub open_step : Account → Account
open_step a = record a {
  current_step_attempts = 0;
  current_step_page_committed = false;
  state = step_active;
}

unfoldable pub begin_step : Clock → Account → ℕ → Run (Unit {0})
begin_step k a now =
    if not (same_phase a.state ready)
    then fail a Field.resource_state
    else and_then (start_deadline k a now)
        λ b. and_then (require_ready_for_next b now) λ c. (open_step c, ok tt)

-- The allowance of the next request: what the page may use, and what the scan has left.
unfoldable pub next_allowance : Account → (Allowance → Run Allowance) → Run Allowance
next_allowance a next =
    let c = a.counters in
    let page = a.profile.page in
    let scan = a.profile.scan in
    attempt a Field.resource_profile (remaining scan.header_bytes c.header_bytes) λ header.
      attempt a Field.resource_profile (remaining scan.wire_response_bytes c.wire_response_bytes)
        λ wire.
          attempt a Field.resource_profile
            (remaining scan.decompressed_response_bytes c.decompressed_response_bytes)
            λ decompressed.
              attempt a Field.resource_profile (remaining scan.decoded_records c.decoded_records)
                λ records.
                  attempt a Field.resource_profile
                    (if page.serialized_request_body_bytes == 0
                      then some 0
                      else remaining scan.serialized_request_body_bytes
                          c.serialized_request_body_bytes)
                    λ body. next (record {
                      header_bytes = min page.header_bytes header;
                      wire_response_bytes = min page.wire_response_bytes wire;
                      decompressed_response_bytes =
                          min page.decompressed_response_bytes decompressed;
                      decoded_records = min page.decoded_records records;
                      decoded_memory_bytes =
                          min page.decoded_memory_bytes scan.retained_decoded_memory_bytes;
                      serialized_request_body_bytes = min page.serialized_request_body_bytes body;
                      deadline = a.deadline;
                    })

abbrev pub pages_exhausted : Account → Bool
pages_exhausted a = not a.current_step_page_committed && leb a.profile.scan.pages a.counters.pages

-- The account of a request under way.
abbrev pub open_request : Account → ℕ → ℕ → ℕ → ℕ → Allowance → Account
open_request a step_attempts scan_attempts pages active allowance = record a {
  counters = record (a.counters) {
    request_attempts = scan_attempts;
    pages = pages;
    active_requests = active;
  };
  state = request_active;
  active_allowance = allowance;
  current_step_attempts = step_attempts;
  current_step_page_committed = true;
}

-- The `try` block of `BeginAttempt`.
unfoldable pub charge_attempt : Account → Run Allowance
charge_attempt a =
    let c = a.counters in
    let page = a.profile.page in
    let scan = a.profile.scan in
    attempt a Field.resource_accounting
      (add_checked a.current_step_attempts 1 page.request_attempts)
      λ step_attempts.
        attempt a Field.resource_accounting (add_checked c.request_attempts 1 scan.request_attempts)
          λ scan_attempts.
            attempt a Field.resource_accounting
              (if a.current_step_page_committed
                then some c.pages
                else add_checked c.pages 1 scan.pages)
              λ pages.
                attempt a Field.resource_accounting
                  (add_checked c.active_requests 1 scan.active_requests)
                  λ active. next_allowance a λ allowance. (
                    open_request a step_attempts scan_attempts pages active allowance,
                    ok allowance,
                  )

unfoldable pub begin_attempt : Account → ℕ → Run Allowance
begin_attempt a now =
    if not (same_phase a.state step_active)
    then fail a Field.resource_state
    else if leb a.deadline now
    then fail a Field.wall_milliseconds
    else if pages_exhausted a
        || leb a.profile.page.request_attempts a.current_step_attempts
        || leb a.profile.scan.request_attempts a.counters.request_attempts
    then fail a (if pages_exhausted a then Field.pages else Field.request_attempts)
    else charge_attempt a

unfoldable pub begin_page : Clock → Account → ℕ → Run Allowance
begin_page k a now = and_then (begin_step k a now) λ b. begin_attempt b now
