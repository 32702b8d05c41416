-- ===== src/ScanResource/Sound/Attempt.antt =====
-- `BeginAttempt` keeps the invariant: the allowance that it gives is within what is left.
use duckdb_fdw.Base.{ℕ, ◌+◌, ◌≤◌, ◌≡◌, true, false, some, min, ◌==◌, not, arith, if◌then◌else◌}
use duckdb_fdw.ScanResource.Types.{step_active, ok, Account, Allowance}
use duckdb_fdw.ScanResource.Profile.{add_checked, remaining}
use duckdb_fdw.ScanResource.Account.{
  open_request, Run, same_phase, begin_attempt, charge_attempt, next_allowance,
}
use duckdb_fdw.ScanResource.Sound.{
  IsSound, Leaves, Leaves-if, Leaves-attempt, fail-IsSound, in_request, is_decoded, is_step_active,
  is_request_active, undecoded,
}

remaining-some : (limit used : ℕ) {n : ℕ} → remaining limit used ≡ some n → used + n ≡ limit
unfolding remaining
remaining-some limit used e = ground arith

module _ (a : Account) (v : IsSound a) where
  body_some :
      {n : ℕ}
      → (if a.profile.page.serialized_request_body_bytes == 0
          then some 0
          else remaining a.profile.scan.serialized_request_body_bytes
              a.counters.serialized_request_body_bytes)
        ≡ some n
      → a.counters.serialized_request_body_bytes + n ≤ a.profile.scan.serialized_request_body_bytes
  unfolding remaining
  body_some e = ground (arith, v.fits)

  -- An allowance that the scan can still pay.
  abbrev IsPayable : Allowance → Type 0
  IsPayable w =
      (a.counters.header_bytes + w.header_bytes ≤ a.profile.scan.header_bytes)
      × (a.counters.wire_response_bytes + w.wire_response_bytes
          ≤ a.profile.scan.wire_response_bytes)
      × (a.counters.decompressed_response_bytes + w.decompressed_response_bytes
          ≤ a.profile.scan.decompressed_response_bytes)
      × (a.counters.decoded_records + w.decoded_records ≤ a.profile.scan.decoded_records)
      × (w.decoded_memory_bytes ≤ a.profile.scan.retained_decoded_memory_bytes)
      × (a.counters.serialized_request_body_bytes + w.serialized_request_body_bytes
          ≤ a.profile.scan.serialized_request_body_bytes)

  next_allowance-Leaves :
      (next : Allowance → Run Allowance)
      → ((w : Allowance) → IsPayable w → Leaves IsSound (next w))
      → Leaves IsSound (next_allowance a next)
  unfolding next_allowance
  next_allowance-Leaves next p = search (Leaves-attempt, fail-IsSound, given) depth 12
    where
      given :
          (header wire decompressed records body : ℕ)
          → remaining a.profile.scan.header_bytes a.counters.header_bytes ≡ some header
          → remaining a.profile.scan.wire_response_bytes a.counters.wire_response_bytes ≡ some wire
          → remaining a.profile.scan.decompressed_response_bytes
              a.counters.decompressed_response_bytes
            ≡ some decompressed
          → remaining a.profile.scan.decoded_records a.counters.decoded_records ≡ some records
          → (if a.profile.page.serialized_request_body_bytes == 0
              then some 0
              else remaining a.profile.scan.serialized_request_body_bytes
                  a.counters.serialized_request_body_bytes)
            ≡ some body
          → Leaves IsSound (
              next (record {
                header_bytes = min a.profile.page.header_bytes header;
                wire_response_bytes = min a.profile.page.wire_response_bytes wire;
                decompressed_response_bytes =
                    min a.profile.page.decompressed_response_bytes decompressed;
                decoded_records = min a.profile.page.decoded_records records;
                decoded_memory_bytes =
                    min a.profile.page.decoded_memory_bytes
                      a.profile.scan.retained_decoded_memory_bytes;
                serialized_request_body_bytes =
                    min a.profile.page.serialized_request_body_bytes body;
                deadline = a.deadline;
              }))
      given header wire decompressed records body e1 e2 e3 e4 e5 = p _ (
          ground (
            arith,
            v.fits,
            remaining-some _ _ e1,
            remaining-some _ _ e2,
            remaining-some _ _ e3,
            remaining-some _ _ e4,
            body_some e5,
          ))

  request_IsSound :
      same_phase a.state step_active ≡ true
      → (step_attempts scan_attempts pages active : ℕ) (w : Allowance)
      → add_checked a.current_step_attempts 1 a.profile.page.request_attempts ≡ some step_attempts
      → add_checked a.counters.request_attempts 1 a.profile.scan.request_attempts
        ≡ some scan_attempts
      → (if a.current_step_page_committed
          then some a.counters.pages
          else add_checked a.counters.pages 1 a.profile.scan.pages)
        ≡ some pages
      → add_checked a.counters.active_requests 1 a.profile.scan.active_requests ≡ some active
      → IsPayable w
      → IsSound (open_request a step_attempts scan_attempts pages active w)
  unfolding add_checked same_phase in_request is_decoded is_step_active is_request_active undecoded
  request_IsSound at step_attempts scan_attempts pages active w e1 e2 e3 e4 pay = record {
    fits = ground (arith, v.fits, v.in_phase);
    in_phase = ground (arith, v.fits, v.in_phase);
  }

  charge_attempt-IsSound : same_phase a.state step_active ≡ true → Leaves IsSound (charge_attempt a)
  unfolding charge_attempt
  charge_attempt-IsSound at =
      search (Leaves-attempt, fail-IsSound, next_allowance-Leaves, opened) depth 12
    where
      opened :
          (step_attempts scan_attempts pages active : ℕ) (w : Allowance)
          → add_checked a.current_step_attempts 1 a.profile.page.request_attempts
            ≡ some step_attempts
          → add_checked a.counters.request_attempts 1 a.profile.scan.request_attempts
            ≡ some scan_attempts
          → (if a.current_step_page_committed
              then some a.counters.pages
              else add_checked a.counters.pages 1 a.profile.scan.pages)
            ≡ some pages
          → add_checked a.counters.active_requests 1 a.profile.scan.active_requests ≡ some active
          → IsPayable w
          → Leaves IsSound (open_request a step_attempts scan_attempts pages active w, ok w)
      opened step_attempts scan_attempts pages active w e1 e2 e3 e4 pay = record {
        left = request_IsSound at step_attempts scan_attempts pages active w e1 e2 e3 e4 pay;
      }

  pub begin_attempt-IsSound : (now : ℕ) → IsSound (begin_attempt a now).0
  unfolding begin_attempt
  begin_attempt-IsSound now = leaves.left
    where
      charged : not (same_phase a.state step_active) ≡ false → Leaves IsSound (charge_attempt a)
      charged at = charge_attempt-IsSound (ground arith)

      leaves : Leaves IsSound (begin_attempt a now)
      leaves = search (Leaves-if, fail-IsSound, charged) depth 8
