-- ===== src/ScanResource/Requests.antt =====
-- What a request is charged, what it may use, and when the next one can be made.
use duckdb_fdw.Base.{
  ℕ, ◌+◌, ◌-◌, ◌≤◌, ◌<◌, ◌≡◌, ◌↔◌, refl, true, false, some, min, ◌==◌, arith, if◌then◌else◌,
  u64_mod,
}
use duckdb_fdw.ScanResource.Types.{
  Limits, Phase, step_active, request_active, transport_committed, ok, Account, Allowance,
  TransportUsage,
}
use duckdb_fdw.ScanResource.Profile.{add_checked, remaining, is_malformed}
use duckdb_fdw.ScanResource.Account.{
  Run, fail, same_phase, begin_attempt, attempt, open_request, charge_attempt, next_allowance,
}
use duckdb_fdw.ScanResource.Charge.{
  commit_request_body, may_commit, commit_attempt_usage, commit_transport, charge_usage,
}
use duckdb_fdw.ScanResource.Sound.{IsSound, in_request, is_step_active, is_request_active}

fits :
    (current amount limit : ℕ)
    → current + amount ≤ limit
    → limit < u64_mod
    → add_checked current amount limit ≡ some (current + amount)
unfolding add_checked
fits current amount limit h small = ground arith

-- The cumulative limits of the scan are uint64_t.
abbrev pub IsSmall : Limits → Type 0
IsSmall p =
    (p.scan.header_bytes < u64_mod)
    × (p.scan.wire_response_bytes < u64_mod)
    × (p.scan.decompressed_response_bytes < u64_mod)
    × (p.scan.serialized_request_body_bytes < u64_mod)

abbrev pub IsWithin : TransportUsage → Allowance → Type 0
IsWithin u w =
    (u.header_bytes ≤ w.header_bytes)
    × (u.wire_response_bytes ≤ w.wire_response_bytes)
    × (u.decompressed_response_bytes ≤ w.decompressed_response_bytes)

charge_usage_ok :
    (a : Account) (u : TransportUsage) (next : Phase)
    → IsSmall a.profile
    → a.counters.header_bytes + u.header_bytes ≤ a.profile.scan.header_bytes
    → a.counters.wire_response_bytes + u.wire_response_bytes ≤ a.profile.scan.wire_response_bytes
    → a.counters.decompressed_response_bytes + u.decompressed_response_bytes
      ≤ a.profile.scan.decompressed_response_bytes
    → (charge_usage a u next).1 ≡ ok tt
unfolding charge_usage attempt
charge_usage_ok a u next small header wire decompressed =
    rw (fits _ _ _ header small.0, fits _ _ _ wire small.1, fits _ _ _ decompressed small.2) refl

may_commit_in : (a : Account) → may_commit a ≡ true → in_request a.state ≡ true
unfolding same_phase in_request
may_commit_in a e = ground arith

-- In an account that keeps the invariant and whose limits are uint64_t, in a request whose body is
-- committed where the profile has bodies, `CommitTransport` succeeds exactly for a usage within the
-- allowance that `BeginAttempt` gave: the scan's own limits never refuse it.
pub commit_transport_iff :
    (a : Account) (u : TransportUsage)
    → IsSound a
    → IsSmall a.profile
    → may_commit a ≡ true
    → ((commit_transport a u).1 ≡ ok tt) ↔ IsWithin u a.active_allowance
unfolding commit_transport commit_attempt_usage fail
commit_transport_iff a u v small may = (
  λ e. ground arith,
  λ w. ground (
    arith,
    charge_usage_ok a u transport_committed small
        (omega (arith, v.in_phase.4 (may_commit_in a may)))
        (omega (arith, v.in_phase.5 (may_commit_in a may)))
        (omega (arith, v.in_phase.6 (may_commit_in a may))),
  ),
)

-- In an account that keeps the invariant, whose limits are uint64_t and whose profile has bodies, a
-- body is committed in an active request exactly where it is not empty and within the allowance.
pub commit_request_body_iff :
    (a : Account) (bytes : ℕ)
    → IsSound a
    → IsSmall a.profile
    → same_phase a.state request_active ≡ true
    → (a.profile.page.serialized_request_body_bytes == 0) ≡ false
    → ((commit_request_body a bytes).1 ≡ ok tt)
      ↔ (0 < bytes) × (bytes ≤ a.active_allowance.serialized_request_body_bytes)
unfolding commit_request_body attempt fail add_checked same_phase is_request_active
commit_request_body_iff a bytes v small at bodied = ground (arith, v.fits, v.in_phase)

same_phase_step :
    (s : Phase)
    → same_phase s step_active ≡ true
    → (is_step_active s ≡ true) × (in_request s ≡ false)
unfolding same_phase is_step_active in_request
same_phase_step s e = ground arith

malformed_bounds :
    (p : Limits)
    → is_malformed p ≡ false
    → (p.page.request_attempts ≤ 3)
      × (p.scan.request_attempts ≤ 96)
      × (p.scan.pages ≤ 96)
      × (p.scan.active_requests ≡ 1)
unfolding is_malformed
malformed_bounds p e = ground arith

module _ (a : Account) where
  -- What `BeginAttempt` gives: the lesser of the page's limit and what the scan has left.
  abbrev pub granted : Allowance
  granted = record {
    header_bytes =
        min a.profile.page.header_bytes (a.profile.scan.header_bytes - a.counters.header_bytes);
    wire_response_bytes =
        min a.profile.page.wire_response_bytes
          (a.profile.scan.wire_response_bytes - a.counters.wire_response_bytes);
    decompressed_response_bytes =
        min a.profile.page.decompressed_response_bytes
          (a.profile.scan.decompressed_response_bytes - a.counters.decompressed_response_bytes);
    decoded_records =
        min a.profile.page.decoded_records
          (a.profile.scan.decoded_records - a.counters.decoded_records);
    decoded_memory_bytes =
        min a.profile.page.decoded_memory_bytes a.profile.scan.retained_decoded_memory_bytes;
    serialized_request_body_bytes = min a.profile.page.serialized_request_body_bytes (
        if a.profile.page.serialized_request_body_bytes == 0
        then 0
        else a.profile.scan.serialized_request_body_bytes
          - a.counters.serialized_request_body_bytes);
    deadline = a.deadline;
  }

  abbrev pub requested : Account
  requested =
      open_request a (a.current_step_attempts + 1) (a.counters.request_attempts + 1)
        (if a.current_step_page_committed then a.counters.pages else a.counters.pages + 1)
        (a.counters.active_requests + 1) granted

  abbrev pub CanBegin : ℕ → Type 0
  CanBegin now =
      (same_phase a.state step_active ≡ true)
      × (now < a.deadline)
      × (a.current_step_attempts < a.profile.page.request_attempts)
      × (a.counters.request_attempts < a.profile.scan.request_attempts)

  remaining_ok : (limit used : ℕ) → used ≤ limit → remaining limit used ≡ some (limit - used)
  unfolding remaining
  remaining_ok limit used h = ground arith

  add_checked_ok :
      (current limit : ℕ)
      → current < limit
      → limit < u64_mod
      → add_checked current 1 limit ≡ some (current + 1)
  unfolding add_checked
  add_checked_ok current limit h small = ground arith

  body_ok :
      a.counters.serialized_request_body_bytes ≤ a.profile.scan.serialized_request_body_bytes
      → (if a.profile.page.serialized_request_body_bytes == 0
          then some 0
          else remaining a.profile.scan.serialized_request_body_bytes
              a.counters.serialized_request_body_bytes)
        ≡ some (
            if a.profile.page.serialized_request_body_bytes == 0
            then 0
            else a.profile.scan.serialized_request_body_bytes
              - a.counters.serialized_request_body_bytes)
  unfolding remaining
  body_ok h = ground arith

  pages_ok :
      (a.current_step_page_committed ≡ false → a.counters.pages < a.profile.scan.pages)
      → a.profile.scan.pages < u64_mod
      → (if a.current_step_page_committed
          then some a.counters.pages
          else add_checked a.counters.pages 1 a.profile.scan.pages)
        ≡ some (if a.current_step_page_committed then a.counters.pages else a.counters.pages + 1)
  unfolding add_checked
  pages_ok h small = ground arith

  next_allowance_ok :
      IsSound a → (next : Allowance → Run Allowance) → next_allowance a next ≡ next granted
  unfolding next_allowance attempt
  next_allowance_ok v next =
      rw
        (
          remaining_ok a.profile.scan.header_bytes a.counters.header_bytes (omega (arith, v.fits)),
          remaining_ok a.profile.scan.wire_response_bytes a.counters.wire_response_bytes
              (omega (arith, v.fits)),
          remaining_ok a.profile.scan.decompressed_response_bytes
              a.counters.decompressed_response_bytes (omega (arith, v.fits)),
          remaining_ok a.profile.scan.decoded_records a.counters.decoded_records
              (omega (arith, v.fits)),
          body_ok (omega (arith, v.fits)),
        )
        refl

  charge_attempt_ok :
      (now : ℕ)
      → IsSound a
      → is_malformed a.profile ≡ false
      → CanBegin now
      → charge_attempt a ≡ (requested, ok granted)
  unfolding charge_attempt attempt
  charge_attempt_ok now v formed can =
      rw
        (
          add_checked_ok a.current_step_attempts a.profile.page.request_attempts can.2
              (omega (arith, small.0)),
          add_checked_ok a.counters.request_attempts a.profile.scan.request_attempts can.3
              (omega (arith, small.1)),
          pages_ok (ground (arith, v.in_phase, same_phase_step _ can.0)) (omega (arith, small.2)),
          add_checked_ok a.counters.active_requests a.profile.scan.active_requests
              (ground (arith, v.in_phase, small, same_phase_step _ can.0)) (omega (arith, small.3)),
          next_allowance_ok v,
        )
        refl
    where
      small :
          (a.profile.page.request_attempts ≤ 3)
          × (a.profile.scan.request_attempts ≤ 96)
          × (a.profile.scan.pages ≤ 96)
          × (a.profile.scan.active_requests ≡ 1)
      small = malformed_bounds a.profile formed

  pub begin_attempt_charges :
      (now : ℕ)
      → IsSound a
      → is_malformed a.profile ≡ false
      → CanBegin now
      → begin_attempt a now ≡ (requested, ok granted)
  unfolding begin_attempt
  begin_attempt_charges now v formed can =
      ground (arith, v.in_phase, charge_attempt_ok now v formed can, same_phase_step _ can.0)
