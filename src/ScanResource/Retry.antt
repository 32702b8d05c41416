-- ===== src/ScanResource/Retry.antt =====
-- What the resource check before a retry promises.
use duckdb_fdw.Base.{ℕ, ◌≤◌, ◌<◌, ◌≡◌, refl, subst, true, false, ◌==◌, arith}
use duckdb_fdw.ScanResource.Types.{Limits, request_active, ok, Account}
use duckdb_fdw.ScanResource.Profile.{is_malformed}
use duckdb_fdw.ScanResource.Account.{same_phase, begin_attempt}
use duckdb_fdw.ScanResource.Charge.{
  commit_request_body, can_begin_retry_attempt, require_retry_attempt_resources,
}
use duckdb_fdw.ScanResource.Sound.{IsSound}
use duckdb_fdw.ScanResource.Sound.Attempt.{begin_attempt-IsSound}
use duckdb_fdw.ScanResource.Requests.{
  IsSmall, granted, requested, CanBegin, begin_attempt_charges, commit_request_body_iff,
}

page_positive :
    (p : Limits)
    → is_malformed p ≡ false
    → (0 < p.page.header_bytes)
      × (0 < p.page.wire_response_bytes)
      × (0 < p.page.decompressed_response_bytes)
unfolding is_malformed
page_positive p e = ground arith

module _ (a : Account) (bytes now : ℕ) (v : IsSound a) (formed : is_malformed a.profile ≡ false)
    (checked : require_retry_attempt_resources a bytes ≡ ok tt) (early : now < a.deadline) where
  can_begin : CanBegin a now
  unfolding require_retry_attempt_resources can_begin_retry_attempt
  can_begin = ground arith

  has_authority :
      (0 < (granted a).header_bytes)
      × (0 < (granted a).wire_response_bytes)
      × (0 < (granted a).decompressed_response_bytes)
  unfolding require_retry_attempt_resources
  has_authority = ground (arith, page_positive a.profile formed)

  body_fits :
      (a.profile.page.serialized_request_body_bytes == 0) ≡ false
      → (0 < bytes) × (bytes ≤ (granted a).serialized_request_body_bytes)
  unfolding require_retry_attempt_resources
  body_fits bodied = ground arith

  at_request : same_phase request_active request_active ≡ true
  unfolding same_phase
  at_request = refl

  requested-IsSound : IsSound (requested a)
  requested-IsSound =
      subst (λ r. IsSound r.0) (begin_attempt_charges a now v formed can_begin)
        (begin_attempt-IsSound a v now)

  -- In an account that keeps the invariant, with a well-formed profile: where
  -- `RequireRetryAttemptResources` passes and the deadline is not past, `BeginAttempt` returns, and
  -- its allowance has header, wire and decompressed bytes left.
  pub retry_is_funded :
      (begin_attempt a now ≡ (requested a, ok (granted a)))
      × (0 < (granted a).header_bytes)
      × (0 < (granted a).wire_response_bytes)
      × (0 < (granted a).decompressed_response_bytes)
  retry_is_funded = (
    begin_attempt_charges a now v formed can_begin,
    has_authority.0,
    has_authority.1,
    has_authority.2,
  )

  -- In an account that keeps the invariant, with a well-formed profile and uint64_t limits: where
  -- `RequireRetryAttemptResources` passes before the deadline and the profile has bodies,
  -- `CommitRequestBody` of that many bytes returns after `BeginAttempt`.
  pub retry_body_fits :
      IsSmall a.profile
      → (a.profile.page.serialized_request_body_bytes == 0) ≡ false
      → (commit_request_body (begin_attempt a now).0 bytes).1 ≡ ok tt
  retry_body_fits small bodied = rw (begin_attempt_charges a now v formed can_begin) (
      (commit_request_body_iff (requested a) bytes requested-IsSound small at_request bodied).1
        (body_fits bodied))
