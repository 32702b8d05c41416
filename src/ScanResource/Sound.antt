-- ===== src/ScanResource/Sound.antt =====
-- The invariant of the account, and what each way to end a method does to it.
pub mod Ready
pub mod Attempt
pub mod Steps
use duckdb_fdw.Base.{
  ℕ, ◌+◌, ◌-◌, ◌≤◌, ◌<◌, ◌≡◌, refl, Bool, true, false, Option, none, some, arith, if◌then◌else◌,
  u64_mod,
}
use duckdb_fdw.ScanResource.Types.{
  Limits, ScanLimits, Counts, Phase, ready, step_active, request_active, request_body_committed,
  transport_committed, page_decoded, exhausted, failed, Result, ok, error, Field, Account,
  Allowance,
}
use duckdb_fdw.ScanResource.Account.{Run, fail, attempt, and_then}

unfoldable pub in_request : Phase → Bool
in_request request_active = true
in_request request_body_committed = true
in_request _ = false

unfoldable pub undecoded : Phase → Bool
undecoded request_active = true
undecoded request_body_committed = true
undecoded transport_committed = true
undecoded _ = false

unfoldable pub is_decoded : Phase → Bool
is_decoded page_decoded = true
is_decoded _ = false

unfoldable pub is_request_active : Phase → Bool
is_request_active request_active = true
is_request_active _ = false

unfoldable pub is_step_active : Phase → Bool
is_step_active step_active = true
is_step_active _ = false

-- A counter that the code charges against a limit of the scan is within it, and the parts of a total
-- are within the total. The remote transport time is charged against the end of uint64_t, the
-- admission waiting time against a limit of the call: these two only fit a uint64_t.
abbrev pub Fits : Limits → Counts → Type 0
Fits p c =
    (c.request_attempts ≤ p.scan.request_attempts)
    × (c.pages ≤ p.scan.pages)
    × (c.pages ≤ c.request_attempts)
    × (c.header_bytes ≤ p.scan.header_bytes)
    × (c.wire_response_bytes ≤ p.scan.wire_response_bytes)
    × (c.decompressed_response_bytes ≤ p.scan.decompressed_response_bytes)
    × (c.decoded_records ≤ p.scan.decoded_records)
    × (c.serialized_request_body_bytes ≤ p.scan.serialized_request_body_bytes)
    × (c.retained_decoded_memory_bytes ≤ c.peak_decoded_memory_bytes)
    × (c.peak_decoded_memory_bytes ≤ p.scan.retained_decoded_memory_bytes)
    × (c.cumulative_waiting_milliseconds ≤ p.scan.cumulative_waiting_milliseconds)
    × (c.cumulative_retry_waiting_milliseconds ≤ p.scan.cumulative_retry_waiting_milliseconds)
    × (c.cumulative_rate_limit_waiting_milliseconds
        ≤ p.scan.cumulative_rate_limit_waiting_milliseconds)
    × (c.cumulative_retry_waiting_milliseconds + c.cumulative_rate_limit_waiting_milliseconds
        ≤ c.cumulative_waiting_milliseconds)
    × (c.cumulative_remote_transport_milliseconds < u64_mod)
    × (c.cumulative_admission_waiting_milliseconds < u64_mod)

-- What the phase says of the counters, and what is left for the allowance that is out.
abbrev pub InPhase : Account → Type 0
InPhase a =
    (a.counters.active_requests ≡ (if in_request a.state then 1 else 0))
    × (is_decoded a.state ≡ false → a.counters.retained_decoded_memory_bytes ≡ 0)
    × (a.current_step_attempts ≤ a.profile.page.request_attempts)
    × (is_step_active a.state ≡ true
        → a.current_step_page_committed ≡ false
        → a.counters.pages < a.profile.scan.pages)
    × (in_request a.state ≡ true
        → a.counters.header_bytes + a.active_allowance.header_bytes ≤ a.profile.scan.header_bytes)
    × (in_request a.state ≡ true
        → a.counters.wire_response_bytes + a.active_allowance.wire_response_bytes
          ≤ a.profile.scan.wire_response_bytes)
    × (in_request a.state ≡ true
        → a.counters.decompressed_response_bytes + a.active_allowance.decompressed_response_bytes
          ≤ a.profile.scan.decompressed_response_bytes)
    × (is_request_active a.state ≡ true
        → a.counters.serialized_request_body_bytes
            + a.active_allowance.serialized_request_body_bytes
          ≤ a.profile.scan.serialized_request_body_bytes)
    × (undecoded a.state ≡ true
        → a.counters.decoded_records + a.active_allowance.decoded_records
          ≤ a.profile.scan.decoded_records)
    × (undecoded a.state ≡ true
        → a.active_allowance.decoded_memory_bytes ≤ a.profile.scan.retained_decoded_memory_bytes)
    × (in_request a.state ≡ true → a.current_step_page_committed ≡ true)

pub record IsSound (a : Account) : Type 0 where
  pub fits : Fits a.profile a.counters
  pub in_phase : InPhase a

-- What holds of the account that a method leaves.
pub record Leaves {ℓ} {A : Type ℓ} (P : Account → Type 0) (r : Run A) : Type 0 where
  pub left : P r.0

module _ {ℓ} {A : Type ℓ} (P : Account → Type 0) where
  pub Leaves-if :
      (b : Bool) (x y : Run A)
      → (b ≡ true → Leaves P x)
      → (b ≡ false → Leaves P y)
      → Leaves P (if b then x else y)
  Leaves-if true x y p q = p refl
  Leaves-if false x y p q = q refl

  pub Leaves-attempt :
      (a : Account) (field : Field) (o : Option ℕ) (next : ℕ → Run A)
      → Leaves P (fail {A = A} a field)
      → ((n : ℕ) → o ≡ some n → Leaves P (next n))
      → Leaves P (attempt a field o next)
  unfolding attempt
  Leaves-attempt a field none next f p = f
  Leaves-attempt a field (some n) next f p = p n refl

  pub Leaves-ok : (a : Account) (x : A) → P a → Leaves P (a, ok x)
  Leaves-ok a x p = record { left = p }

-- What holds of the account where a method throws, and where it returns.
abbrev pub After {ℓ} : {A : Type ℓ} → (Account → Type 0) → (Account → Type 0) → Run A → Type 0
After P Q (a, ok x) = Q a
After P Q (a, error field) = P a

pub record Ends {ℓ} {A : Type ℓ} (P Q : Account → Type 0) (r : Run A) : Type 0 where
  pub ends : After P Q r

module _ {ℓ} {A : Type ℓ} (P Q : Account → Type 0) where
  pub Ends-if :
      (b : Bool) (x y : Run A)
      → (b ≡ true → Ends P Q x)
      → (b ≡ false → Ends P Q y)
      → Ends P Q (if b then x else y)
  Ends-if true x y p q = p refl
  Ends-if false x y p q = q refl

module _ {ℓ κ} {A : Type ℓ} {B : Type κ} (P Q : Account → Type 0) where
  pub Leaves-and_then :
      (r : Run A) (next : Account → Run B)
      → Ends P Q r
      → ((a : Account) → Q a → Leaves P (next a))
      → Leaves P (and_then r next)
  unfolding and_then
  Leaves-and_then (a, ok x) next p q = q a p.ends
  Leaves-and_then (a, error field) next p q = record { left = p.ends }

module _ (a : Account) (next : Account → Run (Unit {0})) where
  pub and_then-fail : (field : Field) → and_then (fail {A = Unit {0}} a field) next ≡ fail a field
  unfolding and_then fail
  and_then-fail field = refl

  pub and_then-ok : and_then {A = Unit {0}} (a, ok tt) next ≡ next a
  unfolding and_then
  and_then-ok = refl

-- `Fail` keeps all but what it sets to zero.
pub fail-IsSound {ℓ} :
    {A : Type ℓ} (a : Account) (field : Field) → IsSound a → Leaves IsSound (fail {A = A} a field)
unfolding fail in_request is_decoded is_step_active is_request_active undecoded
fail-IsSound a field v = record {
  left = record { fits = ground (arith, v.fits); in_phase = ground (arith, v.in_phase) };
}
