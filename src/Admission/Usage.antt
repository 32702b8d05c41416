-- ===== src/Admission/Usage.antt =====
-- The capacity vector of src/runtime/execution/admission_controller.cpp: `Counters`, `CheckFits`,
-- `AddUsage` and `SubtractUsage`.
pub mod Load
pub mod Fits
pub mod Rollback
use duckdb_fdw.Base.{
  ℕ, ◌+◌, ◌-◌, ◌%◌, Bool, true, false, ◌&&◌, ◌||◌, List, [], String, ltb, if◌then◌else◌, u64_mod,
}
use duckdb_fdw.Admission.Counts.{KeyCount, count_for, add_count, subtract_count}
use duckdb_fdw.Admission.Identity.{
  Hasher, Identity, DestinationKey, PrincipalToken, BulkheadKey, to_bulkhead, uses_principal,
  connector_key, destination_key, principal_key, bulkhead_key,
}

pub data Reason : Type 0 where
  none credential_resolution_queue_saturated credential_resolution_queue_timeout : Reason
  scan_queue_saturated scan_queue_timeout request_queue_saturated request_queue_timeout : Reason
  admission_waiting_exhausted retry_wait_saturated rate_limit_wait_saturated : Reason
  buffered_bytes_exhausted buffered_rows_exhausted runtime_closed ticket_exhausted : Reason

pub data Scope : Type 0 where
  none global connector destination principal bulkhead : Scope

pub record Observation : Type 0 where
  pub reason : Reason
  pub scope : Scope
  pub limit : ℕ
  pub observed : ℕ
  pub requested : ℕ
  pub waited_milliseconds : ℕ
  pub waiting : Bool

abbrev pub empty_observation : Observation
empty_observation = record {
  reason = Reason.none;
  scope = Scope.none;
  limit = 0;
  observed = 0;
  requested = 0;
  waited_milliseconds = 0;
  waiting = false;
}

pub record DimensionLimits : Type 0 where
  pub global : ℕ
  pub connector : ℕ
  pub destination : ℕ
  pub principal : ℕ
  pub bulkhead : ℕ

pub record Counters : Type 0 where
  pub global : ℕ
  pub connectors : List (KeyCount String)
  pub destinations : List (KeyCount DestinationKey)
  pub principals : List (KeyCount PrincipalToken)
  pub bulkheads : List (KeyCount BulkheadKey)

abbrev pub empty_counters : Counters
empty_counters = record {
  global = 0;
  connectors = [];
  destinations = [];
  principals = [];
  bulkheads = [];
}

-- observed + requested > limit, without an overflow
abbrev pub exceeds : ℕ → ℕ → ℕ → Bool
exceeds observed requested limit = ltb limit requested || ltb (limit - requested) observed

abbrev blocked : Scope → ℕ → ℕ → ℕ → Observation
blocked scope limit observed amount = record empty_observation {
  scope = scope;
  limit = limit;
  observed = observed;
  requested = amount;
}

module _ (h : Hasher) where
  abbrev pub connector_count : Counters → Identity → ℕ
  connector_count c i = count_for ⦃k = connector_key h⦄ c.connectors i.connector_id

  abbrev pub destination_count : Counters → Identity → ℕ
  destination_count c i = count_for ⦃k = destination_key h⦄ c.destinations i.destination

  abbrev pub principal_count : Counters → Identity → ℕ
  principal_count c i = count_for ⦃k = principal_key h⦄ c.principals i.principal

  -- `CountForBulkhead`, which is `CountFor` at the bulkhead key of the identity.
  abbrev pub bulkhead_count : Counters → Identity → ℕ
  bulkhead_count c i = count_for ⦃k = bulkhead_key h⦄ c.bulkheads (to_bulkhead i)

  -- The first dimension without room, from the widest to the narrowest.
  unfoldable pub check_fits : Counters → Identity → ℕ → DimensionLimits → Observation
  check_fits c i amount limits =
      if exceeds c.global amount limits.global
      then blocked Scope.global limits.global c.global amount
      else if exceeds (connector_count c i) amount limits.connector
      then blocked Scope.connector limits.connector (connector_count c i) amount
      else if exceeds (destination_count c i) amount limits.destination
      then blocked Scope.destination limits.destination (destination_count c i) amount
      else if uses_principal i && exceeds (principal_count c i) amount limits.principal
      then blocked Scope.principal limits.principal (principal_count c i) amount
      else if i.complete && exceeds (bulkhead_count c i) amount limits.bulkhead
      then blocked Scope.bulkhead limits.bulkhead (bulkhead_count c i) amount
      else record empty_observation { requested = amount }

  -- `AddUsage` where no allocation fails; Usage/Rollback has the rest.
  unfoldable pub add_usage : Counters → Identity → ℕ → Counters
  add_usage c i amount = record {
    global = (c.global + amount) % u64_mod;
    connectors = add_count ⦃k = connector_key h⦄ c.connectors i.connector_id amount;
    destinations = add_count ⦃k = destination_key h⦄ c.destinations i.destination amount;
    principals =
        if uses_principal i
        then add_count ⦃k = principal_key h⦄ c.principals i.principal amount
        else c.principals;
    bulkheads =
        if i.complete
        then add_count ⦃k = bulkhead_key h⦄ c.bulkheads (to_bulkhead i) amount
        else c.bulkheads;
  }

  unfoldable pub subtract_usage : Counters → Identity → ℕ → Counters
  subtract_usage c i amount = record {
    global = (c.global + u64_mod - amount) % u64_mod;
    connectors = subtract_count ⦃k = connector_key h⦄ c.connectors i.connector_id amount;
    destinations = subtract_count ⦃k = destination_key h⦄ c.destinations i.destination amount;
    principals =
        if uses_principal i
        then subtract_count ⦃k = principal_key h⦄ c.principals i.principal amount
        else c.principals;
    bulkheads =
        if i.complete
        then subtract_count ⦃k = bulkhead_key h⦄ c.bulkheads (to_bulkhead i) amount
        else c.bulkheads;
  }
