-- ===== src/Admission/Usage/Rollback.antt =====
-- `AddUsage` of src/runtime/execution/admission_controller.cpp where one of its `AddCount` calls
-- throws: what was added before is subtracted again.
use duckdb_fdw.Base.{
  ℕ, ◌+◌, ◌-◌, ◌%◌, ◌<◌, ◌≡◌, refl, Bool, true, false, ◌&&◌, List, [], ◌∷◌, arith, ltb,
  if◌then◌else◌, u64_mod, All,
}
use duckdb_fdw.Admission.Counts.{CountKey, KeyCount, count_for, add_count, subtract_count}
use duckdb_fdw.Admission.Counts.Laws.{beq_refl}
use duckdb_fdw.Admission.Identity.{
  Hasher, Identity, uses_principal, connector_key, destination_key, principal_key,
}
use duckdb_fdw.Admission.Usage.{Counters, connector_count, destination_count, principal_count}

-- How many tables have the amount when the next `AddCount` throws.
pub data Fault : Type 0 where
  at_connector at_destination at_principal at_bulkhead : Fault

unfoldable pub passed : Fault → ℕ
passed at_connector = 0
passed at_destination = 1
passed at_principal = 2
passed at_bulkhead = 3

-- Every entry of a table counts something in a uint64_t.
abbrev pub IsCounting {ℓ} : {K : Type ℓ} → List (KeyCount K) → Type 0
IsCounting es = All (λ e. (0 < e.count) × (e.count < u64_mod)) es

module _ {ℓ} {K : Type ℓ} ⦃k : CountKey K⦄ where
  -- A table that has the amount where it was added, and lost it again.
  unfoldable pub undone : Bool → List (KeyCount K) → K → ℕ → List (KeyCount K)
  undone added es key amount =
      if added then subtract_count (add_count es key amount) key amount else es

  undone_lem :
      (added : Bool) (es : List (KeyCount K)) (key : K) (amount : ℕ)
      → IsCounting es
      → 0 < amount
      → count_for es key + amount < u64_mod
      → undone added es key amount ≡ es
  unfolding undone add_count subtract_count count_for
  undone_lem false es key amount c positive small = refl
  undone_lem true [] key amount c positive small = ground (arith, beq_refl key)
  undone_lem true (e ∷ es) key amount c positive small =
      ground (arith, undone_lem true es key amount c.1 positive)

module _ (h : Hasher) where
  -- What the counters are when `AddUsage` has thrown.
  unfoldable pub add_usage_throwing : Fault → Counters → Identity → ℕ → Counters
  add_usage_throwing f c i amount = record {
    global = ((c.global + amount) % u64_mod + u64_mod - amount) % u64_mod;
    connectors = undone ⦃k = connector_key h⦄ (ltb 0 (passed f)) c.connectors i.connector_id amount;
    destinations =
        undone ⦃k = destination_key h⦄ (ltb 1 (passed f)) c.destinations i.destination amount;
    principals =
        undone ⦃k = principal_key h⦄ (ltb 2 (passed f) && uses_principal i) c.principals i.principal
          amount;
    bulkheads = c.bulkheads;
  }

  global_restored :
      (n amount : ℕ)
      → n + amount < u64_mod
      → ((n + amount) % u64_mod + u64_mod - amount) % u64_mod ≡ n
  global_restored n amount small = ground arith

  -- Where the counters count, in uint64_t with room for the amount, an `AddUsage` that throws in
  -- any of its tables leaves them exactly as they were.
  pub add_usage-rollback :
      (f : Fault) (c : Counters) (i : Identity) (amount : ℕ)
      → IsCounting c.connectors
      → IsCounting c.destinations
      → IsCounting c.principals
      → 0 < amount
      → c.global + amount < u64_mod
      → connector_count h c i + amount < u64_mod
      → destination_count h c i + amount < u64_mod
      → principal_count h c i + amount < u64_mod
      → add_usage_throwing f c i amount ≡ c
  unfolding add_usage_throwing
  add_usage-rollback f c i amount cs ds ps positive small csmall dsmall psmall =
      rw
        (
          global_restored c.global amount small,
          undone_lem ⦃k = connector_key h⦄ (ltb 0 (passed f)) c.connectors i.connector_id amount cs
              positive csmall,
          undone_lem ⦃k = destination_key h⦄ (ltb 1 (passed f)) c.destinations i.destination amount
              ds positive dsmall,
          undone_lem ⦃k = principal_key h⦄ (ltb 2 (passed f) && uses_principal i) c.principals
              i.principal amount ps positive psmall,
        )
        refl
