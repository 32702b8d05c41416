-- ===== src/Admission/Usage/Fits.antt =====
-- `CheckFits` of src/runtime/execution/admission_controller.cpp against its specification.
use duckdb_fdw.Base.{
  ℕ, ◌+◌, ◌≤◌, ◌<◌, ◌≡◌, ◌≢◌, ◌↔◌, Bool, true, ◌&&◌, inl, inr, String, str_eq, eq_iff, arith,
  if◌then◌else◌, Bool-cases, ap,
}
use duckdb_fdw.Admission.Identity.{
  Hasher, Identity, DestinationKey, PrincipalToken, BulkheadKey, to_bulkhead, uses_principal,
  destination_equal, destination_equal_iff, principal_eq, principal_eq_iff, bulkhead_equal,
  bulkhead_equal_iff,
}
use duckdb_fdw.Admission.Usage.{Scope, DimensionLimits, Counters, check_fits}
use duckdb_fdw.Admission.Usage.Load.{
  Load, everyone, of_connector, of_destination, of_principal, of_bulkhead, Adds, Tracks,
}

-- No dimension holds more than its limit.
pub record Within (limits : DimensionLimits) (l : Load) : Type 0 where
  pub global : l everyone ≤ limits.global
  pub connector : (key : String) → l (of_connector key) ≤ limits.connector
  pub destination : (key : DestinationKey) → l (of_destination key) ≤ limits.destination
  pub principal : (key : PrincipalToken) → l (of_principal key) ≤ limits.principal
  pub bulkhead : (key : BulkheadKey) → l (of_bulkhead key) ≤ limits.bulkhead

-- The load leaves room for the amount in every dimension that the identity uses.
pub record HasRoom (limits : DimensionLimits) (l : Load) (i : Identity) (amount : ℕ) : Type 0 where
  pub global : l everyone + amount ≤ limits.global
  pub connector : l (of_connector i.connector_id) + amount ≤ limits.connector
  pub destination : l (of_destination i.destination) + amount ≤ limits.destination
  pub principal : uses_principal i ≡ true → l (of_principal i.principal) + amount ≤ limits.principal
  pub bulkhead : i.complete ≡ true → l (of_bulkhead (to_bulkhead i)) + amount ≤ limits.bulkhead

module _ (h : Hasher) (c : Counters) (i : Identity) (amount : ℕ) (limits : DimensionLimits) where
  -- What a refusal reports is true: the observed count and the request pass the reported limit.
  pub check_fits_report :
      (check_fits h c i amount limits).scope ≢ Scope.none
      → (check_fits h c i amount limits).limit
        < (check_fits h c i amount limits).observed + (check_fits h c i amount limits).requested
  unfolding check_fits
  check_fits_report n = ground arith

  pub requested-check_fits : (check_fits h c i amount limits).requested ≡ amount
  unfolding check_fits
  requested-check_fits = ground arith

module _ (h : Hasher) (c : Counters) (i : Identity) (amount : ℕ) (limits : DimensionLimits)
    {l : Load} (t : Tracks h c l) where
  pub check_fits-HasRoom :
      (check_fits h c i amount limits).scope ≡ Scope.none → HasRoom limits l i amount
  unfolding check_fits
  check_fits-HasRoom e = record {
    global = ground (arith, t.global);
    connector = ground (arith, t.connectors.counts i.connector_id);
    destination = ground (arith, t.destinations.counts i.destination);
    principal = λ used. ground (arith, t.principals.counts i.principal);
    bulkhead = λ used. ground (arith, t.bulkheads.counts (to_bulkhead i));
  }

  pub HasRoom-check_fits :
      HasRoom limits l i amount → (check_fits h c i amount limits).scope ≡ Scope.none
  unfolding check_fits
  HasRoom-check_fits r = ground (
    arith,
    t.global,
    t.connectors.counts i.connector_id,
    t.destinations.counts i.destination,
    t.principals.counts i.principal,
    t.bulkheads.counts (to_bulkhead i),
    r.global,
    r.connector,
    r.destination,
    r.principal,
    r.bulkhead,
  )

  -- Where the counters track a load, `CheckFits` reports no scope exactly where the load leaves
  -- room for the amount in every dimension that the identity uses.
  pub check_fits_iff :
      ((check_fits h c i amount limits).scope ≡ Scope.none) ↔ HasRoom limits l i amount
  check_fits_iff = (check_fits-HasRoom, HasRoom-check_fits)

-- Room in a larger load is room in a smaller one.
pub HasRoom-mono :
    (limits : DimensionLimits) (i : Identity) (amount : ℕ) (l m : Load)
    → ((select : Identity → Bool) → l select ≤ m select)
    → HasRoom limits m i amount
    → HasRoom limits l i amount
HasRoom-mono limits i amount l m less r = record {
  global = omega (arith, less everyone, r.global);
  connector = omega (arith, less (of_connector i.connector_id), r.connector);
  destination = omega (arith, less (of_destination i.destination), r.destination);
  principal = λ used. omega (arith, less (of_principal i.principal), r.principal used);
  bulkhead = λ used. omega (arith, less (of_bulkhead (to_bulkhead i)), r.bulkhead used);
}

module _ {K : Type 0} (beq : K → K → Bool) (beq_iff : (a b : K) → (beq a b ≡ true) ↔ (a ≡ b)) where
  -- One dimension of `Within-Adds`: the key of the identity has room, any other key is unchanged.
  within_key :
      (used : Bool) (w v : K → ℕ) (own key : K) (amount limit : ℕ)
      → w key ≡ (if used && beq own key then amount else 0) + v key
      → (used ≡ true → v own + amount ≤ limit)
      → v key ≤ limit
      → w key ≤ limit
  within_key used w v own key amount limit step room old = elim (Bool-cases (beq own key)) [
    | inl same ↦ ground (arith, step, same, room, ap v ((beq_iff own key).0 same))
    | inr other ↦ ground (arith, step, other)
  ]

-- Where there was room, adding the amount keeps every dimension within its limit.
pub Within-Adds :
    (limits : DimensionLimits) (i : Identity) (amount : ℕ) (l m : Load)
    → Adds i amount l m
    → HasRoom limits l i amount
    → Within limits l
    → Within limits m
Within-Adds limits i amount l m step room w = record {
  global = ground (arith, step everyone, room.global);
  connector = λ key.
      within_key str_eq eq_iff true (λ k. m (of_connector k)) (λ k. l (of_connector k))
        i.connector_id key amount limits.connector (step (of_connector key)) (λ _. room.connector)
        (w.connector key);
  destination = λ key.
      within_key destination_equal destination_equal_iff true (λ k. m (of_destination k))
        (λ k. l (of_destination k)) i.destination key amount limits.destination
        (step (of_destination key)) (λ _. room.destination) (w.destination key);
  principal = λ key.
      within_key principal_eq principal_eq_iff (uses_principal i) (λ k. m (of_principal k))
        (λ k. l (of_principal k)) i.principal key amount limits.principal (step (of_principal key))
        room.principal (w.principal key);
  bulkhead = λ key.
      within_key bulkhead_equal bulkhead_equal_iff i.complete (λ k. m (of_bulkhead k))
        (λ k. l (of_bulkhead k)) (to_bulkhead i) key amount limits.bulkhead (step (of_bulkhead key))
        room.bulkhead (w.bulkhead key);
}

-- A smaller load is within the same limits.
pub Within-mono :
    (limits : DimensionLimits) (l m : Load)
    → ((select : Identity → Bool) → l select ≤ m select)
    → Within limits m
    → Within limits l
Within-mono limits l m less w = record {
  global = omega (arith, less everyone, w.global);
  connector = λ key. omega (arith, less (of_connector key), w.connector key);
  destination = λ key. omega (arith, less (of_destination key), w.destination key);
  principal = λ key. omega (arith, less (of_principal key), w.principal key);
  bulkhead = λ key. omega (arith, less (of_bulkhead key), w.bulkhead key);
}
