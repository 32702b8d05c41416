-- ===== src/Admission/Usage/Load.antt =====
-- Counters seen as a load: for each selection of identities, the amount held by those selected.
use duckdb_fdw.Base.{
  ℕ, ◌+◌, ◌≤◌, ◌<◌, ◌≡◌, refl, subst, fun_ext, Bool, true, false, ◌&&◌, List, String, str_eq, arith,
  if◌then◌else◌, u64_mod,
}
use duckdb_fdw.Admission.Counts.{CountKey, KeyCount, count_for, add_count, subtract_count, IsTable}
use duckdb_fdw.Admission.Counts.Laws.{
  beq_refl, add_count-IsTable, count_for-add_count, subtract_count-IsTable,
  count_for-subtract_count,
}
use duckdb_fdw.Admission.Identity.{
  Hasher, Identity, DestinationKey, PrincipalToken, BulkheadKey, to_bulkhead, uses_principal,
  destination_equal, principal_eq, bulkhead_equal, connector_key, destination_key, principal_key,
  bulkhead_key,
}
use duckdb_fdw.Admission.Usage.{Counters, empty_counters, add_usage, subtract_usage}

abbrev pub Load : Type 0
Load = (Identity → Bool) → ℕ

abbrev pub everyone : Identity → Bool
everyone i = true

-- The selections that the four tables of `Counters` count.
abbrev pub of_connector : String → Identity → Bool
of_connector key i = str_eq i.connector_id key

abbrev pub of_destination : DestinationKey → Identity → Bool
of_destination key i = destination_equal i.destination key

abbrev pub of_principal : PrincipalToken → Identity → Bool
of_principal key i = uses_principal i && principal_eq i.principal key

abbrev pub of_bulkhead : BulkheadKey → Identity → Bool
of_bulkhead key i = i.complete && bulkhead_equal (to_bulkhead i) key

-- `m` is the load `l` and an amount held by `i`.
abbrev pub Adds : Identity → ℕ → Load → Load → Type 0
Adds i amount l m =
    (select : Identity → Bool) → m select ≡ (if select i then amount else 0) + l select

-- The table holds the value of `w` at every key.
module _ {K : Type 0} where
  pub record Counted (k : CountKey K) (t : List (KeyCount K)) (w : K → ℕ) : Type 0 where
    pub table : IsTable ⦃k = k⦄ t
    pub counts : (key : K) → count_for ⦃k = k⦄ t key ≡ w key

module _ {K : Type 0} (k : CountKey K) where
  Counted-add_count :
      (t : List (KeyCount K)) (v w : K → ℕ) (key : K) (amount : ℕ)
      → ((j : K) → w j ≡ (if k.beq key j then amount else 0) + v j)
      → w key < u64_mod
      → Counted k t v
      → Counted k (add_count ⦃k = k⦄ t key amount) w
  Counted-add_count t v w key amount step small c = record {
    table =
        add_count-IsTable ⦃k = k⦄ t key amount c.table
          (ground (arith, step key, beq_refl ⦃k = k⦄ key));
    counts = λ j. ground (
      arith,
      step j,
      step key,
      beq_refl ⦃k = k⦄ key,
      c.counts j,
      c.counts key,
      count_for-add_count ⦃k = k⦄ t key amount j c.table,
    );
  }

  Counted-subtract_count :
      (t : List (KeyCount K)) (v w : K → ℕ) (key : K) (amount : ℕ)
      → ((j : K) → w j ≡ (if k.beq key j then amount else 0) + v j)
      → Counted k t w
      → Counted k (subtract_count ⦃k = k⦄ t key amount) v
  Counted-subtract_count t v w key amount step c = record {
    table = subtract_count-IsTable ⦃k = k⦄ t key amount c.table;
    counts = λ j. ground (
      arith,
      step j,
      step key,
      beq_refl ⦃k = k⦄ key,
      c.counts j,
      c.counts key,
      count_for-subtract_count ⦃k = k⦄ t key amount j c.table,
    );
  }

-- The counters hold exactly the load, with no uint64_t past its end.
pub record Tracks (h : Hasher) (c : Counters) (l : Load) : Type 0 where
  pub global : c.global ≡ l everyone
  pub small : l everyone < u64_mod
  pub dominated : (select : Identity → Bool) → l select ≤ l everyone
  pub connectors : Counted (connector_key h) c.connectors (λ key. l (of_connector key))
  pub destinations : Counted (destination_key h) c.destinations (λ key. l (of_destination key))
  pub principals : Counted (principal_key h) c.principals (λ key. l (of_principal key))
  pub bulkheads : Counted (bulkhead_key h) c.bulkheads (λ key. l (of_bulkhead key))

pub Tracks-eq :
    (h : Hasher) (c : Counters) (l m : Load)
    → ((select : Identity → Bool) → l select ≡ m select)
    → Tracks h c l
    → Tracks h c m
Tracks-eq h c l m e t = subst (Tracks h c) (fun_ext e) t

module _ (h : Hasher) (c : Counters) (i : Identity) (amount : ℕ) (l m : Load) where
  -- A dimension that the identity does not use is left alone, and its load is the same.
  Counted-add_if :
      {K : Type 0} (k : CountKey K) (t : List (KeyCount K)) (used : Bool) (v w : K → ℕ) (key : K)
      → ((j : K) → w j ≡ (if used && k.beq key j then amount else 0) + v j)
      → w key < u64_mod
      → Counted k t v
      → Counted k (if used then add_count ⦃k = k⦄ t key amount else t) w
  Counted-add_if k t true v w key step small c = Counted-add_count k t v w key amount step small c
  Counted-add_if k t false v w key step small c = record {
    table = c.table;
    counts = λ j. omega (arith, c.counts j, step j);
  }

  Counted-subtract_if :
      {K : Type 0} (k : CountKey K) (t : List (KeyCount K)) (used : Bool) (v w : K → ℕ) (key : K)
      → ((j : K) → w j ≡ (if used && k.beq key j then amount else 0) + v j)
      → Counted k t w
      → Counted k (if used then subtract_count ⦃k = k⦄ t key amount else t) v
  Counted-subtract_if k t true v w key step c = Counted-subtract_count k t v w key amount step c
  Counted-subtract_if k t false v w key step c = record {
    table = c.table;
    counts = λ j. omega (arith, c.counts j, step j);
  }

  -- `AddUsage` adds the amount to the load of every dimension at once.
  pub add_usage-Tracks :
      Adds i amount l m → m everyone < u64_mod → Tracks h c l → Tracks h (add_usage h c i amount) m
  unfolding add_usage
  add_usage-Tracks step small t = record {
    global = ground (arith, t.global, step everyone);
    small = small;
    dominated = dominated;
    connectors =
        Counted-add_count (connector_key h) c.connectors _ _ i.connector_id amount
          (λ key. step (of_connector key)) (below (of_connector i.connector_id)) t.connectors;
    destinations =
        Counted-add_count (destination_key h) c.destinations _ _ i.destination amount
          (λ key. step (of_destination key)) (below (of_destination i.destination)) t.destinations;
    principals =
        Counted-add_if (principal_key h) c.principals (uses_principal i) _ _ i.principal
          (λ key. step (of_principal key)) (below (of_principal i.principal)) t.principals;
    bulkheads =
        Counted-add_if (bulkhead_key h) c.bulkheads i.complete _ _ (to_bulkhead i)
          (λ key. step (of_bulkhead key)) (below (of_bulkhead (to_bulkhead i))) t.bulkheads;
  }
    where
      dominated : (select : Identity → Bool) → m select ≤ m everyone
      dominated select = ground (arith, step select, step everyone, t.dominated select)

      below : (select : Identity → Bool) → m select < u64_mod
      below select = omega (arith, dominated select, small)

  -- `SubtractUsage` takes back what `AddUsage` added, also where entries of the tables go.
  pub subtract_usage-Tracks :
      Adds i amount l m
      → ((select : Identity → Bool) → l select ≤ l everyone)
      → Tracks h c m
      → Tracks h (subtract_usage h c i amount) l
  unfolding subtract_usage
  subtract_usage-Tracks step dominated t = record {
    global = ground (arith, t.global, t.small, step everyone);
    small = ground (arith, t.small, step everyone);
    dominated = dominated;
    connectors =
        Counted-subtract_count (connector_key h) c.connectors _ _ i.connector_id amount
          (λ key. step (of_connector key)) t.connectors;
    destinations =
        Counted-subtract_count (destination_key h) c.destinations _ _ i.destination amount
          (λ key. step (of_destination key)) t.destinations;
    principals =
        Counted-subtract_if (principal_key h) c.principals (uses_principal i) _ _ i.principal
          (λ key. step (of_principal key)) t.principals;
    bulkheads =
        Counted-subtract_if (bulkhead_key h) c.bulkheads i.complete _ _ (to_bulkhead i)
          (λ key. step (of_bulkhead key)) t.bulkheads;
  }

pub empty_counters-Tracks : (h : Hasher) → Tracks h empty_counters (λ select. 0)
unfolding count_for
empty_counters-Tracks h = record {
  global = refl;
  small = omega arith;
  dominated = λ select. omega arith;
  connectors = record { table = tt; counts = λ key. refl };
  destinations = record { table = tt; counts = λ key. refl };
  principals = record { table = tt; counts = λ key. refl };
  bulkheads = record { table = tt; counts = λ key. refl };
}
