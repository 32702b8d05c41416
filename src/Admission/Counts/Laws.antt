-- ===== src/Admission/Counts/Laws.antt =====
-- What the count tables compute, seen as functions from keys to counts.
use duckdb_fdw.Base.{
  ℕ, ◌+◌, ◌-◌, ◌≤◌, ◌<◌, ◌≡◌, refl, ap, true, false, inl, inr, List, [], ◌∷◌, arith, if◌then◌else◌,
  u64_mod, Bool-cases, ==_iff,
}
use duckdb_fdw.Admission.Counts.{
  CountKey, KeyCount, matches, count_for, add_count, subtract_count, Fresh, IsTable,
}

module _ {ℓ} {K : Type ℓ} ⦃k : CountKey K⦄ where
  pub beq_refl : (a : K) → k.beq a a ≡ true
  beq_refl a = (k.beq_iff a a).1 refl

  -- The hash of an entry never hides a matching key.
  matches-beq : (e : KeyCount K) (key : K) → e.hash ≡ k.hash e.key → matches e key ≡ k.beq e.key key
  matches-beq e key h = elim (Bool-cases (k.beq e.key key)) [
    | inl same ↦
        ground (arith, same, ap k.hash ((k.beq_iff e.key key).0 same), ==_iff e.hash (k.hash key))
    | inr other ↦ ground (arith, other)
  ]

  count_for-Fresh : (key : K) (es : List (KeyCount K)) → Fresh key es → count_for es key ≡ 0
  unfolding count_for
  count_for-Fresh key [] f = refl
  count_for-Fresh key (e ∷ es) f = ground (arith, count_for-Fresh key es)

  Fresh-add_count :
      (key j : K) (amount : ℕ) (es : List (KeyCount K))
      → k.beq key j ≡ false
      → Fresh j es
      → Fresh j (add_count es key amount)
  unfolding add_count
  Fresh-add_count key j amount [] n f = (n, tt)
  Fresh-add_count key j amount (e ∷ es) n f = ground (arith, Fresh-add_count key j amount es)

  Fresh-subtract_count :
      (key j : K) (amount : ℕ) (es : List (KeyCount K))
      → Fresh j es
      → Fresh j (subtract_count es key amount)
  unfolding subtract_count
  Fresh-subtract_count key j amount [] f = tt
  Fresh-subtract_count key j amount (e ∷ es) f =
      ground (arith, Fresh-subtract_count key j amount es)

  beq_comm : (a b : K) → k.beq a b ≡ k.beq b a
  beq_comm a b = elim (Bool-cases (k.beq a b)) [
    | inl same ↦ rw ((k.beq_iff a b).0 same)
    | inr other ↦ elim (Bool-cases (k.beq b a)) [
      | inl same ↦ rw ((k.beq_iff b a).0 same)
      | inr different ↦ rw (other, different)
    ]
  ]

  beq_other : (a b j : K) → k.beq a b ≡ false → k.beq a j ≡ true → k.beq b j ≡ false
  beq_other a b j n same = rw (← (k.beq_iff a j).0 same, beq_comm b a) n

  beq_through : (a b j : K) → k.beq a b ≡ true → k.beq a j ≡ k.beq b j
  beq_through a b j same = rw ((k.beq_iff a b).0 same)

  count_for-Fresh_through :
      (a j : K) (es : List (KeyCount K)) → k.beq a j ≡ true → Fresh a es → count_for es j ≡ 0
  count_for-Fresh_through a j es same f = rw (← (k.beq_iff a j).0 same) (count_for-Fresh a es f)

  pub add_count-IsTable :
      (es : List (KeyCount K)) (key : K) (amount : ℕ)
      → IsTable es
      → amount < u64_mod
      → IsTable (add_count es key amount)
  unfolding add_count
  add_count-IsTable [] key amount t small = (refl, small, tt, tt)
  add_count-IsTable (e ∷ es) key amount t small = ground (
    arith,
    matches-beq e key t.0,
    beq_comm e.key key,
    Fresh-add_count key e.key amount es,
    add_count-IsTable es key amount t.3 small,
  )

  -- In a table whose hashes are right and whose keys stand once, adding to one key adds to what the
  -- table holds for it, if no uint64_t passes its end, and leaves every other key alone.
  pub count_for-add_count :
      (es : List (KeyCount K)) (key : K) (amount : ℕ) (j : K)
      → IsTable es
      → count_for es key + amount < u64_mod
      → count_for (add_count es key amount) j
        ≡ (if k.beq key j then count_for es j + amount else count_for es j)
  unfolding count_for add_count
  count_for-add_count [] key amount j t small =
      ground (arith, matches-beq (record { hash = k.hash key; key = key; count = amount }) j refl)
  count_for-add_count (e ∷ es) key amount j t small = ground (
    arith,
    matches-beq e key t.0,
    matches-beq e j t.0,
    beq_through e.key key j,
    beq_other e.key key j,
    count_for-add_count es key amount j t.3,
  )

  pub subtract_count-IsTable :
      (es : List (KeyCount K)) (key : K) (amount : ℕ)
      → IsTable es
      → IsTable (subtract_count es key amount)
  unfolding subtract_count
  subtract_count-IsTable [] key amount t = tt
  subtract_count-IsTable (e ∷ es) key amount t =
      ground
        (arith, Fresh-subtract_count key e.key amount es, subtract_count-IsTable es key amount t.3)

  -- In a table whose hashes are right and whose keys stand once, subtracting no more than a key
  -- holds takes it from that key alone, also where the entry goes.
  pub count_for-subtract_count :
      (es : List (KeyCount K)) (key : K) (amount : ℕ) (j : K)
      → IsTable es
      → amount ≤ count_for es key
      → count_for (subtract_count es key amount) j
        ≡ (if k.beq key j then count_for es j - amount else count_for es j)
  unfolding count_for subtract_count
  count_for-subtract_count [] key amount j t enough = ground arith
  count_for-subtract_count (e ∷ es) key amount j t enough = ground (
    arith,
    matches-beq e key t.0,
    matches-beq e j t.0,
    beq_through e.key key j,
    beq_other e.key key j,
    count_for-Fresh_through e.key j es,
    count_for-subtract_count es key amount j t.3,
  )
