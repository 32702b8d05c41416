-- ===== src/RateLimit/Waiting.antt =====
-- The turns of a waiting ticket keep the invariant.
use duckdb_fdw.Base.{
  ℕ, ◌+◌, ◌≤◌, ◌≡◌, refl, ap, subst, inl, inr, true, false, ◌||◌, some, List, [], ◌∷◌, arith,
  if◌then◌else◌, length, weigh-cons, Bool-cases, Option-cases, ltb, leb,
}
use duckdb_fdw.RateLimit.Table.{find, replace}
use duckdb_fdw.RateLimit.Key.{QuotaBucketKey, same_key, same_key_iff, bucket_key}
use duckdb_fdw.RateLimit.Coordinator.{
  Bucket, Coordinator, is_open, is_empty, has_ticket, drop_ticket, erase_ticket, one_less,
}
use duckdb_fdw.RateLimit.Sections.{
  load, Outcome, permitted_at, Turn, gets_permit, is_front, pop_front, wait_at, wait_turn,
  wait_fault,
}
use duckdb_fdw.RateLimit.Tickets.{
  IsRising-drop, IsRising-pop, length-drop_ticket, not_has_ticket-empty,
}
use duckdb_fdw.RateLimit.Invariant.{
  Inv, IsQueue, holds, permits_of, IsGood-at, counted_at, replace-Inv, put_back-Inv,
}

module _ (s : Coordinator) (permits : List QuotaBucketKey) (key : QuotaBucketKey) (b : Bucket)
    (v : Inv s permits) (found : find key s.buckets ≡ some b) where
  -- The permits held for the key are what its bucket shows.
  pub held_at :
      (j : QuotaBucketKey)
      → holds j permits ≡ (if same_key key j then permits_of (some b) else holds j permits)
  held_at j = elim (Bool-cases (same_key key j)) [
    | inl same ↦ rw same (
        subst (λ i. holds i permits ≡ permits_of (some b)) ((same_key_iff key j).0 same)
          (ground (arith, v.held key, ap permits_of found)))
    | inr other ↦ rw other
  ]

  dropped : ℕ → Bucket
  dropped ticket = record b { tickets = drop_ticket ticket b.tickets }

  dropped-IsQueue :
      (ticket : ℕ)
      → has_ticket ticket b.tickets ≡ true
      → IsQueue s.next_ticket s.limits.waiters_per_key (is_open s.terminal_status) (dropped ticket)
  unfolding dropped
  dropped-IsQueue ticket has = record {
    rising =
        IsRising-drop 0 s.next_ticket ticket b.tickets
          (IsGood-at s permits key b v found).queue.rising;
    within = ground (
      arith,
      length-drop_ticket ticket b.tickets,
      (IsGood-at s permits key b v found).queue.within,
    );
    cleared = ground (
      arith,
      not_has_ticket-empty ticket b.tickets,
      (IsGood-at s permits key b v found).queue.cleared,
    );
  }

  one_less_waiter :
      (n : ℕ)
      → n + 1 ≡ load b
      → (one_less s.total_waiters + load b ≡ s.total_waiters + n)
        × (one_less s.total_waiters ≤ s.limits.total_waiters)
  one_less_waiter n e =
      let c = counted_at s permits key b v found in
      (omega (arith, c, e, v.within, v.small), omega (arith, c, e, v.within, v.small))

  pub erase_ticket-Inv : (ticket : ℕ) → Inv (erase_ticket s key b ticket) permits
  unfolding erase_ticket dropped
  erase_ticket-Inv ticket = elim (Bool-cases (has_ticket ticket b.tickets)) [
    | inl has ↦
        let w =
          one_less_waiter (load (dropped ticket))
            (omega (arith, length-drop_ticket ticket b.tickets has)) in
        rw has (
          put_back-Inv s permits key b v found (dropped ticket) (one_less s.total_waiters) permits
            (dropped-IsQueue ticket has) w.0 w.1 held_at)
    | inr none_left ↦ rw none_left (
        put_back-Inv s permits key b v found b s.total_waiters permits
          (IsGood-at s permits key b v found).queue refl v.within held_at)
  ]

  -- The bucket after its front ticket took the permit.
  granted : Bucket
  granted = record b { permitted = true; tickets = pop_front b.tickets }

  front-length :
      (ticket : ℕ) (ts : List ℕ) → is_front ticket ts ≡ true → length ts ≡ length (pop_front ts) + 1
  front-length ticket [] f = ground arith
  front-length ticket (t ∷ ts) f = ground arith

  front-not_empty : (ticket : ℕ) (ts : List ℕ) → is_front ticket ts ≡ true → is_empty ts ≡ false
  front-not_empty ticket [] f = ground arith
  front-not_empty ticket (t ∷ ts) f = ground arith

  pop_front-empty : (ts : List ℕ) → is_empty ts ≡ true → is_empty (pop_front ts) ≡ true
  pop_front-empty [] e = ground arith
  pop_front-empty (t ∷ ts) e = ground arith

  granted-Inv :
      (ticket deadline now : ℕ)
      → gets_permit b ticket deadline now ≡ true
      → Inv (record s { buckets = replace key granted s.buckets }) (key ∷ permits)
  unfolding granted
  granted-Inv ticket deadline now g =
      let old = IsGood-at s permits key b v found in
      replace-Inv s permits key b v found granted s.total_waiters (key ∷ permits)
        (record {
          rising = IsRising-pop 0 s.next_ticket b.tickets old.queue.rising;
          within = ground (arith, front-length ticket b.tickets, old.queue.within);
          cleared = ground (arith, pop_front-empty b.tickets, old.queue.cleared);
        })
        (ground (arith, front-length ticket b.tickets)) v.within
        (λ j. ground (
          arith,
          weigh-cons (λ (i : QuotaBucketKey). if same_key i j then 1 else 0) key permits,
          held_at j,
        ))
        refl

-- The permits of the callers after a critical section.
abbrev pub deliver : Outcome → List QuotaBucketKey → List QuotaBucketKey
deliver (permitted_at key) permits = key ∷ permits
deliver _ permits = permits

abbrev pub After : List QuotaBucketKey → Coordinator × Outcome → Type 0
After permits r = Inv r.0 (deliver r.1 permits)

pub wait_at-Inv :
    (s : Coordinator) (permits : List QuotaBucketKey) (key : QuotaBucketKey) (b : Bucket)
    (ticket deadline : ℕ) (r : Turn)
    → Inv s permits
    → find key s.buckets ≡ some b
    → After permits (wait_at s key b ticket deadline r)
unfolding wait_at granted
wait_at-Inv s permits key b ticket deadline r v found = elim (Bool-cases r.cancelled) [
  | inl c ↦ rw c (erase_ticket-Inv s permits key b v found ticket)
  | inr nc ↦ elim (Bool-cases (gets_permit b ticket deadline r.now)) [
    | inl g ↦ rw (nc, g) (granted-Inv s permits key b v found ticket deadline r.now g)
    | inr ng ↦ elim (Bool-cases (leb deadline r.now || ltb deadline b.eligible)) [
      | inl e ↦ rw (nc, ng, e) (erase_ticket-Inv s permits key b v found ticket)
      | inr ne ↦ rw (nc, ng, ne) v
    ]
  ]
]

pub wait_turn-Inv :
    (s : Coordinator) (permits : List QuotaBucketKey) (key : QuotaBucketKey) (ticket deadline : ℕ)
    (r : Turn)
    → Inv s permits
    → After permits (wait_turn s key ticket deadline r)
unfolding wait_turn
wait_turn-Inv s permits key ticket deadline r v = elim (Bool-cases (is_open s.terminal_status)) [
  | inr closed ↦ rw closed v
  | inl opened ↦ elim (Option-cases (find key s.buckets)) [
    | inl absent ↦ rw (opened, absent) v
    | inr (b, found) ↦ rw (opened, found) (wait_at-Inv s permits key b ticket deadline r v found)
  ]
]

pub wait_fault-Inv :
    (s : Coordinator) (permits : List QuotaBucketKey) (key : QuotaBucketKey) (ticket : ℕ)
    → Inv s permits
    → Inv (wait_fault s key ticket) permits
unfolding wait_fault
wait_fault-Inv s permits key ticket v = elim (Option-cases (find key s.buckets)) [
  | inl absent ↦ rw (absent, wait_fault) v
  | inr (b, found) ↦ rw (found, wait_fault) (erase_ticket-Inv s permits key b v found ticket)
]
