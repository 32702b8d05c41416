-- ===== src/RateLimit/Ending.antt =====
-- The sections that end something keep the invariant: a permit's completion, its embargo, and the
-- terminal status of the coordinator.
use duckdb_fdw.Base.{
  ℕ, ◌+◌, ◌-◌, ◌%◌, ◌≤◌, ◌<◌, ◌≡◌, refl, sym, ap, ◌∙◌, inl, inr, Bool, true, false, ◌||◌, not, some,
  List, [], ◌∷◌, ◌++◌, arith, if◌then◌else◌, length, weigh-nil, weigh-cons, weigh-append, u64_mod,
  Bool-cases, Option-cases,
}
use duckdb_fdw.RateLimit.Table.{
  find, replace, IsMap, IsFresh, IsFresh-through, find-IsFresh, AllOf, total,
}
use duckdb_fdw.RateLimit.Key.{QuotaBucketKey, same_key, same_key_iff, bucket_key}
use duckdb_fdw.RateLimit.Coordinator.{
  Status, Bucket, Coordinator, is_open, put_back, one_less, clear_buckets, clear_waiters,
  enter_terminal, extend_eligible_time, complete,
}
use duckdb_fdw.RateLimit.Sections.{load, extended}
use duckdb_fdw.RateLimit.Tickets.{IsRising-low}
use duckdb_fdw.RateLimit.Invariant.{
  Inv, IsGood, holds, permits_of, IsGood-at, counted_at, replace-Inv, put_back-Inv,
}
use duckdb_fdw.RateLimit.Waiting.{held_at}

-- One permit of the key among those that callers hold.
pub holds-among :
    (j key : QuotaBucketKey) (xs ys : List QuotaBucketKey)
    → holds j (xs ++ key ∷ ys) ≡ holds j (xs ++ ys) + (if same_key key j then 1 else 0)
holds-among j key xs ys =
    let w : QuotaBucketKey → ℕ = λ i. if same_key i j then 1 else 0 in
    omega (arith, weigh-append w xs (key ∷ ys), weigh-append w xs ys, weigh-cons w key ys)

same_key_self : (key : QuotaBucketKey) → same_key key key ≡ true
same_key_self key = (same_key_iff key key).1 refl

-- A caller that has the permit of a key finds its bucket, with the permit out.
pub permit-found :
    (s : Coordinator) (xs ys : List QuotaBucketKey) (key : QuotaBucketKey)
    → Inv s (xs ++ key ∷ ys)
    → (b : Bucket) × (find key s.buckets ≡ some b) × (b.permitted ≡ true)
permit-found s xs ys key v =
    let held = v.held key in
    let among = holds-among key key xs ys in
    elim (Option-cases (find key s.buckets)) [
      | inl absent ↦ ground (arith, held, among, same_key_self key, ap permits_of absent)
      | inr (b, found) ↦
          (b, found, ground (arith, held, among, same_key_self key, ap permits_of found))
    ]

module _ (s : Coordinator) (xs ys : List QuotaBucketKey) (key : QuotaBucketKey) (b : Bucket)
    (v : Inv s (xs ++ key ∷ ys)) (found : find key s.buckets ≡ some b)
    (out : b.permitted ≡ true) where
  -- The bucket after its permit came back.
  returned : Bucket
  returned = record b { permitted = false }

  pub returned-held :
      (j : QuotaBucketKey)
      → holds j (xs ++ ys) ≡ (if same_key key j then 0 else holds j (xs ++ key ∷ ys))
  returned-held j =
      ground (arith, holds-among j key xs ys, held_at s (xs ++ key ∷ ys) key b v found j)

  completed-Inv :
      Inv (put_back key returned (record s { total_waiters = one_less s.total_waiters })) (xs ++ ys)
  unfolding returned
  completed-Inv =
      let c = counted_at s (xs ++ key ∷ ys) key b v found in
      let old = IsGood-at s (xs ++ key ∷ ys) key b v found in
      put_back-Inv s (xs ++ key ∷ ys) key b v found returned (one_less s.total_waiters) (xs ++ ys)
        (record {
          rising = old.queue.rising;
          within = ground (arith, old.queue.within);
          cleared = old.queue.cleared;
        })
        (ground (arith, c, v.within, v.small)) (ground (arith, c, v.within, v.small)) returned-held

pub complete-Inv :
    (s : Coordinator) (xs ys : List QuotaBucketKey) (key : QuotaBucketKey)
    → Inv s (xs ++ key ∷ ys)
    → Inv (complete s key) (xs ++ ys)
unfolding complete returned
complete-Inv s xs ys key v =
    let (b, found, out) = permit-found s xs ys key v in
    rw (found, out, complete) (completed-Inv s xs ys key b v found out)

pub extend-Inv :
    (s : Coordinator) (permits : List QuotaBucketKey) (key : QuotaBucketKey) (b : Bucket)
    (eligible : ℕ)
    → Inv s permits
    → find key s.buckets ≡ some b
    → Inv (record s { buckets = replace key (extended b eligible) s.buckets }) permits
extend-Inv s permits key b eligible v found =
    let old = IsGood-at s permits key b v found in
    replace-Inv s permits key b v found (extended b eligible) s.total_waiters permits
      (record { rising = old.queue.rising; within = old.queue.within; cleared = old.queue.cleared })
      refl v.within (held_at s permits key b v found) old.live

pub extend_eligible_time-Inv :
    (s : Coordinator) (permits : List QuotaBucketKey) (key : QuotaBucketKey) (eligible : ℕ)
    → Inv s permits
    → Inv (extend_eligible_time s key eligible).0 permits
unfolding extend_eligible_time
extend_eligible_time-Inv s permits key eligible v = elim (Option-cases (find key s.buckets)) [
  | inl absent ↦ rw (absent, extend_eligible_time) v
  | inr (b, found) ↦ elim (Bool-cases (not (is_open s.terminal_status) || not b.permitted)) [
    | inl refused ↦ rw (found, refused, extend_eligible_time) v
    | inr ok ↦ rw (found, ok, extend_eligible_time) (extend-Inv s permits key b eligible v found)
  ]
]

-- What the terminal status does to the table.
tickets_of : Bucket → ℕ
tickets_of b = length b.tickets

clear_waiters-total :
    (es : List (QuotaBucketKey × Bucket)) (waiters : ℕ)
    → total tickets_of es ≤ waiters
    → waiters < u64_mod
    → clear_waiters es waiters ≡ waiters - total tickets_of es
unfolding clear_waiters tickets_of
clear_waiters-total [] waiters h small =
    omega (arith, weigh-nil (λ (e : QuotaBucketKey × Bucket). length e.1.tickets))
clear_waiters-total ((key, b) ∷ es) waiters h small =
    let w = weigh-cons (λ (e : QuotaBucketKey × Bucket). length e.1.tickets) (key, b) es in
    let wrap : (waiters + u64_mod - length b.tickets) % u64_mod ≡ waiters - length b.tickets =
      omega (arith, w, h, small) in
    rw wrap (
      omega (
        arith,
        w,
        h,
        clear_waiters-total es (waiters - length b.tickets) (omega (arith, w, h))
            (omega (arith, small)),
      ))

clear_buckets-total :
    (es : List (QuotaBucketKey × Bucket))
    → total load es ≡ total tickets_of es + total load (clear_buckets es)
unfolding clear_buckets tickets_of
clear_buckets-total [] =
    ground (arith, weigh-nil (λ (e : QuotaBucketKey × Bucket). length e.1.tickets))
clear_buckets-total ((key, b) ∷ es) = ground (
  arith,
  clear_buckets-total es,
  weigh-cons (λ (e : QuotaBucketKey × Bucket). length e.1.tickets) (key, b) es,
  weigh-cons (λ (e : QuotaBucketKey × Bucket). load e.1) (key, b) es,
  weigh-cons (λ (e : QuotaBucketKey × Bucket). load e.1) (key, record b { tickets = [] })
      (clear_buckets es),
)

clear_buckets-IsFresh :
    (i : QuotaBucketKey) (es : List (QuotaBucketKey × Bucket))
    → IsFresh i es
    → IsFresh i (clear_buckets es)
unfolding clear_buckets
clear_buckets-IsFresh i [] f = tt
clear_buckets-IsFresh i ((key, b) ∷ es) f = ground (arith, clear_buckets-IsFresh i es)

clear_buckets-IsMap : (es : List (QuotaBucketKey × Bucket)) → IsMap es → IsMap (clear_buckets es)
unfolding clear_buckets
clear_buckets-IsMap [] m = tt
clear_buckets-IsMap ((key, b) ∷ es) m =
    ground (arith, clear_buckets-IsMap es, clear_buckets-IsFresh key es)

clear_buckets-permits :
    (i : QuotaBucketKey) (es : List (QuotaBucketKey × Bucket))
    → IsMap es
    → permits_of (find i (clear_buckets es)) ≡ permits_of (find i es)
unfolding clear_buckets find
clear_buckets-permits i [] m = refl
clear_buckets-permits i ((key, b) ∷ es) m = ground (
  arith,
  clear_buckets-permits i es,
  λ (same : same_key key i ≡ true). ap permits_of (
      find-IsFresh i (clear_buckets es)
        (clear_buckets-IsFresh i es (IsFresh-through key i es same m.0))),
)

clear_buckets-IsGood :
    (next limit : ℕ) (opened : Bool) (es : List (QuotaBucketKey × Bucket))
    → AllOf (IsGood next limit opened) es
    → AllOf (IsGood next limit false) (clear_buckets es)
unfolding clear_buckets
clear_buckets-IsGood next limit opened [] a = tt
clear_buckets-IsGood next limit opened ((key, b) ∷ es) a =
    let rest = clear_buckets-IsGood next limit opened es a.1 in
    elim (Bool-cases b.permitted) [
      | inr free ↦ rw free rest
      | inl out ↦ rw out (
        record {
          queue = record {
            rising = IsRising-low 0 next b.tickets a.0.queue.rising;
            within = ground (arith, a.0.queue.within);
            cleared = refl;
          };
          live = ground arith;
        },
        rest,
      )
    ]

pub enter_terminal-Inv :
    (s : Coordinator) (permits : List QuotaBucketKey) (status : Status)
    → is_open status ≡ false
    → Inv s permits
    → Inv (enter_terminal s status) permits
unfolding enter_terminal
enter_terminal-Inv s permits status ended v = elim (Bool-cases (is_open s.terminal_status)) [
  | inr closed ↦ rw (closed, enter_terminal) v
  | inl opened ↦
      let t = clear_buckets-total s.buckets in
      let w =
        clear_waiters-total s.buckets s.total_waiters (omega (arith, t, v.counted))
          (omega (arith, v.within, v.small)) in
      rw (opened, enter_terminal)
        (record {
          distinct = clear_buckets-IsMap s.buckets v.distinct;
          good = rw ended (
              clear_buckets-IsGood s.next_ticket s.limits.waiters_per_key
                (is_open s.terminal_status) s.buckets v.good);
          counted = omega (arith, t, w, v.counted);
          within = omega (arith, t, w, v.counted, v.within);
          small = v.small;
          tickets = v.tickets;
          held = λ j. v.held j ∙ sym (clear_buckets-permits j s.buckets v.distinct);
        })
]
