-- ===== src/RateLimit/Queueing.antt =====
-- The sections that put a ticket into a queue keep the invariant: `Acquire` and `Requeue`.
use duckdb_fdw.Base.{
  ℕ, ◌+◌, ◌-◌, ◌%◌, ◌≤◌, ◌≡◌, refl, ap, subst, inl, inr, Bool, true, false, ◌||◌, none, some, List,
  [], ◌∷◌, ◌++◌, arith, if◌then◌else◌, length, All-map, weigh-cons, u64_mod, Bool-cases,
  Option-cases, leb, ◌==◌,
}
use duckdb_fdw.RateLimit.Table.{find, replace, IsFresh-find, find-replace}
use duckdb_fdw.RateLimit.Key.{QuotaBucketKey, same_key, same_key_iff, bucket_key}
use duckdb_fdw.RateLimit.Coordinator.{Status, Bucket, Coordinator, is_open, is_empty}
use duckdb_fdw.RateLimit.Sections.{
  load, Turn, with_ticket, new_bucket, extended, acquire_known, acquire_new, acquire,
}
use duckdb_fdw.RateLimit.Tickets.{IsRising-later, IsRising-snoc}
use duckdb_fdw.RateLimit.Invariant.{Inv, holds, permits_of, IsGood-at, counted_at, replace-Inv}
use duckdb_fdw.RateLimit.Waiting.{held_at, After, wait_turn-Inv}
use duckdb_fdw.RateLimit.Ending.{extend-Inv, enter_terminal-Inv}

abbrev next_of : Coordinator → Coordinator
next_of s = record s { next_ticket = s.next_ticket + 1 }

-- A ticket number that is taken.
next-Inv :
    (s : Coordinator) (permits : List QuotaBucketKey)
    → (s.next_ticket == u64_mod - 1) ≡ false
    → Inv s permits
    → Inv (next_of s) permits
next-Inv s permits more v = record {
  distinct = v.distinct;
  good =
      All-map _ _ s.buckets
        (λ e g. record {
          queue = record {
            rising = IsRising-later 0 s.next_ticket e.1.tickets g.queue.rising;
            within = g.queue.within;
            cleared = g.queue.cleared;
          };
          live = g.live;
        })
        v.good;
  counted = v.counted;
  within = v.within;
  small = v.small;
  tickets = ground (arith, v.tickets);
  held = v.held;
}

pub length-snoc : (t : ℕ) (ts : List ℕ) → length (ts ++ t ∷ []) ≡ length ts + 1
length-snoc t [] = ground arith
length-snoc t (u ∷ ts) = ground (arith, length-snoc t ts)

not_empty-snoc : (t : ℕ) (ts : List ℕ) → is_empty (ts ++ t ∷ []) ≡ false
not_empty-snoc t [] = refl
not_empty-snoc t (u ∷ ts) = refl

module _ (s : Coordinator) (permits : List QuotaBucketKey) (key : QuotaBucketKey) (b : Bucket)
    (v : Inv s permits) (found : find key s.buckets ≡ some b)
    (opened : is_open s.terminal_status ≡ true) (more : (s.next_ticket == u64_mod - 1) ≡ false)
    (after : List QuotaBucketKey) (permitted : Bool) (t : ℕ) where
  -- The bucket with the new ticket at its end.
  abbrev queued : Bucket
  queued = record b { permitted = permitted; tickets = b.tickets ++ s.next_ticket ∷ [] }

  pub queued-Inv :
      load queued ≤ s.limits.waiters_per_key
      → t + load b ≡ s.total_waiters + load queued
      → t ≤ s.limits.total_waiters
      → ((j : QuotaBucketKey)
          → holds j after ≡ (if same_key key j then permits_of (some queued) else holds j permits))
      → Inv (with_ticket s (replace key queued s.buckets) t) after
  queued-Inv within sums small moved =
      replace-Inv (next_of s) permits key b (next-Inv s permits more v) found queued t after
        (record {
          rising =
              IsRising-snoc 0 s.next_ticket b.tickets
                (IsGood-at s permits key b v found).queue.rising;
          within = within;
          cleared = rw opened refl;
        })
        sums small moved (ground (arith, not_empty-snoc s.next_ticket b.tickets))

acquire_known-Inv :
    (s : Coordinator) (permits : List QuotaBucketKey) (key : QuotaBucketKey) (b : Bucket)
    (deadline : ℕ) (r : Turn)
    → Inv s permits
    → find key s.buckets ≡ some b
    → is_open s.terminal_status ≡ true
    → After permits (acquire_known s key b deadline r)
unfolding acquire_known is_open
acquire_known-Inv s permits key b deadline r v found opened =
    elim (Bool-cases
      (leb s.limits.waiters_per_key (load b) || leb s.limits.total_waiters s.total_waiters)) [
        | inl full ↦ rw (full, acquire_known) v
        | inr room ↦ elim (Bool-cases (s.next_ticket == u64_mod - 1)) [
          | inl last ↦
              rw (room, last, acquire_known)
                (enter_terminal-Inv s permits Status.ticket_exhausted refl v)
          | inr more ↦
              let l = length-snoc s.next_ticket b.tickets in
              let c = counted_at s permits key b v found in
              rw (room, more, acquire_known)
                (wait_turn-Inv _ permits key s.next_ticket deadline r (
                  queued-Inv s permits key b v found opened more permits b.permitted
                    ((s.total_waiters + 1) % u64_mod) (ground (arith, l, room))
                    (ground (arith, l, room, v.within, v.small)) (ground (arith, room, v.small))
                    (held_at s permits key b v found)))
        ]
      ]

-- What the table shows at a key once a bucket that is there is replaced.
pub extended-found :
    (s : Coordinator) (key : QuotaBucketKey) (b : Bucket) (eligible : ℕ)
    → find key s.buckets ≡ some b
    → find key (replace key (extended b eligible) s.buckets) ≡ some (extended b eligible)
extended-found s key b eligible found = ground (
  arith,
  find-replace key key (extended b eligible) b s.buckets found,
  (same_key_iff key key).1 refl,
)

fresh_permits :
    (s : Coordinator) (key j : QuotaBucketKey)
    → find key s.buckets ≡ none
    → same_key key j ≡ true
    → permits_of (find j s.buckets) ≡ 0
fresh_permits s key j absent same =
    subst (λ i. permits_of (find i s.buckets) ≡ 0) ((same_key_iff key j).0 same)
      (ap permits_of absent)

acquire_new-Inv :
    (s : Coordinator) (permits : List QuotaBucketKey) (key : QuotaBucketKey) (eligible deadline : ℕ)
    (r : Turn)
    → Inv s permits
    → find key s.buckets ≡ none
    → is_open s.terminal_status ≡ true
    → After permits (acquire_new s key eligible deadline r)
unfolding acquire_new is_open find
acquire_new-Inv s permits key eligible deadline r v absent opened =
    elim (Bool-cases
      (s.limits.waiters_per_key == 0 || leb s.limits.total_waiters s.total_waiters)) [
        | inl full ↦ rw (full, acquire_new) v
        | inr room ↦ elim (Bool-cases (s.next_ticket == u64_mod - 1)) [
          | inl last ↦
              rw (room, last, acquire_new)
                (enter_terminal-Inv s permits Status.ticket_exhausted refl v)
          | inr more ↦
              let n = next-Inv s permits more v in
              rw (room, more, acquire_new)
                (wait_turn-Inv _ permits key s.next_ticket deadline r (record {
                  distinct = (IsFresh-find key s.buckets absent, v.distinct);
                  good = (
                    record {
                      queue = record {
                        rising = ground arith;
                        within = ground (arith, room);
                        cleared = rw opened refl;
                      };
                      live = refl;
                    },
                    n.good,
                  );
                  counted = ground (
                    arith,
                    room,
                    v.counted,
                    v.small,
                    weigh-cons (λ (e : QuotaBucketKey × Bucket). load e.1)
                        (key, new_bucket eligible s.next_ticket) s.buckets,
                  );
                  within = ground (arith, room, v.small);
                  small = v.small;
                  tickets = n.tickets;
                  held = λ j. ground (arith, v.held j, fresh_permits s key j absent);
                }))
        ]
      ]

pub acquire-Inv :
    (s : Coordinator) (permits : List QuotaBucketKey) (key : QuotaBucketKey) (eligible deadline : ℕ)
    (cancels : Bool) (r : Turn)
    → Inv s permits
    → After permits (acquire s key eligible deadline cancels r)
unfolding acquire
acquire-Inv s permits key eligible deadline cancels r v =
    elim (Bool-cases (is_open s.terminal_status)) [
      | inr closed ↦ rw (closed, acquire) v
      | inl opened ↦ elim (Bool-cases cancels) [
        | inl c ↦ rw (opened, c, acquire) v
        | inr nc ↦ elim (Option-cases (find key s.buckets)) [
          | inl absent ↦
              rw (opened, nc, absent, acquire)
                (acquire_new-Inv s permits key eligible deadline r v absent opened)
          | inr (b, found) ↦
              rw (opened, nc, found, acquire)
                (acquire_known-Inv _ permits key (extended b eligible) deadline r
                  (extend-Inv s permits key b eligible v found)
                  (extended-found s key b eligible found) opened)
        ]
      ]
    ]
