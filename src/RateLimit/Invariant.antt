-- ===== src/RateLimit/Invariant.antt =====
-- The invariant of the coordinator and of the permits that its callers hold.
use duckdb_fdw.Base.{
  ℕ, ◌+◌, ◌≤◌, ◌<◌, ◌≡◌, ap, ◌∙◌, inl, inr, Bool, true, false, ◌&&◌, ◌||◌, not, Option, none, some,
  List, arith, if◌then◌else◌, weigh, u64_mod, Bool-cases,
}
use duckdb_fdw.RateLimit.Table.{
  find, replace, remove, IsMap, AllOf, AllOf-replace, AllOf-remove, AllOf-find, total,
  total-replace, total-remove, find-replace, find-remove, IsMap-replace, IsMap-remove,
}
use duckdb_fdw.RateLimit.Key.{QuotaBucketKey, same_key, bucket_key}
use duckdb_fdw.RateLimit.Coordinator.{Bucket, Coordinator, is_open, is_empty, put_back}
use duckdb_fdw.RateLimit.Sections.{load}
use duckdb_fdw.RateLimit.Tickets.{IsRising, is_empty-length}

-- A bucket: its tickets are in the order of their issue, its load within the limit of a key, and it
-- has none once the coordinator is closed.
pub record IsQueue (next limit : ℕ) (opened : Bool) (b : Bucket) : Type 0 where
  pub rising : IsRising 0 next b.tickets
  pub within : load b ≤ limit
  pub cleared : (opened || is_empty b.tickets) ≡ true

-- A bucket of the table: somebody holds its permit or waits for it.
pub record IsGood (next limit : ℕ) (opened : Bool) (b : Bucket) : Type 0 where
  pub queue : IsQueue next limit opened b
  pub live : (not b.permitted && is_empty b.tickets) ≡ false

abbrev pub holds : QuotaBucketKey → List QuotaBucketKey → ℕ
holds key = weigh (λ j. if same_key j key then 1 else 0)

abbrev pub permits_of : Option Bucket → ℕ
permits_of none = 0
permits_of (some b) = if b.permitted then 1 else 0

-- The table has one entry for a key; every bucket is in use; the count of waiters is that of the
-- tickets and permits; and the permits that callers hold for a key are the one that its bucket shows,
-- or none.
pub record Inv (s : Coordinator) (permits : List QuotaBucketKey) : Type 0 where
  pub distinct : IsMap s.buckets
  pub good :
      AllOf (IsGood s.next_ticket s.limits.waiters_per_key (is_open s.terminal_status)) s.buckets
  pub counted : s.total_waiters ≡ total load s.buckets
  pub within : s.total_waiters ≤ s.limits.total_waiters
  pub small : s.limits.total_waiters ≤ 4096
  pub tickets : s.next_ticket < u64_mod
  pub held : (key : QuotaBucketKey) → holds key permits ≡ permits_of (find key s.buckets)

module _ (s : Coordinator) (permits : List QuotaBucketKey) (key : QuotaBucketKey) (old : Bucket)
    (v : Inv s permits) (found : find key s.buckets ≡ some old) where
  pub IsGood-at : IsGood s.next_ticket s.limits.waiters_per_key (is_open s.terminal_status) old
  IsGood-at = AllOf-find _ key old s.buckets v.good found

  pub counted_at : s.total_waiters ≡ load old + total load (remove key s.buckets)
  counted_at = v.counted ∙ total-remove load key old s.buckets found

  module _ (b : Bucket) (t : ℕ) (after : List QuotaBucketKey)
      (queue : IsQueue s.next_ticket s.limits.waiters_per_key (is_open s.terminal_status) b)
      (sums : t + load old ≡ s.total_waiters + load b) (within : t ≤ s.limits.total_waiters)
      (moved : (j : QuotaBucketKey)
        → holds j after ≡ (if same_key key j then permits_of (some b) else holds j permits)) where
    pub replace-Inv :
        (not b.permitted && is_empty b.tickets) ≡ false
        → Inv (record s { total_waiters = t; buckets = replace key b s.buckets }) after
    replace-Inv live = record {
      distinct = IsMap-replace key b s.buckets v.distinct;
      good = AllOf-replace _ key b s.buckets v.good (record { queue = queue; live = live });
      counted = omega (arith, total-replace load key b old s.buckets found, v.counted);
      within = within;
      small = v.small;
      tickets = v.tickets;
      held = λ j.
          ground
            (arith, moved j, v.held j, ap permits_of (find-replace j key b old s.buckets found));
    }

    remove-Inv :
        (not b.permitted && is_empty b.tickets) ≡ true
        → Inv (record s { total_waiters = t; buckets = remove key s.buckets }) after
    remove-Inv dead = record {
      distinct = IsMap-remove key s.buckets v.distinct;
      good = AllOf-remove _ key s.buckets v.good;
      counted =
          ground (
            arith,
            total-remove load key old s.buckets found,
            v.counted,
            is_empty-length b.tickets,
          );
      within = within;
      small = v.small;
      tickets = v.tickets;
      held = λ j.
          ground (arith, moved j, v.held j, ap permits_of (find-remove j key s.buckets v.distinct));
    }

    -- A bucket goes back into the table, or out of it where nobody needs it.
    pub put_back-Inv : Inv (put_back key b (record s { total_waiters = t })) after
    unfolding put_back
    put_back-Inv = elim (Bool-cases (not b.permitted && is_empty b.tickets)) [
      | inl dead ↦ rw dead (remove-Inv dead)
      | inr live ↦ rw live (replace-Inv live)
    ]
