-- ===== src/RateLimit/Fairness.antt =====
-- Who gets a permit, and when.
use duckdb_fdw.Base.{
  ℕ, ◌+◌, ◌≤◌, ◌<◌, ◌≡◌, refl, ap, ◌∙◌, inl, inr, true, false, some, List, [], ◌∷◌, ◌++◌, All,
  arith, if◌then◌else◌, int64_max, Option-cases,
}
use duckdb_fdw.RateLimit.Table.{find, find-replace}
use duckdb_fdw.RateLimit.Key.{QuotaBucketKey, same_key_iff, bucket_key}
use duckdb_fdw.RateLimit.Coordinator.{
  Limits, Bucket, Coordinator, is_open, is_empty, put_back, complete,
}
use duckdb_fdw.RateLimit.Sections.{
  is_front, gets_permit, permitted_at, Turn, wait_slice, wait_at, wait_turn,
}
use duckdb_fdw.RateLimit.Tickets.{IsRising}
use duckdb_fdw.RateLimit.Invariant.{IsGood-at}
use duckdb_fdw.RateLimit.Ending.{permit-found}
use duckdb_fdw.RateLimit.Steps.{System, system, Reach, coordinator-Inv}

-- What holds of the bucket and of the clock where a ticket gets the permit of its key.
pub record IsDue (b : Bucket) (ticket deadline : ℕ) (r : Turn) : Type 0 where
  pub alive : r.cancelled ≡ false
  pub free : b.permitted ≡ false
  pub eligible : b.eligible ≤ r.now
  pub in_time : r.now ≤ deadline
  pub oldest : All (λ t. ticket ≤ t) b.tickets

All-later :
    (low next ticket : ℕ) (ts : List ℕ)
    → ticket ≤ low
    → IsRising low next ts
    → All (λ t. ticket ≤ t) ts
All-later low next ticket [] h r = tt
All-later low next ticket (t ∷ ts) h r =
    (omega (arith, r.0), All-later (t + 1) next ticket ts (omega (arith, r.0)) r.1)

front-oldest :
    (next ticket : ℕ) (ts : List ℕ)
    → is_front ticket ts ≡ true
    → IsRising 0 next ts
    → All (λ t. ticket ≤ t) ts
front-oldest next ticket [] f r = tt
front-oldest next ticket (t ∷ ts) f r =
    (ground arith, All-later (t + 1) next ticket ts (ground arith) r.1)

wait_at-permit :
    (s : Coordinator) (key : QuotaBucketKey) (b : Bucket) (ticket deadline : ℕ) (r : Turn)
    (j : QuotaBucketKey)
    → (wait_at s key b ticket deadline r).1 ≡ permitted_at j
    → (r.cancelled ≡ false) × (gets_permit b ticket deadline r.now ≡ true)
unfolding wait_at
wait_at-permit s key b ticket deadline r j e = ground (arith, e)

-- A turn gives the permit only to the oldest ticket of the key, once the key's embargo is over, not
-- after the deadline and not where the caller has cancelled, and only where nobody holds it.
pub wait_turn-IsDue :
    (limits : Limits) (initial_ticket : ℕ) (a : System)
    → Reach limits initial_ticket a
    → (key : QuotaBucketKey) (b : Bucket) → find key a.shared.buckets ≡ some b
    → (ticket deadline : ℕ) (r : Turn) (j : QuotaBucketKey)
    → (wait_turn a.shared key ticket deadline r).1 ≡ permitted_at j
    → IsDue b ticket deadline r
unfolding wait_turn
wait_turn-IsDue limits initial_ticket a reach key b found ticket deadline r j e =
    let v = coordinator-Inv limits initial_ticket a reach in
    let q = (IsGood-at a.shared a.permits key b v found).queue.rising in
    let p : (r.cancelled ≡ false) × (gets_permit b ticket deadline r.now ≡ true) =
      ground (arith, e, found, wait_at-permit a.shared key b ticket deadline r j) in
    record {
      alive = p.0;
      free = ground (arith, p.1);
      eligible = ground (arith, p.1);
      in_time = ground (arith, p.1);
      oldest = front-oldest a.shared.next_ticket ticket b.tickets (ground (arith, p.1)) q;
    }

-- A sleep before a target that is ahead is not empty, no longer than the slice, and ends by the target.
pub wait_slice-bounds :
    (now target maximum_slice : ℕ)
    → target ≤ int64_max
    → 0 < maximum_slice
    → maximum_slice ≤ int64_max
    → now < target
    → (0 < wait_slice now target maximum_slice)
      × (wait_slice now target maximum_slice ≤ maximum_slice)
      × (now + wait_slice now target maximum_slice ≤ target)
unfolding wait_slice
wait_slice-bounds now target maximum_slice fits some_slice slice_fits ahead = ground arith

wait_turn-permits :
    (s : Coordinator) (key : QuotaBucketKey) (b : Bucket) (ticket deadline : ℕ) (r : Turn)
    → is_open s.terminal_status ≡ true
    → find key s.buckets ≡ some b
    → r.cancelled ≡ false
    → gets_permit b ticket deadline r.now ≡ true
    → (wait_turn s key ticket deadline r).1 ≡ permitted_at key
unfolding wait_turn wait_at
wait_turn-permits s key b ticket deadline r opened found alive due =
    rw (opened, found, alive, due, wait_turn) refl

find-complete :
    (s : Coordinator) (key : QuotaBucketKey) (b : Bucket)
    → find key s.buckets ≡ some b
    → b.permitted ≡ true
    → is_empty b.tickets ≡ false
    → find key (complete s key).buckets ≡ some (record b { permitted = false })
unfolding complete put_back
find-complete s key b found out waited =
    let held : (if b.permitted then true else false) ≡ true = ground (arith, out) in
    ground (
      arith,
      found,
      out,
      waited,
      find-replace key key (record b { permitted = false }) b s.buckets found,
      (same_key_iff key key).1 refl,
    )

complete-terminal_status :
    (s : Coordinator) (key : QuotaBucketKey) → (complete s key).terminal_status ≡ s.terminal_status
unfolding complete put_back
complete-terminal_status s key = elim (Option-cases (find key s.buckets)) [
  | inl absent ↦ rw (absent, complete) refl
  | inr (b, found) ↦ ground (arith, found)
]

not_empty : (ticket : ℕ) (ts later : List ℕ) → ts ≡ ticket ∷ later → is_empty ts ≡ false
not_empty ticket ts later e = rw e refl

front : (ticket : ℕ) (ts later : List ℕ) → ts ≡ ticket ∷ later → is_front ticket ts ≡ true
front ticket ts later e = rw e (ground arith)

-- After the holder completes its permit, the oldest ticket of the key gets it in its next turn, once
-- the embargo is over, up to its deadline, unless its caller cancelled.
pub complete-hands_over :
    (limits : Limits) (initial_ticket : ℕ) (s : Coordinator) (xs ys : List QuotaBucketKey)
    (key : QuotaBucketKey) (b : Bucket) (ticket : ℕ) (later : List ℕ) (deadline : ℕ) (r : Turn)
    → Reach limits initial_ticket (system s (xs ++ key ∷ ys))
    → is_open s.terminal_status ≡ true
    → find key s.buckets ≡ some b
    → b.tickets ≡ ticket ∷ later
    → r.cancelled ≡ false
    → b.eligible ≤ r.now
    → r.now ≤ deadline
    → (wait_turn (complete s key) key ticket deadline r).1 ≡ permitted_at key
complete-hands_over limits initial_ticket s xs ys key b ticket later deadline r reach opened found
      queue alive eligible in_time =
    let v = coordinator-Inv limits initial_ticket (system s (xs ++ key ∷ ys)) reach in
    let (c, at, out) = permit-found s xs ys key v in
    let held : b.permitted ≡ true = ground (arith, found, at, out) in
    wait_turn-permits (complete s key) key (record b { permitted = false }) ticket deadline r
      (ap is_open (complete-terminal_status s key) ∙ opened)
      (find-complete s key b found held (not_empty ticket b.tickets later queue)) alive
      (ground (arith, front ticket b.tickets later queue))
