-- ===== src/RateLimit/Permits.antt =====
-- What a permit of the coordinator promises to its holder.
use duckdb_fdw.Base.{
  ℕ, ◌-◌, ◌≤◌, ◌≡◌, ◌≢◌, ap, inl, inr, Bool, false, not, ◌||◌, Option, none, some, List, ◌∷◌, ◌++◌,
  arith, u64_mod, Bool-cases, ◌==◌,
}
use duckdb_fdw.RateLimit.Table.{find}
use duckdb_fdw.RateLimit.Key.{QuotaBucketKey, bucket_key}
use duckdb_fdw.RateLimit.Coordinator.{Limits, Bucket, Coordinator, is_open}
use duckdb_fdw.RateLimit.Sections.{lost_authority, Turn, extended, requeue, requeue_at, wait_turn}
use duckdb_fdw.RateLimit.Invariant.{holds, permits_of}
use duckdb_fdw.RateLimit.Ending.{permit-found}
use duckdb_fdw.RateLimit.Requeueing.{keeps_handle, wait_turn-takes_handle}
use duckdb_fdw.RateLimit.Steps.{System, system, Reach, coordinator-Inv}

permits_of-bound : (o : Option Bucket) → permits_of o ≤ 1
permits_of-bound none = ground arith
permits_of-bound (some b) = ground arith

-- At any time the callers hold at most one permit for a key.
pub permits-exclusive :
    (limits : Limits) (initial_ticket : ℕ) (a : System)
    → Reach limits initial_ticket a
    → (key : QuotaBucketKey) → holds key a.permits ≤ 1
permits-exclusive limits initial_ticket a reach key =
    let v = coordinator-Inv limits initial_ticket a reach in
    omega (arith, v.held key, permits_of-bound (find key a.shared.buckets))

wait_turn-not_lost :
    (s : Coordinator) (key : QuotaBucketKey) (ticket deadline : ℕ) (r : Turn)
    → (wait_turn s key ticket deadline r).1 ≢ lost_authority
wait_turn-not_lost s key ticket deadline r lost =
    ground (arith, wait_turn-takes_handle s key ticket deadline r, ap keeps_handle lost)

requeue_at-not_lost :
    (s : Coordinator) (key : QuotaBucketKey) (b : Bucket) (deadline : ℕ) (r : Turn)
    → (requeue_at s key b deadline r).1 ≢ lost_authority
unfolding requeue_at
requeue_at-not_lost s key b deadline r = elim (Bool-cases (s.next_ticket == u64_mod - 1)) [
  | inl last ↦ rw (last, requeue_at) (ground arith)
  | inr more ↦ rw (more, requeue_at) (wait_turn-not_lost _ key s.next_ticket deadline r)
]

-- A caller that queues its permit again never meets the std::logic_error of a permit that lost its
-- authority.
pub requeue-keeps_authority :
    (limits : Limits) (initial_ticket : ℕ) (s : Coordinator) (xs ys : List QuotaBucketKey)
    (key : QuotaBucketKey)
    → Reach limits initial_ticket (system s (xs ++ key ∷ ys))
    → (eligible deadline : ℕ) (cancels : Bool) (r : Turn)
    → (requeue s key eligible deadline cancels r).1 ≢ lost_authority
unfolding requeue
requeue-keeps_authority limits initial_ticket s xs ys key reach eligible deadline cancels r =
    elim (Bool-cases (not (is_open s.terminal_status) || cancels)) [
      | inl refused ↦ rw (refused, requeue) (ground arith)
      | inr ok ↦
          let v = coordinator-Inv limits initial_ticket (system s (xs ++ key ∷ ys)) reach in
          let (b, found, out) = permit-found s xs ys key v in
          let held : not b.permitted ≡ false = ap not out in
          rw (ok, found, held, requeue) (requeue_at-not_lost _ key (extended b eligible) deadline r)
    ]
