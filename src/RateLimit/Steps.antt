-- ===== src/RateLimit/Steps.antt =====
-- Everything that the callers of a coordinator do, one critical section at a time, in any order. A
-- turn and a fault may be of any ticket: more than the calls that wait can do.
use duckdb_fdw.Base.{
  ℕ, ◌≤◌, ◌<◌, ◌≡◌, refl, sym, subst, Bool, some, List, [], ◌∷◌, ◌++◌, arith, if◌then◌else◌,
  weigh-nil, u64_mod,
}
use duckdb_fdw.RateLimit.Table.{find}
use duckdb_fdw.RateLimit.Key.{QuotaBucketKey, same_key, bucket_key}
use duckdb_fdw.RateLimit.Coordinator.{
  Status, Limits, Bucket, Coordinator, is_open, create, extend_eligible_time, complete,
}
use duckdb_fdw.RateLimit.Sections.{
  load, Outcome, Turn, acquire, requeue, wait_turn, wait_fault, close,
}
use duckdb_fdw.RateLimit.Invariant.{Inv}
use duckdb_fdw.RateLimit.Waiting.{deliver, wait_turn-Inv, wait_fault-Inv}
use duckdb_fdw.RateLimit.Ending.{complete-Inv, extend_eligible_time-Inv, enter_terminal-Inv}
use duckdb_fdw.RateLimit.Queueing.{acquire-Inv}
use duckdb_fdw.RateLimit.Requeueing.{resettle, requeue-Inv}

-- The coordinator, and the keys of the permits that callers hold.
pub record System : Type 0 where
  pub shared : Coordinator
  pub permits : List QuotaBucketKey

abbrev pub system : Coordinator → List QuotaBucketKey → System
system s permits = record { shared = s; permits = permits }

abbrev pub handed : List QuotaBucketKey → Coordinator × Outcome → System
handed permits r = system r.0 (deliver r.1 permits)

abbrev pub settled :
    List QuotaBucketKey → QuotaBucketKey → List QuotaBucketKey → Coordinator × Outcome → System
settled xs key ys r = system r.0 (resettle xs key ys r.1)

pub data Step : System → System → Type 0 where
  acquires :
      (s : Coordinator) (permits : List QuotaBucketKey) (key : QuotaBucketKey)
      (eligible deadline : ℕ) (cancels : Bool) (r : Turn)
      → Step (system s permits) (handed permits (acquire s key eligible deadline cancels r))
  turns :
      (s : Coordinator) (permits : List QuotaBucketKey) (key : QuotaBucketKey) (ticket deadline : ℕ)
      (r : Turn)
      → Step (system s permits) (handed permits (wait_turn s key ticket deadline r))
  faults :
      (s : Coordinator) (permits : List QuotaBucketKey) (key : QuotaBucketKey) (ticket : ℕ)
      → Step (system s permits) (system (wait_fault s key ticket) permits)
  requeues :
      (s : Coordinator) (xs ys : List QuotaBucketKey) (key : QuotaBucketKey) (eligible deadline : ℕ)
      (cancels : Bool) (r : Turn)
      → Step
          (system s (xs ++ key ∷ ys))
          (settled xs key ys (requeue s key eligible deadline cancels r))
  completes :
      (s : Coordinator) (xs ys : List QuotaBucketKey) (key : QuotaBucketKey)
      → Step (system s (xs ++ key ∷ ys)) (system (complete s key) (xs ++ ys))
  extends :
      (s : Coordinator) (xs ys : List QuotaBucketKey) (key : QuotaBucketKey) (eligible : ℕ)
      → Step
          (system s (xs ++ key ∷ ys))
          (system (extend_eligible_time s key eligible).0 (xs ++ key ∷ ys))
  closes :
      (s : Coordinator) (permits : List QuotaBucketKey)
      → Step (system s permits) (system (close s) permits)

-- What steps lead to, from a new coordinator on.
pub data Reach (limits : Limits) (initial_ticket : ℕ) : System → Type 0 where
  starts :
      (s : Coordinator)
      → create limits initial_ticket ≡ some s
      → initial_ticket < u64_mod
      → Reach limits initial_ticket (system s [])
  steps : (a b : System) → Reach limits initial_ticket a → Step a b → Reach limits initial_ticket b

abbrev fresh : Limits → ℕ → Coordinator
fresh limits initial_ticket = record {
  terminal_status = Status.acquired;
  next_ticket = initial_ticket;
  total_waiters = 0;
  limits = limits;
  buckets = [];
}

fresh-Inv :
    (limits : Limits) (initial_ticket : ℕ)
    → limits.total_waiters ≤ 4096
    → initial_ticket < u64_mod
    → Inv (fresh limits initial_ticket) []
unfolding find
fresh-Inv limits initial_ticket h small = record {
  distinct = tt;
  good = tt;
  counted = sym (weigh-nil (λ (e : QuotaBucketKey × Bucket). load e.1));
  within = ground arith;
  small = h;
  tickets = small;
  held = λ j. weigh-nil (λ (i : QuotaBucketKey). if same_key i j then 1 else 0);
}

-- What the constructor gives and what it asks.
pub create-made :
    (limits : Limits) (initial_ticket : ℕ) (s : Coordinator)
    → create limits initial_ticket ≡ some s
    → (fresh limits initial_ticket ≡ s)
      × (limits.total_waiters ≤ 4096)
      × (limits.waiters_per_key ≤ 64)
      × (limits.interrupt_slice_milliseconds ≤ 5)
      × (0 < limits.interrupt_slice_milliseconds)
unfolding create
create-made limits initial_ticket s made = ground (arith, made)

create-Inv :
    (limits : Limits) (initial_ticket : ℕ) (s : Coordinator)
    → create limits initial_ticket ≡ some s
    → initial_ticket < u64_mod
    → Inv s []
create-Inv limits initial_ticket s made small =
    let m = create-made limits initial_ticket s made in
    subst (λ c. Inv c []) m.0 (fresh-Inv limits initial_ticket m.1 small)

Step-Inv : (a b : System) → Step a b → Inv a.shared a.permits → Inv b.shared b.permits
unfolding close is_open
Step-Inv _ _ (acquires s permits key eligible deadline cancels r) v =
    acquire-Inv s permits key eligible deadline cancels r v
Step-Inv _ _ (turns s permits key ticket deadline r) v =
    wait_turn-Inv s permits key ticket deadline r v
Step-Inv _ _ (faults s permits key ticket) v = wait_fault-Inv s permits key ticket v
Step-Inv _ _ (requeues s xs ys key eligible deadline cancels r) v =
    requeue-Inv s xs ys key eligible deadline cancels r v
Step-Inv _ _ (completes s xs ys key) v = complete-Inv s xs ys key v
Step-Inv _ _ (extends s xs ys key eligible) v =
    extend_eligible_time-Inv s (xs ++ key ∷ ys) key eligible v
Step-Inv _ _ (closes s permits) v = enter_terminal-Inv s permits Status.scheduler_closed refl v

-- From a new coordinator on, whatever the callers do and in whatever order: the table has one bucket
-- for a key, every bucket is held or waited for, its tickets stand in the order of their issue and
-- its load is within the limit of a key; the count of waiters is that of the tickets and permits and
-- within its limit; and the permits that callers hold for a key are what its bucket shows.
pub coordinator-Inv :
    (limits : Limits) (initial_ticket : ℕ) (a : System)
    → Reach limits initial_ticket a
    → Inv a.shared a.permits
coordinator-Inv limits initial_ticket _ (starts s made small) =
    create-Inv limits initial_ticket s made small
coordinator-Inv limits initial_ticket _ (steps a b before step) =
    Step-Inv a b step (coordinator-Inv limits initial_ticket a before)
