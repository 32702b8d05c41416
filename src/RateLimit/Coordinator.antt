-- ===== src/RateLimit/Coordinator.antt =====
-- The state of `RateLimitCoordinator` in src/runtime/execution/rate_limit_coordinator.cpp and the
-- sections that end something. A permit is the key that its handle holds. Steady times are natural
-- numbers of milliseconds. Allocations succeed.
use duckdb_fdw.Base.{
  ℕ, ◌+◌, ◌-◌, ◌%◌, Bool, true, false, ◌&&◌, ◌||◌, not, Option, none, some, List, [], ◌∷◌, max,
  ◌==◌, ltb, if◌then◌else◌, length, u64_mod,
}
use duckdb_fdw.RateLimit.Table.{find, replace, remove}
use duckdb_fdw.RateLimit.Key.{QuotaBucketKey, bucket_key}

-- `RateLimitAcquireStatus`; as a terminal status, `acquired` says that the coordinator is open.
pub data Status : Type 0 where
  acquired queue_saturated scheduler_closed cancelled deadline_reached ticket_exhausted : Status

pub record Limits : Type 0 where
  pub waiters_per_key : ℕ
  pub total_waiters : ℕ
  pub interrupt_slice_milliseconds : ℕ

pub record Bucket : Type 0 where
  pub eligible : ℕ
  pub permitted : Bool
  pub tickets : List ℕ

pub record Coordinator : Type 0 where
  pub terminal_status : Status
  pub next_ticket : ℕ
  pub total_waiters : ℕ
  pub limits : Limits
  pub buckets : List (QuotaBucketKey × Bucket)

abbrev pub hard_limits : Limits
hard_limits = record {
  waiters_per_key = 64;
  total_waiters = 4096;
  interrupt_slice_milliseconds = 5;
}

-- The constructor; none is std::invalid_argument.
unfoldable pub create : Limits → ℕ → Option Coordinator
create limits initial_ticket =
    if initial_ticket == 0
      || ltb hard_limits.waiters_per_key limits.waiters_per_key
      || ltb hard_limits.total_waiters limits.total_waiters
      || limits.interrupt_slice_milliseconds == 0
      || ltb hard_limits.interrupt_slice_milliseconds limits.interrupt_slice_milliseconds
    then none
    else some (record {
      terminal_status = Status.acquired;
      next_ticket = initial_ticket;
      total_waiters = 0;
      limits = limits;
      buckets = [];
    })

unfoldable pub is_open : Status → Bool
is_open Status.acquired = true
is_open _ = false

abbrev pub is_empty : List ℕ → Bool
is_empty [] = true
is_empty (t ∷ ts) = false

-- `std::find` over the tickets, and `erase`.
unfoldable pub has_ticket : ℕ → List ℕ → Bool
has_ticket ticket [] = false
has_ticket ticket (t ∷ ts) = t == ticket || has_ticket ticket ts

unfoldable pub drop_ticket : ℕ → List ℕ → List ℕ
drop_ticket ticket [] = []
drop_ticket ticket (t ∷ ts) = if t == ticket then ts else t ∷ drop_ticket ticket ts

-- `total_waiters--`
abbrev pub one_less : ℕ → ℕ
one_less n = (n + u64_mod - 1) % u64_mod

-- The bucket after a change: erased where nobody holds or waits for it.
unfoldable pub put_back : QuotaBucketKey → Bucket → Coordinator → Coordinator
put_back key b s = record s {
  buckets =
      if not b.permitted && is_empty b.tickets
      then remove key s.buckets
      else replace key b s.buckets;
}

-- `EraseTicketLocked` at the bucket that was found.
unfoldable pub erase_ticket : Coordinator → QuotaBucketKey → Bucket → ℕ → Coordinator
erase_ticket s key b ticket =
    if has_ticket ticket b.tickets
    then put_back key (record b { tickets = drop_ticket ticket b.tickets })
        (record s { total_waiters = one_less s.total_waiters })
    else put_back key b s

-- The loop of `EnterTerminalLocked`: the buckets left, and the waiters left.
unfoldable pub clear_buckets : List (QuotaBucketKey × Bucket) → List (QuotaBucketKey × Bucket)
clear_buckets [] = []
clear_buckets ((key, b) ∷ es) =
    let rest = clear_buckets es in
    if b.permitted then (key, record b { tickets = [] }) ∷ rest else rest

unfoldable pub clear_waiters : List (QuotaBucketKey × Bucket) → ℕ → ℕ
clear_waiters [] waiters = waiters
clear_waiters ((key, b) ∷ es) waiters =
    clear_waiters es ((waiters + u64_mod - length b.tickets) % u64_mod)

unfoldable pub enter_terminal : Coordinator → Status → Coordinator
enter_terminal s status = if not (is_open s.terminal_status) then s else record s {
  terminal_status = status;
  total_waiters = clear_waiters s.buckets s.total_waiters;
  buckets = clear_buckets s.buckets;
}

-- `Permit::ExtendEligibleTime` of a permit that has its handle.
unfoldable pub extend_eligible_time : Coordinator → QuotaBucketKey → ℕ → Coordinator × Bool
extend_eligible_time s key eligible = elim (find key s.buckets) [
  | none ↦ (s, false)
  | some b ↦ if not (is_open s.terminal_status) || not b.permitted then (s, false) else (
    record s { buckets = replace key (record b { eligible = max b.eligible eligible }) s.buckets },
    true,
  )
]

-- `Permit::Complete` of a permit that has its handle.
unfoldable pub complete : Coordinator → QuotaBucketKey → Coordinator
complete s key = elim (find key s.buckets) [
  | none ↦ s
  | some b ↦
      if b.permitted
      then put_back key (record b { permitted = false })
          (record s { total_waiters = one_less s.total_waiters })
      else s
]
