-- ===== src/RateLimit/Requeueing.antt =====
-- `Requeue` keeps the invariant: the permit that it takes back becomes a ticket of the same key.
use duckdb_fdw.Base.{
  ℕ, ◌-◌, ◌≡◌, refl, ap, inl, inr, Bool, true, false, ◌||◌, not, some, List, [], ◌∷◌, ◌++◌, arith,
  if◌then◌else◌, u64_mod, Bool-cases, Option-cases, ltb, leb, ◌==◌,
}
use duckdb_fdw.RateLimit.Table.{find, replace}
use duckdb_fdw.RateLimit.Key.{QuotaBucketKey, bucket_key}
use duckdb_fdw.RateLimit.Coordinator.{Status, Bucket, Coordinator, is_open}
use duckdb_fdw.RateLimit.Sections.{
  Outcome, gives_up, lost_authority, Turn, gets_permit, with_ticket, extended, requeue_at, requeue,
  wait_at, wait_turn,
}
use duckdb_fdw.RateLimit.Invariant.{Inv, IsGood-at}
use duckdb_fdw.RateLimit.Waiting.{deliver, wait_turn-Inv}
use duckdb_fdw.RateLimit.Ending.{permit-found, returned-held, extend-Inv, enter_terminal-Inv}
use duckdb_fdw.RateLimit.Queueing.{queued-Inv, extended-found, length-snoc}

-- `Requeue` returned with the handle still in the caller's permit.
abbrev pub keeps_handle : Outcome → Bool
keeps_handle (gives_up status) = true
keeps_handle lost_authority = true
keeps_handle _ = false

-- The permits of the callers after one of them, the one between `xs` and `ys`, was queued again.
abbrev pub resettle :
    List QuotaBucketKey → QuotaBucketKey → List QuotaBucketKey → Outcome → List QuotaBucketKey
resettle xs key ys o = if keeps_handle o then xs ++ key ∷ ys else deliver o (xs ++ ys)

pub wait_turn-takes_handle :
    (s : Coordinator) (key : QuotaBucketKey) (ticket deadline : ℕ) (r : Turn)
    → keeps_handle (wait_turn s key ticket deadline r).1 ≡ false
unfolding wait_turn wait_at
wait_turn-takes_handle s key ticket deadline r = elim (Bool-cases (is_open s.terminal_status)) [
  | inr closed ↦ rw (closed, wait_turn) refl
  | inl opened ↦ elim (Option-cases (find key s.buckets)) [
    | inl absent ↦ rw (opened, absent, wait_turn) refl
    | inr (b, found) ↦ elim (Bool-cases r.cancelled) [
      | inl c ↦ rw (opened, found, c, wait_turn) refl
      | inr nc ↦ elim (Bool-cases (gets_permit b ticket deadline r.now)) [
        | inl g ↦ rw (opened, found, nc, g, wait_turn) refl
        | inr ng ↦ elim (Bool-cases (leb deadline r.now || ltb deadline b.eligible)) [
          | inl e ↦ rw (opened, found, nc, ng, e, wait_turn) refl
          | inr ne ↦ rw (opened, found, nc, ng, ne, wait_turn) refl
        ]
      ]
    ]
  ]
]

abbrev Resettled :
    List QuotaBucketKey → QuotaBucketKey → List QuotaBucketKey → Coordinator × Outcome → Type 0
Resettled xs key ys r = Inv r.0 (resettle xs key ys r.1)

module _ (s : Coordinator) (xs ys : List QuotaBucketKey) (key : QuotaBucketKey) (deadline : ℕ)
    (r : Turn) (v : Inv s (xs ++ key ∷ ys)) (opened : is_open s.terminal_status ≡ true) where
  requeue_at-Inv :
      (b : Bucket)
      → find key s.buckets ≡ some b
      → b.permitted ≡ true
      → Resettled xs key ys (requeue_at s key b deadline r)
  unfolding requeue_at is_open
  requeue_at-Inv b found out = elim (Bool-cases (s.next_ticket == u64_mod - 1)) [
    | inl last ↦
        rw (last, requeue_at) (enter_terminal-Inv s (xs ++ key ∷ ys) Status.ticket_exhausted refl v)
    | inr more ↦
        let l = length-snoc s.next_ticket b.tickets in
        let w = (IsGood-at s (xs ++ key ∷ ys) key b v found).queue.within in
        let q =
          queued-Inv s (xs ++ key ∷ ys) key b v found opened more (xs ++ ys) false s.total_waiters
            (ground (arith, l, w)) (ground (arith, l)) v.within
            (returned-held s xs ys key b v found out) in
        rw (more, requeue_at)
          (rw
            (wait_turn-takes_handle
              (with_ticket s
                (replace key
                  (record b { permitted = false; tickets = b.tickets ++ s.next_ticket ∷ [] })
                  s.buckets)
                s.total_waiters)
              key s.next_ticket deadline r)
            (wait_turn-Inv _ (xs ++ ys) key s.next_ticket deadline r q))
  ]

-- A caller with a permit never meets the std::logic_error.
pub requeue-Inv :
    (s : Coordinator) (xs ys : List QuotaBucketKey) (key : QuotaBucketKey) (eligible deadline : ℕ)
    (cancels : Bool) (r : Turn)
    → Inv s (xs ++ key ∷ ys)
    → Resettled xs key ys (requeue s key eligible deadline cancels r)
unfolding requeue
requeue-Inv s xs ys key eligible deadline cancels r v =
    elim (Bool-cases (not (is_open s.terminal_status) || cancels)) [
      | inl refused ↦ rw (refused, requeue) v
      | inr ok ↦
          let (b, found, out) = permit-found s xs ys key v in
          let held : not b.permitted ≡ false = ap not out in
          rw (ok, found, held, requeue)
            (requeue_at-Inv _ xs ys key deadline r
              (extend-Inv s (xs ++ key ∷ ys) key b eligible v found) (ground (arith, ok))
              (extended b eligible) (extended-found s key b eligible found) out)
    ]
