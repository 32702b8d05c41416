-- ===== src/Admission/Controller/Grant.antt =====
-- What one pass of `GrantEligibleLocked` does to the loads.
use duckdb_fdw.Base.{
  ℕ, ◌+◌, ◌≤◌, ◌<◌, ◌≡◌, refl, subst, fun_ext, Bool, true, false, inl, inr, List, [], ◌∷◌, arith,
  u64_mod, weigh, weigh-nil, weigh-cons, All, Bool-cases,
}
use duckdb_fdw.Admission.Identity.{Hasher, Identity}
use duckdb_fdw.Admission.Usage.{
  Scope, Observation, DimensionLimits, Counters, check_fits, subtract_usage,
}
use duckdb_fdw.Admission.Usage.Load.{
  Load, everyone, Tracks, Tracks-eq, add_usage-Tracks, subtract_usage-Tracks,
}
use duckdb_fdw.Admission.Usage.Fits.{Within, HasRoom, check_fits-HasRoom, Within-Adds}
use duckdb_fdw.Admission.Profile.{ResourceKind, QueueKind, queue_index}
use duckdb_fdw.Admission.Controller.{
  Ticket, Pass, Decision, skip, block, grant, decide, counts_after, queues_after, place, grant_pass,
  same_resource, same_queue, set_queue, has_scope,
}
use duckdb_fdw.Admission.Controller.Tickets.{
  granted_weight, queued_weight, queue_load, queue_load-cons, queue_load_dominated,
}

pub same_queue_eq : (a b : QueueKind) → same_queue a b ≡ true → a ≡ b
unfolding queue_index
same_queue_eq QueueKind.credential_resolution QueueKind.credential_resolution e = refl
same_queue_eq QueueKind.scan QueueKind.scan e = refl
same_queue_eq QueueKind.request QueueKind.request e = refl
same_queue_eq _ _ e = ground arith

pub has_scope_none : (o : Observation) → has_scope o ≡ false → o.scope ≡ Scope.none
unfolding has_scope
has_scope_none o e = ground arith

module _ (h : Hasher) (resource : ResourceKind) (now : ℕ) (limits : DimensionLimits) where
  -- A decision to grant has read the resource and the room for one more.
  pub decide-grant :
      (t : Ticket) (counts : Counters) {l : Load}
      → Tracks h counts l
      → decide h resource now limits t counts ≡ grant
      → (same_resource t.resource resource ≡ true) × HasRoom limits l t.identity 1
  unfolding decide
  decide-grant t counts tracked e = (
    ground arith,
    check_fits-HasRoom h counts t.identity 1 limits tracked
        (has_scope_none (check_fits h counts t.identity 1 limits) (ground arith)),
  )

  abbrev pub granted_load : List Ticket → Load → Load
  granted_load granted l select = weigh (granted_weight resource select) granted + l select

  abbrev pub queues_load : (QueueKind → Load) → List Ticket → QueueKind → Load
  queues_load base tickets q select = base q select + queue_load tickets q select

  -- The loads after a pass over `tickets`, which held `l` of the resource and `base` of each queue
  -- beside the tickets.
  pub record IsPassed (l : Load) (base : QueueKind → Load) (p : Pass) : Type 0 where
    pub counts : Tracks h p.counts (granted_load p.granted l)
    pub within : Within limits (granted_load p.granted l)
    pub queues : (q : QueueKind) → Tracks h (p.queues q) (queues_load base p.tickets q)
    pub resource_granted : All (λ t. same_resource t.resource resource ≡ true) p.granted

  -- The queue tables after a grant: the ticket's queue has lost it, the others are as before.
  queues_after_grant :
      (t : Ticket) (ts : List Ticket) (queues : QueueKind → Counters) (base : QueueKind → Load)
      → ((q : QueueKind) (select : Identity → Bool) → base q select ≤ base q everyone)
      → ((q : QueueKind) → Tracks h (queues q) (queues_load base (t ∷ ts) q))
      → (q : QueueKind)
      → Tracks h
          (set_queue queues t.queue (subtract_usage h (queues t.queue) t.identity 1) q)
          (queues_load base ts q)
  queues_after_grant t ts queues base dominated tracked q =
      elim (Bool-cases (same_queue t.queue q)) [
        | inl same ↦
            rw (same, same_queue_eq t.queue q same)
              (subtract_usage-Tracks h (queues q) t.identity 1 (queues_load base ts q)
                (queues_load base (t ∷ ts) q)
                (λ select. ground (arith, queue_load-cons t ts q select, same))
                (λ select. omega (arith, dominated q select, queue_load_dominated ts q select))
                (tracked q))
        | inr other ↦ rw other (
            Tracks-eq h (queues q) (queues_load base (t ∷ ts) q) (queues_load base ts q)
              (λ select. ground (arith, queue_load-cons t ts q select, other)) (tracked q))
      ]

  -- A ticket that stays in the queue.
  IsPassed-kept :
      (t t' : Ticket) (l : Load) (base : QueueKind → Load) (p : Pass)
      → ((q : QueueKind) (select : Identity → Bool)
          → queued_weight q select t' ≡ queued_weight q select t)
      → IsPassed l (λ q select. base q select + queued_weight q select t) p
      → IsPassed l base (record p { tickets = t' ∷ p.tickets })
  IsPassed-kept t t' l base p same v = record {
    counts = v.counts;
    within = v.within;
    queues = λ q.
        Tracks-eq h (p.queues q) _ _
          (λ select. omega (arith, queue_load-cons t' p.tickets q select, same q select))
          (v.queues q);
    resource_granted = v.resource_granted;
  }

  -- A ticket that is granted.
  IsPassed-granted :
      (t : Ticket) (l : Load) (base : QueueKind → Load) (p : Pass)
      → same_resource t.resource resource ≡ true
      → IsPassed (λ select. granted_weight resource select t + l select) base p
      → IsPassed l base (record p { granted = record t { granted_at = now } ∷ p.granted })
  IsPassed-granted t l base p same v = record {
    counts = subst (Tracks h p.counts) moved v.counts;
    within = subst (Within limits) moved v.within;
    queues = v.queues;
    resource_granted = (same, v.resource_granted);
  }
    where
      t' : Ticket
      t' = record t { granted_at = now }

      moved :
          granted_load p.granted (λ select. granted_weight resource select t + l select)
          ≡ granted_load (t' ∷ p.granted) l
      moved =
          fun_ext λ select. omega (arith, weigh-cons (granted_weight resource select) t' p.granted)

  abbrev PassClaim : List Ticket → Type 0
  PassClaim ts =
      (counts : Counters) (queues : QueueKind → Counters) (l : Load) (base : QueueKind → Load)
      → Tracks h counts l
      → Within limits l
      → ((q : QueueKind) → Tracks h (queues q) (queues_load base ts q))
      → ((q : QueueKind) (select : Identity → Bool) → base q select ≤ base q everyone)
      → IsPassed l base (grant_pass h resource now limits ts counts queues)

  shift_queue :
      (t : Ticket) (ts : List Ticket) (queues : QueueKind → Counters) (base : QueueKind → Load)
      → ((q : QueueKind) → Tracks h (queues q) (queues_load base (t ∷ ts) q))
      → (q : QueueKind)
      → Tracks h
          (queues q)
          (queues_load (λ q' select. base q' select + queued_weight q' select t) ts q)
  shift_queue t ts queues base queued q =
      Tracks-eq h (queues q) _ _ (λ select. omega (arith, queue_load-cons t ts q select)) (queued q)

  shift_dominated :
      (t : Ticket) (base : QueueKind → Load)
      → ((q : QueueKind) (select : Identity → Bool) → base q select ≤ base q everyone)
      → (q : QueueKind) (select : Identity → Bool)
      → base q select + queued_weight q select t ≤ base q everyone + queued_weight q everyone t
  shift_dominated t base dominated q select = ground (arith, dominated q select)

  -- One decision, and then the rest of the pass.
  IsPassed-decide :
      (d : Decision) (t : Ticket) (ts : List Ticket) (counts : Counters)
      (queues : QueueKind → Counters) (l : Load) (base : QueueKind → Load)
      → decide h resource now limits t counts ≡ d
      → limits.global < u64_mod
      → PassClaim ts
      → Tracks h counts l
      → Within limits l
      → ((q : QueueKind) → Tracks h (queues q) (queues_load base (t ∷ ts) q))
      → ((q : QueueKind) (select : Identity → Bool) → base q select ≤ base q everyone)
      → IsPassed l base (
          place h resource now limits d t (
            grant_pass h resource now limits ts
              (counts_after h resource now limits d t counts)
              (queues_after h resource now limits d t queues)))
  IsPassed-decide skip t ts counts queues l base e small rest tracked within queued dominated =
      IsPassed-kept t t l base _ (λ q select. refl)
        (rest counts queues l _ tracked within (shift_queue t ts queues base queued)
          (shift_dominated t base dominated))
  IsPassed-decide (block o) t ts counts queues l base e small rest tracked within queued dominated =
      IsPassed-kept t (record t { last_blocking = o }) l base _ (λ q select. refl)
        (rest counts queues l _ tracked within (shift_queue t ts queues base queued)
          (shift_dominated t base dominated))
  IsPassed-decide grant t ts counts queues l base e small rest tracked within queued dominated =
      let (same, room) = decide-grant t counts tracked e in
      let m : Load = λ select. granted_weight resource select t + l select in
      let w : Within limits m =
        Within-Adds limits t.identity 1 l m (λ select. ground (arith, same)) room within in
      IsPassed-granted t l base _ same (
        rest _ _ m base
          (add_usage-Tracks h counts t.identity 1 l m (λ select. ground (arith, same))
            (omega (arith, w.global, small)) tracked)
          w (queues_after_grant t ts queues base dominated queued) dominated)

  placed_le :
      (d : Decision) (t : Ticket) (ts : List Ticket) (p : Pass) (q : QueueKind)
      (select : Identity → Bool)
      → queue_load p.tickets q select ≤ queue_load ts q select
      → queue_load (place h resource now limits d t p).tickets q select
        ≤ queue_load (t ∷ ts) q select
  placed_le skip t ts p q select le =
      omega (arith, queue_load-cons t p.tickets q select, queue_load-cons t ts q select)
  placed_le (block o) t ts p q select le = omega (
    arith,
    queue_load-cons (record t { last_blocking = o }) p.tickets q select,
    queue_load-cons t ts q select,
  )
  placed_le grant t ts p q select le = omega (arith, queue_load-cons t ts q select)

  -- A pass never makes a queue longer.
  pub queue_load-grant_pass-le :
      (ts : List Ticket) (counts : Counters) (queues : QueueKind → Counters) (q : QueueKind)
      (select : Identity → Bool)
      → queue_load (grant_pass h resource now limits ts counts queues).tickets q select
        ≤ queue_load ts q select
  unfolding grant_pass
  queue_load-grant_pass-le [] counts queues q select = omega arith
  queue_load-grant_pass-le (t ∷ ts) counts queues q select =
      placed_le (decide h resource now limits t counts) t ts _ q select
        (queue_load-grant_pass-le ts _ _ q select)

  -- A pass moves capacity from the queues to the resource and never past the limits.
  pub grant_pass-IsPassed : limits.global < u64_mod → (ts : List Ticket) → PassClaim ts
  unfolding grant_pass
  grant_pass-IsPassed small [] counts queues l base tracked within queued dominated = record {
    counts =
        Tracks-eq h counts l _ (λ select. omega (arith, weigh-nil (granted_weight resource select)))
          tracked;
    within =
        subst (Within limits)
          (fun_ext λ select. omega (arith, weigh-nil (granted_weight resource select))) within;
    queues = queued;
    resource_granted = tt;
  }
  grant_pass-IsPassed small (t ∷ ts) counts queues l base tracked within queued dominated =
      IsPassed-decide (decide h resource now limits t counts) t ts counts queues l base refl small
        (grant_pass-IsPassed small ts) tracked within queued dominated
