-- ===== src/Admission/Acquire/Invariant/Queues.antt =====
-- The state changes that touch the queues: granting, leaving and joining.
use duckdb_fdw.Base.{
  ℕ, ◌+◌, ◌≤◌, ◌≡◌, subst, fun_ext, Bool, true, false, inl, inr, List, [], ◌∷◌, ◌++◌, arith, weigh,
  Bool-cases, Option-cases,
}
use duckdb_fdw.Admission.Identity.{Hasher, Identity}
use duckdb_fdw.Admission.Usage.{Observation, add_usage}
use duckdb_fdw.Admission.Usage.Load.{Tracks, Tracks-eq, add_usage-Tracks, subtract_usage-Tracks}
use duckdb_fdw.Admission.Usage.Fits.{Within, HasRoom, Within-Adds, Within-mono}
use duckdb_fdw.Admission.Profile.{
  ResourceKind, QueueKind, resource_limits, queue_limits, validate_profile-IsSmall,
}
use duckdb_fdw.Admission.Controller.{
  PermitHandle, SharedState, Pass, same_resource, same_queue, is_open, install, grant_pass,
  grant_eligible, TicketId, find_ticket, erase_ticket, remove_ticket,
}
use duckdb_fdw.Admission.Controller.Tickets.{
  queued_weight, granted_weight, resource_load, queue_load, queue_load_dominated,
  resource_load_granted, queue_load-erase_ticket, queue_load_tail, weigh_other_resource,
}
use duckdb_fdw.Admission.Controller.Grant.{
  same_queue_eq, IsPassed, grant_pass-IsPassed, queue_load-grant_pass-le,
}
use duckdb_fdw.Admission.Acquire.{Request, enqueue, new_ticket}
use duckdb_fdw.Admission.Acquire.Invariant.Defs.{Inv}
use duckdb_fdw.Admission.Acquire.Invariant.Parts.{same_resource_eq, system}

same_queue_refl : (q : QueueKind) → same_queue q q ≡ true
same_queue_refl q = ground arith

module _ (h : Hasher) (s : SharedState) (permits : List PermitHandle) where
  module _ (resource : ResourceKind) (now : ℕ) (p : Pass) where
    -- The loads of a finished pass are those of the state that it is installed in.
    install-Inv :
        IsPassed h resource now
          (resource_limits s.profile resource)
          (resource_load permits s.granted resource)
          (λ q select. 0)
          p
        → ((q : QueueKind) (select : Identity → Bool)
            → queue_load p.tickets q select ≤ queue_load s.tickets q select)
        → Inv h (system h s permits)
        → Inv h (system h (install s resource p) permits)
    install-Inv passed shorter v = record {
      valid = v.valid;
      resources = λ r. elim (Bool-cases (same_resource resource r)) [
        | inl same ↦ rw same (
            subst (λ r'. Tracks h p.counts (resource_load permits (p.granted ++ s.granted) r'))
              (same_resource_eq resource r same)
              (Tracks-eq h p.counts _ _ (λ select. sym_load resource select) passed.counts))
        | inr other ↦
            rw other (
              Tracks-eq h (s.resources r) _ _ (λ select. other_load r other select) (v.resources r))
      ];
      within = λ r. elim (Bool-cases (same_resource resource r)) [
        | inl same ↦
            subst
              (λ r'.
                Within (resource_limits s.profile r')
                  (resource_load permits (p.granted ++ s.granted) r'))
              (same_resource_eq resource r same)
              (subst (Within (resource_limits s.profile resource))
                (fun_ext λ select. sym_load resource select) passed.within)
        | inr other ↦
            subst (Within (resource_limits s.profile r))
              (fun_ext λ select. other_load r other select) (v.within r)
      ];
      queues = λ q. Tracks-eq h (p.queues q) _ _ (λ select. omega arith) (passed.queues q);
      queues_within = λ q. Within-mono _ _ (queue_load s.tickets q) (shorter q) (v.queues_within q);
    }
      where
        sym_load :
            (r : ResourceKind) (select : Identity → Bool)
            → weigh (granted_weight r select) p.granted + resource_load permits s.granted r select
              ≡ resource_load permits (p.granted ++ s.granted) r select
        sym_load r select =
            omega (arith, resource_load_granted r select permits p.granted s.granted)

        other_load :
            (r : ResourceKind)
            → same_resource resource r ≡ false
            → (select : Identity → Bool)
            → resource_load permits s.granted r select
              ≡ resource_load permits (p.granted ++ s.granted) r select
        other_load r other select = omega (
          arith,
          resource_load_granted r select permits p.granted s.granted,
          weigh_other_resource resource r select p.granted other passed.resource_granted,
        )

  -- `GrantEligibleLocked` keeps the invariant.
  pub grant_eligible-Inv :
      (resource : ResourceKind) (now : ℕ)
      → Inv h (system h s permits)
      → Inv h (system h (grant_eligible h s resource now) permits)
  unfolding grant_eligible
  grant_eligible-Inv resource now v = elim (Bool-cases (is_open s.terminal_reason)) [
    | inl opened ↦ rw opened (install-Inv resource now _ passed shorter v)
    | inr closed ↦ rw closed v
  ]
    where
      passed :
          IsPassed h resource now
            (resource_limits s.profile resource)
            (resource_load permits s.granted resource)
            (λ q select. 0)
            (grant_pass h resource now
              (resource_limits s.profile resource)
              s.tickets
              (s.resources resource)
              s.queues)
      passed =
          grant_pass-IsPassed h resource now (resource_limits s.profile resource)
            ((validate_profile-IsSmall _ v.valid).resource resource) s.tickets
            (s.resources resource) s.queues (resource_load permits s.granted resource)
            (λ q select. 0) (v.resources resource) (v.within resource)
            (λ q.
              Tracks-eq h (s.queues q) (queue_load s.tickets q) _ (λ select. omega arith)
                (v.queues q))
            (λ q select. omega arith)

      shorter :
          (q : QueueKind) (select : Identity → Bool)
          → queue_load
              (grant_pass h resource now
                (resource_limits s.profile resource)
                s.tickets
                (s.resources resource)
                s.queues).tickets
              q
              select
            ≤ queue_load s.tickets q select
      shorter q select =
          queue_load-grant_pass-le h resource now (resource_limits s.profile resource) s.tickets
            (s.resources resource) s.queues q select

  -- `RemoveTicketLocked` keeps the invariant.
  pub remove_ticket-Inv :
      (id : TicketId) → Inv h (system h s permits) → Inv h (system h (remove_ticket h s id) permits)
  unfolding remove_ticket
  remove_ticket-Inv id v = elim (Option-cases (find_ticket id s.tickets)) [
    | inl e ↦ rw (e, remove_ticket) v
    | inr (t, e) ↦
        rw (e, remove_ticket)
          (record {
            valid = v.valid;
            resources = v.resources;
            within = v.within;
            queues = λ q. elim (Bool-cases (same_queue t.queue q)) [
              | inl same ↦
                  rw (same, same_queue_eq t.queue q same)
                    (subtract_usage-Tracks h (s.queues q) t.identity 1 _ (queue_load s.tickets q)
                      (λ select.
                        ground (arith, queue_load-erase_ticket q select s.tickets id t e, same))
                      (queue_load_dominated (erase_ticket id s.tickets) q) (v.queues q))
              | inr other ↦ rw other (
                  Tracks-eq h (s.queues q) (queue_load s.tickets q) _
                    (λ select.
                      ground (arith, queue_load-erase_ticket q select s.tickets id t e, other))
                    (v.queues q))
            ];
            queues_within = λ q.
                Within-mono _ _ (queue_load s.tickets q)
                  (λ select. omega (arith, queue_load-erase_ticket q select s.tickets id t e))
                  (v.queues_within q);
          })
  ]

  -- A ticket joins the tail of a queue that has room for it.
  pub enqueue-Inv :
      (r : Request) (queue : QueueKind) (blocking : Observation) (started : ℕ)
      → HasRoom (queue_limits s.profile queue) (queue_load s.tickets queue) r.identity 1
      → Inv h (system h s permits)
      → Inv h (system h (enqueue h s r queue blocking started) permits)
  unfolding enqueue
  enqueue-Inv r queue blocking started room v = record {
    valid = v.valid;
    resources = v.resources;
    within = v.within;
    queues = λ q. elim (Bool-cases (same_queue queue q)) [
      | inl same ↦ rw same (rw (← same_queue_eq queue q same) joined_own)
      | inr other ↦ rw other (
          Tracks-eq h (s.queues q) (queue_load s.tickets q) _
            (λ select. ground (arith, joined q select, other)) (v.queues q))
    ];
    queues_within = within;
  }
    where
      joined :
          (q : QueueKind) (select : Identity → Bool)
          → queue_load (s.tickets ++ new_ticket s r queue blocking started ∷ []) q select
            ≡ queued_weight q select (new_ticket s r queue blocking started)
              + queue_load s.tickets q select
      joined q select = queue_load_tail q select s.tickets (new_ticket s r queue blocking started)

      within :
          (q : QueueKind)
          → Within
              (queue_limits s.profile q)
              (queue_load (s.tickets ++ new_ticket s r queue blocking started ∷ []) q)
      within q = elim (Bool-cases (same_queue queue q)) [
        | inl same ↦
            Within-Adds _ r.identity 1 (queue_load s.tickets q) _
              (λ select. ground (arith, joined q select, same))
              (rw (← same_queue_eq queue q same) room) (v.queues_within q)
        | inr other ↦
            Within-mono _ _ (queue_load s.tickets q)
              (λ select. ground (arith, joined q select, other)) (v.queues_within q)
      ]

      joined_own :
          Tracks h
            (add_usage h (s.queues queue) r.identity 1)
            (queue_load (s.tickets ++ new_ticket s r queue blocking started ∷ []) queue)
      joined_own =
          add_usage-Tracks h (s.queues queue) r.identity 1 (queue_load s.tickets queue) _
            (λ select. ground (arith, joined queue select, same_queue_refl queue))
            (omega (arith, (within queue).global, (validate_profile-IsSmall _ v.valid).queue queue))
            (v.queues queue)
