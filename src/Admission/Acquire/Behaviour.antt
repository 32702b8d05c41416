-- ===== src/Admission/Acquire/Behaviour.antt =====
-- What callers may rely on: who is granted, who keeps waiting and for how long, and what a closed
-- controller does.
use duckdb_fdw.Base.{
  ℕ, ◌+◌, ◌-◌, ◌≤◌, ◌<◌, ◌≡◌, ◌↔◌, subst, fun_ext, Bool, true, false, List, ◌++◌, arith, ◌==◌, All,
  int64_max,
}
use duckdb_fdw.Admission.Identity.{Hasher, Identity}
use duckdb_fdw.Admission.Usage.{Reason, Scope, Observation, check_fits}
use duckdb_fdw.Admission.Usage.Load.{Load}
use duckdb_fdw.Admission.Usage.Fits.{HasRoom, check_fits_iff}
use duckdb_fdw.Admission.Profile.{ResourceKind, resource_limits, validate_profile-IsSmall}
use duckdb_fdw.Admission.Controller.{
  Ticket, PermitHandle, SharedState, Pass, grant_pass, is_open, has_scope, wait_slice,
  accounted_wait, grant_eligible,
}
use duckdb_fdw.Admission.Controller.Tickets.{resource_load, resource_load_granted}
use duckdb_fdw.Admission.Controller.Grant.{granted_load}
use duckdb_fdw.Admission.Controller.Eligible.{IsBlocked, grant_pass-NoneLeft}
use duckdb_fdw.Admission.Acquire.{
  Outcome, permitted, waiting, Request, Entry, acquire_queued, acquire_admitted, acquire_immediate,
}
use duckdb_fdw.Admission.Acquire.Invariant.{Inv}

module _ (h : Hasher) (s : SharedState) (permits : List PermitHandle) (resource : ResourceKind)
    (now : ℕ) where
  abbrev pub passed : Pass
  passed =
      grant_pass h resource now (resource_limits s.profile resource) s.tickets
        (s.resources resource) s.queues

  abbrev pub held : Load
  held = resource_load permits s.granted resource

  passed_load :
      granted_load h resource now (resource_limits s.profile resource) passed.granted held
      ≡ resource_load permits (passed.granted ++ s.granted) resource
  passed_load = fun_ext λ select.
      omega (arith, resource_load_granted resource select permits passed.granted s.granted)

  abbrev pub AllBlocked : SharedState → Type 0
  AllBlocked s' =
      All
        (IsBlocked h resource now (resource_limits s.profile resource)
          (resource_load permits s'.granted resource))
        s'.tickets

  -- After `GrantEligibleLocked` of an open controller that keeps the invariant, each ticket of the
  -- resource that still waits has expired, or finds no room in some dimension beside what is held.
  pub grant_eligible_maximal :
      Inv h (record { shared = s; permits = permits })
      → is_open s.terminal_reason ≡ true
      → AllBlocked (grant_eligible h s resource now)
  unfolding grant_eligible
  grant_eligible_maximal v opened = rw opened (
      subst
        (λ l. All (IsBlocked h resource now (resource_limits s.profile resource) l) passed.tickets)
        passed_load
        (grant_pass-NoneLeft h resource now (resource_limits s.profile resource)
          ((validate_profile-IsSmall _ v.valid).resource resource) s.tickets (s.resources resource)
          s.queues held (v.resources resource) (v.within resource)).all)

-- Before a deadline, with a positive slice, both at most the greatest int64_t, a sleep is positive,
-- never longer than the slice, and ends no later than the deadline.
pub wait_slice_bounds :
    (now target maximum_slice : ℕ)
    → target ≤ int64_max
    → maximum_slice ≤ int64_max
    → now < target
    → 0 < maximum_slice
    → (0 < wait_slice now target maximum_slice)
      × (wait_slice now target maximum_slice ≤ maximum_slice)
      × (now + wait_slice now target maximum_slice ≤ target)
unfolding wait_slice
wait_slice_bounds now target maximum_slice ht hm later pos = ground arith

-- Under an aggregate deadline, the wait that is charged is at most the time that passed, and at
-- most what the deadline left when the wait began.
pub accounted_wait_bounds :
    (t : Ticket) (ended : ℕ)
    → t.wait.has_aggregate_deadline ≡ true
    → (accounted_wait t ended ≤ ended - t.started)
      × (accounted_wait t ended ≤ t.wait.aggregate_deadline_milliseconds - t.started)
unfolding accounted_wait
accounted_wait_bounds t ended bounded = ground arith

abbrev pub is_permitted : Outcome → Bool
is_permitted (permitted p o) = true
is_permitted _ = false

abbrev pub is_waiting : Outcome → Bool
is_waiting (waiting id slice) = true
is_waiting _ = false

module _ (h : Hasher) (s : SharedState) (permits : List PermitHandle) (resource : ResourceKind)
    (i : Identity) (amount : ℕ) (reason : Reason)
    (v : Inv h (record { shared = s; permits = permits }))
    (opened : is_open s.terminal_reason ≡ true) (complete : i.complete ≡ true)
    (positive : (amount == 0) ≡ false) where
  scope_lem : (o : Observation) → (has_scope o ≡ false) ↔ (o.scope ≡ Scope.none)
  unfolding has_scope
  scope_lem o = ground arith

  permitted_iff_scope :
      (is_permitted (acquire_immediate h s resource i amount reason false).1 ≡ true) ↔ (
        has_scope
          (check_fits h (s.resources resource) i amount (resource_limits s.profile resource))
        ≡ false)
  unfolding acquire_immediate
  permitted_iff_scope = ground arith

  -- `AcquireImmediate` of an open controller that keeps the invariant gives a permit for a positive
  -- amount and a complete identity exactly where what is held of the resource leaves room for it in
  -- every dimension.
  pub acquire_immediate_iff :
      (is_permitted (acquire_immediate h s resource i amount reason false).1 ≡ true)
      ↔ HasRoom
          (resource_limits s.profile resource)
          (resource_load permits s.granted resource)
          i
          amount
  acquire_immediate_iff = ground (
    arith,
    permitted_iff_scope,
    scope_lem (check_fits h (s.resources resource) i amount (resource_limits s.profile resource)),
    check_fits_iff h (s.resources resource) i amount (resource_limits s.profile resource)
        (v.resources resource),
  )

-- A closed controller gives no permit to a caller that arrives, and is left as it was.
pub closed_admits_none :
    (h : Hasher) (s : SharedState) (q : Request) (e : Entry) (resource : ResourceKind)
    (i : Identity) (amount : ℕ) (reason : Reason) (held : Bool)
    → is_open s.terminal_reason ≡ false
    → ((acquire_queued h s q e).0 ≡ s)
      × (is_permitted (acquire_queued h s q e).1 ≡ false)
      × (is_waiting (acquire_queued h s q e).1 ≡ false)
      × ((acquire_immediate h s resource i amount reason held).0 ≡ s)
      × (is_permitted (acquire_immediate h s resource i amount reason held).1 ≡ false)
unfolding acquire_queued acquire_admitted acquire_immediate
closed_admits_none h s q e resource i amount reason held closed = ground arith
