-- ===== src/Admission/Acquire/Invariant/Parts.antt =====
-- The state changes that the critical sections are made of, each with the invariant.
use duckdb_fdw.Base.{
  ℕ, ◌+◌, ◌≡◌, refl, subst, fun_ext, Bool, true, ◌&&◌, inl, inr, List, arith, if◌then◌else◌,
  Bool-cases,
}
use duckdb_fdw.Admission.Identity.{Hasher, Identity}
use duckdb_fdw.Admission.Usage.{add_usage, subtract_usage}
use duckdb_fdw.Admission.Usage.Load.{
  Load, Tracks, Tracks-eq, add_usage-Tracks, subtract_usage-Tracks,
}
use duckdb_fdw.Admission.Usage.Fits.{Within, HasRoom, Within-Adds, Within-mono}
use duckdb_fdw.Admission.Profile.{
  ResourceKind, resource_index, resource_limits, validate_profile-IsSmall,
}
use duckdb_fdw.Admission.Controller.{Ticket, PermitHandle, SharedState, same_resource, set_resource}
use duckdb_fdw.Admission.Controller.Tickets.{resource_load, resource_load_dominated}
use duckdb_fdw.Admission.Acquire.Invariant.Defs.{System, Inv}

pub same_resource_eq : (a b : ResourceKind) → same_resource a b ≡ true → a ≡ b
unfolding resource_index
same_resource_eq ResourceKind.credential_resolution ResourceKind.credential_resolution e = refl
same_resource_eq ResourceKind.active_scan ResourceKind.active_scan e = refl
same_resource_eq ResourceKind.request ResourceKind.request e = refl
same_resource_eq ResourceKind.retry_waiter ResourceKind.retry_waiter e = refl
same_resource_eq ResourceKind.rate_limit_waiter ResourceKind.rate_limit_waiter e = refl
same_resource_eq ResourceKind.buffered_bytes ResourceKind.buffered_bytes e = refl
same_resource_eq ResourceKind.buffered_rows ResourceKind.buffered_rows e = refl
same_resource_eq _ _ e = ground arith

module _ (h : Hasher) (s : SharedState) (permits : List PermitHandle) where
  abbrev pub system : System
  system = record { shared = s; permits = permits }

  abbrev held : ResourceKind → Load
  held r = resource_load permits s.granted r

  -- One resource gets an amount more, for which there is room.
  pub Inv-take :
      (permits' : List PermitHandle) (resource : ResourceKind) (i : Identity) (amount : ℕ)
      → ((r : ResourceKind) (select : Identity → Bool)
          → resource_load permits' s.granted r select
            ≡ (if same_resource resource r && select i then amount else 0) + held r select)
      → HasRoom (resource_limits s.profile resource) (held resource) i amount
      → Inv h system
      → Inv h (record {
        shared = record s {
          resources =
              set_resource s.resources resource (add_usage h (s.resources resource) i amount);
        };
        permits = permits';
      })
  Inv-take permits' resource i amount step room v = record {
    valid = v.valid;
    resources = λ r. elim (Bool-cases (same_resource resource r)) [
      | inl same ↦ taken r same
      | inr other ↦ rw other (
          Tracks-eq h (s.resources r) _ _ (λ select. ground (arith, step r select, other))
            (v.resources r))
    ];
    within = within;
    queues = v.queues;
    queues_within = v.queues_within;
  }
    where
      within :
          (r : ResourceKind)
          → Within (resource_limits s.profile r) (resource_load permits' s.granted r)
      within r = elim (Bool-cases (same_resource resource r)) [
        | inl same ↦
            Within-Adds _ i amount (held r) _ (λ select. ground (arith, step r select, same))
              (rw (← same_resource_eq resource r same) room) (v.within r)
        | inr other ↦
            Within-mono _ _ (held r) (λ select. ground (arith, step r select, other)) (v.within r)
      ]

      taken :
          (r : ResourceKind)
          → same_resource resource r ≡ true
          → Tracks h
              (set_resource s.resources resource (add_usage h (s.resources resource) i amount) r)
              (resource_load permits' s.granted r)
      taken r same =
          rw (same, same_resource_eq resource r same)
            (add_usage-Tracks h (s.resources r) i amount (held r) _
              (λ select. ground (arith, step r select, same))
              (omega (arith, (within r).global, (validate_profile-IsSmall _ v.valid).resource r))
              (v.resources r))

  -- One resource gets an amount back.
  pub Inv-give :
      (permits' : List PermitHandle) (granted' : List Ticket) (resource : ResourceKind)
      (i : Identity) (amount : ℕ)
      → ((r : ResourceKind) (select : Identity → Bool)
          → held r select
            ≡ (if same_resource resource r && select i then amount else 0)
              + resource_load permits' granted' r select)
      → Inv h system
      → Inv h (record {
        shared = record s {
          resources =
              set_resource s.resources resource (subtract_usage h (s.resources resource) i amount);
          granted = granted';
        };
        permits = permits';
      })
  Inv-give permits' granted' resource i amount step v = record {
    valid = v.valid;
    resources = λ r. elim (Bool-cases (same_resource resource r)) [
      | inl same ↦
          rw (same, same_resource_eq resource r same)
            (subtract_usage-Tracks h (s.resources r) i amount _ (held r)
              (λ select. ground (arith, step r select, same))
              (resource_load_dominated permits' granted' r) (v.resources r))
      | inr other ↦ rw other (
          Tracks-eq h (s.resources r) _ _ (λ select. ground (arith, step r select, other))
            (v.resources r))
    ];
    within = λ r. Within-mono _ _ (held r) (λ select. ground (arith, step r select)) (v.within r);
    queues = v.queues;
    queues_within = v.queues_within;
  }

  -- What is held is shared out otherwise: a granted ticket becomes a permit.
  pub Inv-move :
      (permits' : List PermitHandle) (granted' : List Ticket)
      → ((r : ResourceKind) (select : Identity → Bool)
          → held r select ≡ resource_load permits' granted' r select)
      → Inv h system
      → Inv h (record { shared = record s { granted = granted' }; permits = permits' })
  Inv-move permits' granted' same v = record {
    valid = v.valid;
    resources = λ r. Tracks-eq h (s.resources r) (held r) _ (same r) (v.resources r);
    within = λ r. subst (Within (resource_limits s.profile r)) (fun_ext (same r)) (v.within r);
    queues = v.queues;
    queues_within = v.queues_within;
  }
