-- ===== src/Admission/Controller/Eligible.antt =====
-- `GrantEligibleLocked` leaves no ticket behind that could have been granted.
use duckdb_fdw.Base.{
  ℕ, ◌+◌, ◌<◌, ◌≡◌, refl, subst, fun_ext, true, false, List, [], ◌∷◌, arith, u64_mod, weigh-cons,
  All,
}
use duckdb_fdw.Admission.Identity.{Hasher}
use duckdb_fdw.Admission.Usage.{Scope, Observation, DimensionLimits, Counters, check_fits}
use duckdb_fdw.Admission.Usage.Load.{Load, Tracks, add_usage-Tracks}
use duckdb_fdw.Admission.Usage.Fits.{Within, HasRoom, HasRoom-check_fits, HasRoom-mono, Within-Adds}
use duckdb_fdw.Admission.Profile.{ResourceKind, QueueKind}
use duckdb_fdw.Admission.Controller.{
  Ticket, Pass, Decision, skip, block, grant, decide, counts_after, queues_after, place, grant_pass,
  same_resource, ticket_expired, has_scope,
}
use duckdb_fdw.Admission.Controller.Tickets.{granted_weight}
use duckdb_fdw.Admission.Controller.Grant.{decide-grant, granted_load}

module _ (h : Hasher) (resource : ResourceKind) (now : ℕ) (limits : DimensionLimits) where
  -- A ticket of the resource that has not expired finds no room beside the load.
  abbrev pub IsBlocked : Load → Ticket → Type 0
  IsBlocked l t =
      same_resource t.resource resource ≡ true
      → ticket_expired t now ≡ false
      → ¬ HasRoom limits l t.identity 1

  has_scope-not-none : (o : Observation) → has_scope o ≡ true → ¬ (o.scope ≡ Scope.none)
  unfolding has_scope
  has_scope-not-none o e n = ground arith

  decide-skip :
      (t : Ticket) (counts : Counters) (l : Load)
      → decide h resource now limits t counts ≡ skip
      → IsBlocked l t
  unfolding decide
  decide-skip t counts l e same waiting room = ground arith

  decide-block :
      (t : Ticket) (counts : Counters) (o : Observation) {l : Load}
      → Tracks h counts l
      → decide h resource now limits t counts ≡ block o
      → IsBlocked l t
  unfolding decide
  decide-block t counts o tracked e same waiting room =
      has_scope-not-none (check_fits h counts t.identity 1 limits) (ground arith)
        (HasRoom-check_fits h counts t.identity 1 limits tracked room)

  abbrev gl : List Ticket → Load → Load
  gl = granted_load h resource now limits

  IsBlocked-later :
      (l : Load) (granted : List Ticket) (t : Ticket) → IsBlocked l t → IsBlocked (gl granted l) t
  IsBlocked-later l granted t b same waiting room =
      b same waiting (HasRoom-mono limits t.identity 1 l _ (λ select. omega arith) room)

  -- Every ticket that a pass leaves in the queues is blocked under the load that it ends with.
  pub record NoneLeft (l : Load) (p : Pass) : Type 0 where
    pub all : All (IsBlocked (gl p.granted l)) p.tickets

  abbrev PassClaim : List Ticket → Type 0
  PassClaim ts =
      (counts : Counters) (queues : QueueKind → Counters) (l : Load)
      → Tracks h counts l
      → Within limits l
      → NoneLeft l (grant_pass h resource now limits ts counts queues)

  NoneLeft-decide :
      (d : Decision) (t : Ticket) (ts : List Ticket) (counts : Counters)
      (queues : QueueKind → Counters) (l : Load)
      → decide h resource now limits t counts ≡ d
      → limits.global < u64_mod
      → PassClaim ts
      → Tracks h counts l
      → Within limits l
      → NoneLeft l (
          place h resource now limits d t (
            grant_pass h resource now limits ts
              (counts_after h resource now limits d t counts)
              (queues_after h resource now limits d t queues)))
  unfolding ticket_expired
  NoneLeft-decide skip t ts counts queues l e small rest tracked within = record {
    all = (
      IsBlocked-later l _ t (decide-skip t counts l e),
      (rest counts queues l tracked within).all,
    );
  }
  NoneLeft-decide (block o) t ts counts queues l e small rest tracked within = record {
    all = (
      IsBlocked-later l _ t (decide-block t counts o tracked e),
      (rest counts queues l tracked within).all,
    );
  }
  NoneLeft-decide grant t ts counts queues l e small rest tracked within =
      let (same, room) = decide-grant h resource now limits t counts tracked e in
      let m : Load = λ select. granted_weight resource select t + l select in
      let w : Within limits m =
        Within-Adds limits t.identity 1 l m (λ select. ground (arith, same)) room within in
      moved m (
        rest _ _ m
          (add_usage-Tracks h counts t.identity 1 l m (λ select. ground (arith, same))
            (omega (arith, w.global, small)) tracked)
          w)
    where
      t' : Ticket
      t' = record t { granted_at = now }

      moved :
          (m : Load) {p : Pass}
          → NoneLeft (λ select. granted_weight resource select t + l select) p
          → NoneLeft l (record p { granted = t' ∷ p.granted })
      moved m {p} n = record {
        all =
            subst (λ k. All (IsBlocked k) p.tickets)
              (fun_ext
                λ select. omega (arith, weigh-cons (granted_weight resource select) t' p.granted))
              n.all;
      }

  pub grant_pass-NoneLeft : limits.global < u64_mod → (ts : List Ticket) → PassClaim ts
  unfolding grant_pass
  grant_pass-NoneLeft small [] counts queues l tracked within = record { all = tt }
  grant_pass-NoneLeft small (t ∷ ts) counts queues l tracked within =
      NoneLeft-decide (decide h resource now limits t counts) t ts counts queues l refl small
        (grant_pass-NoneLeft small ts) tracked within
