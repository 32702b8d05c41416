-- ===== src/Admission/Acquire/Invariant/Acquiring.antt =====
-- The critical sections of the acquisitions keep the invariant.
use duckdb_fdw.Base.{
  ℕ, ◌≡◌, refl, Bool, true, false, ◌&&◌, not, inl, inr, some, List, ◌∷◌, arith, if◌then◌else◌,
  Option-cases,
}
use duckdb_fdw.Admission.Identity.{Hasher, Identity}
use duckdb_fdw.Admission.Usage.{Reason, Observation, empty_observation, check_fits, add_usage}
use duckdb_fdw.Admission.Usage.Fits.{check_fits-HasRoom}
use duckdb_fdw.Admission.Profile.{ResourceKind, QueueKind, resource_limits, queue_limits}
use duckdb_fdw.Admission.Controller.{
  Ticket, PermitHandle, SharedState, set_resource, has_scope, grant_eligible, TicketId, find_ticket,
  erase_ticket,
}
use duckdb_fdw.Admission.Controller.Tickets.{resource_load-cons, resource_load-erase_ticket}
use duckdb_fdw.Admission.Controller.Grant.{has_scope_none}
use duckdb_fdw.Admission.Acquire.{
  Status, Outcome, permitted, finished, invalid_argument, Request, Turn, Entry, permit_of, claim,
  claim_fault, after_grant, wait_turn, take_turn, any_queued, enqueue, queue_up, acquire_now,
  acquire_admitted, acquire_queued, acquire_immediate,
}
use duckdb_fdw.Admission.Acquire.Invariant.Defs.{Inv, deliver}
use duckdb_fdw.Admission.Acquire.Invariant.Parts.{system, Inv-take, Inv-give, Inv-move}
use duckdb_fdw.Admission.Acquire.Invariant.Queues.{
  grant_eligible-Inv, remove_ticket-Inv, enqueue-Inv,
}
use duckdb_fdw.Admission.Acquire.Invariant.Opening.{close_with-Inv}

-- What a critical section leaves is sound.
pub record Sound (h : Hasher) (permits : List PermitHandle) (o : SharedState × Outcome)
    : Type 0 where
  pub inv : Inv h (deliver permits o)

module _ (h : Hasher) (permits : List PermitHandle) where
  Sound-if :
      (b : Bool) (x y : SharedState × Outcome)
      → (b ≡ true → Sound h permits x)
      → (b ≡ false → Sound h permits y)
      → Sound h permits (if b then x else y)
  Sound-if true x y p q = p refl
  Sound-if false x y p q = q refl

  Sound-finished :
      (s : SharedState) (status : Status) (o : Observation)
      → Inv h (system h s permits)
      → Sound h permits (s, finished status o)
  Sound-finished s status o v = record { inv = v }

  Sound-invalid :
      (s : SharedState) → Inv h (system h s permits) → Sound h permits (s, invalid_argument)
  Sound-invalid s v = record { inv = v }

  ruleset sound_rules = (Sound-if, Sound-finished, Sound-invalid)

  claim-Inv :
      (s : SharedState) (id : TicketId) (t : Ticket)
      → find_ticket id s.granted ≡ some t
      → Inv h (system h s permits)
      → Inv h (deliver permits (claim s id t))
  unfolding claim
  claim-Inv s id t e v =
      Inv-move h s permits (permit_of t ∷ permits) (erase_ticket id s.granted)
        (λ r select. ground (
          arith,
          resource_load-erase_ticket r select permits s.granted id t e,
          resource_load-cons r select (permit_of t) permits (erase_ticket id s.granted),
        ))
        v

  pub claim_fault-Inv :
      (s : SharedState) (id : TicketId) (granting : ℕ)
      → Inv h (system h s permits)
      → Inv h (deliver permits (claim_fault h s id granting))
  unfolding claim_fault
  claim_fault-Inv s id granting v = elim (Option-cases (find_ticket id s.granted)) [
    | inl e ↦ rw (e, claim_fault) v
    | inr (t, e) ↦
        rw (e, claim_fault)
          (grant_eligible-Inv h _ permits t.resource granting (
            Inv-give h s permits permits (erase_ticket id s.granted) t.resource t.identity 1
              (λ r select.
                ground (arith, resource_load-erase_ticket r select permits s.granted id t e))
              v))
  ]

  after_grant-Inv :
      (s : SharedState) (id : TicketId) (t : Ticket) (now : ℕ)
      → Inv h (system h s permits)
      → Inv h (deliver permits (after_grant s id t now))
  unfolding after_grant
  after_grant-Inv s id t now v = elim (Option-cases (find_ticket id s.granted)) [
    | inl e ↦ rw (e, after_grant) v
    | inr (t', e) ↦ rw (e, after_grant) (claim-Inv s id t' e v)
  ]

  wait_turn-Inv :
      (s : SharedState) (id : TicketId) (t : Ticket) (r : Turn)
      → Inv h (system h s permits)
      → Sound h permits (wait_turn h s id t r)
  unfolding wait_turn
  wait_turn-Inv s id t r v =
      search (sound_rules, remove_ticket-Inv h s permits id v, going_on) depth 14
    where
      going_on : Sound h permits (after_grant (grant_eligible h s t.resource r.granting) id t r.now)
      going_on = record {
        inv =
            after_grant-Inv (grant_eligible h s t.resource r.granting) id t r.now
              (grant_eligible-Inv h s permits t.resource r.granting v);
      }

  pub take_turn-Inv :
      (s : SharedState) (id : TicketId) (r : Turn)
      → Inv h (system h s permits)
      → Inv h (deliver permits (take_turn h s id r))
  unfolding take_turn
  take_turn-Inv s id r v = elim (Option-cases (find_ticket id s.granted)) [
    | inr (t, e) ↦ rw (e, take_turn) (claim-Inv s id t e v)
    | inl e ↦ elim (Option-cases (find_ticket id s.tickets)) [
      | inr (t, e') ↦ rw (e, e', take_turn) (wait_turn-Inv s id t r v).inv
      | inl e' ↦ rw (e, e', take_turn) v
    ]
  ]

  queue_up-Inv :
      (s : SharedState) (q : Request) (queue : QueueKind) (blocking : Observation) (e : Entry)
      → Inv h (system h s permits)
      → Sound h permits (queue_up h s q queue blocking e)
  unfolding queue_up
  queue_up-Inv s q queue blocking e v = search (sound_rules, exhausted, joined) depth 8
    where
      exhausted : Inv h (system h (record s { terminal_reason = Reason.ticket_exhausted }) permits)
      exhausted = close_with-Inv h s permits Reason.ticket_exhausted v

      joined :
          has_scope (check_fits h (s.queues queue) q.identity 1 (queue_limits s.profile queue))
            ≡ false
          → Sound h permits (
              take_turn h
                (grant_eligible h (enqueue h s q queue blocking e.started) q.resource e.granting)
                (queue, s.next_ticket queue)
                e.turn)
      joined fits = record {
        inv =
            take_turn-Inv _ (queue, s.next_ticket queue) e.turn
              (grant_eligible-Inv h _ permits q.resource e.granting (
                enqueue-Inv h s permits q queue blocking e.started
                  (check_fits-HasRoom h (s.queues queue) q.identity 1 (queue_limits s.profile queue)
                    (v.queues queue) (has_scope_none _ fits))
                  v));
      }

  acquire_now-Inv :
      (s : SharedState) (q : Request)
      → has_scope (
          check_fits h (s.resources q.resource) q.identity 1 (resource_limits s.profile q.resource))
        ≡ false
      → Inv h (system h s permits)
      → Inv h (deliver permits (acquire_now h s q))
  unfolding acquire_now
  acquire_now-Inv s q fits v =
      Inv-take h s permits (p ∷ permits) q.resource q.identity 1
        (λ r select. ground (arith, resource_load-cons r select p permits s.granted))
        (check_fits-HasRoom h (s.resources q.resource) q.identity 1 _ (v.resources q.resource)
          (has_scope_none _ fits))
        v
    where
      p : PermitHandle
      p = record { resource = q.resource; identity = q.identity; amount = 1 }

  acquire_admitted-Inv :
      (s : SharedState) (q : Request) (queue : QueueKind) (e : Entry)
      → Inv h (system h s permits)
      → Sound h permits (acquire_admitted h s q queue e)
  unfolding acquire_admitted
  acquire_admitted-Inv s q queue e v =
      search (sound_rules, at_once, λ (o : Observation). queue_up-Inv s q queue o e v) depth 18
    where
      blocking : Observation
      blocking =
          check_fits h (s.resources q.resource) q.identity 1 (resource_limits s.profile q.resource)

      at_once :
          (not (has_scope blocking) && not (any_queued q.resource s.tickets)) ≡ true
          → Sound h permits (acquire_now h s q)
      at_once test = record { inv = acquire_now-Inv s q (ground arith) v }

  pub acquire_queued-Inv :
      (s : SharedState) (q : Request) (e : Entry)
      → Inv h (system h s permits)
      → Sound h permits (acquire_queued h s q e)
  unfolding acquire_queued
  acquire_queued-Inv s q e v = elim (Option-cases q.queue) [
    | inl none_given ↦ rw (none_given, acquire_queued) (record { inv = v })
    | inr (queue, given) ↦
        rw (given, acquire_queued) (search (sound_rules, acquire_admitted-Inv s q queue e v))
  ]

  pub acquire_immediate-Inv :
      (s : SharedState) (resource : ResourceKind) (i : Identity) (amount : ℕ) (reason : Reason)
      (permit_held : Bool)
      → Inv h (system h s permits)
      → Sound h permits (acquire_immediate h s resource i amount reason permit_held)
  unfolding acquire_immediate
  acquire_immediate-Inv s resource i amount reason permit_held v =
      search (sound_rules, taken) depth 10
    where
      p : PermitHandle
      p = record { resource = resource; identity = i; amount = amount }

      taken :
          has_scope
              (check_fits h (s.resources resource) i amount (resource_limits s.profile resource))
            ≡ false
          → Sound h permits (
            record s {
              resources =
                  set_resource s.resources resource (add_usage h (s.resources resource) i amount);
            },
            permitted p empty_observation,
          )
      taken fits = record {
        inv =
            Inv-take h s permits (p ∷ permits) resource i amount
              (λ r select. ground (arith, resource_load-cons r select p permits s.granted))
              (check_fits-HasRoom h (s.resources resource) i amount _ (v.resources resource)
                (has_scope_none _ fits))
              v;
      }
