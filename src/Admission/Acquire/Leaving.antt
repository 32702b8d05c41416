-- ===== src/Admission/Acquire/Leaving.antt =====
-- What a caller that leaves the queue takes away: the ends of the loop of
-- AdmissionController::AcquireQueued, src/runtime/execution/admission_controller.cpp.
use duckdb_fdw.Base.{
  ℕ, ◌+◌, ◌≡◌, refl, subst, sym, Bool, true, false, ◌&&◌, ◌||◌, not, none, some, List, [], ◌∷◌,
  arith, ◌==◌, leb, inl, inr, Bool-cases,
}
use duckdb_fdw.Admission.Identity.{Hasher, Identity}
use duckdb_fdw.Admission.Usage.Load.{Tracks}
use duckdb_fdw.Admission.Profile.{QueueKind}
use duckdb_fdw.Admission.Controller.{
  Ticket, PermitHandle, SharedState, same_queue, is_open, TicketId, is_ticket, find_ticket,
  erase_ticket, remove_ticket,
}
use duckdb_fdw.Admission.Controller.Tickets.{queued_weight, queue_load, queue_load-erase_ticket}
use duckdb_fdw.Admission.Controller.Grant.{same_queue_eq}
use duckdb_fdw.Admission.Acquire.{Turn, wait_turn, take_turn}
use duckdb_fdw.Admission.Acquire.Behaviour.{is_waiting, is_permitted}
use duckdb_fdw.Admission.Acquire.Invariant.{Inv}
use duckdb_fdw.Admission.Acquire.Invariant.Queues.{remove_ticket-Inv}

abbrev pub same_id : TicketId → TicketId → Bool
same_id id j = same_queue id.0 j.0 && id.1 == j.1

-- A ticket has one identity.
is_ticket-same_id :
    (t : Ticket) (id j : TicketId)
    → is_ticket id t ≡ true
    → is_ticket j t ≡ true
    → same_id id j ≡ true
is_ticket-same_id t id j e f =
    ground (arith, e, f, same_queue_eq t.queue id.0, same_queue_eq t.queue j.0)

find_ticket-erase_ticket :
    (id j : TicketId) (ts : List Ticket)
    → same_id id j ≡ false
    → find_ticket j (erase_ticket id ts) ≡ find_ticket j ts
unfolding find_ticket erase_ticket
find_ticket-erase_ticket id j [] other = refl
find_ticket-erase_ticket id j (t ∷ ts) other = elim (Bool-cases (is_ticket id t)) [
  | inl this ↦ elim (Bool-cases (is_ticket j t)) [
    | inl that ↦ ground (arith, other, is_ticket-same_id t id j this that)
    | inr not_that ↦ ground (arith, this, not_that)
  ]
  | inr not_this ↦ ground (arith, not_this, find_ticket-erase_ticket id j ts other)
]

-- The ticket is out of its queue, whose counters count what is left; the ticket of another caller is
-- found as before; and nothing is granted or taken back.
pub record HasLeft (h : Hasher) (t : Ticket) (j : TicketId) (before after : SharedState)
    : Type 0 where
  pub load :
      (q : QueueKind) (select : Identity → Bool)
      → queue_load before.tickets q select
        ≡ queued_weight q select t + queue_load after.tickets q select
  pub counted : (q : QueueKind) → Tracks h (after.queues q) (queue_load after.tickets q)
  pub others : find_ticket j after.tickets ≡ find_ticket j before.tickets
  pub granted : after.granted ≡ before.granted

module _ (h : Hasher) (s : SharedState) (permits : List PermitHandle) (id : TicketId) (t : Ticket)
    (j : TicketId) where
  remove_ticket-HasLeft :
      Inv h (record { shared = s; permits = permits })
      → find_ticket id s.tickets ≡ some t
      → same_id id j ≡ false
      → HasLeft h t j s (remove_ticket h s id)
  unfolding remove_ticket
  remove_ticket-HasLeft v found other = record {
    load = λ q select.
        subst
          (λ ts. queue_load s.tickets q select ≡ queued_weight q select t + queue_load ts q select)
          (sym removed.0) (queue_load-erase_ticket q select s.tickets id t found);
    counted = (remove_ticket-Inv h s permits id v).queues;
    others =
        subst (λ ts. find_ticket j ts ≡ find_ticket j s.tickets) (sym removed.0)
          (find_ticket-erase_ticket id j s.tickets other);
    granted = removed.1;
  }
    where
      removed :
          ((remove_ticket h s id).tickets ≡ erase_ticket id s.tickets)
          × ((remove_ticket h s id).granted ≡ s.granted)
      removed = rw (found, remove_ticket) (refl, refl)

-- The first of the caller's deadlines passes in a turn.
abbrev pub is_due : Ticket → ℕ → Bool
is_due t now =
    leb t.wait.queue_deadline_milliseconds now
    || (t.wait.has_aggregate_deadline && leb t.wait.aggregate_deadline_milliseconds now)
    || (t.wait.has_scan_deadline && leb t.wait.scan_deadline_milliseconds now)

take_turn-remove_ticket :
    (h : Hasher) (s : SharedState) (id : TicketId) (t : Ticket) (r : Turn)
    → find_ticket id s.granted ≡ none
    → find_ticket id s.tickets ≡ some t
    → (not (is_open s.terminal_reason) || r.cancelled || is_due t r.now) ≡ true
    → ((take_turn h s id r).0 ≡ remove_ticket h s id)
      × (is_waiting (take_turn h s id r).1 ≡ false)
      × (is_permitted (take_turn h s id r).1 ≡ false)
unfolding take_turn wait_turn
take_turn-remove_ticket h s id t r g f due = ground arith

-- In a controller that keeps the invariant, a caller whose ticket is not granted leaves in the turn
-- where it is cancelled, one of its deadlines is reached, or the controller is closed: it neither
-- waits on nor gets a permit; its queue holds one ticket less of its identity, no other queue any
-- less, and their counters say so; the ticket of any other caller stays, and what is granted too.
pub take_turn-HasLeft :
    (h : Hasher) (s : SharedState) (permits : List PermitHandle) (id : TicketId) (t : Ticket)
    (r : Turn) (j : TicketId)
    → Inv h (record { shared = s; permits = permits })
    → find_ticket id s.granted ≡ none
    → find_ticket id s.tickets ≡ some t
    → (not (is_open s.terminal_reason) || r.cancelled || is_due t r.now) ≡ true
    → same_id id j ≡ false
    → (is_waiting (take_turn h s id r).1 ≡ false)
      × (is_permitted (take_turn h s id r).1 ≡ false)
      × HasLeft h t j s (take_turn h s id r).0
take_turn-HasLeft h s permits id t r j v g f due other =
    let end = take_turn-remove_ticket h s id t r g f due in
    (
      end.1,
      end.2,
      subst (HasLeft h t j s) (sym end.0) (remove_ticket-HasLeft h s permits id t j v f other),
    )
