-- ===== src/Admission/Controller/Tickets.antt =====
-- The loads that tickets and permits put on the resources and queues of the controller.
use duckdb_fdw.Base.{
  ℕ, ◌+◌, ◌≤◌, ◌≡◌, Bool, true, false, ◌&&◌, some, List, [], ◌∷◌, ◌++◌, arith, if◌then◌else◌, weigh,
  weigh-nil, weigh-cons, weigh-append, weigh_mono, All,
}
use duckdb_fdw.Admission.Identity.{Identity}
use duckdb_fdw.Admission.Usage.Load.{Load, everyone}
use duckdb_fdw.Admission.Profile.{ResourceKind, QueueKind}
use duckdb_fdw.Admission.Controller.{
  Ticket, PermitHandle, same_resource, same_queue, TicketId, find_ticket, erase_ticket,
}

abbrev pub permit_weight : ResourceKind → (Identity → Bool) → PermitHandle → ℕ
permit_weight r select p = if same_resource p.resource r && select p.identity then p.amount else 0

abbrev pub granted_weight : ResourceKind → (Identity → Bool) → Ticket → ℕ
granted_weight r select t = if same_resource t.resource r && select t.identity then 1 else 0

abbrev pub queued_weight : QueueKind → (Identity → Bool) → Ticket → ℕ
queued_weight q select t = if same_queue t.queue q && select t.identity then 1 else 0

-- What is held of a resource: by the permits, and by the tickets granted and not yet claimed.
pub resource_load : List PermitHandle → List Ticket → ResourceKind → Load
resource_load permits granted r select =
    weigh (permit_weight r select) permits + weigh (granted_weight r select) granted

-- What waits in a queue.
pub queue_load : List Ticket → QueueKind → Load
queue_load tickets q select = weigh (queued_weight q select) tickets

pub queue_load-nil : (q : QueueKind) (select : Identity → Bool) → queue_load [] q select ≡ 0
unfolding queue_load
queue_load-nil q select = weigh-nil (queued_weight q select)

pub queue_load-cons :
    (t : Ticket) (ts : List Ticket) (q : QueueKind) (select : Identity → Bool)
    → queue_load (t ∷ ts) q select ≡ queued_weight q select t + queue_load ts q select
unfolding queue_load
queue_load-cons t ts q select = weigh-cons (queued_weight q select) t ts

pub resource_load_dominated :
    (permits : List PermitHandle) (granted : List Ticket) (r : ResourceKind)
    (select : Identity → Bool)
    → resource_load permits granted r select ≤ resource_load permits granted r everyone
unfolding resource_load
resource_load_dominated permits granted r select = omega (
  arith,
  weigh_mono (permit_weight r select) (permit_weight r everyone) (λ p. ground arith) permits,
  weigh_mono (granted_weight r select) (granted_weight r everyone) (λ t. ground arith) granted,
)

pub queue_load_dominated :
    (tickets : List Ticket) (q : QueueKind) (select : Identity → Bool)
    → queue_load tickets q select ≤ queue_load tickets q everyone
unfolding queue_load
queue_load_dominated tickets q select =
    weigh_mono (queued_weight q select) (queued_weight q everyone) (λ t. ground arith) tickets

-- Erasing the ticket that `std::find` returns takes its weight away.
pub weigh-erase_ticket :
    (w : Ticket → ℕ) (id : TicketId) (ts : List Ticket) (t : Ticket)
    → find_ticket id ts ≡ some t
    → weigh w ts ≡ w t + weigh w (erase_ticket id ts)
unfolding find_ticket erase_ticket
weigh-erase_ticket w id [] t e = cc
weigh-erase_ticket w id (x ∷ xs) t e =
    ground (
      arith,
      weigh-cons w x xs,
      weigh-cons w x (erase_ticket id xs),
      weigh-erase_ticket w id xs t,
      e,
    )

module _ (r : ResourceKind) (select : Identity → Bool) where
  pub resource_load-cons :
      (p : PermitHandle) (permits : List PermitHandle) (granted : List Ticket)
      → resource_load (p ∷ permits) granted r select
        ≡ permit_weight r select p + resource_load permits granted r select
  unfolding resource_load
  resource_load-cons p permits granted =
      omega (arith, weigh-cons (permit_weight r select) p permits)

  -- One permit among others.
  pub resource_load_split :
      (xs : List PermitHandle) (p : PermitHandle) (ys : List PermitHandle) (granted : List Ticket)
      → resource_load (xs ++ p ∷ ys) granted r select
        ≡ permit_weight r select p + resource_load (xs ++ ys) granted r select
  unfolding resource_load
  resource_load_split xs p ys granted = omega (
    arith,
    weigh-append (permit_weight r select) xs (p ∷ ys),
    weigh-append (permit_weight r select) xs ys,
    weigh-cons (permit_weight r select) p ys,
  )

  pub resource_load_granted :
      (permits : List PermitHandle) (new granted : List Ticket)
      → resource_load permits (new ++ granted) r select
        ≡ weigh (granted_weight r select) new + resource_load permits granted r select
  unfolding resource_load
  resource_load_granted permits new granted =
      omega (arith, weigh-append (granted_weight r select) new granted)

  -- A ticket that is claimed, or given back.
  pub resource_load-erase_ticket :
      (permits : List PermitHandle) (granted : List Ticket) (id : TicketId) (t : Ticket)
      → find_ticket id granted ≡ some t
      → resource_load permits granted r select
        ≡ granted_weight r select t + resource_load permits (erase_ticket id granted) r select
  unfolding resource_load
  resource_load-erase_ticket permits granted id t e =
      omega (arith, weigh-erase_ticket (granted_weight r select) id granted t e)

module _ (q : QueueKind) (select : Identity → Bool) where
  pub queue_load-erase_ticket :
      (tickets : List Ticket) (id : TicketId) (t : Ticket)
      → find_ticket id tickets ≡ some t
      → queue_load tickets q select
        ≡ queued_weight q select t + queue_load (erase_ticket id tickets) q select
  unfolding queue_load
  queue_load-erase_ticket tickets id t e =
      weigh-erase_ticket (queued_weight q select) id tickets t e

  pub queue_load_tail :
      (tickets : List Ticket) (t : Ticket)
      → queue_load (tickets ++ t ∷ []) q select
        ≡ queued_weight q select t + queue_load tickets q select
  unfolding queue_load
  queue_load_tail tickets t = omega (
    arith,
    weigh-append (queued_weight q select) tickets (t ∷ []),
    weigh-cons (queued_weight q select) t [],
    weigh-nil (queued_weight q select),
  )

-- Tickets granted of one resource weigh nothing on another.
pub weigh_other_resource :
    (resource r : ResourceKind) (select : Identity → Bool) (granted : List Ticket)
    → same_resource resource r ≡ false
    → All (λ t. same_resource t.resource resource ≡ true) granted
    → weigh (granted_weight r select) granted ≡ 0
weigh_other_resource resource r select [] other all = weigh-nil (granted_weight r select)
weigh_other_resource resource r select (t ∷ ts) other all = ground (
  arith,
  weigh-cons (granted_weight r select) t ts,
  weigh_other_resource resource r select ts other all.1,
  all.0,
)

pub resource_load-nil :
    (r : ResourceKind) (select : Identity → Bool) → resource_load [] [] r select ≡ 0
unfolding resource_load
resource_load-nil r select =
    omega (arith, weigh-nil (permit_weight r select), weigh-nil (granted_weight r select))
