-- ===== src/Admission/Acquire/Invariant/Defs.antt =====
-- The controller with the permits that its callers hold, the invariant, and the steps.
use duckdb_fdw.Base.{ℕ, ◌≡◌, Bool, true, List, ◌∷◌, ◌++◌}
use duckdb_fdw.Admission.Identity.{Hasher, Identity}
use duckdb_fdw.Admission.Usage.{Reason}
use duckdb_fdw.Admission.Usage.Load.{Tracks}
use duckdb_fdw.Admission.Usage.Fits.{Within}
use duckdb_fdw.Admission.Profile.{
  ResourceKind, QueueKind, validate_profile, resource_limits, queue_limits,
}
use duckdb_fdw.Admission.Controller.{PermitHandle, SharedState, TicketId}
use duckdb_fdw.Admission.Controller.Tickets.{resource_load, queue_load}
use duckdb_fdw.Admission.Acquire.{
  Outcome, permitted, Request, Turn, Entry, take_turn, claim_fault, acquire_queued,
  acquire_immediate, resize_buffered_bytes, release, close,
}

pub record System : Type 0 where
  pub shared : SharedState
  pub permits : List PermitHandle

pub record Inv (h : Hasher) (y : System) : Type 0 where
  pub valid : validate_profile y.shared.profile ≡ true
  pub resources :
      (r : ResourceKind)
      → Tracks h (y.shared.resources r) (resource_load y.permits y.shared.granted r)
  pub within :
      (r : ResourceKind)
      → Within (resource_limits y.shared.profile r) (resource_load y.permits y.shared.granted r)
  pub queues : (q : QueueKind) → Tracks h (y.shared.queues q) (queue_load y.shared.tickets q)
  pub queues_within :
      (q : QueueKind) → Within (queue_limits y.shared.profile q) (queue_load y.shared.tickets q)

-- A critical section that ends with a permit hands it to the caller.
abbrev pub deliver : List PermitHandle → SharedState × Outcome → System
deliver permits (s, permitted p o) = record { shared = s; permits = p ∷ permits }
deliver permits (s, _) = record { shared = s; permits = permits }

-- The critical sections in any order, by any callers, with any readings. A permit that is resized
-- or released is one of those held.
pub data Step (h : Hasher) (y : System) : System → Type 0 where
  acquires :
      (q : Request) (e : Entry) → Step h y (deliver y.permits (acquire_queued h y.shared q e))
  turns : (id : TicketId) (r : Turn) → Step h y (deliver y.permits (take_turn h y.shared id r))
  faults :
      (id : TicketId) (granting : ℕ)
      → Step h y (deliver y.permits (claim_fault h y.shared id granting))
  takes :
      (resource : ResourceKind) (identity : Identity) (amount : ℕ) (reason : Reason) (held : Bool)
      → Step h y
          (deliver y.permits (acquire_immediate h y.shared resource identity amount reason held))
  resizes :
      (xs : List PermitHandle) (p : PermitHandle) (ys : List PermitHandle) (bytes : ℕ)
      → y.permits ≡ xs ++ p ∷ ys
      → Step h y (record {
        shared = (resize_buffered_bytes h y.shared p bytes).0;
        permits = xs ++ (resize_buffered_bytes h y.shared p bytes).1 ∷ ys;
      })
  releases :
      (xs : List PermitHandle) (p : PermitHandle) (ys : List PermitHandle) (granting : ℕ)
      → y.permits ≡ xs ++ p ∷ ys
      → Step h y (record { shared = release h y.shared p granting; permits = xs ++ ys })
  closes : Step h y (record y { shared = close y.shared })

pub data Reach (h : Hasher) (y : System) : System → Type 0 where
  here : Reach h y y
  next : {z w : System} → Reach h y z → Step h z w → Reach h y w
