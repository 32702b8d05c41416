-- ===== src/Admission/Acquire/Closing.antt =====
-- A controller that is closed, or has run out of tickets, stays so.
use duckdb_fdw.Base.{ℕ, ◌≡◌, refl, sym, subst, ◌∙◌, Bool, false, List, arith}
use duckdb_fdw.Admission.Identity.{Hasher, Identity}
use duckdb_fdw.Admission.Usage.{Reason}
use duckdb_fdw.Admission.Profile.{ResourceKind}
use duckdb_fdw.Admission.Controller.{
  PermitHandle, SharedState, is_open, grant_eligible, TicketId, remove_ticket,
}
use duckdb_fdw.Admission.Acquire.{
  Outcome, Request, Turn, Entry, claim, claim_fault, wait_turn, take_turn, acquire_admitted,
  acquire_queued, acquire_immediate, resize_buffered_bytes, release, close,
}
use duckdb_fdw.Admission.Acquire.Invariant.{
  System, deliver, Step, acquires, turns, faults, takes, resizes, releases, closes, Reach, here,
  next,
}

module _ (h : Hasher) where
  grant_eligible_reason :
      (s : SharedState) (resource : ResourceKind) (now : ℕ)
      → (grant_eligible h s resource now).terminal_reason ≡ s.terminal_reason
  unfolding grant_eligible
  grant_eligible_reason s resource now = ground arith

  remove_ticket_reason :
      (s : SharedState) (id : TicketId) → (remove_ticket h s id).terminal_reason ≡ s.terminal_reason
  unfolding remove_ticket
  remove_ticket_reason s id = ground arith

  deliver_reason :
      (permits : List PermitHandle) (o : SharedState × Outcome)
      → (deliver permits o).shared.terminal_reason ≡ o.0.terminal_reason
  deliver_reason permits (s, o) = ground arith

  take_turn_reason :
      (s : SharedState) (id : TicketId) (r : Turn)
      → is_open s.terminal_reason ≡ false
      → (take_turn h s id r).0.terminal_reason ≡ s.terminal_reason
  unfolding take_turn wait_turn claim
  take_turn_reason s id r closed = ground (arith, remove_ticket_reason s id)

  claim_fault_reason :
      (s : SharedState) (id : TicketId) (granting : ℕ)
      → (claim_fault h s id granting).0.terminal_reason ≡ s.terminal_reason
  unfolding claim_fault grant_eligible
  claim_fault_reason s id granting = ground arith

  resize_reason :
      (s : SharedState) (p : PermitHandle) (bytes : ℕ)
      → (resize_buffered_bytes h s p bytes).0.terminal_reason ≡ s.terminal_reason
  unfolding resize_buffered_bytes
  resize_reason s p bytes = ground arith

  acquire_queued_reason :
      (s : SharedState) (q : Request) (e : Entry)
      → is_open s.terminal_reason ≡ false
      → (acquire_queued h s q e).0.terminal_reason ≡ s.terminal_reason
  unfolding acquire_queued acquire_admitted
  acquire_queued_reason s q e closed = ground arith

  acquire_immediate_reason :
      (s : SharedState) (resource : ResourceKind) (i : Identity) (amount : ℕ) (reason : Reason)
      (held : Bool)
      → (acquire_immediate h s resource i amount reason held).0.terminal_reason ≡ s.terminal_reason
  unfolding acquire_immediate
  acquire_immediate_reason s resource i amount reason held = ground arith

  release_reason :
      (s : SharedState) (p : PermitHandle) (granting : ℕ)
      → (release h s p granting).terminal_reason ≡ s.terminal_reason
  unfolding release grant_eligible
  release_reason s p granting = ground arith

  close_reason :
      (s : SharedState)
      → is_open s.terminal_reason ≡ false
      → (close s).terminal_reason ≡ s.terminal_reason
  unfolding close
  close_reason s closed = ground arith

  Step-reason :
      {y z : System}
      → Step h y z
      → is_open y.shared.terminal_reason ≡ false
      → z.shared.terminal_reason ≡ y.shared.terminal_reason
  Step-reason {y} (acquires q e) closed =
      deliver_reason y.permits (acquire_queued h y.shared q e)
      ∙ acquire_queued_reason y.shared q e closed
  Step-reason {y} (turns id r) closed =
      deliver_reason y.permits (take_turn h y.shared id r) ∙ take_turn_reason y.shared id r closed
  Step-reason {y} (faults id granting) closed =
      deliver_reason y.permits (claim_fault h y.shared id granting)
      ∙ claim_fault_reason y.shared id granting
  Step-reason {y} (takes resource i amount reason held) closed =
      deliver_reason y.permits (acquire_immediate h y.shared resource i amount reason held)
      ∙ acquire_immediate_reason y.shared resource i amount reason held
  Step-reason {y} (resizes xs p ys bytes e) closed = resize_reason y.shared p bytes
  Step-reason {y} (releases xs p ys granting e) closed = release_reason y.shared p granting
  Step-reason {y} closes closed = close_reason y.shared closed

  -- The reason for which a controller ends is final: after `Close`, or once the tickets have run
  -- out, no step of any caller opens it again or gives another reason.
  pub reason_is_final :
      {y z : System}
      → Reach h y z
      → is_open y.shared.terminal_reason ≡ false
      → z.shared.terminal_reason ≡ y.shared.terminal_reason
  reason_is_final here closed = refl
  reason_is_final (next r st) closed =
      let e = reason_is_final r closed in
      Step-reason st (subst (λ o. is_open o ≡ false) (sym e) closed) ∙ e
