-- ===== src/Generations/Staging.antt =====
-- The calls on the registry of package generations, src/runtime/generation/generation_registry.cpp and
-- generation_publication.cpp.
use duckdb_fdw.Base.{
  ℕ, ◌+◌, Bool, true, false, ◌||◌, not, Option, none, some, List, ◌==◌, if◌then◌else◌,
}
use duckdb_fdw.Generations.Text.{same_text}
use duckdb_fdw.Generations.{
  Failure, Generation, Decision, is_compatible, changed, matches_pair, Owner, Snapshot, Registry,
  owner_id, find_owner, load_owners, reload_owners, Outcome, Staged, gives, fails, rejected,
  cancelled, waits, bad_stage,
}

-- `AcquireStage` before its loop.
unfoldable pub enter_stage : Registry → Bool → Outcome Unit
enter_stage s cancels =
    if cancels then cancelled else if s.closing then fails Failure.registry_closing else gives tt

-- One turn of the loop of `AcquireStage`: `times_out` where the wait for the mutex ended without it.
unfoldable pub stage_turn : Registry → Bool → Bool → Outcome Unit
stage_turn s times_out cancels =
    if cancels
    then cancelled
    else if s.closing
    then fails Failure.registry_closing
    else if times_out || s.locked
    then waits
    else gives tt

-- The constructor of the staged generation: the target must find this very owner. A lease is passed
-- exactly with a change at each call, so its second test is not written out.
unfoldable pub staged_generation : Owner → Snapshot → Bool → Outcome Staged
staged_generation owner target is_changed = elim (find_owner (owner_id owner) target.generations) [
  | none ↦ bad_stage
  | some o ↦
      if o.address == owner.address
      then gives (record { owner = owner; target = target; is_changed = is_changed })
      else bad_stage
]

-- The lease keeps the mutex in what is staged, and gives it back where the constructor throws.
unfoldable pub with_lease : Registry → Outcome Staged → Registry × Outcome Staged
with_lease s (gives g) = (record s { locked = true }, gives g)
with_lease s o = (record s { locked = false }, o)

-- A staged generation with the lease on its publication.
unfoldable pub stage : Registry → Owner → Snapshot → Registry × Outcome Staged
stage s owner target = with_lease s (staged_generation owner target true)

abbrev pub owned : Registry → Generation → Owner
owned s candidate = record { address = s.next; generation = candidate }

abbrev pub built : Registry → List Owner → Snapshot
built s owners = record { address = s.next + 1; generations = owners }

abbrev pub allocated : Registry → Registry
allocated s = record s { next = s.next + 2 }

-- `StageLoad` against the active snapshot, with the mutex.
unfoldable pub load_against :
    Registry → Snapshot → Option Generation → Bool → Registry × Outcome Staged
load_against s base none late = (s, fails Failure.invalid_local_package)
load_against s base (some candidate) late =
    elim (find_owner candidate.connector_id base.generations) [
      | some o ↦ (s, fails Failure.connector_already_active)
      | none ↦
          if late
          then (allocated s, cancelled)
          else stage (allocated s) (owned s candidate)
              (built s (load_owners (owned s candidate) base.generations))
    ]

-- `RequireCurrentBase` of a base with this address, where there is one.
unfoldable pub current_base : Registry → Option ℕ → Option Snapshot
current_base s none = none
current_base s (some base) = elim s.active [
  | none ↦ none
  | some active ↦ if active.address == base then some active else none
]

-- What the turn with the mutex goes on to.
unfoldable pub with_stage :
    Registry
    → Outcome Unit
    → Option ℕ
    → (Snapshot → Registry × Outcome Staged)
    → Registry × Outcome Staged
with_stage s (gives _) base run = elim (current_base s base) [
  | none ↦ (s, fails Failure.stale_base)
  | some active ↦ run active
]
with_stage s (fails f) base run = (s, fails f)
with_stage s (rejected c) base run = (s, rejected c)
with_stage s cancelled base run = (s, cancelled)
with_stage s waits base run = (s, waits)
with_stage s bad_stage base run = (s, bad_stage)

-- `StageLoad` from a turn of the wait for the mutex on. `late` is the caller's cancellation at the
-- end.
unfoldable pub stage_load :
    Registry → Bool → Bool → Option ℕ → Option Generation → Bool → Registry × Outcome Staged
stage_load s times_out cancels base candidate late =
    with_stage s (stage_turn s times_out cancels) base
      (λ active. load_against s active candidate late)

-- The end of `StageReload`, for a decision that changes something.
unfoldable pub replace_against : Registry → Snapshot → Generation → Bool → Registry × Outcome Staged
replace_against s base candidate late = elim (reload_owners (owned s candidate) base.generations) [
  | none ↦ (record s { next = s.next + 1 }, fails Failure.connector_not_active)
  | some owners ↦
      if late
      then (allocated s, cancelled)
      else stage (allocated s) (owned s candidate) (built s owners)
]

-- `StageReload` against the active snapshot. `early` and `late` are the caller's cancellation before
-- and after the new snapshot is built.
unfoldable pub reload_against :
    Registry → Snapshot → Option Generation → Decision → Bool → Bool → Registry × Outcome Staged
reload_against s base none decision early late = (s, fails Failure.invalid_local_package)
reload_against s base (some candidate) decision early late =
    elim (find_owner candidate.connector_id base.generations) [
      | none ↦ (s, fails Failure.connector_not_active)
      | some active ↦
          if not (same_text decision.connector_id candidate.connector_id)
            || not (matches_pair decision active.generation candidate)
          then (s, fails Failure.reload_decision_mismatch)
          else if not (is_compatible decision)
          then (s, rejected decision.classification)
          else if early
          then (s, cancelled)
          else if not (changed decision)
          then (s, staged_generation active base false)
          else replace_against s base candidate late
    ]

unfoldable pub stage_reload :
    Registry
    → Bool
    → Bool
    → Option ℕ
    → Option Generation
    → Decision
    → Bool
    → Bool
    → Registry × Outcome Staged
stage_reload s times_out cancels base candidate decision early late =
    with_stage s (stage_turn s times_out cancels) base
      (λ active. reload_against s active candidate decision early late)

-- `Commit` and `Discard` of a pending lease, whose target this is.
unfoldable pub commit : Registry → Snapshot → Registry
commit s target = record s { active = some target; locked = false }

unfoldable pub discard : Registry → Registry
discard s = record s { locked = false }

-- `Close`: its first store, and its end, which waits for the mutex.
unfoldable pub close_begins : Registry → Registry
close_begins s = record s { closing = true }

unfoldable pub close_ends : Registry → Registry
close_ends s = if s.locked then s else record s { active = none }

-- `Snapshot`
unfoldable pub snapshot : Registry → Outcome Snapshot
snapshot s =
    if s.closing
    then fails Failure.registry_closing
    else elim s.active [ none ↦ fails Failure.registry_closing | some active ↦ gives active ]
