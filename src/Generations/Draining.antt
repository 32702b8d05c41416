-- ===== src/Generations/Draining.antt =====
-- What `Close` does to the publications: RuntimeGenerationRegistry::Close of
-- src/runtime/generation/generation_registry.cpp against the calls of other threads.
use duckdb_fdw.Base.{◌≡◌, ◌⊎◌, true, ◌||◌, not, none, [], length}
use duckdb_fdw.Generations.Staging.{close_ends}
use duckdb_fdw.Generations.Leases.{has_active}
use duckdb_fdw.Generations.Steps.{System, Step}

-- The states that calls lead to from one of them.
pub data Later (a : System) : System → Type 0 where
  here : Later a a
  later : {b c : System} → Later a b → Step b c → Later a c

-- Nothing is added to a registry that is closing: the leases are those of before, or none, and there
-- is no active snapshot where there was none.
abbrev Drains : System → System → Type 0
Drains a b =
    (b.shared.closing ≡ true)
    × ((b.leases ≡ a.leases) ⊎ (b.leases ≡ []))
    × ((not (has_active b.shared.active) || has_active a.shared.active) ≡ true)

-- `Close` of a state: it waits for a lease, or drops the active snapshot.
abbrev pub CloseWaits : System → Type 0
CloseWaits b = (length b.leases ≡ 1) × (close_ends b.shared ≡ b.shared)

abbrev pub CloseEnds : System → Type 0
CloseEnds b = (b.leases ≡ []) × ((close_ends b.shared).active ≡ none)
