-- ===== src/Generations.antt =====
-- The registry of active package generations, src/runtime/generation and its headers. A shared
-- pointer is its address, which `next` allocates; a snapshot that was compared equal to the active
-- one by address is the active one. A compiled local package that is not valid is none.
pub mod Text
pub mod Staging
pub mod Owners
pub mod Leases
pub mod Steps
pub mod Publication
pub mod Draining
mod Tests
use duckdb_fdw.Base.{
  ℕ, ◌+◌, ◌≡◌, Bool, true, false, ◌&&◌, ◌||◌, not, Option, none, some, List, [], ◌∷◌, ◌==◌,
  if◌then◌else◌,
}
use duckdb_fdw.Generations.Text.{same_text, less_text}

pub data Failure : Type 0 where
  registry_closing stale_base invalid_local_package connector_already_active : Failure
  connector_not_active reload_decision_mismatch reload_rejected : Failure

pub data Classification : Type 0 where
  exact_no_op compatible_provenance_patch compatible_provenance_minor : Classification
  compatible_append_only_minor rejected_package_identity incompatible_reload : Classification

-- A compiled generation: the address of its state, and the connector of its identity.
pub record Generation : Type 0 where
  pub handle : ℕ
  pub connector_id : List ℕ

pub record Decision : Type 0 where
  pub classification : Classification
  pub connector_id : List ℕ
  pub active_generation : ℕ
  pub candidate_generation : ℕ

-- `IsSuccessful`
unfoldable pub is_successful : Classification → Bool
is_successful Classification.rejected_package_identity = false
is_successful Classification.incompatible_reload = false
is_successful _ = true

-- `PackageReloadDecision::IsCompatible`, `Changed` and `Matches`.
abbrev pub is_compatible : Decision → Bool
is_compatible d = is_successful d.classification

unfoldable pub changes : Classification → Bool
changes Classification.compatible_provenance_patch = true
changes Classification.compatible_provenance_minor = true
changes Classification.compatible_append_only_minor = true
changes _ = false

abbrev pub changed : Decision → Bool
changed d = changes d.classification

abbrev pub matches_pair : Decision → Generation → Generation → Bool
matches_pair d active candidate =
    d.active_generation == active.handle && d.candidate_generation == candidate.handle

pub record Owner : Type 0 where
  pub address : ℕ
  pub generation : Generation

pub record Snapshot : Type 0 where
  pub address : ℕ
  pub generations : List Owner

-- `locked` is the publication mutex.
pub record Registry : Type 0 where
  pub closing : Bool
  pub locked : Bool
  pub active : Option Snapshot
  pub next : ℕ

abbrev pub owner_id : Owner → List ℕ
owner_id o = o.generation.connector_id

-- `RuntimeGenerationSnapshot::Find`
unfoldable pub find_owner : List ℕ → List Owner → Option Owner
find_owner id [] = none
find_owner id (o ∷ os) = if same_text (owner_id o) id then some o else find_owner id os

-- `LoadOwners`: the place that `std::lower_bound` finds in a sorted range.
unfoldable pub load_owners : Owner → List Owner → List Owner
load_owners candidate [] = candidate ∷ []
load_owners candidate (o ∷ os) =
    let rest = load_owners candidate os in
    if less_text (owner_id o) (owner_id candidate) then o ∷ rest else candidate ∷ o ∷ os

-- `ReloadOwners`; none is CONNECTOR_NOT_ACTIVE.
unfoldable pub reload_owners : Owner → List Owner → Option (List Owner)
reload_owners candidate [] = none
reload_owners candidate (o ∷ os) =
    let rest = reload_owners candidate os in
    if same_text (owner_id o) (owner_id candidate)
    then some (candidate ∷ os)
    else elim rest [ none ↦ none | some later ↦ some (o ∷ later) ]

-- How a call ends, or that it goes on waiting for the mutex; `bad_stage` is the std::invalid_argument
-- of the staged generation.
pub data Outcome (A : Type 0) : Type 0 where
  gives : A → Outcome A
  fails : Failure → Outcome A
  rejected : Classification → Outcome A
  cancelled : Outcome A
  waits : Outcome A
  bad_stage : Outcome A

-- `RuntimeStagedGeneration`; its lease is there where it is changed.
pub record Staged : Type 0 where
  pub owner : Owner
  pub target : Snapshot
  pub is_changed : Bool

abbrev pub create : Registry
create = record {
  closing = false;
  locked = false;
  active = some (record { address = 0; generations = [] });
  next = 1;
}
