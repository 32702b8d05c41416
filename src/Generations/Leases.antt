-- ===== src/Generations/Leases.antt =====
-- The publication lease: what a staged generation is of the active snapshot, and what each call does
-- to the invariant.
use duckdb_fdw.Base.{
  ℕ, ◌≤◌, ◌<◌, ◌≡◌, ◌≢◌, refl, ◌∙◌, subst, inl, inr, Bool, true, false, not, ◌||◌, Option, none,
  some, List, arith, if◌then◌else◌, Bool-cases, Option-cases, ◌==◌,
}
use duckdb_fdw.Generations.{
  Owner, Generation, Snapshot, Registry, Outcome, gives, fails, rejected, cancelled, waits,
  bad_stage, Staged, Decision, owner_id, find_owner, load_owners, reload_owners, is_compatible,
  changed, matches_pair,
}
use duckdb_fdw.Generations.Staging.{
  stage_turn, staged_generation, with_lease, stage, owned, built, allocated, load_against,
  current_base, with_stage, stage_load, replace_against, reload_against, stage_reload,
}
use duckdb_fdw.Generations.Text.{same_text, same_text_iff}
use duckdb_fdw.Generations.Owners.{
  IsSorted, find-load_owners, find-reload_owners, IsSorted-load_owners, IsSorted-reload_owners,
  reload_owners-found, find_owner_self,
}

-- A snapshot that has its owners in order, at an address that was given out.
pub record IsSnapshot (next : ℕ) (a : Snapshot) : Type 0 where
  pub sorted : IsSorted a.generations
  pub given : a.address < next

-- A target that differs from the base in the owner of one connector.
pub record IsUpdate (base target : Snapshot) (o : Owner) : Type 0 where
  pub updates :
      (id : List ℕ)
      → find_owner id target.generations
        ≡ (if same_text (owner_id o) id then some o else find_owner id base.generations)

-- What a call that staged did to the mutex, and with it to the lease.
abbrev pub IsGrant : Registry → Registry → Staged → Bool → Type 0
IsGrant s t g true =
    (t.locked ≡ true)
    × (s.locked ≡ false)
    × IsSnapshot t.next g.target
    × ((a : Snapshot) × (s.active ≡ some a) × IsUpdate a g.target g.owner)
IsGrant s t g false = t.locked ≡ s.locked

-- A call that staged: nothing changed, or a lease on an update of the active snapshot.
abbrev pub IsStaged : Registry → Registry × Outcome Staged → Type 0
IsStaged s (t, gives g) =
    IsGrant s t g g.is_changed × (t.active ≡ s.active) × (t.closing ≡ s.closing) × (s.next ≤ t.next)
IsStaged s (t, o) =
    (t.locked ≡ s.locked)
    × (t.active ≡ s.active)
    × (t.closing ≡ s.closing)
    × (s.next ≤ t.next)
    × (o ≢ bad_stage)

-- The constructor finds the owner that it is given.
staged_generation-found :
    (owner : Owner) (target : Snapshot) (is_changed : Bool)
    → find_owner (owner_id owner) target.generations ≡ some owner
    → staged_generation owner target is_changed
      ≡ gives (record { owner = owner; target = target; is_changed = is_changed })
unfolding staged_generation
staged_generation-found owner target is_changed found =
    let here : (owner.address == owner.address) ≡ true = ground arith in
    rw (found, staged_generation) (rw here refl)

stage-IsStaged :
    (s : Registry) (base : Snapshot) (candidate : Generation) (owners : List Owner)
    → s.active ≡ some base
    → s.locked ≡ false
    → IsSorted owners
    → IsUpdate base (built s owners) (owned s candidate)
    → IsStaged s (stage (allocated s) (owned s candidate) (built s owners))
unfolding stage with_lease
stage-IsStaged s base candidate owners active free sorted update =
    let self : same_text candidate.connector_id candidate.connector_id ≡ true =
      (same_text_iff candidate.connector_id candidate.connector_id).1 refl in
    let found : find_owner candidate.connector_id owners ≡ some (owned s candidate) =
      update.updates candidate.connector_id ∙ rw self refl in
    rw (staged_generation-found (owned s candidate) (built s owners) true found, stage)
      (
        (refl, free, record { sorted = sorted; given = omega arith }, (base, active, update)),
        refl,
        refl,
        omega arith,
      )

load_against-IsStaged :
    (s : Registry) (base : Snapshot) (candidate : Option Generation) (late : Bool)
    → s.active ≡ some base
    → s.locked ≡ false
    → IsSorted base.generations
    → IsStaged s (load_against s base candidate late)
unfolding load_against
load_against-IsStaged s base none late active free sorted =
    (refl, refl, refl, omega arith, ground arith)
load_against-IsStaged s base (some candidate) late active free sorted =
    elim (Option-cases (find_owner candidate.connector_id base.generations)) [
      | inr (o, found) ↦ rw (found, load_against) (refl, refl, refl, omega arith, ground arith)
      | inl absent ↦ elim (Bool-cases late) [
        | inl late' ↦ rw (absent, late', load_against) (refl, refl, refl, omega arith, ground arith)
        | inr on_time ↦
            rw (absent, on_time, load_against)
              (stage-IsStaged s base candidate (load_owners (owned s candidate) base.generations)
                active free
                (IsSorted-load_owners (owned s candidate) base.generations absent sorted)
                (record {
                  updates = λ id. find-load_owners id (owned s candidate) base.generations;
                }))
      ]
    ]

replace_against-IsStaged :
    (s : Registry) (base : Snapshot) (candidate : Generation) (o : Owner) (late : Bool)
    → s.active ≡ some base
    → s.locked ≡ false
    → IsSorted base.generations
    → find_owner candidate.connector_id base.generations ≡ some o
    → IsStaged s (replace_against s base candidate late)
unfolding replace_against
replace_against-IsStaged s base candidate o late active free sorted found =
    elim (Option-cases (reload_owners (owned s candidate) base.generations)) [
      | inl absent ↦
          elim (reload_owners-found (owned s candidate) o base.generations found absent) [ ]
      | inr (owners, replaced) ↦ elim (Bool-cases late) [
        | inl late' ↦
            rw (replaced, late', replace_against) (refl, refl, refl, omega arith, ground arith)
        | inr on_time ↦
            rw (replaced, on_time, replace_against)
              (stage-IsStaged s base candidate owners active free
                (IsSorted-reload_owners (owned s candidate) base.generations owners replaced sorted)
                (record {
                  updates = λ id.
                      find-reload_owners id (owned s candidate) base.generations owners replaced;
                }))
      ]
    ]

reload_against-IsStaged :
    (s : Registry) (base : Snapshot) (candidate : Option Generation) (decision : Decision)
    (early late : Bool)
    → s.active ≡ some base
    → s.locked ≡ false
    → IsSorted base.generations
    → IsStaged s (reload_against s base candidate decision early late)
unfolding reload_against
reload_against-IsStaged s base none decision early late active free sorted =
    (refl, refl, refl, omega arith, ground arith)
reload_against-IsStaged s base (some candidate) decision early late active free sorted =
    elim (Option-cases (find_owner candidate.connector_id base.generations)) [
      | inl absent ↦ rw (absent, reload_against) (refl, refl, refl, omega arith, ground arith)
      | inr (o, found) ↦
          elim (Bool-cases (
            not (same_text decision.connector_id candidate.connector_id)
            || not (matches_pair decision o.generation candidate))) [
              | inl other ↦
                  rw (found, other, reload_against) (refl, refl, refl, omega arith, ground arith)
              | inr pair ↦ elim (Bool-cases (is_compatible decision)) [
                | inr bad ↦
                    rw (found, pair, bad, reload_against)
                      (refl, refl, refl, omega arith, ground arith)
                | inl fits ↦ elim (Bool-cases early) [
                  | inl early' ↦
                      rw (found, pair, fits, early', reload_against)
                        (refl, refl, refl, omega arith, ground arith)
                  | inr going ↦ elim (Bool-cases (changed decision)) [
                    | inr same ↦
                        rw (found, pair, fits, going, same, reload_against)
                          (rw
                            (staged_generation-found o base false
                              (find_owner_self candidate.connector_id base.generations o found))
                            (refl, refl, refl, omega arith))
                    | inl new ↦
                        rw (found, pair, fits, going, new, reload_against)
                          (replace_against-IsStaged s base candidate o late active free sorted
                            found)
                  ]
                ]
              ]
            ]
    ]

pub current_base-active :
    (s : Registry) (base : Option ℕ) (a : Snapshot)
    → current_base s base ≡ some a
    → s.active ≡ some a
unfolding current_base
current_base-active s none a e = ground (arith, e)
current_base-active s (some base) a e = elim (Option-cases s.active) [
  | inl absent ↦ ground (arith, e, absent)
  | inr (b, active) ↦ elim (Bool-cases (b.address == base)) [
    | inl same ↦ ground (arith, e, active, same)
    | inr other ↦ ground (arith, e, active, other)
  ]
]

-- The snapshot that is active, where there is one.
abbrev pub IsActive : ℕ → Option Snapshot → Type 0
IsActive next none = Unit
IsActive next (some a) = IsSnapshot next a

abbrev pub has_active : Option Snapshot → Bool
has_active none = false
has_active (some a) = true

pub IsActive-IsSnapshot :
    (next : ℕ) (o : Option Snapshot) (a : Snapshot)
    → IsActive next o
    → o ≡ some a
    → IsSnapshot next a
IsActive-IsSnapshot next o a v e = subst (IsActive next) e v

abbrev Run : Type 0
Run = Snapshot → Registry × Outcome Staged

with_stage-IsStaged :
    (s : Registry) (turn : Outcome Unit) (base : Option ℕ) (run : Run)
    → turn ≢ bad_stage
    → ((a : Snapshot) → turn ≡ gives tt → s.active ≡ some a → IsStaged s (run a))
    → IsStaged s (with_stage s turn base run)
unfolding with_stage
with_stage-IsStaged s (gives tt) base run ok staged = elim (Option-cases (current_base s base)) [
  | inl absent ↦ rw (absent, with_stage) (refl, refl, refl, omega arith, ground arith)
  | inr (a, found) ↦ rw (found, with_stage) (staged a refl (current_base-active s base a found))
]
with_stage-IsStaged s (fails f) base run ok staged = (refl, refl, refl, omega arith, ground arith)
with_stage-IsStaged s (rejected c) base run ok staged =
    (refl, refl, refl, omega arith, ground arith)
with_stage-IsStaged s cancelled base run ok staged = (refl, refl, refl, omega arith, ground arith)
with_stage-IsStaged s waits base run ok staged = (refl, refl, refl, omega arith, ground arith)
with_stage-IsStaged s bad_stage base run ok staged = elim (ok refl) [ ]

stage_turn-not_bad :
    (s : Registry) (times_out cancels : Bool) → stage_turn s times_out cancels ≢ bad_stage
unfolding stage_turn
stage_turn-not_bad s times_out cancels = ground arith

pub stage_turn-free :
    (s : Registry) (times_out cancels : Bool)
    → stage_turn s times_out cancels ≡ gives tt
    → (s.locked ≡ false) × (s.closing ≡ false) × (cancels ≡ false)
unfolding stage_turn
stage_turn-free s times_out cancels e = ground (arith, e)

pub stage_load-IsStaged :
    (s : Registry) (times_out cancels : Bool) (base : Option ℕ) (candidate : Option Generation)
    (late : Bool)
    → IsActive s.next s.active
    → IsStaged s (stage_load s times_out cancels base candidate late)
unfolding stage_load
stage_load-IsStaged s times_out cancels base candidate late v =
    with_stage-IsStaged s (stage_turn s times_out cancels) base
      (λ a. load_against s a candidate late) (stage_turn-not_bad s times_out cancels)
      (λ a e active.
        load_against-IsStaged s a candidate late active (stage_turn-free s times_out cancels e).0
          (IsActive-IsSnapshot s.next s.active a v active).sorted)

pub stage_reload-IsStaged :
    (s : Registry) (times_out cancels : Bool) (base : Option ℕ) (candidate : Option Generation)
    (decision : Decision) (early late : Bool)
    → IsActive s.next s.active
    → IsStaged s (stage_reload s times_out cancels base candidate decision early late)
unfolding stage_reload
stage_reload-IsStaged s times_out cancels base candidate decision early late v =
    with_stage-IsStaged s (stage_turn s times_out cancels) base
      (λ a. reload_against s a candidate decision early late)
      (stage_turn-not_bad s times_out cancels)
      (λ a e active.
        reload_against-IsStaged s a candidate decision early late active
          (stage_turn-free s times_out cancels e).0
          (IsActive-IsSnapshot s.next s.active a v active).sorted)
