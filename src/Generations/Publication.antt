-- ===== src/Generations/Publication.antt =====
-- What a publication does to the connectors, and what stops one.
use duckdb_fdw.Base.{
  ℕ, ◌≡◌, ◌≢◌, ap, ◌∙◌, inl, inr, Bool, true, Option, none, some, List, ◌∷◌, ◌++◌, arith,
  if◌then◌else◌, Option-cases,
}
use duckdb_fdw.Generations.{
  Owner, Generation, Snapshot, Registry, Outcome, gives, fails, rejected, cancelled, waits,
  bad_stage, Staged, Decision, owner_id, find_owner, is_compatible, matches_pair,
}
use duckdb_fdw.Generations.Staging.{
  stage_turn, stage_load, stage_reload, reload_against, with_stage, current_base, commit,
}
use duckdb_fdw.Generations.Text.{same_text}
use duckdb_fdw.Generations.Leases.{
  IsStaged, stage_load-IsStaged, stage_reload-IsStaged, current_base-active,
}
use duckdb_fdw.Generations.Steps.{System, system, Reach, registry-Inv, IsLease-of}

-- The registry as a map from connectors to owners.
abbrev lookup_in : List ℕ → Option Snapshot → Option Owner
lookup_in id none = none
lookup_in id (some a) = find_owner id a.generations

abbrev pub lookup : List ℕ → Registry → Option Owner
lookup id s = lookup_in id s.active

-- As a map from connectors to owners, a commit changes the registry at the connector that was staged
-- and nowhere else, whatever was done since the staging.
pub commit-lookup :
    (s : Registry) (xs ys : List Staged) (g : Staged)
    → Reach (system s (xs ++ g ∷ ys))
    → (id : List ℕ)
    → lookup id (commit s g.target)
      ≡ (if same_text (owner_id g.owner) id then some g.owner else lookup id s)
unfolding commit
commit-lookup s xs ys g reach id =
    let v = registry-Inv (system s (xs ++ g ∷ ys)) reach in
    let (base, active, update) = (IsLease-of s xs ys g v.pending).1 in rw active (update.updates id)

staged_not_bad : (s : Registry) (r : Registry × Outcome Staged) → IsStaged s r → r.1 ≢ bad_stage
staged_not_bad s (t, gives g) v = ground arith
staged_not_bad s (t, fails f) v = v.4
staged_not_bad s (t, rejected c) v = v.4
staged_not_bad s (t, cancelled) v = v.4
staged_not_bad s (t, waits) v = v.4
staged_not_bad s (t, bad_stage) v = v.4

-- No staging on a reachable registry meets the std::invalid_argument of the staged generation: the
-- target always has the owner that it was built for.
pub stage-never_bad :
    (a : System)
    → Reach a
    → (times_out cancels : Bool) (base : Option ℕ) (candidate : Option Generation)
      (decision : Decision) (early late : Bool)
    → ((stage_load a.shared times_out cancels base candidate late).1 ≢ bad_stage)
      × ((stage_reload a.shared times_out cancels base candidate decision early late).1 ≢ bad_stage)
stage-never_bad a reach times_out cancels base candidate decision early late =
    let v = (registry-Inv a reach).active in
    let s = a.shared in
    (
      staged_not_bad s (stage_load s times_out cancels base candidate late)
          (stage_load-IsStaged s times_out cancels base candidate late v),
      staged_not_bad s (stage_reload s times_out cancels base candidate decision early late)
          (stage_reload-IsStaged s times_out cancels base candidate decision early late v),
    )

reload_against-accepts :
    (s : Registry) (base : Snapshot) (candidate : Generation) (decision : Decision)
    (early late : Bool) (g : Staged)
    → (reload_against s base (some candidate) decision early late).1 ≡ gives g
    → (is_compatible decision ≡ true)
      × (same_text decision.connector_id candidate.connector_id ≡ true)
      × ((o : Owner) × (find_owner candidate.connector_id base.generations ≡ some o)
          × (matches_pair decision o.generation candidate ≡ true))
unfolding reload_against
reload_against-accepts s base candidate decision early late g e =
    elim (Option-cases (find_owner candidate.connector_id base.generations)) [
      | inl absent ↦ ground (arith, e, absent)
      | inr (o, found) ↦
          let pair : (same_text decision.connector_id candidate.connector_id ≡ true)
              × (matches_pair decision o.generation candidate ≡ true) =
            ground (arith, e, found) in
          let fits : is_compatible decision ≡ true = ground (arith, e, found) in
          (fits, pair.0, (o, found, pair.1))
    ]

-- A reload is staged only under a compatible decision that names the candidate's connector and that
-- was made for the candidate and for the owner that is active for this connector.
pub stage_reload-decided :
    (s : Registry) (times_out cancels : Bool) (base : Option ℕ) (candidate : Generation)
    (decision : Decision) (early late : Bool) (g : Staged)
    → (stage_reload s times_out cancels base (some candidate) decision early late).1 ≡ gives g
    → (is_compatible decision ≡ true)
      × (same_text decision.connector_id candidate.connector_id ≡ true)
      × ((o : Owner) × (lookup candidate.connector_id s ≡ some o)
          × (matches_pair decision o.generation candidate ≡ true))
unfolding stage_reload with_stage stage_turn
stage_reload-decided s times_out cancels base candidate decision early late g e =
    elim (Option-cases (current_base s base)) [
      | inl absent ↦ ground (arith, e, absent)
      | inr (a, found) ↦
          let run : (reload_against s a (some candidate) decision early late).1 ≡ gives g =
            ground (arith, e, found) in
          let accepted = reload_against-accepts s a candidate decision early late g run in
          (
            accepted.0,
            accepted.1,
            (
              accepted.2.0,
              ap (lookup_in candidate.connector_id) (current_base-active s base a found)
                  ∙ accepted.2.1,
              accepted.2.2,
            ),
          )
    ]
