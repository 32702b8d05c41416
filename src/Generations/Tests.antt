-- ===== src/Generations/Tests.antt =====
-- The generation registry at concrete inputs.
use duckdb_fdw.Base.{◌≡◌, ◌≢◌, refl, sym, true, false, some, [], ◌∷◌, ◌++◌, if◌then◌else◌}
use duckdb_fdw.Generations.{
  Owner, Generation, Snapshot, Registry, gives, bad_stage, Staged, Decision, Classification,
  find_owner, load_owners, reload_owners, is_successful, is_compatible, changes, matches_pair,
  create,
}
use duckdb_fdw.Generations.Staging.{
  stage_turn, stage, load_against, replace_against, reload_against, with_stage, current_base,
  stage_load, stage_reload, commit, staged_generation, with_lease,
}
use duckdb_fdw.Generations.Text.{same_text}
use duckdb_fdw.Generations.Steps.{
  System, system, after, loads, commits, Reach, starts, steps, Inv, registry-Inv,
}
use duckdb_fdw.Generations.Publication.{
  lookup, commit-lookup, stage-never_bad, stage_reload-decided,
}

abbrev github : Generation
github = record { handle = 10; connector_id = b'g' ∷ [] }

abbrev newer_github : Generation
newer_github = record { handle = 11; connector_id = b'g' ∷ [] }

abbrev decision : Decision
decision = record {
  classification = Classification.compatible_provenance_patch;
  connector_id = b'g' ∷ [];
  active_generation = 10;
  candidate_generation = 11;
}

abbrev github_owner : Owner
github_owner = record { address = 1; generation = github }

abbrev github_snapshot : Snapshot
github_snapshot = record { address = 2; generations = github_owner ∷ [] }

abbrev load_lease : Staged
load_lease = record { owner = github_owner; target = github_snapshot; is_changed = true }

abbrev staged : System
staged = after [] (stage_load create false false (some 0) (some github) false)

abbrev loading : Registry
loading = record {
  closing = false;
  locked = true;
  active = some (record { address = 0; generations = [] });
  next = 3;
}

staged-loading : staged ≡ system loading (load_lease ∷ [])
unfolding stage_load stage_turn with_stage current_base load_against find_owner load_owners stage
    staged_generation with_lease same_text
staged-loading = refl

staged-Reach : Reach staged
staged-Reach =
    steps (system create []) staged starts
      (loads create [] false false (some 0) (some github) false)

loading-Reach : Reach (system loading ([] ++ load_lease ∷ []))
loading-Reach = rw (sym staged-loading) staged-Reach

abbrev loaded : Registry
loaded = record { closing = false; locked = false; active = some github_snapshot; next = 3 }

loaded-Reach : Reach (system loaded [])
unfolding commit
loaded-Reach =
    steps (system loading (load_lease ∷ [])) (system loaded []) loading-Reach
      (commits loading [] [] load_lease)

registry-Inv_example : Inv loading (load_lease ∷ [])
registry-Inv_example = registry-Inv (system loading (load_lease ∷ [])) loading-Reach

commit-lookup_example :
    lookup (b'g' ∷ []) (commit loading github_snapshot)
    ≡ (if same_text (b'g' ∷ []) (b'g' ∷ []) then some github_owner else lookup (b'g' ∷ []) loading)
commit-lookup_example = commit-lookup loading [] [] load_lease loading-Reach (b'g' ∷ [])

stage-never_bad_example :
    ((stage_load loaded false false (some 2) (some newer_github) false).1 ≢ bad_stage)
    × ((stage_reload loaded false false (some 2) (some newer_github) decision false false).1
        ≢ bad_stage)
stage-never_bad_example =
    stage-never_bad (system loaded []) loaded-Reach false false (some 2) (some newer_github)
      decision false false

abbrev closing : Registry
closing = record loading { closing = true }

abbrev closed : Registry
closed = record loaded { closing = true }

abbrev reloaded : Staged
reloaded = record {
  owner = record { address = 3; generation = newer_github };
  target = record {
    address = 4;
    generations = record { address = 3; generation = newer_github } ∷ [];
  };
  is_changed = true;
}

reloads_github :
    (stage_reload loaded false false (some 2) (some newer_github) decision false false).1
    ≡ gives reloaded
unfolding stage_reload stage_turn with_stage current_base reload_against replace_against find_owner
    reload_owners stage staged_generation with_lease same_text is_successful changes
reloads_github = refl

stage_reload-decided_example :
    (is_compatible decision ≡ true)
    × (same_text decision.connector_id newer_github.connector_id ≡ true)
    × ((o : Owner) × (lookup newer_github.connector_id loaded ≡ some o)
        × (matches_pair decision o.generation newer_github ≡ true))
stage_reload-decided_example =
    stage_reload-decided loaded false false (some 2) newer_github decision false false reloaded
      reloads_github
