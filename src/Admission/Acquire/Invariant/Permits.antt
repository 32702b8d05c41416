-- ===== src/Admission/Acquire/Invariant/Permits.antt =====
-- Releasing a permit and resizing one keep the invariant.
use duckdb_fdw.Base.{
  ℕ, ◌-◌, ◌≡◌, refl, Bool, true, false, ◌&&◌, ◌||◌, not, List, ◌∷◌, ◌++◌, arith, ◌==◌, ltb, ltb→lt,
  ltb→ge, if◌then◌else◌,
}
use duckdb_fdw.Admission.Identity.{Hasher, Identity}
use duckdb_fdw.Admission.Usage.{empty_observation, check_fits, add_usage, subtract_usage}
use duckdb_fdw.Admission.Usage.Fits.{check_fits-HasRoom}
use duckdb_fdw.Admission.Profile.{ResourceKind}
use duckdb_fdw.Admission.Controller.{
  PermitHandle, SharedState, same_resource, set_resource, has_scope,
}
use duckdb_fdw.Admission.Controller.Tickets.{permit_weight, resource_load_split}
use duckdb_fdw.Admission.Controller.Grant.{has_scope_none}
use duckdb_fdw.Admission.Acquire.{acquired, Outcome, finished, resize_buffered_bytes, release}
use duckdb_fdw.Admission.Acquire.Invariant.Defs.{Inv}
use duckdb_fdw.Admission.Acquire.Invariant.Parts.{system, same_resource_eq, Inv-take, Inv-give}
use duckdb_fdw.Admission.Acquire.Invariant.Queues.{grant_eligible-Inv}

pub record SoundResize (h : Hasher) (xs ys : List PermitHandle)
    (o : SharedState × PermitHandle × Outcome) : Type 0 where
  pub inv : Inv h (system h o.0 (xs ++ o.1 ∷ ys))

module _ (h : Hasher) (s : SharedState) (xs : List PermitHandle) (p : PermitHandle)
    (ys : List PermitHandle) (v : Inv h (system h s (xs ++ p ∷ ys))) where
  pub release-Inv : (granting : ℕ) → Inv h (system h (release h s p granting) (xs ++ ys))
  unfolding release
  release-Inv granting = grant_eligible-Inv h _ (xs ++ ys) p.resource granting (
      Inv-give h s (xs ++ p ∷ ys) (xs ++ ys) s.granted p.resource p.identity p.amount
        (λ r select. resource_load_split r select xs p ys s.granted) v)

  abbrev resized : ℕ → PermitHandle
  resized bytes = record p { amount = bytes }

  SoundResize-if :
      (b : Bool) (x y : SharedState × PermitHandle × Outcome)
      → (b ≡ true → SoundResize h xs ys x)
      → (b ≡ false → SoundResize h xs ys y)
      → SoundResize h xs ys (if b then x else y)
  SoundResize-if true x y f g = f refl
  SoundResize-if false x y f g = g refl

  SoundResize-same : (o : Outcome) → SoundResize h xs ys (s, p, o)
  SoundResize-same o = record { inv = v }

  module _ (bytes : ℕ)
      (of_bytes : same_resource p.resource ResourceKind.buffered_bytes ≡ true) where
    -- The weight of the permit on a resource is its amount on the buffered bytes.
    resized_weight :
        (r : ResourceKind) (select : Identity → Bool)
        → permit_weight r select p ≡ (
            if same_resource ResourceKind.buffered_bytes r && select p.identity
            then p.amount
            else 0)
    resized_weight r select = rw (same_resource_eq _ _ of_bytes) refl

    shrunk :
        ltb bytes p.amount ≡ true
        → SoundResize h xs ys (
          record s {
            resources = set_resource s.resources ResourceKind.buffered_bytes (
                subtract_usage h
                  (s.resources ResourceKind.buffered_bytes)
                  p.identity
                  (p.amount - bytes));
          },
          resized bytes,
          finished acquired empty_observation,
        )
    shrunk less = record {
      inv =
          Inv-give h s (xs ++ p ∷ ys) (xs ++ resized bytes ∷ ys) s.granted
            ResourceKind.buffered_bytes p.identity (p.amount - bytes)
            (λ r select. ground (
              arith,
              resource_load_split r select xs p ys s.granted,
              resource_load_split r select xs (resized bytes) ys s.granted,
              ltb→lt bytes p.amount less,
              same_resource_eq _ _ of_bytes,
            ))
            v;
    }

    grown :
        ltb bytes p.amount ≡ false
        → has_scope (
            check_fits h
              (s.resources ResourceKind.buffered_bytes)
              p.identity
              (bytes - p.amount)
              s.profile.buffered_bytes)
          ≡ false
        → SoundResize h xs ys (
          record s {
            resources = set_resource s.resources ResourceKind.buffered_bytes (
                add_usage h
                  (s.resources ResourceKind.buffered_bytes)
                  p.identity
                  (bytes - p.amount));
          },
          resized bytes,
          finished acquired empty_observation,
        )
    grown more fits = record {
      inv =
          Inv-take h s (xs ++ p ∷ ys) (xs ++ resized bytes ∷ ys) ResourceKind.buffered_bytes
            p.identity (bytes - p.amount)
            (λ r select. ground (
              arith,
              resource_load_split r select xs p ys s.granted,
              resource_load_split r select xs (resized bytes) ys s.granted,
              ltb→ge bytes p.amount more,
              same_resource_eq _ _ of_bytes,
            ))
            (check_fits-HasRoom h _ p.identity _ _ (v.resources ResourceKind.buffered_bytes)
              (has_scope_none _ fits))
            v;
    }

  of_bytes_when_valid :
      (bytes : ℕ)
      → (bytes == 0 || not (same_resource p.resource ResourceKind.buffered_bytes)) ≡ false
      → same_resource p.resource ResourceKind.buffered_bytes ≡ true
  of_bytes_when_valid bytes valid = ground arith

  pub resize-Inv : (bytes : ℕ) → SoundResize h xs ys (resize_buffered_bytes h s p bytes)
  unfolding resize_buffered_bytes
  resize-Inv bytes =
      search (SoundResize-if, SoundResize-same, shrunk, grown, of_bytes_when_valid bytes) depth 14
