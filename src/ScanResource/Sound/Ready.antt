-- ===== src/ScanResource/Sound/Ready.antt =====
-- How `RequireReadyForNext` ends, and the methods that end with it.
use duckdb_fdw.Base.{
  ℕ, ◌<◌, ◌≡◌, refl, Bool, true, false, ◌⊎◌, inl, inr, arith, leb, not, if◌then◌else◌,
}
use duckdb_fdw.ScanResource.Types.{Phase, ready, page_decoded, exhausted, ok, Field, Account, Clock}
use duckdb_fdw.ScanResource.Account.{
  Run, fail, and_then, same_phase, require_ready_for_next, start_deadline, open_step, begin_step,
}
use duckdb_fdw.ScanResource.Charge.{released, complete_page}
use duckdb_fdw.ScanResource.Sound.{
  IsSound, Leaves, Leaves-if, Leaves-and_then, Ends, Ends-if, and_then-fail, and_then-ok,
  fail-IsSound, in_request, is_decoded, is_step_active, is_request_active, undecoded,
}

-- Every budget has something left.
abbrev pub HasBudget : Account → Type 0
HasBudget a =
    (a.counters.pages < a.profile.scan.pages)
    × (a.counters.request_attempts < a.profile.scan.request_attempts)
    × (a.counters.header_bytes < a.profile.scan.header_bytes)
    × (a.counters.wire_response_bytes < a.profile.scan.wire_response_bytes)
    × (a.counters.decompressed_response_bytes < a.profile.scan.decompressed_response_bytes)
    × (a.counters.decoded_records < a.profile.scan.decoded_records)

pub record ReadyEnd (a : Account) (r : Run (Unit {0})) : Type 0 where
  pub either : ((field : Field) × (r ≡ fail a field)) ⊎ ((r ≡ (a, ok tt)) × HasBudget a)

module _ (a : Account) where
  ReadyEnd-if :
      (b : Bool) (x y : Run (Unit {0}))
      → (b ≡ true → ReadyEnd a x)
      → (b ≡ false → ReadyEnd a y)
      → ReadyEnd a (if b then x else y)
  ReadyEnd-if true x y p q = p refl
  ReadyEnd-if false x y p q = q refl

  ReadyEnd-fail : (field : Field) → ReadyEnd a (fail a field)
  ReadyEnd-fail field = record { either = inl (field, refl) }

  ReadyEnd-ok :
      leb a.profile.scan.pages a.counters.pages ≡ false
      → leb a.profile.scan.request_attempts a.counters.request_attempts ≡ false
      → leb a.profile.scan.header_bytes a.counters.header_bytes ≡ false
      → leb a.profile.scan.wire_response_bytes a.counters.wire_response_bytes ≡ false
      → leb a.profile.scan.decompressed_response_bytes a.counters.decompressed_response_bytes
        ≡ false
      → leb a.profile.scan.decoded_records a.counters.decoded_records ≡ false
      → ReadyEnd a (a, ok tt)
  ReadyEnd-ok p q r s t u = record { either = inr (refl, ground arith) }

  pub require_ready_for_next-ReadyEnd : (now : ℕ) → ReadyEnd a (require_ready_for_next a now)
  unfolding require_ready_for_next
  require_ready_for_next-ReadyEnd now = search (ReadyEnd-if, ReadyEnd-fail, ReadyEnd-ok) depth 16

module _ (P : Account → Type 0) (a : Account) (now : ℕ) where
  pub Leaves-ready :
      (next : Account → Run (Unit {0}))
      → ((field : Field) → Leaves P (fail {A = Unit {0}} a field))
      → (HasBudget a → Leaves P (next a))
      → Leaves P (and_then (require_ready_for_next a now) next)
  Leaves-ready next f p = ended (require_ready_for_next-ReadyEnd a now).either
    where
      ended :
          ((field : Field) × (require_ready_for_next a now ≡ fail a field))
            ⊎ ((require_ready_for_next a now ≡ (a, ok tt)) × HasBudget a)
          → Leaves P (and_then (require_ready_for_next a now) next)
      ended (inl (field, e)) = rw (e, and_then-fail a next field) (f field)
      ended (inr (e, budget)) = rw (e, and_then-ok a next) (p budget)

  pub Leaves-ready_last :
      ((field : Field) → Leaves P (fail {A = Unit {0}} a field))
      → (HasBudget a → P a)
      → Leaves P (require_ready_for_next a now)
  Leaves-ready_last f p = ended (require_ready_for_next-ReadyEnd a now).either
    where
      ended :
          ((field : Field) × (require_ready_for_next a now ≡ fail a field))
            ⊎ ((require_ready_for_next a now ≡ (a, ok tt)) × HasBudget a)
          → Leaves P (require_ready_for_next a now)
      ended (inl (field, e)) = rw e (f field)
      ended (inr (e, budget)) = rw e (record { left = p budget })

open_step-IsSound :
    (a : Account)
    → IsSound a
    → HasBudget a
    → same_phase a.state ready ≡ true
    → IsSound (open_step a)
unfolding in_request is_decoded is_step_active is_request_active undecoded same_phase
open_step-IsSound a v budget at = record { fits = v.fits; in_phase = ground (arith, v.in_phase) }

released-IsSound :
    (a : Account) (next : Phase)
    → IsSound a
    → same_phase a.state page_decoded ≡ true
    → (next ≡ ready) ⊎ (next ≡ exhausted)
    → IsSound (released a next)
unfolding in_request is_decoded is_step_active is_request_active undecoded same_phase
released-IsSound a next v from at = record {
  fits = ground (arith, v.fits);
  in_phase = ground (arith, v.in_phase);
}

abbrev SoundAndReady : Account → Type 0
SoundAndReady a = IsSound a × (same_phase a.state ready ≡ true)

module _ (k : Clock) (a : Account) (now : ℕ) (v : IsSound a) where
  throws_wall : Ends IsSound SoundAndReady (fail {A = Unit {0}} a Field.wall_milliseconds)
  unfolding fail
  throws_wall = record { ends = (fail-IsSound {A = Unit {0}} a Field.wall_milliseconds v).left }

  already : same_phase a.state ready ≡ true → Ends {A = Unit {0}} IsSound SoundAndReady (a, ok tt)
  already at = record { ends = (v, at) }

  started :
      (d : ℕ)
      → same_phase a.state ready ≡ true
      → Ends {A = Unit {0}} IsSound SoundAndReady
          (record a { deadline = d; deadline_started = true }, ok tt)
  started d at = record { ends = (record { fits = v.fits; in_phase = v.in_phase }, at) }

  start_deadline-Ends :
      same_phase a.state ready ≡ true → Ends IsSound SoundAndReady (start_deadline k a now)
  unfolding start_deadline
  start_deadline-Ends at = search (Ends-if, throws_wall, already, started) depth 8

  opened :
      (b : Account)
      → SoundAndReady b
      → Leaves {A = Unit {0}} IsSound
          (and_then (require_ready_for_next b now) λ c. (open_step c, ok tt))
  opened b (w, at) =
      Leaves-ready IsSound b now (λ c. (open_step c, ok tt)) (λ field. fail-IsSound b field w)
        (λ budget. record { left = open_step-IsSound b w budget at })

  begun :
      not (same_phase a.state ready) ≡ false
      → Leaves {A = Unit {0}} IsSound (
          and_then
            (start_deadline k a now)
            λ b. and_then (require_ready_for_next b now) λ c. (open_step c, ok tt))
  begun at = Leaves-and_then IsSound SoundAndReady _ _ (start_deadline-Ends (ground arith)) opened

  pub begin_step-IsSound : IsSound (begin_step k a now).0
  unfolding begin_step
  begin_step-IsSound = leaves.left
    where
      leaves : Leaves IsSound (begin_step k a now)
      leaves = search (Leaves-if, fail-IsSound, begun) depth 8

module _ (a : Account) (has_next : Bool) (now : ℕ) (v : IsSound a) where
  ended_at :
      (next : Phase)
      → not (same_phase a.state page_decoded) ≡ false
      → (next ≡ ready) ⊎ (next ≡ exhausted)
      → IsSound (released a next)
  ended_at next from to = released-IsSound a next v (ground arith) to

  exhausts :
      not (same_phase a.state page_decoded) ≡ false
      → Leaves {A = Unit {0}} IsSound (released a exhausted, ok tt)
  exhausts from = record { left = ended_at exhausted from (inr refl) }

  goes_on :
      not (same_phase a.state page_decoded) ≡ false
      → Leaves IsSound (require_ready_for_next (released a ready) now)
  goes_on from =
      Leaves-ready_last IsSound (released a ready) now
        (λ field. fail-IsSound (released a ready) field (ended_at ready from (inl refl)))
        (λ budget. ended_at ready from (inl refl))

  pub complete_page-IsSound : IsSound (complete_page a has_next now).0
  unfolding complete_page
  complete_page-IsSound = leaves.left
    where
      leaves : Leaves IsSound (complete_page a has_next now)
      leaves = search (Leaves-if, fail-IsSound, exhausts, goes_on) depth 8
