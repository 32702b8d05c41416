-- ===== src/Admission/Counts.antt =====
-- The count tables of src/runtime/execution/admission_controller.cpp: `KeyCount`, `CountFor`,
-- `AddCount` and `SubtractCount`, generic in the key as the templates are.
pub mod Laws
use duckdb_fdw.Base.{
  ℕ, ◌+◌, ◌-◌, ◌%◌, ◌<◌, ◌≡◌, ◌↔◌, Bool, true, false, ◌&&◌, List, [], ◌∷◌, ◌==◌, if◌then◌else◌,
  u64_mod,
}

-- What the templates use of a key type: `operator==` and `KeyHash`.
pub record CountKey {ℓ} (K : Type ℓ) : Type ℓ where
  pub beq : K → K → Bool
  pub hash : K → ℕ
  pub beq_iff : (a b : K) → (beq a b ≡ true) ↔ (a ≡ b)

pub record KeyCount {ℓ} (K : Type ℓ) : Type ℓ where
  pub hash : ℕ
  pub key : K
  pub count : ℕ

module _ {ℓ} {K : Type ℓ} ⦃k : CountKey K⦄ where
  -- entry.hash == hash && entry.key == key
  abbrev pub matches : KeyCount K → K → Bool
  matches e key = e.hash == k.hash key && k.beq e.key key

  unfoldable pub count_for : List (KeyCount K) → K → ℕ
  count_for [] key = 0
  count_for (e ∷ es) key = if matches e key then e.count else count_for es key

  unfoldable pub add_count : List (KeyCount K) → K → ℕ → List (KeyCount K)
  add_count [] key amount = record { hash = k.hash key; key = key; count = amount } ∷ []
  add_count (e ∷ es) key amount =
      if matches e key
      then record e { count = (e.count + amount) % u64_mod } ∷ es
      else e ∷ add_count es key amount

  -- The entry after the subtraction, erased when its count is zero.
  abbrev drop_zero : KeyCount K → List (KeyCount K) → List (KeyCount K)
  drop_zero e es = if e.count == 0 then es else e ∷ es

  unfoldable pub subtract_count : List (KeyCount K) → K → ℕ → List (KeyCount K)
  subtract_count [] key amount = []
  subtract_count (e ∷ es) key amount =
      if matches e key
      then drop_zero (record e { count = (e.count + u64_mod - amount) % u64_mod }) es
      else e ∷ subtract_count es key amount

  -- A table as `AddCount` and `SubtractCount` keep it: each hash is the hash of its key, no count
  -- passes a uint64_t, and no key has two entries.
  abbrev pub Fresh : K → List (KeyCount K) → Type 0
  Fresh key [] = Unit
  Fresh key (e ∷ es) = (k.beq e.key key ≡ false) × Fresh key es

  abbrev pub IsTable : List (KeyCount K) → Type 0
  IsTable [] = Unit
  IsTable (e ∷ es) = (e.hash ≡ k.hash e.key) × (e.count < u64_mod) × Fresh e.key es × IsTable es
