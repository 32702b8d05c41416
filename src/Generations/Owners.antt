-- ===== src/Generations/Owners.antt =====
-- The owners of a snapshot as a map from connectors: what the two updates do to it.
use duckdb_fdw.Base.{
  ℕ, ◌≡◌, refl, sym, ap, ◌∙◌, subst, ◌⊎◌, ◌≢◌, inl, inr, true, none, some, List, [], ◌∷◌, arith,
  All, if◌then◌else◌, Bool-cases, Option-cases,
}
use duckdb_fdw.Generations.{Owner, owner_id, find_owner, load_owners, reload_owners}
use duckdb_fdw.Generations.Text.{
  same_text, same_text_iff, less_text, less_text_trans, less_text_total, less_text_irrefl,
}

same_through : (a b c : List ℕ) → same_text a b ≡ true → same_text a c ≡ same_text b c
same_through a b c e = ap (λ x. same_text x c) ((same_text_iff a b).0 e)

same_sym : (a b : List ℕ) → same_text a b ≡ same_text b a
same_sym a b = ground (
  arith,
  same_through a b a,
  same_through b a b,
  (same_text_iff a a).1 refl,
  (same_text_iff b b).1 refl,
)

-- The owners stand in the order of their connectors, no connector twice.
abbrev pub IsAfter : List ℕ → List Owner → Type 0
IsAfter id = All (λ o. less_text id (owner_id o) ≡ true)

abbrev pub IsSorted : List Owner → Type 0
IsSorted [] = Unit
IsSorted (o ∷ os) = IsAfter (owner_id o) os × IsSorted os

pub find-load_owners :
    (id : List ℕ) (c : Owner) (os : List Owner)
    → find_owner id (load_owners c os)
      ≡ (if same_text (owner_id c) id then some c else find_owner id os)
unfolding find_owner load_owners
find-load_owners id c [] = refl
find-load_owners id c (o ∷ os) = ground (
  arith,
  find-load_owners id c os,
  same_through (owner_id c) id (owner_id o),
  same_sym (owner_id o) id,
  same_sym (owner_id c) (owner_id o),
  less_text_irrefl (owner_id o) (owner_id c),
)

pub find-reload_owners :
    (id : List ℕ) (c : Owner) (os later : List Owner)
    → reload_owners c os ≡ some later
    → find_owner id later ≡ (if same_text (owner_id c) id then some c else find_owner id os)
unfolding find_owner reload_owners
find-reload_owners id c [] later e = ground (arith, e)
find-reload_owners id c (o ∷ os) later e = elim (Bool-cases (same_text (owner_id o) (owner_id c))) [
  | inl same ↦ ground (arith, e, same, same_through (owner_id o) (owner_id c) id)
  | inr other ↦ elim (Option-cases (reload_owners c os)) [
    | inl absent ↦ ground (arith, e, other, absent)
    | inr (rest, found) ↦ ground (
      arith,
      e,
      other,
      found,
      find-reload_owners id c os rest found,
      same_through (owner_id c) id (owner_id o),
      same_sym (owner_id o) id,
      same_sym (owner_id c) (owner_id o),
    )
  ]
]

IsAfter-load_owners :
    (id : List ℕ) (c : Owner) (os : List Owner)
    → less_text id (owner_id c) ≡ true
    → IsAfter id os
    → IsAfter id (load_owners c os)
unfolding load_owners
IsAfter-load_owners id c [] h a = (h, tt)
IsAfter-load_owners id c (o ∷ os) h a = ground (arith, h, a, IsAfter-load_owners id c os h a.1)

IsAfter-below :
    (id low : List ℕ) (os : List Owner) → less_text low id ≡ true → IsAfter id os → IsAfter low os
IsAfter-below id low [] h a = tt
IsAfter-below id low (o ∷ os) h a =
    (less_text_trans low id (owner_id o) h a.0, IsAfter-below id low os h a.1)

pub IsSorted-load_owners :
    (c : Owner) (os : List Owner)
    → find_owner (owner_id c) os ≡ none
    → IsSorted os
    → IsSorted (load_owners c os)
unfolding find_owner load_owners
IsSorted-load_owners c [] e s = (tt, tt)
IsSorted-load_owners c (o ∷ os) e s = elim (Bool-cases (less_text (owner_id o) (owner_id c))) [
  | inl before ↦ rw before (
    IsAfter-load_owners (owner_id o) c os before s.0,
    IsSorted-load_owners c os (ground (arith, e)) s.1,
  )
  | inr after ↦
      let low = less_text_total (owner_id o) (owner_id c) after (ground (arith, e)) in
      rw after ((low, IsAfter-below (owner_id o) (owner_id c) os low s.0), s)
]

same_after :
    (low : List ℕ) (o c : Owner)
    → same_text (owner_id o) (owner_id c) ≡ true
    → less_text low (owner_id o) ≡ true
    → less_text low (owner_id c) ≡ true
same_after low o c same h =
    ap (less_text low) (sym ((same_text_iff (owner_id o) (owner_id c)).0 same)) ∙ h

-- The two shapes of the owners after a reload.
reload_owners-cases :
    (c o : Owner) (os later : List Owner)
    → reload_owners c (o ∷ os) ≡ some later
    → ((same_text (owner_id o) (owner_id c) ≡ true) × (c ∷ os ≡ later))
      ⊎ ((rest : List Owner) × (reload_owners c os ≡ some rest) × (o ∷ rest ≡ later))
unfolding reload_owners
reload_owners-cases c o os later e = elim (Bool-cases (same_text (owner_id o) (owner_id c))) [
  | inl same ↦ inl (same, ground (arith, e, same))
  | inr other ↦ elim (Option-cases (reload_owners c os)) [
    | inl absent ↦ ground (arith, e, other, absent)
    | inr (rest, found) ↦ inr (rest, found, ground (arith, e, other, found))
  ]
]

IsAfter-reload_owners :
    (id : List ℕ) (c : Owner) (os later : List Owner)
    → reload_owners c os ≡ some later
    → IsAfter id os
    → IsAfter id later
unfolding reload_owners
IsAfter-reload_owners id c [] later e a = ground (arith, e)
IsAfter-reload_owners id c (o ∷ os) later e a = elim (reload_owners-cases c o os later e) [
  | inl (same, shape) ↦ subst (IsAfter id) shape (same_after id o c same a.0, a.1)
  | inr (rest, found, shape) ↦
      subst (IsAfter id) shape (a.0, IsAfter-reload_owners id c os rest found a.1)
]

pub IsSorted-reload_owners :
    (c : Owner) (os later : List Owner)
    → reload_owners c os ≡ some later
    → IsSorted os
    → IsSorted later
unfolding reload_owners
IsSorted-reload_owners c [] later e s = ground (arith, e)
IsSorted-reload_owners c (o ∷ os) later e s = elim (reload_owners-cases c o os later e) [
  | inl (same, shape) ↦
      subst IsSorted shape
        (subst (λ id. IsAfter id os) ((same_text_iff (owner_id o) (owner_id c)).0 same) s.0, s.1)
  | inr (rest, found, shape) ↦ subst IsSorted shape (
    IsAfter-reload_owners (owner_id o) c os rest found s.0,
    IsSorted-reload_owners c os rest found s.1,
  )
]

-- A connector that has an owner is found by the reload.
pub reload_owners-found :
    (c o : Owner) (os : List Owner)
    → find_owner (owner_id c) os ≡ some o
    → reload_owners c os ≢ none
unfolding find_owner reload_owners
reload_owners-found c o [] e absent = ground (arith, e)
reload_owners-found c o (p ∷ os) e absent = ground (arith, e, absent, reload_owners-found c o os)

find_owner-id :
    (id : List ℕ) (os : List Owner) (o : Owner)
    → find_owner id os ≡ some o
    → same_text (owner_id o) id ≡ true
unfolding find_owner
find_owner-id id [] o e = ground (arith, e)
find_owner-id id (x ∷ xs) o e = ground (arith, e, find_owner-id id xs o)

-- An owner that is found under a connector is the one found under its own.
pub find_owner_self :
    (id : List ℕ) (os : List Owner) (o : Owner)
    → find_owner id os ≡ some o
    → find_owner (owner_id o) os ≡ some o
unfolding find_owner
find_owner_self id [] o e = ground (arith, e)
find_owner_self id (x ∷ xs) o e = elim (Bool-cases (same_text (owner_id x) id)) [
  | inl same ↦
      let this : x ≡ o = ground (arith, e, same) in
      let self : same_text (owner_id o) (owner_id o) ≡ true =
        (same_text_iff (owner_id o) (owner_id o)).1 refl in
      ground (arith, this, self)
  | inr other ↦
      let rest : find_owner id xs ≡ some o = ground (arith, e, other) in
      let known : same_text (owner_id o) id ≡ true = find_owner-id id xs o rest in
      ground (
        arith,
        other,
        find_owner_self id xs o rest,
        known,
        same_through (owner_id o) id (owner_id x),
        same_sym (owner_id x) id,
        same_sym (owner_id x) (owner_id o),
      )
]
