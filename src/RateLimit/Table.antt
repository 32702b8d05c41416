-- ===== src/RateLimit/Table.antt =====
-- `std::unordered_map` as the coordinator uses it: an association list that a key finds by `==`.
-- An entry that is replaced keeps its place; the place of an entry means nothing to the code.
use duckdb_fdw.Base.{
  ℕ, ◌+◌, ◌≡◌, ◌↔◌, refl, subst, inl, inr, Bool, true, false, Option, none, some, List, [], ◌∷◌,
  arith, if◌then◌else◌, All, weigh, weigh-cons, Bool-cases,
}

pub record KeyEq {ℓ} (K : Type ℓ) : Type ℓ where
  pub beq : K → K → Bool
  pub beq_iff : (a b : K) → (beq a b ≡ true) ↔ (a ≡ b)

module _ {K : Type 0} ⦃k : KeyEq K⦄ where
  beq_refl : (a : K) → k.beq a a ≡ true
  beq_refl a = (k.beq_iff a a).1 refl

  beq_through : (a b c : K) → k.beq a b ≡ true → k.beq a c ≡ k.beq b c
  beq_through a b c e = rw ((k.beq_iff a b).0 e)

  beq_sym : (a b : K) → k.beq a b ≡ k.beq b a
  beq_sym a b = ground (arith, beq_through a b a, beq_through b a b, beq_refl a, beq_refl b)

module _ {K B : Type 0} ⦃k : KeyEq K⦄ where
  unfoldable pub find : K → List (K × B) → Option B
  find key [] = none
  find key ((j, b) ∷ es) = if k.beq j key then some b else find key es

  unfoldable pub replace : K → B → List (K × B) → List (K × B)
  replace key b [] = []
  replace key b ((j, c) ∷ es) = if k.beq j key then (j, b) ∷ es else (j, c) ∷ replace key b es

  unfoldable pub remove : K → List (K × B) → List (K × B)
  remove key [] = []
  remove key ((j, c) ∷ es) = if k.beq j key then es else (j, c) ∷ remove key es

  -- The key has no entry; no key has two.
  abbrev pub IsFresh : K → List (K × B) → Type 0
  IsFresh key [] = Unit
  IsFresh key ((j, c) ∷ es) = (k.beq j key ≡ false) × IsFresh key es

  abbrev pub IsMap : List (K × B) → Type 0
  IsMap [] = Unit
  IsMap ((j, c) ∷ es) = IsFresh j es × IsMap es

  pub find-IsFresh : (key : K) (es : List (K × B)) → IsFresh key es → find key es ≡ none
  unfolding find
  find-IsFresh key [] f = refl
  find-IsFresh key ((j, c) ∷ es) f = ground (arith, find-IsFresh key es)

  pub IsFresh-find : (key : K) (es : List (K × B)) → find key es ≡ none → IsFresh key es
  unfolding find
  IsFresh-find key [] e = tt
  IsFresh-find key ((j, c) ∷ es) e = ground (arith, IsFresh-find key es)

  IsFresh-replace :
      (i key : K) (b : B) (es : List (K × B)) → IsFresh i es → IsFresh i (replace key b es)
  unfolding replace
  IsFresh-replace i key b [] f = tt
  IsFresh-replace i key b ((j, c) ∷ es) f = ground (arith, IsFresh-replace i key b es)

  IsFresh-remove : (i key : K) (es : List (K × B)) → IsFresh i es → IsFresh i (remove key es)
  unfolding remove
  IsFresh-remove i key [] f = tt
  IsFresh-remove i key ((j, c) ∷ es) f = ground (arith, IsFresh-remove i key es)

  pub IsMap-replace : (key : K) (b : B) (es : List (K × B)) → IsMap es → IsMap (replace key b es)
  unfolding replace
  IsMap-replace key b [] m = tt
  IsMap-replace key b ((j, c) ∷ es) m =
      ground (arith, IsMap-replace key b es, IsFresh-replace j key b es)

  pub IsMap-remove : (key : K) (es : List (K × B)) → IsMap es → IsMap (remove key es)
  unfolding remove
  IsMap-remove key [] m = tt
  IsMap-remove key ((j, c) ∷ es) m = ground (arith, IsMap-remove key es, IsFresh-remove j key es)

  pub find-replace :
      (i key : K) (b old : B) (es : List (K × B))
      → find key es ≡ some old
      → find i (replace key b es) ≡ (if k.beq key i then some b else find i es)
  unfolding find replace
  find-replace i key b old [] e = ground arith
  find-replace i key b old ((j, c) ∷ es) e =
      ground (
        arith,
        find-replace i key b old es,
        beq_through j key i,
        beq_through j i key,
        beq_sym key i,
      )

  pub IsFresh-through :
      (j i : K) (es : List (K × B)) → k.beq j i ≡ true → IsFresh j es → IsFresh i es
  IsFresh-through j i es e f = subst (λ a. IsFresh a es) ((k.beq_iff j i).0 e) f

  pub find-remove :
      (i key : K) (es : List (K × B))
      → IsMap es
      → find i (remove key es) ≡ (if k.beq key i then none else find i es)
  unfolding find remove
  find-remove i key [] m = ground arith
  find-remove i key ((j, c) ∷ es) m = ground (
    arith,
    find-remove i key es,
    beq_through j key i,
    beq_through j i key,
    beq_sym key i,
    find-IsFresh i es,
    IsFresh-through j i es,
  )

  -- What each entry adds to a sum, and what all entries satisfy.
  abbrev pub total : (B → ℕ) → List (K × B) → ℕ
  total f = weigh (λ e. f e.1)

  pub total-replace :
      (f : B → ℕ) (key : K) (b old : B) (es : List (K × B))
      → find key es ≡ some old
      → total f (replace key b es) + f old ≡ total f es + f b
  unfolding find replace
  total-replace f key b old [] e = ground arith
  total-replace f key b old ((j, c) ∷ es) e = ground (
    arith,
    total-replace f key b old es,
    weigh-cons (λ (e : K × B). f e.1) (j, c) es,
    weigh-cons (λ (e : K × B). f e.1) (j, b) es,
    weigh-cons (λ (e : K × B). f e.1) (j, c) (replace key b es),
  )

  pub total-remove :
      (f : B → ℕ) (key : K) (old : B) (es : List (K × B))
      → find key es ≡ some old
      → total f es ≡ f old + total f (remove key es)
  unfolding find remove
  total-remove f key old [] e = ground arith
  total-remove f key old ((j, c) ∷ es) e = ground (
    arith,
    total-remove f key old es,
    weigh-cons (λ (e : K × B). f e.1) (j, c) es,
    weigh-cons (λ (e : K × B). f e.1) (j, c) (remove key es),
  )

  abbrev pub AllOf : (B → Type 0) → List (K × B) → Type 0
  AllOf P = All (λ e. P e.1)

  pub AllOf-find :
      (P : B → Type 0) (key : K) (old : B) (es : List (K × B))
      → AllOf P es
      → find key es ≡ some old
      → P old
  unfolding find
  AllOf-find P key old [] a e = cc
  AllOf-find P key old ((j, c) ∷ es) a e = elim (Bool-cases (k.beq j key)) [
    | inl h ↦ subst P (ground arith) a.0
    | inr h ↦ AllOf-find P key old es a.1 (ground arith)
  ]

  pub AllOf-replace :
      (P : B → Type 0) (key : K) (b : B) (es : List (K × B))
      → AllOf P es
      → P b
      → AllOf P (replace key b es)
  unfolding replace
  AllOf-replace P key b [] a p = tt
  AllOf-replace P key b ((j, c) ∷ es) a p = ground (arith, AllOf-replace P key b es)

  pub AllOf-remove :
      (P : B → Type 0) (key : K) (es : List (K × B)) → AllOf P es → AllOf P (remove key es)
  unfolding remove
  AllOf-remove P key [] a = tt
  AllOf-remove P key ((j, c) ∷ es) a = ground (arith, AllOf-remove P key es)
