-- ===== src/Generations/Text.antt =====
-- Equality and order of `std::string`, a list of bytes.
use duckdb_fdw.Base.{
  ℕ, ◌≡◌, ◌↔◌, refl, Bool, true, false, ◌&&◌, List, [], ◌∷◌, arith, ◌==◌, ltb, if◌then◌else◌,
}

unfoldable pub same_text : List ℕ → List ℕ → Bool
same_text [] [] = true
same_text (a ∷ xs) (b ∷ ys) = a == b && same_text xs ys
same_text _ _ = false

unfoldable pub less_text : List ℕ → List ℕ → Bool
less_text [] [] = false
less_text [] (b ∷ ys) = true
less_text (a ∷ xs) [] = false
less_text (a ∷ xs) (b ∷ ys) = let rest = less_text xs ys in if a == b then rest else ltb a b

pub same_text_iff : (a b : List ℕ) → (same_text a b ≡ true) ↔ (a ≡ b)
unfolding same_text
same_text_iff [] [] = ground arith
same_text_iff (a ∷ xs) (b ∷ ys) = ground (arith, same_text_iff xs ys)
same_text_iff _ _ = ground arith

pub less_text_trans :
    (a b c : List ℕ) → less_text a b ≡ true → less_text b c ≡ true → less_text a c ≡ true
unfolding less_text
less_text_trans [] (b ∷ ys) (c ∷ zs) h k = refl
less_text_trans (a ∷ xs) (b ∷ ys) (c ∷ zs) h k = ground (arith, h, k, less_text_trans xs ys zs)
less_text_trans _ _ _ h k = ground (arith, h, k)

pub less_text_total :
    (a b : List ℕ) → less_text a b ≡ false → same_text a b ≡ false → less_text b a ≡ true
unfolding less_text same_text
less_text_total [] [] h k = ground (arith, k)
less_text_total [] (b ∷ ys) h k = ground (arith, h)
less_text_total (a ∷ xs) [] h k = refl
less_text_total (a ∷ xs) (b ∷ ys) h k = ground (arith, h, k, less_text_total xs ys)

pub less_text_irrefl : (a b : List ℕ) → less_text a b ≡ true → same_text a b ≡ false
unfolding less_text same_text
less_text_irrefl [] [] h = ground (arith, h)
less_text_irrefl [] (b ∷ ys) h = refl
less_text_irrefl (a ∷ xs) [] h = refl
less_text_irrefl (a ∷ xs) (b ∷ ys) h = ground (arith, h, less_text_irrefl xs ys)
