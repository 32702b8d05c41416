-- ===== src/Base/Weigh.antt =====
-- Sums of weights over a list: the abstract load that a table of counters stands for.
use Prim.Native.Nat.{ℕ, ◌+◌, ◌≤◌}
use mathlib.Core.Path.{◌≡◌, refl}
use mathlib.Core.List.{List, [], ◌∷◌, ◌++◌}
use native.Mathlib.Omega.{arith}

module _ {ℓ} {A : Type ℓ} where
  pub weigh : (A → ℕ) → List A → ℕ
  weigh w [] = 0
  weigh w (x ∷ xs) = w x + weigh w xs

  pub weigh-nil : (w : A → ℕ) → weigh w [] ≡ 0
  unfolding weigh
  weigh-nil w = refl

  pub weigh-cons : (w : A → ℕ) (x : A) (xs : List A) → weigh w (x ∷ xs) ≡ w x + weigh w xs
  unfolding weigh
  weigh-cons w x xs = refl

  pub weigh-append : (w : A → ℕ) (xs ys : List A) → weigh w (xs ++ ys) ≡ weigh w xs + weigh w ys
  unfolding weigh
  weigh-append w [] ys = omega arith
  weigh-append w (x ∷ xs) ys = omega (arith, weigh-append w xs ys)

  pub weigh_mono : (v w : A → ℕ) → ((x : A) → v x ≤ w x) → (xs : List A) → weigh v xs ≤ weigh w xs
  unfolding weigh
  weigh_mono v w h [] = omega arith
  weigh_mono v w h (x ∷ xs) = omega (arith, h x, weigh_mono v w h xs)
