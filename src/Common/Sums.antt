-- ===== src/Common/Sums.antt =====
-- The sum of what a function gives for the elements of a list.
use system_programming_cse.Common.Lists.{take, drop, get_elem?, set}
use Prim.Native.Nat.{ℕ, zero, suc, ◌+◌, ◌≤◌}
use mathlib.Core.Path.{◌≡◌, refl}
use mathlib.Core.Option.{some}
use mathlib.Core.List.{List, [], ◌∷◌, ◌++◌, map}
use native.Mathlib.Omega.{arith}

module _ {A : Type 0} (f : A → ℕ) where
  abbrev pub sum : List A → ℕ
  sum [] = 0
  sum (x ∷ xs) = f x + sum xs

  pub sum-append : (xs ys : List A) → sum (xs ++ ys) ≡ sum xs + sum ys
  sum-append [] ys = omega arith
  sum-append (x ∷ xs) ys = omega (arith, sum-append xs ys)

  pub sum-take : (n : ℕ) (xs : List A) → sum (take n xs) + sum (drop n xs) ≡ sum xs
  sum-take zero xs = omega arith
  sum-take (suc n) [] = refl
  sum-take (suc n) (x ∷ xs) = omega (arith, sum-take n xs)

  pub sum-set :
      (xs : List A) (i : ℕ) (x y : A)
      → get_elem? xs i ≡ some x
      → sum (set xs i y) + f x ≡ sum xs + f y
  sum-set [] i x y h = cc
  sum-set (z ∷ xs) zero x y h = ground (arith, h)
  sum-set (z ∷ xs) (suc i) x y h = omega (arith, sum-set xs i x y h)

  pub sum-map : (g : A → A) → ((x : A) → f (g x) ≡ f x) → (xs : List A) → sum (map g xs) ≡ sum xs
  sum-map g same [] = refl
  sum-map g same (x ∷ xs) = omega (arith, same x, sum-map g same xs)

pub sum_mono :
    {A : Type 0} (f g : A → ℕ) → ((x : A) → f x ≤ g x) → (xs : List A) → sum f xs ≤ sum g xs
sum_mono f g h [] = omega arith
sum_mono f g h (x ∷ xs) = omega (arith, h x, sum_mono f g h xs)
