-- ===== src/Common/Longs.antt =====
-- The arithmetic of a `long long int`: the exact integers, and what is left of them in 64 bits.
use system_programming_cse.Common.Tests.{ltb, if◌then◌else◌}
use system_programming_cse.Common.Strings.{ℤ, pos, negsuc}
use Prim.Native.Nat.{ℕ, suc, ◌+◌, ◌-◌, ◌*◌, ◌/◌, ◌%◌, ◌^◌, ◌≤◌, ◌<◌}
use mathlib.Core.Path.{◌≡◌, refl, ap}
use native.Mathlib.Omega.{arith}
use native.Mathlib.Nat.{mul-le-mul}

-- a - b
abbrev pub minus : ℕ → ℕ → ℤ
minus a b = if ltb a b then negsuc (b - a - 1) else pos (a - b)

infixl 65 ◌+ℤ◌
abbrev pub ◌+ℤ◌ : ℤ → ℤ → ℤ
pos a +ℤ pos b = pos (a + b)
pos a +ℤ negsuc b = minus a (suc b)
negsuc a +ℤ pos b = minus b (suc a)
negsuc a +ℤ negsuc b = negsuc (suc (a + b))

abbrev pub opposite : ℤ → ℤ
opposite (pos a) = minus 0 a
opposite (negsuc a) = pos (suc a)

infixl 65 ◌-ℤ◌
abbrev pub ◌-ℤ◌ : ℤ → ℤ → ℤ
a -ℤ b = a +ℤ opposite b

infixl 70 ◌*ℤ◌
abbrev pub ◌*ℤ◌ : ℤ → ℤ → ℤ
pos a *ℤ pos b = pos (a * b)
pos a *ℤ negsuc b = minus 0 (a * suc b)
negsuc a *ℤ pos b = minus 0 (suc a * b)
negsuc a *ℤ negsuc b = pos (suc a * suc b)

-- The division of C, which cuts towards zero.
infixl 70 ◌/ℤ◌
abbrev pub ◌/ℤ◌ : ℤ → ℤ → ℤ
pos a /ℤ pos b = pos (a / b)
pos a /ℤ negsuc b = minus 0 (a / suc b)
negsuc a /ℤ pos b = minus 0 (suc a / b)
negsuc a /ℤ negsuc b = pos (suc a / suc b)

-- A 64-bit pattern in two's complement.
abbrev pub from_bits : ℕ → ℤ
from_bits u = if ltb u (2 ^ 63) then pos u else negsuc (2 ^ 64 - u - 1)

-- What 64 bits keep of an integer.
unfoldable pub to_long : ℤ → ℤ
to_long (pos n) = from_bits (n % 2 ^ 64)
to_long (negsuc n) = from_bits (2 ^ 64 - 1 - n % 2 ^ 64)

-- The integer is between -m and m.
abbrev pub Within : ℕ → ℤ → Type 0
Within m (pos n) = n ≤ m
Within m (negsuc n) = n < m

pub Within-to_long : (m : ℕ) (z : ℤ) → m < 2 ^ 63 → Within m z → to_long z ≡ z
unfolding to_long
Within-to_long m (pos n) b h = ground arith
Within-to_long m (negsuc n) b h = ground arith

pub Within-+ℤ : (a b : ℕ) (x y : ℤ) → Within a x → Within b y → Within (a + b) (x +ℤ y)
Within-+ℤ a b (pos x) (pos y) h k = omega arith
Within-+ℤ a b (pos x) (negsuc y) h k = ground arith
Within-+ℤ a b (negsuc x) (pos y) h k = ground arith
Within-+ℤ a b (negsuc x) (negsuc y) h k = omega arith

pub Within-opposite : (a : ℕ) (x : ℤ) → Within a x → Within a (opposite x)
Within-opposite a (pos x) h = ground arith
Within-opposite a (negsuc x) h = omega arith

pub +ℤ-comm : (x y : ℤ) → x +ℤ y ≡ y +ℤ x
+ℤ-comm (pos x) (pos y) = ap pos (omega arith)
+ℤ-comm (pos x) (negsuc y) = refl
+ℤ-comm (negsuc x) (pos y) = refl
+ℤ-comm (negsuc x) (negsuc y) = ap negsuc (omega arith)

pub *ℤ-comm : (x y : ℤ) → x *ℤ y ≡ y *ℤ x
*ℤ-comm (pos x) (pos y) = ap pos (omega arith)
*ℤ-comm (pos x) (negsuc y) = ap (minus 0) (omega arith)
*ℤ-comm (negsuc x) (pos y) = ap (minus 0) (omega arith)
*ℤ-comm (negsuc x) (negsuc y) = ap pos (omega arith)

Within-minus : (m n : ℕ) → n ≤ m → Within m (minus 0 n)
Within-minus m n h = ground arith

pub Within-*ℤ : (a b : ℕ) (x y : ℤ) → Within a x → Within b y → Within (a * b) (x *ℤ y)
Within-*ℤ a b (pos x) (pos y) h k = mul-le-mul h k
Within-*ℤ a b (pos x) (negsuc y) h k = Within-minus (a * b) (x * suc y) (mul-le-mul h (omega arith))
Within-*ℤ a b (negsuc x) (pos y) h k = Within-minus (a * b) (suc x * y) (mul-le-mul (omega arith) k)
Within-*ℤ a b (negsuc x) (negsuc y) h k = mul-le-mul (omega arith) (omega arith)
