-- ===== src/Prelude/Words.antt =====
-- 64-bit arithmetic: `u64` and, on the 64-bit targets of the program, `usize`.
use Prim.Native.Nat.{ℕ, ◌+◌, ◌%◌, min}
use mathlib.Core.Path.{◌≡◌}
use mathlib.Core.List.{List, [], ◌∷◌, ◌++◌}
use native.Mathlib.Omega.{arith}

abbrev pub u64_max : ℕ
u64_max = 18446744073709551615

-- `a.saturating_add(b)`.
abbrev pub saturating_add : ℕ → ℕ → ℕ
saturating_add a b = min (a + b) u64_max

abbrev pub sum : List ℕ → ℕ
sum [] = 0
sum (x ∷ xs) = x + sum xs

-- `iter().sum::<u64>()` of a release build, which wraps.
abbrev pub u64_sum : List ℕ → ℕ
u64_sum xs = sum xs % 18446744073709551616

pub sum-append : (xs ys : List ℕ) → sum (xs ++ ys) ≡ sum xs + sum ys
sum-append [] ys = omega arith
sum-append (x ∷ xs) ys = omega (arith, sum-append xs ys)
