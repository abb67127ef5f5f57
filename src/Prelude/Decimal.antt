-- ===== src/Prelude/Decimal.antt =====
-- `format!("{n:06}")`: decimal digits, padded with zeros to a width, and reading them back.
use Prim.Native.Nat.{ℕ, zero, suc, ◌+◌, ◌-◌, ◌*◌, ◌/◌, ◌%◌, ◌<◌, ◌≤◌}
use mathlib.Core.Path.{◌≡◌, refl, sym, ap, ◌∙◌}
use mathlib.Core.Logic.{inl, inr}
use mathlib.Core.List.{[], ◌∷◌, reverse, reverse-reverse}
use native.Mathlib.Omega.{arith}
use vibe_caravan.Prelude.Tests.{ltb, Bool-cases, if◌then◌else◌}
use vibe_caravan.Prelude.Texts.{Text}

-- Least significant digit first.
digits_from : ℕ → ℕ → Text
digits_from zero n = []
digits_from (suc fuel) n =
    let rest = digits_from fuel (n / 10) in if ltb n 10 then (48 + n) ∷ [] else (48 + n % 10) ∷ rest

-- Zeros at the far end, up to `width` digits.
pad : ℕ → Text → Text
pad zero ds = ds
pad (suc w) [] = 48 ∷ pad w []
pad (suc w) (d ∷ ds) = d ∷ pad w ds

-- A number has no more digits than its value and one.
unfoldable pub padded : ℕ → ℕ → Text
unfolding digits_from pad
padded width n = reverse (pad width (digits_from (n + 1) n))

value : Text → ℕ
value [] = 0
value (d ∷ ds) = (d - 48) + 10 * value ds

value-digits_from : (fuel n : ℕ) → n < fuel → value (digits_from fuel n) ≡ n
unfolding value digits_from
value-digits_from zero n h = absurd (omega arith)
value-digits_from (suc fuel) n h = elim (Bool-cases (ltb n 10)) [
  | inl small ↦ rw small (omega arith)
  | inr large ↦
      let big : 10 ≤ n = ground arith in
      rw large (omega (arith, value-digits_from fuel (n / 10) (omega arith)))
]

value-pad : (w : ℕ) (ds : Text) → value (pad w ds) ≡ value ds
unfolding value pad
value-pad zero ds = refl
value-pad (suc w) [] = omega (arith, value-pad w [])
value-pad (suc w) (d ∷ ds) = omega (arith, value-pad w ds)

-- Different numbers are printed differently.
pub padded_injective : (width n m : ℕ) → padded width n ≡ padded width m → n ≡ m
unfolding padded
padded_injective width n m h =
    let back : pad width (digits_from (n + 1) n) ≡ pad width (digits_from (m + 1) m) =
      sym (reverse-reverse _) ∙ ap reverse h ∙ reverse-reverse _ in
    sym (value-digits_from (n + 1) n (omega arith))
    ∙ sym (value-pad width (digits_from (n + 1) n))
    ∙ ap value back
    ∙ value-pad width (digits_from (m + 1) m)
    ∙ value-digits_from (m + 1) m (omega arith)
