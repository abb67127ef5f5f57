-- ===== src/Prelude/Counting.antt =====
-- Lengths of lists without repetitions, for the counts that the index check compares.
use Prim.Native.Nat.{◌+◌, ◌≤◌}
use mathlib.Core.Path.{◌≡◌}
use mathlib.Core.Logic.{inl, inr}
use mathlib.Core.Bool.{true, false}
use mathlib.Core.List.{List, [], ◌∷◌}
use native.Mathlib.Omega.{arith}
use vibe_caravan.Prelude.Tests.{Eq, ◌==◌, Bool-cases, if◌then◌else◌}
use vibe_caravan.Prelude.Lists.{length, contains, IsNodup}

module _ {ℓ} {A : Type ℓ} ⦃e : Eq A⦄ where
  abbrev without : A → List A → List A
  without a [] = []
  without a (x ∷ xs) = let rest = without a xs in if x == a then xs else x ∷ rest

  length-without :
      (a : A) (xs : List A) → contains xs a ≡ true → length (without a xs) + 1 ≡ length xs
  length-without a [] h = ground arith
  length-without a (x ∷ xs) h = ground (arith, length-without a xs)

  contains-without :
      (a b : A) (xs : List A)
      → (a == b) ≡ false
      → contains xs b ≡ true
      → contains (without a xs) b ≡ true
  contains-without a b [] n h = h
  contains-without a b (x ∷ xs) n h =
      ground (arith, contains-without a b xs, e.beq_iff x a, e.beq_iff x b, e.beq_iff a b)

  ne_of_contains :
      (xs : List A) (a b : A) → contains xs a ≡ false → contains xs b ≡ true → (a == b) ≡ false
  ne_of_contains xs a b p q = elim (Bool-cases (a == b)) [
    | inl same ↦ absurd (ground (arith, e.beq_iff a b))
    | inr other ↦ other
  ]

  pub length-le_of_contains :
      (xs ys : List A)
      → IsNodup xs
      → ((a : A) → contains xs a ≡ true → contains ys a ≡ true)
      → length xs ≤ length ys
  length-le_of_contains [] ys n h = omega arith
  length-le_of_contains (x ∷ xs) ys n h =
      let x_in : contains ys x ≡ true = h x (ground (arith, e.beq_iff x x)) in
      let rest : length xs ≤ length (without x ys) =
        length-le_of_contains xs (without x ys) n.1
          (λ a p. contains-without x a ys (ne_of_contains xs x a n.0 p) (h a (ground arith))) in
      omega (arith, rest, length-without x ys x_in)

  -- If the longer list is not longer, it holds nothing else.
  pub contains_of_length :
      (xs ys : List A)
      → IsNodup xs
      → ((a : A) → contains xs a ≡ true → contains ys a ≡ true)
      → length ys ≡ length xs
      → (b : A) → contains ys b ≡ true
      → contains xs b ≡ true
  contains_of_length xs ys n h same b p = elim (Bool-cases (contains xs b)) [
    | inl yes_in ↦ yes_in
    | inr new ↦ absurd (
        omega (
          arith,
          same,
          length-le_of_contains (b ∷ xs) ys (new, n) (λ a q. ground (arith, h a, e.beq_iff b a)),
        ))
  ]
