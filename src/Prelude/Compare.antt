-- ===== src/Prelude/Compare.antt =====
-- `Ord::cmp` of texts and paths: lexicographic comparison, with its laws.
use Prim.Native.Nat.{compare, Ordering}
use mathlib.Core.Path.{◌≡◌, refl}
use mathlib.Core.Bool.{Bool, true, false}
use mathlib.Core.List.{List, [], ◌∷◌}
use native.Mathlib.Omega.{arith}
use vibe_caravan.Prelude.Texts.{Text, FilePath}

abbrev pub flip : Ordering → Ordering
flip Ordering.lt = Ordering.gt
flip Ordering.eq = Ordering.eq
flip Ordering.gt = Ordering.lt

-- `Ordering::then_with`.
abbrev pub then_with : Ordering → Ordering → Ordering
then_with Ordering.lt o = Ordering.lt
then_with Ordering.eq o = o
then_with Ordering.gt o = Ordering.gt

abbrev pub is_gt : Ordering → Bool
is_gt Ordering.gt = true
is_gt Ordering.eq = false
is_gt Ordering.lt = false

-- What `sort_by` wants of its comparison: a total order.
pub record IsTotal {ℓ} {A : Type ℓ} (cmp : A → A → Ordering) : Type ℓ where
  pub cmp_refl : (a : A) → cmp a a ≡ Ordering.eq
  pub cmp_eq : (a b : A) → cmp a b ≡ Ordering.eq → a ≡ b
  pub cmp_flip : (a b : A) → cmp b a ≡ flip (cmp a b)
  pub cmp_trans :
      (a b c : A) → cmp a b ≡ Ordering.lt → cmp b c ≡ Ordering.lt → cmp a c ≡ Ordering.lt

module _ {ℓ} {A : Type ℓ} (cmp : A → A → Ordering) where
  abbrev pub lex : List A → List A → Ordering
  lex [] [] = Ordering.eq
  lex [] (y ∷ ys) = Ordering.lt
  lex (x ∷ xs) [] = Ordering.gt
  lex (x ∷ xs) (y ∷ ys) = then_with (cmp x y) (lex xs ys)

  module _ (t : IsTotal cmp) where
    lex_refl : (xs : List A) → lex xs xs ≡ Ordering.eq
    lex_refl [] = refl
    lex_refl (x ∷ xs) = ground (arith, lex_refl xs, t.cmp_refl x)

    lex-eq : (xs ys : List A) → lex xs ys ≡ Ordering.eq → xs ≡ ys
    lex-eq [] [] h = refl
    lex-eq [] (y ∷ ys) h = absurd (ground arith)
    lex-eq (x ∷ xs) [] h = absurd (ground arith)
    lex-eq (x ∷ xs) (y ∷ ys) h = ground (arith, lex-eq xs ys, t.cmp_eq x y)

    lex-flip : (xs ys : List A) → lex ys xs ≡ flip (lex xs ys)
    lex-flip [] [] = refl
    lex-flip [] (y ∷ ys) = refl
    lex-flip (x ∷ xs) [] = refl
    lex-flip (x ∷ xs) (y ∷ ys) = ground (arith, lex-flip xs ys, t.cmp_flip x y)

    lex_trans :
        (xs ys zs : List A)
        → lex xs ys ≡ Ordering.lt
        → lex ys zs ≡ Ordering.lt
        → lex xs zs ≡ Ordering.lt
    lex_trans [] [] zs h k = absurd (ground arith)
    lex_trans [] (y ∷ ys) [] h k = absurd (ground arith)
    lex_trans [] (y ∷ ys) (z ∷ zs) h k = refl
    lex_trans (x ∷ xs) [] zs h k = absurd (ground arith)
    lex_trans (x ∷ xs) (y ∷ ys) [] h k = absurd (ground arith)
    lex_trans (x ∷ xs) (y ∷ ys) (z ∷ zs) h k =
        ground
          (arith, lex_trans xs ys zs, t.cmp_trans x y z, t.cmp_eq x y, t.cmp_eq y z, t.cmp_refl x)

    pub lex-IsTotal : IsTotal lex
    lex-IsTotal = record {
      cmp_refl = lex_refl;
      cmp_eq = lex-eq;
      cmp_flip = lex-flip;
      cmp_trans = lex_trans;
    }

compare-IsTotal : IsTotal compare
compare-IsTotal = record {
  cmp_refl = λ a. ground arith;
  cmp_eq = λ a b h. ground arith;
  cmp_flip = λ a b. ground arith;
  cmp_trans = λ a b c h k. ground arith;
}

unfoldable pub text_cmp : Text → Text → Ordering
text_cmp = lex compare

pub text_cmp-IsTotal : IsTotal text_cmp
unfolding text_cmp
text_cmp-IsTotal = lex-IsTotal compare compare-IsTotal

-- `Path::cmp` compares component by component.
unfoldable pub path_cmp : FilePath → FilePath → Ordering
path_cmp = lex text_cmp

pub path_cmp-IsTotal : IsTotal path_cmp
unfolding path_cmp
path_cmp-IsTotal = lex-IsTotal text_cmp text_cmp-IsTotal
