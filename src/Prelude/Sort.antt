-- ===== src/Prelude/Sort.antt =====
-- `slice::sort_by`: a stable sort. Insertion from the right gives the one stable result.
use Prim.Native.Nat.{Ordering}
use mathlib.Core.Path.{◌≡◌}
use mathlib.Core.Logic.{inl, inr}
use mathlib.Core.Bool.{true, false}
use mathlib.Core.List.{List, [], ◌∷◌, Perm}
use mathlib.Core.List.Perm
use native.Mathlib.Omega.{arith}
use vibe_caravan.Prelude.Tests.{Bool-cases, if◌then◌else◌}
use vibe_caravan.Prelude.Lists.{All}
use vibe_caravan.Prelude.Compare.{is_gt, IsTotal}

module _ {ℓ} {A : Type ℓ} (cmp : A → A → Ordering) where
  abbrev pub insert_by : A → List A → List A
  insert_by x [] = x ∷ []
  insert_by x (y ∷ ys) = if is_gt (cmp x y) then y ∷ insert_by x ys else x ∷ y ∷ ys

  unfoldable pub sort_by : List A → List A
  sort_by [] = []
  sort_by (x ∷ xs) = insert_by x (sort_by xs)

  -- Each element comes before all that follow.
  abbrev pub IsSorted : List A → Type 0
  IsSorted [] = Unit
  IsSorted (x ∷ xs) = All (λ y. is_gt (cmp x y) ≡ false) xs × IsSorted xs

  insert_by-perm : (x : A) (ys : List A) → Perm (insert_by x ys) (x ∷ ys)
  insert_by-perm x [] = Perm.refl (x ∷ [])
  insert_by-perm x (y ∷ ys) = elim (Bool-cases (is_gt (cmp x y))) [
    | inl later ↦ rw later (Perm.trans (Perm.cons y (insert_by-perm x ys)) (Perm.swap x y ys))
    | inr here ↦ rw here (Perm.refl (x ∷ y ∷ ys))
  ]

  pub sort_by-perm : (xs : List A) → Perm (sort_by xs) xs
  unfolding sort_by
  sort_by-perm [] = Perm.refl []
  sort_by-perm (x ∷ xs) = Perm.trans (insert_by-perm x (sort_by xs)) (Perm.cons x (sort_by-perm xs))

  All-insert_by {κ} :
      (P : A → Type κ) (x : A) (ys : List A) → P x → All P ys → All P (insert_by x ys)
  All-insert_by P x [] p h = (p, tt)
  All-insert_by P x (y ∷ ys) p h = elim (Bool-cases (is_gt (cmp x y))) [
    | inl later ↦ rw later (h.0, All-insert_by P x ys p h.1)
    | inr here ↦ rw here (p, h)
  ]

module _ {ℓ} {K : Type ℓ} {cmp : K → K → Ordering} (t : IsTotal cmp) where
  pub le_trans :
      (a b c : K) → is_gt (cmp a b) ≡ false → is_gt (cmp b c) ≡ false → is_gt (cmp a c) ≡ false
  le_trans a b c h k = ground (arith, t.cmp_trans a b c, t.cmp_eq a b, t.cmp_eq b c, t.cmp_refl a)

  le_of_gt : (a b : K) → is_gt (cmp a b) ≡ true → is_gt (cmp b a) ≡ false
  le_of_gt a b h = ground (arith, t.cmp_flip a b)

module _ {ℓ} {A K : Type ℓ} (key : A → K) {cmp : K → K → Ordering} (t : IsTotal cmp) where
  abbrev pub by_key : A → A → Ordering
  by_key a b = cmp (key a) (key b)

  All-le_trans :
      (x y : A) (ys : List A)
      → is_gt (by_key x y) ≡ false
      → All (λ z. is_gt (by_key y z) ≡ false) ys
      → All (λ z. is_gt (by_key x z) ≡ false) ys
  All-le_trans x y [] h all = tt
  All-le_trans x y (z ∷ zs) h all =
      (le_trans t (key x) (key y) (key z) h all.0, All-le_trans x y zs h all.1)

  insert_by-IsSorted :
      (x : A) (ys : List A) → IsSorted by_key ys → IsSorted by_key (insert_by by_key x ys)
  insert_by-IsSorted x [] s = (tt, tt)
  insert_by-IsSorted x (y ∷ ys) s = elim (Bool-cases (is_gt (by_key x y))) [
    | inl later ↦ rw later (
      All-insert_by by_key (λ z. is_gt (by_key y z) ≡ false) x ys (le_of_gt t (key x) (key y) later)
          s.0,
      insert_by-IsSorted x ys s.1,
    )
    | inr here ↦ rw here ((here, All-le_trans x y ys here s.0), s)
  ]

  pub sort_by-IsSorted : (xs : List A) → IsSorted by_key (sort_by by_key xs)
  unfolding sort_by
  sort_by-IsSorted [] = tt
  sort_by-IsSorted (x ∷ xs) = insert_by-IsSorted x (sort_by by_key xs) (sort_by-IsSorted xs)
