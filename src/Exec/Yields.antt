-- ===== src/Exec/Yields.antt =====
-- What holds of the result of an action that succeeds, by the steps of the action.
use mathlib.Core.Path.{subst}
use vibe_caravan.Prelude.{◌≡◌, sym, ap, ◌∙◌, arith}
use vibe_caravan.Error.{Result, ok}
use vibe_caravan.Exec.{Sys, Exec, pure, ◌>>=◌}
use vibe_caravan.Exec.Within.{>>=-ok}

pub record Yields {W A : Type 0} (P : A → Type 0) (m : Exec W A) : Type 0 where
  pub at : (s : Sys W) (a : A) → (m s).0 ≡ ok a → P a

ok_injective : {A : Type 0} {a b : A} → ok a ≡ ok b → a ≡ b
ok_injective e = ground arith

pub Yields-pure : {W A : Type 0} (P : A → Type 0) (a : A) → P a → Yields {W = W} P (pure a)
Yields-pure P a p = record { at = λ s b h. subst P (ok_injective h) p }

pub Yields-bind :
    {W A B : Type 0} {P : B → Type 0} (m : Exec W A) (f : A → Exec W B)
    → ((s : Sys W) (a : A) → (m s).0 ≡ ok a → Yields P (f a))
    → Yields P (m >>= f)
Yields-bind {W = W} {B = B} m f k = record {
  at = λ s b h.
      let (a, e, eq) = >>=-ok m f s {b = b} h in
      (k s a e).at (m s).1 b (ap (λ (x : Result B × Sys W). x.0) (sym eq) ∙ h);
}
