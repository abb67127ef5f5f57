-- ===== src/Exec/Within.antt =====
-- Actions that stay within a relation between the system before and after, whether they return or
-- fail: one rule for each way to build an action.
use vibe_caravan.Prelude.{
  ◌≡◌, refl, sym, ap, ◌∙◌, Bool, true, false, Option, none, some, if◌then◌else◌,
}
use vibe_caravan.Error.{Result, ok, err, CaravanError}
use vibe_caravan.Models.State.{MigrationState}
use vibe_caravan.Exec.{
  Sys, Exec, pure, raise, lift, gets, ask, when, raise_if, ok_or_raise, after, ◌>>=◌,
}

-- A relation that holds of no change, and along a chain of changes.
pub record IsPreorder {W : Type 0} (R : Sys W → Sys W → Type 0) : Type 0 where
  pub same : (s : Sys W) → R s s
  pub chain : (s t u : Sys W) → R s t → R t u → R s u

pub record Within {W A : Type 0} (R : Sys W → Sys W → Type 0) (m : Exec W A) : Type 0 where
  pub at : (s : Sys W) → R s (m s).1

module _ {W : Type 0} {R : Sys W → Sys W → Type 0} (p : IsPreorder R) where
  module _ {A : Type 0} where
    pub Within-pure : (a : A) → Within R (pure {W = W} a)
    Within-pure a = record { at = λ s. p.same s }

    pub Within-raise : (e : CaravanError) → Within R (raise {W = W} {A = A} e)
    Within-raise e = record { at = λ s. p.same s }

    pub Within-gets : (f : MigrationState → A) → Within R (gets {W = W} f)
    Within-gets f = record { at = λ s. p.same s }

    pub Within-ask : (f : W → A) → Within R (ask f)
    Within-ask f = record { at = λ s. p.same s }

    pub Within-ok_or_raise : (o : Option A) (e : CaravanError) → Within R (ok_or_raise {W = W} o e)
    Within-ok_or_raise none e = Within-raise e
    Within-ok_or_raise (some a) e = Within-pure a

    pub Within-lift : (r : Result A) → Within R (lift {W = W} r)
    Within-lift r = record { at = λ s. p.same s }

  pub Within-raise_if : (b : Bool) (e : CaravanError) → Within R (raise_if {W = W} b e)
  Within-raise_if true e = Within-raise e
  Within-raise_if false e = Within-pure tt

  pub Within-when : (b : Bool) (m : Exec W (Unit {0})) → Within R m → Within R (when b m)
  Within-when true m h = h
  Within-when false m h = Within-pure tt

  pub Within-if :
      {A : Type 0} (b : Bool) (m n : Exec W A)
      → Within R m
      → Within R n
      → Within R (if b then m else n)
  Within-if true m n h k = h
  Within-if false m n h k = k

  module _ {A B : Type 0} where
    after-within :
        (s : Sys W) (r : Result A) (s' : Sys W) (f : A → Exec W B)
        → R s s'
        → ((a : A) → Within R (f a))
        → R s (after r f s').1
    after-within s (ok a) s' f h k = p.chain s s' (f a s').1 h ((k a).at s')
    after-within s (err e) s' f h k = h

    -- The first part from one given system only.
    pub bind-at :
        (m : Exec W A) (f : A → Exec W B) (s : Sys W)
        → R s (m s).1
        → ((a : A) → Within R (f a))
        → R s ((m >>= f) s).1
    bind-at m f s h k = after-within s (m s).0 (m s).1 f h k

    pub Within-bind :
        (m : Exec W A) (f : A → Exec W B)
        → Within R m
        → ((a : A) → Within R (f a))
        → Within R (m >>= f)
    Within-bind m f h k = record { at = λ s. after-within s (m s).0 (m s).1 f (h.at s) k }

module _ {W A B : Type 0} where
  after-ok :
      (r : Result A) (f : A → Exec W B) (s' : Sys W) {b : B}
      → (after r f s').0 ≡ ok b
      → (a : A) × (r ≡ ok a)
  after-ok (ok a) f s' h = (a, refl)
  after-ok (err e) f s' h = absurd (cc)

  -- Inversion of a successful chain: its first part succeeded, and the rest went on from there.
  pub >>=-ok :
      (m : Exec W A) (f : A → Exec W B) (s : Sys W) {b : B}
      → ((m >>= f) s).0 ≡ ok b
      → (a : A) × ((m s).0 ≡ ok a) × ((m >>= f) s ≡ f a (m s).1)
  >>=-ok m f s {b = b} h = let (a, e) = after-ok (m s).0 f (m s).1 {b = b} h in (a, e, rw e refl)

  -- The same for the result of the rest alone.
  pub >>=-rest :
      (m : Exec W A) (f : A → Exec W B) (s : Sys W) {b : B}
      → ((m >>= f) s).0 ≡ ok b
      → (a : A) × ((m s).0 ≡ ok a) × ((f a (m s).1).0 ≡ ok b)
  >>=-rest m f s {b = b} h =
      let (a, e, eq) = >>=-ok m f s {b = b} h in (a, e, ap (λ x. x.0) (sym eq) ∙ h)
