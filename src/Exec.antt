-- ===== src/Exec.antt =====
-- Code that changes the migration state, asks the operating system and may fail. What was changed
-- before an error stays changed, so the state and the world come back beside the error too.
pub mod Within
pub mod Yields
pub mod Quiet
use vibe_caravan.Prelude.{ℕ, Bool, true, false, Option, none, some, if◌then◌else◌}
use vibe_caravan.Error.{Result, ok, err, CaravanError}
use vibe_caravan.Models.State.{MigrationState}

-- The state in memory, and the world outside the program.
pub record Sys (W : Type 0) : Type 0 where
  pub state : MigrationState
  pub world : W

abbrev pub Exec : Type 0 → Type 0 → Type 0
Exec W A = Sys W → Result A × Sys W

module _ {W A : Type 0} where
  abbrev pub pure : A → Exec W A
  pure a s = (ok a, s)

  abbrev pub raise : CaravanError → Exec W A
  raise e s = (err e, s)

  -- A fallible value, the `?` on it included.
  abbrev pub lift : Result A → Exec W A
  lift r s = (r, s)

  abbrev pub gets : (MigrationState → A) → Exec W A
  gets f s = (ok (f s.state), s)

  -- A question to the world that does not change it.
  abbrev pub ask : (W → A) → Exec W A
  ask f s = (ok (f s.world), s)

  -- A call that may change the world, and whose answer the code looks at.
  abbrev pub call : (W → A × W) → Exec W A
  call f s = let (a, w) = f s.world in (ok a, record s { world = w })

  -- A call that may change the world or fail, the `?` on it included.
  abbrev pub attempt : (W → Result A × W) → Exec W A
  attempt f s = let (r, w) = f s.world in (r, record s { world = w })

  abbrev pub ok_or_raise : Option A → CaravanError → Exec W A
  ok_or_raise none e = raise e
  ok_or_raise (some a) e = pure a

module _ {W A B : Type 0} where
  abbrev pub after : Result A → (A → Exec W B) → Exec W B
  after (ok a) f s = f a s
  after (err e) f s = (err e, s)

  infixl 5 ◌>>=◌ ◌>>◌
  abbrev pub ◌>>=◌ : Exec W A → (A → Exec W B) → Exec W B
  ◌>>=◌ m f s = let (r, s') = m s in after r f s'

  abbrev pub ◌>>◌ : Exec W A → Exec W B → Exec W B
  m >> n = m >>= λ _. n

module _ {W : Type 0} where
  abbrev pub modify : (MigrationState → MigrationState) → Exec W (Unit {0})
  modify f s = (ok tt, record s { state = f s.state })

  abbrev pub when : Bool → Exec W (Unit {0}) → Exec W (Unit {0})
  when true m = m
  when false m = pure tt

  abbrev pub raise_if : Bool → CaravanError → Exec W (Unit {0})
  raise_if true e = raise e
  raise_if false e = pure tt
