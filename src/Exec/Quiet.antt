-- ===== src/Exec/Quiet.antt =====
-- Actions that keep the state valid and leave one file alone, whether they return or fail.
use vibe_caravan.Prelude.{◌≡◌, refl, ◌∙◌, FilePath}
use vibe_caravan.Error.{Result}
use vibe_caravan.Models.State.{MigrationState}
use vibe_caravan.Models.State.Laws.{IsValid}
use vibe_caravan.Platform.Volume.{Content}
use vibe_caravan.Exec.{Sys, Exec, attempt, call, modify, ◌>>=◌}
use vibe_caravan.Exec.Within.{IsPreorder, Within, Within-bind}

module _ {W : Type 0} (content : FilePath → W → Content) (q : FilePath) where
  -- The file at `q` has the bytes it had, and a valid state stays valid.
  pub record IsQuiet (s t : Sys W) : Type 0 where
    pub valid : IsValid s.state → IsValid t.state
    pub same : content q t.world ≡ content q s.world

  pub IsQuiet-preorder : IsPreorder IsQuiet
  IsQuiet-preorder = record {
    same = λ s. record { valid = λ v. v; same = refl };
    chain = λ s t u h k. record { valid = λ v. k.valid (h.valid v); same = k.same ∙ h.same };
  }

  abbrev pub Quiet : {A : Type 0} → Exec W A → Type 0
  Quiet m = Within IsQuiet m

  -- A call, or a fallible one, that leaves the file alone.
  pub Quiet-call :
      {A : Type 0} (f : W → A × W) → ((w : W) → content q (f w).1 ≡ content q w) → Quiet (call f)
  Quiet-call f h = record { at = λ s. record { valid = λ v. v; same = h s.world } }

  pub Quiet-attempt :
      {A : Type 0} (f : W → Result A × W)
      → ((w : W) → content q (f w).1 ≡ content q w)
      → Quiet (attempt f)
  Quiet-attempt f h = record { at = λ s. record { valid = λ v. v; same = h s.world } }

  pub Quiet-modify :
      (f : MigrationState → MigrationState)
      → ((s : MigrationState) → IsValid s → IsValid (f s))
      → Quiet (modify f)
  Quiet-modify f h = record { at = λ s. record { valid = h s.state; same = refl } }

  pub Quiet-bind :
      {A B : Type 0} (m : Exec W A) (f : A → Exec W B)
      → Quiet m
      → ((a : A) → Quiet (f a))
      → Quiet (m >>= f)
  Quiet-bind m f h k = Within-bind IsQuiet-preorder m f h k
