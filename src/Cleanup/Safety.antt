-- ===== src/Cleanup/Safety.antt =====
-- src/cleanup.rs: the guards of the deletion, and what a whole cleanup may change.
use vibe_caravan.Prelude.{
  ◌≡◌, refl, sym, ◌∙◌, inl, inr, Bool, true, false, not, Option, none, some, Text, String, FilePath,
  text_eq, path_eq, if◌then◌else◌, Option-cases, ◌&&◌,
}
use vibe_caravan.Error.{ok}
use vibe_caravan.Models.Batch.{Batch, BatchState}
use vibe_caravan.Models.State.{MigrationState, batch}
use vibe_caravan.Models.State.Keyed.{id_of-find_id}
use vibe_caravan.Models.State.Laws.{IsValid, batch_id, batch-eq-find_id}
use vibe_caravan.Platform.{Env, EnvLaws}
use vibe_caravan.Exec.{Sys, Exec, pure, raise_if, ◌>>=◌}
use vibe_caravan.Cleanup.{delete_batch, cleanup_found, cleanup_batch, not_verified, not_approved}
use vibe_caravan.Cleanup.Effects.{Touches, places, AreAmong-places, Touches-guarded}

pub batch-id :
    (s : MigrationState) (id : Text) (b : BatchState)
    → IsValid s
    → batch s id ≡ some b
    → b.batch_id ≡ id
batch-id s id b v h =
    id_of-find_id batch_id s.batches id {x = b} (sym (batch-eq-find_id s id v) ∙ h)

-- The operator's consent, as the cleanup reads it.
abbrev pub may_delete : Option BatchState → Bool
may_delete none = false
may_delete (some b) = b.verification_passed && (b.approved_for_delete && not b.deleted)

-- The three guards, over their tests.
module _ {W : Type 0} (verified approved deleted : Bool) (m : Exec W (Unit {0})) where
  abbrev pub guarded : Exec W (Unit {0})
  guarded = raise_if (not verified) not_verified >>= λ _.
      raise_if (not approved) not_approved >>= λ _. if deleted then pure tt else m

module _ {W : Type 0} where
  pub guards-stop :
      (verified approved deleted : Bool) (m : Exec W (Unit {0})) (s : Sys W)
      → (verified && (approved && not deleted)) ≡ false
      → (guarded verified approved deleted m s).1 ≡ s
  guards-stop false a d m s h = refl
  guards-stop true false d m s h = refl
  guards-stop true true true m s h = refl
  guards-stop true true false m s h = absurd (cc)

  pub guards-pass :
      (verified approved deleted : Bool) (m : Exec W (Unit {0})) (s : Sys W)
      → (verified && (approved && not deleted)) ≡ true
      → guarded verified approved deleted m s ≡ m s
  guards-pass true true false m s h = refl
  guards-pass true true true m s h = absurd (cc)
  guards-pass true false d m s h = absurd (cc)
  guards-pass false a d m s h = absurd (cc)

  pub guards-ok :
      (verified approved deleted : Bool) (m : Exec W (Unit {0})) (s : Sys W)
      → deleted ≡ false
      → (guarded verified approved deleted m s).0 ≡ ok tt
      → guarded verified approved deleted m s ≡ m s
  guards-ok true true false m s k h = refl
  guards-ok true true true m s k h = absurd (cc)
  guards-ok true false d m s k h = absurd (cc)
  guards-ok false a d m s k h = absurd (cc)

module _ {W : Type 0} (env : Env W) where
  gate :
      (bt : Batch) (root : FilePath) (context : String) (b : BatchState) (s : Sys W)
      → may_delete (some b) ≡ false
      → (cleanup_found env bt root context b s).1 ≡ s
  gate bt root context b s k =
      guards-stop b.verification_passed b.approved_for_delete b.deleted
        (delete_batch env bt root context b) s k

  -- Without a batch that is verified, approved and not yet deleted, a cleanup changes nothing: it
  -- removes no file and leaves the state as it was.
  pub cleanup_batch-gate :
      (bt : Batch) (root : FilePath) (context : String) (s : Sys W)
      → may_delete (batch s.state bt.id) ≡ false
      → (cleanup_batch env bt root context s).1 ≡ s
  unfolding cleanup_batch
  cleanup_batch-gate bt root context s h = elim (Option-cases (batch s.state bt.id)) [
    | inl e ↦ rw e refl
    | inr (b, e) ↦ rw e (gate bt root context b s (rw e at h))
  ]

  -- Whatever a cleanup of a valid state comes to, it changes the record of its own batch and no
  -- other, and keeps that batch's verification and approval. It keeps the state valid and its
  -- manifest, removes no file but those of the batch, and makes none.
  pub cleanup_batch-Touches :
      (laws : EnvLaws env) (bt : Batch) (root : FilePath) (context : String) (b : BatchState)
      (s : Sys W)
      → IsValid s.state
      → batch s.state bt.id ≡ some b
      → Touches env laws b bt.id (places root bt.files) s (cleanup_batch env bt root context s).1
  unfolding cleanup_batch
  cleanup_batch-Touches laws bt root context b s v found =
      let step =
        Touches-guarded env laws b bt.id (places root bt.files) context root bt
          (batch-id s.state bt.id b v found) (AreAmong-places root bt.files) in
      rw found (step.at s)
