-- ===== src/Commands/Deletion/Steps.antt =====
-- src/cli/commands/: the steps around the deletion of the batches, under the relation of Consent.
use vibe_caravan.Prelude.{
  ◌≡◌, refl, sym, ◌∙◌, inl, inr, some, List, [], ◌∷◌, arith, Text, text_eq, ◌==◌, FilePath,
  Bool-cases,
}
use vibe_caravan.Error.{Result}
use vibe_caravan.Models.Batch.{BatchState}
use vibe_caravan.Models.State.{MigrationState, batch_ids, set_first_batch}
use vibe_caravan.Models.State.Keyed.{find_id}
use vibe_caravan.Models.State.Laws.{IsValid, batch_id, batch-eq-find_id}
use vibe_caravan.Platform.{Env}
use vibe_caravan.Exec.{attempt, call, modify}
use vibe_caravan.Exec.Within.{Within}
use vibe_caravan.Snapshot.{mark_snapshot, record_snapshot, find_id-set_first}
use vibe_caravan.Commands.Deletion.Consent.{
  KeepsFlags, planned_batch-same, Consents, Consents-world,
}

batch_ids-set_first :
    (id : Text) (bs : List BatchState)
    → batch_ids (set_first_batch id mark_snapshot bs) ≡ batch_ids bs
batch_ids-set_first id [] = refl
batch_ids-set_first id (b ∷ bs) = ground (arith, batch_ids-set_first id bs)

pub record_snapshot-IsValid :
    (id name : Text) (s : MigrationState) → IsValid s → IsValid (record_snapshot id name s)
record_snapshot-IsValid id name s v = record {
  batches_differ = rw (batch_ids-set_first id s.batches) v.batches_differ;
  planned_differ = v.planned_differ;
  batch_map = v.batch_map;
  planned_map = v.planned_map;
}

pub KeepsFlags-record_snapshot :
    (id name : Text) (s : MigrationState) → IsValid s → KeepsFlags s (record_snapshot id name s)
KeepsFlags-record_snapshot id name s v j b e =
    let t = record_snapshot id name s in
    let found : find_id batch_id s.batches j ≡ some b = sym (batch-eq-find_id s j v) ∙ e in
    let here =
      batch-eq-find_id t j (record_snapshot-IsValid id name s v)
      ∙ find_id-set_first id j s.batches in
    elim (Bool-cases (id == j)) [
      | inl same ↦ (mark_snapshot b, here ∙ rw (same, found) refl, (λ x. x, λ x. x))
      | inr other ↦ (b, here ∙ rw (other, found) refl, (λ x. x, λ x. x))
    ]

-- A state with the same records has the same flags.
pub KeepsFlags-batches :
    (s t : MigrationState) → IsValid s → IsValid t → t.batches ≡ s.batches → KeepsFlags s t
KeepsFlags-batches s t v w same j b e =
    (b, batch-eq-find_id t j w ∙ rw same (sym (batch-eq-find_id s j v) ∙ e), (λ x. x, λ x. x))

module _ {W : Type 0} (env : Env W) (root q : FilePath) where
  module _ {A : Type 0} where
    pub Consents-attempt :
        (f : W → Result A × W)
        → ((w : W) → env.exists q (f w).1 ≡ env.exists q w)
        → Within (Consents env root q) (attempt f)
    Consents-attempt f h = record {
      at = λ s. Consents-world env root q s (attempt f s).1 refl (h s.world);
    }

    pub Consents-call :
        (f : W → A × W)
        → ((w : W) → env.exists q (f w).1 ≡ env.exists q w)
        → Within (Consents env root q) (call f)
    Consents-call f h = record {
      at = λ s. Consents-world env root q s (call f s).1 refl (h s.world);
    }

  pub Consents-modify :
      (f : MigrationState → MigrationState)
      → ((s : MigrationState) → IsValid s → IsValid (f s))
      → ((s : MigrationState) → (f s).planned_batches ≡ s.planned_batches)
      → ((s : MigrationState) → IsValid s → KeepsFlags s (f s))
      → Within {W = W} (Consents env root q) (modify f)
  Consents-modify f h m k = record {
    at = λ s v. record {
      valid = h s.state v;
      manifest = λ j. planned_batch-same s.state (f s.state) j v (h s.state v) (m s.state);
      flags = k s.state v;
      none_new = λ n. n;
      removed = λ there gone. absurd (cc (there, gone));
    };
  }
