-- ===== src/Commands/Transfer/Consented.antt =====
-- src/cli/commands/transfer/mod.rs: the deletion phase and the snapshots after it keep the consent to
-- a deletion.
use vibe_caravan.Prelude.{ℕ, ◌≡◌, refl, Option, List, [], ◌∷◌, ◌++◌, Text, String, FilePath}
use vibe_caravan.Error.{Message}
use vibe_caravan.Config.{TransferConfig}
use vibe_caravan.Models.Batch.{MigrationPhase}
use vibe_caravan.Models.State.{MigrationState}
use vibe_caravan.Platform.{EnvLaws, PersistKeeps}
use vibe_caravan.Platform.Host.{Host, Json}
use vibe_caravan.Exec.{lift, modify}
use vibe_caravan.Exec.Within.{Within, Within-pure, Within-gets, Within-lift, Within-bind}
use vibe_caravan.Registry.{MigrationRegistry}
use vibe_caravan.Resume.Summary.{summarize_transfer_execution}
use vibe_caravan.Snapshot.{SnapshotBackend, push_snapshot_journal}
use vibe_caravan.Snapshot.Processing.{process_pending_snapshots}
use vibe_caravan.Snapshot.Processing.Allowed.{IsAllowed, process_pending_snapshots-within}
use vibe_caravan.SourceCompletion.Ledger.{SourceCompletionLedger}
use vibe_caravan.Transfer.{LocalFsCopyBackend}
use vibe_caravan.Commands.OperatorReview.{ensure_no_operator_review_blocks}
use vibe_caravan.Commands.Deletion.{approve_and_delete}
use vibe_caravan.Commands.Deletion.Consent.{Consents, Consents-preorder}
use vibe_caravan.Commands.Deletion.Gate.{Consents-persist_state}
use vibe_caravan.Commands.Deletion.Phase.{approve_and_delete-Held}
use vibe_caravan.Commands.Deletion.Steps.{
  Consents-attempt, Consents-call, Consents-modify, KeepsFlags-batches, KeepsFlags-record_snapshot,
  record_snapshot-IsValid,
}
use vibe_caravan.Commands.Transfer.{set_phase, run_delete_phase}
use vibe_caravan.Commands.Transfer.Quiet.{journal-IsValid, set_phase-IsValid}
use vibe_caravan.Commands.Transfer.Run.{final_phase, run_from_deletion}

-- The file is none that the making of a snapshot brings into being or takes away.
pub record IsOutside {W : Type 0} (host : Host W) (snapshots : SnapshotBackend W) (q : FilePath)
    : Type 0 where
  pub created :
      (dest : FilePath) (root : Option FilePath) (id : Text) (w : W)
      → host.env.exists q (snapshots.create_snapshot dest root id w).1 ≡ host.env.exists q w
  pub now : (w : W) → host.env.exists q (snapshots.now_unix_secs w).1 ≡ host.env.exists q w

module _ {W : Type 0} (host : Host W) (snapshots : SnapshotBackend W) (root q : FilePath)
    (laws : EnvLaws host.env) (kept : PersistKeeps host.env q)
    (outside : IsOutside host snapshots q) where
  Consents-journal :
      (event : String) (id : Text) (context : Message)
      → Within (Consents host.env root q) (push_snapshot_journal snapshots event id context)
  unfolding push_snapshot_journal
  Consents-journal event id context =
      Within-bind (Consents-preorder host.env root q) _ _
        (Consents-call host.env root q snapshots.now_unix_secs outside.now)
        λ now.
          let add = λ (s : MigrationState).
            s.journal
            ++ (record {
              event = event;
              batch_id = id;
              timestamp_unix_secs = now;
              context = context;
            }
                ∷ []) in
          Consents-modify host.env root q (λ s. record s { journal = add s })
            (λ s v. journal-IsValid s (add s) v) (λ s. refl)
            λ s v.
              KeepsFlags-batches s (record s { journal = add s }) v (journal-IsValid s (add s) v)
                refl

  Consents-IsAllowed : (ids : List Text) → IsAllowed host snapshots ids (Consents host.env root q)
  Consents-IsAllowed ids = record {
    preorder = Consents-preorder host.env root q;
    interrupt = Consents-attempt host.env root q host.env.check_interrupt (laws.interrupt_keeps q);
    created = λ dest base id.
        Consents-call host.env root q (snapshots.create_snapshot dest base id)
          (outside.created dest base id);
    journal = Consents-journal;
    persisted = Consents-persist_state host.env root q laws kept;
    recorded = λ id name m.
        Consents-modify host.env root q _ (record_snapshot-IsValid id name) (λ s. refl)
          (KeepsFlags-record_snapshot id name);
  }

  Consents-set_phase :
      (phase : MigrationPhase)
      → Within {W = W} (Consents host.env root q) (modify (set_phase phase))
  Consents-set_phase phase =
      Consents-modify host.env root q (set_phase phase) (set_phase-IsValid phase) (λ s. refl)
        λ s v. KeepsFlags-batches s (set_phase phase s) v (set_phase-IsValid phase s v) refl

module _ {W : Type 0} (host : Host W) (ledger : Json SourceCompletionLedger)
    (registry : Json MigrationRegistry) (registry_path : FilePath) (config : TransferConfig)
    (backend : LocalFsCopyBackend) (snapshots : SnapshotBackend W) (q : FilePath)
    (laws : EnvLaws host.env) (kept : PersistKeeps host.env q) where
  module _ (outside : IsOutside host snapshots q) where
    Consents-run_delete_phase :
        Within (Consents host.env config.source q) (run_delete_phase host ledger config backend)
    unfolding run_delete_phase
    Consents-run_delete_phase =
        let same = Consents-preorder host.env config.source q in
        Within-bind same _ _
          (Consents-attempt host.env config.source q host.env.check_interrupt
            (laws.interrupt_keeps q))
          λ _. Within-bind same _ _ (Within-gets same ensure_no_operator_review_blocks) λ checked.
            Within-bind same (lift checked)
              (λ _. approve_and_delete host.env config.source "execute_transfer" config.interactive)
              (Within-lift same checked)
              λ _. record {
                at = λ s.
                    approve_and_delete-Held host.env config.source q laws kept "execute_transfer"
                      config.interactive s;
              }

    pub Consents-run_from_deletion :
        (processed : ℕ)
        → Within (Consents host.env config.source q) (
            run_from_deletion host ledger registry registry_path config backend snapshots processed)
    unfolding run_from_deletion
    Consents-run_from_deletion processed =
        let same = Consents-preorder host.env config.source q in
        Within-bind same _ _ Consents-run_delete_phase λ _.
          Within-bind same
            (process_pending_snapshots host snapshots config.mode config.snapshot_every config.dest
              config.snapshot_dir)
            _
            (record {
              at = λ s.
                  process_pending_snapshots-within host snapshots config.mode config.snapshot_every
                    config.dest config.snapshot_dir (λ ids. Consents host.env config.source q)
                    (Consents-IsAllowed host snapshots config.source q laws kept outside) s;
            })
            λ _.
              Within-bind same _ _
                (Within-gets same (λ s. summarize_transfer_execution s processed))
                λ summary.
                  Within-bind same _ _
                    (Consents-set_phase host snapshots config.source q laws kept outside
                      (final_phase summary))
                    λ _.
                      Within-bind same _ _
                        (Consents-persist_state host.env config.source q laws kept)
                        λ _. Within-pure same summary
