-- ===== src/Commands/Transfer/Whole.antt =====
-- src/cli/commands/transfer/mod.rs: what the phases of a transfer do to one source file.
use vibe_caravan.Prelude.{ℕ, ◌+◌, ◌≡◌, ◌∙◌, ◌⊎◌, inl, inr, true, some, List, FilePath, Bool-cases}
use vibe_caravan.Error.{Result, ok, err}
use vibe_caravan.Config.{TransferConfig}
use vibe_caravan.Models.Batch.{MigrationPhase}
use vibe_caravan.Models.State.Laws.{IsValid}
use vibe_caravan.Plan.Batching.{PlanningSnapshot}
use vibe_caravan.Platform.{EnvLaws, PersistKeeps}
use vibe_caravan.Platform.Host.{Host, Json}
use vibe_caravan.Platform.Volume.{Content}
use vibe_caravan.Platform.Steady.{IsSteady}
use vibe_caravan.Exec.{Sys, after}
use vibe_caravan.Exec.Within.{Within-pure}
use vibe_caravan.Exec.Quiet.{IsQuiet-preorder, Quiet, Quiet-modify, Quiet-bind}
use vibe_caravan.AtomicWrite.Quiet.{IsUnwritten}
use vibe_caravan.Registry.{MigrationRegistry, MigrationStatus}
use vibe_caravan.Registry.Quiet.{Quiet-persist_status}
use vibe_caravan.Snapshot.{SnapshotBackend}
use vibe_caravan.SourceCompletion.Ledger.{SourceCompletionLedger, ledger_path}
use vibe_caravan.Transfer.{LocalFsCopyBackend}
use vibe_caravan.Transfer.BatchCopy.Quiet.{IsElsewhere}
use vibe_caravan.Commands.Deletion.Consent.{IsApproved, Held}
use vibe_caravan.Commands.Transfer.Setup.{seed_state_batches}
use vibe_caravan.Commands.Transfer.Setup.Seeding.{seed_state_batches-IsSeeded}
use vibe_caravan.Commands.Transfer.Quiet.{Quiet-persist_state, Quiet-set_phase}
use vibe_caravan.Commands.Transfer.Quiet.Copying.{Quiet-run_copy_phase}
use vibe_caravan.Commands.Transfer.Quiet.Verifying.{Quiet-run_verify_phase}
use vibe_caravan.Commands.Transfer.Context.{
  secondary_state_path, transfer_host, persist_migration_status,
}
use vibe_caravan.Commands.Transfer.Consented.{IsOutside, Consents-run_from_deletion}
use vibe_caravan.Commands.Transfer.Steady.{
  IsRegular, PersistKeeps-same, transfer_host-EnvLaws, transfer_host-IsSteady,
}
use vibe_caravan.StateStore.{StateJson}
use vibe_caravan.Commands.Transfer.Run.{run_to_deletion, run_from_deletion, run_phases}

module _ {W : Type 0} (host : Host W) (ledger : Json SourceCompletionLedger)
    (registry : Json MigrationRegistry) (registry_path : FilePath) (config : TransferConfig)
    (backend : LocalFsCopyBackend) (snapshots : SnapshotBackend W) (q : FilePath)
    (laws : EnvLaws host.env) (kept : PersistKeeps host.env q) where
  module _ (content : FilePath → W → Content) (steady : IsSteady host content q)
      (elsewhere : IsElsewhere config.dest q)
      (unwritten : IsUnwritten (ledger_path config.source) q)
      (unregistered : IsUnwritten registry_path q) where
    Quiet-status :
        (id : ℕ) (status : MigrationStatus)
        → Quiet content q (persist_migration_status host registry registry_path id status)
    unfolding persist_migration_status
    Quiet-status id status =
        Quiet-persist_status host registry registry_path content q steady unregistered id status

    -- Up to the deletion no call touches a file that is none of the destination's, the ledger's or
    -- the registry's, and the state stays valid.
    pub run_to_deletion-Quiet :
        (id : ℕ) (plan : PlanningSnapshot)
        → Quiet content q
            (run_to_deletion host ledger registry registry_path config backend snapshots id plan)
    unfolding run_to_deletion
    run_to_deletion-Quiet id plan =
        Quiet-bind content q _ _
          (Quiet-modify content q (seed_state_batches plan)
            (λ s v. (seed_state_batches-IsSeeded plan s v).valid))
          λ _. Quiet-bind content q _ _ (Quiet-persist_state host content q steady) λ _.
            Quiet-bind content q _ _
              (Quiet-run_copy_phase host ledger config backend content q steady elsewhere unwritten
                plan)
              λ copied. Quiet-bind content q _ _ (Quiet-status id MigrationStatus.verifying) λ _.
                Quiet-bind content q _ _
                  (Quiet-run_verify_phase host ledger config backend content q steady unwritten
                    plan)
                  λ verified.
                    Quiet-bind content q _ _
                      (Quiet-set_phase host content q steady MigrationPhase.awaiting_deletion)
                      λ _. Quiet-bind content q _ _ (Quiet-persist_state host content q steady) λ _.
                        Quiet-bind content q _ _ (Quiet-status id MigrationStatus.awaiting_deletion)
                          λ _. Within-pure (IsQuiet-preorder content q) (copied + verified)

    kept_or_approved :
        (s t : Sys W)
        → Held host.env config.source q s t
        → host.env.exists q s.world ≡ true
        → (host.env.exists q t.world ≡ true) ⊎ IsApproved config.source q t.state
    kept_or_approved s t held there = elim (Bool-cases (host.env.exists q t.world)) [
      | inl still ↦ inl still
      | inr gone ↦ inr (held.removed there gone)
    ]

    module _ (outside : IsOutside host snapshots q) where
      after-deletion :
          (r : Result ℕ) (t : Sys W)
          → IsValid t.state
          → host.env.exists q t.world ≡ true
          → let u =
              (after r
                (run_from_deletion host ledger registry registry_path config backend snapshots)
                t).1 in
            IsValid u.state
            × ((host.env.exists q u.world ≡ true) ⊎ IsApproved config.source q u.state)
      after-deletion (ok n) t v there =
          let held =
            (Consents-run_from_deletion host ledger registry registry_path config backend snapshots
                q laws kept outside n).at
              t v in
          (held.valid, kept_or_approved t _ held there)
      after-deletion (err e) t v there = (v, inl there)

      -- The same for the whole run, from a valid state and with a file that had some bytes.
      pub run_phases-approved :
          (id : ℕ) (plan : PlanningSnapshot) (s : Sys W) (bytes : List ℕ)
          → IsValid s.state
          → content q s.world ≡ some bytes
          → let u =
              (run_phases host ledger registry registry_path config backend snapshots id plan
                s).1 in
            IsValid u.state
            × ((host.env.exists q u.world ≡ true) ⊎ IsApproved config.source q u.state)
      unfolding run_phases
      run_phases-approved id plan s bytes v here =
          let t =
            run_to_deletion host ledger registry registry_path config backend snapshots id plan s in
          let quiet = (run_to_deletion-Quiet id plan).at s in
          after-deletion t.0 t.1 (quiet.valid v)
            (steady.write_laws.there q t.1.world bytes (quiet.same ∙ here))

module _ {W : Type 0} (host : Host W) (json : StateJson) (state_path : FilePath)
    (ledger : Json SourceCompletionLedger) (registry : Json MigrationRegistry)
    (registry_path : FilePath) (config : TransferConfig) (backend : LocalFsCopyBackend)
    (snapshots : SnapshotBackend W) (content : FilePath → W → Content) (q : FilePath)
    (laws : EnvLaws host.env) (steady : IsSteady host content q)
    (regular : IsRegular host content q) (outside : IsOutside host snapshots q)
    (elsewhere : IsElsewhere config.dest q) (unwritten : IsUnwritten (ledger_path config.source) q)
    (unregistered : IsUnwritten registry_path q) (primary : IsUnwritten state_path q)
    (secondary : IsUnwritten secondary_state_path q) where
  -- Whatever the phases of a transfer come to, on a machine that does what is documented, from a
  -- valid state and with a file that had some bytes, where the file is none of the destination, of
  -- the snapshots, of the two states, the ledger and the registry, nor of their temporary files, and
  -- no directory comes to stand in its place: the state is valid after, and the file is there, or it
  -- is of the manifest of a batch that is verified and approved in that state.
  pub run_phases-transfer_host :
      (id : ℕ) (plan : PlanningSnapshot) (s : Sys W) (bytes : List ℕ)
      → IsValid s.state
      → content q s.world ≡ some bytes
      → let u =
          (run_phases
            (transfer_host host json state_path)
            ledger
            registry
            registry_path
            config
            backend
            snapshots
            id
            plan
            s).1 in
        IsValid u.state × ((host.env.exists q u.world ≡ true) ⊎ IsApproved config.source q u.state)
  unfolding transfer_host
  run_phases-transfer_host id plan s bytes v here =
      let t = transfer_host host json state_path in
      let steady' =
        transfer_host-IsSteady host json state_path content q steady primary secondary in
      run_phases-approved t ledger registry registry_path config backend snapshots q
        (transfer_host-EnvLaws host json state_path laws)
        (PersistKeeps-same t content q steady'.write_laws regular steady'.persist_same) content
        steady' elsewhere unwritten unregistered
        (record { created = outside.created; now = outside.now }) id plan s bytes v here
