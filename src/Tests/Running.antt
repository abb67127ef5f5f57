-- ===== src/Tests/Running.antt =====
-- The phases of a transfer at a concrete input: one batch of one file, on the disk in memory, with an
-- operator who approves.
use vibe_caravan.Prelude.{
  ◌≡◌, refl, ◌⊎◌, inl, inr, true, false, Option, none, some, [], ◌∷◌, text, FilePath, text_eq,
  path_eq, ◌==◌, sort_by, arith, Option-cases,
}
use vibe_caravan.Error.{ok, Result}
use vibe_caravan.Config.{Mode, CopyStrategy, ConflictPolicy, TransferConfig}
use vibe_caravan.Models.Batch.{Batch, MigrationPhase}
use vibe_caravan.Models.State.{
  new, batch, planned_batch, upsert_planned_batch, upsert_batch, batches_approved_but_not_deleted,
  batches_needing_approval, approve_batches, materialize_planned_batch,
}
use vibe_caravan.Models.State.Laws.{IsValid}
use vibe_caravan.Plan.Batching.{make_batch, PlanningSnapshot}
use vibe_caravan.Platform.{Metadata}
use vibe_caravan.Platform.Host.{Host, Json}
use vibe_caravan.Platform.Volume.{Content}
use vibe_caravan.Platform.Steady.{IsSteady}
use vibe_caravan.Exec.{Sys, pure}
use vibe_caravan.AtomicWrite.{temp_path_for}
use vibe_caravan.AtomicWrite.Quiet.{IsUnwritten}
use vibe_caravan.Registry.{MigrationRegistry, MigrationEntry, MigrationStatus}
use vibe_caravan.Snapshot.{SnapshotBackend}
use vibe_caravan.SourceCompletion.Ledger.{ledger_path}
use vibe_caravan.Transfer.{with_transfer_config}
use vibe_caravan.Transfer.AtomicCopy.{temp_destination_path}
use vibe_caravan.Transfer.BatchCopy.Quiet.{IsElsewhere}
use vibe_caravan.Commands.Deletion.Consent.{IsApproved}
use vibe_caravan.Commands.Transfer.Context.{
  default_registry_path, secondary_state_path, transfer_host,
}
use vibe_caravan.Commands.Transfer.Run.{run_phases, execute_transfer}
use vibe_caravan.Commands.Transfer.Whole.{run_phases-transfer_host}
use vibe_caravan.Commands.Transfer.Consented.{IsOutside}
use vibe_caravan.Commands.Transfer.Steady.{IsRegular}
use vibe_caravan.Models.Index.{ensure_index_consistent}
use vibe_caravan.Capacity.{check_capacity_with_probe_and_backend}
use vibe_caravan.Verify.{verify_batch}
use vibe_caravan.Prompt.{request_approval_for_batches, parse_yes_no}
use vibe_caravan.Cleanup.{cleanup_batch}
use vibe_caravan.Tests.Data.{file_of, path_a, id_1}
use vibe_caravan.Tests.Disk.{
  Disk, put, content, disk_host, disk_laws, disk-WriteLaws, disk_env-EnvLaws,
}
use vibe_caravan.Tests.Skipping.{ledger_json, state_json}

abbrev config : TransferConfig
config = record {
  mode = Mode.migrate;
  source = text "src" ∷ [];
  dest = text "mnt" ∷ text "dst" ∷ [];
  batch_size_bytes = 10;
  max_files = none;
  snapshot_every = none;
  snapshot_dir = none;
  interactive = true;
  log_level = "info";
  skip_conflicts = false;
  conflict_policy = ConflictPolicy.skip_file;
  recover_failed = false;
  allow_unsafe_filesystems = false;
  copy_strategy = CopyStrategy.auto;
}

abbrev one_batch : Batch
one_batch = record { id = id_1; files = file_of path_a 5 ∷ []; total_bytes = 5; file_count = 1 }

abbrev plan : PlanningSnapshot
plan = record { source_file_count = 1; source_total_bytes = 5; batches = one_batch ∷ [] }

abbrev source_a : FilePath
source_a = text "src" ∷ text "a.txt" ∷ []

abbrev metadata_of : Content → Option Metadata
metadata_of none = none
metadata_of (some bytes) = some (record { is_file = true; len = 5 })

-- Directories list no file, and every file reads as the five bytes.
abbrev host : Host Disk
host = record disk_host { metadata = λ w p. metadata_of (w p); read_dir = λ p w. inr [] }

-- The registry has one entry, for this migration.
abbrev running : MigrationEntry
running = record {
  id = 1;
  source = text "path";
  destination = text "path";
  mode = text "migrate";
  status = MigrationStatus.running;
  pending_status = none;
  created_at = 0;
  updated_at = 0;
  state_file = text "n.json";
}

abbrev registry_json : Json MigrationRegistry
registry_json = record {
  to_vec = λ r. [];
  from_str = λ bytes. inr (record { migrations = running ∷ []; next_id = 2 });
}

abbrev snapshots : SnapshotBackend Disk
snapshots = record {
  create_snapshot = λ dest root id w. (ok (text "snap"), w);
  now_unix_secs = λ w. (1700000000, w);
}

abbrev before : Sys Disk
before = record {
  state = new (text "migrate") (text "src") (text "dst");
  world =
      put default_registry_path (some [])
        (put (text "mnt" ∷ []) (some []) (put source_a (some (text "bytes")) (λ q. none)));
}

abbrev state_path : FilePath
state_path = text "src" ∷ text ".caravan" ∷ text "migration_0.json" ∷ []

abbrev after_run : Sys Disk
after_run =
    (run_phases (transfer_host host state_json state_path) ledger_json registry_json
      default_registry_path config (with_transfer_config false config) snapshots 1 plan before).1

elsewhere : IsElsewhere config.dest source_a
unfolding path_eq text_eq temp_destination_path
elsewhere = record { place = place; temp = temp }
  where
    place : (p : FilePath) → ((text "mnt" ∷ text "dst" ∷ p) == source_a) ≡ false
    place p = refl

    temp :
        (p : FilePath) → (temp_destination_path (text "mnt" ∷ text "dst" ∷ p) == source_a) ≡ false
    temp [] = refl
    temp (c ∷ p) = refl

-- A path of this kind and its temporary files have another directory.
unwritten : IsUnwritten (ledger_path config.source) source_a
unfolding path_eq text_eq ledger_path temp_path_for
unwritten = record { target = refl; temp = λ name unique. refl }

unregistered : IsUnwritten default_registry_path source_a
unfolding path_eq text_eq temp_path_for
unregistered = record { target = refl; temp = λ name unique. refl }

primary : IsUnwritten state_path source_a
unfolding path_eq text_eq temp_path_for
primary = record { target = refl; temp = λ name unique. refl }

secondary : IsUnwritten secondary_state_path source_a
unfolding path_eq text_eq temp_path_for
secondary = record { target = refl; temp = λ name unique. refl }

regular : IsRegular host content source_a
regular w there = elim (Option-cases (w source_a)) [
  | inl none_there ↦ absurd (ground (arith, rw none_there at there))
  | inr (bytes, here) ↦ (bytes, here)
]

steady : IsSteady host content source_a
steady = record {
  volume_laws = disk_laws;
  write_laws = disk-WriteLaws;
  suffix_same = λ p w. refl;
  now_same = λ w. refl;
  space_same = λ dest w. refl;
  persist_same = λ s w. refl;
}

outside : IsOutside host snapshots source_a
outside = record { created = λ dest root id w. refl; now = λ w. refl }

new_state-IsValid : IsValid before.state
unfolding new
new_state-IsValid = record {
  batches_differ = tt;
  planned_differ = tt;
  batch_map = tt;
  planned_map = tt;
}

run_phases-transfer_host_example :
    IsValid after_run.state
    × ((host.env.exists source_a after_run.world ≡ true)
        ⊎ IsApproved config.source source_a after_run.state)
unfolding path_eq
run_phases-transfer_host_example =
    run_phases-transfer_host host state_json state_path ledger_json registry_json
      default_registry_path config (with_transfer_config false config) snapshots content source_a
      disk_env-EnvLaws steady regular outside elsewhere unwritten unregistered primary secondary 1
      plan before (text "bytes") new_state-IsValid refl

-- The run copies the file, verifies the copy and deletes the file.
run_phases_1 :
    (host.env.exists source_a after_run.world ≡ false)
    × (after_run.state.migration_phase ≡ MigrationPhase.completed)
unfolding path_eq run_phases batch planned_batch new upsert_planned_batch ensure_index_consistent
    upsert_batch check_capacity_with_probe_and_backend with_transfer_config sort_by verify_batch
    batches_approved_but_not_deleted batches_needing_approval request_approval_for_batches
    parse_yes_no approve_batches materialize_planned_batch cleanup_batch transfer_host
run_phases_1 = (refl, refl)

-- The command as a whole does so too, from a scan that finds the file.
abbrev command : Result (Unit {0}) × Sys Disk
command =
    execute_transfer host state_json ledger_json registry_json
      (λ root. pure (file_of path_a 5 ∷ [])) (λ snapshot. pure tt) snapshots config before

execute_transfer_1 :
    (command.0 ≡ ok tt)
    × (host.env.exists source_a command.1.world ≡ false)
    × (command.1.state.migration_phase ≡ MigrationPhase.completed)
unfolding execute_transfer path_eq run_phases batch planned_batch new upsert_planned_batch
    ensure_index_consistent upsert_batch check_capacity_with_probe_and_backend with_transfer_config
    sort_by verify_batch batches_approved_but_not_deleted batches_needing_approval
    request_approval_for_batches parse_yes_no approve_batches materialize_planned_batch
    cleanup_batch transfer_host make_batch
execute_transfer_1 = (refl, refl, refl)
