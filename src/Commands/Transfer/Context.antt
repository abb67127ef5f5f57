-- ===== src/Commands/Transfer/Context.antt =====
-- src/cli/commands/transfer/context.rs and setup.rs, src/cli/commands/shared/app_context.rs and
-- src/migration_registry.rs: where a transfer keeps its state, and its entry in the registry. The
-- signal handlers are not modelled.
use vibe_caravan.Prelude.{
  ℕ, [], ◌∷◌, ◌++◌, Text, text, FilePath, join, take, backslash_to_slash, to_ascii_lowercase,
  if◌then◌else◌,
}
use vibe_caravan.Platform.Host.{Host, Json}
use vibe_caravan.Exec.{Exec, pure, ◌>>=◌, ◌>>◌}
use vibe_caravan.Registry.{
  MigrationRegistry, MigrationStatus, register_or_reuse_migration,
  persist_status_transition_with_intent,
}
use vibe_caravan.SourceCompletion.Ledger.{state_dir_in_source}
use vibe_caravan.SourceCompletion.Identity.{hex_lower}
use vibe_caravan.StateStore.{StateJson, persist_state_with_compat_backup}

abbrev pub default_registry_path : FilePath
default_registry_path = text ".caravan" ∷ text "migrations.json" ∷ []

abbrev pub secondary_state_path : FilePath
secondary_state_path = text ".caravan" ∷ text "state.json" ∷ []

module _ {W : Type 0} (host : Host W) where
  unfoldable pub normalize_path_for_state_hash : Text → Text
  unfolding backslash_to_slash
  normalize_path_for_state_hash path =
      let normalized = backslash_to_slash path in
      if host.is_windows then to_ascii_lowercase normalized else normalized

  -- The first 16 digits of the hash are part of the name.
  unfoldable pub generate_state_filename : Text → Text → Text
  unfolding normalize_path_for_state_hash hex_lower
  generate_state_filename source dest =
      let hash = host.blake3 (
        host.as_bytes (normalize_path_for_state_hash source)
        ++ (0 ∷ host.as_bytes (normalize_path_for_state_hash dest))) in
      text "migration_" ++ (take 16 (hex_lower hash) ++ text ".json")

  unfoldable pub state_file_in_source : FilePath → FilePath → FilePath
  unfolding generate_state_filename
  state_file_in_source source dest =
      join (state_dir_in_source source)
        (generate_state_filename (host.to_string_lossy source) (host.to_string_lossy dest) ∷ [])

  -- `TransferContext::persist_state`, as the call that the phases are given.
  unfoldable pub transfer_host : StateJson → FilePath → Host W
  unfolding persist_state_with_compat_backup
  transfer_host json state_path = record host {
    env = record host.env {
      persist = λ state w.
          let (r, t) =
            persist_state_with_compat_backup host json state_path secondary_state_path state
              (record { state = state; world = w }) in
          (r, t.world);
    };
  }

  module _ (registry : Json MigrationRegistry) (registry_path : FilePath) where
    unfoldable pub persist_migration_status : ℕ → MigrationStatus → Exec W (Unit {0})
    unfolding persist_status_transition_with_intent
    persist_migration_status id status =
        persist_status_transition_with_intent host registry registry_path id status

    unfoldable pub register_migration : Text → Text → Text → Text → Exec W ℕ
    unfolding register_or_reuse_migration persist_migration_status
    register_migration source dest mode state_filename = do
      (id, created) ←
          register_or_reuse_migration host registry registry_path source dest mode state_filename
      persist_migration_status id MigrationStatus.running
      pure id
