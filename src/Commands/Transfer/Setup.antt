-- ===== src/Commands/Transfer/Setup.antt =====
-- src/cli/commands/transfer/setup.rs: the state a transfer starts from.
pub mod Seeding
use vibe_caravan.Prelude.{
  ◌⊎◌, inl, inr, Bool, true, false, ◌&&◌, ◌||◌, not, Option, none, some, List, [], ◌∷◌, Text, text,
  text_eq, ◌==◌, backslash_to_slash, FilePath, join, to_ascii_lowercase, if◌then◌else◌,
}
use vibe_caravan.Error.{CaravanError, IoError, Arg, message}
use vibe_caravan.Config.{Mode, TransferConfig}
use vibe_caravan.Models.Batch.{Batch, from_batch}
use vibe_caravan.Models.State.{
  MigrationState, new, batch, upsert_batch, planned_batch, upsert_planned_batch,
}
use vibe_caravan.Plan.Batching.{PlanningSnapshot}
use vibe_caravan.Platform.Host.{Host}
use vibe_caravan.Exec.{Exec, pure, raise, lift, ask, call, ◌>>=◌, ◌>>◌}
use vibe_caravan.Transfer.{normalize_legacy_copy_strategy}
use vibe_caravan.SourceCompletion.Ledger.{state_dir_in_source}
use vibe_caravan.StateStore.{
  StateJson, ReconciledState, ReconciledStateSource, load_state_reconciled,
}
use vibe_caravan.Commands.Transfer.{planned_batch_state}

unfoldable pub mode_name : Mode → Text
mode_name Mode.staging = text "staging"
mode_name Mode.migrate = text "migrate"

-- The paths of a configuration are kept as texts in the state.
unfoldable pub apply_transfer_config :
    (FilePath → Text) → TransferConfig → MigrationState → MigrationState
apply_transfer_config to_text config s = record s {
  batch_size_bytes = config.batch_size_bytes;
  max_files = config.max_files;
  snapshot_every = config.snapshot_every;
  snapshot_dir = elim config.snapshot_dir [ none ↦ none | some path ↦ some (to_text path) ];
  copy_strategy = config.copy_strategy;
}

-- The two `if`s of the loop.
abbrev pub seed_planned : Batch → MigrationState → MigrationState
unfolding from_batch
seed_planned bt s = elim (planned_batch s bt.id) [
  | none ↦ upsert_planned_batch (from_batch bt) s
  | some p ↦ s
]

abbrev pub seed_state : Batch → MigrationState → MigrationState
seed_state bt s = elim (batch s bt.id) [
  | none ↦ upsert_batch (planned_batch_state bt.id) s
  | some b ↦ s
]

unfoldable pub seed_batches : List Batch → MigrationState → MigrationState
unfolding seed_planned
seed_batches [] s = s
seed_batches (bt ∷ rest) s = seed_batches rest (seed_state bt (seed_planned bt s))

unfoldable pub seed_state_batches : PlanningSnapshot → MigrationState → MigrationState
unfolding seed_batches
seed_state_batches plan s = seed_batches plan.batches s

abbrev identity_mismatch_error : MigrationState → Text → Text → Text → CaravanError
identity_mismatch_error loaded mode source dest = CaravanError.invalid_arguments (
    message
      "state identity mismatch: loaded state references mode='{}' source='{}' destination='{}' but current command is mode='{}' source='{}' destination='{}'"
      (Arg.word loaded.mode
        ∷ Arg.word loaded.source
        ∷ Arg.word loaded.destination
        ∷ Arg.word mode
        ∷ Arg.word source
        ∷ Arg.word dest
        ∷ []))

abbrev write_access_error : FilePath → IoError → CaravanError
write_access_error source e =
    CaravanError.io_context
      (message "cannot write state to source directory {}: need write access"
        (Arg.path source ∷ []))
      e

module _ {W : Type 0} (host : Host W) where
  abbrev canonical_or : Text → IoError ⊎ FilePath → FilePath
  canonical_or path (inl e) = host.path_of path
  canonical_or path (inr canonical) = canonical

  unfoldable pub normalize_identity_path : Text → W → Text
  unfolding backslash_to_slash
  normalize_identity_path path w =
      let normalized =
        backslash_to_slash
          (host.to_string_lossy (canonical_or path (host.canonicalize (host.path_of path) w))) in
      if host.is_windows then to_ascii_lowercase normalized else normalized

  unfoldable pub state_identity_matches : MigrationState → Text → Text → Text → W → Bool
  unfolding normalize_identity_path
  state_identity_matches s mode source dest w =
      (to_ascii_lowercase s.mode == to_ascii_lowercase mode)
      && ((normalize_identity_path s.source w == normalize_identity_path source w)
          && (normalize_identity_path s.destination w == normalize_identity_path dest w))

  abbrev or_no_access : FilePath → Option IoError → Exec W (Unit {0})
  or_no_access source none = pure tt
  or_no_access source (some e) = raise (write_access_error source e)

  abbrev create_state_dir : FilePath → Bool → Exec W (Unit {0})
  create_state_dir source true = pure tt
  create_state_dir source false =
      call (host.volume.create_dir_all (state_dir_in_source source)) >>= λ answer.
      or_no_access source answer

  -- `migration_registry::check_source_writable`.
  unfoldable pub check_source_writable : FilePath → Exec W (Unit {0})
  check_source_writable source = do
    there ← ask (host.env.exists (state_dir_in_source source))
    create_state_dir source there
    written ←
        call
          (host.write (join (state_dir_in_source source) (text ".write_test" ∷ [])) (text "test"))
    or_no_access source written
    call (host.env.remove_file (join (state_dir_in_source source) (text ".write_test" ∷ [])))
    pure tt

  abbrev new_state : FilePath → Text → Text → Text → Exec W MigrationState
  unfolding check_source_writable new
  new_state source_root mode source dest =
      check_source_writable source_root >>= λ writable. pure (new mode source dest)

  -- A mismatch in the canonical state is an error; a backup that does not match is ignored.
  abbrev handle_state_identity_mismatch :
      FilePath
      → Text
      → Text
      → Text
      → ReconciledState
      → ReconciledStateSource
      → Exec W MigrationState
  unfolding new_state
  handle_state_identity_mismatch source_root mode source dest loaded ReconciledStateSource.primary =
      raise (identity_mismatch_error loaded.state mode source dest)
  handle_state_identity_mismatch source_root mode source dest loaded
        ReconciledStateSource.secondary =
      new_state source_root mode source dest

  abbrev pub normalize_strategy : MigrationState → MigrationState
  unfolding normalize_legacy_copy_strategy
  normalize_strategy s = record s {
    copy_strategy = normalize_legacy_copy_strategy host.is_windows s.copy_strategy;
  }

  abbrev accept_loaded : FilePath → Text → Text → Text → ReconciledState → Exec W MigrationState
  unfolding state_identity_matches handle_state_identity_mismatch normalize_strategy
  accept_loaded source_root mode source dest loaded =
      ask (state_identity_matches loaded.state mode source dest) >>= λ matches.
      if not matches
      then handle_state_identity_mismatch source_root mode source dest loaded loaded.source
      else pure (normalize_strategy loaded.state)

  abbrev load_or_new :
      StateJson → FilePath → FilePath → FilePath → Text → Text → Text → Bool → Exec W MigrationState
  unfolding accept_loaded load_state_reconciled new_state
  load_or_new json source_root state_path secondary_state_path mode source dest true =
      ask (load_state_reconciled host json state_path secondary_state_path)
      >>= (λ loaded. lift loaded >>= λ r. accept_loaded source_root mode source dest r)
  load_or_new json source_root state_path secondary_state_path mode source dest false =
      new_state source_root mode source dest

  unfoldable pub load_or_create_state :
      StateJson → FilePath → FilePath → FilePath → Text → Text → Text → Exec W MigrationState
  unfolding load_or_new
  load_or_create_state json source_root state_path secondary_state_path mode source dest = do
    present ← ask (λ w. host.env.exists state_path w || host.env.exists secondary_state_path w)
    load_or_new json source_root state_path secondary_state_path mode source dest present
