-- ===== src/SourceCompletion/Ledger.antt =====
-- src/source_completion/ledger.rs.
use vibe_caravan.Prelude.{
  ℕ, ◌⊎◌, inl, inr, not, List, [], ◌∷◌, text, FilePath, join, nat_beq, if◌then◌else◌,
}
use vibe_caravan.Error.{Result, ok, err, CaravanError, IoError, Arg, Message, message}
use vibe_caravan.Models.Batch.{CompletedFileIdentity}
use vibe_caravan.Platform.Host.{Host, Json}
use vibe_caravan.Exec.{Exec}
use vibe_caravan.AtomicWrite.{write_bytes}

abbrev ledger_format_version : ℕ
ledger_format_version = 1

pub record SourceCompletionLedger : Type 0 where
  pub format_version : ℕ
  pub entries : List CompletedFileIdentity

-- `SourceCompletionLedger::new`.
abbrev pub empty_ledger : SourceCompletionLedger
empty_ledger = record { format_version = ledger_format_version; entries = [] }

-- `migration_registry::state_dir_in_source`.
abbrev pub state_dir_in_source : FilePath → FilePath
state_dir_in_source source = join source (text ".caravan" ∷ [])

unfoldable pub ledger_path : FilePath → FilePath
ledger_path source_root =
    join (state_dir_in_source source_root) (text "source_completed_files.json" ∷ [])

abbrev version_error : ℕ → FilePath → CaravanError
version_error version path = CaravanError.state_corrupt (
    message "unsupported source completion ledger format version {} in {}"
      (Arg.num version ∷ Arg.path path ∷ []))

abbrev pub check_version : FilePath → SourceCompletionLedger → Result SourceCompletionLedger
check_version path ledger =
    if not (nat_beq ledger.format_version ledger_format_version)
    then err (version_error ledger.format_version path)
    else ok ledger

abbrev pub parsed_ledger :
    FilePath → Message ⊎ SourceCompletionLedger → Result SourceCompletionLedger
parsed_ledger path (inl why) = err (CaravanError.state_parse path why)
parsed_ledger path (inr ledger) = check_version path ledger

module _ {W : Type 0} (host : Host W) (json : Json SourceCompletionLedger) where
  abbrev pub read_ledger : FilePath → IoError ⊎ List ℕ → Result SourceCompletionLedger
  read_ledger path (inl e) = err (CaravanError.state_read path e)
  read_ledger path (inr payload) = parsed_ledger path (json.from_str payload)

  -- The ledger in a world; loading changes nothing.
  unfoldable pub ledger_in : FilePath → W → Result SourceCompletionLedger
  unfolding ledger_path
  ledger_in source_root w =
      if not (host.env.exists (ledger_path source_root) w)
      then ok empty_ledger
      else read_ledger (ledger_path source_root)
          (host.volume.read_to_string (ledger_path source_root) w)

  unfoldable pub load_ledger : FilePath → Exec W SourceCompletionLedger
  unfolding ledger_in
  load_ledger source_root s = (ledger_in source_root s.world, s)

  unfoldable pub persist_ledger : FilePath → SourceCompletionLedger → Exec W (Unit {0})
  unfolding write_bytes ledger_path
  persist_ledger source_root ledger =
      write_bytes host (ledger_path source_root) (json.to_vec ledger) "source completion ledger"
