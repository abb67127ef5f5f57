-- ===== src/StateStore.antt =====
-- src/state_store.rs: the state on disk, in a canonical file and a backup, each with a revision and
-- a checksum. Warnings are not modelled.
pub mod Reconcile
pub mod Recovery
use Prim.Native.Nat.{compare, Ordering}
use vibe_caravan.Prelude.{
  ℕ, ◌+◌, ◌⊎◌, inl, inr, Bool, true, false, not, Option, none, some, List, [], ◌∷◌, Text, text_eq,
  ◌==◌, FilePath, nat_beq, leb, saturating_add, if◌then◌else◌,
}
use vibe_caravan.Error.{
  Result, ok, err, CaravanError, IoError, Arg, Message, message, display, ◌>>=◌,
}
use vibe_caravan.Models.State.{MigrationState, rebuild_indexes}
use vibe_caravan.Platform.Host.{Host, Json}
use vibe_caravan.Exec.{Sys, Exec, pure}
use vibe_caravan.AtomicWrite.{write_bytes}
use vibe_caravan.SourceCompletion.Identity.{hex_lower}

abbrev state_format_version : ℕ
state_format_version = 2

pub record PersistedStateEnvelope : Type 0 where
  pub format_version : ℕ
  pub revision : ℕ
  pub state_checksum : Text
  pub state : MigrationState

pub record LoadedStateCandidate : Type 0 where
  pub state : MigrationState
  pub revision : ℕ
  pub state_checksum : Text

pub data ReconciledStateSource : Type 0 where
  primary secondary : ReconciledStateSource

pub record ReconciledState : Type 0 where
  pub state : MigrationState
  pub source : ReconciledStateSource

-- What the module takes from serde, for its two formats.
pub record StateJson : Type 0 where
  pub envelope : Json PersistedStateEnvelope
  pub state : Json MigrationState

abbrev pub format_error : ℕ → FilePath → CaravanError
format_error version path =
    CaravanError.state_corrupt
      (message "unsupported state format version {} in {}" (Arg.num version ∷ Arg.path path ∷ []))

abbrev pub checksum_error : FilePath → CaravanError
checksum_error path =
    CaravanError.state_corrupt (message "state checksum mismatch for {}" (Arg.path path ∷ []))

abbrev pub divergence_error : FilePath → FilePath → ℕ → CaravanError
divergence_error primary_path secondary_path revision = CaravanError.state_corrupt (
    message
      "state divergence detected: canonical {} and backup {} both have revision {} but different checksums"
      (Arg.path primary_path ∷ Arg.path secondary_path ∷ Arg.num revision ∷ []))

-- The texts of the two errors follow the paths.
abbrev pub both_invalid_error : FilePath → FilePath → CaravanError → CaravanError → CaravanError
both_invalid_error primary_path secondary_path primary_err secondary_err =
    CaravanError.state_corrupt (
      message
        "both canonical state {} and compatibility backup {} are invalid (canonical: {}; backup: {})"
        (Arg.path primary_path
          ∷ Arg.path secondary_path
          ∷ Arg.lit (display primary_err).template
          ∷ Arg.lit (display secondary_err).template
          ∷ []))

abbrev pub no_state_error : FilePath → CaravanError
no_state_error primary_path = CaravanError.state_read primary_path (
    IoError.of_kind (IoError.other "no canonical or compatibility state file was found")
      IoError.not_found)

abbrev from_primary : LoadedStateCandidate → Result ReconciledState
from_primary c = ok (record { state = c.state; source = ReconciledStateSource.primary })

abbrev from_secondary : LoadedStateCandidate → Result ReconciledState
from_secondary c = ok (record { state = c.state; source = ReconciledStateSource.secondary })

abbrev same_checksum : LoadedStateCandidate → LoadedStateCandidate → Bool
same_checksum p q = p.state_checksum == q.state_checksum

abbrev pub newer :
    FilePath
    → FilePath
    → LoadedStateCandidate
    → LoadedStateCandidate
    → Ordering
    → Result ReconciledState
newer primary_path secondary_path p q Ordering.gt = from_primary p
newer primary_path secondary_path p q Ordering.lt = from_secondary q
newer primary_path secondary_path p q Ordering.eq =
    if same_checksum p q
    then from_primary p
    else err (divergence_error primary_path secondary_path p.revision)

-- The `match` of `load_state_with_compat_reconciliation_detailed`.
unfoldable pub reconcile :
    FilePath
    → FilePath
    → Option (Result LoadedStateCandidate)
    → Option (Result LoadedStateCandidate)
    → Result ReconciledState
reconcile a b (some (ok p)) (some (ok q)) = newer a b p q (compare p.revision q.revision)
reconcile a b (some (ok p)) (some (err e)) = from_primary p
reconcile a b (some (err e)) (some (ok q)) = from_secondary q
reconcile a b (some (err e)) (some (err e')) = err (both_invalid_error a b e e')
reconcile a b (some (ok p)) none = from_primary p
reconcile a b none (some (ok q)) = from_secondary q
reconcile a b (some (err e)) none = err e
reconcile a b none (some (err e)) = err e
reconcile a b none none = err (no_state_error a)

-- `.and_then(Result::ok).map_or(1, |c| c.revision.saturating_add(1))`.
abbrev pub revision_after : Option (Result LoadedStateCandidate) → ℕ
revision_after (some (ok c)) = saturating_add c.revision 1
revision_after (some (err e)) = 1
revision_after none = 1

abbrev pub max_of : ℕ → ℕ → ℕ
max_of a b = if leb a b then b else a

module _ {W : Type 0} (host : Host W) (json : StateJson) where
  -- `checksum_for_payload(&serialize_state(&state)?)`; the serialization of a state cannot fail.
  unfoldable pub checksum_of : MigrationState → Text
  unfolding hex_lower
  checksum_of state = hex_lower (host.blake3 (json.state.to_vec state))

  abbrev candidate_of : MigrationState → ℕ → LoadedStateCandidate
  candidate_of state revision = record {
    state = state;
    revision = revision;
    state_checksum = checksum_of state;
  }

  abbrev check_envelope :
      FilePath → PersistedStateEnvelope → MigrationState → Result LoadedStateCandidate
  check_envelope path e state =
      if not (e.state_checksum == checksum_of state)
      then err (checksum_error path)
      else ok (candidate_of state e.revision)

  abbrev from_envelope : FilePath → PersistedStateEnvelope → Result LoadedStateCandidate
  from_envelope path e =
      if not (nat_beq e.format_version state_format_version)
      then err (format_error e.format_version path)
      else check_envelope path e (rebuild_indexes e.state)

  abbrev from_legacy : FilePath → Message ⊎ MigrationState → Result LoadedStateCandidate
  from_legacy path (inl why) = err (CaravanError.state_parse path why)
  from_legacy path (inr state) = ok (candidate_of (rebuild_indexes state) 0)

  abbrev envelope_or_legacy :
      FilePath → List ℕ → Message ⊎ PersistedStateEnvelope → Result LoadedStateCandidate
  envelope_or_legacy path payload (inr e) = from_envelope path e
  envelope_or_legacy path payload (inl why) = from_legacy path (json.state.from_str payload)

  unfoldable pub parse_envelope_or_legacy : FilePath → List ℕ → Result LoadedStateCandidate
  unfolding checksum_of rebuild_indexes
  parse_envelope_or_legacy path payload =
      envelope_or_legacy path payload (json.envelope.from_str payload)

  abbrev pub parse_read : FilePath → IoError ⊎ List ℕ → Result LoadedStateCandidate
  parse_read path (inl e) = err (CaravanError.state_read path e)
  parse_read path (inr payload) = parse_envelope_or_legacy path payload

  unfoldable pub load_state_candidate : FilePath → W → Result LoadedStateCandidate
  unfolding parse_envelope_or_legacy
  load_state_candidate path w = parse_read path (host.volume.read_to_string path w)

  unfoldable pub load_candidate_if_present : FilePath → W → Option (Result LoadedStateCandidate)
  unfolding load_state_candidate
  load_candidate_if_present path w =
      if not (host.env.exists path w) then none else some (load_state_candidate path w)

  unfoldable pub load_state : FilePath → W → Result MigrationState
  unfolding load_state_candidate
  load_state path w = load_state_candidate path w >>= λ c. ok c.state

  -- `load_state_with_compat_reconciliation_detailed`.
  unfoldable pub load_state_reconciled : FilePath → FilePath → W → Result ReconciledState
  unfolding load_candidate_if_present reconcile
  load_state_reconciled primary_path secondary_path w =
      reconcile primary_path secondary_path (load_candidate_if_present primary_path w)
        (load_candidate_if_present secondary_path w)

  unfoldable pub next_revision : FilePath → W → ℕ
  unfolding load_candidate_if_present
  next_revision path w = revision_after (load_candidate_if_present path w)

  abbrev pub envelope_of : MigrationState → ℕ → PersistedStateEnvelope
  envelope_of state revision = record {
    format_version = state_format_version;
    revision = revision;
    state_checksum = checksum_of state;
    state = state;
  }

  unfoldable pub persist_state_with_revision : FilePath → MigrationState → ℕ → Exec W (Unit {0})
  unfolding checksum_of write_bytes
  persist_state_with_revision path state revision =
      write_bytes host path (json.envelope.to_vec (envelope_of state revision)) "state"

  unfoldable pub persist_state : FilePath → MigrationState → Exec W (Unit {0})
  unfolding persist_state_with_revision next_revision
  persist_state path state s = persist_state_with_revision path state (next_revision path s.world) s

  -- `if let Err(err) = ... { eprintln!(...) }`.
  abbrev pub warn_only : Result (Unit {0}) × Sys W → Result (Unit {0}) × Sys W
  warn_only (r, s) = (ok tt, s)

  abbrev pub then_backup :
      FilePath → MigrationState → ℕ → Result (Unit {0}) × Sys W → Result (Unit {0}) × Sys W
  then_backup secondary_path state revision (err e, s) = (err e, s)
  then_backup secondary_path state revision (ok done, s) =
      warn_only (persist_state_with_revision secondary_path state revision s)

  abbrev pub backup_revision : FilePath → FilePath → W → ℕ
  backup_revision primary_path secondary_path w =
      saturating_add (max_of (next_revision primary_path w) (next_revision secondary_path w)) 1

  unfoldable pub persist_state_with_compat_backup :
      FilePath → FilePath → MigrationState → Exec W (Unit {0})
  unfolding persist_state_with_revision next_revision
  persist_state_with_compat_backup primary_path secondary_path state s =
      then_backup secondary_path state (backup_revision primary_path secondary_path s.world) (
        persist_state_with_revision primary_path state
          (backup_revision primary_path secondary_path s.world) s)
