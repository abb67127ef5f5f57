-- ===== src/Snapshot/Processing.antt =====
-- src/snapshot/processing.rs: after the deletions, a snapshot for every batch where one is due. A
-- snapshot that fails stops nothing. Progress and warnings are not modelled.
pub mod Allowed
pub mod Only
use vibe_caravan.Prelude.{
  ℕ, ◌+◌, ◌%◌, ◌^◌, ◌-◌, Bool, true, false, ◌&&◌, not, Option, none, some, List, [], ◌∷◌, Text,
  FilePath, ltb, nat_beq, min, sort_by, text_cmp, select, if◌then◌else◌,
}
use vibe_caravan.Config.{Mode}
use vibe_caravan.Error.{Result, ok, err, CaravanError}
use vibe_caravan.Models.Batch.{BatchPhase, BatchState}
use vibe_caravan.Models.State.{MigrationState, batch_ids, batch}
use vibe_caravan.Platform.Host.{Host}
use vibe_caravan.Exec.{Sys, Exec, pure, gets, attempt, when, ◌>>=◌, ◌>>◌}
use vibe_caravan.Snapshot.{SnapshotRequest, SnapshotBackend, snapshot_if_needed}
use vibe_caravan.Snapshot.Validation.{validate_snapshot_configuration}
use vibe_caravan.Commands.Deletion.{persist_state}

-- `u32::saturating_add(1)`.
abbrev pub count_up : ℕ → ℕ
count_up n = min (n + 1) (2 ^ 32 - 1)

abbrev is_snapshot_completed : BatchPhase → Bool
is_snapshot_completed BatchPhase.snapshot_completed = true
is_snapshot_completed _ = false

abbrev pub has_snapshot : Option BatchState → Bool
has_snapshot none = false
has_snapshot (some b) = is_snapshot_completed b.phase

abbrev pub snapshot_is_due : Option ℕ → ℕ → Bool
snapshot_is_due none count = false
snapshot_is_due (some cadence) count = ltb 0 cadence && nat_beq (count % cadence) 0

abbrev pub deleted_batch_ids : MigrationState → List Text
deleted_batch_ids s = sort_by text_cmp (batch_ids (select (λ b. b.deleted) s.batches))

-- An answer that is looked at, error or not.
abbrev pub attempted : {A W : Type 0} → Exec W A → Exec W (Result A)
attempted m s = let (r, t) = m s in (ok r, t)

module _ {W : Type 0} (host : Host W) (backend : SnapshotBackend W) (mode : Mode)
    (snapshot_every : Option ℕ) (destination_root : FilePath)
    (snapshot_root : Option FilePath) where
  abbrev pub request_for : Text → ℕ → SnapshotRequest
  request_for id count = record {
    mode = mode;
    snapshot_every = snapshot_every;
    completed_batch_count = count;
    batch_id = id;
    destination_root = destination_root;
    snapshot_root = snapshot_root;
  }

  -- The `match` on the answer.
  abbrev pub after_snapshot : Result (Option Text) → Exec W (Unit {0})
  unfolding persist_state
  after_snapshot (ok (some name)) = persist_state host.env
  after_snapshot (ok none) = pure tt
  after_snapshot (err e) = persist_state host.env

  unfoldable pub take_snapshot : Text → ℕ → Exec W (Unit {0})
  unfolding after_snapshot snapshot_if_needed
  take_snapshot id count = do
    when (snapshot_is_due snapshot_every count) (attempt host.env.check_interrupt)
    answer ← attempted (snapshot_if_needed backend (request_for id count))
    after_snapshot answer

  -- The loop, after `count` batches.
  unfoldable pub process_ids : List Text → ℕ → Exec W (Unit {0})
  unfolding take_snapshot
  process_ids [] count = pure tt
  process_ids (id ∷ ids) count = do
    attempt host.env.check_interrupt
    found ← gets (λ s. batch s id)
    if has_snapshot found then pure tt else take_snapshot id (count_up count)
    process_ids ids (count_up count)

  abbrev process_if_configured : Option ℕ → Exec W (Unit {0})
  unfolding process_ids
  process_if_configured none = pure tt
  process_if_configured (some n) = gets deleted_batch_ids >>= λ ids. process_ids ids 0

  -- `process_pending_snapshots_with_progress_and_interrupt`, which the others call.
  unfoldable pub process_pending_snapshots : Exec W (Unit {0})
  unfolding process_if_configured validate_snapshot_configuration
  process_pending_snapshots = do
    (λ s. (
      validate_snapshot_configuration host mode snapshot_every destination_root snapshot_root
          s.world,
      s,
    ))
    process_if_configured snapshot_every
