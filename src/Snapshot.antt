-- ===== src/Snapshot.antt =====
-- src/snapshot/policy.rs and request.rs: when a snapshot of the destination is taken, and what is
-- recorded of it. The backend that takes it is a parameter, as in the source.
pub mod Validation
pub mod Processing
use vibe_caravan.Prelude.{
  ℕ, zero, suc, ◌%◌, ◌<◌, ◌≡◌, refl, ◌⊎◌, inl, inr, ◌||◌, not, Option, none, some, List, [], ◌∷◌,
  ◌++◌, arith, Text, String, text_eq, ◌==◌, FilePath, nat_beq, if◌then◌else◌,
}
use vibe_caravan.Config.{Mode}
use vibe_caravan.Error.{Result, ok, err, CaravanError, Arg, Message, message, display}
use vibe_caravan.Models.Batch.{BatchPhase, BatchState, JournalEntry}
use vibe_caravan.Models.State.{MigrationState, set_first_batch}
use vibe_caravan.Models.State.Keyed.{find_id}
use vibe_caravan.Models.State.Laws.{batch_id}
use vibe_caravan.Exec.{Sys, Exec, pure, raise, call, modify, ◌>>=◌, ◌>>◌}

pub record SnapshotRequest : Type 0 where
  pub mode : Mode
  pub snapshot_every : Option ℕ
  pub completed_batch_count : ℕ
  pub batch_id : Text
  pub destination_root : FilePath
  pub snapshot_root : Option FilePath

-- What the policy asks of the system.
pub record SnapshotBackend (W : Type 0) : Type 0 where
  pub create_snapshot : FilePath → Option FilePath → Text → W → Result Text × W
  pub now_unix_secs : W → ℕ × W

-- What the guards come to.
pub data Cadence : Type 0 where
  refused : String → Cadence
  not_due due : Cadence

abbrev cadence_of_every : ℕ → ℕ → Cadence
cadence_of_every zero count = Cadence.refused "snapshot cadence must be greater than zero"
cadence_of_every (suc n) count =
    if nat_beq count 0 || not (nat_beq (count % suc n) 0) then Cadence.not_due else Cadence.due

abbrev pub cadence : Mode → Option ℕ → ℕ → Cadence
cadence Mode.staging (some n) count = Cadence.refused "snapshots are only supported in migrate mode"
cadence Mode.staging none count = Cadence.not_due
cadence Mode.migrate (some n) count = cadence_of_every n count
cadence Mode.migrate none count = Cadence.not_due

abbrev pub mark_snapshot : BatchState → BatchState
mark_snapshot b = record b { phase = BatchPhase.snapshot_completed }

abbrev pub record_snapshot : Text → Text → MigrationState → MigrationState
record_snapshot id name s = record s {
  last_successful_snapshot_name = some name;
  batches = set_first_batch id mark_snapshot s.batches;
}

module _ {W : Type 0} (backend : SnapshotBackend W) where
  unfoldable pub push_snapshot_journal : String → Text → Message → Exec W (Unit {0})
  push_snapshot_journal event id context = do
    now ← call backend.now_unix_secs
    modify λ s. record s {
      journal =
          s.journal
          ++ (record { event = event; batch_id = id; timestamp_unix_secs = now; context = context }
              ∷ []);
    }

  -- The `match` on the answer of the backend.
  unfoldable pub snapshot_outcome : Text → Result Text → Exec W (Option Text)
  unfolding push_snapshot_journal
  snapshot_outcome id (ok name) = do
    modify (record_snapshot id name)
    push_snapshot_journal "snapshot_completed" id (message "{}" (Arg.word name ∷ []))
    pure (some name)
  snapshot_outcome id (err e) = do push_snapshot_journal "snapshot_failed" id (display e); raise e

  abbrev take_if_due : SnapshotRequest → Cadence → Exec W (Option Text)
  take_if_due r (Cadence.refused why) = raise (CaravanError.invalid_arguments (message why []))
  take_if_due r Cadence.not_due = pure none
  take_if_due r Cadence.due = do
    answer ← call (backend.create_snapshot r.destination_root r.snapshot_root r.batch_id)
    snapshot_outcome r.batch_id answer

  unfoldable pub snapshot_if_needed : SnapshotRequest → Exec W (Option Text)
  unfolding snapshot_outcome
  snapshot_if_needed r = take_if_due r (cadence r.mode r.snapshot_every r.completed_batch_count)

-- A snapshot is due: in migrate mode, after each run of `n` completed batches.
pub record IsDue (r : SnapshotRequest) : Type 0 where
  pub every : ℕ
  pub migrating : r.mode ≡ Mode.migrate
  pub given : r.snapshot_every ≡ some every
  pub positive : 0 < every
  pub some_done : 0 < r.completed_batch_count
  pub divides : r.completed_batch_count % every ≡ 0

cadence-due :
    (mode : Mode) (every : Option ℕ) (count n : ℕ)
    → mode ≡ Mode.migrate
    → every ≡ some n
    → 0 < n
    → 0 < count
    → count % n ≡ 0
    → cadence mode every count ≡ Cadence.due
cadence-due Mode.staging every count n m e p c d = absurd (ground (arith, m))
cadence-due Mode.migrate none count n m e p c d = absurd (ground (arith, e))
cadence-due Mode.migrate (some zero) count n m e p c d = absurd (ground (arith, e, p))
cadence-due Mode.migrate (some (suc k)) count n m e p c d =
    let same : suc k ≡ n = ground (arith, e) in
    let d' : count % suc k ≡ 0 = rw same d in ground (arith, c, d')

due-of :
    (mode : Mode) (every : Option ℕ) (count : ℕ)
    → cadence mode every count ≡ Cadence.due
    → (n : ℕ) × (mode ≡ Mode.migrate) × (every ≡ some n) × (0 < n) × (0 < count) × (count % n ≡ 0)
due-of Mode.staging (some n) count h = absurd (ground arith)
due-of Mode.staging none count h = absurd (ground arith)
due-of Mode.migrate none count h = absurd (ground arith)
due-of Mode.migrate (some zero) count h = absurd (ground arith)
due-of Mode.migrate (some (suc k)) count h =
    (suc k, refl, refl, omega arith, ground (arith, h), ground (arith, h))

due-IsDue :
    (r : SnapshotRequest)
    → cadence r.mode r.snapshot_every r.completed_batch_count ≡ Cadence.due
    → IsDue r
due-IsDue r h =
    let (n, m, e, p, c, d) = due-of r.mode r.snapshot_every r.completed_batch_count h in
    record { every = n; migrating = m; given = e; positive = p; some_done = c; divides = d }

IsDue-due :
    (r : SnapshotRequest)
    → IsDue r
    → cadence r.mode r.snapshot_every r.completed_batch_count ≡ Cadence.due
IsDue-due r d =
    cadence-due r.mode r.snapshot_every r.completed_batch_count d.every d.migrating d.given
      d.positive d.some_done d.divides

abbrev pub marked : Option BatchState → Option BatchState
marked none = none
marked (some b) = some (record b { phase = BatchPhase.snapshot_completed })

pub find_id-set_first :
    (id j : Text) (bs : List BatchState)
    → find_id batch_id (set_first_batch id mark_snapshot bs) j
      ≡ (if id == j then marked (find_id batch_id bs j) else find_id batch_id bs j)
find_id-set_first id j [] = ground arith
find_id-set_first id j (b ∷ bs) = ground (
  arith,
  find_id-set_first id j bs,
  text_eq.beq_iff id j,
  text_eq.beq_iff b.batch_id j,
  text_eq.beq_iff b.batch_id id,
)

module _ {W : Type 0} (backend : SnapshotBackend W) where
  not_due-same :
      (r : SnapshotRequest) (c : Cadence) (s : Sys W)
      → ((take_if_due backend r c s).1 ≡ s) ⊎ (c ≡ Cadence.due)
  not_due-same r (Cadence.refused why) s = inl refl
  not_due-same r Cadence.not_due s = inl refl
  not_due-same r Cadence.due s = inr refl

  -- A call that changes anything, or asks for a snapshot, is one where a snapshot is due: in
  -- migrate mode, with a positive cadence that divides a positive number of completed batches.
  pub snapshot_if_needed-only-IsDue :
      (r : SnapshotRequest) (s : Sys W) → ((snapshot_if_needed backend r s).1 ≡ s) ⊎ IsDue r
  unfolding snapshot_if_needed
  snapshot_if_needed-only-IsDue r s =
      elim (not_due-same r (cadence r.mode r.snapshot_every r.completed_batch_count) s) [
        | inl same ↦ inl same
        | inr is_due ↦ inr (due-IsDue r is_due)
      ]
