-- ===== src/Models/State.antt =====
-- `MigrationState` of src/models/state.rs and its operations.
pub mod Keyed
pub mod Laws
pub mod Planned
pub mod Approval
use vibe_caravan.Prelude.{
  ℕ, ◌-◌, Bool, true, false, ◌&&◌, not, Option, none, some, List, [], ◌∷◌, ◌++◌, Text, String,
  text_eq, ◌==◌, map, if◌then◌else◌, length, get_elem?, set, select, find,
}
use vibe_caravan.Config.{CopyStrategy}
use vibe_caravan.Models.HashMap.{get, insert}
use vibe_caravan.Models.Batch.{
  Batch, MigrationPhase, BatchPhase, BatchState, JournalEntry, CompletedFileIdentity, PlannedBatch,
  to_batch,
}
use vibe_caravan.Models.Index.{Positions, no_positions, rebuild_index, ensure_index_consistent}

pub record MigrationState : Type 0 where
  pub mode : Text
  pub source : Text
  pub destination : Text
  pub batch_size_bytes : ℕ
  pub max_files : Option ℕ
  pub snapshot_every : Option ℕ
  pub snapshot_dir : Option Text
  pub copy_strategy : CopyStrategy
  pub skipped_completed_files : List CompletedFileIdentity
  pub planned_batches : List PlannedBatch
  pub migration_phase : MigrationPhase
  pub last_successful_snapshot_name : Option Text
  pub batches : List BatchState
  pub journal : List JournalEntry
  pub batch_index : Positions
  pub planned_index : Positions

abbrev pub default_copy_strategy : CopyStrategy
default_copy_strategy = CopyStrategy.auto

-- `MigrationState::new`.
unfoldable pub new : Text → Text → Text → MigrationState
new mode source destination = record {
  mode = mode;
  source = source;
  destination = destination;
  batch_size_bytes = 0;
  max_files = none;
  snapshot_every = none;
  snapshot_dir = none;
  copy_strategy = default_copy_strategy;
  skipped_completed_files = [];
  planned_batches = [];
  migration_phase = MigrationPhase.not_started;
  last_successful_snapshot_name = none;
  batches = [];
  journal = [];
  batch_index = no_positions;
  planned_index = no_positions;
}

abbrev pub batch_ids : List BatchState → List Text
batch_ids bs = map (λ b. b.batch_id) bs

abbrev pub planned_ids : List PlannedBatch → List Text
planned_ids ps = map (λ p. p.batch_id) ps

unfoldable pub rebuild_indexes : MigrationState → MigrationState
unfolding rebuild_index
rebuild_indexes s = record s {
  batch_index = rebuild_index (batch_ids s.batches);
  planned_index = rebuild_index (planned_ids s.planned_batches);
}

abbrev pub ensure_batch_index_consistent : MigrationState → MigrationState
ensure_batch_index_consistent s = record s {
  batch_index = ensure_index_consistent s.batch_index (batch_ids s.batches);
}

abbrev pub ensure_planned_batch_index_consistent : MigrationState → MigrationState
ensure_planned_batch_index_consistent s = record s {
  planned_index = ensure_index_consistent s.planned_index (planned_ids s.planned_batches);
}

-- A hit of the index counts only if the batch at that position has the id.
abbrev checked : List Text → Text → Option ℕ → Option ℕ
checked ids id none = none
checked ids id (some index) = elim (get_elem? ids index) [
  | none ↦ none
  | some found ↦ if found == id then some index else none
]

unfoldable pub batch_index_lookup : MigrationState → Text → Option ℕ
batch_index_lookup s id = checked (batch_ids s.batches) id (get s.batch_index.pos_by_id id)

unfoldable pub planned_batch_index_lookup : MigrationState → Text → Option ℕ
planned_batch_index_lookup s id =
    checked (planned_ids s.planned_batches) id (get s.planned_index.pos_by_id id)

-- `Vec::push` with the new position entered in the index.
abbrev push_position : Positions → Text → ℕ → Positions
push_position p id index = record {
  pos_by_id = insert p.pos_by_id id index;
  ids_in_order = p.ids_in_order ++ (id ∷ []);
}

abbrev upsert_at : BatchState → MigrationState → Option ℕ → MigrationState
upsert_at b s (some index) = record s { batches = set s.batches index b }
upsert_at b s none =
    let batches = s.batches ++ (b ∷ []) in
    record s {
      batches = batches;
      batch_index = push_position s.batch_index b.batch_id (length batches - 1);
    }

-- A position out of range, where Rust panics, changes nothing here.
unfoldable pub upsert_batch : BatchState → MigrationState → MigrationState
upsert_batch b s =
    let s' = ensure_batch_index_consistent s in
    upsert_at b s' (get s'.batch_index.pos_by_id b.batch_id)

abbrev find_batch : List BatchState → Text → Option BatchState
find_batch bs id = find (λ b. b.batch_id == id) bs

abbrev batch_at : List BatchState → Text → Option ℕ → Option BatchState
batch_at bs id (some index) = get_elem? bs index
batch_at bs id none = find_batch bs id

-- `MigrationState::batch`.
unfoldable pub batch : MigrationState → Text → Option BatchState
unfolding batch_index_lookup
batch s id = batch_at s.batches id (batch_index_lookup s id)

-- The first batch with the id is changed.
abbrev pub set_first_batch : Text → (BatchState → BatchState) → List BatchState → List BatchState
set_first_batch id f [] = []
set_first_batch id f (b ∷ bs) =
    let rest = set_first_batch id f bs in if b.batch_id == id then f b ∷ bs else b ∷ rest

abbrev batch_mut_at :
    Text → (BatchState → BatchState) → List BatchState → Option ℕ → List BatchState
batch_mut_at id f bs none = set_first_batch id f bs
batch_mut_at id f bs (some index) = elim (get_elem? bs index) [
  | none ↦ bs
  | some b ↦ set bs index (f b)
]

-- A change `f` through `MigrationState::batch_mut`.
unfoldable pub batch_mut : Text → (BatchState → BatchState) → MigrationState → MigrationState
batch_mut id f s =
    let s' = ensure_batch_index_consistent s in
    record s' { batches = batch_mut_at id f s'.batches (get s'.batch_index.pos_by_id id) }

abbrev upsert_planned_at : PlannedBatch → MigrationState → Option ℕ → MigrationState
upsert_planned_at p s (some index) = record s { planned_batches = set s.planned_batches index p }
upsert_planned_at p s none =
    let planned_batches = s.planned_batches ++ (p ∷ []) in
    record s {
      planned_batches = planned_batches;
      planned_index = push_position s.planned_index p.batch_id (length planned_batches - 1);
    }

unfoldable pub upsert_planned_batch : PlannedBatch → MigrationState → MigrationState
upsert_planned_batch p s =
    let s' = ensure_planned_batch_index_consistent s in
    upsert_planned_at p s' (get s'.planned_index.pos_by_id p.batch_id)

abbrev find_planned : List PlannedBatch → Text → Option PlannedBatch
find_planned ps id = find (λ p. p.batch_id == id) ps

abbrev planned_at : List PlannedBatch → Text → Option ℕ → Option PlannedBatch
planned_at ps id (some index) = get_elem? ps index
planned_at ps id none = find_planned ps id

-- `MigrationState::planned_batch`.
unfoldable pub planned_batch : MigrationState → Text → Option PlannedBatch
unfolding planned_batch_index_lookup
planned_batch s id = planned_at s.planned_batches id (planned_batch_index_lookup s id)

unfoldable pub materialize_planned_batch : MigrationState → Text → Option Batch
unfolding planned_batch to_batch
materialize_planned_batch s id = elim (planned_batch s id) [
  | none ↦ none
  | some p ↦ some (to_batch p)
]

abbrev pub needs_approval : BatchState → Bool
needs_approval b = b.verification_passed && (not b.approved_for_delete && not b.deleted)

abbrev pub approved_but_not_deleted : BatchState → Bool
approved_but_not_deleted b = b.approved_for_delete && not b.deleted

abbrev pub is_verify_completed : BatchPhase → Bool
is_verify_completed BatchPhase.verify_completed = true
is_verify_completed _ = false

abbrev pub verified_and_ready : BatchState → Bool
verified_and_ready b = is_verify_completed b.phase && needs_approval b

unfoldable pub batches_needing_approval : MigrationState → List Text
batches_needing_approval s = batch_ids (select needs_approval s.batches)

unfoldable pub batches_approved_but_not_deleted : MigrationState → List Text
batches_approved_but_not_deleted s = batch_ids (select approved_but_not_deleted s.batches)

unfoldable pub batches_verified_and_ready : MigrationState → List Text
batches_verified_and_ready s = batch_ids (select verified_and_ready s.batches)

abbrev pub approve : BatchState → BatchState
approve b = record b { approved_for_delete = true; phase = BatchPhase.approved_for_delete }

abbrev approve_at : List BatchState → Option ℕ → List BatchState
approve_at bs none = bs
approve_at bs (some index) = elim (get_elem? bs index) [
  | none ↦ bs
  | some b ↦ set bs index (approve b)
]

abbrev approve_loop : List Text → MigrationState → MigrationState
approve_loop [] s = s
approve_loop (id ∷ ids) s =
    approve_loop ids (record s { batches = approve_at s.batches (get s.batch_index.pos_by_id id) })

unfoldable pub approve_batches : List Text → MigrationState → MigrationState
approve_batches ids s = approve_loop ids (ensure_batch_index_consistent s)
