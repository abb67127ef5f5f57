-- ===== src/Models/State/Laws.antt =====
-- The indexed operations of `MigrationState` against plain searches of its lists.
use vibe_caravan.Prelude.{
  ℕ, ◌≡◌, refl, sym, ◌∙◌, ap, Option, none, some, List, arith, Text, text_eq, ◌==◌, if◌then◌else◌,
  Option-cases, inl, inr, get_elem?, IsNodup,
}
use vibe_caravan.Models.HashMap.{get, insert-IsNodup}
use vibe_caravan.Models.Batch.{BatchState, PlannedBatch}
use vibe_caravan.Models.Index.{ensure_index_consistent}
use vibe_caravan.Models.Index.Position.{IsMap, ensure-IsMap}
use vibe_caravan.Models.Index.Ensure.{ensure-position, ensure-get_elem?}
use vibe_caravan.Models.State.{
  MigrationState, batch_ids, planned_ids, batch, upsert_batch, planned_batch, checked,
  batch_index_lookup, planned_batch_index_lookup, upsert_at, ensure_batch_index_consistent,
}
use vibe_caravan.Models.State.Keyed.{
  upsert, find_id, find_id-upsert, find_id-eq-get_elem?, write_at, write_at-position,
  IsNodup-upsert,
}

-- The ids differ, and the maps of the index are maps. The entries of the index may be stale.
pub record IsValid (s : MigrationState) : Type 0 where
  pub batches_differ : IsNodup (batch_ids s.batches)
  pub planned_differ : IsNodup (planned_ids s.planned_batches)
  pub batch_map : IsMap s.batch_index
  pub planned_map : IsMap s.planned_index

abbrev pub batch_id : BatchState → Text
batch_id b = b.batch_id

abbrev pub planned_id : PlannedBatch → Text
planned_id p = p.batch_id

checked-get_elem? :
    (ids : List Text) (id : Text) (o : Option ℕ) {i : ℕ}
    → checked ids id o ≡ some i
    → get_elem? ids i ≡ some id
checked-get_elem? ids id none h = absurd (ground arith)
checked-get_elem? ids id (some j) {i = i} h = elim (Option-cases (get_elem? ids j)) [
  | inl e ↦ absurd (ground arith)
  | inr (found, e) ↦ ground (arith, text_eq.beq_iff found id)
]

-- In a valid state a lookup of a batch by the index finds what a search of the list finds, also
-- where entries of the index are stale.
pub batch-eq-find_id :
    (s : MigrationState) (id : Text) → IsValid s → batch s id ≡ find_id batch_id s.batches id
unfolding batch
batch-eq-find_id s id v = elim (Option-cases (batch_index_lookup s id)) [
  | inl e ↦ rw e
  | inr (i, e) ↦ rw e (
      sym (
        find_id-eq-get_elem? batch_id s.batches i id v.batches_differ
          (checked-get_elem? (batch_ids s.batches) id (get s.batch_index.pos_by_id id) {i = i} e)))
]

-- In a valid state a lookup of a planned batch by the index finds what a search of the manifest
-- finds, also where entries of the index are stale.
pub planned_batch-eq-find_id :
    (s : MigrationState) (id : Text)
    → IsValid s
    → planned_batch s id ≡ find_id planned_id s.planned_batches id
unfolding planned_batch
planned_batch-eq-find_id s id v = elim (Option-cases (planned_batch_index_lookup s id)) [
  | inl e ↦ rw e
  | inr (i, e) ↦ rw e (
      sym (
        find_id-eq-get_elem? planned_id s.planned_batches i id v.planned_differ (
          checked-get_elem? (planned_ids s.planned_batches) id (get s.planned_index.pos_by_id id)
            {i = i} e)))
]

-- The entry that `upsert_batch` reads.
abbrev found : BatchState → MigrationState → Option ℕ
found b s = get (ensure_index_consistent s.batch_index (batch_ids s.batches)).pos_by_id b.batch_id

upsert_at-batches :
    (b : BatchState) (s : MigrationState) (o : Option ℕ)
    → (upsert_at b s o).batches ≡ write_at batch_id b s.batches o
upsert_at-batches b s none = refl
upsert_at-batches b s (some i) = refl

-- In a valid state an upsert through the index replaces the batch with that id in its place, or puts
-- the batch at the end where there is none.
pub upsert_batch-batches :
    (b : BatchState) (s : MigrationState)
    → IsValid s
    → (upsert_batch b s).batches ≡ upsert batch_id b s.batches
unfolding upsert_batch
upsert_batch-batches b s v =
    upsert_at-batches b (ensure_batch_index_consistent s) (found b s)
    ∙ ap (write_at batch_id b s.batches) (
        ensure-position s.batch_index (batch_ids s.batches) b.batch_id v.batch_map v.batches_differ)
    ∙ write_at-position batch_id b s.batches

upsert_at-IsMap :
    (b : BatchState) (s : MigrationState) (o : Option ℕ)
    → IsMap s.batch_index
    → IsMap (upsert_at b s o).batch_index
upsert_at-IsMap b s none m = insert-IsNodup s.batch_index.pos_by_id b.batch_id _ m
upsert_at-IsMap b s (some i) m = m

-- An upsert of a batch leaves every other list of the state alone.
pub record SameRest (s t : MigrationState) : Type 0 where
  pub mode : t.mode ≡ s.mode
  pub source : t.source ≡ s.source
  pub planned : t.planned_batches ≡ s.planned_batches
  pub planned_index : t.planned_index ≡ s.planned_index
  pub journal : t.journal ≡ s.journal
  pub phase : t.migration_phase ≡ s.migration_phase
  pub snapshot : t.last_successful_snapshot_name ≡ s.last_successful_snapshot_name

upsert_at-SameRest :
    (b : BatchState) (s : MigrationState) (o : Option ℕ) → SameRest s (upsert_at b s o)
upsert_at-SameRest b s none = ground arith
upsert_at-SameRest b s (some i) = ground arith

pub upsert_batch-SameRest : (b : BatchState) (s : MigrationState) → SameRest s (upsert_batch b s)
unfolding upsert_batch
upsert_batch-SameRest b s =
    let r = upsert_at-SameRest b (ensure_batch_index_consistent s) (found b s) in
    record {
      mode = r.mode;
      source = r.source;
      planned = r.planned;
      planned_index = r.planned_index;
      journal = r.journal;
      phase = r.phase;
      snapshot = r.snapshot;
    }

-- An upsert keeps a state valid: the ids of its batches and of its manifest stay different.
pub upsert_batch-IsValid :
    (b : BatchState) (s : MigrationState) → IsValid s → IsValid (upsert_batch b s)
upsert_batch-IsValid b s v = record {
  batches_differ =
      rw (upsert_batch-batches b s v) (IsNodup-upsert batch_id b s.batches v.batches_differ);
  planned_differ = rw ((upsert_batch-SameRest b s).planned) v.planned_differ;
  batch_map =
      unfold upsert_batch in
      upsert_at-IsMap b (ensure_batch_index_consistent s) (found b s)
        (ensure-IsMap s.batch_index (batch_ids s.batches) v.batch_map);
  planned_map = rw ((upsert_batch-SameRest b s).planned_index) v.planned_map;
}

-- After an upsert into a valid state its id has the new batch, and every other id what it had.
pub batch-upsert_batch :
    (b : BatchState) (s : MigrationState) (j : Text)
    → IsValid s
    → batch (upsert_batch b s) j ≡ (if b.batch_id == j then some b else batch s j)
batch-upsert_batch b s j v =
    rw
      (
        batch-eq-find_id (upsert_batch b s) j (upsert_batch-IsValid b s v),
        upsert_batch-batches b s v,
        batch-eq-find_id s j v,
      )
      (find_id-upsert batch_id b s.batches j)

-- The position at which `upsert_batch` writes holds the id, also where ids are repeated: the
-- indexing of the vector cannot panic.
pub upsert_batch-InBounds :
    (b : BatchState) (s : MigrationState) {i : ℕ}
    → IsMap s.batch_index
    → get (ensure_index_consistent s.batch_index (batch_ids s.batches)).pos_by_id b.batch_id
      ≡ some i
    → get_elem? (batch_ids s.batches) i ≡ some b.batch_id
upsert_batch-InBounds b s {i = i} m h =
    ensure-get_elem? s.batch_index (batch_ids s.batches) b.batch_id {i = i} m h
