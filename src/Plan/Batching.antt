-- ===== src/Plan/Batching.antt =====
-- src/plan/batching.rs: the files of the source, sorted, are grouped into numbered batches.
pub mod Partition
pub mod Ids
pub mod Bounds
use Prim.Native.Nat.{Ordering}
use vibe_caravan.Prelude.{
  ℕ, ◌+◌, Bool, true, false, ◌&&◌, ◌||◌, not, Option, none, some, List, [], ◌∷◌, ◌++◌, map, Text,
  text, FilePath, parent, path_cmp, then_with, sort_by, if◌then◌else◌, ltb, leb, nat_beq, length,
  is_empty, u64_max, saturating_add, u64_sum, padded,
}
use vibe_caravan.Error.{Result, ok, err, CaravanError, message, ◌>>=◌, ◌>>◌, fail_if}
use vibe_caravan.Models.Batch.{FileEntry, Batch}

-- src/plan/types.rs.
pub record PlanOptions : Type 0 where
  pub batch_size_bytes : ℕ
  pub max_files : Option ℕ

pub record PlanningSnapshot : Type 0 where
  pub source_file_count : ℕ
  pub source_total_bytes : ℕ
  pub batches : List Batch

abbrev pub planning_key_cmp : FilePath → FilePath → Ordering
planning_key_cmp p q = then_with (path_cmp (parent p) (parent q)) (path_cmp p q)

abbrev pub cmp_for_planning : FileEntry → FileEntry → Ordering
cmp_for_planning a b = planning_key_cmp a.relative_path b.relative_path

-- `format!("batch-{index:06}")`.
unfoldable pub batch_name : ℕ → Text
unfolding padded
batch_name index = text "batch-" ++ padded 6 index

unfoldable pub make_batch : ℕ → List FileEntry → ℕ → Batch
unfolding batch_name
make_batch index files total_bytes = record {
  id = batch_name index;
  files = files;
  total_bytes = total_bytes;
  file_count = length files;
}

-- The variables of the loop in `build_batches_from_ordered_entries`.
pub record Planner : Type 0 where
  pub batches : List Batch
  pub current_files : List FileEntry
  pub current_bytes : ℕ

-- `batches.push(make_batch(batches.len() + 1, take(&mut current_files), current_bytes))`.
unfoldable pub flush : Planner → Planner
flush p = record {
  batches = p.batches ++ (make_batch (length p.batches + 1) p.current_files p.current_bytes ∷ []);
  current_files = [];
  current_bytes = 0;
}

abbrev pub flush_if : Bool → Planner → Planner
flush_if true p = flush p
flush_if false p = p

-- A file over the batch size is a batch of its own.
unfoldable pub push_single : FileEntry → Planner → Planner
push_single entry p = record p {
  batches = p.batches ++ (make_batch (length p.batches + 1) (entry ∷ []) entry.size_bytes ∷ []);
}

unfoldable pub push_current : FileEntry → Planner → Planner
push_current entry p = record p {
  current_bytes = saturating_add p.current_bytes entry.size_bytes;
  current_files = p.current_files ++ (entry ∷ []);
}

abbrev pub max_or_default : Option ℕ → ℕ
max_or_default none = u64_max
max_or_default (some n) = n

-- Whether the current batch has no room for the file.
abbrev pub is_full : PlanOptions → FileEntry → Planner → Bool
is_full options entry p =
    not (is_empty p.current_files)
    && (ltb options.batch_size_bytes (saturating_add p.current_bytes entry.size_bytes)
        || leb (max_or_default options.max_files) (length p.current_files))

-- The body of the loop.
unfoldable pub plan_entry : PlanOptions → FileEntry → Planner → Planner
unfolding flush push_single push_current
plan_entry options entry p =
    if ltb options.batch_size_bytes entry.size_bytes
    then push_single entry (flush_if (not (is_empty p.current_files)) p)
    else push_current entry (flush_if (is_full options entry p) p)

unfoldable pub plan_entries : PlanOptions → List FileEntry → Planner → Planner
unfolding plan_entry
plan_entries options [] p = p
plan_entries options (entry ∷ rest) p = plan_entries options rest (plan_entry options entry p)

abbrev pub no_batches : Planner
no_batches = record { batches = []; current_files = []; current_bytes = 0 }

unfoldable pub build_batches_from_ordered_entries : PlanOptions → List FileEntry → List Batch
unfolding plan_entries
build_batches_from_ordered_entries options sorted =
    let p = plan_entries options sorted no_batches in
    (flush_if (not (is_empty p.current_files)) p).batches

abbrev pub is_some_zero : Option ℕ → Bool
is_some_zero none = false
is_some_zero (some n) = nat_beq n 0

abbrev pub batch_size_error : CaravanError
batch_size_error =
    CaravanError.invalid_arguments (message "batch-size must be greater than zero" [])

abbrev pub max_files_error : CaravanError
max_files_error =
    CaravanError.invalid_arguments (message "max-files must be greater than zero when provided" [])

-- The checks that `build_plan*` and `plan_batches` begin with.
abbrev pub check_options : PlanOptions → Result (Unit {0})
check_options options = do
  fail_if (nat_beq options.batch_size_bytes 0) batch_size_error
  fail_if (is_some_zero options.max_files) max_files_error

unfoldable pub plan_batches : List FileEntry → PlanOptions → Result (List Batch)
unfolding build_batches_from_ordered_entries
plan_batches entries options = do
  check_options options
  ok (build_batches_from_ordered_entries options (sort_by cmp_for_planning entries))

unfoldable pub build_plan_from_entries : List FileEntry → PlanOptions → Result PlanningSnapshot
unfolding plan_batches
build_plan_from_entries entries options = do
  batches ← plan_batches entries options
  ok (record {
    source_file_count = u64_sum (map (λ b. b.file_count) batches);
    source_total_bytes = u64_sum (map (λ f. f.size_bytes) entries);
    batches = batches;
  })

-- `build_plan_with_progress_and_interrupt`, given the results of the scan and of the interrupt
-- check that follows it.
unfoldable pub build_plan :
    Result (List FileEntry) → Result (Unit {0}) → PlanOptions → Result PlanningSnapshot
unfolding build_plan_from_entries
build_plan scanned check_interrupt options = do
  check_options options
  entries ← scanned
  check_interrupt
  build_plan_from_entries entries options
