-- ===== src/Tests/Data.antt =====
-- The test data: the files of a source, a plan of two batches, states, and a source tree in memory
-- in which nothing fails.
use vibe_caravan.Prelude.{
  ℕ, ◌≡◌, refl, inl, inr, Bool-cases, true, false, none, some, List, [], ◌∷◌, arith, Text, text,
  FilePath, text_eq, path_eq, ◌==◌, if◌then◌else◌, contains,
}
use vibe_caravan.Error.{ok, IoError}
use vibe_caravan.Models.Batch.{FileEntry, Batch, BatchPhase, BatchState, from_batch}
use vibe_caravan.Models.State.{MigrationState, new, upsert_batch}
use vibe_caravan.Models.State.Laws.{IsValid, upsert_batch-IsValid}
use vibe_caravan.Plan.Batching.{PlanOptions, PlanningSnapshot}
use vibe_caravan.Platform.{Env, EnvLaws}

abbrev pub file_of : FilePath → ℕ → FileEntry
file_of p n = record { relative_path = p; size_bytes = n; modified_time = none }

abbrev pub path_a : FilePath
path_a = text "a.txt" ∷ []

abbrev pub path_b : FilePath
path_b = text "b.txt" ∷ []

abbrev pub path_c : FilePath
path_c = text "c" ∷ text "d.txt" ∷ []

-- As a scan could list them.
abbrev pub entries : List FileEntry
entries = file_of path_c 7 ∷ file_of path_b 4 ∷ file_of path_a 5 ∷ []

abbrev pub options : PlanOptions
options = record { batch_size_bytes = 10; max_files = some 2 }

abbrev pub no_size : PlanOptions
no_size = record { batch_size_bytes = 0; max_files = none }

abbrev pub id_1 : Text
id_1 = text "batch-000001"

abbrev pub id_2 : Text
id_2 = text "batch-000002"

abbrev pub batch_1 : Batch
batch_1 = record {
  id = id_1;
  files = file_of path_a 5 ∷ file_of path_b 4 ∷ [];
  total_bytes = 9;
  file_count = 2;
}

abbrev pub batch_2 : Batch
batch_2 = record { id = id_2; files = file_of path_c 7 ∷ []; total_bytes = 7; file_count = 1 }

abbrev pub snapshot : PlanningSnapshot
snapshot = record {
  source_file_count = 3;
  source_total_bytes = 16;
  batches = batch_1 ∷ batch_2 ∷ [];
}

-- Verified and approved, and not yet deleted.
abbrev pub approved_1 : BatchState
approved_1 = record {
  batch_id = id_1;
  phase = BatchPhase.approved_for_delete;
  verification_passed = true;
  approved_for_delete = true;
  deleted = false;
}

abbrev pub verified_2 : BatchState
verified_2 = record {
  batch_id = id_2;
  phase = BatchPhase.verify_completed;
  verification_passed = true;
  approved_for_delete = false;
  deleted = false;
}

abbrev pub failed_1 : BatchState
failed_1 = record {
  batch_id = id_1;
  phase = BatchPhase.failed;
  verification_passed = false;
  approved_for_delete = false;
  deleted = false;
}

-- A state whose index has not been built: the manifest of both batches, and no record of them.
abbrev pub planned_state : MigrationState
planned_state = record (new (text "migrate") (text "/src") (text "/dest")) {
  planned_batches = from_batch batch_1 ∷ from_batch batch_2 ∷ [];
}

pub planned_state-IsValid : IsValid planned_state
unfolding new from_batch text_eq
planned_state-IsValid = record {
  batches_differ = tt;
  planned_differ = (refl, (refl, tt));
  batch_map = tt;
  planned_map = tt;
}

abbrev pub approved_state : MigrationState
approved_state = upsert_batch verified_2 (upsert_batch approved_1 planned_state)

pub approved_state-IsValid : IsValid approved_state
approved_state-IsValid =
    upsert_batch-IsValid verified_2 (upsert_batch approved_1 planned_state)
      (upsert_batch-IsValid approved_1 planned_state planned_state-IsValid)

-- The world is the list of the files that exist.
abbrev pub Tree : Type 0
Tree = List FilePath

abbrev pub remove : FilePath → Tree → Tree
remove p [] = []
remove p (q ∷ w) = let rest = remove p w in if p == q then rest else q ∷ rest

abbrev pub tree_env : Env Tree
tree_env = record {
  exists = λ q w. contains w q;
  remove_file = λ p w. if contains w p then (none, remove p w) else (some IoError.not_found, w);
  now_unix_secs = λ w. (1700000000, w);
  check_interrupt = λ w. (ok tt, w);
  read_line = λ w. (ok (text "yes"), w);
  persist = λ s w. (ok tt, w);
}

contains-remove : (p : FilePath) (w : Tree) → contains (remove p w) p ≡ false
contains-remove p [] = refl
contains-remove p (q ∷ w) =
    ground (arith, contains-remove p w, path_eq.beq_iff p q, path_eq.beq_iff q p)

contains-remove_other :
    (p q : FilePath) (w : Tree) → (p == q) ≡ false → contains (remove p w) q ≡ contains w q
contains-remove_other p q [] h = refl
contains-remove_other p q (r ∷ w) h = ground (
  arith,
  contains-remove_other p q w h,
  path_eq.beq_iff p q,
  path_eq.beq_iff p r,
  path_eq.beq_iff q r,
  path_eq.beq_iff r q,
)

contains-remove_less :
    (p q : FilePath) (w : Tree) → contains w q ≡ false → contains (remove p w) q ≡ false
contains-remove_less p q [] h = refl
contains-remove_less p q (r ∷ w) h = ground (arith, contains-remove_less p q w)

removed_gone :
    (p : FilePath) (w : Tree)
    → (tree_env.remove_file p w).0 ≡ none
    → contains (tree_env.remove_file p w).1 p ≡ false
removed_gone p w h = elim (Bool-cases (contains w p)) [
  | inl here ↦ rw here (contains-remove p w)
  | inr gone ↦ rw gone gone
]

removes_one :
    (p q : FilePath) (w : Tree)
    → (p == q) ≡ false
    → contains (tree_env.remove_file p w).1 q ≡ contains w q
removes_one p q w h = elim (Bool-cases (contains w p)) [
  | inl here ↦ rw here (contains-remove_other p q w h)
  | inr gone ↦ rw gone refl
]

creates_none :
    (p q : FilePath) (w : Tree)
    → contains w q ≡ false
    → contains (tree_env.remove_file p w).1 q ≡ false
creates_none p q w h = elim (Bool-cases (contains w p)) [
  | inl here ↦ rw here (contains-remove_less p q w h)
  | inr gone ↦ rw gone h
]

pub tree_laws : EnvLaws tree_env
tree_laws = record {
  removed = removed_gone;
  removes_only = removes_one;
  creates_nothing = creates_none;
  now_keeps = λ q w. refl;
  interrupt_keeps = λ q w. refl;
  read_keeps = λ q w. refl;
}
