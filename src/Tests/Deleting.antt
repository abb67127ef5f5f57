-- ===== src/Tests/Deleting.antt =====
-- The theorems on deletion, at a state with two batches and a source tree in memory.
use vibe_caravan.Prelude.{
  Text, ◌≡◌, refl, arith, true, false, some, [], ◌∷◌, text, FilePath, text_eq, path_eq, join,
}
use vibe_caravan.Error.{Result, ok, err, CaravanError, message}
use vibe_caravan.Models.Batch.{BatchPhase, BatchState, from_batch}
use vibe_caravan.Models.State.{
  new, batch, upsert_batch, batches_approved_but_not_deleted, materialize_planned_batch,
  batches_needing_approval, approve_batches,
}
use vibe_caravan.Models.Index.{ensure_index_consistent}
use vibe_caravan.Prompt.{request_approval_for_batches, parse_yes_no}
use vibe_caravan.Exec.{Sys}
use vibe_caravan.Cleanup.{cleanup_batch}
use vibe_caravan.Cleanup.Effects.{Touches, places}
use vibe_caravan.Cleanup.Safety.{may_delete, cleanup_batch-gate, cleanup_batch-Touches}
use vibe_caravan.Cleanup.Completion.{IsDone, cleanup_batch-IsDone}
use vibe_caravan.Cleanup.Progress.{Undisturbed, cleanup_batch-succeeds}
use vibe_caravan.Commands.Deletion.{approve_and_delete}
use vibe_caravan.Commands.Deletion.Consent.{Held}
use vibe_caravan.Commands.Deletion.Phase.{approve_and_delete-Held}
use vibe_caravan.Conflict.{ConflictReport}
use vibe_caravan.Commands.Conflicts.{
  mark_batch_failed_for_conflicts, mark_batch_failed_for_conflicts-gate,
}
use vibe_caravan.Tests.Data.{
  Tree, tree_env, tree_laws, id_1, id_2, batch_1, batch_2, approved_1, approved_state,
  approved_state-IsValid, path_a, path_b, path_c,
}

abbrev root : FilePath
root = text "src" ∷ []

abbrev before : Sys Tree
before = record {
  state = approved_state;
  world = join root path_a ∷ join root path_b ∷ join root path_c ∷ [];
}

found_1 : batch before.state id_1 ≡ some approved_1
unfolding batch upsert_batch text_eq new ensure_index_consistent
found_1 = refl

refused_2 : may_delete (batch before.state id_2) ≡ false
unfolding batch upsert_batch text_eq new ensure_index_consistent
refused_2 = refl

calm : Undisturbed tree_env
calm = record { no_interrupt = λ w. refl; removals = λ p w h. ground (arith, h) }

cleanup_batch-gate_example : (cleanup_batch tree_env batch_2 root "cleanup" before).1 ≡ before
cleanup_batch-gate_example = cleanup_batch-gate tree_env batch_2 root "cleanup" before refused_2

cleanup_batch-Touches_example :
    Touches tree_env tree_laws approved_1 id_1
      (places root batch_1.files)
      before
      (cleanup_batch tree_env batch_1 root "cleanup" before).1
cleanup_batch-Touches_example =
    cleanup_batch-Touches tree_env tree_laws batch_1 root "cleanup" approved_1 before
      approved_state-IsValid found_1

cleanup_batch-succeeds_example : (cleanup_batch tree_env batch_1 root "cleanup" before).0 ≡ ok tt
cleanup_batch-succeeds_example =
    cleanup_batch-succeeds tree_env calm batch_1 root "cleanup" approved_1 before found_1 refl

cleaned : (cleanup_batch tree_env batch_1 root "cleanup" before).0 ≡ ok tt
cleaned = cleanup_batch-succeeds tree_env calm batch_1 root "cleanup" approved_1 before found_1 refl

cleanup_batch-IsDone_example :
    IsDone tree_env batch_1 root approved_1 (cleanup_batch tree_env batch_1 root "cleanup" before).1
cleanup_batch-IsDone_example =
    cleanup_batch-IsDone tree_env tree_laws batch_1 root "cleanup" approved_1 before
      approved_state-IsValid found_1 refl cleaned

-- The operator answers with yes, and both batches are deleted.
all_deleted : (approve_and_delete tree_env root "run" true before).1.world ≡ []
unfolding approve_and_delete batches_approved_but_not_deleted upsert_batch ensure_index_consistent
    new text_eq batch materialize_planned_batch from_batch cleanup_batch path_eq
    batches_needing_approval request_approval_for_batches parse_yes_no approve_batches
all_deleted = refl

-- A file of the batch.
abbrev source_a : FilePath
source_a = join root path_a

approve_and_delete-Held_example :
    Held tree_env root source_a before (approve_and_delete tree_env root "run" true before).1
approve_and_delete-Held_example =
    approve_and_delete-Held tree_env root source_a tree_laws (λ s w. refl) "run" true before
      approved_state-IsValid

abbrev report : ConflictReport
report = record {
  existing_files = join (text "dst" ∷ []) path_b ∷ [];
  size_mismatches = [];
  total_conflicts = 1;
  has_conflicts = true;
  scanned_parent_directories = 1;
}

abbrev no_record : Text → Result BatchState
no_record id = err (CaravanError.state_corrupt (message "missing batch state" []))

mark_batch_failed_for_conflicts-gate_example :
    let (r, t) = mark_batch_failed_for_conflicts tree_env no_record batch_1 report 1 before in
    (r ≡ ok tt)
    × (batch t.state id_1
        ≡ some (record approved_1 { phase = BatchPhase.failed; verification_passed = false }))
    × ((cleanup_batch tree_env batch_1 root "run" t).1 ≡ t)
mark_batch_failed_for_conflicts-gate_example =
    mark_batch_failed_for_conflicts-gate tree_env no_record batch_1 report 1 approved_1 root "run"
      before approved_state-IsValid found_1
