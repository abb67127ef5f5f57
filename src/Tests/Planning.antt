-- ===== src/Tests/Planning.antt =====
-- Runs of the planning, and its theorems at a source of three files.
use mathlib.Core.List.{Perm}
use vibe_caravan.Prelude.{
  IsSorted, ◌≡◌, refl, ◌↔◌, List, [], ◌∷◌, arith, text_eq, path_eq, text_cmp, path_cmp, padded,
  sort_by, IsNodup, All,
}
use vibe_caravan.Error.{ok}
use vibe_caravan.Models.Batch.{Batch, from_batch}
use vibe_caravan.Plan.Batching.{plan_batches, build_plan, cmp_for_planning, make_batch}
use vibe_caravan.Plan.Batching.Partition.{all_files, plan_batches-partition}
use vibe_caravan.Plan.Batching.Ids.{ids}
use vibe_caravan.Plan.Batching.Bounds.{IsPlanned, plan_batches-IsPlanned}
use vibe_caravan.Plan.Manifest.{ensure_manifest_matches_snapshot}
use vibe_caravan.Plan.Manifest.Drift.{Records, ensure_manifest_iff}
use vibe_caravan.Commands.Transfer.Setup.{seed_state_batches}
use vibe_caravan.Commands.Transfer.Setup.Seeding.{IsSeeded, seed_state_batches-IsSeeded}
use vibe_caravan.Tests.Data.{planned_state, planned_state-IsValid}
use vibe_caravan.Tests.Data.{entries, options, batch_1, batch_2, snapshot}

plan_of_entries : plan_batches entries options ≡ ok (batch_1 ∷ batch_2 ∷ [])
unfolding plan_batches text_eq path_eq text_cmp path_cmp padded sort_by make_batch
plan_of_entries = refl

build_plan_of_entries : build_plan (ok entries) (ok tt) options ≡ ok snapshot
unfolding build_plan text_eq path_eq text_cmp path_cmp padded sort_by make_batch
build_plan_of_entries = refl

plan_batches-partition_example :
    (bs : List Batch) × (plan_batches entries options ≡ ok bs)
    × Perm (all_files bs) entries
    × IsSorted cmp_for_planning (all_files bs)
plan_batches-partition_example = plan_batches-partition entries options (omega arith) refl

plan_batches-IsPlanned_example : All (IsPlanned options) (batch_1 ∷ batch_2 ∷ [])
plan_batches-IsPlanned_example =
    plan_batches-IsPlanned options (omega arith) (omega arith) entries (batch_1 ∷ batch_2 ∷ [])
      plan_of_entries

manifest-IsNodup : IsNodup (ids snapshot.batches)
unfolding text_eq
manifest-IsNodup = (refl, (refl, tt))

ensure_manifest_iff_example :
    (ensure_manifest_matches_snapshot (from_batch batch_1 ∷ []) snapshot ≡ ok tt)
    ↔ Records (from_batch batch_1 ∷ []) snapshot.batches
ensure_manifest_iff_example = ensure_manifest_iff (from_batch batch_1 ∷ []) snapshot (refl, tt)

-- The state has the manifest of the plan, and no records yet.
seed_state_batches-IsSeeded_example :
    IsSeeded snapshot.batches planned_state (seed_state_batches snapshot planned_state)
seed_state_batches-IsSeeded_example =
    seed_state_batches-IsSeeded snapshot planned_state planned_state-IsValid
