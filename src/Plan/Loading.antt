-- ===== src/Plan/Loading.antt =====
-- src/plan/loading.rs: one batch of the plan that the current source gives.
use vibe_caravan.Prelude.{
  ℕ, ◌≡◌, refl, true, Option, none, some, List, [], ◌∷◌, ◌++◌, arith, Text, text_eq, ◌==◌, find,
  IsNodup, contains,
}
use vibe_caravan.Error.{Result, ok, err, CaravanError, Arg, message, ◌>>=◌}
use vibe_caravan.Models.Batch.{FileEntry, Batch}
use vibe_caravan.Plan.Batching.{PlanOptions, plan_batches}
use vibe_caravan.Plan.Batching.Ids.{ids, plan_batches-ids}

abbrev not_located : Text → CaravanError
not_located id =
    CaravanError.invalid_arguments
      (message "Could not locate batch {} in source directory" (Arg.word id ∷ []))

abbrev pub ok_or : Option Batch → CaravanError → Result Batch
ok_or none e = err e
ok_or (some b) e = ok b

-- `load_batch_definition`, given the result of the scan.
unfoldable pub load_batch_definition : Result (List FileEntry) → Text → ℕ → Option ℕ → Result Batch
unfolding plan_batches
load_batch_definition scanned batch_id batch_size_bytes max_files = do
  entries ← scanned
  batches ←
      plan_batches entries (record { batch_size_bytes = batch_size_bytes; max_files = max_files })
  ok_or (find (λ b. b.id == batch_id) batches) (not_located batch_id)

find-middle :
    (before : List Batch) (b : Batch) (rest : List Batch)
    → IsNodup (ids (before ++ (b ∷ rest)))
    → find (λ c. c.id == b.id) (before ++ (b ∷ rest)) ≡ some b
find-middle [] b rest n = ground (arith, text_eq.beq_iff b.id b.id)
find-middle (c ∷ before) b rest n =
    ground (
      arith,
      find-middle before b rest n.1,
      contains-middle before b rest,
      text_eq.beq_iff c.id b.id,
    )
  where
    contains-middle :
        (xs : List Batch) (y : Batch) (ys : List Batch)
        → contains (ids (xs ++ (y ∷ ys))) y.id ≡ true
    contains-middle [] y ys = ground (arith, text_eq.beq_iff y.id y.id)
    contains-middle (x ∷ xs) y ys = ground (arith, contains-middle xs y ys)

-- Every batch of a plan is loaded by its id, whatever its place in the plan, while the source and
-- the options are those of the plan.
pub load_batch_definition-of-plan :
    (es : List FileEntry) (o : PlanOptions) (before : List Batch) (b : Batch) (rest : List Batch)
    → plan_batches es o ≡ ok (before ++ (b ∷ rest))
    → load_batch_definition (ok es) b.id o.batch_size_bytes o.max_files ≡ ok b
unfolding load_batch_definition
load_batch_definition-of-plan es o before b rest h =
    rw (h, find-middle before b rest (plan_batches-ids es o (before ++ (b ∷ rest)) h).1) refl
