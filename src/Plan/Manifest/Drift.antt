-- ===== src/Plan/Manifest/Drift.antt =====
-- src/plan/manifest.rs: the drift check against what it means that a manifest records a plan.
use mathlib.Core.Path.{subst}
use mathlib.Core.List.{append_assoc}
use vibe_caravan.Prelude.{
  ℕ, ◌+◌, ◌≡◌, refl, ap, sym, ◌∙◌, ◌↔◌, true, Option, none, some, List, [], ◌∷◌, ◌++◌, map, arith,
  Text, text_eq, path_eq, length, length-map, contains, IsNodup, All,
}
use vibe_caravan.Error.{ok}
use vibe_caravan.Models.HashMap.{keys, get, collect, get-collect}
use vibe_caravan.Models.Batch.{
  FileEntry, Batch, PlannedFile, PlannedBatch, planned_file, from_batch,
}
use vibe_caravan.Models.State.{planned_ids}
use vibe_caravan.Models.State.Keyed.{find_id, id_of-find_id}
use vibe_caravan.Models.State.Laws.{planned_id}
use vibe_caravan.Plan.Batching.{PlanningSnapshot}
use vibe_caravan.Plan.Batching.Ids.{ids}
use vibe_caravan.Plan.Manifest.{
  planned_batches_from_snapshot, check_files, check_batch, check_batches, check_stale, by_id,
  ensure_manifest_matches_snapshot,
}

check_files_sound :
    (id : Text) (index : ℕ) (ps : List PlannedFile) (fs : List FileEntry)
    → check_files id index ps fs ≡ ok tt
    → length ps ≡ length fs
    → ps ≡ map planned_file fs
unfolding check_files
check_files_sound id index [] [] h l = refl
check_files_sound id index [] (f ∷ fs) h l = absurd (omega arith)
check_files_sound id index (p ∷ ps) [] h l = absurd (omega arith)
check_files_sound id index (p ∷ ps) (f ∷ fs) h l =
    ground (
      arith,
      check_files_sound id (index + 1) ps fs,
      path_eq.beq_iff p.relative_path f.relative_path,
    )

check_files_complete :
    (id : Text) (index : ℕ) (fs : List FileEntry)
    → check_files id index (map planned_file fs) fs ≡ ok tt
unfolding check_files
check_files_complete id index [] = refl
check_files_complete id index (f ∷ fs) =
    ground (
      arith,
      check_files_complete id (index + 1) fs,
      path_eq.beq_iff f.relative_path f.relative_path,
    )

check_batch_sound :
    (b : Batch) (o : Option PlannedBatch)
    → check_batch b o ≡ ok tt
    → (p : PlannedBatch) × (o ≡ some p)
      × (p.file_count ≡ b.file_count)
      × (p.total_bytes ≡ b.total_bytes)
      × (p.files ≡ map planned_file b.files)
unfolding check_batch
check_batch_sound b none h = absurd (ground arith)
check_batch_sound b (some p) h = (
  p,
  refl,
  ground arith,
  ground arith,
  check_files_sound b.id 0 p.files b.files (ground arith) (ground arith),
)

check_batch_complete : (b : Batch) → check_batch b (some (from_batch b)) ≡ ok tt
unfolding check_batch from_batch
check_batch_complete b =
    ground (arith, check_files_complete b.id 0 b.files, length-map planned_file b.files)

get-by_id : (ps : List PlannedBatch) (id : Text) → get (by_id ps) id ≡ find_id planned_id ps id
get-by_id [] id = refl
get-by_id (p ∷ ps) id = ground (arith, get-by_id ps id)

keys-by_id : (ps : List PlannedBatch) → keys (by_id ps) ≡ planned_ids ps
keys-by_id [] = refl
keys-by_id (p ∷ ps) = ap (λ l. p.batch_id ∷ l) (keys-by_id ps)

get-collect-by_id :
    (ps : List PlannedBatch) (id : Text)
    → IsNodup (planned_ids ps)
    → get (collect (by_id ps)) id ≡ find_id planned_id ps id
get-collect-by_id ps id n = get-collect (by_id ps) id (rw (keys-by_id ps) n) ∙ get-by_id ps id

check_batches_sound :
    (ps : List PlannedBatch) (bs : List Batch)
    → IsNodup (planned_ids ps)
    → check_batches (collect (by_id ps)) bs ≡ ok tt
    → All (λ b. find_id planned_id ps b.id ≡ some (from_batch b)) bs
unfolding check_batches from_batch
check_batches_sound ps [] n h = tt
check_batches_sound ps (b ∷ bs) n h =
    let (p, e, counted, totalled, same_files) =
      check_batch_sound b (get (collect (by_id ps)) b.id) (ground arith) in
    let found : find_id planned_id ps b.id ≡ some p = sym (get-collect-by_id ps b.id n) ∙ e in
    (
      ground (arith, found, id_of-find_id planned_id ps b.id {x = p} found),
      check_batches_sound ps bs n (ground arith),
    )

check_batches_complete :
    (ps : List PlannedBatch) (bs : List Batch)
    → IsNodup (planned_ids ps)
    → All (λ b. find_id planned_id ps b.id ≡ some (from_batch b)) bs
    → check_batches (collect (by_id ps)) bs ≡ ok tt
unfolding check_batches
check_batches_complete ps [] n all = refl
check_batches_complete ps (b ∷ bs) n all =
    rw (get-collect-by_id ps b.id n ∙ all.0, check_batch_complete b)
      (check_batches_complete ps bs n all.1)

check_stale_iff :
    (seen : List Text) (ps : List PlannedBatch)
    → (check_stale seen ps ≡ ok tt) ↔ All (λ p. contains seen p.batch_id ≡ true) ps
unfolding check_stale
check_stale_iff seen [] = (λ h. tt, λ h. refl)
check_stale_iff seen (p ∷ ps) = (
  λ h. (ground arith, (check_stale_iff seen ps).0 (ground arith)),
  λ h. ground (arith, (check_stale_iff seen ps).1 h.1),
)

-- What the check establishes: the manifest has each batch of the plan under its id, with its
-- counts, its totals and its files in order, has no other batch, and is as long as the plan.
pub record Records (ps : List PlannedBatch) (bs : List Batch) : Type 0 where
  pub same_length : length ps ≡ length bs
  pub recorded : All (λ b. find_id planned_id ps b.id ≡ some (from_batch b)) bs
  pub no_stale : All (λ p. contains (ids bs) p.batch_id ≡ true) ps

ensure-parts :
    (ps : List PlannedBatch) (s : PlanningSnapshot)
    → ensure_manifest_matches_snapshot ps s ≡ ok tt
    → (length ps ≡ length s.batches)
      × (check_batches (collect (by_id ps)) s.batches ≡ ok tt)
      × (check_stale (ids s.batches) ps ≡ ok tt)
unfolding ensure_manifest_matches_snapshot
ensure-parts ps s h = (ground arith, ground arith, ground arith)

-- With different ids in the manifest, the check passes exactly when the manifest records the plan.
pub ensure_manifest_iff :
    (ps : List PlannedBatch) (s : PlanningSnapshot)
    → IsNodup (planned_ids ps)
    → (ensure_manifest_matches_snapshot ps s ≡ ok tt) ↔ Records ps s.batches
unfolding ensure_manifest_matches_snapshot
ensure_manifest_iff ps s n = (
  λ h.
      let (l, c, t) = ensure-parts ps s h in
      record {
        same_length = l;
        recorded = check_batches_sound ps s.batches n c;
        no_stale = (check_stale_iff (ids s.batches) ps).0 t;
      },
  λ r. ground (
    arith,
    r.same_length,
    check_batches_complete ps s.batches n r.recorded,
    (check_stale_iff (ids s.batches) ps).1 r.no_stale,
  ),
)

contains-ids-middle :
    (bs : List Batch) (b : Batch) (rest : List Batch)
    → contains (ids (bs ++ (b ∷ rest))) b.id ≡ true
contains-ids-middle [] b rest = ground (arith, text_eq.beq_iff b.id b.id)
contains-ids-middle (c ∷ bs) b rest = ground (arith, contains-ids-middle bs b rest)

find_id-recorded :
    (bs : List Batch) (b : Batch) (rest : List Batch)
    → IsNodup (ids (bs ++ (b ∷ rest)))
    → find_id planned_id (map from_batch (bs ++ (b ∷ rest))) b.id ≡ some (from_batch b)
unfolding from_batch
find_id-recorded [] b rest n = ground (arith, text_eq.beq_iff b.id b.id)
find_id-recorded (c ∷ bs) b rest n = ground (
  arith,
  find_id-recorded bs b rest n.1,
  contains-ids-middle bs b rest,
  text_eq.beq_iff c.id b.id,
)

All-recorded :
    (bs rest : List Batch)
    → IsNodup (ids (bs ++ rest))
    → All (λ b. find_id planned_id (map from_batch (bs ++ rest)) b.id ≡ some (from_batch b)) rest
All-recorded bs [] n = tt
All-recorded bs (b ∷ rest) n =
    let regroup : (bs ++ (b ∷ [])) ++ rest ≡ bs ++ (b ∷ rest) = append_assoc bs (b ∷ []) rest in
    (
      find_id-recorded bs b rest n,
      subst (λ l. All (λ c. find_id planned_id (map from_batch l) c.id ≡ some (from_batch c)) rest)
          regroup (All-recorded (bs ++ (b ∷ [])) rest (rw regroup n)),
    )

planned_ids-from_batch : (bs : List Batch) → planned_ids (map from_batch bs) ≡ ids bs
unfolding from_batch
planned_ids-from_batch [] = refl
planned_ids-from_batch (b ∷ bs) = ap (λ l. b.id ∷ l) (planned_ids-from_batch bs)

All-not_stale :
    (seen : List Batch) (bs : List Batch)
    → All (λ p. contains (ids (seen ++ bs)) p.batch_id ≡ true) (map from_batch bs)
unfolding from_batch
All-not_stale seen [] = tt
All-not_stale seen (b ∷ bs) =
    let regroup : (seen ++ (b ∷ [])) ++ bs ≡ seen ++ (b ∷ bs) = append_assoc seen (b ∷ []) bs in
    (contains-ids-middle seen b bs, rw regroup at (All-not_stale (seen ++ (b ∷ [])) bs))

-- A manifest made from a plan with different ids passes the check against that plan.
pub ensure_manifest-planned_batches :
    (s : PlanningSnapshot)
    → IsNodup (ids s.batches)
    → ensure_manifest_matches_snapshot (planned_batches_from_snapshot s) s ≡ ok tt
unfolding planned_batches_from_snapshot
ensure_manifest-planned_batches s n =
    (ensure_manifest_iff (map from_batch s.batches) s (rw (planned_ids-from_batch s.batches) n)).1
      (record {
        same_length = length-map from_batch s.batches;
        recorded = All-recorded [] s.batches n;
        no_stale = All-not_stale [] s.batches;
      })
