-- ===== src/Commands/Transfer/Setup/Seeding.antt =====
-- src/cli/commands/transfer/setup.rs: what the seeding of a state adds, and what it keeps.
use vibe_caravan.Prelude.{
  ◌≡◌, refl, false, sym, ap, ◌∙◌, Option, none, some, List, [], ◌∷◌, arith, Text, text_eq, ◌==◌,
  Bool-cases, Option-cases, inl, inr, if◌then◌else◌,
}
use vibe_caravan.Models.Batch.{Batch, BatchPhase, BatchState, from_batch}
use vibe_caravan.Models.State.{
  MigrationState, batch, upsert_batch, planned_batch, upsert_planned_batch,
}
use vibe_caravan.Models.State.Laws.{
  IsValid, batch-eq-find_id, batch-upsert_batch, upsert_batch-IsValid, upsert_batch-SameRest,
  planned_batch-eq-find_id,
}
use vibe_caravan.Models.State.Planned.{
  upsert_planned_batch-IsValid, upsert_planned_batch-batches, planned_batch-upsert_planned_batch,
}
use vibe_caravan.Plan.Batching.{PlanningSnapshot}
use vibe_caravan.Commands.Transfer.Setup.{
  seed_planned, seed_state, seed_batches, seed_state_batches,
}

-- What was there stays; otherwise the new value is taken.
abbrev pub keep_or : {A : Type 0} → Option A → Option A → Option A
keep_or (some a) later = some a
keep_or none later = later

keep_or-keep_or :
    {A : Type 0} (a b c : Option A) → keep_or (keep_or a b) c ≡ keep_or a (keep_or b c)
keep_or-keep_or (some x) b c = refl
keep_or-keep_or none b c = refl

-- The first batch of the plan with the id, by what it is recorded as.
unfoldable pub first_with : {A : Type 0} → (Batch → A) → List Batch → Text → Option A
first_with entry [] j = none
first_with entry (b ∷ bs) j =
    let rest = first_with entry bs j in keep_or (if b.id == j then some (entry b) else none) rest

abbrev pub state_of : Batch → BatchState
state_of b = record {
  batch_id = b.id;
  phase = BatchPhase.planned;
  verification_passed = false;
  approved_for_delete = false;
  deleted = false;
}

-- Seeding keeps the state valid; every id keeps the record and the manifest it had, and an id of the
-- plan that had none is recorded as planned, with the manifest of its first batch.
pub record IsSeeded (bs : List Batch) (s t : MigrationState) : Type 0 where
  pub valid : IsValid t
  pub records : (j : Text) → batch t j ≡ keep_or (batch s j) (first_with state_of bs j)
  pub manifest :
      (j : Text) → planned_batch t j ≡ keep_or (planned_batch s j) (first_with from_batch bs j)

same_batch :
    (s t : MigrationState) (j : Text)
    → IsValid s
    → IsValid t
    → t.batches ≡ s.batches
    → batch t j ≡ batch s j
same_batch s t j v w e = rw (batch-eq-find_id t j w, batch-eq-find_id s j v, e) refl

same_planned :
    (s t : MigrationState) (j : Text)
    → IsValid s
    → IsValid t
    → t.planned_batches ≡ s.planned_batches
    → planned_batch t j ≡ planned_batch s j
same_planned s t j v w e =
    rw (planned_batch-eq-find_id t j w, planned_batch-eq-find_id s j v, e) refl

unchanged : {A : Type 0} (o : Option A) → o ≡ keep_or o none
unchanged none = refl
unchanged (some a) = refl

there : {A : Type 0} (o later : Option A) {a : A} → o ≡ some a → o ≡ keep_or o later
there none later h = absurd (ground (arith, h))
there (some x) later h = refl

kept :
    {A : Type 0} (lookup : Text → Option A) (i j : Text) (new : A) {old : A}
    → lookup i ≡ some old
    → lookup j ≡ keep_or (lookup j) (if i == j then some new else none)
kept lookup i j new {old = old} h = elim (Bool-cases (i == j)) [
  | inl same ↦
      there (lookup j) (if i == j then some new else none) {a = old}
        (ap lookup (sym ((text_eq.beq_iff i j).0 same)) ∙ h)
  | inr other ↦ rw other (unchanged (lookup j))
]

entered :
    {A : Type 0} (lookup : Text → Option A) (i j : Text) (a : A)
    → lookup i ≡ none
    → (if i == j then some a else lookup j) ≡ keep_or (lookup j) (if i == j then some a else none)
entered lookup i j a h = elim (Bool-cases (i == j)) [
  | inl same ↦
      let there : lookup j ≡ none = ap lookup (sym ((text_eq.beq_iff i j).0 same)) ∙ h in
      rw (same, there) refl
  | inr other ↦ rw other (unchanged (lookup j))
]

record IsPlannedStep (b : Batch) (s t : MigrationState) : Type 0 where
  valid : IsValid t
  records : (j : Text) → batch t j ≡ batch s j
  manifest :
      (j : Text)
      → planned_batch t j
        ≡ keep_or (planned_batch s j) (if b.id == j then some (from_batch b) else none)

record IsStateStep (b : Batch) (s t : MigrationState) : Type 0 where
  valid : IsValid t
  records :
      (j : Text) → batch t j ≡ keep_or (batch s j) (if b.id == j then some (state_of b) else none)
  manifest : (j : Text) → planned_batch t j ≡ planned_batch s j

seed_planned-step :
    (b : Batch) (s : MigrationState) → IsValid s → IsPlannedStep b s (seed_planned b s)
unfolding seed_planned
seed_planned-step b s v = elim (Option-cases (planned_batch s b.id)) [
  | inl h ↦
      rw (h, seed_planned)
        (let w = upsert_planned_batch-IsValid (from_batch b) s v in
          record {
            valid = w;
            records = λ j.
                same_batch s (upsert_planned_batch (from_batch b) s) j v w
                  (upsert_planned_batch-batches (from_batch b) s).0;
            manifest = λ j.
                planned_batch-upsert_planned_batch (from_batch b) s j v
                ∙ entered (planned_batch s) b.id j (from_batch b) h;
          })
  | inr (p, h) ↦
      rw (h, seed_planned)
        (record {
          valid = v;
          records = λ j. refl;
          manifest = λ j. kept (planned_batch s) b.id j (from_batch b) {old = p} h;
        })
]

seed_state-step : (b : Batch) (s : MigrationState) → IsValid s → IsStateStep b s (seed_state b s)
seed_state-step b s v = elim (Option-cases (batch s b.id)) [
  | inl h ↦
      rw (h, seed_state)
        (let w = upsert_batch-IsValid (state_of b) s v in
          record {
            valid = w;
            records = λ j.
                batch-upsert_batch (state_of b) s j v ∙ entered (batch s) b.id j (state_of b) h;
            manifest = λ j.
                same_planned s (upsert_batch (state_of b) s) j v w
                  (upsert_batch-SameRest (state_of b) s).planned;
          })
  | inr (p, h) ↦
      rw (h, seed_state)
        (record {
          valid = v;
          records = λ j. kept (batch s) b.id j (state_of b) {old = p} h;
          manifest = λ j. refl;
        })
]

seed_batches-IsSeeded :
    (bs : List Batch) (s : MigrationState) → IsValid s → IsSeeded bs s (seed_batches bs s)
unfolding seed_batches first_with
seed_batches-IsSeeded [] s v = record {
  valid = v;
  records = λ j. unchanged (batch s j);
  manifest = λ j. unchanged (planned_batch s j);
}
seed_batches-IsSeeded (b ∷ bs) s v =
    let one = seed_planned-step b s v in
    let two = seed_state-step b (seed_planned b s) one.valid in
    let rest = seed_batches-IsSeeded bs (seed_state b (seed_planned b s)) two.valid in
    record {
      valid = rest.valid;
      records = λ j.
          rest.records j
          ∙ ap (λ o. keep_or o (first_with state_of bs j))
              (two.records j
                ∙ ap (λ o. keep_or o (if b.id == j then some (state_of b) else none))
                    (one.records j))
          ∙ keep_or-keep_or (batch s j) (if b.id == j then some (state_of b) else none)
              (first_with state_of bs j);
      manifest = λ j.
          rest.manifest j
          ∙ ap (λ o. keep_or o (first_with from_batch bs j)) (two.manifest j ∙ one.manifest j)
          ∙ keep_or-keep_or (planned_batch s j) (if b.id == j then some (from_batch b) else none)
              (first_with from_batch bs j);
    }

-- Seeding a valid state with a plan keeps it valid and keeps every record and manifest that it has;
-- an id of the plan without a record gets one in the phase planned, with no flag set, and one without
-- a manifest gets that of the first batch of the plan with the id; no other id gets anything.
pub seed_state_batches-IsSeeded :
    (plan : PlanningSnapshot) (s : MigrationState)
    → IsValid s
    → IsSeeded plan.batches s (seed_state_batches plan s)
unfolding seed_state_batches
seed_state_batches-IsSeeded plan s v = seed_batches-IsSeeded plan.batches s v
