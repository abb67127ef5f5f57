-- ===== src/Models/State/Approval.antt =====
-- `approve_batches` of `MigrationState` against an independent description over the list.
use native.Mathlib.Nat.{zero-add}
use vibe_caravan.Prelude.{
  ℕ, suc, ◌+◌, ◌≡◌, refl, sym, ap, ◌∙◌, ◌⊎◌, inl, inr, true, false, Option, none, some, List, [],
  ◌∷◌, map, arith, Text, text_eq, ◌==◌, if◌then◌else◌, Bool-cases, contains, IsNodup,
}
use vibe_caravan.Models.HashMap.{get}
use vibe_caravan.Models.Batch.{BatchPhase, BatchState}
use vibe_caravan.Models.Index.Position.{position, position_from, ensure-IsMap}
use vibe_caravan.Models.Index.Ensure.{ensure-position}
use vibe_caravan.Models.State.{
  MigrationState, batch_ids, approve, approve_at, approve_loop, approve_batches,
  ensure_batch_index_consistent,
}
use vibe_caravan.Models.State.Laws.{IsValid}

abbrev approve_id : Text → BatchState → BatchState
approve_id id b = if id == b.batch_id then approve b else b

-- A batch that is named has the flag and the phase of an approval, and no other changes.
abbrev pub approve_listed : List Text → BatchState → BatchState
approve_listed ids b =
    if contains ids b.batch_id
    then record b { approved_for_delete = true; phase = BatchPhase.approved_for_delete }
    else b

map-approve_id_new :
    (bs : List BatchState) (id : Text)
    → contains (batch_ids bs) id ≡ false
    → map (approve_id id) bs ≡ bs
map-approve_id_new [] id h = refl
map-approve_id_new (b ∷ bs) id h =
    ground (
      arith,
      map-approve_id_new bs id,
      text_eq.beq_iff b.batch_id id,
      text_eq.beq_iff id b.batch_id,
    )

batch_ids-approve_id :
    (bs : List BatchState) (id : Text) → batch_ids (map (approve_id id) bs) ≡ batch_ids bs
batch_ids-approve_id [] id = refl
batch_ids-approve_id (b ∷ bs) id = ground (arith, batch_ids-approve_id bs id)

approve_at-from :
    (k : ℕ) (bs : List BatchState) (id : Text) (o : Option ℕ)
    → IsNodup (batch_ids bs)
    → position_from k (batch_ids bs) id ≡ o
    → ((o ≡ none) × (map (approve_id id) bs ≡ bs))
      ⊎ ((i : ℕ) × (o ≡ some (k + i)) × (approve_at bs (some i) ≡ map (approve_id id) bs))
approve_at-from k [] id o n h = inl (ground arith, refl)
approve_at-from k (b ∷ bs) id o n h = elim (Bool-cases (b.batch_id == id)) [
  | inl here ↦ inr (
    0,
    ground arith,
    ground (
      arith,
      map-approve_id_new bs id,
      text_eq.beq_iff b.batch_id id,
      text_eq.beq_iff id b.batch_id,
    ),
  )
  | inr there ↦ elim (approve_at-from (k + 1) bs id o n.1 (ground arith)) [
    | inl (e, w) ↦
        inl (e, ground (arith, w, text_eq.beq_iff b.batch_id id, text_eq.beq_iff id b.batch_id))
    | inr (i, e, w) ↦ inr (
      suc i,
      ground arith,
      ground (arith, w, text_eq.beq_iff b.batch_id id, text_eq.beq_iff id b.batch_id),
    )
  ]
]

approve_at-position :
    (bs : List BatchState) (id : Text)
    → IsNodup (batch_ids bs)
    → approve_at bs (position (batch_ids bs) id) ≡ map (approve_id id) bs
approve_at-position bs id n = elim (approve_at-from 0 bs id (position (batch_ids bs) id) n refl) [
  | inl (e, w) ↦ rw e (sym w)
  | inr (i, e, w) ↦ rw (e, zero-add) w
]

map-approve_listed :
    (x : Text) (xs : List Text) (bs : List BatchState)
    → map (approve_listed xs) (map (approve_id x) bs) ≡ map (approve_listed (x ∷ xs)) bs
map-approve_listed x xs [] = refl
map-approve_listed x xs (b ∷ bs) = ground (arith, map-approve_listed x xs bs)

approve_loop-batches :
    (ids : List Text) (all : List Text) (s : MigrationState)
    → IsNodup all
    → batch_ids s.batches ≡ all
    → ((id : Text) → get s.batch_index.pos_by_id id ≡ position all id)
    → (approve_loop ids s).batches ≡ map (approve_listed ids) s.batches
approve_loop-batches [] all s n e look = sym (map-same s.batches)
  where
    map-same : (bs : List BatchState) → map (approve_listed []) bs ≡ bs
    map-same [] = refl
    map-same (b ∷ bs) = rw (map-same bs)
approve_loop-batches (x ∷ xs) all s n e look =
    let step : approve_at s.batches (get s.batch_index.pos_by_id x) ≡ map (approve_id x) s.batches =
      rw (look x, ← e) (approve_at-position s.batches x (rw e n)) in
    approve_loop-batches xs all
      (record s { batches = approve_at s.batches (get s.batch_index.pos_by_id x) }) n
      (ap batch_ids step ∙ batch_ids-approve_id s.batches x ∙ e) look
    ∙ rw step (map-approve_listed x xs s.batches)

-- In a valid state the batches that are named get the flag approved for deletion and the phase of
-- that name, in their places and with the rest of their records kept, and the others are as they
-- were.
pub approve_batches-batches :
    (ids : List Text) (s : MigrationState)
    → IsValid s
    → (approve_batches ids s).batches ≡ map (approve_listed ids) s.batches
unfolding approve_batches
approve_batches-batches ids s v =
    approve_loop-batches ids (batch_ids s.batches) (ensure_batch_index_consistent s)
      v.batches_differ refl
      (λ id. ensure-position s.batch_index (batch_ids s.batches) id v.batch_map v.batches_differ)

pub batch_ids-approve_listed :
    (ids : List Text) (bs : List BatchState)
    → batch_ids (map (approve_listed ids) bs) ≡ batch_ids bs
batch_ids-approve_listed ids [] = refl
batch_ids-approve_listed ids (b ∷ bs) = ground (arith, batch_ids-approve_listed ids bs)

-- The index and the planned batches are those of the repaired state.
approve_loop-rest :
    (ids : List Text) (s : MigrationState)
    → ((approve_loop ids s).batch_index ≡ s.batch_index)
      × ((approve_loop ids s).planned_batches ≡ s.planned_batches)
      × ((approve_loop ids s).planned_index ≡ s.planned_index)
approve_loop-rest [] s = (refl, refl, refl)
approve_loop-rest (x ∷ xs) s =
    approve_loop-rest xs
      (record s { batches = approve_at s.batches (get s.batch_index.pos_by_id x) })

pub approve_batches-planned_batches :
    (ids : List Text) (s : MigrationState)
    → (approve_batches ids s).planned_batches ≡ s.planned_batches
unfolding approve_batches
approve_batches-planned_batches ids s = (approve_loop-rest ids (ensure_batch_index_consistent s)).1

-- An approval keeps a state valid: the ids of its batches and of its manifest stay different.
pub approve_batches-IsValid :
    (ids : List Text) (s : MigrationState) → IsValid s → IsValid (approve_batches ids s)
approve_batches-IsValid ids s v =
    let rest = approve_loop-rest ids (ensure_batch_index_consistent s) in
    record {
      batches_differ =
          rw (approve_batches-batches ids s v, batch_ids-approve_listed ids s.batches)
            v.batches_differ;
      planned_differ = unfold approve_batches in rw (rest.1) v.planned_differ;
      batch_map =
          unfold approve_batches in
          rw (rest.0) (ensure-IsMap s.batch_index (batch_ids s.batches) v.batch_map);
      planned_map = unfold approve_batches in rw (rest.2) v.planned_map;
    }
