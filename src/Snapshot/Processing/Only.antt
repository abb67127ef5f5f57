-- ===== src/Snapshot/Processing/Only.antt =====
-- src/snapshot/processing.rs: what the processing of snapshots changes.
use vibe_caravan.Prelude.{
  ℕ, ◌≡◌, refl, sym, ◌∙◌, ◌⊎◌, inl, inr, Bool, true, Option, none, some, List, [], ◌∷◌, arith, ap,
  Text, String, text_eq, ◌==◌, FilePath, contains, select, sort_by, insert_by, text_cmp, is_gt,
  IsNodup, Bool-cases,
}
use vibe_caravan.Config.{Mode}
use vibe_caravan.Error.{Result, Message}
use vibe_caravan.Models.Batch.{BatchPhase, BatchState}
use vibe_caravan.Models.State.{MigrationState, batch_ids}
use vibe_caravan.Models.State.Keyed.{find_id}
use vibe_caravan.Models.State.Laws.{IsValid, batch_id}
use vibe_caravan.Platform.Host.{Host}
use vibe_caravan.Exec.{Sys, attempt, call, modify, after}
use vibe_caravan.Exec.Within.{IsPreorder, Within}
use vibe_caravan.Snapshot.{
  SnapshotBackend, push_snapshot_journal, record_snapshot, marked, find_id-set_first,
}
use vibe_caravan.Snapshot.Processing.{deleted_batch_ids, process_pending_snapshots}
use vibe_caravan.Snapshot.Processing.Allowed.{IsAllowed, process_pending_snapshots-within}
use vibe_caravan.Commands.Deletion.{persist_state}

-- The record of a batch is as it was, or the batch is one of `ids` and its phase alone is set.
abbrev pub IsMarked : List Text → List BatchState → List BatchState → Text → Type 0
IsMarked ids before after j =
    (find_id batch_id after j ≡ find_id batch_id before j)
    ⊎ ((contains ids j ≡ true) × (find_id batch_id after j ≡ marked (find_id batch_id before j)))

-- Only records of the batches `ids` change, only in the phase, and the manifest stays.
pub record Marks {W : Type 0} (ids : List Text) (s t : Sys W) : Type 0 where
  pub records : (j : Text) → IsMarked ids s.state.batches t.state.batches j
  pub manifest : t.state.planned_batches ≡ s.state.planned_batches

marked-marked : (o : Option BatchState) → marked (marked o) ≡ marked o
marked-marked none = refl
marked-marked (some b) = refl

IsMarked-chain :
    (ids : List Text) (a b c : List BatchState) (j : Text)
    → IsMarked ids a b j
    → IsMarked ids b c j
    → IsMarked ids a c j
IsMarked-chain ids a b c j (inl h) (inl k) = inl (k ∙ h)
IsMarked-chain ids a b c j (inl h) (inr (m, k)) = inr (m, k ∙ ap marked h)
IsMarked-chain ids a b c j (inr (m, h)) (inl k) = inr (m, k ∙ h)
IsMarked-chain ids a b c j (inr (m, h)) (inr (m', k)) =
    inr (m, k ∙ ap marked h ∙ marked-marked (find_id batch_id a j))

module _ {W : Type 0} (ids : List Text) where
  Marks-preorder : IsPreorder {W = W} (Marks ids)
  Marks-preorder = record {
    same = λ s. record { records = λ j. inl refl; manifest = refl };
    chain = λ s t u h k. record {
      records = λ j.
          IsMarked-chain ids s.state.batches t.state.batches u.state.batches j (h.records j)
            (k.records j);
      manifest = k.manifest ∙ h.manifest;
    };
  }

  -- An action on the world alone.
  Marks-attempt : {A : Type 0} (f : W → Result A × W) → Within (Marks ids) (attempt f)
  Marks-attempt f = record { at = λ s. record { records = λ j. inl refl; manifest = refl } }

  Marks-call : {A : Type 0} (f : W → A × W) → Within (Marks ids) (call f)
  Marks-call f = record { at = λ s. record { records = λ j. inl refl; manifest = refl } }

  Marks-record_snapshot :
      (id name : Text)
      → contains ids id ≡ true
      → Within {W = W} (Marks ids) (modify (record_snapshot id name))
  Marks-record_snapshot id name m = record {
    at = λ s. record {
      records = λ j. elim (Bool-cases (id == j)) [
        | inl same ↦
            let there : contains ids j ≡ true = ground (arith, (text_eq.beq_iff id j).0 same, m) in
            inr (there, find_id-set_first id j s.state.batches ∙ rw same refl)
        | inr other ↦ inl (find_id-set_first id j s.state.batches ∙ rw other refl)
      ];
      manifest = refl;
    };
  }

-- The record of the id is as it was; or it was that of a deleted batch, and is the same in the phase
-- of a completed snapshot.
abbrev pub IsSnapshotted : List BatchState → List BatchState → Text → Type 0
IsSnapshotted before after j =
    (find_id batch_id after j ≡ find_id batch_id before j)
    ⊎ ((b : BatchState) × (find_id batch_id before j ≡ some b)
        × (b.deleted ≡ true)
        × (find_id batch_id after j ≡ some (record b { phase = BatchPhase.snapshot_completed })))

insert_by-contains :
    (x : Text) (ys : List Text) (q : Text)
    → contains (insert_by text_cmp x ys) q ≡ contains (x ∷ ys) q
insert_by-contains x [] q = refl
insert_by-contains x (y ∷ ys) q = elim (Bool-cases (is_gt (text_cmp x y))) [
  | inl later ↦ rw later (ground (arith, insert_by-contains x ys q))
  | inr here ↦ rw here refl
]

sort_by-contains : (xs : List Text) (q : Text) → contains (sort_by text_cmp xs) q ≡ contains xs q
unfolding sort_by
sort_by-contains [] q = refl
sort_by-contains (x ∷ xs) q =
    insert_by-contains x (sort_by text_cmp xs) q ∙ ground (arith, sort_by-contains xs q)

contains-select :
    (p : BatchState → Bool) (bs : List BatchState) (j : Text)
    → contains (batch_ids (select p bs)) j ≡ true
    → contains (batch_ids bs) j ≡ true
contains-select p [] j h = h
contains-select p (b ∷ bs) j h = elim (Bool-cases (p b)) [
  | inl yes_it_is ↦ ground (arith, h, yes_it_is, contains-select p bs j)
  | inr n ↦ ground (arith, h, n, contains-select p bs j)
]

-- Where the ids differ, the record that is found for a listed id is the one that was selected.
find_id-selected :
    (p : BatchState → Bool) (bs : List BatchState) (j : Text)
    → IsNodup (batch_ids bs)
    → contains (batch_ids (select p bs)) j ≡ true
    → (b : BatchState) × (find_id batch_id bs j ≡ some b) × (p b ≡ true)
find_id-selected p [] j n h = absurd (ground (arith, h))
find_id-selected p (b ∷ bs) j n h = elim (Bool-cases (b.batch_id == j)) [
  | inl here ↦ elim (Bool-cases (p b)) [
    | inl yes_it_is ↦ (b, rw here refl, yes_it_is)
    | inr not_it ↦
        let e : b.batch_id ≡ j = (text_eq.beq_iff b.batch_id j).0 here in
        absurd (ground (arith, n.0, e, contains-select p bs j (rw not_it at h)))
  ]
  | inr other ↦
      let (c, found, kept) = find_id-selected p bs j n.1 (elim (Bool-cases (p b)) [
        | inl yes_it_is ↦ ground (arith, h, yes_it_is, other)
        | inr not_it ↦ rw not_it at h
      ]) in
      (c, rw other found, kept)
]

IsMarked-IsSnapshotted :
    (s : MigrationState) (after : List BatchState) (j : Text)
    → IsNodup (batch_ids s.batches)
    → IsMarked (deleted_batch_ids s) s.batches after j
    → IsSnapshotted s.batches after j
IsMarked-IsSnapshotted s after j n (inl same) = inl same
IsMarked-IsSnapshotted s after j n (inr (listed, e)) =
    let (b, found, gone) =
      find_id-selected (λ b. b.deleted) s.batches j n
        (sym (sort_by-contains (batch_ids (select (λ b. b.deleted) s.batches)) j) ∙ listed) in
    inr (b, found, gone, e ∙ ap marked found)

module _ {W : Type 0} (host : Host W) (backend : SnapshotBackend W) where
  Marks-push_journal :
      (ids : List Text) (event : String) (id : Text) (context : Message)
      → Within (Marks ids) (push_snapshot_journal backend event id context)
  unfolding push_snapshot_journal
  Marks-push_journal ids event id context = record {
    at = λ s. record { records = λ j. inl refl; manifest = refl };
  }

  Marks-persist_state : (ids : List Text) → Within (Marks ids) (persist_state host.env)
  unfolding persist_state
  Marks-persist_state ids = record { at = λ s. record { records = λ j. inl refl; manifest = refl } }

  Marks-IsAllowed : (ids : List Text) → IsAllowed host backend ids (Marks ids)
  Marks-IsAllowed ids = record {
    preorder = Marks-preorder ids;
    interrupt = Marks-attempt ids host.env.check_interrupt;
    created = λ dest root id. Marks-call ids (backend.create_snapshot dest root id);
    journal = Marks-push_journal ids;
    persisted = Marks-persist_state ids;
    recorded = Marks-record_snapshot ids;
  }

  process_pending_snapshots-Marks :
      (mode : Mode) (snapshot_every : Option ℕ) (destination_root : FilePath)
      (snapshot_root : Option FilePath) (s : Sys W)
      → Marks
          (deleted_batch_ids s.state)
          s
          (process_pending_snapshots host backend mode snapshot_every destination_root snapshot_root
            s).1
  process_pending_snapshots-Marks mode snapshot_every destination_root snapshot_root s =
      process_pending_snapshots-within host backend mode snapshot_every destination_root
        snapshot_root Marks Marks-IsAllowed s

  -- From a valid state, and whether it returns or fails, the processing of snapshots leaves the
  -- record of every id as it was, or it was the record of a deleted batch and only its phase has
  -- changed, to that of a completed snapshot; and the manifest is kept.
  pub process_pending_snapshots-IsSnapshotted :
      (mode : Mode) (snapshot_every : Option ℕ) (destination_root : FilePath)
      (snapshot_root : Option FilePath) (s : Sys W)
      → IsValid s.state
      → let t =
          (process_pending_snapshots host backend mode snapshot_every destination_root snapshot_root
            s).1 in
        ((j : Text) → IsSnapshotted s.state.batches t.state.batches j)
        × (t.state.planned_batches ≡ s.state.planned_batches)
  process_pending_snapshots-IsSnapshotted mode snapshot_every destination_root snapshot_root s v =
      let marks =
        process_pending_snapshots-Marks mode snapshot_every destination_root snapshot_root s in
      (λ j. IsMarked-IsSnapshotted s.state _ j v.batches_differ (marks.records j), marks.manifest)
