-- ===== src/Cleanup/Effects.antt =====
-- src/cleanup.rs: what each part of a cleanup may change.
use vibe_caravan.Prelude.{
  ◌≡◌, refl, ◌∙◌, ◌⊎◌, inl, inr, true, false, not, Option, none, some, List, [], ◌∷◌, map, arith,
  Text, String, FilePath, join, text_eq, path_eq, ◌==◌, contains, beq_refl, Bool-cases, All,
}
use vibe_caravan.Error.{IoError, Message, message}
use vibe_caravan.Models.Batch.{FileEntry, Batch, BatchState, JournalEntry}
use vibe_caravan.Models.State.{MigrationState, batch, upsert_batch}
use vibe_caravan.Models.State.Laws.{
  IsValid, upsert_batch-IsValid, batch-upsert_batch, upsert_batch-SameRest,
}
use vibe_caravan.Platform.{Env, EnvLaws}
use vibe_caravan.Exec.{Sys, call, attempt, modify}
use vibe_caravan.Exec.Within.{
  IsPreorder, Within, Within-pure, Within-raise, Within-ask, Within-raise_if, Within-if,
  Within-when, Within-bind,
}
use vibe_caravan.Cleanup.{
  mark_failed, mark_deleted, push_journal, removal_outcome, delete_file, delete_files, delete_batch,
  delete_unless_deleted, cleanup_found, not_verified, not_approved, delete_error, failure_context,
}

-- The journal is not read by a lookup.
pub batch-journal :
    (s : MigrationState) (id : Text) (j : List JournalEntry)
    → batch (record s { journal = j }) id ≡ batch s id
unfolding batch
batch-journal s id j = refl

-- The places in the source of the files of a list.
abbrev pub places : FilePath → List FileEntry → List FilePath
places root fs = map (λ f. join root f.relative_path) fs

-- The places of a list of files are among the paths.
abbrev pub AreAmong : List FilePath → FilePath → List FileEntry → Type 0
AreAmong paths root fs = All (λ f. contains paths (join root f.relative_path) ≡ true) fs

places-AreAmong :
    (paths : List FilePath) (root : FilePath) (fs : List FileEntry)
    → ((q : FilePath) → contains (places root fs) q ≡ true → contains paths q ≡ true)
    → AreAmong paths root fs
places-AreAmong paths root [] h = tt
places-AreAmong paths root (f ∷ fs) h = (
  h (join root f.relative_path)
      (ground (arith, path_eq.beq_iff (join root f.relative_path) (join root f.relative_path))),
  places-AreAmong paths root fs (λ q k. h q (ground (arith, k))),
)

-- Every file is at one of its own places.
pub AreAmong-places : (root : FilePath) (fs : List FileEntry) → AreAmong (places root fs) root fs
AreAmong-places root fs = places-AreAmong (places root fs) root fs (λ q k. k)

-- The record of `id` is the one of `s`, or one with the verification and the approval of `b`.
abbrev pub Owns : Text → BatchState → MigrationState → MigrationState → Type 0
Owns id b s t =
    (batch t id ≡ batch s id)
    ⊎ ((b' : BatchState) × (batch t id ≡ some b')
        × (b'.verification_passed ≡ b.verification_passed)
        × (b'.approved_for_delete ≡ b.approved_for_delete))

Owns-chain :
    (id : Text) (b : BatchState) (s t u : MigrationState)
    → Owns id b s t
    → Owns id b t u
    → Owns id b s u
Owns-chain id b s t u (inl h) (inl k) = inl (k ∙ h)
Owns-chain id b s t u (inr (b', e, f, g)) (inl k) = inr (b', k ∙ e, f, g)
Owns-chain id b s t u h (inr k) = inr k

module _ {W : Type 0} (env : Env W) (laws : EnvLaws env) (own : BatchState) (id : Text)
    (paths : List FilePath) where
  -- The state stays valid, no batch but `id` is changed, and that one keeps its verification and
  -- approval; the manifest is kept, no file but those at `paths` is removed, and no file comes
  -- into being.
  pub record Touches (s t : Sys W) : Type 0 where
    pub valid : IsValid s.state → IsValid t.state
    pub others :
        IsValid s.state → (j : Text) → (id == j) ≡ false → batch t.state j ≡ batch s.state j
    pub owns : IsValid s.state → Owns id own s.state t.state
    pub manifest : t.state.planned_batches ≡ s.state.planned_batches
    pub outside :
        (q : FilePath) → contains paths q ≡ false → env.exists q t.world ≡ env.exists q s.world
    pub none_new : (q : FilePath) → env.exists q s.world ≡ false → env.exists q t.world ≡ false

  pub Touches-preorder : IsPreorder Touches
  Touches-preorder = record {
    same = λ s. record {
      valid = λ v. v;
      others = λ v j h. refl;
      owns = λ v. inl refl;
      manifest = refl;
      outside = λ q h. refl;
      none_new = λ q h. h;
    };
    chain = λ s t u h k. record {
      valid = λ v. k.valid (h.valid v);
      others = λ v j n. k.others (h.valid v) j n ∙ h.others v j n;
      owns = λ v. Owns-chain id own s.state t.state u.state (h.owns v) (k.owns (h.valid v));
      manifest = k.manifest ∙ h.manifest;
      outside = λ q n. k.outside q n ∙ h.outside q n;
      none_new = λ q n. k.none_new q (h.none_new q n);
    };
  }

  Touches-world :
      (s t : Sys W)
      → t.state ≡ s.state
      → ((q : FilePath) → env.exists q t.world ≡ env.exists q s.world)
      → Touches s t
  Touches-world s t e f = record {
    valid = λ v. rw e v;
    others = λ v j h. rw e;
    owns = λ v. inl (rw e);
    manifest = rw e;
    outside = λ q h. f q;
    none_new = λ q h. f q ∙ h;
  }

  pub Touches-interrupt : Within Touches (attempt env.check_interrupt)
  Touches-interrupt = record {
    at = λ s. Touches-world s _ refl (λ q. laws.interrupt_keeps q s.world);
  }

  pub Touches-journal :
      (event : String) (j : Text) (m : Message) → Within Touches (push_journal env event j m)
  unfolding push_journal
  Touches-journal event j m = record {
    at = λ s. record {
      valid = λ v. record {
        batches_differ = v.batches_differ;
        planned_differ = v.planned_differ;
        batch_map = v.batch_map;
        planned_map = v.planned_map;
      };
      others = λ v k h. batch-journal s.state k _;
      owns = λ v. inl (batch-journal s.state id _);
      manifest = refl;
      outside = λ q h. laws.now_keeps q s.world;
      none_new = λ q h. laws.now_keeps q s.world ∙ h;
    };
  }

  Touches-upsert :
      (b : BatchState)
      → b.batch_id ≡ id
      → b.verification_passed ≡ own.verification_passed
      → b.approved_for_delete ≡ own.approved_for_delete
      → Within Touches (modify (upsert_batch b))
  Touches-upsert b e same_verified same_approved = record {
    at = λ s. record {
      valid = λ v. upsert_batch-IsValid b s.state v;
      others = λ v j h. batch-upsert_batch b s.state j v ∙ rw (e, h) refl;
      owns = λ v. inr (
        b,
        batch-upsert_batch b s.state id v ∙ rw (e, beq_refl id) refl,
        same_verified,
        same_approved,
      );
      manifest = (upsert_batch-SameRest b s.state).planned;
      outside = λ q h. refl;
      none_new = λ q h. h;
    };
  }

  Touches-remove :
      (p : FilePath) → contains paths p ≡ true → Within Touches (call (env.remove_file p))
  Touches-remove p h = record {
    at = λ s. record {
      valid = λ v. v;
      others = λ v j k. refl;
      owns = λ v. inl refl;
      manifest = refl;
      outside = λ q k. laws.removes_only p q s.world (differs q k);
      none_new = λ q k. laws.creates_nothing p q s.world k;
    };
  }
    where
      differs : (q : FilePath) → contains paths q ≡ false → (p == q) ≡ false
      differs q k = elim (Bool-cases (p == q)) [
        | inl same_path ↦ absurd (ground (arith, h, k, path_eq.beq_iff p q, same_path))
        | inr n ↦ n
      ]

  module _ (owner : own.batch_id ≡ id) (label : Text) (context : String) (root : FilePath) where
    Touches-removal_outcome :
        (p : FilePath) (o : Option IoError)
        → Within Touches (removal_outcome env own label context p o)
    unfolding removal_outcome
    Touches-removal_outcome p none = Within-pure Touches-preorder tt
    Touches-removal_outcome p (some e) =
        Within-bind Touches-preorder _ _ (Touches-upsert (mark_failed own) owner refl refl) λ _.
          Within-bind Touches-preorder _ _
            (Touches-journal "delete_failed" label (failure_context context p e))
            λ _. Within-raise Touches-preorder (delete_error p e)

    Touches-delete_file :
        (f : FileEntry)
        → contains paths (join root f.relative_path) ≡ true
        → Within Touches (delete_file env own label context root f)
    unfolding delete_file
    Touches-delete_file f h = Within-bind Touches-preorder _ _ Touches-interrupt λ _.
        Within-bind Touches-preorder _ _
          (Within-ask Touches-preorder (env.exists (join root f.relative_path)))
          λ present.
            Within-bind Touches-preorder _ _
              (Within-when Touches-preorder present _ (
                Within-bind Touches-preorder _ _ (Touches-remove (join root f.relative_path) h)
                  λ o. Touches-removal_outcome (join root f.relative_path) o))
              λ _. Touches-interrupt

    pub Touches-delete_files :
        (fs : List FileEntry)
        → AreAmong paths root fs
        → Within Touches (delete_files env own label context root fs)
    unfolding delete_files
    Touches-delete_files [] h = Within-pure Touches-preorder tt
    Touches-delete_files (f ∷ fs) h =
        Within-bind Touches-preorder _ _ (Touches-delete_file f h.0)
          λ _. Touches-delete_files fs h.1

  pub Touches-delete_batch :
      (context : String) (root : FilePath) (bt : Batch)
      → own.batch_id ≡ id
      → AreAmong paths root bt.files
      → Within Touches (delete_batch env bt root context own)
  unfolding delete_batch
  Touches-delete_batch context root bt owner h =
      Within-bind Touches-preorder _ _ Touches-interrupt λ _.
        Within-bind Touches-preorder _ _
          (Touches-journal "delete_started" bt.id (message context []))
          λ _.
            Within-bind Touches-preorder _ _
              (Touches-delete_files owner bt.id context root bt.files h)
              λ _.
                Within-bind Touches-preorder _ _ (Touches-upsert (mark_deleted own) owner refl refl)
                  λ _. Touches-journal "delete_completed" bt.id (message context [])

  Touches-unless_deleted :
      (context : String) (root : FilePath) (bt : Batch)
      → own.batch_id ≡ id
      → AreAmong paths root bt.files
      → Within Touches (delete_unless_deleted env bt root context own)
  Touches-unless_deleted context root bt owner h =
      Within-if Touches-preorder own.deleted _ _ (Within-pure Touches-preorder tt)
        (Touches-delete_batch context root bt owner h)

  pub Touches-guarded :
      (context : String) (root : FilePath) (bt : Batch)
      → own.batch_id ≡ id
      → AreAmong paths root bt.files
      → Within Touches (cleanup_found env bt root context own)
  Touches-guarded context root bt owner h =
      Within-bind Touches-preorder _ _
        (Within-raise_if Touches-preorder (not own.verification_passed) not_verified)
        λ _.
          Within-bind Touches-preorder _ _
            (Within-raise_if Touches-preorder (not own.approved_for_delete) not_approved)
            λ _. Touches-unless_deleted context root bt owner h
