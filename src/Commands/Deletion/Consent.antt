-- ===== src/Commands/Deletion/Consent.antt =====
-- src/cli/commands/shared/deletion.rs: the relation between the system before and after a part of
-- the deletion phase, and which files count as approved.
use vibe_caravan.Prelude.{
  ◌≡◌, refl, sym, ◌∙◌, ap, inl, inr, true, false, some, List, [], ◌∷◌, map, arith, Text, FilePath,
  text_eq, path_eq, Bool-cases, contains,
}
use vibe_caravan.Models.Batch.{BatchState, PlannedBatch, to_batch}
use vibe_caravan.Models.State.{MigrationState, batch, planned_batch, approve_batches}
use vibe_caravan.Models.State.Keyed.{find_id}
use vibe_caravan.Models.State.Laws.{IsValid, batch_id, batch-eq-find_id, planned_batch-eq-find_id}
use vibe_caravan.Models.State.Approval.{
  approve_listed, approve_batches-batches, approve_batches-IsValid,
}
use vibe_caravan.Platform.{Env}
use vibe_caravan.Exec.{Sys}
use vibe_caravan.Exec.Within.{IsPreorder}
use vibe_caravan.Cleanup.Effects.{places}

-- The file is one of the manifest of a batch that is verified and approved.
pub record IsApproved (root : FilePath) (q : FilePath) (s : MigrationState) : Type 0 where
  pub id : Text
  pub record_of : BatchState
  pub planned : PlannedBatch
  pub recorded : batch s id ≡ some record_of
  pub verified : record_of.verification_passed ≡ true
  pub approved : record_of.approved_for_delete ≡ true
  pub in_manifest : planned_batch s id ≡ some planned
  pub among : contains (places root (to_batch planned).files) q ≡ true

-- The record `b'` is as verified and as approved as `b`.
abbrev pub NoLess : BatchState → BatchState → Type 0
NoLess b b' =
    (b.verification_passed ≡ true → b'.verification_passed ≡ true)
    × (b.approved_for_delete ≡ true → b'.approved_for_delete ≡ true)

-- A batch keeps its record, and once verified or approved it stays so.
abbrev pub KeepsFlags : MigrationState → MigrationState → Type 0
KeepsFlags s t =
    (j : Text) (b : BatchState)
    → batch s j ≡ some b
    → (b' : BatchState) × (batch t j ≡ some b') × NoLess b b'

pub planned_batch-same :
    (s t : MigrationState) (j : Text)
    → IsValid s
    → IsValid t
    → t.planned_batches ≡ s.planned_batches
    → planned_batch t j ≡ planned_batch s j
planned_batch-same s t j v w e =
    planned_batch-eq-find_id t j w ∙ rw e (sym (planned_batch-eq-find_id s j v))

pub IsApproved-later :
    (root q : FilePath) (s t : MigrationState)
    → ((j : Text) → planned_batch t j ≡ planned_batch s j)
    → KeepsFlags s t
    → IsApproved root q s
    → IsApproved root q t
IsApproved-later root q s t same keeps a =
    let (b', e, (v, p)) = keeps a.id a.record_of a.recorded in
    record {
      id = a.id;
      record_of = b';
      planned = a.planned;
      recorded = e;
      verified = v a.verified;
      approved = p a.approved;
      in_manifest = same a.id ∙ a.in_manifest;
      among = a.among;
    }

pub KeepsFlags-chain : (s t u : MigrationState) → KeepsFlags s t → KeepsFlags t u → KeepsFlags s u
KeepsFlags-chain s t u h k j b e =
    let (b', e', (v, p)) = h j b e in
    let (b'', e'', (v', p')) = k j b' e' in (b'', e'', (λ x. v' (v x), λ x. p' (p x)))

pub KeepsFlags-same : (s t : MigrationState) → t ≡ s → KeepsFlags s t
KeepsFlags-same s t e j b h = (b, rw e h, (λ x. x, λ x. x))

find_id-approve_listed :
    (ids : List Text) (bs : List BatchState) (j : Text) (b : BatchState)
    → find_id batch_id bs j ≡ some b
    → find_id batch_id (map (approve_listed ids) bs) j ≡ some (approve_listed ids b)
find_id-approve_listed ids [] j b h = absurd (ground arith)
find_id-approve_listed ids (x ∷ bs) j b h = ground (arith, find_id-approve_listed ids bs j b)

NoLess-approve_listed : (ids : List Text) (b : BatchState) → NoLess b (approve_listed ids b)
NoLess-approve_listed ids b = (λ h. ground (arith, h), λ h. ground (arith, h))

pub KeepsFlags-approve_batches :
    (ids : List Text) (s : MigrationState) → IsValid s → KeepsFlags s (approve_batches ids s)
KeepsFlags-approve_batches ids s v j b h =
    let found : find_id batch_id s.batches j ≡ some b = sym (batch-eq-find_id s j v) ∙ h in
    (
      approve_listed ids b,
      batch-eq-find_id (approve_batches ids s) j (approve_batches-IsValid ids s v)
          ∙ ap (λ (bs : List BatchState). find_id batch_id bs j) (approve_batches-batches ids s v)
          ∙ find_id-approve_listed ids s.batches j b found,
      NoLess-approve_listed ids b,
    )

module _ {W : Type 0} (env : Env W) (root q : FilePath) where
  -- The state stays valid, the manifest is kept, verification and approval are not taken back, and
  -- the file does not come into being, and if it goes it was approved.
  pub record Held (s t : Sys W) : Type 0 where
    pub valid : IsValid t.state
    pub manifest : (j : Text) → planned_batch t.state j ≡ planned_batch s.state j
    pub flags : KeepsFlags s.state t.state
    pub none_new : env.exists q s.world ≡ false → env.exists q t.world ≡ false
    pub removed :
        env.exists q s.world ≡ true → env.exists q t.world ≡ false → IsApproved root q t.state

  abbrev pub Consents : Sys W → Sys W → Type 0
  Consents s t = IsValid s.state → Held s t

  removed-chain :
      (s t u : Sys W)
      → Held s t
      → Held t u
      → env.exists q s.world ≡ true
      → env.exists q u.world ≡ false
      → IsApproved root q u.state
  removed-chain s t u h k there gone = elim (Bool-cases (env.exists q t.world)) [
    | inl still ↦ k.removed still gone
    | inr already ↦
        IsApproved-later root q t.state u.state k.manifest k.flags (h.removed there already)
  ]

  Held-chain : (s t u : Sys W) → Held s t → Held t u → Held s u
  Held-chain s t u h k = record {
    valid = k.valid;
    manifest = λ j. k.manifest j ∙ h.manifest j;
    flags = KeepsFlags-chain s.state t.state u.state h.flags k.flags;
    none_new = λ n. k.none_new (h.none_new n);
    removed = removed-chain s t u h k;
  }

  -- What leaves the state and the files alone.
  pub Consents-world :
      (s t : Sys W) → t.state ≡ s.state → env.exists q t.world ≡ env.exists q s.world → Consents s t
  Consents-world s t e f v = record {
    valid = rw e v;
    manifest = λ j. rw e refl;
    flags = KeepsFlags-same s.state t.state e;
    none_new = λ h. f ∙ h;
    removed = λ there gone. absurd (cc (f, there, gone));
  }

  pub Consents-preorder : IsPreorder Consents
  Consents-preorder = record {
    same = λ s. Consents-world s s refl refl;
    chain = λ s t u h k v. Held-chain s t u (h v) (k (h v).valid);
  }
