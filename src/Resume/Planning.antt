-- ===== src/Resume/Planning.antt =====
-- src/resume/planning.rs: the next step for a batch, from its persisted phase and from what is at
-- the destination.
use vibe_caravan.Prelude.{
  ◌≡◌, ◌↔◌, ◌⊎◌, refl, Bool, true, false, not, List, [], ◌∷◌, arith, String, is_empty,
  if◌then◌else◌,
}
use vibe_caravan.Error.{Message, Arg, message}
use vibe_caravan.Models.Batch.{Batch, BatchPhase, BatchState}
use vibe_caravan.Resume.Reconciliation.{ReconciliationResult}

pub data ResumeStepPlan : Type 0 where
  copy_batch verify_batch pending_delete_approval delete_source post_delete_snapshot
        batch_fully_completed :
      ResumeStepPlan
  conflict_operator_review : Message → ResumeStepPlan
  blocked_failed_verification : ResumeStepPlan

-- A message that shows both lists of the reconciliation.
abbrev review : String → ReconciliationResult → ResumeStepPlan
review template recon =
    ResumeStepPlan.conflict_operator_review (message template (reconciliation_args recon))
  where
    reconciliation_args : ReconciliationResult → List Arg
    reconciliation_args r = Arg.paths r.missing_in_destination ∷ Arg.paths r.size_mismatches ∷ []

abbrev plan_failed : Bool → ReconciliationResult → ResumeStepPlan
plan_failed false recon =
    review
      "batch is marked failed; operator review required (missing_in_destination={:?}; size_mismatches={:?})"
      recon
plan_failed true recon =
    if recon.all_destination_files_ready
    then ResumeStepPlan.verify_batch
    else if not (is_empty recon.size_mismatches)
    then review
        "failed-batch recovery blocked due to destination size mismatches (missing_in_destination={:?}; size_mismatches={:?})"
        recon
    else ResumeStepPlan.copy_batch

abbrev plan_verified : BatchState → ResumeStepPlan
plan_verified b =
    if not b.verification_passed
    then ResumeStepPlan.blocked_failed_verification
    else if not b.approved_for_delete
    then ResumeStepPlan.pending_delete_approval
    else if b.deleted
    then ResumeStepPlan.post_delete_snapshot
    else ResumeStepPlan.delete_source

abbrev plan_approved : BatchState → ResumeStepPlan
plan_approved b =
    if not b.verification_passed
    then ResumeStepPlan.blocked_failed_verification
    else if b.deleted
    then ResumeStepPlan.post_delete_snapshot
    else ResumeStepPlan.delete_source

abbrev plan_phase : BatchPhase → BatchState → ReconciliationResult → Bool → ResumeStepPlan
plan_phase BatchPhase.failed b recon allow_failed_recovery = plan_failed allow_failed_recovery recon
plan_phase BatchPhase.planned b recon allow_failed_recovery = ResumeStepPlan.copy_batch
plan_phase BatchPhase.copy_started b recon allow_failed_recovery =
    if recon.all_destination_files_ready
    then ResumeStepPlan.verify_batch
    else ResumeStepPlan.copy_batch
plan_phase BatchPhase.copy_completed b recon allow_failed_recovery =
    if recon.all_destination_files_ready
    then ResumeStepPlan.verify_batch
    else review
        "state says copy completed but destination is incomplete: missing {:?}, size mismatches {:?}"
        recon
plan_phase BatchPhase.verify_completed b recon allow_failed_recovery = plan_verified b
plan_phase BatchPhase.approved_for_delete b recon allow_failed_recovery = plan_approved b
plan_phase BatchPhase.delete_completed b recon allow_failed_recovery =
    ResumeStepPlan.post_delete_snapshot
plan_phase BatchPhase.snapshot_completed b recon allow_failed_recovery =
    ResumeStepPlan.batch_fully_completed

-- The batch itself is not read.
unfoldable pub plan_resume_step_with_recovery :
    BatchState → ReconciliationResult → Batch → Bool → ResumeStepPlan
plan_resume_step_with_recovery b recon batch allow_failed_recovery =
    plan_phase b.phase b recon allow_failed_recovery

unfoldable pub plan_resume_step : BatchState → ReconciliationResult → Batch → ResumeStepPlan
unfolding plan_resume_step_with_recovery
plan_resume_step b recon batch = plan_resume_step_with_recovery b recon batch false

-- A batch whose source may be deleted next.
pub record MayDelete (b : BatchState) : Type 0 where
  pub verified : b.verification_passed ≡ true
  pub kept : b.deleted ≡ false
  pub approved :
      ((b.phase ≡ BatchPhase.verify_completed) × (b.approved_for_delete ≡ true))
      ⊎ (b.phase ≡ BatchPhase.approved_for_delete)

delete_source-phase :
    (ph : BatchPhase) (b : BatchState) (r : ReconciliationResult) (allow : Bool)
    → b.phase ≡ ph
    → plan_phase ph b r allow ≡ ResumeStepPlan.delete_source
    → MayDelete b
delete_source-phase BatchPhase.failed b r allow e h = absurd (ground arith)
delete_source-phase _ b r allow e h = ground arith

MayDelete-phase :
    (ph : BatchPhase) (b : BatchState) (r : ReconciliationResult) (allow : Bool)
    → b.phase ≡ ph
    → MayDelete b
    → plan_phase ph b r allow ≡ ResumeStepPlan.delete_source
MayDelete-phase BatchPhase.failed b r allow e m = ground (arith, m.verified, m.kept, m.approved)
MayDelete-phase _ b r allow e m = ground (arith, m.verified, m.kept, m.approved)

-- Deletion of the source is the next step exactly for a batch that is verified, not yet deleted,
-- and approved: by its flag after verification, or by its phase. What is at the destination and
-- the recovery flag have no part in it.
pub plan_resume_step-delete_iff :
    (b : BatchState) (r : ReconciliationResult) (batch : Batch) (allow : Bool)
    → (plan_resume_step_with_recovery b r batch allow ≡ ResumeStepPlan.delete_source) ↔ MayDelete b
unfolding plan_resume_step_with_recovery
plan_resume_step-delete_iff b r batch allow = (
  λ h. delete_source-phase b.phase b r allow refl h,
  λ m. MayDelete-phase b.phase b r allow refl m,
)

-- Phases in which a batch has been copied in full.
abbrev pub is_copied : BatchPhase → Bool
is_copied BatchPhase.copy_completed = true
is_copied BatchPhase.verify_completed = true
is_copied BatchPhase.approved_for_delete = true
is_copied BatchPhase.delete_completed = true
is_copied BatchPhase.snapshot_completed = true
is_copied _ = false

copy_batch-phase :
    (ph : BatchPhase) (b : BatchState) (r : ReconciliationResult) (allow : Bool)
    → plan_phase ph b r allow ≡ ResumeStepPlan.copy_batch
    → (is_copied ph ≡ false)
      × ((ph ≡ BatchPhase.planned) ⊎ (r.all_destination_files_ready ≡ false))
      × (ph ≡ BatchPhase.failed → (allow ≡ true) × (is_empty r.size_mismatches ≡ true))
copy_batch-phase BatchPhase.failed b r allow h = ground arith
copy_batch-phase _ b r allow h = ground arith

-- A batch is copied again only if it is not recorded as copied and, unless it is merely planned,
-- the destination is not ready; and a failed batch only if recovery is allowed and no file of
-- another size would be overwritten.
pub plan_resume_step-copy :
    (b : BatchState) (r : ReconciliationResult) (batch : Batch) (allow : Bool)
    → plan_resume_step_with_recovery b r batch allow ≡ ResumeStepPlan.copy_batch
    → (is_copied b.phase ≡ false)
      × ((b.phase ≡ BatchPhase.planned) ⊎ (r.all_destination_files_ready ≡ false))
      × (b.phase ≡ BatchPhase.failed → (allow ≡ true) × (is_empty r.size_mismatches ≡ true))
unfolding plan_resume_step_with_recovery
plan_resume_step-copy b r batch allow h = copy_batch-phase b.phase b r allow h
