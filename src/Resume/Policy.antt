-- ===== src/Resume/Policy.antt =====
-- src/resume/policy.rs and failure.rs: whether a resumed run may delete the source of a batch.
use vibe_caravan.Prelude.{◌≡◌, ◌↔◌, ◌⊎◌, Bool, true, ◌||◌, not, [], arith, String, if◌then◌else◌}
use vibe_caravan.Error.{Result, ok, err, CaravanError, message}
use vibe_caravan.Models.Batch.{BatchState}

pub data FailureClass : Type 0 where
  state_missing state_corrupted state_filesystem_conflict copy_backend_failure verification_mismatch
        capacity_exhausted io_error resume_policy_blocked :
      FailureClass

-- `FailureClass::as_str`.
unfoldable pub as_str : FailureClass → String
as_str FailureClass.state_missing = "state_missing"
as_str FailureClass.state_corrupted = "state_corrupted"
as_str FailureClass.state_filesystem_conflict = "state_filesystem_conflict"
as_str FailureClass.copy_backend_failure = "copy_backend_failure"
as_str FailureClass.verification_mismatch = "verification_mismatch"
as_str FailureClass.capacity_exhausted = "capacity_exhausted"
as_str FailureClass.io_error = "io_error"
as_str FailureClass.resume_policy_blocked = "resume_policy_blocked"

-- The text for the operator.
unfoldable pub recovery_message : FailureClass → String
recovery_message FailureClass.state_missing =
    "Cannot resume: state file is missing. Start a new run or restore state from backup."
recovery_message FailureClass.state_corrupted =
    "Cannot resume: state file is unreadable or invalid JSON. Repair or restore state before continuing."
recovery_message FailureClass.state_filesystem_conflict =
    "Stop: persisted state disagrees with files on disk. Review partial copies or source changes before retrying."
recovery_message FailureClass.copy_backend_failure =
    "Copy step failed. Source data should remain intact; fix the underlying error and retry the batch."
recovery_message FailureClass.verification_mismatch =
    "Verification failed. Do not delete source data until you review mismatches and re-verify."
recovery_message FailureClass.capacity_exhausted =
    "Destination ran out of space or margin. Free space or reduce batch size before continuing."
recovery_message FailureClass.io_error =
    "An I/O error occurred. Check mounts, permissions, and hardware, then retry."
recovery_message FailureClass.resume_policy_blocked =
    "Resume blocked by safety policy: enable interactive approval or provide explicit delete approval before destructive steps."

pub record ResumeOptions : Type 0 where
  pub interactive : Bool
  pub explicit_delete_approval : Bool

abbrev not_verified_error : CaravanError
not_verified_error =
    CaravanError.resume (as_str FailureClass.resume_policy_blocked)
      (message "cannot delete: verification did not pass for this batch" [])

abbrev no_consent_error : CaravanError
no_consent_error =
    CaravanError.resume (as_str FailureClass.resume_policy_blocked)
      (message (recovery_message FailureClass.resume_policy_blocked) [])

unfoldable pub require_delete_permission_for_resume : BatchState → ResumeOptions → Result (Unit {0})
require_delete_permission_for_resume b opts =
    if b.deleted
    then ok tt
    else if not b.verification_passed
    then err not_verified_error
    else if b.approved_for_delete || opts.explicit_delete_approval
    then ok tt
    else if opts.interactive
    then ok tt
    else err no_consent_error

-- Permission is given exactly where nothing is left to delete, or where verification has passed
-- and the operator has agreed: in the state, by the flag, or by being there to be asked.
pub require_delete_permission_iff :
    (b : BatchState) (o : ResumeOptions)
    → (require_delete_permission_for_resume b o ≡ ok tt) ↔ (
        (b.deleted ≡ true)
        ⊎ ((b.verification_passed ≡ true)
            × ((b.approved_for_delete || (o.explicit_delete_approval || o.interactive)) ≡ true)))
unfolding require_delete_permission_for_resume
require_delete_permission_iff b o = (λ h. ground arith, λ h. ground arith)
