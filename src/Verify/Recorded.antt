-- ===== src/Verify/Recorded.antt =====
-- `verify_batch_with_state_updates` of src/cli/commands/shared/batch_ops.rs: the result of a
-- verification is entered in the state, and written, before a failure is reported.
use vibe_caravan.Prelude.{
  ◌≡◌, refl, sym, ap, ◌∙◌, inl, inr, Bool, true, false, not, some, arith, Text, text_eq, FilePath,
  All, beq_refl, Option-cases,
}
use mathlib.Core.Path.{subst}
use vibe_caravan.Error.{Result, ok, err, CaravanError, VerificationFailure}
use vibe_caravan.Models.Batch.{Batch, BatchState, BatchPhase}
use vibe_caravan.Models.State.{MigrationState, batch, upsert_batch}
use vibe_caravan.Models.State.Laws.{IsValid, batch-upsert_batch}
use vibe_caravan.Exec.{Sys, Exec, gets, attempt, modify, raise_if, ok_or_raise, after, ◌>>=◌, ◌>>◌}
use vibe_caravan.Exec.Within.{>>=-ok}
use vibe_caravan.Verify.{VerificationStatus, VerificationReport, Files, verify_batch}
use vibe_caravan.Cleanup.Safety.{batch-id}
use vibe_caravan.Verify.Quiet.{SameState-verify_batch}
use vibe_caravan.Verify.Pass.{IsVerified, verify_batch-IsVerified}

abbrev pub from_report : VerificationReport → VerificationFailure
from_report r = record {
  recommended_action = r.recommended_action;
  missing_files = r.missing_files;
  mismatched_files = r.mismatched_files;
  unreadable_files = r.unreadable_files;
}

abbrev pub is_pass : VerificationStatus → Bool
is_pass VerificationStatus.pass = true
is_pass VerificationStatus.fail = false

abbrev pub mark_verified : VerificationReport → BatchState → BatchState
mark_verified r b = record b {
  phase = BatchPhase.verify_completed;
  verification_passed = is_pass r.status;
}

module _ {W : Type 0} (fs : Files W) (persist : MigrationState → W → Result (Unit {0}) × W)
    (missing_state_error : Text → CaravanError) where
  abbrev pub persist_verified : Exec W (Unit {0})
  persist_verified = gets (λ s. s) >>= λ s. attempt (persist s)

  -- What follows the verification.
  unfoldable pub record_verification : Batch → VerificationReport → Exec W (Unit {0})
  record_verification bt r = do
    found ← gets (λ s. batch s bt.id)
    b ← ok_or_raise found (missing_state_error bt.id)
    modify (upsert_batch (mark_verified r b))
    persist_verified
    raise_if (not (is_pass r.status)) (CaravanError.verification_failed (from_report r))

  unfoldable pub verify_batch_with_state_updates : Batch → FilePath → FilePath → Exec W (Unit {0})
  unfolding record_verification
  verify_batch_with_state_updates bt source_root dest_root = do
    r ← verify_batch fs bt source_root dest_root
    record_verification bt r

-- The batch is recorded as verified.
abbrev pub IsRecorded : Text → MigrationState → Type 0
IsRecorded id s = (b : BatchState) × (batch s id ≡ some b) × (b.verification_passed ≡ true)

module _ {W : Type 0} (fs : Files W) (persist : MigrationState → W → Result (Unit {0}) × W)
    (missing_state_error : Text → CaravanError) where
  -- The part after the lookup.
  abbrev record_found : Batch → VerificationReport → BatchState → Exec W (Unit {0})
  record_found bt r b = modify (upsert_batch (mark_verified r b)) >>= λ _.
      persist_verified fs persist missing_state_error >>= λ _.
      raise_if (not (is_pass r.status)) (CaravanError.verification_failed (from_report r))

  tail_ok :
      (p : Bool) (e : CaravanError) (answer : Result (Unit {0})) (s : Sys W)
      → (after answer (λ _. raise_if (not p) e) s).0 ≡ ok tt
      → (p ≡ true) × ((after answer (λ _. raise_if (not p) e) s).1 ≡ s)
  tail_ok true e (ok u) s h = (refl, refl)
  tail_ok true e (err x) s h = (refl, refl)
  tail_ok false e (ok u) s h = absurd (ground (arith, h))
  tail_ok false e (err x) s h = absurd (ground (arith, h))

  record_found_ok :
      (bt : Batch) (r : VerificationReport) (b : BatchState) (s : Sys W)
      → (record_found bt r b s).0 ≡ ok tt
      → (is_pass r.status ≡ true)
        × ((record_found bt r b s).1.state ≡ upsert_batch (mark_verified r b) s.state)
  record_found_ok bt r b s h =
      let t = upsert_batch (mark_verified r b) s.state in
      let (passed, same) =
        tail_ok (is_pass r.status) (CaravanError.verification_failed (from_report r))
          (persist t s.world).0 (record { state = t; world = (persist t s.world).1 }) h in
      (passed, ap (λ (u : Sys W). u.state) same)

  record_verification_ok :
      (bt : Batch) (r : VerificationReport) (s : Sys W)
      → IsValid s.state
      → (record_verification fs persist missing_state_error bt r s).0 ≡ ok tt
      → (is_pass r.status ≡ true)
        × IsRecorded bt.id (record_verification fs persist missing_state_error bt r s).1.state
  unfolding record_verification
  record_verification_ok bt r s v h = elim (Option-cases (batch s.state bt.id)) [
    | inl absent ↦ absurd (ground (arith, rw absent at h))
    | inr (b, found) ↦
        let (passed, same) = record_found_ok bt r b s (rw found at h) in
        let owner : b.batch_id ≡ bt.id = batch-id s.state bt.id b v found in
        (
          passed,
          rw found (
            mark_verified r b,
            ap (λ (t : MigrationState). batch t bt.id) same
                ∙ batch-upsert_batch (mark_verified r b) s.state bt.id v
                ∙ rw (owner, beq_refl bt.id) refl,
            passed,
          ),
        )
  ]

  is_pass_pass : (st : VerificationStatus) → is_pass st ≡ true → st ≡ VerificationStatus.pass
  is_pass_pass VerificationStatus.pass h = refl
  is_pass_pass VerificationStatus.fail h = absurd (ground (arith, h))

  -- From a valid state, a step that succeeds has recorded the batch as verified, and every one of
  -- its files outside `.caravan` has a copy with its length and its hash.
  pub verify_batch_with_state_updates-IsRecorded :
      (bt : Batch) (source_root dest_root : FilePath) (s : Sys W)
      → IsValid s.state
      → (verify_batch_with_state_updates fs persist missing_state_error bt source_root dest_root
          s).0
        ≡ ok tt
      → All (IsVerified fs source_root dest_root) bt.files
        × IsRecorded bt.id
            (verify_batch_with_state_updates fs persist missing_state_error bt source_root dest_root
              s).1.state
  unfolding verify_batch_with_state_updates
  verify_batch_with_state_updates-IsRecorded bt source_root dest_root s v h =
      let m = verify_batch fs bt source_root dest_root in
      let next : VerificationReport → Exec W (Unit {0}) =
        λ r. record_verification fs persist missing_state_error bt r in
      let (r, verified, e) = >>=-ok m next s {b = tt} h in
      let s1 = (m s).1 in
      let valid : IsValid s1.state =
        subst (λ (x : MigrationState). IsValid x)
          (sym ((SameState-verify_batch fs bt source_root dest_root).at s)) v in
      let (passed, noted) =
        record_verification_ok bt r s1 valid
          (ap (λ (x : Result (Unit {0}) × Sys W). x.0) (sym e) ∙ h) in
      (
        verify_batch-IsVerified fs bt source_root dest_root s r verified
            (is_pass_pass r.status passed),
        subst (λ (x : Result (Unit {0}) × Sys W). IsRecorded bt.id x.1.state) (sym e) noted,
      )
