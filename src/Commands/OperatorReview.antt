-- ===== src/Commands/OperatorReview.antt =====
-- src/cli/commands/shared/operator_review.rs: batches that an operator has to look at stop a run
-- before anything is deleted.
use vibe_caravan.Prelude.{
  ◌≡◌, ◌≢◌, ◌↔◌, ◌⊎◌, refl, ap, inl, inr, Bool, true, false, ◌&&◌, ◌||◌, not, List, [], ◌∷◌, arith,
  Text, select, is_empty, All, Bool-cases,
}
use vibe_caravan.Error.{Result, ok, CaravanError, Arg, message, ◌>>◌, fail_if}
use vibe_caravan.Models.Batch.{BatchPhase, BatchState}
use vibe_caravan.Models.State.{MigrationState, batch_ids}

abbrev pub is_failed : BatchPhase → Bool
is_failed BatchPhase.failed = true
is_failed _ = false

abbrev pub is_verified_phase : BatchPhase → Bool
is_verified_phase BatchPhase.verify_completed = true
is_verified_phase BatchPhase.approved_for_delete = true
is_verified_phase BatchPhase.delete_completed = true
is_verified_phase BatchPhase.snapshot_completed = true
is_verified_phase _ = false

abbrev pub needs_review : BatchState → Bool
needs_review b = is_failed b.phase && not b.deleted

abbrev pub needs_verification_review : BatchState → Bool
needs_verification_review b =
    not b.deleted && (not b.verification_passed && is_verified_phase b.phase)

unfoldable pub failed_batches_requiring_review : MigrationState → List Text
failed_batches_requiring_review s = batch_ids (select needs_review s.batches)

unfoldable pub failed_verification_batches_requiring_review : MigrationState → List Text
failed_verification_batches_requiring_review s =
    batch_ids (select needs_verification_review s.batches)

abbrev review_error : List Text → CaravanError
review_error ids = CaravanError.policy_blocked (
    message "one or more batches require operator review before continuing: {}"
      (Arg.words ids ∷ []))

abbrev verification_review_error : List Text → CaravanError
verification_review_error ids = CaravanError.policy_blocked (
    message
      "one or more batches failed verification and require operator review before continuing: {}"
      (Arg.words ids ∷ []))

unfoldable pub ensure_no_failed_batches : MigrationState → Result (Unit {0})
unfolding failed_batches_requiring_review
ensure_no_failed_batches s =
    let ids = failed_batches_requiring_review s in fail_if (not (is_empty ids)) (review_error ids)

unfoldable pub ensure_no_failed_verification_batches : MigrationState → Result (Unit {0})
unfolding failed_verification_batches_requiring_review
ensure_no_failed_verification_batches s =
    let ids = failed_verification_batches_requiring_review s in
    fail_if (not (is_empty ids)) (verification_review_error ids)

pub record OperatorReviewPolicy : Type 0 where
  pub allow_failed_batches : Bool

abbrev failed_unless_allowed : Bool → MigrationState → Result (Unit {0})
failed_unless_allowed true s = ok tt
failed_unless_allowed false s = ensure_no_failed_batches s

unfoldable pub ensure_no_operator_review_blocks_with_policy :
    MigrationState → OperatorReviewPolicy → Result (Unit {0})
unfolding ensure_no_failed_batches ensure_no_failed_verification_batches
ensure_no_operator_review_blocks_with_policy s policy = do
  failed_unless_allowed policy.allow_failed_batches s
  ensure_no_failed_verification_batches s

unfoldable pub ensure_no_operator_review_blocks : MigrationState → Result (Unit {0})
unfolding ensure_no_operator_review_blocks_with_policy
ensure_no_operator_review_blocks s =
    ensure_no_operator_review_blocks_with_policy s (record { allow_failed_batches = false })

-- The phases that come before a verification, and that of a failure.
abbrev pub IsUnverified : BatchPhase → Type 0
IsUnverified p =
    (p ≡ BatchPhase.planned)
    ⊎ (p ≡ BatchPhase.copy_started)
    ⊎ (p ≡ BatchPhase.copy_completed)
    ⊎ (p ≡ BatchPhase.failed)

-- A batch that does not stop the run: a deleted one; or one that has not failed, unless failed
-- batches are allowed, and that has passed its verification or not yet come to it.
abbrev pub IsClear : Bool → BatchState → Type 0
IsClear allow b =
    (b.deleted ≡ true)
    ⊎ (((allow ≡ true) ⊎ (b.phase ≢ BatchPhase.failed))
        × ((b.verification_passed ≡ true) ⊎ IsUnverified b.phase))

-- The same by the tests of the code.
abbrev Passes : Bool → BatchState → Type 0
Passes allow b = ((allow || not (needs_review b)) ≡ true) × (needs_verification_review b ≡ false)

phase-IsUnverified : (p : BatchPhase) → is_verified_phase p ≡ false → IsUnverified p
phase-IsUnverified BatchPhase.planned h = inl refl
phase-IsUnverified BatchPhase.copy_started h = inr (inl refl)
phase-IsUnverified BatchPhase.copy_completed h = inr (inr (inl refl))
phase-IsUnverified BatchPhase.failed h = inr (inr (inr refl))
phase-IsUnverified BatchPhase.verify_completed h = absurd (ground (arith, h))
phase-IsUnverified BatchPhase.approved_for_delete h = absurd (ground (arith, h))
phase-IsUnverified BatchPhase.delete_completed h = absurd (ground (arith, h))
phase-IsUnverified BatchPhase.snapshot_completed h = absurd (ground (arith, h))

verified_phase : (p : BatchPhase) → IsUnverified p → is_verified_phase p ≡ false
verified_phase p (inl e) = rw e refl
verified_phase p (inr (inl e)) = rw e refl
verified_phase p (inr (inr (inl e))) = rw e refl
verified_phase p (inr (inr (inr e))) = rw e refl

failed_phase : (p : BatchPhase) → is_failed p ≡ true → p ≡ BatchPhase.failed
failed_phase BatchPhase.failed h = refl
failed_phase BatchPhase.planned h = absurd (ground (arith, h))
failed_phase BatchPhase.copy_started h = absurd (ground (arith, h))
failed_phase BatchPhase.copy_completed h = absurd (ground (arith, h))
failed_phase BatchPhase.verify_completed h = absurd (ground (arith, h))
failed_phase BatchPhase.approved_for_delete h = absurd (ground (arith, h))
failed_phase BatchPhase.delete_completed h = absurd (ground (arith, h))
failed_phase BatchPhase.snapshot_completed h = absurd (ground (arith, h))

not_failed : (p : BatchPhase) → p ≢ BatchPhase.failed → is_failed p ≡ false
not_failed p n = elim (Bool-cases (is_failed p)) [
  | inl h ↦ absurd (n (failed_phase p h))
  | inr h ↦ h
]

Passes-IsClear : (allow : Bool) (b : BatchState) → Passes allow b → IsClear allow b
Passes-IsClear allow b (h, k) = elim (Bool-cases b.deleted) [
  | inl gone ↦ inl gone
  | inr left ↦ inr (
    elim (Bool-cases allow) [
      | inl yes_allowed ↦ inl yes_allowed
      | inr n ↦ inr (λ e. absurd (ground (arith, h, left, n, ap is_failed e)))
    ],
    elim (Bool-cases b.verification_passed) [
      | inl passed ↦ inl passed
      | inr n ↦ inr (phase-IsUnverified b.phase (ground (arith, k, left, n)))
    ],
  )
]

IsClear-Passes : (allow : Bool) (b : BatchState) → IsClear allow b → Passes allow b
IsClear-Passes allow b (inl gone) = (ground (arith, gone), ground (arith, gone))
IsClear-Passes allow b (inr (f, v)) = (
  elim f [ inl a ↦ ground (arith, a) | inr n ↦ ground (arith, not_failed b.phase n) ],
  elim v [ inl p ↦ ground (arith, p) | inr u ↦ ground (arith, verified_phase b.phase u) ],
)

weaken_all :
    {P Q : BatchState → Type 0} (f : (b : BatchState) → P b → Q b) (bs : List BatchState)
    → All P bs
    → All Q bs
weaken_all f [] h = tt
weaken_all f (b ∷ bs) h = (f b h.0, weaken_all f bs h.1)

select-empty_iff :
    (p : BatchState → Bool) (bs : List BatchState)
    → (is_empty (batch_ids (select p bs)) ≡ true) ↔ All (λ b. p b ≡ false) bs
select-empty_iff p [] = (λ h. tt, λ h. refl)
select-empty_iff p (b ∷ bs) = elim (Bool-cases (p b)) [
  | inl yes_it_is ↦
      (λ h. absurd (ground (arith, h, yes_it_is)), λ h. absurd (ground (arith, h.0, yes_it_is)))
  | inr n ↦
      (λ h. (n, (select-empty_iff p bs).0 (rw n at h)), λ h. rw n ((select-empty_iff p bs).1 h.1))
]

All-Passes :
    (allow : Bool) (bs : List BatchState)
    → All (λ b. (allow || not (needs_review b)) ≡ true) bs
    → All (λ b. needs_verification_review b ≡ false) bs
    → All (Passes allow) bs
All-Passes allow [] h k = tt
All-Passes allow (b ∷ bs) h k = ((h.0, k.0), All-Passes allow bs h.1 k.1)

All-not :
    (bs : List BatchState)
    → All (λ b. needs_review b ≡ false) bs
    → All (λ b. (false || not (needs_review b)) ≡ true) bs
All-not [] h = tt
All-not (b ∷ bs) h = (ground (arith, h.0), All-not bs h.1)

All-allowed : (bs : List BatchState) → All (λ b. (true || not (needs_review b)) ≡ true) bs
All-allowed [] = tt
All-allowed (b ∷ bs) = (refl, All-allowed bs)

All-Passes_parts :
    (allow : Bool) (bs : List BatchState)
    → All (Passes allow) bs
    → All (λ b. (allow || not (needs_review b)) ≡ true) bs
      × All (λ b. needs_verification_review b ≡ false) bs
All-Passes_parts allow [] h = (tt, tt)
All-Passes_parts allow (b ∷ bs) h =
    let (x, y) = All-Passes_parts allow bs h.1 in ((h.0.0, x), (h.0.1, y))

All-not_back :
    (bs : List BatchState)
    → All (λ b. (false || not (needs_review b)) ≡ true) bs
    → All (λ b. needs_review b ≡ false) bs
All-not_back [] h = tt
All-not_back (b ∷ bs) h = (ground (arith, h.0), All-not_back bs h.1)

failed_iff :
    (s : MigrationState)
    → (ensure_no_failed_batches s ≡ ok tt) ↔ All (λ b. needs_review b ≡ false) s.batches
unfolding ensure_no_failed_batches
failed_iff s = (
  λ h. (select-empty_iff needs_review s.batches).0 (ground (arith, h)),
  λ h. rw ((select-empty_iff needs_review s.batches).1 h) refl,
)

failed_verification_iff :
    (s : MigrationState)
    → (ensure_no_failed_verification_batches s ≡ ok tt)
      ↔ All (λ b. needs_verification_review b ≡ false) s.batches
unfolding ensure_no_failed_verification_batches
failed_verification_iff s = (
  λ h. (select-empty_iff needs_verification_review s.batches).0 (ground (arith, h)),
  λ h. rw ((select-empty_iff needs_verification_review s.batches).1 h) refl,
)

blocks-parts :
    (s : MigrationState) (allow : Bool)
    → ensure_no_operator_review_blocks_with_policy s (record { allow_failed_batches = allow })
      ≡ ok tt
    → (failed_unless_allowed allow s ≡ ok tt) × (ensure_no_failed_verification_batches s ≡ ok tt)
unfolding ensure_no_operator_review_blocks_with_policy
blocks-parts s true h = (refl, h)
blocks-parts s false h = (ground (arith, h), ground (arith, h))

blocks-pass :
    (s : MigrationState) (allow : Bool)
    → All (Passes allow) s.batches
    → ensure_no_operator_review_blocks_with_policy s (record { allow_failed_batches = allow })
      ≡ ok tt
unfolding ensure_no_operator_review_blocks_with_policy
blocks-pass s true h = (failed_verification_iff s).1 (All-Passes_parts true s.batches h).1
blocks-pass s false h =
    let (f, v) = All-Passes_parts false s.batches h in
    rw ((failed_iff s).1 (All-not_back s.batches f)) ((failed_verification_iff s).1 v)

-- The run goes on exactly when every batch that is not deleted has not failed, unless failed batches
-- are allowed, and has passed its verification unless its phase is before it or that of a failure.
pub ensure_no_operator_review_blocks_iff :
    (s : MigrationState) (allow : Bool)
    → (ensure_no_operator_review_blocks_with_policy s (record { allow_failed_batches = allow })
        ≡ ok tt)
      ↔ All (IsClear allow) s.batches
ensure_no_operator_review_blocks_iff s allow = (
  λ h.
      let (f, v) = blocks-parts s allow h in
      weaken_all (Passes-IsClear allow) s.batches (clear allow f ((failed_verification_iff s).0 v)),
  λ h. blocks-pass s allow (weaken_all (IsClear-Passes allow) s.batches h),
)
  where
    clear :
        (a : Bool)
        → failed_unless_allowed a s ≡ ok tt
        → All (λ b. needs_verification_review b ≡ false) s.batches
        → All (Passes a) s.batches
    clear true f v = All-Passes true s.batches (All-allowed s.batches) v
    clear false f v = All-Passes false s.batches (All-not s.batches ((failed_iff s).0 f)) v
