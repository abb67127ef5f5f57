-- ===== src/Capacity.antt =====
-- src/capacity/mod.rs: the decision whether a batch fits on the destination. The probe of the
-- volume is the system's.
pub mod Guard
use vibe_caravan.Prelude.{
  ℕ, ◌+◌, ◌≤◌, ◌<◌, ◌≡◌, ◌↔◌, Bool, true, false, Option, none, some, [], ◌∷◌, arith, String,
  FilePath, ltb, nat_beq, u64_max, saturating_add,
}
use vibe_caravan.Platform.Host.{SpaceInfo}
use vibe_caravan.Error.{Result, ok, CaravanError, Arg, Message, message, ◌>>=◌, ◌>>◌, fail_if}

pub data CapacityDecision : Type 0 where
  proceed abort : CapacityDecision

pub record CapacityReport : Type 0 where
  pub total_capacity_bytes : ℕ
  pub available_free_bytes : ℕ
  pub volume_free_bytes : ℕ
  pub planned_batch_bytes : ℕ
  pub reserve_margin_bytes : ℕ
  pub probe_backend : String
  pub decision : CapacityDecision
  pub reason : Option Message

abbrev decide : Bool → CapacityDecision
decide true = CapacityDecision.proceed
decide false = CapacityDecision.abort

abbrev abort_reason : CapacityDecision → ℕ → ℕ → ℕ → ℕ → Option Message
abort_reason CapacityDecision.proceed available required planned reserve = none
abort_reason CapacityDecision.abort available required planned reserve = some (
    message "insufficient destination space: available={} required={} (batch={} reserve={})"
      (Arg.bytes available ∷ Arg.bytes required ∷ Arg.bytes planned ∷ Arg.bytes reserve ∷ []))

abbrev zero_batch_error : CaravanError
zero_batch_error =
    CaravanError.invalid_arguments (message "planned batch size must be greater than zero" [])

abbrev capacity_report : ℕ → ℕ → String → SpaceInfo → CapacityReport
capacity_report planned reserve backend space =
    let required = saturating_add planned reserve in
    let decision = decide (ltb required space.available_bytes) in
    record {
      total_capacity_bytes = space.total_bytes;
      available_free_bytes = space.available_bytes;
      volume_free_bytes = space.volume_free_bytes;
      planned_batch_bytes = planned;
      reserve_margin_bytes = reserve;
      probe_backend = backend;
      decision = decision;
      reason = abort_reason decision space.available_bytes required planned reserve;
    }

unfoldable pub check_capacity_with_probe_and_backend :
    FilePath → ℕ → ℕ → (FilePath → Result SpaceInfo) → String → Result CapacityReport
check_capacity_with_probe_and_backend destination planned reserve probe backend = do
  fail_if (nat_beq planned 0) zero_batch_error
  space ← probe destination
  ok (capacity_report planned reserve backend space)

-- For a batch of at least one byte and a probe that answers within 64 bits, the check returns a
-- report. It says to proceed exactly when the batch and the reserve together, added without
-- overflow, are less than the available space; and it gives a reason exactly when it does not.
pub check_capacity-decision :
    (destination : FilePath) (planned reserve : ℕ) (probe : FilePath → Result SpaceInfo)
    (backend : String) (space : SpaceInfo)
    → 0 < planned
    → probe destination ≡ ok space
    → space.available_bytes ≤ u64_max
    → (r : CapacityReport) × (check_capacity_with_probe_and_backend destination planned reserve
          probe backend
        ≡ ok r)
      × ((r.decision ≡ CapacityDecision.proceed) ↔ (planned + reserve < space.available_bytes))
      × ((r.reason ≡ none) ↔ (r.decision ≡ CapacityDecision.proceed))
unfolding check_capacity_with_probe_and_backend
check_capacity-decision destination planned reserve probe backend space some_bytes answer bounded =
    (
      capacity_report planned reserve backend space,
      ground (arith, answer),
      (λ h. ground arith, λ h. ground arith),
      (λ h. ground arith, λ h. ground arith),
    )
