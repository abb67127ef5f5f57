-- ===== src/Tests/Verifying.antt =====
-- The verification of a batch of two files whose copies are in memory.
use vibe_caravan.Prelude.{
  ℕ, ◌≡◌, refl, inr, true, some, [], ◌∷◌, ◌++◌, Text, text, text_eq, path_eq, ◌==◌, FilePath,
  if◌then◌else◌, All,
}
use vibe_caravan.Error.{Result, ok, CaravanError, Arg, message}
use vibe_caravan.Models.Index.{ensure_index_consistent}
use vibe_caravan.Models.State.{MigrationState, new, batch, upsert_batch}
use vibe_caravan.Exec.{Sys}
use vibe_caravan.Verify.{
  VerificationStatus, VerificationReport, DigestModeUsed, Files, verify_batch,
}
use vibe_caravan.Verify.Pass.{IsVerified, verify_batch-IsVerified}
use vibe_caravan.Verify.Recorded.{
  verify_batch_with_state_updates, IsRecorded, verify_batch_with_state_updates-IsRecorded,
}
use vibe_caravan.Tests.Data.{id_1, batch_1, approved_state, approved_state-IsValid, path_b}

abbrev src : FilePath
src = text "src" ∷ []

abbrev dst : FilePath
dst = text "dst" ∷ []

-- Every file has five bytes, read in two parts, and the hash is the contents.
abbrev same_files : Files ℕ
same_files = record {
  exists = λ p. true;
  len = λ p. some 5;
  reads = λ p. inr (inr (1 ∷ 2 ∷ 3 ∷ []) ∷ inr (4 ∷ 5 ∷ []) ∷ inr [] ∷ []);
  blake3 = λ bytes. bytes;
  check_interrupt = λ w. (ok tt, w);
}

abbrev start : Sys ℕ
start = record { state = approved_state; world = 0 }

abbrev report : VerificationReport
report = record {
  file_count = 2;
  bytes_compared = 10;
  missing_files = [];
  mismatched_files = [];
  unreadable_files = [];
  digest_mode_used = DigestModeUsed.blake3_used;
  status = VerificationStatus.pass;
  recommended_action = "Verification passed; approval gate required before deletion.";
}

passes : (verify_batch same_files batch_1 src dst start).0 ≡ ok report
unfolding verify_batch text_eq
passes = refl

-- One copy is shorter.
abbrev short_copy : Files ℕ
short_copy = record same_files { len = λ p. if p == (dst ++ path_b) then some 4 else some 5 }

finds_mismatch :
    (verify_batch short_copy batch_1 src dst start).0
    ≡ ok (record report {
      mismatched_files = path_b ∷ [];
      status = VerificationStatus.fail;
      recommended_action = "Verification failed; stop and require human review before deletion.";
    })
unfolding verify_batch text_eq path_eq
finds_mismatch = refl

verify_batch-IsVerified_example : All (IsVerified same_files src dst) batch_1.files
verify_batch-IsVerified_example =
    verify_batch-IsVerified same_files batch_1 src dst start report passes refl

abbrev store : MigrationState → ℕ → Result (Unit {0}) × ℕ
store s w = (ok tt, w)

abbrev no_state : Text → CaravanError
no_state id = CaravanError.state_corrupt (message "missing batch state for {}" (Arg.word id ∷ []))

recorded :
    (verify_batch_with_state_updates same_files store no_state batch_1 src dst start).0 ≡ ok tt
unfolding verify_batch_with_state_updates verify_batch text_eq batch upsert_batch new
    ensure_index_consistent
recorded = refl

verify_batch_with_state_updates-IsRecorded_example :
    All (IsVerified same_files src dst) batch_1.files
    × IsRecorded id_1
        (verify_batch_with_state_updates same_files store no_state batch_1 src dst start).1.state
verify_batch_with_state_updates-IsRecorded_example =
    verify_batch_with_state_updates-IsRecorded same_files store no_state batch_1 src dst start
      approved_state-IsValid recorded
