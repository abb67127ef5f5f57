-- ===== src/Verify.antt =====
-- src/verify.rs and src/models/verification.rs: the comparison of a batch with its copies. The
-- files are taken to stay as they are while a batch is verified.
pub mod Sound
pub mod Pass
pub mod Quiet
pub mod Recorded
use vibe_caravan.Prelude.{
  ℕ, ◌⊎◌, inl, inr, Bool, true, false, ◌&&◌, ◌||◌, not, Option, none, some, List, [], ◌∷◌, ◌++◌,
  Text, text, text_eq, ◌==◌, String, FilePath, join, nat_beq, is_empty, if◌then◌else◌,
  saturating_add, contains,
}
use vibe_caravan.Error.{Result, ok, err, CaravanError, IoError, Arg, message}
use vibe_caravan.Models.Batch.{FileEntry, Batch}
use vibe_caravan.Exec.{Sys, Exec, pure, attempt, raise, ok_or_raise, ◌>>=◌, ◌>>◌}

pub data DigestModeUsed : Type 0 where
  none_used blake3_used : DigestModeUsed

pub data VerificationStatus : Type 0 where
  pass fail : VerificationStatus

-- The lists of files hold paths where the source holds their renderings.
pub record VerificationReport : Type 0 where
  pub file_count : ℕ
  pub bytes_compared : ℕ
  pub missing_files : List FilePath
  pub mismatched_files : List FilePath
  pub unreadable_files : List FilePath
  pub digest_mode_used : DigestModeUsed
  pub status : VerificationStatus
  pub recommended_action : String

abbrev pub Bytes : Type 0
Bytes = List ℕ

-- The file system, and the hash of the crate `blake3`.
pub record Files (W : Type 0) : Type 0 where
  pub exists : FilePath → Bool
  -- `fs::metadata(path)`, the length if it succeeds
  pub len : FilePath → Option ℕ
  -- `File::open(path)`, and if it succeeds the answers of `read`
  pub reads : FilePath → IoError ⊎ List (IoError ⊎ Bytes)
  pub blake3 : Bytes → Bytes
  pub check_interrupt : W → Result (Unit {0}) × W

unfoldable pub should_skip_caravan : FilePath → Bool
should_skip_caravan path = contains path (text ".caravan")

abbrev pub open_error : FilePath → IoError → CaravanError
open_error path e =
    CaravanError.io (message "failed to open {}: {}" (Arg.path path ∷ Arg.cause e ∷ []))

abbrev pub read_error : FilePath → IoError → CaravanError
read_error path e =
    CaravanError.io (message "failed to read {}: {}" (Arg.path path ∷ Arg.cause e ∷ []))

-- What became of one file; the number is what is added to `bytes_compared`.
pub data Verdict : Type 0 where
  skipped missing : Verdict
  unreadable mismatched matched : ℕ → Verdict

-- The variables of the loop.
pub record Tally : Type 0 where
  pub missing_files : List FilePath
  pub mismatched_files : List FilePath
  pub unreadable_files : List FilePath
  pub bytes_compared : ℕ

abbrev pub no_tally : Tally
no_tally = record {
  missing_files = [];
  mismatched_files = [];
  unreadable_files = [];
  bytes_compared = 0;
}

abbrev add_bytes : ℕ → Tally → Tally
add_bytes n t = record t { bytes_compared = saturating_add t.bytes_compared n }

abbrev pub note : FilePath → Verdict → Tally → Tally
note rel Verdict.skipped t = t
note rel Verdict.missing t = record t { missing_files = t.missing_files ++ (rel ∷ []) }
note rel (Verdict.unreadable n) t = record (add_bytes n t) {
  unreadable_files = t.unreadable_files ++ (rel ∷ []);
}
note rel (Verdict.mismatched n) t = record (add_bytes n t) {
  mismatched_files = t.mismatched_files ++ (rel ∷ []);
}
note rel (Verdict.matched n) t = add_bytes n t

abbrev pub status_of : Bool → VerificationStatus
status_of true = VerificationStatus.pass
status_of false = VerificationStatus.fail

abbrev action_of : VerificationStatus → String
action_of VerificationStatus.pass = "Verification passed; approval gate required before deletion."
action_of VerificationStatus.fail =
    "Verification failed; stop and require human review before deletion."

abbrev pub is_clean : Tally → Bool
is_clean t = is_empty t.missing_files && is_empty t.mismatched_files && is_empty t.unreadable_files

unfoldable pub report_of : Batch → Tally → VerificationReport
report_of batch t =
    let status = status_of (is_clean t) in
    record {
      file_count = batch.file_count;
      bytes_compared = t.bytes_compared;
      missing_files = t.missing_files;
      mismatched_files = t.mismatched_files;
      unreadable_files = t.unreadable_files;
      digest_mode_used = DigestModeUsed.blake3_used;
      status = status;
      recommended_action = action_of status;
    }

-- A shutdown ends the verification; any other error counts as no answer.
abbrev pub shield : {A W : Type 0} → Result A × Sys W → Result (Option A) × Sys W
shield (ok a, s) = (ok (some a), s)
shield (err CaravanError.graceful_shutdown, s) = (err CaravanError.graceful_shutdown, s)
shield (err e, s) = (ok none, s)

module _ {W : Type 0} (fs : Files W) where
  -- The loop over the answers of `read`; no bytes mean the end of the file.
  abbrev pub read_all : FilePath → Bytes → List (IoError ⊎ Bytes) → Exec W Bytes
  read_all path before [] = attempt fs.check_interrupt >>= λ _. pure before
  read_all path before (inl e ∷ rs) = attempt fs.check_interrupt >>= λ _. raise (read_error path e)
  read_all path before (inr [] ∷ rs) = attempt fs.check_interrupt >>= λ _. pure before
  read_all path before (inr (b ∷ bs) ∷ rs) =
      attempt fs.check_interrupt >>= λ _. read_all path (before ++ (b ∷ bs)) rs

  abbrev pub opened : FilePath → IoError ⊎ List (IoError ⊎ Bytes) → Exec W (List (IoError ⊎ Bytes))
  opened path (inl e) = raise (open_error path e)
  opened path (inr rs) = pure rs

  unfoldable pub digest_file_with_interrupt : FilePath → Exec W Bytes
  digest_file_with_interrupt path = do
    attempt fs.check_interrupt
    rs ← opened path (fs.reads path)
    bytes ← read_all path [] rs
    attempt fs.check_interrupt
    pure (fs.blake3 bytes)

  abbrev pub try_digest : FilePath → Exec W (Option Bytes)
  try_digest path s = shield (digest_file_with_interrupt path s)

  abbrev pub with_both : ℕ → Bytes → Option Bytes → Verdict
  with_both n a none = Verdict.unreadable n
  with_both n a (some b) = if not (a == b) then Verdict.mismatched n else Verdict.matched n

  abbrev pub with_source : ℕ → FilePath → Option Bytes → Exec W Verdict
  with_source n destination none = pure (Verdict.unreadable n)
  with_source n destination (some a) = try_digest destination >>= λ b. pure (with_both n a b)

  abbrev pub compare_digests : ℕ → FilePath → FilePath → Exec W Verdict
  compare_digests n source destination = try_digest source >>= λ a. with_source n destination a

  abbrev pub compare_lengths : Option ℕ → Option ℕ → FilePath → FilePath → Exec W Verdict
  compare_lengths none m source destination = pure (Verdict.unreadable 0)
  compare_lengths (some n) none source destination = pure (Verdict.unreadable 0)
  compare_lengths (some n) (some m) source destination =
      if not (nat_beq n m)
      then pure (Verdict.mismatched n)
      else compare_digests n source destination

  -- The body of the loop after the interrupt check.
  unfoldable pub verdict_of : FilePath → FilePath → FileEntry → Exec W Verdict
  unfolding should_skip_caravan digest_file_with_interrupt
  verdict_of source_root destination_root entry =
      let source = join source_root entry.relative_path in
      let destination = join destination_root entry.relative_path in
      if should_skip_caravan entry.relative_path
      then pure Verdict.skipped
      else if not (fs.exists destination)
      then pure Verdict.missing
      else compare_lengths (fs.len source) (fs.len destination) source destination

  unfoldable pub verify_files : FilePath → FilePath → List FileEntry → Tally → Exec W Tally
  unfolding verdict_of
  verify_files source_root destination_root [] t = pure t
  verify_files source_root destination_root (entry ∷ rest) t = do
    attempt fs.check_interrupt
    v ← verdict_of source_root destination_root entry
    verify_files source_root destination_root rest (note entry.relative_path v t)

  -- `verify_batch_with_progress`.
  unfoldable pub verify_batch : Batch → FilePath → FilePath → Exec W VerificationReport
  unfolding verify_files report_of
  verify_batch batch source_root destination_root = do
    t ← verify_files source_root destination_root batch.files no_tally
    pure (report_of batch t)
