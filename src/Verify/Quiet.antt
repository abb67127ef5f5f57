-- ===== src/Verify/Quiet.antt =====
-- src/verify.rs: what the parts of a verification leave alone.
use vibe_caravan.Prelude.{
  ℕ, ◌≡◌, refl, ◌∙◌, ◌⊎◌, inl, inr, not, Option, none, some, List, [], ◌∷◌, ◌++◌, text_eq, FilePath,
  join, nat_beq,
}
use vibe_caravan.Error.{Result, ok, err, CaravanError, IoError}
use vibe_caravan.Models.Batch.{FileEntry, Batch}
use vibe_caravan.Exec.{Sys, attempt}
use vibe_caravan.Exec.Within.{IsPreorder, Within, Within-pure, Within-raise, Within-if, Within-bind}
use vibe_caravan.Verify.{
  Bytes, Files, Verdict, Tally, note, no_tally, report_of, shield, read_error, open_error, read_all,
  opened, digest_file_with_interrupt, try_digest, with_both, with_source, compare_lengths,
  verdict_of, verify_files, verify_batch, should_skip_caravan,
}

-- A verification stays within any relation that the interrupt checks stay within.
module _ {W : Type 0} (fs : Files W) (R : Sys W → Sys W → Type 0) (p : IsPreorder R)
    (tick : Within R (attempt fs.check_interrupt)) where
  Within-read_all :
      (path : FilePath) (before : Bytes) (rs : List (IoError ⊎ Bytes))
      → Within R (read_all fs path before rs)
  Within-read_all path before [] = Within-bind p _ _ tick λ _. Within-pure p before
  Within-read_all path before (inl e ∷ rs) =
      Within-bind p _ _ tick λ _. Within-raise p (read_error path e)
  Within-read_all path before (inr [] ∷ rs) = Within-bind p _ _ tick λ _. Within-pure p before
  Within-read_all path before (inr (b ∷ bs) ∷ rs) =
      Within-bind p _ _ tick λ _. Within-read_all path (before ++ (b ∷ bs)) rs

  Within-opened :
      (path : FilePath) (o : IoError ⊎ List (IoError ⊎ Bytes)) → Within R (opened fs path o)
  Within-opened path (inl e) = Within-raise p (open_error path e)
  Within-opened path (inr rs) = Within-pure p rs

  pub Within-digest : (path : FilePath) → Within R (digest_file_with_interrupt fs path)
  unfolding digest_file_with_interrupt
  Within-digest path = Within-bind p _ _ tick λ _.
      Within-bind p _ _ (Within-opened path (fs.reads path)) λ rs.
        Within-bind p _ _ (Within-read_all path [] rs)
          λ bytes. Within-bind p _ _ tick λ _. Within-pure p (fs.blake3 bytes)

  shield-same : (s : Sys W) (r : Result Bytes × Sys W) → R s r.1 → R s (shield r).1
  shield-same s (ok a, t) h = h
  shield-same s (err CaravanError.graceful_shutdown, t) h = h
  shield-same s (err _, t) h = h

  Within-try_digest : (path : FilePath) → Within R (try_digest fs path)
  Within-try_digest path = record {
    at = λ s. shield-same s (digest_file_with_interrupt fs path s) ((Within-digest path).at s);
  }

  Within-with_source :
      (n : ℕ) (destination : FilePath) (a : Option Bytes)
      → Within R (with_source fs n destination a)
  Within-with_source n destination none = Within-pure p (Verdict.unreadable n)
  Within-with_source n destination (some a) =
      Within-bind p _ _ (Within-try_digest destination) λ b. Within-pure p (with_both fs n a b)

  Within-compare_lengths :
      (o p : Option ℕ) (source destination : FilePath)
      → Within R (compare_lengths fs o p source destination)
  Within-compare_lengths none m source destination = Within-pure p (Verdict.unreadable 0)
  Within-compare_lengths (some n) none source destination = Within-pure p (Verdict.unreadable 0)
  Within-compare_lengths (some n) (some m) source destination =
      Within-if p (not (nat_beq n m)) _ _ (Within-pure p (Verdict.mismatched n))
        (Within-bind p _ _ (Within-try_digest source) λ a. Within-with_source n destination a)

  Within-verdict_of :
      (source_root dest_root : FilePath) (f : FileEntry)
      → Within R (verdict_of fs source_root dest_root f)
  unfolding verdict_of
  Within-verdict_of source_root dest_root f =
      Within-if p (should_skip_caravan f.relative_path) _ _ (Within-pure p Verdict.skipped) (
        Within-if p (not (fs.exists (join dest_root f.relative_path))) _ _
          (Within-pure p Verdict.missing)
          (Within-compare_lengths (fs.len (join source_root f.relative_path))
            (fs.len (join dest_root f.relative_path)) (join source_root f.relative_path)
            (join dest_root f.relative_path)))

  Within-verify_files :
      (source_root dest_root : FilePath) (es : List FileEntry) (t : Tally)
      → Within R (verify_files fs source_root dest_root es t)
  unfolding verify_files
  Within-verify_files source_root dest_root [] t = Within-pure p t
  Within-verify_files source_root dest_root (f ∷ es) t = Within-bind p _ _ tick λ _.
      Within-bind p _ _ (Within-verdict_of source_root dest_root f)
        λ v. Within-verify_files source_root dest_root es (note f.relative_path v t)

  pub Within-verify_batch :
      (bt : Batch) (source_root dest_root : FilePath)
      → Within R (verify_batch fs bt source_root dest_root)
  unfolding verify_batch
  Within-verify_batch bt source_root dest_root =
      Within-bind p _ _ (Within-verify_files source_root dest_root bt.files no_tally)
        λ t. Within-pure p (report_of bt t)

abbrev pub SameState : {W : Type 0} → Sys W → Sys W → Type 0
SameState s t = t.state ≡ s.state

pub SameState-verify_batch :
    {W : Type 0} (fs : Files W) (bt : Batch) (source_root dest_root : FilePath)
    → Within SameState (verify_batch fs bt source_root dest_root)
SameState-verify_batch fs bt source_root dest_root =
    Within-verify_batch fs SameState (record { same = λ s. refl; chain = λ s t u h k. k ∙ h })
      (record { at = λ s. refl }) bt source_root dest_root
