-- ===== src/Cleanup/Progress.antt =====
-- src/cleanup.rs: when a cleanup succeeds.
use vibe_caravan.Prelude.{
  ◌≡◌, refl, ◌∙◌, ap, Bool, true, false, none, some, List, [], ◌∷◌, Text, String, FilePath, join,
}
use vibe_caravan.Error.{ok, message}
use vibe_caravan.Models.Batch.{FileEntry, Batch, BatchState}
use vibe_caravan.Models.State.{batch}
use vibe_caravan.Platform.{Env}
use vibe_caravan.Exec.{Sys, Exec, call, attempt, when, after, ◌>>=◌}
use vibe_caravan.Cleanup.{
  push_journal, removal_outcome, delete_file, delete_files, record_deleted, delete_then_record,
  delete_batch, cleanup_found, cleanup_batch,
}
use vibe_caravan.Cleanup.Safety.{may_delete, guards-pass}

-- No shutdown is requested, and a file that is there can be removed.
pub record Undisturbed {W : Type 0} (env : Env W) : Type 0 where
  pub no_interrupt : (w : W) → (env.check_interrupt w).0 ≡ ok tt
  pub removals : (p : FilePath) (w : W) → env.exists p w ≡ true → (env.remove_file p w).0 ≡ none

module _ {W : Type 0} (env : Env W) (calm : Undisturbed env) where
  -- A call whose first part succeeds ends as its rest does.
  after-succeeds :
      (m : Exec W (Unit {0})) (f : Unit {0} → Exec W (Unit {0})) (s : Sys W)
      → (m s).0 ≡ ok tt
      → ((t : Sys W) → (f tt t).0 ≡ ok tt)
      → ((m >>= f) s).0 ≡ ok tt
  after-succeeds m f s h k = ap (λ r. (after r f (m s).1).0) h ∙ k (m s).1

  interrupt-succeeds : (s : Sys W) → (attempt env.check_interrupt s).0 ≡ ok tt
  interrupt-succeeds s = calm.no_interrupt s.world

  removal-succeeds :
      (b : BatchState) (label : Text) (context : String) (p : FilePath) (present : Bool) (s : Sys W)
      → env.exists p s.world ≡ present
      → (when present
          (call (env.remove_file p) >>= λ o. removal_outcome env b label context p o)
          s).0
        ≡ ok tt
  unfolding removal_outcome
  removal-succeeds b label context p false s e = refl
  removal-succeeds b label context p true s e = rw (calm.removals p s.world e) refl

  delete_file-succeeds :
      (b : BatchState) (label : Text) (context : String) (root : FilePath) (f : FileEntry)
      (s : Sys W)
      → (delete_file env b label context root f s).0 ≡ ok tt
  unfolding delete_file
  delete_file-succeeds b label context root f s =
      after-succeeds (attempt env.check_interrupt) _ s (interrupt-succeeds s) λ t.
        after-succeeds
          (when (env.exists (join root f.relative_path) t.world) (
            call (env.remove_file (join root f.relative_path)) >>= λ o.
            removal_outcome env b label context (join root f.relative_path) o))
          (λ _. attempt env.check_interrupt) t
          (removal-succeeds b label context (join root f.relative_path)
            (env.exists (join root f.relative_path) t.world) t refl)
          interrupt-succeeds

  delete_files-succeeds :
      (b : BatchState) (label : Text) (context : String) (root : FilePath) (fs : List FileEntry)
      (s : Sys W)
      → (delete_files env b label context root fs s).0 ≡ ok tt
  unfolding delete_files
  delete_files-succeeds b label context root [] s = refl
  delete_files-succeeds b label context root (f ∷ fs) s =
      after-succeeds (delete_file env b label context root f) _ s
        (delete_file-succeeds b label context root f s)
        (delete_files-succeeds b label context root fs)

  delete_then_record-succeeds :
      (bt : Batch) (root : FilePath) (context : String) (b : BatchState) (s : Sys W)
      → (delete_then_record env bt root context b s).0 ≡ ok tt
  unfolding delete_then_record record_deleted push_journal
  delete_then_record-succeeds bt root context b s =
      after-succeeds (delete_files env b bt.id context root bt.files)
        (λ _. record_deleted env bt context b) s
        (delete_files-succeeds b bt.id context root bt.files s) (λ t. refl)

  delete_batch-succeeds :
      (bt : Batch) (root : FilePath) (context : String) (b : BatchState) (s : Sys W)
      → (delete_batch env bt root context b s).0 ≡ ok tt
  unfolding delete_batch
  delete_batch-succeeds bt root context b s =
      let start = push_journal env "delete_started" bt.id (message context []) in
      after-succeeds (attempt env.check_interrupt)
        (λ _. start >>= λ _. delete_then_record env bt root context b) s (interrupt-succeeds s)
        λ t.
          after-succeeds start (λ _. delete_then_record env bt root context b) t refl
            (delete_then_record-succeeds bt root context b)

  -- While no shutdown is requested and every file that is there can be removed, the cleanup of a
  -- batch that is verified, approved and not yet deleted succeeds, also where files of the batch are
  -- missing.
  pub cleanup_batch-succeeds :
      (bt : Batch) (root : FilePath) (context : String) (b : BatchState) (s : Sys W)
      → batch s.state bt.id ≡ some b
      → may_delete (some b) ≡ true
      → (cleanup_batch env bt root context s).0 ≡ ok tt
  unfolding cleanup_batch
  cleanup_batch-succeeds bt root context b s found h =
      let pass : cleanup_found env bt root context b s ≡ delete_batch env bt root context b s =
        guards-pass b.verification_passed b.approved_for_delete b.deleted
          (delete_batch env bt root context b) s h in
      rw found (ap (λ r. r.0) pass ∙ delete_batch-succeeds bt root context b s)
