-- ===== src/Cleanup/Completion.antt =====
-- src/cleanup.rs: the state and the files after a cleanup that succeeds.
use mathlib.Core.Path.{subst}
use vibe_caravan.Prelude.{
  ◌≡◌, refl, sym, ◌∙◌, ap, inl, inr, Bool, true, false, some, List, [], ◌∷◌, arith, Text, String,
  FilePath, join, text_eq, path_eq, beq_refl, Option-cases, All,
}
use vibe_caravan.Error.{Result, ok, message}
use vibe_caravan.Models.Batch.{FileEntry, Batch, BatchPhase, BatchState}
use vibe_caravan.Models.State.{batch, upsert_batch}
use vibe_caravan.Models.State.Laws.{IsValid, batch-upsert_batch}
use vibe_caravan.Platform.{Env, EnvLaws}
use vibe_caravan.Exec.{Sys, Exec, ask, call, attempt, when, ◌>>=◌}
use vibe_caravan.Exec.Within.{>>=-ok}
use vibe_caravan.Cleanup.{
  mark_deleted, push_journal, removal_outcome, delete_file, delete_files, delete_batch,
  record_deleted, delete_then_record, cleanup_found, cleanup_batch,
}
use vibe_caravan.Cleanup.Effects.{
  places, AreAmong-places, Touches-delete_files, Touches-journal, batch-journal,
}
use vibe_caravan.Cleanup.Safety.{batch-id, guards-ok}

-- No file of the list is left in the source.
abbrev pub AllGone : {W : Type 0} → Env W → FilePath → List FileEntry → Sys W → Type 0
AllGone env root fs t = All (λ f. env.exists (join root f.relative_path) t.world ≡ false) fs

module _ {W : Type 0} (env : Env W) (laws : EnvLaws env) (b : BatchState) (label : Text)
    (context : String) (root : FilePath) where
  -- The removal under `when`, which is done if the file is there.
  abbrev removal : FilePath → Bool → Exec W (Unit {0})
  removal p present =
      when present (call (env.remove_file p) >>= λ o. removal_outcome env b label context p o)

  removal-gone :
      (p : FilePath) (present : Bool) (s : Sys W)
      → env.exists p s.world ≡ present
      → (removal p present s).0 ≡ ok tt
      → env.exists p (removal p present s).1.world ≡ false
  unfolding removal_outcome
  removal-gone p false s e h = e
  removal-gone p true s e h = elim (Option-cases (env.remove_file p s.world).0) [
    | inl done ↦ rw (done) (laws.removed p s.world done)
    | inr (failure, e') ↦ absurd (ground (arith, h, e'))
  ]

  -- The rest of the body after the first interrupt check.
  abbrev rest_of_file : FilePath → Exec W (Unit {0})
  rest_of_file p =
      ask (env.exists p) >>= λ present. removal p present >>= λ _. attempt env.check_interrupt

  rest_of_file-gone :
      (p : FilePath) (s : Sys W)
      → (rest_of_file p s).0 ≡ ok tt
      → env.exists p (rest_of_file p s).1.world ≡ false
  rest_of_file-gone p s h =
      let present = env.exists p s.world in
      let (u, done, e) =
        >>=-ok (removal p present) (λ _. attempt env.check_interrupt) s {b = tt} h in
      let t = (removal p present s).1 in
      let gone : env.exists p t.world ≡ false = removal-gone p present s refl (done) in
      rw e (laws.interrupt_keeps p t.world ∙ gone)

  delete_file-gone :
      (f : FileEntry) (s : Sys W)
      → (delete_file env b label context root f s).0 ≡ ok tt
      → env.exists (join root f.relative_path) (delete_file env b label context root f s).1.world
        ≡ false
  unfolding delete_file
  delete_file-gone f s h =
      let p = join root f.relative_path in
      let (u, done, e) = >>=-ok (attempt env.check_interrupt) (λ _. rest_of_file p) s {b = tt} h in
      rw e (rest_of_file-gone p (attempt env.check_interrupt s).1 (ap (λ r. r.0) (sym e) ∙ h))

  pub delete_files-gone :
      (fs : List FileEntry) (s : Sys W)
      → b.batch_id ≡ label
      → (delete_files env b label context root fs s).0 ≡ ok tt
      → AllGone env root fs (delete_files env b label context root fs s).1
  unfolding delete_files
  delete_files-gone [] s owner h = tt
  delete_files-gone (f ∷ fs) s owner h =
      let (u, done, e) =
        >>=-ok (delete_file env b label context root f)
          (λ _. delete_files env b label context root fs) s {b = tt} h in
      let t = (delete_file env b label context root f s).1 in
      let later =
        Touches-delete_files env laws b label (places root fs) owner label context root fs
          (AreAmong-places root fs) in
      subst (λ (r : Result (Unit {0}) × Sys W). AllGone env root (f ∷ fs) r.1) (sym e)
        (
          (later.at t).none_new (join root f.relative_path) (delete_file-gone f s done),
          delete_files-gone fs t owner (ap (λ r. r.0) (sym e) ∙ h),
        )

-- What a finished cleanup leaves: the record of the batch with the flag for deleted and its phase, and
-- none of its files.
pub record IsDone {W : Type 0} (env : Env W) (bt : Batch) (root : FilePath) (b : BatchState)
    (t : Sys W) : Type 0 where
  pub recorded :
      batch t.state bt.id ≡ some (record b { deleted = true; phase = BatchPhase.delete_completed })
  pub gone : AllGone env root bt.files t

module _ {W : Type 0} (env : Env W) (laws : EnvLaws env) where
  AllGone-now :
      (root : FilePath) (fs : List FileEntry) (s t : Sys W)
      → ((q : FilePath) → env.exists q t.world ≡ env.exists q s.world)
      → AllGone env root fs s
      → AllGone env root fs t
  AllGone-now root [] s t same h = tt
  AllGone-now root (f ∷ fs) s t same h =
      (same (join root f.relative_path) ∙ h.0, AllGone-now root fs s t same h.1)

  record_deleted-IsDone :
      (bt : Batch) (root : FilePath) (context : String) (b : BatchState) (s : Sys W)
      → IsValid s.state
      → b.batch_id ≡ bt.id
      → AllGone env root bt.files s
      → IsDone env bt root b (record_deleted env bt context b s).1
  unfolding record_deleted push_journal
  record_deleted-IsDone bt root context b s v owner gone = record {
    recorded =
        batch-journal (upsert_batch (mark_deleted b) s.state) bt.id _
        ∙ batch-upsert_batch (mark_deleted b) s.state bt.id v
        ∙ rw (owner, beq_refl bt.id) refl;
    gone =
        AllGone-now root bt.files s (record_deleted env bt context b s).1
          (λ q. laws.now_keeps q s.world) gone;
  }

  delete_then_record-IsDone :
      (bt : Batch) (root : FilePath) (context : String) (b : BatchState) (s : Sys W)
      → IsValid s.state
      → b.batch_id ≡ bt.id
      → (delete_then_record env bt root context b s).0 ≡ ok tt
      → IsDone env bt root b (delete_then_record env bt root context b s).1
  unfolding delete_then_record
  delete_then_record-IsDone bt root context b s v owner h =
      let m = delete_files env b bt.id context root bt.files in
      let (u, done, e) = >>=-ok m (λ _. record_deleted env bt context b) s {b = tt} h in
      let touched =
        Touches-delete_files env laws b bt.id (places root bt.files) owner bt.id context root
          bt.files (AreAmong-places root bt.files) in
      subst (λ (r : Result (Unit {0}) × Sys W). IsDone env bt root b r.1) (sym e)
        (record_deleted-IsDone bt root context b (m s).1 ((touched.at s).valid v) owner
          (delete_files-gone env laws b bt.id context root bt.files s owner done))

  delete_batch-IsDone :
      (bt : Batch) (root : FilePath) (context : String) (b : BatchState) (s : Sys W)
      → IsValid s.state
      → b.batch_id ≡ bt.id
      → (delete_batch env bt root context b s).0 ≡ ok tt
      → IsDone env bt root b (delete_batch env bt root context b s).1
  unfolding delete_batch
  delete_batch-IsDone bt root context b s v owner h =
      let start = push_journal env "delete_started" bt.id (message context []) in
      let (u, checked, e) =
        >>=-ok (attempt env.check_interrupt)
          (λ _. start >>= λ _. delete_then_record env bt root context b) s {b = tt} h in
      let s1 = (attempt env.check_interrupt s).1 in
      let (u', begun, e') =
        >>=-ok start (λ _. delete_then_record env bt root context b) s1 {b = tt}
          (ap (λ (r : Result (Unit {0}) × Sys W). r.0) (sym e) ∙ h) in
      let journal =
        Touches-journal env laws b bt.id [] "delete_started" bt.id (message context []) in
      subst (λ (r : Result (Unit {0}) × Sys W). IsDone env bt root b r.1) (sym (e ∙ e'))
        (delete_then_record-IsDone bt root context b (start s1).1 ((journal.at s1).valid v) owner
          (ap (λ (r : Result (Unit {0}) × Sys W). r.0) (sym (e ∙ e')) ∙ h))

  cleanup_found-delete :
      (bt : Batch) (root : FilePath) (context : String) (b : BatchState) (s : Sys W)
      → b.deleted ≡ false
      → (cleanup_found env bt root context b s).0 ≡ ok tt
      → cleanup_found env bt root context b s ≡ delete_batch env bt root context b s
  cleanup_found-delete bt root context b s k h =
      guards-ok b.verification_passed b.approved_for_delete b.deleted
        (delete_batch env bt root context b) s k h

  -- From a valid state, a cleanup that succeeds for a batch that was not yet deleted has removed
  -- every file of the batch from the source, and the record of the batch is as it was but for the flag
  -- deleted, which is set, and the phase, which is that of a completed deletion.
  pub cleanup_batch-IsDone :
      (bt : Batch) (root : FilePath) (context : String) (b : BatchState) (s : Sys W)
      → IsValid s.state
      → batch s.state bt.id ≡ some b
      → b.deleted ≡ false
      → (cleanup_batch env bt root context s).0 ≡ ok tt
      → IsDone env bt root b (cleanup_batch env bt root context s).1
  unfolding cleanup_batch
  cleanup_batch-IsDone bt root context b s v found k h =
      let same : cleanup_batch env bt root context s ≡ delete_batch env bt root context b s =
        rw found (cleanup_found-delete bt root context b s k (rw found at h)) in
      subst (λ (r : Result (Unit {0}) × Sys W). IsDone env bt root b r.1) (sym same)
        (delete_batch-IsDone bt root context b s v (batch-id s.state bt.id b v found)
          (ap (λ (r : Result (Unit {0}) × Sys W). r.0) (sym same) ∙ h))
