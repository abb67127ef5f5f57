-- ===== src/Verify/Pass.antt =====
-- src/verify.rs: what the status of a verification says of the files.
use vibe_caravan.Prelude.{
  ℕ, ◌≡◌, refl, sym, ap, ◌∙◌, ◌⊎◌, inl, inr, Bool, true, false, Option, none, some, List, [], ◌∷◌,
  ◌++◌, arith, text_eq, FilePath, join, nat_beq, is_empty, Bool-cases, All,
}
use vibe_caravan.Error.{Result, ok}
use vibe_caravan.Models.Batch.{FileEntry, Batch}
use vibe_caravan.Exec.{Sys, Exec, pure, attempt, ◌>>=◌}
use vibe_caravan.Exec.Within.{>>=-ok}
use vibe_caravan.Verify.{
  VerificationStatus, VerificationReport, Bytes, Files, Verdict, Tally, note, no_tally, is_clean,
  report_of, should_skip_caravan, try_digest, with_source, status_of, compare_digests,
  compare_lengths, verdict_of, verify_files, verify_batch,
}
use vibe_caravan.Verify.Sound.{Hashes, IsCopied, is_good, with_source_sound}

is_empty-snoc : (xs : List FilePath) (x : FilePath) → is_empty (xs ++ (x ∷ [])) ≡ false
is_empty-snoc [] x = refl
is_empty-snoc (y ∷ ys) x = refl

note_clean :
    (rel : FilePath) (v : Verdict) (t : Tally) → is_clean (note rel v t) ≡ true → is_clean t ≡ true
note_clean rel Verdict.skipped t h = h
note_clean rel Verdict.missing t h = absurd (ground (arith, h, is_empty-snoc t.missing_files rel))
note_clean rel (Verdict.unreadable n) t h =
    absurd (ground (arith, h, is_empty-snoc t.unreadable_files rel))
note_clean rel (Verdict.mismatched n) t h =
    absurd (ground (arith, h, is_empty-snoc t.mismatched_files rel))
note_clean rel (Verdict.matched n) t h = h

module _ {W : Type 0} (fs : Files W) where
  note_good :
      (rel : FilePath) (v : Verdict) (t : Tally)
      → is_clean (note rel v t) ≡ true
      → is_good fs v ≡ true
  note_good rel Verdict.skipped t h = refl
  note_good rel Verdict.missing t h = absurd (ground (arith, h, is_empty-snoc t.missing_files rel))
  note_good rel (Verdict.unreadable n) t h =
      absurd (ground (arith, h, is_empty-snoc t.unreadable_files rel))
  note_good rel (Verdict.mismatched n) t h =
      absurd (ground (arith, h, is_empty-snoc t.mismatched_files rel))
  note_good rel (Verdict.matched n) t h = refl

  compare_digests_sound :
      (n : ℕ) (source destination : FilePath) (s : Sys W) (v : Verdict)
      → (compare_digests fs n source destination s).0 ≡ ok v
      → is_good fs v ≡ true
      → (d : Bytes) × Hashes fs source d × Hashes fs destination d
  compare_digests_sound n source destination s v h good =
      let (a, first, e) =
        >>=-ok (try_digest fs source) (λ a. with_source fs n destination a) s {b = v} h in
      with_source_sound fs n source destination a s (try_digest fs source s).1 v first
        (ap (λ (r : Result Verdict × Sys W). r.0) (sym e) ∙ h) good

  compare_lengths_sound :
      (o p : Option ℕ) (source destination : FilePath) (s : Sys W) (v : Verdict)
      → (compare_lengths fs o p source destination s).0 ≡ ok v
      → is_good fs v ≡ true
      → (n : ℕ) × (o ≡ some n)
        × (p ≡ some n)
        × ((d : Bytes) × Hashes fs source d × Hashes fs destination d)
  compare_lengths_sound none p source destination s v h good = absurd (ground (arith, h, good))
  compare_lengths_sound (some n) none source destination s v h good =
      absurd (ground (arith, h, good))
  compare_lengths_sound (some n) (some m) source destination s v h good =
      elim (Bool-cases (nat_beq n m)) [
        | inl same ↦ (
          n,
          refl,
          ground (arith, same),
          compare_digests_sound n source destination s v (rw same at h) good,
        )
        | inr differ ↦ absurd (ground (arith, differ, rw differ at h, good))
      ]

  -- A file that passes: one inside `.caravan`, which is not looked at, or one that is copied.
  abbrev pub IsVerified : FilePath → FilePath → FileEntry → Type 0
  IsVerified source_root destination_root f =
      (should_skip_caravan f.relative_path ≡ true) ⊎ IsCopied fs source_root destination_root f

  verdict_sound :
      (source_root destination_root : FilePath) (f : FileEntry) (s : Sys W) (v : Verdict)
      → (verdict_of fs source_root destination_root f s).0 ≡ ok v
      → is_good fs v ≡ true
      → IsVerified source_root destination_root f
  unfolding verdict_of
  verdict_sound source_root destination_root f s v h good =
      elim (Bool-cases (should_skip_caravan f.relative_path)) [
        | inl skip ↦ inl skip
        | inr keep ↦ elim (Bool-cases (fs.exists (join destination_root f.relative_path))) [
          | inr absent ↦ absurd (ground (arith, rw (keep, absent) at h, good))
          | inl there ↦
              let (n, a, b, (d, c, e)) =
                compare_lengths_sound (fs.len (join source_root f.relative_path))
                  (fs.len (join destination_root f.relative_path))
                  (join source_root f.relative_path) (join destination_root f.relative_path) s v
                  (rw (keep, there) at h) good in
              inr (record {
                there = there;
                size = n;
                source_size = a;
                destination_size = b;
                hash = d;
                source_hash = c;
                destination_hash = e;
              })
        ]
      ]

  verify_files_sound :
      (source_root destination_root : FilePath) (es : List FileEntry) (t t' : Tally) (s : Sys W)
      → (verify_files fs source_root destination_root es t s).0 ≡ ok t'
      → is_clean t' ≡ true
      → (is_clean t ≡ true) × All (IsVerified source_root destination_root) es
  unfolding verify_files
  verify_files_sound source_root destination_root [] t t' s h clean = (ground (arith, h, clean), tt)
  verify_files_sound source_root destination_root (f ∷ es) t t' s h clean =
      let next : Verdict → Exec W Tally =
        λ v. verify_files fs source_root destination_root es (note f.relative_path v t) in
      let (u, _, e) =
        >>=-ok (attempt fs.check_interrupt)
          (λ _. verdict_of fs source_root destination_root f >>= next) s {b = t'} h in
      let s1 = (attempt fs.check_interrupt s).1 in
      let h1 : ((verdict_of fs source_root destination_root f >>= next) s1).0 ≡ ok t' =
        ap (λ (r : Result Tally × Sys W). r.0) (sym e) ∙ h in
      let (v, found, e1) =
        >>=-ok (verdict_of fs source_root destination_root f) next s1 {b = t'} h1 in
      let s2 = (verdict_of fs source_root destination_root f s1).1 in
      let (noted, rest) =
        verify_files_sound source_root destination_root es (note f.relative_path v t) t' s2
          (ap (λ (r : Result Tally × Sys W). r.0) (sym e1) ∙ h1) clean in
      (
        note_clean f.relative_path v t noted,
        (
          verdict_sound source_root destination_root f s1 v found
              (note_good f.relative_path v t noted),
          rest,
        ),
      )

  status-pass : (b : Bool) → status_of b ≡ VerificationStatus.pass → b ≡ true
  status-pass true h = refl
  status-pass false h = absurd (ground (arith, h))

  -- A verification that returns with the status `pass` has found, for every file of the batch
  -- that is not inside `.caravan`, that the copy is there, and that source and copy can be read
  -- to the end and have one length and one hash.
  pub verify_batch-IsVerified :
      (batch : Batch) (source_root destination_root : FilePath) (s : Sys W) (r : VerificationReport)
      → (verify_batch fs batch source_root destination_root s).0 ≡ ok r
      → r.status ≡ VerificationStatus.pass
      → All (IsVerified source_root destination_root) batch.files
  unfolding verify_batch
  verify_batch-IsVerified batch source_root destination_root s r h passed =
      let (t, found, e) =
        >>=-ok (verify_files fs source_root destination_root batch.files no_tally)
          (λ t. pure (report_of batch t)) s {b = r} h in
      let same : report_of batch t ≡ r = ground (arith, h, e) in
      let clean : is_clean t ≡ true =
        status-pass (is_clean t)
          (unfold report_of in ap (λ (x : VerificationReport). x.status) same ∙ passed) in
      (verify_files_sound source_root destination_root batch.files no_tally t s found clean).1
