-- ===== src/Verify/Sound.antt =====
-- src/verify.rs: what the digests and the verdict on one file say of the files.
use vibe_caravan.Prelude.{
  ℕ, ◌≡◌, sym, ap, ◌∙◌, ◌⊎◌, inl, inr, Bool, true, false, Option, none, some, List, [], ◌∷◌, ◌++◌,
  arith, text_eq, FilePath, join,
}
use vibe_caravan.Error.{Result, ok, err, CaravanError, IoError}
use vibe_caravan.Models.Batch.{FileEntry}
use vibe_caravan.Exec.{Sys, Exec, pure, attempt, ◌>>=◌}
use vibe_caravan.Exec.Within.{>>=-ok}
use vibe_caravan.Verify.{
  Bytes, Files, Verdict, shield, read_all, opened, digest_file_with_interrupt, try_digest,
  with_both, with_source,
}

-- What the answers of `read` come to, up to the end of the file.
abbrev pub contents_from : Bytes → List (IoError ⊎ Bytes) → Option Bytes
contents_from before [] = some before
contents_from before (inl e ∷ rs) = none
contents_from before (inr [] ∷ rs) = some before
contents_from before (inr (b ∷ bs) ∷ rs) = contents_from (before ++ (b ∷ bs)) rs

abbrev pub contents_of : IoError ⊎ List (IoError ⊎ Bytes) → Option Bytes
contents_of (inl e) = none
contents_of (inr rs) = contents_from [] rs

module _ {W : Type 0} (fs : Files W) where
  -- The file is readable, and has this hash.
  pub record Hashes (path : FilePath) (d : Bytes) : Type 0 where
    pub bytes : Bytes
    pub readable : contents_of (fs.reads path) ≡ some bytes
    pub digest : d ≡ fs.blake3 bytes

  -- The copy of a file: it is there, and both files are readable, with one length and one hash.
  pub record IsCopied (source_root destination_root : FilePath) (f : FileEntry) : Type 0 where
    pub there : fs.exists (join destination_root f.relative_path) ≡ true
    pub size : ℕ
    pub source_size : fs.len (join source_root f.relative_path) ≡ some size
    pub destination_size : fs.len (join destination_root f.relative_path) ≡ some size
    pub hash : Bytes
    pub source_hash : Hashes (join source_root f.relative_path) hash
    pub destination_hash : Hashes (join destination_root f.relative_path) hash

  read_all_sound :
      (path : FilePath) (before : Bytes) (rs : List (IoError ⊎ Bytes)) (s : Sys W) (d : Bytes)
      → (read_all fs path before rs s).0 ≡ ok d
      → contents_from before rs ≡ some d
  read_all_sound path before [] s d h =
      let (u, _, e) = >>=-ok (attempt fs.check_interrupt) (λ _. pure before) s {b = d} h in
      ground (arith, h, e)
  read_all_sound path before (inl x ∷ rs) s d h = absurd (ground (arith, h))
  read_all_sound path before (inr [] ∷ rs) s d h = ground (arith, h)
  read_all_sound path before (inr (b ∷ bs) ∷ rs) s d h =
      let (u, _, e) =
        >>=-ok (attempt fs.check_interrupt) (λ _. read_all fs path (before ++ (b ∷ bs)) rs) s
          {b = d} h in
      read_all_sound path (before ++ (b ∷ bs)) rs (attempt fs.check_interrupt s).1 d
        (ap (λ (r : Result Bytes × Sys W). r.0) (sym e) ∙ h)

  shield-some : (r : Result Bytes × Sys W) (d : Bytes) → (shield r).0 ≡ ok (some d) → r.0 ≡ ok d
  shield-some (ok a, s) d h = ground (arith, h)
  shield-some (err CaravanError.graceful_shutdown, s) d h = absurd (ground (arith, h))
  shield-some (err _, s) d h = absurd (ground (arith, h))

  opened_sound :
      (path : FilePath) (o : IoError ⊎ List (IoError ⊎ Bytes)) (s : Sys W)
      (rs : List (IoError ⊎ Bytes))
      → (opened fs path o s).0 ≡ ok rs
      → o ≡ inr rs
  opened_sound path (inl e) s rs h = absurd (ground (arith, h))
  opened_sound path (inr qs) s rs h = ground (arith, h)

  abbrev finish : FilePath → Bytes → Exec W Bytes
  finish path bytes = attempt fs.check_interrupt >>= λ _. pure (fs.blake3 bytes)

  abbrev read_and_finish : FilePath → List (IoError ⊎ Bytes) → Exec W Bytes
  read_and_finish path rs = read_all fs path [] rs >>= finish path

  finish_sound :
      (path : FilePath) (bytes : Bytes) (s : Sys W) (d : Bytes)
      → (finish path bytes s).0 ≡ ok d
      → d ≡ fs.blake3 bytes
  finish_sound path bytes s d h = ground (arith, h)

  digest_sound :
      (path : FilePath) (s : Sys W) (d : Bytes)
      → (digest_file_with_interrupt fs path s).0 ≡ ok d
      → Hashes path d
  unfolding digest_file_with_interrupt
  digest_sound path s d h =
      let (u, _, e) =
        >>=-ok (attempt fs.check_interrupt)
          (λ _. opened fs path (fs.reads path) >>= read_and_finish path) s {b = d} h in
      let s1 = (attempt fs.check_interrupt s).1 in
      let h1 : ((opened fs path (fs.reads path) >>= read_and_finish path) s1).0 ≡ ok d =
        ap (λ (r : Result Bytes × Sys W). r.0) (sym e) ∙ h in
      let (rs, o, e1) =
        >>=-ok (opened fs path (fs.reads path)) (read_and_finish path) s1 {b = d} h1 in
      let s2 = (opened fs path (fs.reads path) s1).1 in
      let h2 : (read_and_finish path rs s2).0 ≡ ok d =
        ap (λ (r : Result Bytes × Sys W). r.0) (sym e1) ∙ h1 in
      let (bytes, r, e2) = >>=-ok (read_all fs path [] rs) (finish path) s2 {b = d} h2 in
      let s3 = (read_all fs path [] rs s2).1 in
      let h3 : (finish path bytes s3).0 ≡ ok d =
        ap (λ (x : Result Bytes × Sys W). x.0) (sym e2) ∙ h2 in
      record {
        bytes = bytes;
        readable =
            ap contents_of (opened_sound path (fs.reads path) s1 rs o)
            ∙ read_all_sound path [] rs s2 bytes r;
        digest = finish_sound path bytes s3 d h3;
      }

  try_digest_sound :
      (path : FilePath) (s : Sys W) (d : Bytes)
      → (try_digest fs path s).0 ≡ ok (some d)
      → Hashes path d
  try_digest_sound path s d h =
      digest_sound path s d (shield-some (digest_file_with_interrupt fs path s) d h)

  -- A verdict that adds nothing to the three lists.
  abbrev pub is_good : Verdict → Bool
  is_good Verdict.skipped = true
  is_good (Verdict.matched n) = true
  is_good _ = false

  with_both_sound :
      (n : ℕ) (a : Bytes) (o : Option Bytes) → is_good (with_both fs n a o) ≡ true → o ≡ some a
  with_both_sound n a none h = absurd (ground (arith, h))
  with_both_sound n a (some b) h = ground (arith, h, text_eq.beq_iff a b)

  pub with_source_sound :
      (n : ℕ) (source destination : FilePath) (a : Option Bytes) (s0 s : Sys W) (v : Verdict)
      → (try_digest fs source s0).0 ≡ ok a
      → (with_source fs n destination a s).0 ≡ ok v
      → is_good v ≡ true
      → (d : Bytes) × Hashes source d × Hashes destination d
  with_source_sound n source destination none s0 s v first h good = absurd (ground (arith, h, good))
  with_source_sound n source destination (some a) s0 s v first h good =
      let (o, second, e) =
        >>=-ok (try_digest fs destination) (λ b. pure (with_both fs n a b)) s {b = v} h in
      let same : with_both fs n a o ≡ v = ground (arith, h, e) in
      let both : o ≡ some a = with_both_sound n a o (ap is_good same ∙ good) in
      (
        a,
        try_digest_sound source s0 a first,
        try_digest_sound destination s a (second ∙ ap ok both),
      )
