-- ===== src/SourceCompletion/Identity.antt =====
-- src/source_completion/identity.rs. A key of a file has the fields of its identity and is one.
use vibe_caravan.Prelude.{
  ℕ, ◌+◌, ◌/◌, ◌%◌, ◌≡◌, ◌↔◌, Bool, true, ◌&&◌, List, [], ◌∷◌, ◌++◌, arith, Text, text_eq, path_eq,
  ◌==◌, Eq, FilePath, join, nat_beq, ltb, if◌then◌else◌,
}
use vibe_caravan.Models.Batch.{FileEntry, CompletedFileIdentity}
use vibe_caravan.Platform.Host.{Host}
use vibe_caravan.Exec.{Exec, pure, attempt, ◌>>=◌, ◌>>◌}
use vibe_caravan.Verify.{Files, digest_file_with_interrupt}

pub record HashedFileEntry : Type 0 where
  pub relative_path : FilePath
  pub size_bytes : ℕ
  pub blake3_hash : Text

abbrev pub identity_beq : CompletedFileIdentity → CompletedFileIdentity → Bool
identity_beq a b =
    (a.mode == b.mode)
    && ((a.relative_path == b.relative_path)
        && (nat_beq a.size_bytes b.size_bytes && (a.blake3_hash == b.blake3_hash)))

pub identity_beq_iff : (a b : CompletedFileIdentity) → (identity_beq a b ≡ true) ↔ (a ≡ b)
identity_beq_iff a b = ground (
  arith,
  text_eq.beq_iff a.mode b.mode,
  path_eq.beq_iff a.relative_path b.relative_path,
  text_eq.beq_iff a.blake3_hash b.blake3_hash,
)

instance unfoldable pub identity_eq : Eq CompletedFileIdentity
identity_eq = record { beq = identity_beq; beq_iff = identity_beq_iff }

-- `{:x}` of a number below 16.
abbrev hex_digit : ℕ → ℕ
hex_digit n = if ltb n 10 then 48 + n else 87 + n

unfoldable pub hex_lower : List ℕ → Text
hex_lower [] = []
hex_lower (byte ∷ bytes) = hex_digit (byte / 16) ∷ hex_digit (byte % 16) ∷ hex_lower bytes

unfoldable pub identity_from_hashed_entry : Text → HashedFileEntry → CompletedFileIdentity
identity_from_hashed_entry mode entry = record {
  mode = mode;
  relative_path = entry.relative_path;
  size_bytes = entry.size_bytes;
  blake3_hash = entry.blake3_hash;
}

module _ {W : Type 0} (host : Host W) where
  -- The files as they are at the start of a call that reads them.
  abbrev pub files_in : W → Files W
  files_in w = record {
    exists = λ p. host.env.exists p w;
    len = λ p. host.volume.len p w;
    reads = λ p. host.reads p w;
    blake3 = host.blake3;
    check_interrupt = host.env.check_interrupt;
  }

  abbrev pub digest : FilePath → Exec W (List ℕ)
  digest path s = digest_file_with_interrupt (files_in s.world) path s

  unfoldable pub hash_file_hex_with_interrupt : FilePath → Exec W Text
  unfolding digest_file_with_interrupt hex_lower
  hash_file_hex_with_interrupt path = do bytes ← digest path; pure (hex_lower bytes)

  -- The loop, with the entries hashed so far.
  unfoldable pub hash_entries :
      FilePath → List FileEntry → List HashedFileEntry → Exec W (List HashedFileEntry)
  unfolding hash_file_hex_with_interrupt
  hash_entries source_root [] hashed = pure hashed
  hash_entries source_root (entry ∷ entries) hashed = do
    attempt host.env.check_interrupt
    hash ← hash_file_hex_with_interrupt (join source_root entry.relative_path)
    attempt host.env.check_interrupt
    hash_entries source_root entries (
        hashed
        ++ (record {
          relative_path = entry.relative_path;
          size_bytes = entry.size_bytes;
          blake3_hash = hash;
        }
            ∷ []))

  -- `hash_source_entries_with_options`; without entries nothing is hashed, with or without a
  -- progress bar.
  unfoldable pub hash_source_entries : FilePath → List FileEntry → Exec W (List HashedFileEntry)
  unfolding hash_entries
  hash_source_entries source_root entries = hash_entries source_root entries []
