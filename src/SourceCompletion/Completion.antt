-- ===== src/SourceCompletion/Completion.antt =====
-- src/source_completion/completion.rs: the files of a batch enter the ledger after a copy, and leave
-- it after a failed verification. A set of identities or paths is the list of its elements.
use vibe_caravan.Prelude.{
  ◌≡◌, refl, ap, ◌∙◌, ◌||◌, ◌&&◌, Bool, not, List, [], ◌∷◌, ◌++◌, map, arith, Text, text_eq,
  path_eq, ◌==◌, FilePath, join, nat_beq, length, is_empty, select, contains, contains-append,
  IsNodup, IsNodup-concat, Bool-cases, inl, inr, if◌then◌else◌,
}
use vibe_caravan.Models.Batch.{FileEntry, Batch, CompletedFileIdentity}
use vibe_caravan.Platform.Host.{Host, Json}
use vibe_caravan.Exec.{Exec, pure, attempt, when, ◌>>=◌, ◌>>◌}
use vibe_caravan.SourceCompletion.Ledger.{SourceCompletionLedger, load_ledger, persist_ledger}
use vibe_caravan.SourceCompletion.Identity.{identity_eq, hash_file_hex_with_interrupt}

-- `if completed_keys.insert(identity) { entries.push(identity) }`: the entries and the keys hold the
-- same identities.
abbrev pub push_new :
    List CompletedFileIdentity → CompletedFileIdentity → List CompletedFileIdentity
push_new entries identity =
    if contains entries identity then entries else entries ++ (identity ∷ [])

unfoldable pub push_all :
    List CompletedFileIdentity → List CompletedFileIdentity → List CompletedFileIdentity
push_all entries [] = entries
push_all entries (identity ∷ identities) = push_all (push_new entries identity) identities

abbrev pub is_retained : Text → List FilePath → CompletedFileIdentity → Bool
is_retained mode paths identity =
    not (identity.mode == mode && contains paths identity.relative_path)

abbrev paths_of : List FileEntry → List FilePath
paths_of fs = map (λ f. f.relative_path) fs

unfoldable pub without_batch : Text → Batch → SourceCompletionLedger → SourceCompletionLedger
without_batch mode batch ledger = record ledger {
  entries = select (is_retained mode (paths_of batch.files)) ledger.entries;
}

module _ {W : Type 0} (host : Host W) (json : Json SourceCompletionLedger) where
  -- The loop, with the identities made so far.
  unfoldable pub identities_from_files :
      FilePath
      → Text
      → List FileEntry
      → List CompletedFileIdentity
      → Exec W (List CompletedFileIdentity)
  unfolding hash_file_hex_with_interrupt
  identities_from_files source_root mode [] identities = pure identities
  identities_from_files source_root mode (file ∷ files) identities = do
    attempt host.env.check_interrupt
    hash ← hash_file_hex_with_interrupt host (join source_root file.relative_path)
    identities_from_files source_root mode files (
        identities
        ++ (record {
          mode = mode;
          relative_path = file.relative_path;
          size_bytes = file.size_bytes;
          blake3_hash = hash;
        }
            ∷ []))

  unfoldable pub upsert_identities : FilePath → List CompletedFileIdentity → Exec W (Unit {0})
  unfolding load_ledger persist_ledger push_all
  upsert_identities source_root [] = pure tt
  upsert_identities source_root (identity ∷ identities) = do
    ledger ← load_ledger host json source_root
    persist_ledger host json source_root
        (record ledger { entries = push_all ledger.entries (identity ∷ identities) })

  -- `mark_batch_completed_with_interrupt`.
  unfoldable pub mark_batch_completed : FilePath → Text → Batch → Exec W (Unit {0})
  unfolding identities_from_files upsert_identities
  mark_batch_completed source_root mode batch = do
    identities ← identities_from_files source_root mode batch.files []
    upsert_identities source_root identities

  abbrev pub persist_if_shorter :
      FilePath → SourceCompletionLedger → SourceCompletionLedger → Exec W (Unit {0})
  persist_if_shorter source_root before after =
      when (not (nat_beq (length after.entries) (length before.entries)))
        (persist_ledger host json source_root after)

  unfoldable pub remove_batch_completed : FilePath → Text → Batch → Exec W (Unit {0})
  unfolding load_ledger without_batch persist_ledger
  remove_batch_completed source_root mode batch =
      if is_empty batch.files
      then pure tt
      else load_ledger host json source_root >>= λ ledger.
          persist_if_shorter source_root ledger (without_batch mode batch ledger)

-- Into a list without repetition the upsert puts the new identities: an identity is in the result
-- exactly if it was there or is one of them, and none is there twice.
pub push_all-contains :
    (entries identities : List CompletedFileIdentity)
    → IsNodup entries
    → (i : CompletedFileIdentity)
    → (contains (push_all entries identities) i ≡ (contains entries i || contains identities i))
      × IsNodup (push_all entries identities)
unfolding push_all
push_all-contains entries [] n i = (ground arith, n)
push_all-contains entries (x ∷ xs) n i = elim (Bool-cases (contains entries x)) [
  | inl old ↦
      let (members, nodup) = push_all-contains entries xs n i in
      rw old (members ∙ ground (arith, identity_eq.beq_iff x i, old), nodup)
  | inr new ↦
      let (members, nodup) =
        push_all-contains (entries ++ (x ∷ [])) xs (IsNodup-concat entries x n new) i in
      rw new (members ∙ ground (arith, contains-append entries (x ∷ []) i), nodup)
]

-- After a failed verification no entry of the mode is left for a file of the batch, and every other
-- entry is left.
pub without_batch-contains :
    (mode : Text) (batch : Batch) (ledger : SourceCompletionLedger) (i : CompletedFileIdentity)
    → contains (without_batch mode batch ledger).entries i ≡ (
        contains ledger.entries i
        && not
            (i.mode == mode && contains (map (λ f. f.relative_path) batch.files) i.relative_path))
unfolding without_batch
without_batch-contains mode batch ledger i = kept ledger.entries
  where
    kept :
        (es : List CompletedFileIdentity)
        → contains (select (is_retained mode (paths_of batch.files)) es) i
          ≡ (contains es i && is_retained mode (paths_of batch.files) i)
    kept [] = refl
    kept (e ∷ es) = elim (Bool-cases (e == i)) [
      | inl same ↦
          let x : e ≡ i = (identity_eq.beq_iff e i).0 same in
          ground (arith, kept es, same, ap (is_retained mode (paths_of batch.files)) x)
      | inr other ↦ ground (arith, kept es, other)
    ]
