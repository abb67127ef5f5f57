-- ===== src/SourceCompletion/Quiet.antt =====
-- src/source_completion: hashing changes no file, and of the ledger's updates only the ledger's own
-- file is written.
use vibe_caravan.Prelude.{List, [], ◌∷◌, ◌++◌, Text, FilePath, path_eq, join, is_empty}
use vibe_caravan.Models.Batch.{FileEntry, Batch, CompletedFileIdentity}
use vibe_caravan.Platform.Host.{Host, Json}
use vibe_caravan.Platform.Volume.{Content}
use vibe_caravan.Platform.Steady.{IsSteady}
use vibe_caravan.Exec.{attempt}
use vibe_caravan.Exec.Within.{Within-pure, Within-if, Within-when}
use vibe_caravan.Exec.Quiet.{IsQuiet, IsQuiet-preorder, Quiet, Quiet-attempt, Quiet-bind}
use vibe_caravan.AtomicWrite.Quiet.{IsUnwritten, Quiet-write_bytes}
use vibe_caravan.Verify.Quiet.{Within-digest}
use vibe_caravan.SourceCompletion.Ledger.{
  SourceCompletionLedger, ledger_path, load_ledger, persist_ledger,
}
use vibe_caravan.SourceCompletion.Identity.{
  files_in, digest, hex_lower, hash_file_hex_with_interrupt,
}
use vibe_caravan.SourceCompletion.Completion.{
  push_all, without_batch, identities_from_files, upsert_identities, mark_batch_completed,
  remove_batch_completed,
}

module _ {W : Type 0} (host : Host W) (content : FilePath → W → Content) (q : FilePath)
    (steady : IsSteady host content q) where
  pub Quiet-interrupt : Quiet content q (attempt host.env.check_interrupt)
  Quiet-interrupt =
      Quiet-attempt content q host.env.check_interrupt (steady.volume_laws.interrupt_same q)

  Quiet-digest : (path : FilePath) → Quiet content q (digest host path)
  Quiet-digest path = record {
    at = λ s.
        (Within-digest (files_in host s.world) (IsQuiet content q) (IsQuiet-preorder content q)
            Quiet-interrupt path).at
          s;
  }

  Quiet-hash : (path : FilePath) → Quiet content q (hash_file_hex_with_interrupt host path)
  unfolding hash_file_hex_with_interrupt
  Quiet-hash path =
      Quiet-bind content q _ _ (Quiet-digest path)
        λ bytes. Within-pure (IsQuiet-preorder content q) (hex_lower bytes)

  Quiet-identities :
      (json : Json SourceCompletionLedger) (source_root : FilePath) (mode : Text)
      (files : List FileEntry) (identities : List CompletedFileIdentity)
      → Quiet content q (identities_from_files host json source_root mode files identities)
  unfolding identities_from_files
  Quiet-identities json source_root mode [] identities =
      Within-pure (IsQuiet-preorder content q) identities
  Quiet-identities json source_root mode (file ∷ files) identities =
      Quiet-bind content q _ _ Quiet-interrupt λ _.
        Quiet-bind content q _ _ (Quiet-hash (join source_root file.relative_path)) λ hash.
          Quiet-identities json source_root mode files (
            identities
            ++ (record {
              mode = mode;
              relative_path = file.relative_path;
              size_bytes = file.size_bytes;
              blake3_hash = hash;
            }
                ∷ []))

  module _ (json : Json SourceCompletionLedger) (source_root : FilePath)
      (unwritten : IsUnwritten (ledger_path source_root) q) where
    Quiet-load_ledger : Quiet content q (load_ledger host json source_root)
    unfolding load_ledger
    Quiet-load_ledger = record { at = λ s. (IsQuiet-preorder content q).same s }

    Quiet-persist_ledger :
        (ledger : SourceCompletionLedger)
        → Quiet content q (persist_ledger host json source_root ledger)
    unfolding persist_ledger
    Quiet-persist_ledger ledger =
        Quiet-write_bytes host content q steady (ledger_path source_root) (json.to_vec ledger)
          "source completion ledger" unwritten.target unwritten.temp

    Quiet-upsert_identities :
        (identities : List CompletedFileIdentity)
        → Quiet content q (upsert_identities host json source_root identities)
    unfolding upsert_identities
    Quiet-upsert_identities [] = Within-pure (IsQuiet-preorder content q) tt
    Quiet-upsert_identities (identity ∷ identities) =
        Quiet-bind content q _ _ Quiet-load_ledger λ ledger.
          Quiet-persist_ledger
            (record ledger { entries = push_all ledger.entries (identity ∷ identities) })

    pub Quiet-mark_batch_completed :
        (mode : Text) (bt : Batch)
        → Quiet content q (mark_batch_completed host json source_root mode bt)
    unfolding mark_batch_completed
    Quiet-mark_batch_completed mode bt =
        Quiet-bind content q _ _ (Quiet-identities json source_root mode bt.files [])
          λ identities. Quiet-upsert_identities identities

    pub Quiet-remove_batch_completed :
        (mode : Text) (bt : Batch)
        → Quiet content q (remove_batch_completed host json source_root mode bt)
    unfolding remove_batch_completed
    Quiet-remove_batch_completed mode bt =
        Within-if (IsQuiet-preorder content q) (is_empty bt.files) _ _
          (Within-pure (IsQuiet-preorder content q) tt)
          (Quiet-bind content q _ _ Quiet-load_ledger λ ledger.
            Within-when (IsQuiet-preorder content q) _ _
              (Quiet-persist_ledger (without_batch mode bt ledger)))
