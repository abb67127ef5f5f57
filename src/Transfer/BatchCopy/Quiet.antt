-- ===== src/Transfer/BatchCopy/Quiet.antt =====
-- src/transfer: the copying of a batch leaves a file alone that is none of its places and none of
-- its temporary files.
use vibe_caravan.Prelude.{
  ◌≡◌, Bool, false, Option, none, some, List, [], ◌∷◌, FilePath, path_eq, ◌==◌, join, contains,
  sort_by, path_cmp,
}
use vibe_caravan.Error.{CaravanError, IoError, is_not_found}
use vibe_caravan.Models.Batch.{FileEntry, Batch}
use vibe_caravan.Platform.{Env}
use vibe_caravan.Platform.Volume.{Volume, Content, VolumeLaws}
use vibe_caravan.Exec.{attempt, call, raise, pure, ◌>>=◌}
use vibe_caravan.Exec.Within.{Within-pure, Within-raise, Within-if, Within-when}
use vibe_caravan.Exec.Quiet.{IsQuiet-preorder, Quiet, Quiet-call, Quiet-attempt, Quiet-bind}
use vibe_caravan.Transfer.{LocalFsCopyBackend}
use vibe_caravan.Transfer.Copier.{FileCopier, copy_file_inner}
use vibe_caravan.Transfer.Copier.Contract.{IsCopier, copy_file_inner-IsCopier}
use vibe_caravan.Transfer.AtomicCopy.{
  temp_destination_path, stale_error, copy_error, flush_error, finalize_error, failure_of,
  unless_missing, clear_stale_temp_file, or_discard, copy_through, copy_file_atomically,
}
use vibe_caravan.Transfer.BatchCopy.{
  create_error, sync_error, insert_path, raise_some, sync_each, sync_parent_directories,
  create_parent, parent_of, touch, copy_one, copy_files, copy_batch_with_components_and_durability,
  copy_batch,
}

-- The file is no place below the root, and no temporary file of one.
pub record IsElsewhere (root q : FilePath) : Type 0 where
  pub place : (p : FilePath) → (join root p == q) ≡ false
  pub temp : (p : FilePath) → (temp_destination_path (join root p) == q) ≡ false

module _ {W : Type 0} (env : Env W) (volume : Volume W) (content : FilePath → W → Content)
    (laws : VolumeLaws env volume content) (q : FilePath) where
  module _ (temp : FilePath) (apart : (temp == q) ≡ false) where
    pub Quiet-remove : Quiet content q (call (env.remove_file temp))
    Quiet-remove =
        Quiet-call content q (env.remove_file temp) (λ w. laws.removed_other temp q w apart)

    Quiet-or_discard :
        (error : IoError → CaravanError) (o : Option IoError)
        → Quiet content q (or_discard env volume temp error o)
    Quiet-or_discard error none = Within-pure (IsQuiet-preorder content q) tt
    Quiet-or_discard error (some e) =
        Quiet-bind content q (call (env.remove_file temp)) (λ ignored. raise (error e)) Quiet-remove
          (λ ignored. Within-raise (IsQuiet-preorder content q) (error e))

    Quiet-unless_missing :
        (error : IoError → CaravanError) (o : Option IoError)
        → Quiet content q (unless_missing env volume error o)
    Quiet-unless_missing error none = Within-pure (IsQuiet-preorder content q) tt
    Quiet-unless_missing error (some e) =
        Within-if (IsQuiet-preorder content q) (is_not_found e) (pure tt) (raise (error e))
          (Within-pure (IsQuiet-preorder content q) tt)
          (Within-raise (IsQuiet-preorder content q) (error e))

    renamed-same :
        (destination : FilePath)
        → (destination == q) ≡ false
        → (w : W) → content q (volume.rename temp destination w).1 ≡ content q w
    renamed-same destination other w = laws.rename_other temp destination q w apart other

    -- One call and the handling of its answer.
    Quiet-step :
        {A : Type 0} (f : W → A × W) (error : IoError → CaravanError) (answer : A → Option IoError)
        → ((w : W) → content q (f w).1 ≡ content q w)
        → Quiet content q (call f >>= λ a. or_discard env volume temp error (answer a))
    Quiet-step f error answer h =
        Quiet-bind content q (call f) (λ a. or_discard env volume temp error (answer a))
          (Quiet-call content q f h) (λ a. Quiet-or_discard error (answer a))

    Quiet-copy_through :
        (copier : FileCopier W) (source destination : FilePath) (durable : Bool)
        → IsCopier content copier
        → (destination == q) ≡ false
        → Quiet content q (copy_through env volume copier source temp destination durable)
    unfolding clear_stale_temp_file
    Quiet-copy_through copier source destination durable contract other =
        Quiet-bind content q _ _
          (Quiet-bind content q (call (env.remove_file temp))
            (unless_missing env volume (stale_error destination temp)) Quiet-remove
            (Quiet-unless_missing (stale_error destination temp)))
          λ _.
            Quiet-bind content q _ _
              (Quiet-step (copier source temp) (copy_error source destination) failure_of
                (λ w. contract.other source temp q w apart))
              λ _.
                Quiet-bind content q _ _
                  (Within-when (IsQuiet-preorder content q) durable _ (
                    Quiet-step (volume.sync_file_data temp) (flush_error destination) (λ o. o)
                      (λ w. laws.synced temp q w)))
                  λ _.
                    Quiet-step (volume.rename temp destination) (finalize_error destination)
                      (λ o. o) (renamed-same destination other)

  Quiet-raise_some :
      (error : IoError → CaravanError) (o : Option IoError) → Quiet content q (raise_some error o)
  Quiet-raise_some error none = Within-pure (IsQuiet-preorder content q) tt
  Quiet-raise_some error (some e) = Within-raise (IsQuiet-preorder content q) (error e)

  Quiet-interrupt : Quiet content q (attempt env.check_interrupt)
  Quiet-interrupt = Quiet-attempt content q env.check_interrupt (laws.interrupt_same q)

  Quiet-sync_each : (dirs : List FilePath) → Quiet content q (sync_each env volume dirs)
  Quiet-sync_each [] = Within-pure (IsQuiet-preorder content q) tt
  Quiet-sync_each (dir ∷ dirs) =
      Quiet-bind content q _ _
        (Quiet-call content q (volume.sync_directory dir) (laws.directory_synced dir q))
        λ answer.
          Quiet-bind content q _ _ (Quiet-raise_some (sync_error dir) answer)
            λ _. Quiet-sync_each dirs

  Quiet-create_parent :
      (rel : FilePath) (dir : Option FilePath) (created : List FilePath)
      → Quiet content q (create_parent env volume rel dir created)
  Quiet-create_parent rel none created = Within-pure (IsQuiet-preorder content q) created
  Quiet-create_parent rel (some dir) created =
      Within-if (IsQuiet-preorder content q) (contains created dir) _ _
        (Within-pure (IsQuiet-preorder content q) created)
        (Quiet-bind content q _ _
          (Quiet-call content q (volume.create_dir_all dir) (laws.created dir q))
          λ answer.
            Quiet-bind content q _ _ (Quiet-raise_some (create_error dir rel) answer)
              λ _. Within-pure (IsQuiet-preorder content q) (insert_path dir created))

  module _ (root : FilePath) (elsewhere : IsElsewhere root q) (copier : FileCopier W)
      (contract : IsCopier content copier) (source_root : FilePath) (durable : Bool) where
    Quiet-copy_one :
        (file : FileEntry) (created : List FilePath)
        → Quiet content q (copy_one env volume copier source_root root durable file created)
    unfolding copy_file_atomically
    Quiet-copy_one file created = Quiet-bind content q _ _ Quiet-interrupt λ _.
        Quiet-bind content q _ _
          (Quiet-create_parent file.relative_path (parent_of (join root file.relative_path))
            created)
          λ created'.
            Quiet-bind content q _ _
              (Quiet-copy_through (temp_destination_path (join root file.relative_path))
                (elsewhere.temp file.relative_path) copier (join source_root file.relative_path)
                (join root file.relative_path) durable contract
                (elsewhere.place file.relative_path))
              λ _. Within-pure (IsQuiet-preorder content q) created'

    Quiet-copy_files :
        (files : List FileEntry) (created touched : List FilePath)
        → Quiet content q
            (copy_files env volume copier source_root root durable files created touched)
    unfolding copy_files
    Quiet-copy_files [] created touched = Within-pure (IsQuiet-preorder content q) touched
    Quiet-copy_files (file ∷ files) created touched =
        Quiet-bind content q _ _ (Quiet-copy_one file created) λ created'.
          Quiet-copy_files files created'
            (touch durable (parent_of (join root file.relative_path)) touched)

  pub Quiet-copy_batch :
      (backend : LocalFsCopyBackend) (bt : Batch) (source_root root : FilePath)
      → IsElsewhere root q
      → Quiet content q (copy_batch env volume backend bt source_root root)
  unfolding copy_batch copy_batch_with_components_and_durability sync_parent_directories
  Quiet-copy_batch backend bt source_root root elsewhere =
      Quiet-bind content q _ _
        (Quiet-copy_files root elsewhere (copy_file_inner env volume backend.file_copier)
          (copy_file_inner-IsCopier env volume content laws backend.file_copier) source_root
          backend.durable_writes bt.files [] [])
        λ touched.
          Within-when (IsQuiet-preorder content q) backend.durable_writes _
            (Quiet-sync_each (sort_by path_cmp touched))
