-- ===== src/Transfer/BatchCopy/Complete.antt =====
-- src/transfer/batch_copy.rs: the copying of a batch under the relation of Whole, and its result.
use mathlib.Core.Path.{subst}
use vibe_caravan.Prelude.{
  ◌≡◌, sym, ap, ◌∙◌, ◌⊎◌, inl, inr, Bool, true, Option, none, some, List, [], ◌∷◌, ◌++◌, arith,
  text_eq, FilePath, path_eq, join, contains, All, sort_by, path_cmp,
}
use vibe_caravan.Error.{Result, ok, CaravanError, IoError}
use vibe_caravan.Models.Batch.{FileEntry, Batch}
use vibe_caravan.Platform.{Env}
use vibe_caravan.Platform.Volume.{Volume, Content, VolumeLaws}
use vibe_caravan.Exec.{Sys, Exec, attempt, call, pure, when, ◌>>=◌}
use vibe_caravan.Exec.Within.{
  IsPreorder, Within, Within-pure, Within-raise, Within-if, Within-when, Within-bind, >>=-ok,
}
use vibe_caravan.Transfer.{LocalFsCopyBackend}
use vibe_caravan.Transfer.Copier.{FileCopier, copy_file_inner}
use vibe_caravan.Transfer.Copier.Contract.{IsCopier, copy_file_inner-IsCopier}
use vibe_caravan.Transfer.AtomicCopy.{temp_destination_path, copy_file_atomically}
use vibe_caravan.Transfer.AtomicCopy.Lands.{Lands, Lands-copy_through}
use vibe_caravan.Transfer.BatchCopy.{
  create_error, sync_error, insert_path, raise_some, sync_each, sync_parent_directories,
  create_parent, parent_of, touch, copy_one, copy_files, copy_batch_with_components_and_durability,
  copy_batch,
}
use vibe_caravan.Transfer.BatchCopy.Whole.{
  paths_of, AreApart, IsNoTemp, IsWhole, WholeFiles, IsCopy, WholeFiles-preorder, source-kept,
}

append_cancel {ℓ} : {A : Type ℓ} (xs ys zs : List A) → xs ++ ys ≡ xs ++ zs → ys ≡ zs
append_cancel [] ys zs h = h
append_cancel (x ∷ xs) ys zs h = append_cancel xs ys zs (ground (arith, h))

module _ {W : Type 0} (env : Env W) (volume : Volume W) (content : FilePath → W → Content)
    (laws : VolumeLaws env volume content) (source_root destination_root : FilePath)
    (rels : List FilePath) (apart : AreApart source_root destination_root rels) where
  abbrev Rel : Sys W → Sys W → Type 0
  Rel = WholeFiles content source_root destination_root rels

  order : IsPreorder Rel
  order = WholeFiles-preorder content source_root destination_root rels apart

  -- A step that changes no file.
  idle :
      {A : Type 0} (m : Exec W A)
      → ((q : FilePath) (s : Sys W) → content q (m s).1.world ≡ content q s.world)
      → Within Rel m
  idle m h = record { at = λ s q n. inl (h q s) }

  WholeFiles-raise_some :
      (error : IoError → CaravanError) (o : Option IoError) → Within Rel (raise_some error o)
  WholeFiles-raise_some error none = Within-pure order tt
  WholeFiles-raise_some error (some e) = Within-raise order (error e)

  WholeFiles-sync_each : (dirs : List FilePath) → Within Rel (sync_each env volume dirs)
  WholeFiles-sync_each [] = Within-pure order tt
  WholeFiles-sync_each (dir ∷ dirs) =
      Within-bind order _ _
        (idle (call (volume.sync_directory dir)) (λ q s. laws.directory_synced dir q s.world))
        λ answer.
          Within-bind order _ _ (WholeFiles-raise_some (sync_error dir) answer)
            λ done. WholeFiles-sync_each dirs

  WholeFiles-create_parent :
      (rel : FilePath) (o : Option FilePath) (created : List FilePath)
      → Within Rel (create_parent env volume rel o created)
  WholeFiles-create_parent rel none created = Within-pure order created
  WholeFiles-create_parent rel (some dir) created =
      Within-if order (contains created dir) _ _ (Within-pure order created) (
        Within-bind order _ _
          (idle (call (volume.create_dir_all dir)) (λ q s. laws.created dir q s.world))
          λ answer.
            Within-bind order _ _ (WholeFiles-raise_some (create_error dir rel) answer)
              λ done. Within-pure order (insert_path dir created))

  module _ (copier : FileCopier W) (contract : IsCopier content copier) (durable : Bool) where
    abbrev copied_at : FilePath → Exec W (Unit {0})
    copied_at r =
        copy_file_atomically env volume copier (join source_root r) (join destination_root r)
          durable

    copied-Lands :
        (r : FilePath) (s : Sys W)
        → contains rels r ≡ true
        → Lands env volume content laws
            (join source_root r)
            (temp_destination_path (join destination_root r))
            (join destination_root r)
            s.world
            (copied_at r s)
    unfolding copy_file_atomically
    copied-Lands r s m =
        Lands-copy_through env volume content laws (join source_root r)
          (temp_destination_path (join destination_root r)) (join destination_root r) copier
          contract (apart.source_temp r r m m) durable s

    WholeFiles-copied : (r : FilePath) → contains rels r ≡ true → Within Rel (copied_at r)
    WholeFiles-copied r m = record {
      at = λ s q n. elim ((copied-Lands r s m).0 q (n r m)) [
        | inl same ↦ inl same
        | inr (place, whole) ↦ inr (record { rel = r; among = m; place = place; whole = whole })
      ];
    }

    -- Interrupt check and directory.
    abbrev prepare : FilePath → List FilePath → Exec W (List FilePath)
    prepare rel created = attempt env.check_interrupt >>= λ go_on.
        create_parent env volume rel (parent_of (join destination_root rel)) created

    WholeFiles-interrupt : Within Rel (attempt env.check_interrupt)
    WholeFiles-interrupt = idle (attempt env.check_interrupt) (λ q s. laws.interrupt_same q s.world)

    WholeFiles-copy_one :
        (file : FileEntry) (created : List FilePath)
        → contains rels file.relative_path ≡ true
        → Within Rel (copy_one env volume copier source_root destination_root durable file created)
    WholeFiles-copy_one file created m = Within-bind order _ _ WholeFiles-interrupt λ go_on.
        Within-bind order _ _
          (WholeFiles-create_parent file.relative_path
            (parent_of (join destination_root file.relative_path)) created)
          λ dirs.
            Within-bind order _ _ (WholeFiles-copied file.relative_path m)
              λ done. Within-pure order dirs

    abbrev AreListed : List FileEntry → Type 0
    AreListed fs = All (λ f. contains rels f.relative_path ≡ true) fs

    WholeFiles-copy_files :
        (fs : List FileEntry) (created touched : List FilePath)
        → AreListed fs
        → Within Rel
            (copy_files env volume copier source_root destination_root durable fs created touched)
    unfolding copy_files
    WholeFiles-copy_files [] created touched m = Within-pure order touched
    WholeFiles-copy_files (file ∷ fs) created touched m =
        Within-bind order _ _ (WholeFiles-copy_one file created m.0) λ dirs.
          WholeFiles-copy_files fs dirs
            (touch durable (parent_of (join destination_root file.relative_path)) touched) m.1

    abbrev IsCopied : FileEntry → Sys W → Sys W → Type 0
    IsCopied = IsCopy content source_root destination_root

    IsCopied-later :
        (f : FileEntry) (s t u : Sys W)
        → contains rels f.relative_path ≡ true
        → Rel s t
        → IsCopied f s t
        → Rel t u
        → IsCopied f s u
    IsCopied-later f s t u m h c k =
        elim (k (join destination_root f.relative_path)
          (λ r m'. apart.place_temp r f.relative_path m' m)) [
            | inl same ↦ same ∙ c
            | inr x ↦
                let rel : f.relative_path ≡ x.rel =
                  append_cancel destination_root f.relative_path x.rel x.place in
                x.whole
                ∙ source-kept content source_root destination_root rels apart x.rel s t x.among h
                ∙ ap (λ (r : FilePath). content (join source_root r) s.world) (sym rel)
          ]

    -- A later start is as good, since no source changes.
    IsCopied-earlier :
        (f : FileEntry) (s t u : Sys W)
        → contains rels f.relative_path ≡ true
        → Rel s t
        → IsCopied f t u
        → IsCopied f s u
    IsCopied-earlier f s t u m h c =
        c ∙ source-kept content source_root destination_root rels apart f.relative_path s t m h

    copy_one_ok :
        (file : FileEntry) (created : List FilePath) (s : Sys W) {dirs : List FilePath}
        → contains rels file.relative_path ≡ true
        → (copy_one env volume copier source_root destination_root durable file created s).0
          ≡ ok dirs
        → IsCopied file s
            (copy_one env volume copier source_root destination_root durable file created s).1
    copy_one_ok file created s {dirs = dirs} m h =
        let first = attempt env.check_interrupt in
        let second : Unit {0} → Exec W (List FilePath) = λ go_on.
          create_parent env volume file.relative_path
            (parent_of (join destination_root file.relative_path)) created in
        let third : List FilePath → Exec W (List FilePath) =
          λ d. copied_at file.relative_path >>= λ done. pure d in
        let (go_on, e1, f1) = >>=-ok first (λ u. second u >>= third) s {b = dirs} h in
        let s1 = (first s).1 in
        let (d, e2, f2) =
          >>=-ok (second go_on) third s1 {b = dirs}
            (ap (λ (x : Result (List FilePath) × Sys W). x.0) (sym f1) ∙ h) in
        let s2 = (second go_on s1).1 in
        let (done, e3, f3) =
          >>=-ok (copied_at file.relative_path) (λ u. pure d) s2 {b = dirs}
            (ap (λ (x : Result (List FilePath) × Sys W). x.0) (sym f2 ∙ sym f1) ∙ h) in
        let placed = (copied-Lands file.relative_path s2 m).1 e3 in
        subst (λ (x : Result (List FilePath) × Sys W). IsCopied file s x.1) (sym (f1 ∙ f2 ∙ f3))
          (IsCopied-earlier file s s1 (copied_at file.relative_path s2).1 m
            (WholeFiles-interrupt.at s)
            (IsCopied-earlier file s1 s2 (copied_at file.relative_path s2).1 m
              ((WholeFiles-create_parent file.relative_path
                  (parent_of (join destination_root file.relative_path)) created).at
                s1)
              placed))

    copy_files_ok :
        (fs : List FileEntry) (created touched : List FilePath) (s : Sys W) {dirs : List FilePath}
        → AreListed fs
        → (copy_files env volume copier source_root destination_root durable fs created touched s).0
          ≡ ok dirs
        → All
            (λ f.
              IsCopied f s
                (copy_files env volume copier source_root destination_root durable fs created
                  touched s).1)
            fs
    unfolding copy_files
    copy_files_ok [] created touched s m h = tt
    copy_files_ok (file ∷ fs) created touched s {dirs = dirs} m h =
        let one = copy_one env volume copier source_root destination_root durable file created in
        let touched' =
          touch durable (parent_of (join destination_root file.relative_path)) touched in
        let rest : List FilePath → Exec W (List FilePath) =
          λ d. copy_files env volume copier source_root destination_root durable fs d touched' in
        let (d, e, f) = >>=-ok one rest s {b = dirs} h in
        let t = (one s).1 in
        let done = copy_one_ok file created s {dirs = d} m.0 e in
        let kept = (WholeFiles-copy_one file created m.0).at s in
        let others =
          copy_files_ok fs d touched' t {dirs = dirs} m.1
            (ap (λ (x : Result (List FilePath) × Sys W). x.0) (sym f) ∙ h) in
        subst (λ (x : Result (List FilePath) × Sys W). All (λ g. IsCopied g s x.1) (file ∷ fs))
          (sym f)
          (
            IsCopied-later file s t (rest d t).1 m.0 kept done
                ((WholeFiles-copy_files fs d touched' m.1).at t),
            earlier fs s t (rest d t).1 m.1 kept others,
          )
      where
        earlier :
            (gs : List FileEntry) (s0 t0 u0 : Sys W)
            → AreListed gs
            → Rel s0 t0
            → All (λ g. IsCopied g t0 u0) gs
            → All (λ g. IsCopied g s0 u0) gs
        earlier [] s0 t0 u0 m0 k0 h0 = tt
        earlier (g ∷ gs) s0 t0 u0 m0 k0 h0 =
            (IsCopied-earlier g s0 t0 u0 m0.0 k0 h0.0, earlier gs s0 t0 u0 m0.1 k0 h0.1)

    WholeFiles-sync :
        (dirs : List FilePath) → Within Rel (when durable (sync_parent_directories env volume dirs))
    unfolding sync_parent_directories
    WholeFiles-sync dirs =
        Within-when order durable _ (WholeFiles-sync_each (sort_by path_cmp dirs))

    later :
        (gs : List FileEntry) (s t u : Sys W)
        → AreListed gs
        → Rel s t
        → All (λ g. IsCopied g s t) gs
        → Rel t u
        → All (λ g. IsCopied g s u) gs
    later [] s t u m h c k = tt
    later (g ∷ gs) s t u m h c k = (IsCopied-later g s t u m.0 h c.0 k, later gs s t u m.1 h c.1 k)

    pub WholeFiles-copy :
        (batch : Batch)
        → AreListed batch.files
        → Within Rel (
            copy_batch_with_components_and_durability env volume batch source_root destination_root
              copier durable)
    unfolding copy_batch_with_components_and_durability
    WholeFiles-copy batch m =
        Within-bind order _ _ (WholeFiles-copy_files batch.files [] [] m) WholeFiles-sync

    pub copy_ok :
        (batch : Batch) (s : Sys W)
        → AreListed batch.files
        → (copy_batch_with_components_and_durability env volume batch source_root destination_root
            copier durable s).0
          ≡ ok tt
        → All
            (λ f.
              IsCopied f s
                (copy_batch_with_components_and_durability env volume batch source_root
                  destination_root copier durable s).1)
            batch.files
    unfolding copy_batch_with_components_and_durability
    copy_ok batch s m h =
        let loop =
          copy_files env volume copier source_root destination_root durable batch.files [] [] in
        let sync : List FilePath → Exec W (Unit {0}) =
          λ dirs. when durable (sync_parent_directories env volume dirs) in
        let (dirs, e, f) = >>=-ok loop sync s {b = tt} h in
        let copies = copy_files_ok batch.files [] [] s {dirs = dirs} m e in
        subst (λ (x : Result (Unit {0}) × Sys W). All (λ g. IsCopied g s x.1) batch.files) (sym f)
          (later batch.files s (loop s).1 (sync dirs (loop s).1).1 m
            ((WholeFiles-copy_files batch.files [] [] m).at s) copies
            ((WholeFiles-sync dirs).at (loop s).1))

listed_more :
    (x : FilePath) (rels : List FilePath) (fs : List FileEntry)
    → All (λ f. contains rels f.relative_path ≡ true) fs
    → All (λ f. contains (x ∷ rels) f.relative_path ≡ true) fs
listed_more x rels [] h = tt
listed_more x rels (f ∷ fs) h = (ground (arith, h.0), listed_more x rels fs h.1)

listed : (fs : List FileEntry) → All (λ f. contains (paths_of fs) f.relative_path ≡ true) fs
listed [] = tt
listed (f ∷ fs) = (
  ground (arith, path_eq.beq_iff f.relative_path f.relative_path),
  listed_more f.relative_path (paths_of fs) fs (listed fs),
)

module _ {W : Type 0} (env : Env W) (volume : Volume W) (content : FilePath → W → Content)
    (laws : VolumeLaws env volume content) (backend : LocalFsCopyBackend)
    (source_root destination_root : FilePath) (batch : Batch) where
  -- However the copying of a batch ends, by success, an error or an interrupt: every file that is
  -- not a temporary file of the batch is as it was, or it stands at the place of a file of the batch
  -- and has all the bytes that its source had. The condition: sources, places and temporary files
  -- of the batch are apart.
  pub copy_batch-IsWhole :
      AreApart source_root destination_root (paths_of batch.files)
      → (s : Sys W) (q : FilePath)
      → IsNoTemp content source_root destination_root (paths_of batch.files) q
      → let w = (copy_batch env volume backend batch source_root destination_root s).1.world in
        (content q w ≡ content q s.world)
        ⊎ IsWhole content source_root destination_root (paths_of batch.files) q s.world w
  unfolding copy_batch
  copy_batch-IsWhole apart s q n =
      (WholeFiles-copy env volume content laws source_root destination_root (paths_of batch.files)
          apart (copy_file_inner env volume backend.file_copier)
          (copy_file_inner-IsCopier env volume content laws backend.file_copier)
          backend.durable_writes batch (listed batch.files)).at
        s q n

  -- If the copying of a batch succeeds, every file of it stands at its place with the bytes that its
  -- source had before. The condition: sources, places and temporary files of the batch are apart.
  pub copy_batch-IsCopy :
      AreApart source_root destination_root (paths_of batch.files)
      → (s : Sys W) → (copy_batch env volume backend batch source_root destination_root s).0 ≡ ok tt
      → All
          (λ f.
            IsCopy content source_root destination_root f s
              (copy_batch env volume backend batch source_root destination_root s).1)
          batch.files
  unfolding copy_batch
  copy_batch-IsCopy apart s h =
      copy_ok env volume content laws source_root destination_root (paths_of batch.files) apart
        (copy_file_inner env volume backend.file_copier)
        (copy_file_inner-IsCopier env volume content laws backend.file_copier)
        backend.durable_writes batch s (listed batch.files) h
