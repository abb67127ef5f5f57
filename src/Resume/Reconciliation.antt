-- ===== src/Resume/Reconciliation.antt =====
-- src/resume/reconciliation.rs: the planned files of a batch against the destination. A relative
-- path stands where the source puts its rendering as a text.
use mathlib.Core.List.{append-nil, append_assoc}
use vibe_caravan.Prelude.{
  ◌≡◌, ◌↔◌, refl, sym, ◌∙◌, inl, inr, Bool, true, false, ◌&&◌, not, Option, none, some, List, [],
  ◌∷◌, ◌++◌, arith, FilePath, join, nat_beq, Option-cases, if◌then◌else◌, is_empty, All,
}
use vibe_caravan.Models.Batch.{FileEntry, Batch}
use vibe_caravan.Platform.{Metadata, MetadataOf}

pub record ReconciliationResult : Type 0 where
  pub all_destination_files_ready : Bool
  pub missing_in_destination : List FilePath
  pub size_mismatches : List FilePath

-- The two lists that the loop fills.
pub record Lists : Type 0 where
  pub missing : List FilePath
  pub mismatched : List FilePath

abbrev add_missing : FilePath → Lists → Lists
add_missing rel l = record l { missing = l.missing ++ (rel ∷ []) }

abbrev add_mismatch : FilePath → Lists → Lists
add_mismatch rel l = record l { mismatched = l.mismatched ++ (rel ∷ []) }

-- The body of the loop, given the answer of the file system.
unfoldable pub reconcile_file : FileEntry → Option Metadata → Lists → Lists
reconcile_file entry none l = add_missing entry.relative_path l
reconcile_file entry (some meta) l =
    if not meta.is_file
    then add_missing entry.relative_path l
    else if not (nat_beq meta.len entry.size_bytes)
    then add_mismatch entry.relative_path l
    else l

unfoldable pub reconcile_files : MetadataOf → FilePath → List FileEntry → Lists → Lists
unfolding reconcile_file
reconcile_files metadata dest_root [] l = l
reconcile_files metadata dest_root (entry ∷ rest) l =
    reconcile_files metadata dest_root rest
      (reconcile_file entry (metadata (join dest_root entry.relative_path)) l)

abbrev no_lists : Lists
no_lists = record { missing = []; mismatched = [] }

unfoldable pub reconcile_batch_destination : MetadataOf → Batch → FilePath → ReconciliationResult
unfolding reconcile_files
reconcile_batch_destination metadata batch dest_root =
    let l = reconcile_files metadata dest_root batch.files no_lists in
    record {
      all_destination_files_ready = is_empty l.missing && is_empty l.mismatched;
      missing_in_destination = l.missing;
      size_mismatches = l.mismatched;
    }

-- A file of the plan stands at its place in the destination, as a file of its planned size.
pub record IsReady (metadata : MetadataOf) (dest_root : FilePath) (entry : FileEntry) : Type 0 where
  pub meta : Metadata
  pub found : metadata (join dest_root entry.relative_path) ≡ some meta
  pub is_file : meta.is_file ≡ true
  pub size : meta.len ≡ entry.size_bytes

-- The paths, in order, of the files that pass a test.
abbrev pub paths_where : (FileEntry → Bool) → List FileEntry → List FilePath
paths_where p [] = []
paths_where p (f ∷ fs) = let rest = paths_where p fs in if p f then f.relative_path ∷ rest else rest

module _ (metadata : MetadataOf) (dest_root : FilePath) where
  -- The places of the files that are absent, or no regular files.
  abbrev pub is_missing : FileEntry → Bool
  is_missing entry = elim (metadata (join dest_root entry.relative_path)) [
    | none ↦ true
    | some m ↦ not m.is_file
  ]

  -- The places of the regular files that have another size.
  abbrev pub is_mismatched : FileEntry → Bool
  is_mismatched entry = elim (metadata (join dest_root entry.relative_path)) [
    | none ↦ false
    | some m ↦ m.is_file && not (nat_beq m.len entry.size_bytes)
  ]

  reconcile_file-missing :
      (f : FileEntry) (l : Lists) (ps : List FilePath)
      → (reconcile_file f (metadata (join dest_root f.relative_path)) l).missing ++ ps
        ≡ l.missing ++ (if is_missing f then f.relative_path ∷ ps else ps)
  unfolding reconcile_file
  reconcile_file-missing f l ps = ground (arith, append_assoc l.missing (f.relative_path ∷ []) ps)

  reconcile_file-mismatched :
      (f : FileEntry) (l : Lists) (ps : List FilePath)
      → (reconcile_file f (metadata (join dest_root f.relative_path)) l).mismatched ++ ps
        ≡ l.mismatched ++ (if is_mismatched f then f.relative_path ∷ ps else ps)
  unfolding reconcile_file
  reconcile_file-mismatched f l ps =
      ground (arith, append_assoc l.mismatched (f.relative_path ∷ []) ps)

  reconcile_files-missing :
      (fs : List FileEntry) (l : Lists)
      → (reconcile_files metadata dest_root fs l).missing ≡ l.missing ++ paths_where is_missing fs
  unfolding reconcile_files
  reconcile_files-missing [] l = sym (append-nil l.missing)
  reconcile_files-missing (f ∷ fs) l =
      reconcile_files-missing fs (reconcile_file f (metadata (join dest_root f.relative_path)) l)
      ∙ reconcile_file-missing f l (paths_where is_missing fs)

  reconcile_files-mismatched :
      (fs : List FileEntry) (l : Lists)
      → (reconcile_files metadata dest_root fs l).mismatched
        ≡ l.mismatched ++ paths_where is_mismatched fs
  unfolding reconcile_files
  reconcile_files-mismatched [] l = sym (append-nil l.mismatched)
  reconcile_files-mismatched (f ∷ fs) l =
      reconcile_files-mismatched fs (reconcile_file f (metadata (join dest_root f.relative_path)) l)
      ∙ reconcile_file-mismatched f l (paths_where is_mismatched fs)

  IsReady-iff :
      (f : FileEntry)
      → IsReady metadata dest_root f ↔ ((is_missing f ≡ false) × (is_mismatched f ≡ false))
  IsReady-iff f = elim (Option-cases (metadata (join dest_root f.relative_path))) [
    | inl e ↦ (λ r. absurd (ground (arith, e, r.found)), λ h. absurd (ground arith))
    | inr (m, e) ↦ (
      λ r. (ground (arith, r.found), ground (arith, r.found, r.size)),
      λ h. record { meta = m; found = e; is_file = ground arith; size = ground arith },
    )
  ]

  All-IsReady_iff :
      (fs : List FileEntry)
      → ((is_empty (paths_where is_missing fs) && is_empty (paths_where is_mismatched fs)) ≡ true)
        ↔ All (IsReady metadata dest_root) fs
  All-IsReady_iff [] = (λ h. tt, λ h. refl)
  All-IsReady_iff (f ∷ fs) = (
    λ h. ((IsReady-iff f).1 (ground arith, ground arith), (All-IsReady_iff fs).0 (ground arith)),
    λ h. let (a, b) = (IsReady-iff f).0 h.0 in ground (arith, a, b, (All-IsReady_iff fs).1 h.1),
  )

-- Reconciliation lists, in the order of the batch, the files that are absent from the destination
-- or no regular files there, and those of another size; and it calls the destination ready
-- exactly when every file of the batch is there with its planned size.
pub reconcile_correct :
    (metadata : MetadataOf) (batch : Batch) (dest_root : FilePath)
    → let r = reconcile_batch_destination metadata batch dest_root in
      (r.missing_in_destination ≡ paths_where (is_missing metadata dest_root) batch.files)
      × (r.size_mismatches ≡ paths_where (is_mismatched metadata dest_root) batch.files)
      × ((r.all_destination_files_ready ≡ true) ↔ All (IsReady metadata dest_root) batch.files)
unfolding reconcile_batch_destination
reconcile_correct metadata batch dest_root =
    let missing = reconcile_files-missing metadata dest_root batch.files no_lists in
    let mismatched = reconcile_files-mismatched metadata dest_root batch.files no_lists in
    (missing, mismatched, rw (missing, mismatched) (All-IsReady_iff metadata dest_root batch.files))
