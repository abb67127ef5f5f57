-- ===== src/Conflict.antt =====
-- src/conflict.rs: the files of a batch that are at their places in the destination already. Each
-- parent directory is listed once. Printing is not modelled.
pub mod Search
use vibe_caravan.Prelude.{
  ℕ, ◌+◌, ◌⊎◌, inl, inr, Bool, true, false, ◌&&◌, not, Option, none, some, List, [], ◌∷◌, ◌++◌,
  Text, text_eq, path_eq, ◌==◌, FilePath, parent, join, file_name, nat_beq, length, sort_by,
  path_cmp, map, select, contains, is_empty, if◌then◌else◌,
}
use vibe_caravan.Error.{IoError}
use vibe_caravan.Models.HashMap.{HashMap, get, insert}
use vibe_caravan.Models.Batch.{FileEntry, Batch}
use vibe_caravan.Platform.Host.{Host, DirEntry}

pub record SizeMismatch : Type 0 where
  pub destination : FilePath
  pub source_size : ℕ
  pub destination_size : ℕ

pub record ConflictReport : Type 0 where
  pub existing_files : List FilePath
  pub size_mismatches : List SizeMismatch
  pub total_conflicts : ℕ
  pub has_conflicts : Bool
  pub scanned_parent_directories : ℕ

-- `ConflictReport::new`.
abbrev pub no_report : ConflictReport
no_report = record {
  existing_files = [];
  size_mismatches = [];
  total_conflicts = 0;
  has_conflicts = false;
  scanned_parent_directories = 0;
}

abbrev pub add_existing_file : FilePath → ConflictReport → ConflictReport
add_existing_file path r = record r {
  existing_files = r.existing_files ++ (path ∷ []);
  total_conflicts = r.total_conflicts + 1;
  has_conflicts = true;
}

abbrev add_size_mismatch : FilePath → ℕ → ℕ → ConflictReport → ConflictReport
add_size_mismatch path source_size dest_size r = record r {
  size_mismatches =
      r.size_mismatches
      ++ (record { destination = path; source_size = source_size; destination_size = dest_size }
          ∷ []);
}

abbrev count_directory : ConflictReport → ConflictReport
count_directory r = record r { scanned_parent_directories = r.scanned_parent_directories + 1 }

-- A file with its place and the name there.
pub record PlacedFile : Type 0 where
  pub file_entry : FileEntry
  pub dest_path : FilePath
  pub file_name : Text

abbrev pub Groups : Type 0
Groups = HashMap FilePath (List PlacedFile)

-- `grouped.entry(parent_dir).or_default().push(file)`.
abbrev pub push_group : FilePath → PlacedFile → Groups → Groups
push_group dir f [] = (dir, f ∷ []) ∷ []
push_group dir f ((d, fs) ∷ rest) =
    if d == dir then (d, fs ++ (f ∷ [])) ∷ rest else (d, fs) ∷ push_group dir f rest

abbrev pub parent_dir : FilePath → FilePath → FilePath
parent_dir dest_root [] = dest_root
parent_dir dest_root (c ∷ rest) = parent (c ∷ rest)

abbrev pub place_file : FilePath → FileEntry → FilePath → Option Text → Groups → Groups
place_file dest_root entry path none groups = groups
place_file dest_root entry path (some name) groups =
    push_group (parent_dir dest_root path)
      (record { file_entry = entry; dest_path = path; file_name = name }) groups

unfoldable pub group_files : FilePath → List FileEntry → Groups → Groups
group_files dest_root [] groups = groups
group_files dest_root (entry ∷ rest) groups = group_files dest_root rest (
    place_file dest_root entry (join dest_root entry.relative_path)
      (file_name (join dest_root entry.relative_path)) groups)

-- The tree map lists its groups in the order of the directories.
unfoldable pub group_files_by_destination_parent : Batch → FilePath → Groups
unfolding group_files
group_files_by_destination_parent batch dest_root =
    sort_by (λ a b. path_cmp a.0 b.0) (group_files dest_root batch.files [])

module _ {W : Type 0} (host : Host W) where
  unfoldable pub filename_lookup_key : Text → Text
  filename_lookup_key name = if host.is_windows then host.to_lowercase name else name

  -- The loop over the entries of a directory.
  unfoldable pub index_entries :
      List (Option DirEntry) → HashMap Text DirEntry → HashMap Text DirEntry
  unfolding filename_lookup_key
  index_entries [] index = index
  index_entries (none ∷ rest) index = index_entries rest index
  index_entries (some e ∷ rest) index =
      index_entries rest (insert index (filename_lookup_key e.file_name) e)

  unfoldable pub build_directory_index : FilePath → W → IoError ⊎ HashMap Text DirEntry
  unfolding index_entries
  build_directory_index dir w = elim (host.read_dir dir w) [
    | inl e ↦ inl e
    | inr entries ↦ inr (index_entries entries [])
  ]

  abbrev compare_size : PlacedFile → Option ℕ → ConflictReport → ConflictReport
  compare_size f none r = r
  compare_size f (some dest_size) r =
      if not (nat_beq dest_size f.file_entry.size_bytes)
      then add_size_mismatch f.dest_path f.file_entry.size_bytes dest_size r
      else r

  -- The body of the inner loop, given the entry of the index.
  abbrev pub note_file : PlacedFile → Option DirEntry → W → ConflictReport → ConflictReport
  note_file f none w r = r
  note_file f (some e) w r =
      if e.is_file && not e.is_symlink
      then compare_size f (host.symlink_len f.dest_path w) (add_existing_file f.dest_path r)
      else add_existing_file f.dest_path r

  unfoldable pub note_files :
      List PlacedFile → HashMap Text DirEntry → W → ConflictReport → ConflictReport
  unfolding filename_lookup_key
  note_files [] index w r = r
  note_files (f ∷ fs) index w r =
      note_files fs index w (note_file f (get index (filename_lookup_key f.file_name)) w r)

  -- A directory that cannot be listed has no conflicts.
  abbrev pub note_directory :
      List PlacedFile → IoError ⊎ HashMap Text DirEntry → W → ConflictReport → ConflictReport
  note_directory fs (inl e) w r = r
  note_directory fs (inr index) w r = note_files fs index w r

  unfoldable pub note_groups : Groups → W → ConflictReport → ConflictReport
  unfolding note_files build_directory_index
  note_groups [] w r = r
  note_groups ((dir, fs) ∷ rest) w r =
      note_groups rest w (note_directory fs (build_directory_index dir w) w (count_directory r))

  unfoldable pub detect_batch_conflicts : Batch → FilePath → W → ConflictReport
  unfolding note_groups group_files_by_destination_parent
  detect_batch_conflicts batch dest_root w =
      if not (host.env.exists dest_root w)
      then no_report
      else note_groups (group_files_by_destination_parent batch dest_root) w no_report
