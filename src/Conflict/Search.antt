-- ===== src/Conflict/Search.antt =====
-- src/conflict.rs: the report against a search for each file on its own.
use vibe_caravan.Prelude.{
  ℕ, ◌≡◌, refl, ap, ◌∙◌, ◌⊎◌, inl, inr, Bool, true, false, ◌&&◌, ◌||◌, not, Option, none, some,
  List, [], ◌∷◌, ◌++◌, map, arith, Text, text_eq, path_eq, ◌==◌, FilePath, join, file_name, nat_beq,
  length, sort_by, insert_by, path_cmp, is_gt, select, contains, is_empty, contains-append,
  length-append, Bool-cases, All,
}
use vibe_caravan.Error.{IoError, is_not_found}
use vibe_caravan.Models.HashMap.{HashMap, get, insert, get-insert}
use vibe_caravan.Models.Batch.{FileEntry, Batch}
use vibe_caravan.Platform.Host.{Host, DirEntry}
use vibe_caravan.Conflict.{
  ConflictReport, no_report, add_existing_file, PlacedFile, Groups, push_group, parent_dir,
  place_file, group_files, group_files_by_destination_parent, filename_lookup_key, index_entries,
  compare_size, note_file, note_files, note_directory, note_groups, count_directory,
  detect_batch_conflicts,
}

module _ {W : Type 0} (host : Host W) where
  -- The directory has an entry with that name.
  abbrev pub has_name : List (Option DirEntry) → Text → Bool
  has_name [] key = false
  has_name (none ∷ rest) key = has_name rest key
  has_name (some e ∷ rest) key = filename_lookup_key host e.file_name == key || has_name rest key

  abbrev pub lists_name : IoError ⊎ List (Option DirEntry) → Text → Bool
  lists_name (inl e) key = false
  lists_name (inr entries) key = has_name entries key

  abbrev is_some : {A : Type 0} → Option A → Bool
  is_some none = false
  is_some (some a) = true

  get-index_entries :
      (es : List (Option DirEntry)) (m : HashMap Text DirEntry) (key : Text)
      → is_some (get (index_entries host es m) key) ≡ (has_name es key || is_some (get m key))
  unfolding index_entries
  get-index_entries [] m key = refl
  get-index_entries (none ∷ es) m key = get-index_entries es m key
  get-index_entries (some e ∷ es) m key = ground (
    arith,
    get-index_entries es (insert m (filename_lookup_key host e.file_name) e) key,
    get-insert m (filename_lookup_key host e.file_name) key e,
    text_eq.beq_iff (filename_lookup_key host e.file_name) key,
  )

  abbrev any : {A : Type 0} → (A → Bool) → List A → Bool
  any p [] = false
  any p (x ∷ xs) = p x || any p xs

  -- The counts of a report are those of its list.
  abbrev pub IsCounted : ConflictReport → Type 0
  IsCounted r =
      (r.total_conflicts ≡ length r.existing_files)
      × (r.has_conflicts ≡ not (is_empty r.existing_files))

  IsCounted-add :
      (p : FilePath) (r : ConflictReport) → IsCounted r → IsCounted (add_existing_file p r)
  IsCounted-add p r h =
      (omega (arith, h.0, length-append r.existing_files (p ∷ [])), not_empty r.existing_files)
    where
      not_empty : (ps : List FilePath) → true ≡ not (is_empty (ps ++ (p ∷ [])))
      not_empty [] = refl
      not_empty (x ∷ ps) = refl

  compare_size-rest :
      (f : PlacedFile) (o : Option ℕ) (r : ConflictReport)
      → ((compare_size host f o r).existing_files ≡ r.existing_files)
        × (IsCounted r → IsCounted (compare_size host f o r))
  compare_size-rest f none r = (refl, λ h. h)
  compare_size-rest f (some n) r = elim (Bool-cases (nat_beq n f.file_entry.size_bytes)) [
    | inl same ↦ rw same (refl, λ h. h)
    | inr differs ↦ rw differs (refl, λ h. h)
  ]

  note_file-files :
      (f : PlacedFile) (o : Option DirEntry) (w : W) (r : ConflictReport) (q : FilePath)
      → (contains (note_file host f o w r).existing_files q
          ≡ (contains r.existing_files q || (is_some o && f.dest_path == q)))
        × (IsCounted r → IsCounted (note_file host f o w r))
  note_file-files f none w r q = (ground arith, λ h. h)
  note_file-files f (some e) w r q =
      let added = add_existing_file f.dest_path r in
      let one : contains added.existing_files q
          ≡ (contains r.existing_files q || f.dest_path == q) =
        contains-append r.existing_files (f.dest_path ∷ []) q ∙ ground arith in
      elim (Bool-cases (e.is_file && not e.is_symlink)) [
        | inr special ↦ rw special (one, IsCounted-add f.dest_path r)
        | inl regular ↦
            let (same, counted) = compare_size-rest f (host.symlink_len f.dest_path w) added in
            rw regular (
              ap (λ (ps : List FilePath). contains ps q) same ∙ one,
              λ h. counted (IsCounted-add f.dest_path r h),
            )
      ]

  note_files-files :
      (fs : List PlacedFile) (index : HashMap Text DirEntry) (w : W) (r : ConflictReport)
      (q : FilePath)
      → (contains (note_files host fs index w r).existing_files q ≡ (
          contains r.existing_files q
          || any
              (λ f. is_some (get index (filename_lookup_key host f.file_name)) && f.dest_path == q)
              fs))
        × (IsCounted r → IsCounted (note_files host fs index w r))
  unfolding note_files
  note_files-files [] index w r q = (ground arith, λ h. h)
  note_files-files (f ∷ fs) index w r q =
      let o = get index (filename_lookup_key host f.file_name) in
      let (first, counted) = note_file-files f o w r q in
      let (rest, also) = note_files-files fs index w (note_file host f o w r) q in
      (rest ∙ ground (arith, first), λ h. also (counted h))

  -- The listing of the directory has the file's name.
  abbrev hit : W → FilePath → PlacedFile → Bool
  hit w dir f = lists_name (host.read_dir dir w) (filename_lookup_key host f.file_name)

  abbrev hits : W → FilePath → Groups → Bool
  hits w q groups = any (λ g. any (λ f. hit w g.0 f && f.dest_path == q) g.1) groups

  any_none : {A : Type 0} (p : A → Bool) (xs : List A) → ((x : A) → p x ≡ false) → any p xs ≡ false
  any_none p [] h = refl
  any_none p (x ∷ xs) h = ground (arith, h x, any_none p xs h)

  any_same :
      {A : Type 0} (p p' : A → Bool) (xs : List A) → ((x : A) → p x ≡ p' x) → any p xs ≡ any p' xs
  any_same p p' [] h = refl
  any_same p p' (x ∷ xs) h = ground (arith, h x, any_same p p' xs h)

  any-append :
      {A : Type 0} (p : A → Bool) (xs ys : List A) → any p (xs ++ ys) ≡ (any p xs || any p ys)
  any-append p [] ys = refl
  any-append p (x ∷ xs) ys = ground (arith, any-append p xs ys)

  abbrev index_of : IoError ⊎ List (Option DirEntry) → IoError ⊎ HashMap Text DirEntry
  index_of o = elim o [ inl e ↦ inl e | inr entries ↦ inr (index_entries host entries []) ]

  note_directory-files :
      (fs : List PlacedFile) (o : IoError ⊎ List (Option DirEntry)) (w : W) (r : ConflictReport)
      (q : FilePath)
      → (contains (note_directory host fs (index_of o) w r).existing_files q ≡ (
          contains r.existing_files q
          || any (λ f. lists_name o (filename_lookup_key host f.file_name) && f.dest_path == q) fs))
        × (IsCounted r → IsCounted (note_directory host fs (index_of o) w r))
  note_directory-files fs (inl e) w r q =
      (ground (arith, any_none (λ f. false && f.dest_path == q) fs (λ f. refl)), λ h. h)
  note_directory-files fs (inr entries) w r q =
      let index = index_entries host entries [] in
      let (files, counted) = note_files-files fs index w r q in
      let same =
        any_same
          (λ f. is_some (get index (filename_lookup_key host f.file_name)) && f.dest_path == q)
          (λ f. has_name entries (filename_lookup_key host f.file_name) && f.dest_path == q) fs
          (λ f.
            ground (arith, get-index_entries entries [] (filename_lookup_key host f.file_name))) in
      (files ∙ ground (arith, same), counted)

  note_groups-files :
      (groups : Groups) (w : W) (r : ConflictReport) (q : FilePath)
      → (contains (note_groups host groups w r).existing_files q
          ≡ (contains r.existing_files q || hits w q groups))
        × (IsCounted r → IsCounted (note_groups host groups w r))
  unfolding note_groups
  note_groups-files [] w r q = (ground arith, λ h. h)
  note_groups-files ((dir, fs) ∷ groups) w r q =
      let o = host.read_dir dir w in
      let r' = note_directory host fs (index_of o) w (count_directory r) in
      let (first, counted) = note_directory-files fs o w (count_directory r) q in
      let (rest, also) = note_groups-files groups w r' q in
      (rest ∙ ground (arith, first), λ h. also (counted h))

  hits-push_group :
      (w : W) (q : FilePath) (dir : FilePath) (f : PlacedFile) (groups : Groups)
      → hits w q (push_group dir f groups) ≡ (hits w q groups || (hit w dir f && f.dest_path == q))
  hits-push_group w q dir f [] = ground arith
  hits-push_group w q dir f ((d, fs) ∷ groups) = elim (Bool-cases (d == dir)) [
    | inr other ↦ rw other (ground (arith, hits-push_group w q dir f groups))
    | inl same ↦
        let e : d ≡ dir = (path_eq.beq_iff d dir).0 same in
        rw same (
          ground (
            arith,
            any-append (λ g. hit w d g && g.dest_path == q) fs (f ∷ []),
            ap (λ (x : FilePath). hit w x f) e,
          ))
  ]

  -- A search for the entry on its own.
  abbrev pub is_taken : FilePath → W → FilePath → Option Text → Bool
  is_taken dest_root w path none = false
  is_taken dest_root w path (some name) =
      lists_name (host.read_dir (parent_dir dest_root path) w) (filename_lookup_key host name)

  abbrev pub stands : FilePath → W → FileEntry → Bool
  stands dest_root w entry =
      is_taken dest_root w (join dest_root entry.relative_path)
        (file_name (join dest_root entry.relative_path))

  -- The directory could be listed, or it is missing.
  abbrev IsListed : IoError ⊎ List (Option DirEntry) → Type 0
  IsListed (inl e) = is_not_found e ≡ true
  IsListed (inr entries) = Unit

  -- So could the directory of each file.
  abbrev pub AreListed : FilePath → W → List FileEntry → Type 0
  AreListed dest_root w files =
      All (λ f. IsListed (host.read_dir (parent_dir dest_root (join dest_root f.relative_path)) w))
        files

  place_file-hits :
      (dest_root : FilePath) (w : W) (q : FilePath) (entry : FileEntry) (path : FilePath)
      (o : Option Text) (groups : Groups)
      → hits w q (place_file dest_root entry path o groups)
        ≡ (hits w q groups || (is_taken dest_root w path o && path == q))
  place_file-hits dest_root w q entry path none groups = ground arith
  place_file-hits dest_root w q entry path (some name) groups =
      hits-push_group w q (parent_dir dest_root path) _ groups

  group_files-hits :
      (dest_root : FilePath) (w : W) (q : FilePath) (entries : List FileEntry) (groups : Groups)
      → hits w q (group_files dest_root entries groups) ≡ (
          hits w q groups
          || any (λ e. stands dest_root w e && join dest_root e.relative_path == q) entries)
  unfolding group_files
  group_files-hits dest_root w q [] groups = ground arith
  group_files-hits dest_root w q (e ∷ entries) groups =
      let path = join dest_root e.relative_path in
      group_files-hits dest_root w q entries (place_file dest_root e path (file_name path) groups)
      ∙ ground (arith, place_file-hits dest_root w q e path (file_name path) groups)

  insert_by-hits :
      (w : W) (q : FilePath) (g : FilePath × List PlacedFile) (groups : Groups)
      → hits w q (insert_by (λ a b. path_cmp a.0 b.0) g groups) ≡ hits w q (g ∷ groups)
  insert_by-hits w q g [] = refl
  insert_by-hits w q g (x ∷ groups) = elim (Bool-cases (is_gt (path_cmp g.0 x.0))) [
    | inl later ↦ rw later (ground (arith, insert_by-hits w q g groups))
    | inr here ↦ rw here refl
  ]

  sort_by-hits :
      (w : W) (q : FilePath) (groups : Groups)
      → hits w q (sort_by (λ a b. path_cmp a.0 b.0) groups) ≡ hits w q groups
  unfolding sort_by
  sort_by-hits w q [] = refl
  sort_by-hits w q (g ∷ groups) =
      insert_by-hits w q g (sort_by (λ a b. path_cmp a.0 b.0) groups)
      ∙ ground (arith, sort_by-hits w q groups)

  any-places :
      (dest_root : FilePath) (p : FileEntry → Bool) (q : FilePath) (entries : List FileEntry)
      → any (λ e. p e && join dest_root e.relative_path == q) entries
        ≡ contains (map (λ e. join dest_root e.relative_path) (select p entries)) q
  any-places dest_root p q [] = refl
  any-places dest_root p q (e ∷ entries) = elim (Bool-cases (p e)) [
    | inl h ↦ rw h (ground (arith, any-places dest_root p q entries))
    | inr h ↦ rw h (ground (arith, any-places dest_root p q entries))
  ]

  pub detect_batch_conflicts-search :
      (batch : Batch) (dest_root : FilePath) (w : W)
      → host.env.exists dest_root w ≡ true
      → AreListed dest_root w batch.files
      → IsCounted (detect_batch_conflicts host batch dest_root w)
        × ((q : FilePath)
            → contains (detect_batch_conflicts host batch dest_root w).existing_files q
              ≡ contains
                  (map
                    (λ e. join dest_root e.relative_path)
                    (select (stands dest_root w) batch.files))
                  q)
  unfolding detect_batch_conflicts group_files_by_destination_parent
  detect_batch_conflicts-search batch dest_root w there listed =
      let groups = group_files_by_destination_parent batch dest_root in
      rw there (
        (note_groups-files groups w no_report []).1 (refl, refl),
        λ q.
            (note_groups-files groups w no_report q).0
            ∙ sort_by-hits w q (group_files dest_root batch.files [])
            ∙ group_files-hits dest_root w q batch.files []
            ∙ any-places dest_root (stands dest_root w) q batch.files,
      )
