-- ===== src/SourceCompletion/Filter/Split.antt =====
-- src/source_completion/filter.rs: which files are planned and which are left out.
use mathlib.Core.Path.{subst}
use mathlib.Core.List.{append-nil, append_assoc}
use vibe_caravan.Prelude.{
  ℕ, ◌≡◌, refl, sym, ◌∙◌, Bool, false, not, Option, none, some, List, [], ◌∷◌, ◌++◌, Text, text_eq,
  path_eq, FilePath, contains, select, Bool-cases, inl, inr, if◌then◌else◌,
}
use vibe_caravan.Error.{ok}
use vibe_caravan.Models.HashMap.{HashMap, get}
use vibe_caravan.Models.Batch.{FileEntry, CompletedFileIdentity}
use vibe_caravan.Platform.Host.{Host, Json}
use vibe_caravan.Exec.{Sys, Exec, attempt, ◌>>=◌}
use vibe_caravan.Exec.Yields.{Yields, Yields-pure, Yields-bind}
use vibe_caravan.StateStore.{StateJson}
use vibe_caravan.SourceCompletion.Ledger.{SourceCompletionLedger, ledger_in, load_ledger}
use vibe_caravan.SourceCompletion.Identity.{
  HashedFileEntry, identity_eq, identity_from_hashed_entry, hash_source_entries,
}
use vibe_caravan.SourceCompletion.Candidates.{candidate_paths_from_existing_states}
use vibe_caravan.SourceCompletion.Backfill.{backfill_ledger_from_existing_states}
use vibe_caravan.SourceCompletion.Filter.Hashing.{
  is_some, paths_of, candidates_of, candidates_same, hash_source_entries-exactly,
}
use vibe_caravan.Exec.Within.{>>=-rest}
use vibe_caravan.SourceCompletion.Filter.{
  FilteredSourceEntries, hashed_by_path, entries_by_path, ledger_candidate_paths, split_entries,
  sort_entry, filter_hashed, filter_for_new_migration_selective,
}

module _ (mode : Text) (completed : List CompletedFileIdentity)
    (hashed : HashMap FilePath HashedFileEntry) where
  -- The identity of a file of the scan, where it was hashed.
  abbrev pub identity_of : HashedFileEntry → CompletedFileIdentity
  identity_of h = record {
    mode = mode;
    relative_path = h.relative_path;
    size_bytes = h.size_bytes;
    blake3_hash = h.blake3_hash;
  }

  abbrev pub identities_at : Option HashedFileEntry → List CompletedFileIdentity
  identities_at none = []
  identities_at (some h) = identity_of h ∷ []

  abbrev pub is_known_at : Option HashedFileEntry → Bool
  is_known_at none = false
  is_known_at (some h) = contains completed (identity_of h)

  abbrev pub is_known : FileEntry → Bool
  is_known e = is_known_at (get hashed e.relative_path)

  unfoldable pub known_identities : List FileEntry → List CompletedFileIdentity
  known_identities [] = []
  known_identities (e ∷ es) =
      let rest = known_identities es in
      if is_known e then identities_at (get hashed e.relative_path) ++ rest else rest

  -- Planned are the files that are not known as completed, in their order, and left out are the
  -- identities of the others.
  pub record IsSplit (entries : List FileEntry) (r : FilteredSourceEntries) : Type 0 where
    pub planned : r.entries_to_plan ≡ select (λ e. not (is_known e)) entries
    pub left_out : r.skipped_completed_files ≡ known_identities entries

-- The result of the loop that starts from `r`.
abbrev Continues :
    Text
    → List CompletedFileIdentity
    → HashMap FilePath HashedFileEntry
    → List FileEntry
    → FilteredSourceEntries
    → FilteredSourceEntries
    → Type 0
Continues mode completed hashed es r r' =
    (r'.entries_to_plan
      ≡ r.entries_to_plan ++ select (λ e. not (is_known mode completed hashed e)) es)
    × (r'.skipped_completed_files
        ≡ r.skipped_completed_files ++ known_identities mode completed hashed es)

module _ {W : Type 0} (host : Host W) (mode : Text) (completed : List CompletedFileIdentity)
    (hashed : HashMap FilePath HashedFileEntry) where
  -- One step of the loop, before the files and identities that follow.
  sort-planned :
      (e : FileEntry) (o : Option HashedFileEntry) (r : FilteredSourceEntries)
      (later : List FileEntry)
      → (sort_entry mode completed e o r).entries_to_plan ++ later
        ≡ r.entries_to_plan
          ++ (if not (is_known_at mode completed hashed o) then e ∷ later else later)
  unfolding identity_from_hashed_entry
  sort-planned e none r later = append_assoc r.entries_to_plan (e ∷ []) later
  sort-planned e (some h) r later =
      elim (Bool-cases (contains completed (identity_from_hashed_entry mode h))) [
        | inl old ↦ rw old refl
        | inr new ↦ rw new (append_assoc r.entries_to_plan (e ∷ []) later)
      ]

  sort-left_out :
      (e : FileEntry) (o : Option HashedFileEntry) (r : FilteredSourceEntries)
      (later : List CompletedFileIdentity)
      → (sort_entry mode completed e o r).skipped_completed_files ++ later
        ≡ r.skipped_completed_files
          ++ (if is_known_at mode completed hashed o
              then identities_at mode completed hashed o ++ later
              else later)
  unfolding identity_from_hashed_entry
  sort-left_out e none r later = refl
  sort-left_out e (some h) r later =
      elim (Bool-cases (contains completed (identity_from_hashed_entry mode h))) [
        | inl old ↦
            rw old (
              append_assoc r.skipped_completed_files (identity_from_hashed_entry mode h ∷ []) later)
        | inr new ↦ rw new refl
      ]

  split-Continues :
      (es : List FileEntry) (r : FilteredSourceEntries)
      → Yields
          (Continues mode completed hashed es r)
          (split_entries host mode completed hashed es r)
  unfolding split_entries known_identities
  split-Continues [] r =
      Yields-pure (Continues mode completed hashed [] r) r
        (sym (append-nil r.entries_to_plan), sym (append-nil r.skipped_completed_files))
  split-Continues (e ∷ es) r =
      Yields-bind (attempt host.env.check_interrupt)
        (λ u.
          split_entries host mode completed hashed es
            (sort_entry mode completed e (get hashed e.relative_path) r))
        (λ s u h. record {
          at = λ t r' eq.
              let (planned, left_out) =
                (split-Continues es (sort_entry mode completed e (get hashed e.relative_path) r)).at
                  t r' eq in
              (
                planned
                    ∙ sort-planned e (get hashed e.relative_path) r
                        (select (λ f. not (is_known mode completed hashed f)) es),
                left_out
                    ∙ sort-left_out e (get hashed e.relative_path) r
                        (known_identities mode completed hashed es),
              );
        })

abbrev nothing : FilteredSourceEntries
nothing = record { entries_to_plan = []; skipped_completed_files = [] }

module _ {W : Type 0} (host : Host W) (json : StateJson) (ledger_json : Json SourceCompletionLedger)
    (source_root : FilePath) (mode : Text) (entries : List FileEntry) where
  -- The system after the first interrupt check, and then after the states of earlier migrations
  -- were read.
  abbrev started : Sys W → Sys W
  started s = (attempt host.env.check_interrupt s).1

  abbrev earlier_paths : Exec W (List FilePath)
  earlier_paths =
      candidate_paths_from_existing_states host json source_root mode (entries_by_path entries)

  abbrev at_hashing : Sys W → Sys W
  at_hashing s = (earlier_paths (started s)).1

  abbrev backfill : List HashedFileEntry → Exec W ℕ
  backfill hashed =
      backfill_ledger_from_existing_states host json ledger_json source_root mode
        (hashed_by_path hashed)

  -- The system after the hashing of the candidates, the second check and the backfill.
  abbrev at_loading : List FileEntry → List HashedFileEntry → Sys W → Sys W
  at_loading candidates hashed s =
      (backfill hashed
        (attempt host.env.check_interrupt
          (hash_source_entries host source_root candidates (at_hashing s)).1).1).1

  -- The run from `s` that answers `r`: what it read at its start, what it hashed, and the ledger that
  -- it loaded after the backfill, which decides which of the hashed files are left out.
  pub record IsFiltered (s : Sys W) (r : FilteredSourceEntries) : Type 0 where
    pub known : SourceCompletionLedger
    pub earlier : List FilePath
    pub hashed : List HashedFileEntry
    pub ledger : SourceCompletionLedger
    pub was_known : ledger_in host ledger_json source_root (started s).world ≡ ok known
    pub were_earlier : (earlier_paths (started s)).0 ≡ ok earlier
    pub were_hashed :
        (hash_source_entries host source_root
          (candidates_of mode known earlier entries)
          (at_hashing s)).0
        ≡ ok hashed
    pub exactly :
        (p : FilePath)
        → is_some (get (hashed_by_path hashed) p)
          ≡ contains (paths_of (candidates_of mode known earlier entries)) p
    pub was_loaded :
        ledger_in host ledger_json source_root
          (at_loading (candidates_of mode known earlier entries) hashed s).world
        ≡ ok ledger
    pub split : IsSplit mode ledger.entries (hashed_by_path hashed) entries r

  -- From the hashes on.
  split_loaded :
      (hashed : List HashedFileEntry) (t : Sys W) (r : FilteredSourceEntries)
      → (filter_hashed host json ledger_json source_root mode entries hashed t).0 ≡ ok r
      → (ledger : SourceCompletionLedger) × (ledger_in host ledger_json source_root
            (backfill hashed (attempt host.env.check_interrupt t).1).1.world
          ≡ ok ledger)
        × IsSplit mode ledger.entries (hashed_by_path hashed) entries r
  unfolding filter_hashed load_ledger
  split_loaded hashed t r h =
      let loop : SourceCompletionLedger → Exec W FilteredSourceEntries =
        λ ledger. split_entries host mode ledger.entries (hashed_by_path hashed) entries nothing in
      let load : Exec W SourceCompletionLedger = load_ledger host ledger_json source_root in
      let t1 = (attempt host.env.check_interrupt t).1 in
      let t2 = (backfill hashed t1).1 in
      let (u, e, h1) =
        >>=-rest (attempt host.env.check_interrupt) (λ u. backfill hashed >>= λ n. load >>= loop) t
          {b = r} h in
      let (n, e1, h2) = >>=-rest (backfill hashed) (λ n. load >>= loop) t1 {b = r} h1 in
      let (ledger, loaded, h3) = >>=-rest load loop t2 {b = r} h2 in
      let (planned, left_out) =
        (split-Continues host mode ledger.entries (hashed_by_path hashed) entries nothing).at t2 r
          h3 in
      (ledger, loaded, record { planned = planned; left_out = left_out })

  -- From the paths of the candidates on.
  hashed_and_split :
      (known : SourceCompletionLedger) (earlier : List FilePath) (s : Sys W)
      (r : FilteredSourceEntries)
      → ledger_in host ledger_json source_root (started s).world ≡ ok known
      → (earlier_paths (started s)).0 ≡ ok earlier
      → ((hash_source_entries host source_root (candidates_of mode known earlier entries)
            >>= filter_hashed host json ledger_json source_root mode entries)
          (at_hashing s)).0
        ≡ ok r
      → IsFiltered s r
  hashed_and_split known earlier s r was_known were_earlier h =
      let hash : Exec W (List HashedFileEntry) =
        hash_source_entries host source_root (candidates_of mode known earlier entries) in
      let (hashed, e, h1) =
        >>=-rest hash (filter_hashed host json ledger_json source_root mode entries) (at_hashing s)
          {b = r} h in
      let (ledger, loaded, split) = split_loaded hashed (hash (at_hashing s)).1 r h1 in
      record {
        known = known;
        earlier = earlier;
        hashed = hashed;
        ledger = ledger;
        was_known = was_known;
        were_earlier = were_earlier;
        were_hashed = e;
        exactly =
            (hash_source_entries-exactly host source_root
                (candidates_of mode known earlier entries)).at
              (at_hashing s) hashed e;
        was_loaded = loaded;
        split = split;
      }

  pub filter_for_new_migration_selective-IsFiltered :
      (s : Sys W) (r : FilteredSourceEntries)
      → (filter_for_new_migration_selective host json ledger_json source_root mode entries s).0
        ≡ ok r
      → IsFiltered s r
  unfolding filter_for_new_migration_selective load_ledger
  filter_for_new_migration_selective-IsFiltered s r h =
      let load : Exec W SourceCompletionLedger = load_ledger host ledger_json source_root in
      let chosen : SourceCompletionLedger → List FilePath → List FileEntry = λ ledger paths.
        select
          (λ e.
            contains (ledger_candidate_paths mode ledger (entries_by_path entries) ++ paths)
              e.relative_path)
          entries in
      let from_files : List FileEntry → Exec W FilteredSourceEntries = λ files.
        hash_source_entries host source_root files
        >>= filter_hashed host json ledger_json source_root mode entries in
      let from_ledger : SourceCompletionLedger → Exec W FilteredSourceEntries =
        λ ledger. earlier_paths >>= λ paths. from_files (chosen ledger paths) in
      let (u, e, h1) =
        >>=-rest (attempt host.env.check_interrupt) (λ u. load >>= from_ledger) s {b = r} h in
      let (known, e1, h2) = >>=-rest load from_ledger (started s) {b = r} h1 in
      let (earlier, e2, h3) =
        >>=-rest earlier_paths (λ paths. from_files (chosen known paths)) (started s) {b = r} h2 in
      hashed_and_split known earlier s r e1 e2 (
        subst (λ (files : List FileEntry). (from_files files (at_hashing s)).0 ≡ ok r)
          (candidates_same mode known earlier entries) h3)
