-- ===== src/SourceCompletion/Filter/Hashing.antt =====
-- src/source_completion/filter.rs: which files of a scan are hashed, by an independent description of
-- the candidates.
use vibe_caravan.Prelude.{
  ℕ, ◌≡◌, refl, ap, ◌∙◌, Bool, true, false, ◌&&◌, ◌||◌, Option, none, some, List, [], ◌∷◌, ◌++◌,
  map, arith, Text, text_eq, path_eq, ◌==◌, FilePath, join, nat_beq, contains, contains-append,
  select, Bool-cases, inl, inr,
}
use vibe_caravan.Models.HashMap.{HashMap, get, insert, get-insert}
use vibe_caravan.Models.Batch.{FileEntry, CompletedFileIdentity}
use vibe_caravan.Platform.Host.{Host}
use vibe_caravan.Exec.{Exec, attempt, ◌>>=◌}
use vibe_caravan.Exec.Yields.{Yields, Yields-pure, Yields-bind}
use vibe_caravan.SourceCompletion.Ledger.{SourceCompletionLedger}
use vibe_caravan.SourceCompletion.Identity.{
  HashedFileEntry, hash_file_hex_with_interrupt, hash_entries, hash_source_entries,
}
use vibe_caravan.SourceCompletion.Filter.{
  collect_by_path, hashed_by_path, entries_by_path, has_scanned_size, ledger_candidate_paths,
}

-- A ledger names the file: an entry of the mode has its path, and the size that the scan found there.
abbrev has_size : ℕ → Option FileEntry → Bool
has_size n none = false
has_size n (some scanned) = nat_beq scanned.size_bytes n

abbrev names : Text → HashMap FilePath FileEntry → List CompletedFileIdentity → FilePath → Bool
names mode scanned [] p = false
names mode scanned (i ∷ is) p =
    (i.mode == mode && (i.relative_path == p && has_size i.size_bytes (get scanned p)))
    || names mode scanned is p

-- The files of the scan that the ledger or the states of earlier migrations name.
abbrev pub candidates_of :
    Text → SourceCompletionLedger → List FilePath → List FileEntry → List FileEntry
candidates_of mode ledger earlier entries =
    select
      (λ e.
        names mode (entries_by_path entries) ledger.entries e.relative_path
        || contains earlier e.relative_path)
      entries

ledger_candidate_paths-names :
    (mode : Text) (ledger : SourceCompletionLedger) (scanned : HashMap FilePath FileEntry)
    (p : FilePath)
    → contains (ledger_candidate_paths mode ledger scanned) p ≡ names mode scanned ledger.entries p
unfolding ledger_candidate_paths
ledger_candidate_paths-names mode ledger scanned p = named ledger.entries
  where
    size_same :
        (i : CompletedFileIdentity) (o : Option FileEntry)
        → has_scanned_size i o ≡ has_size i.size_bytes o
    size_same i none = refl
    size_same i (some scanned) = refl

    named :
        (is : List CompletedFileIdentity)
        → contains
            (map
              (λ i. i.relative_path)
              (select (λ i. i.mode == mode && has_scanned_size i (get scanned i.relative_path)) is))
            p
          ≡ names mode scanned is p
    named [] = refl
    named (i ∷ is) = elim (Bool-cases (i.relative_path == p)) [
      | inl here ↦
          let e : i.relative_path ≡ p = (path_eq.beq_iff i.relative_path p).0 here in
          ground (
            arith,
            named is,
            here,
            size_same i (get scanned i.relative_path),
            ap (λ (x : FilePath). has_size i.size_bytes (get scanned x)) e,
          )
      | inr other ↦ ground (arith, named is, other)
    ]

select-same :
    (p q : FileEntry → Bool) (es : List FileEntry)
    → ((e : FileEntry) → p e ≡ q e)
    → select p es ≡ select q es
select-same p q [] h = refl
select-same p q (e ∷ es) h = rw (h e, select-same p q es h) refl

pub candidates_same :
    (mode : Text) (ledger : SourceCompletionLedger) (earlier : List FilePath)
    (entries : List FileEntry)
    → select
        (λ e.
          contains
            (ledger_candidate_paths mode ledger (entries_by_path entries) ++ earlier)
            e.relative_path)
        entries
      ≡ candidates_of mode ledger earlier entries
candidates_same mode ledger earlier entries = select-same _ _ entries λ e.
    contains-append (ledger_candidate_paths mode ledger (entries_by_path entries)) earlier
      e.relative_path
    ∙ ap (λ (b : Bool). b || contains earlier e.relative_path)
        (ledger_candidate_paths-names mode ledger (entries_by_path entries) e.relative_path)

abbrev pub is_some : Option HashedFileEntry → Bool
is_some none = false
is_some (some h) = true

abbrev pub paths_of : List FileEntry → List FilePath
paths_of es = map (λ e. e.relative_path) es

abbrev hashed_paths : List HashedFileEntry → List FilePath
hashed_paths hs = map (λ h. h.relative_path) hs

get-collect_by_path :
    (hs : List HashedFileEntry) (m : HashMap FilePath HashedFileEntry) (p : FilePath)
    → is_some (get (collect_by_path (λ h. h.relative_path) hs m) p)
      ≡ (contains (hashed_paths hs) p || is_some (get m p))
unfolding collect_by_path
get-collect_by_path [] m p = refl
get-collect_by_path (h ∷ hs) m p =
    get-collect_by_path hs (insert m h.relative_path h) p
    ∙ ground (arith, get-insert m h.relative_path p h)

contains-next :
    (so_far : List HashedFileEntry) (e : FileEntry) (hash : Text) (p : FilePath)
    → contains
        (hashed_paths (
          so_far
          ++ (record {
            relative_path = e.relative_path;
            size_bytes = e.size_bytes;
            blake3_hash = hash;
          }
              ∷ [])))
        p
      ≡ (contains (hashed_paths so_far) p || e.relative_path == p)
contains-next [] e hash p = ground arith
contains-next (h ∷ hs) e hash p = ground (arith, contains-next hs e hash p)

-- What the loop from the entries hashed so far has hashed.
abbrev IsHashed : List FileEntry → List HashedFileEntry → List HashedFileEntry → Type 0
IsHashed es so_far hashed =
    (p : FilePath)
    → contains (hashed_paths hashed) p
      ≡ (contains (hashed_paths so_far) p || contains (paths_of es) p)

module _ {W : Type 0} (host : Host W) (source_root : FilePath) where
  hash_entries-IsHashed :
      (es : List FileEntry) (so_far : List HashedFileEntry)
      → Yields {W = W} (IsHashed es so_far) (hash_entries host source_root es so_far)
  unfolding hash_entries
  hash_entries-IsHashed [] so_far = Yields-pure (IsHashed [] so_far) so_far (λ p. ground arith)
  hash_entries-IsHashed (e ∷ es) so_far =
      let next : Text → List HashedFileEntry = λ hash.
        so_far
        ++ (record {
          relative_path = e.relative_path;
          size_bytes = e.size_bytes;
          blake3_hash = hash;
        }
            ∷ []) in
      let hashing = hash_file_hex_with_interrupt host (join source_root e.relative_path) in
      let check : Exec W (Unit {0}) = attempt host.env.check_interrupt in
      let go : Text → Exec W (List HashedFileEntry) =
        λ hash. check >>= λ u. hash_entries host source_root es (next hash) in
      Yields-bind check (λ u. hashing >>= go)
        λ s u h. Yields-bind hashing go λ s' hash h'.
          Yields-bind check (λ u. hash_entries host source_root es (next hash))
            λ s'' u' h''. record {
              at = λ t r eq p.
                  (hash_entries-IsHashed es (next hash)).at t r eq p
                  ∙ ground (arith, contains-next so_far e hash p);
            }

  -- Exactly the candidates are hashed.
  pub hash_source_entries-exactly :
      (candidates : List FileEntry)
      → Yields {W = W}
          (λ hashed.
            (p : FilePath)
            → is_some (get (hashed_by_path hashed) p) ≡ contains (paths_of candidates) p)
          (hash_source_entries host source_root candidates)
  unfolding hash_source_entries hashed_by_path
  hash_source_entries-exactly candidates = record {
    at = λ s hashed h p.
        get-collect_by_path hashed [] p
        ∙ ground (arith, (hash_entries-IsHashed candidates []).at s hashed h p);
  }
