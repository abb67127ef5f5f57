-- ===== src/SourceCompletion/Filter/Drift.antt =====
-- src/source_completion/filter.rs: the files left out by an earlier plan are checked again.
use vibe_caravan.Prelude.{
  ◌≡◌, refl, Bool, true, false, not, Option, none, some, List, [], ◌∷◌, arith, Text, text_eq,
  path_eq, ◌==◌, FilePath, All, select, if◌then◌else◌,
}
use vibe_caravan.Error.{ok, err, CaravanError}
use vibe_caravan.Models.HashMap.{HashMap, get}
use vibe_caravan.Models.Batch.{FileEntry, CompletedFileIdentity}
use vibe_caravan.Platform.Host.{Host}
use vibe_caravan.Exec.{Sys, Exec, pure, lift, attempt, ◌>>=◌}
use vibe_caravan.Exec.Yields.{Yields, Yields-pure, Yields-bind}
use vibe_caravan.SourceCompletion.Identity.{
  HashedFileEntry, identity_eq, identity_from_hashed_entry, hash_source_entries,
}
use vibe_caravan.SourceCompletion.Filter.{
  entries_by_path, hashed_by_path, is_skipped, changed_error, check_current, validate_skipped_file,
  validate_all, validate_all_metadata, filter_for_persisted_skips_selective,
}

-- The file has the identity that was left out, by the hashes of this run.
pub record IsCurrent (mode : Text) (hashed : HashMap FilePath HashedFileEntry)
    (i : CompletedFileIdentity) : Type 0 where
  pub same_mode : i.mode ≡ mode
  pub entry : HashedFileEntry
  pub found : get hashed i.relative_path ≡ some entry
  pub same_identity : identity_from_hashed_entry i.mode entry ≡ i

passed : (b : Bool) (e : CaravanError) → (if not b then err e else ok (tt {0})) ≡ ok tt → b ≡ true
passed true e h = refl
passed false e h = ground (arith, h)

module _ (mode : Text) (hashed : HashMap FilePath HashedFileEntry) where
  check_current-same :
      (i : CompletedFileIdentity) (o : Option HashedFileEntry)
      → check_current i o ≡ ok tt
      → (h : HashedFileEntry) × (o ≡ some h) × (identity_from_hashed_entry i.mode h ≡ i)
  check_current-same i none e = ground arith
  check_current-same i (some h) e = (
    h,
    refl,
    (identity_eq.beq_iff (identity_from_hashed_entry i.mode h) i).0
        (passed (identity_from_hashed_entry i.mode h == i) (changed_error i.relative_path) e),
  )

  validate-IsCurrent :
      (i : CompletedFileIdentity)
      → validate_skipped_file mode i hashed ≡ ok tt
      → IsCurrent mode hashed i
  unfolding validate_skipped_file
  validate-IsCurrent i e =
      let same : (i.mode == mode) ≡ true = ground (arith, e) in
      let (h, found, identity) =
        check_current-same i (get hashed i.relative_path) (ground (arith, e, same)) in
      record {
        same_mode = (text_eq.beq_iff i.mode mode).0 same;
        entry = h;
        found = found;
        same_identity = identity;
      }

module _ {W : Type 0} (host : Host W) where
  validate_all-IsCurrent :
      (mode : Text) (hashed : HashMap FilePath HashedFileEntry)
      (skipped : List CompletedFileIdentity)
      → Yields (λ u. All (IsCurrent mode hashed) skipped) (validate_all host mode hashed skipped)
  unfolding validate_all
  validate_all-IsCurrent mode hashed [] = Yields-pure (λ u. Unit) tt tt
  validate_all-IsCurrent mode hashed (i ∷ rest) =
      Yields-bind (lift (validate_skipped_file mode i hashed))
        (λ u. validate_all host mode hashed rest)
        (λ s u e. record {
          at = λ t v eq. (
            validate-IsCurrent mode hashed i e,
            (validate_all-IsCurrent mode hashed rest).at t v eq,
          );
        })

  -- Every file that was left out has its identity still, by hashes that were computed.
  abbrev pub Rechecked : FilePath → Text → List FileEntry → List CompletedFileIdentity → Type 0
  Rechecked source_root mode chosen skipped =
      (hashed : List HashedFileEntry) × (t : Sys W) × ((hash_source_entries host source_root chosen
          t).0
        ≡ ok hashed)
      × All (IsCurrent mode (hashed_by_path hashed)) skipped

  pub filter_for_persisted_skips_selective-IsCurrent :
      (source_root : FilePath) (mode : Text) (entries : List FileEntry)
      (skipped : List CompletedFileIdentity) (s : Sys W) (kept : List FileEntry)
      → (filter_for_persisted_skips_selective host source_root mode entries skipped s).0 ≡ ok kept
      → (kept ≡ select (λ e. not (is_skipped skipped e)) entries)
        × ((hashed : List HashedFileEntry) × (t : Sys W) × ((hash_source_entries host source_root
                (select (is_skipped skipped) entries)
                t).0
              ≡ ok hashed)
            × All (IsCurrent mode (hashed_by_path hashed)) skipped)
  unfolding filter_for_persisted_skips_selective
  filter_for_persisted_skips_selective-IsCurrent source_root mode entries skipped s kept h =
      let chosen = select (is_skipped skipped) entries in
      let others = select (λ e. not (is_skipped skipped e)) entries in
      let P : List FileEntry → Type 0 = λ k.
        (k ≡ others)
        × ((hashed : List HashedFileEntry) × (t : Sys W) × ((hash_source_entries host source_root
                chosen t).0
              ≡ ok hashed)
            × All (IsCurrent mode (hashed_by_path hashed)) skipped) in
      let rechecked : (t : Sys W)
          → (hashed : List HashedFileEntry)
          → (hash_source_entries host source_root chosen t).0 ≡ ok hashed
          → (v : Sys W) → (u : Unit {0})
          → (validate_all host mode (hashed_by_path hashed) skipped v).0 ≡ ok u
          → Rechecked source_root mode chosen skipped =
        λ t hashed e v u checked. (
          hashed,
          t,
          e,
          (validate_all-IsCurrent mode (hashed_by_path hashed) skipped).at v u checked,
        ) in
      let check = attempt host.env.check_interrupt in
      let metadata : Exec W (Unit {0}) =
        validate_all_metadata host mode (entries_by_path entries) skipped in
      let hashing : Exec W (List HashedFileEntry) = hash_source_entries host source_root chosen in
      let validate : List HashedFileEntry → Exec W (Unit {0}) =
        λ hashed. validate_all host mode (hashed_by_path hashed) skipped in
      let after_hash : List HashedFileEntry → Exec W (List FileEntry) =
        λ hashed. check >>= λ u. validate hashed >>= λ v. pure others in
      (Yields-bind {P = P} check (λ u. metadata >>= λ v. hashing >>= after_hash)
          (λ s1 u e1.
            Yields-bind {P = P} metadata (λ v. hashing >>= after_hash)
              (λ s2 v e2. Yields-bind {P = P} hashing after_hash (λ s3 hashed e3.
                Yields-bind {P = P} check (λ u. validate hashed >>= λ v. pure others)
                  (λ s4 u' e4.
                    Yields-bind {P = P} (validate hashed) (λ v. pure others)
                      (λ s5 v' e5.
                        Yields-pure P others (refl, rechecked s3 hashed e3 s5 v' e5))))))).at
        s kept h
