-- ===== src/StateStore/Recovery.antt =====
-- src/state_store.rs: a state that was written is the one that is loaded.
use vibe_caravan.Prelude.{
  ℕ, ◌≡◌, ◌≢◌, ◌<◌, refl, sym, ap, ◌∙◌, ◌⊎◌, inl, inr, Bool, true, some, List, arith, Text, text_eq,
  path_eq, FilePath, Bool-cases, beq_refl, u64_max,
}
use vibe_caravan.Error.{Result, ok, err, IoError}
use vibe_caravan.Models.Index.{no_positions}
use vibe_caravan.Models.State.{MigrationState, rebuild_indexes}
use vibe_caravan.Platform.Host.{Host}
use vibe_caravan.Platform.Volume.{Content}
use vibe_caravan.Exec.{Sys}
use vibe_caravan.AtomicWrite.Replaces.{IsReadable, IsNoTemp, Replaced, write_bytes-Replaced}
use vibe_caravan.StateStore.{
  PersistedStateEnvelope, LoadedStateCandidate, ReconciledStateSource, StateJson, check_envelope,
  candidate_of, checksum_of, envelope_of, parse_envelope_or_legacy, parse_read,
  load_state_candidate, load_candidate_if_present, load_state_reconciled, next_revision,
  revision_after, max_of, backup_revision, then_backup, persist_state_with_revision,
  persist_state_with_compat_backup, from_primary,
}
use vibe_caravan.StateStore.Reconcile.{IsNewest, reconcile-primary}

-- What serde leaves out of a state.
abbrev pub without_index : MigrationState → MigrationState
without_index s = record s { batch_index = no_positions; planned_index = no_positions }

-- The documented behaviour of serde: an envelope of the state is written as a text and read back as
-- it was written, and the fields that are marked to be skipped play no part.
pub record JsonLaws (json : StateJson) (is_utf8 : List ℕ → Bool) (s : MigrationState) : Type 0 where
  pub envelope_back :
      (version revision : ℕ) (checksum : Text)
      → let e : PersistedStateEnvelope = record {
        format_version = version;
        revision = revision;
        state_checksum = checksum;
        state = s;
      } in
        json.envelope.from_str (json.envelope.to_vec e) ≡ inr (record e { state = without_index s })
  pub envelope_text :
      (version revision : ℕ) (checksum : Text)
      → is_utf8 (
          json.envelope.to_vec (record {
            format_version = version;
            revision = revision;
            state_checksum = checksum;
            state = s;
          }))
        ≡ true
  pub index_skipped :
      (t : MigrationState) → json.state.to_vec (without_index t) ≡ json.state.to_vec t

-- The two files differ, and neither is a temporary file of a write to the other or to itself.
pub record AreDistinct (a b : FilePath) : Type 0 where
  pub differ : a ≢ b
  pub a_of_a : IsNoTemp a a
  pub b_of_a : IsNoTemp a b
  pub a_of_b : IsNoTemp b a
  pub b_of_b : IsNoTemp b b

module _ {W : Type 0} (host : Host W) (json : StateJson) (content : FilePath → W → Content)
    (disk : IsReadable host content) (s : MigrationState)
    (laws : JsonLaws json disk.is_utf8 s) where
  checksum-rebuild : checksum_of host json (rebuild_indexes s) ≡ checksum_of host json s
  unfolding checksum_of rebuild_indexes
  checksum-rebuild = rw (sym (laws.index_skipped (rebuild_indexes s)), laws.index_skipped s) refl

  abbrev written : ℕ → List ℕ
  written revision = json.envelope.to_vec (envelope_of host json s revision)

  checked :
      (path : FilePath) (e : PersistedStateEnvelope) (state : MigrationState)
      → checksum_of host json state ≡ e.state_checksum
      → check_envelope host json path e state ≡ ok (candidate_of host json state e.revision)
  checked path e state h = rw (h, beq_refl e.state_checksum) (rw (← h) refl)

  parse-written :
      (path : FilePath) (revision : ℕ)
      → parse_envelope_or_legacy host json path (written revision)
        ≡ ok (candidate_of host json (rebuild_indexes s) revision)
  unfolding parse_envelope_or_legacy
  parse-written path revision =
      let e : PersistedStateEnvelope = record (envelope_of host json s revision) {
        state = without_index s;
      } in
      rw (laws.envelope_back 2 revision (checksum_of host json s))
        (checked path e (rebuild_indexes s) (checksum-rebuild))

  -- A file with the written bytes loads as the state.
  load-written :
      (path : FilePath) (revision : ℕ) (w : W)
      → content path w ≡ some (written revision)
      → load_candidate_if_present host json path w
        ≡ some (ok (candidate_of host json (rebuild_indexes s) revision))
  unfolding load_candidate_if_present load_state_candidate
  load-written path revision w h =
      rw
        (
          disk.can_write.write_laws.there path w (written revision) h,
          disk.reads path w (written revision) h
              (laws.envelope_text 2 revision (checksum_of host json s)),
          parse-written path revision,
        )
        refl

  parse_read-bytes :
      (path : FilePath) (o : IoError ⊎ List ℕ) (c : LoadedStateCandidate)
      → parse_read host json path o ≡ ok c
      → (bytes : List ℕ) × (o ≡ inr bytes) × (parse_envelope_or_legacy host json path bytes ≡ ok c)
  parse_read-bytes path (inl e) c h = absurd (ground (arith, h))
  parse_read-bytes path (inr bytes) c h = (bytes, refl, h)

  -- A valid copy has bytes from which it is parsed.
  loaded-bytes :
      (path : FilePath) (w : W) (c : LoadedStateCandidate)
      → load_candidate_if_present host json path w ≡ some (ok c)
      → (bytes : List ℕ) × (content path w ≡ some bytes)
        × (disk.is_utf8 bytes ≡ true)
        × (parse_envelope_or_legacy host json path bytes ≡ ok c)
  unfolding load_candidate_if_present load_state_candidate
  loaded-bytes path w c h = elim (Bool-cases (host.env.exists path w)) [
    | inr missing ↦ absurd (ground (arith, rw missing at h))
    | inl there ↦
        let (bytes, e, p) =
          parse_read-bytes path (host.volume.read_to_string path w) c
            (ground (arith, rw there at h)) in
        (bytes, disk.can_write.write_laws.read_back path w bytes e, disk.was_text path w bytes e, p)
  ]

  -- A copy whose bytes stay is loaded from any later world too.
  load-kept :
      (path : FilePath) (w w' : W) (c : LoadedStateCandidate)
      → content path w' ≡ content path w
      → load_candidate_if_present host json path w' ≡ some (ok c)
      → load_candidate_if_present host json path w ≡ some (ok c)
  unfolding load_candidate_if_present load_state_candidate
  load-kept path w w' c same h =
      let (bytes, e, u, p) = loaded-bytes path w' c h in
      let before : content path w ≡ some bytes = sym same ∙ e in
      rw (disk.can_write.write_laws.there path w bytes before, disk.reads path w bytes before u, p)
        refl

  module _ (a b : FilePath) (distinct : AreDistinct a b) where
    -- The revisions on the disk have not come to the end of their range.
    abbrev pub HasNext : W → Type 0
    HasNext w = max_of (next_revision host json a w) (next_revision host json b w) < u64_max

    abbrev pub stored : W → LoadedStateCandidate
    stored w = candidate_of host json (rebuild_indexes s) (backup_revision host json a b w)

    older :
        (w w' : W)
        → HasNext w
        → content b w' ≡ content b w
        → IsNewest (stored w) (load_candidate_if_present host json b w')
    unfolding next_revision
    older w w' room same d h =
        let before = load-kept b w w' d same h in
        inl (ground (arith, room, ap revision_after before))

    -- The backup in `w'` is as it was in `w`, or is the new state.
    abbrev BackupFine : W → W → Type 0
    BackupFine w w' =
        (content b w' ≡ content b w)
        ⊎ (content b w' ≡ some (written (backup_revision host json a b w)))

    newest :
        (w w' : W)
        → HasNext w
        → BackupFine w w'
        → IsNewest (stored w) (load_candidate_if_present host json b w')
    newest w w' room (inl same) = older w w' room same
    newest w w' room (inr new) = λ d h.
        let there = load-written b (backup_revision host json a b w) w' new in
        let e : d ≡ stored w = ground (arith, h, there) in
        inr (
          ap (λ (c : LoadedStateCandidate). c.revision) e,
          ap (λ (c : LoadedStateCandidate). c.state_checksum) e,
        )

    chosen :
        (w w' : W)
        → HasNext w
        → content a w' ≡ some (written (backup_revision host json a b w))
        → BackupFine w w'
        → load_state_reconciled host json a b w' ≡ from_primary (stored w)
    unfolding load_state_reconciled
    chosen w w' room there fine = rw (load-written a (backup_revision host json a b w) w' there) (
        reconcile-primary a b (stored w) (load_candidate_if_present host json b w')
          (newest w w' room fine))

    abbrev write_to : FilePath → W → Sys W → Result (Unit {0}) × Sys W
    write_to p w u = persist_state_with_revision host json p s (backup_revision host json a b w) u

    write-Replaced :
        (p : FilePath) (w : W) (u : Sys W)
        → Replaced host content disk.can_write p
            (written (backup_revision host json a b w))
            "state"
            u.world
            (write_to p w u)
    unfolding persist_state_with_revision
    write-Replaced p w u =
        write_bytes-Replaced host content disk.can_write p
          (written (backup_revision host json a b w)) "state" u

    -- What the backup's write leaves of both files.
    after_backup :
        (w : W) (u : Sys W)
        → content a u.world ≡ some (written (backup_revision host json a b w))
        → content b u.world ≡ content b w
        → (content a (write_to b w u).1.world ≡ some (written (backup_revision host json a b w)))
          × BackupFine w (write_to b w u).1.world
    after_backup w u there same =
        let r = write-Replaced b w u in
        (
          elim (r.whole a distinct.a_of_b) [
            | inl kept ↦ kept ∙ there
            | inr (wrong, e) ↦ absurd (distinct.differ wrong)
          ],
          elim (r.whole b distinct.b_of_b) [ inl kept ↦ inl (kept ∙ same) | inr (here, e) ↦ inr e ],
        )

    backed_up :
        (w : W) (r : Result (Unit {0}) × Sys W)
        → HasNext w
        → (r.0 ≡ ok tt → content a r.1.world ≡ some (written (backup_revision host json a b w)))
        → content b r.1.world ≡ content b w
        → (then_backup host json b s (backup_revision host json a b w) r).0 ≡ ok tt
        → load_state_reconciled host json a b
            (then_backup host json b s (backup_revision host json a b w) r).1.world
          ≡ from_primary (stored w)
    backed_up w (err e, u) room there same h = absurd (ground (arith, h))
    backed_up w (ok done, u) room there same h =
        let (first, second) = after_backup w u (there refl) same in
        chosen w (write_to b w u).1.world room first second

    -- A state that was persisted, with its backup or without because the backup's write failed, is
    -- the state that the next run loads, from the canonical file and with its indexes rebuilt. It
    -- does not matter what the two files held before. The conditions: the two files are distinct,
    -- a text that is on the disk can be read, the state is written as a text that reads back, and
    -- the revisions are below the end of their range.
    pub persist-load :
        (u : Sys W)
        → HasNext u.world
        → (persist_state_with_compat_backup host json a b s u).0 ≡ ok tt
        → load_state_reconciled host json a b
            (persist_state_with_compat_backup host json a b s u).1.world
          ≡ ok (record { state = rebuild_indexes s; source = ReconciledStateSource.primary })
    unfolding persist_state_with_compat_backup
    persist-load u room h =
        let r = write-Replaced a u.world u in
        backed_up u.world (write_to a u.world u) room r.done
          (elim (r.whole b distinct.b_of_a) [
            | inl kept ↦ kept
            | inr (wrong, e) ↦ absurd (distinct.differ (sym wrong))
          ])
          h
