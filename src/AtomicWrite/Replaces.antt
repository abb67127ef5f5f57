-- ===== src/AtomicWrite/Replaces.antt =====
-- src/atomic_write.rs: what a write may do to the files of the system.
use vibe_caravan.Prelude.{
  ℕ, ◌≡◌, refl, ◌∙◌, ◌⊎◌, inl, inr, Bool, true, false, Option, none, some, List, [], ◌∷◌, arith,
  Text, String, FilePath, text_eq, path_eq, ◌==◌, parent, file_name, Bool-cases,
}
use vibe_caravan.Error.{Result, ok, err, CaravanError, IoError}
use vibe_caravan.Platform.Host.{Host}
use vibe_caravan.Platform.Volume.{Content, VolumeLaws, WriteLaws}
use vibe_caravan.Exec.{Sys, call, ok_or_raise, ◌>>=◌}
use vibe_caravan.AtomicWrite.{
  write_error, no_name_error, temp_path_for, or_fail, create_parent_directory, sync_parent,
  sync_parent_directory, write_through, remove_on_error, write_or_remove, write_bytes,
}

-- What a write asks of the files, on top of the laws of the calls.
pub record CanWrite {W : Type 0} (host : Host W) (content : FilePath → W → Content) : Type 0 where
  pub volume_laws : VolumeLaws host.env host.volume content
  pub write_laws : WriteLaws host.env host.volume content
  pub suffix_same : (q : FilePath) (w : W) → content q (host.unique_suffix w).1 ≡ content q w

-- The laws of writing, and a disk on which a file can be read as a text exactly when its bytes are one
-- (`read_to_string` fails on bytes that are not UTF-8).
pub record IsReadable {W : Type 0} (host : Host W) (content : FilePath → W → Content) : Type 0 where
  pub can_write : CanWrite host content
  pub is_utf8 : List ℕ → Bool
  pub reads :
      (p : FilePath) (w : W) (bytes : List ℕ)
      → content p w ≡ some bytes
      → is_utf8 bytes ≡ true
      → host.volume.read_to_string p w ≡ inr bytes
  pub was_text :
      (p : FilePath) (w : W) (bytes : List ℕ)
      → host.volume.read_to_string p w ≡ inr bytes
      → is_utf8 bytes ≡ true
  pub now_same : (q : FilePath) (w : W) → content q (host.env.now_unix_secs w).1 ≡ content q w

-- The path is no temporary file of a write to `path`.
abbrev pub IsNoTemp : FilePath → FilePath → Type 0
IsNoTemp path q = (name unique : Text) → (temp_path_for path name unique == q) ≡ false

module _ {W : Type 0} (host : Host W) (content : FilePath → W → Content)
    (can : CanWrite host content) (path : FilePath) (payload : List ℕ) (subject : String) where
  module _ (temp : FilePath) where
    abbrev Kept : W → W → Type 0
    Kept w w' = (q : FilePath) → (temp == q) ≡ false → content q w' ≡ content q w

    -- A file other than the temporary one is as it was, or it is the target and has the payload;
    -- and the target has it if the write succeeds.
    abbrev Lands : W → Result (Unit {0}) × Sys W → Type 0
    Lands w r =
        ((q : FilePath)
          → (temp == q) ≡ false
          → (content q r.1.world ≡ content q w)
            ⊎ ((q ≡ path) × (content q r.1.world ≡ some payload)))
        × (r.0 ≡ ok tt → content path r.1.world ≡ some payload)

    failed : (e : CaravanError) (w : W) (s : Sys W) → Kept w s.world → Lands w (err e, s)
    failed e w s k = (λ q n. inl (k q n), λ h. absurd (ground (arith, h)))

    abbrev Placed : W → W → Type 0
    Placed w w' =
        ((q : FilePath)
          → (temp == q) ≡ false
          → (content q w' ≡ content q w) ⊎ ((q ≡ path) × (content q w' ≡ some payload)))
        × (content path w' ≡ some payload)

    Placed-later :
        (w : W) (w1 w2 : W)
        → Placed w w1
        → ((q : FilePath) → content q w2 ≡ content q w1)
        → Placed w w2
    Placed-later w w1 w2 h k = (
      λ q n. elim (h.0 q n) [
        | inl same ↦ inl (k q ∙ same)
        | inr (here, whole) ↦ inr (here, k q ∙ whole)
      ],
      k path ∙ h.1,
    )

    synced :
        (w : W) (error : IoError → CaravanError) (o : Option IoError) (s : Sys W)
        → Placed w s.world
        → Lands w (or_fail host error o s)
    synced w error none s h = (h.0, λ k. h.1)
    synced w error (some e) s h = (h.0, λ k. h.1)

    opened :
        (w : W) (dir : FilePath) (error error' : IoError → CaravanError) (o : Option IoError)
        (s : Sys W)
        → Placed w s.world
        → Lands w (
            (or_fail host error o >>= λ go_on.
            call (host.volume.sync_opened dir) >>= λ answer. or_fail host error' answer)
              s)
    opened w dir error error' (some e) s h = (h.0, λ k. h.1)
    opened w dir error error' none s h =
        synced w error' (host.volume.sync_opened dir s.world).0
          (record s { world = (host.volume.sync_opened dir s.world).1 })
          (Placed-later w s.world (host.volume.sync_opened dir s.world).1 h
            (λ q. can.write_laws.opened_synced dir q s.world))

    Lands-sync_parent :
        (w : W) (windows : Bool) (p : FilePath) (s : Sys W)
        → Placed w s.world
        → Lands w (sync_parent host windows p subject s)
    Lands-sync_parent w true p s h = (h.0, λ k. h.1)
    Lands-sync_parent w false [] s h = (h.0, λ k. h.1)
    Lands-sync_parent w false (c ∷ rest) s h =
        opened w (parent (c ∷ rest)) _ _ (host.volume.open_directory (parent (c ∷ rest)) s.world) s
          h

    renamed :
        (w : W) (s : Sys W) (o : Option IoError)
        → (host.volume.rename temp path s.world).0 ≡ o
        → content temp s.world ≡ some payload
        → Kept w s.world
        → Lands w (
            (or_fail host (write_error "failed to replace {} file {}" subject path) o >>= λ done.
            sync_parent_directory host path subject)
              (record s { world = (host.volume.rename temp path s.world).1 }))
    unfolding sync_parent_directory
    renamed w s (some e) answer whole k =
        failed _ w (record s { world = (host.volume.rename temp path s.world).1 })
          (λ q n. can.volume_laws.rename_failed temp path q s.world e answer ∙ k q n)
    renamed w s none answer whole k =
        Lands-sync_parent w host.is_windows path
          (record s { world = (host.volume.rename temp path s.world).1 }) (moved, there)
      where
        there : content path (host.volume.rename temp path s.world).1 ≡ some payload
        there = can.volume_laws.renamed temp path s.world answer ∙ whole

        moved :
            (q : FilePath)
            → (temp == q) ≡ false
            → (content q (host.volume.rename temp path s.world).1 ≡ content q w)
              ⊎ ((q ≡ path) × (content q (host.volume.rename temp path s.world).1 ≡ some payload))
        moved q n = elim (Bool-cases (path == q)) [
          | inr other ↦ inl (can.volume_laws.rename_other temp path q s.world n other ∙ k q n)
          | inl here ↦
              let same : path ≡ q = (path_eq.beq_iff path q).0 here in
              inr (ground (arith, same), rw (← same) there)
        ]

    flushed :
        (w : W) (s : Sys W) (o : Option IoError)
        → content temp s.world ≡ some payload
        → Kept w s.world
        → Lands w (
            (or_fail host (write_error "failed to flush temporary {} file {}" subject temp) o
                >>= λ done. call (host.volume.rename temp path) >>= λ answer.
                    or_fail host (write_error "failed to replace {} file {}" subject path) answer
                    >>= λ replaced. sync_parent_directory host path subject)
              s)
    flushed w s (some e) whole k = failed _ w s k
    flushed w s none whole k = renamed w s (host.volume.rename temp path s.world).0 refl whole k

    written :
        (w : W) (s : Sys W) (o : Option IoError)
        → (host.volume.write_all temp payload s.world).0 ≡ o
        → Kept w s.world
        → Lands w (
            (or_fail host (write_error "failed to write temporary {} file {}" subject temp) o
                >>= λ done. call (host.volume.sync_file_data temp) >>= λ synced_now.
                    or_fail host
                      (write_error "failed to flush temporary {} file {}" subject temp)
                      synced_now
                    >>= λ also. call (host.volume.rename temp path) >>= λ answer.
                        or_fail host
                          (write_error "failed to replace {} file {}" subject path)
                          answer
                        >>= λ replaced. sync_parent_directory host path subject)
              (record s { world = (host.volume.write_all temp payload s.world).1 }))
    written w s (some e) answer k =
        failed _ w (record s { world = (host.volume.write_all temp payload s.world).1 })
          (λ q n. can.write_laws.write_other temp q payload s.world n ∙ k q n)
    written w s none answer k =
        let u = (host.volume.write_all temp payload s.world).1 in
        flushed w (record s { world = (host.volume.sync_file_data temp u).1 })
          (host.volume.sync_file_data temp u).0
          (can.volume_laws.synced temp temp u ∙ can.write_laws.written temp payload s.world answer)
          (λ q n.
            can.volume_laws.synced temp q u
            ∙ can.write_laws.write_other temp q payload s.world n
            ∙ k q n)

    created :
        (w : W) (s : Sys W) (o : Option IoError)
        → Kept w s.world
        → Lands w (
            (or_fail host (write_error "failed to create temporary {} file {}" subject temp) o
                >>= λ go_on. call (host.volume.write_all temp payload) >>= λ filled.
                    or_fail host
                      (write_error "failed to write temporary {} file {}" subject temp)
                      filled
                    >>= λ done. call (host.volume.sync_file_data temp) >>= λ synced_now.
                        or_fail host
                          (write_error "failed to flush temporary {} file {}" subject temp)
                          synced_now
                        >>= λ also. call (host.volume.rename temp path) >>= λ answer.
                            or_fail host
                              (write_error "failed to replace {} file {}" subject path)
                              answer
                            >>= λ replaced. sync_parent_directory host path subject)
              s)
    created w s (some e) k = failed _ w s k
    created w s none k = written w s (host.volume.write_all temp payload s.world).0 refl k

    removed :
        (w : W) (r : Result (Unit {0}) × Sys W) → Lands w r → Lands w (remove_on_error host temp r)
    removed w (ok done, s) h = h
    removed w (err e, s) h = (
      λ q n. elim (h.0 q n) [
        | inl same ↦ inl (can.volume_laws.removed_other temp q s.world n ∙ same)
        | inr (here, whole) ↦ inr (here, can.volume_laws.removed_other temp q s.world n ∙ whole)
      ],
      λ k. absurd (ground (arith, k)),
    )

    Lands-write_or_remove :
        (s : Sys W) (w : W)
        → Kept w s.world
        → Lands w (write_or_remove host temp path payload subject s)
    Lands-write_or_remove s w k = removed w (write_through host temp path payload subject s) (
        created w (record s { world = (host.volume.create_new temp s.world).1 })
          (host.volume.create_new temp s.world).0
          (λ q n. can.write_laws.new_other temp q s.world n ∙ k q n))

  -- What a write comes to: a file that is no temporary one is as it was or is the target with the
  -- payload, and after a success the target has the payload.
  pub record Replaced (w : W) (r : Result (Unit {0}) × Sys W) : Type 0 where
    pub whole :
        (q : FilePath)
        → IsNoTemp path q
        → (content q r.1.world ≡ content q w) ⊎ ((q ≡ path) × (content q r.1.world ≡ some payload))
    pub done : r.0 ≡ ok tt → content path r.1.world ≡ some payload

  Replaced-failed :
      (e : CaravanError) (w : W) (s : Sys W)
      → ((q : FilePath) → content q s.world ≡ content q w)
      → Replaced w (err e, s)
  Replaced-failed e w s k = record {
    whole = λ q n. inl (k q);
    done = λ h. absurd (ground (arith, h));
  }

  named :
      (w : W) (s : Sys W) (o : Option Text)
      → ((q : FilePath) → content q s.world ≡ content q w)
      → Replaced w (
          (ok_or_raise o (no_name_error subject path) >>= λ name.
          call host.unique_suffix >>= λ unique.
          write_or_remove host (temp_path_for path name unique) path payload subject)
            s)
  named w s none k = Replaced-failed (no_name_error subject path) w s k
  named w s (some name) k =
      let unique = (host.unique_suffix s.world).0 in
      let s' : Sys W = record s { world = (host.unique_suffix s.world).1 } in
      let h =
        Lands-write_or_remove (temp_path_for path name unique) s' w
          (λ q n. can.suffix_same q s.world ∙ k q) in
      record { whole = λ q n. h.0 q (n name unique); done = h.1 }

  prepared :
      (w : W) (dir : FilePath) (error : IoError → CaravanError) (o : Option IoError) (s : Sys W)
      → ((q : FilePath) → content q s.world ≡ content q w)
      → Replaced w (
          (or_fail host error o >>= λ go_on.
          ok_or_raise (file_name path) (no_name_error subject path) >>= λ name.
          call host.unique_suffix >>= λ unique.
          write_or_remove host (temp_path_for path name unique) path payload subject)
            s)
  prepared w dir error (some e) s k = Replaced-failed (error e) w s k
  prepared w dir error none s k = named w s (file_name path) k

  started :
      (p : FilePath) (s : Sys W)
      → Replaced s.world (
          (create_parent_directory host p subject >>= λ go_on.
          ok_or_raise (file_name path) (no_name_error subject path) >>= λ name.
          call host.unique_suffix >>= λ unique.
          write_or_remove host (temp_path_for path name unique) path payload subject)
            s)
  unfolding create_parent_directory
  started [] s = named s.world s (file_name path) (λ q. refl)
  started (c ∷ rest) s =
      let dir = parent (c ∷ rest) in
      prepared s.world dir (write_error "failed to create {} directory {}" subject dir)
        (host.volume.create_dir_all dir s.world).0
        (record s { world = (host.volume.create_dir_all dir s.world).1 })
        (λ q. can.volume_laws.created dir q s.world)

  pub write_bytes-Replaced :
      (s : Sys W) → Replaced s.world (write_bytes host path payload subject s)
  unfolding write_bytes
  write_bytes-Replaced s = started path s

  -- However an atomic write ends: a file that is not a temporary file of a write to the target is as
  -- it was, or it is the target and has all of the payload.
  pub write_bytes-IsNoTemp :
      (s : Sys W) (q : FilePath)
      → IsNoTemp path q
      → let w = (write_bytes host path payload subject s).1.world in
        (content q w ≡ content q s.world) ⊎ ((q ≡ path) × (content q w ≡ some payload))
  write_bytes-IsNoTemp s q n = (write_bytes-Replaced s).whole q n

  -- After an atomic write that succeeds, the target has the payload.
  pub write_bytes-content :
      (s : Sys W)
      → (write_bytes host path payload subject s).0 ≡ ok tt
      → content path (write_bytes host path payload subject s).1.world ≡ some payload
  write_bytes-content s h = (write_bytes-Replaced s).done h
