-- ===== src/Transfer/AtomicCopy/Lands.antt =====
-- src/transfer/atomic_copy.rs: what one copy may do to the files of the system.
use vibe_caravan.Prelude.{
  ℕ, ◌≡◌, refl, ◌∙◌, ◌⊎◌, inl, inr, Bool, true, false, Option, none, some, arith, FilePath, path_eq,
  ◌==◌, Bool-cases,
}
use vibe_caravan.Error.{Result, ok, err, CaravanError, IoError, is_not_found}
use vibe_caravan.Platform.{Env}
use vibe_caravan.Platform.Volume.{Volume, Content, VolumeLaws}
use vibe_caravan.Exec.{Sys, when, ◌>>=◌}
use vibe_caravan.Transfer.Copier.{FileCopier}
use vibe_caravan.Transfer.Copier.Contract.{IsCopier}
use vibe_caravan.Transfer.AtomicCopy.{
  stale_error, copy_error, flush_error, finalize_error, failure_of, unless_missing,
  clear_stale_temp_file, or_discard, copy_to_temp, flush_temp, finalize_temp, copy_through,
}

module _ {W : Type 0} (env : Env W) (volume : Volume W) (content : FilePath → W → Content)
    (laws : VolumeLaws env volume content) (source temp destination : FilePath) where
  -- No file but the temporary one differs.
  abbrev Kept : W → W → Type 0
  Kept w w' = (q : FilePath) → (temp == q) ≡ false → content q w' ≡ content q w

  -- A file other than the temporary one is as it was, or it is the destination and has the whole
  -- of the source.
  abbrev pub Landed : W → W → Type 0
  Landed w w' =
      (q : FilePath)
      → (temp == q) ≡ false
      → (content q w' ≡ content q w) ⊎ ((q ≡ destination) × (content q w' ≡ content source w))

  -- And if the copy succeeds, the destination has it.
  abbrev pub Lands : W → Result (Unit {0}) × Sys W → Type 0
  Lands w r = Landed w r.1.world × (r.0 ≡ ok tt → content destination r.1.world ≡ content source w)

  Lands-failed : (e : CaravanError) (w : W) (s : Sys W) → Kept w s.world → Lands w (err e, s)
  Lands-failed e w s k = (λ q n. inl (k q n), λ h. absurd (ground (arith, h)))

  Lands-discard :
      (error : IoError → CaravanError) (e : IoError) (w : W) (s : Sys W)
      → Kept w s.world
      → Lands w (or_discard env volume temp error (some e) s)
  Lands-discard error e w s k =
      Lands-failed (error e) w (record s { world = (env.remove_file temp s.world).1 })
        (λ q n. laws.removed_other temp q s.world n ∙ k q n)

  finalized :
      (w : W) (s : Sys W) (o : Option IoError)
      → (volume.rename temp destination s.world).0 ≡ o
      → content temp s.world ≡ content source w
      → Kept w s.world
      → Lands w (
          or_discard env volume temp
            (finalize_error destination)
            o
            (record s { world = (volume.rename temp destination s.world).1 }))
  finalized w s (some e) answer there k =
      Lands-discard (finalize_error destination) e w
        (record s { world = (volume.rename temp destination s.world).1 })
        (λ q n. laws.rename_failed temp destination q s.world e answer ∙ k q n)
  finalized w s none answer there k = (moved, λ h. placed)
    where
      placed : content destination (volume.rename temp destination s.world).1 ≡ content source w
      placed = laws.renamed temp destination s.world answer ∙ there

      moved : Landed w (volume.rename temp destination s.world).1
      moved q n = elim (Bool-cases (destination == q)) [
        | inr other ↦ inl (laws.rename_other temp destination q s.world n other ∙ k q n)
        | inl here ↦
            let same : destination ≡ q = (path_eq.beq_iff destination q).0 here in
            inr (ground (arith, same), rw (← same) placed)
      ]

  Lands-finalize_temp :
      (w : W) (s : Sys W)
      → content temp s.world ≡ content source w
      → Kept w s.world
      → Lands w (finalize_temp env volume temp destination s)
  Lands-finalize_temp w s there k =
      finalized w s (volume.rename temp destination s.world).0 refl there k

  flushed :
      (w : W) (s : Sys W) (o : Option IoError)
      → content temp s.world ≡ content source w
      → Kept w s.world
      → Lands w (
          (or_discard env volume temp (flush_error destination) o >>= λ done.
          finalize_temp env volume temp destination)
            s)
  flushed w s (some e) there k = Lands-discard (flush_error destination) e w s k
  flushed w s none there k = Lands-finalize_temp w s there k

  Lands-flush :
      (durable : Bool) (w : W) (s : Sys W)
      → content temp s.world ≡ content source w
      → Kept w s.world
      → Lands w (
          (when durable (flush_temp env volume temp destination) >>= λ done.
          finalize_temp env volume temp destination)
            s)
  Lands-flush false w s there k = Lands-finalize_temp w s there k
  Lands-flush true w s there k =
      flushed w (record s { world = (volume.sync_file_data temp s.world).1 })
        (volume.sync_file_data temp s.world).0 (laws.synced temp temp s.world ∙ there)
        (λ q n. laws.synced temp q s.world ∙ k q n)

  module _ (copier : FileCopier W) (contract : IsCopier content copier)
      (apart : (temp == source) ≡ false) (durable : Bool) where
    written :
        (w : W) (s : Sys W) (o : IoError ⊎ ℕ)
        → (copier source temp s.world).0 ≡ o
        → Kept w s.world
        → Lands w (
            (or_discard env volume temp (copy_error source destination) (failure_of o) >>= λ done.
            when durable (flush_temp env volume temp destination) >>= λ also.
            finalize_temp env volume temp destination)
              (record s { world = (copier source temp s.world).1 }))
    written w s (inl e) answer k =
        Lands-discard (copy_error source destination) e w
          (record s { world = (copier source temp s.world).1 })
          (λ q n. contract.other source temp q s.world n ∙ k q n)
    written w s (inr bytes) answer k =
        Lands-flush durable w (record s { world = (copier source temp s.world).1 })
          (contract.copied source temp s.world bytes apart answer ∙ k source apart)
          (λ q n. contract.other source temp q s.world n ∙ k q n)

    cleared :
        (s : Sys W) (w' : W) (o : Option IoError)
        → Kept s.world w'
        → Lands s.world (
            (unless_missing env volume (stale_error destination temp) o >>= λ done.
            copy_to_temp env volume copier source temp destination >>= λ copied.
            when durable (flush_temp env volume temp destination) >>= λ also.
            finalize_temp env volume temp destination)
              (record s { world = w' }))
    cleared s w' none k = written s.world (record s { world = w' }) (copier source temp w').0 refl k
    cleared s w' (some e) k = elim (Bool-cases (is_not_found e)) [
      | inl missing ↦
          rw missing (written s.world (record s { world = w' }) (copier source temp w').0 refl k)
      | inr other ↦
          rw other
            (Lands-failed (stale_error destination temp e) s.world (record s { world = w' }) k)
    ]

    pub Lands-copy_through :
        (s : Sys W)
        → Lands s.world (copy_through env volume copier source temp destination durable s)
    unfolding clear_stale_temp_file
    Lands-copy_through s =
        cleared s (env.remove_file temp s.world).1 (env.remove_file temp s.world).0
          (λ q n. laws.removed_other temp q s.world n)
