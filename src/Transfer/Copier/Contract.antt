-- ===== src/Transfer/Copier/Contract.antt =====
-- src/transfer/copier.rs: what a copier promises, and the copiers of the program.
use vibe_caravan.Prelude.{
  ℕ, ◌≡◌, refl, ◌∙◌, ◌⊎◌, inl, inr, Bool, true, false, Option, none, some, arith, FilePath, path_eq,
  ◌==◌, Bool-cases,
}
use vibe_caravan.Error.{IoError}
use vibe_caravan.Platform.{Env}
use vibe_caravan.Platform.Volume.{Volume, Content, VolumeLaws}
use vibe_caravan.Transfer.{ResolvedCopyStrategy}
use vibe_caravan.Transfer.Copier.{
  FileCopier, clear_partial_destination_before_fallback, clear_unless, fall_back,
  is_storage_exhaustion_error, after_native, copy_with_native_preferred, copy_file_inner,
}

-- Whatever comes of a copy, it writes only to its destination, and if it succeeds the destination
-- has the bytes of the source.
pub record IsCopier {W : Type 0} (content : FilePath → W → Content) (copier : FileCopier W)
    : Type 0 where
  pub other :
      (a b q : FilePath) (w : W) → (b == q) ≡ false → content q (copier a b w).1 ≡ content q w
  pub copied :
      (a b : FilePath) (w : W) (n : ℕ)
      → (b == a) ≡ false
      → (copier a b w).0 ≡ inr n
      → content b (copier a b w).1 ≡ content a w

module _ {W : Type 0} (env : Env W) (volume : Volume W) (content : FilePath → W → Content)
    (laws : VolumeLaws env volume content) where
  IsCopier-os : IsCopier content volume.os_copy
  IsCopier-os = record { other = laws.os_other; copied = laws.os_copied }

  -- What a copy to `b` of what `a` had in `w` comes to.
  abbrev Fine : FilePath → FilePath → W → (IoError ⊎ ℕ) × W → Type 0
  Fine a b w r =
      ((q : FilePath) → (b == q) ≡ false → content q r.1 ≡ content q w)
      × ((n : ℕ) → r.0 ≡ inr n → content b r.1 ≡ content a w)

  -- Only the destination differs between two worlds.
  abbrev But : FilePath → W → W → Type 0
  But b w w' = (q : FilePath) → (b == q) ≡ false → content q w' ≡ content q w

  Fine-fall_back :
      (a b : FilePath) (w : W) (r : Option IoError × W)
      → (b == a) ≡ false
      → But b w r.1
      → Fine a b w (fall_back env volume.os_copy a b r)
  Fine-fall_back a b w (some e, w') apart h = (h, λ n k. absurd (ground (arith, k)))
  Fine-fall_back a b w (none, w') apart h =
      (λ q n. laws.os_other a b q w' n ∙ h q n, λ n k. laws.os_copied a b w' n apart k ∙ h a apart)

  But-clear_unless :
      (kept : Bool) (b : FilePath) (e : IoError) (w : W) → But b w (clear_unless env kept b e w).1
  unfolding clear_partial_destination_before_fallback
  But-clear_unless true b e w q n = refl
  But-clear_unless false b e w q n = laws.removed_other b q w n

  Fine-after_native :
      (kept : Bool) (a b : FilePath) (w : W) (r : (IoError ⊎ ℕ) × W)
      → (b == a) ≡ false
      → Fine a b w r
      → Fine a b w (after_native env kept volume.os_copy a b r)
  unfolding after_native
  Fine-after_native kept a b w (inr bytes, w') apart h = h
  Fine-after_native kept a b w (inl e, w') apart h =
      elim (Bool-cases (is_storage_exhaustion_error e)) [
        | inl full ↦ rw full h
        | inr other ↦ rw other (
            Fine-fall_back a b w (clear_unless env kept b e w') apart
              (λ q n. But-clear_unless kept b e w' q n ∙ h.0 q n))
      ]

  Fine-native :
      (a b : FilePath) (w : W)
      → (b == a) ≡ false
      → Fine a b w (copy_with_native_preferred env volume.native_copy volume.os_copy a b w)
  unfolding copy_with_native_preferred
  Fine-native a b w apart =
      Fine-after_native (env.exists b w) a b w (volume.native_copy a b w) apart
        (λ q n. laws.native_other a b q w n, λ n k. laws.native_copied a b w n apart k)

  But-after_native :
      (kept : Bool) (a b : FilePath) (w : W) (r : (IoError ⊎ ℕ) × W)
      → But b w r.1
      → But b w (after_native env kept volume.os_copy a b r).1
  unfolding after_native
  But-after_native kept a b w (inr bytes, w') h = h
  But-after_native kept a b w (inl e, w') h = elim (Bool-cases (is_storage_exhaustion_error e)) [
    | inl full ↦ rw full h
    | inr other ↦ rw other (
        But-fall_back (clear_unless env kept b e w')
          (λ q n. But-clear_unless kept b e w' q n ∙ h q n))
  ]
    where
      But-fall_back :
          (r : Option IoError × W) → But b w r.1 → But b w (fall_back env volume.os_copy a b r).1
      But-fall_back (some x, u) k = k
      But-fall_back (none, u) k = λ q n. laws.os_other a b q u n ∙ k q n

  -- Every copier that the program uses keeps the contract of a copier: it writes only to its
  -- destination, and a copy that succeeds, by the platform's call or after it by the fallback,
  -- leaves the bytes of the source there.
  pub copy_file_inner-IsCopier :
      (strategy : ResolvedCopyStrategy) → IsCopier content (copy_file_inner env volume strategy)
  unfolding copy_file_inner copy_with_native_preferred
  copy_file_inner-IsCopier ResolvedCopyStrategy.os = IsCopier-os
  copy_file_inner-IsCopier ResolvedCopyStrategy.native_preferred = record {
    other = λ a b q w n.
        But-after_native (env.exists b w) a b w (volume.native_copy a b w)
          (λ q' n'. laws.native_other a b q' w n') q n;
    copied = λ a b w n apart k. (Fine-native a b w apart).1 n k;
  }
