-- ===== src/Transfer/Copier.antt =====
-- src/transfer/copier.rs: the copy call of the platform first, and the one of `std::fs` where it
-- fails for another reason than a full disk.
pub mod Contract
use vibe_caravan.Prelude.{
  ℕ, ◌⊎◌, inl, inr, Bool, true, false, ◌||◌, not, Option, none, some, FilePath, nat_beq,
  if◌then◌else◌,
}
use vibe_caravan.Error.{IoError, is_not_found}
use vibe_caravan.Platform.{Env}
use vibe_caravan.Platform.Volume.{Volume}
use vibe_caravan.Transfer.{ResolvedCopyStrategy}

-- `FileCopier::copy_file`; the size hint is not read by any copier.
abbrev pub FileCopier : Type 0 → Type 0
FileCopier W = FilePath → FilePath → W → (IoError ⊎ ℕ) × W

abbrev is_disk_full_code : ℕ → Bool
is_disk_full_code code =
    nat_beq code 39 || (nat_beq code 112 || (nat_beq code 1295 || nat_beq code 1816))

unfoldable pub is_storage_exhaustion_error : IoError → Bool
is_storage_exhaustion_error IoError.not_found = false
is_storage_exhaustion_error IoError.storage_full = true
is_storage_exhaustion_error IoError.quota_exceeded = true
is_storage_exhaustion_error (IoError.raw_os code) = is_disk_full_code code
is_storage_exhaustion_error (IoError.other why) = false
-- Such an error has a kind and no code.
is_storage_exhaustion_error (IoError.of_kind shown IoError.storage_full) = true
is_storage_exhaustion_error (IoError.of_kind shown IoError.quota_exceeded) = true
is_storage_exhaustion_error (IoError.of_kind shown e) = false

module _ {W : Type 0} (env : Env W) where
  -- The removal, with what its answer comes to.
  abbrev removal_error : IoError → Option IoError → Option IoError
  removal_error native_err none = none
  removal_error native_err (some e) =
      if is_not_found e then none else some (IoError.of_kind native_err e)

  unfoldable pub clear_partial_destination_before_fallback :
      FilePath → IoError → W → Option IoError × W
  clear_partial_destination_before_fallback destination native_err w =
      let (answer, w') = env.remove_file destination w in (removal_error native_err answer, w')

  abbrev fall_back : FileCopier W → FilePath → FilePath → Option IoError × W → (IoError ⊎ ℕ) × W
  fall_back copy source destination (none, w) = copy source destination w
  fall_back copy source destination (some e, w) = (inl e, w)

  abbrev clear_unless : Bool → FilePath → IoError → W → Option IoError × W
  clear_unless true destination native_err w = (none, w)
  clear_unless false destination native_err w =
      clear_partial_destination_before_fallback destination native_err w

  -- The `match` on the answer of the native copy.
  unfoldable pub after_native :
      Bool → FileCopier W → FilePath → FilePath → (IoError ⊎ ℕ) × W → (IoError ⊎ ℕ) × W
  unfolding is_storage_exhaustion_error clear_partial_destination_before_fallback
  after_native preexisted fallback source destination (inr bytes, w) = (inr bytes, w)
  after_native preexisted fallback source destination (inl e, w) =
      if is_storage_exhaustion_error e
      then (inl e, w)
      else fall_back fallback source destination (clear_unless preexisted destination e w)

  unfoldable pub copy_with_native_preferred : FileCopier W → FileCopier W → FileCopier W
  unfolding after_native
  copy_with_native_preferred native fallback source destination w =
      after_native (env.exists destination w) fallback source destination
        (native source destination w)

  -- `LocalFileCopier::copy_file_inner`.
  unfoldable pub copy_file_inner : Volume W → ResolvedCopyStrategy → FileCopier W
  unfolding copy_with_native_preferred
  copy_file_inner volume ResolvedCopyStrategy.os = volume.os_copy
  copy_file_inner volume ResolvedCopyStrategy.native_preferred =
      copy_with_native_preferred volume.native_copy volume.os_copy
