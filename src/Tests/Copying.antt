-- ===== src/Tests/Copying.antt =====
-- The theorems on copying and on conflicts, with the disk in memory.
use mathlib.Core.Path.{subst}
use vibe_caravan.Prelude.{
  ◌≡◌, refl, ◌⊎◌, inl, inr, true, false, none, some, [], ◌∷◌, map, arith, text, text_eq, path_eq,
  ◌==◌, FilePath, join, All, contains, select, sort_by,
}
use vibe_caravan.Error.{ok}
use vibe_caravan.Exec.{Sys}
use vibe_caravan.Transfer.{LocalFsCopyBackend, ResolvedCopyStrategy}
use vibe_caravan.Transfer.AtomicCopy.{temp_destination_path}
use vibe_caravan.Transfer.BatchCopy.{copy_batch}
use vibe_caravan.Transfer.BatchCopy.Whole.{paths_of, AreApart, IsNoTemp, IsWhole, IsCopy}
use vibe_caravan.Transfer.BatchCopy.Complete.{copy_batch-IsWhole, copy_batch-IsCopy}
use vibe_caravan.Conflict.{detect_batch_conflicts}
use vibe_caravan.Conflict.Search.{IsCounted, stands, detect_batch_conflicts-search}
use vibe_caravan.Tests.Data.{batch_1, path_a, path_b, planned_state}
use vibe_caravan.Tests.Disk.{Disk, put, content, disk_env, disk_volume, disk_laws, disk_host}

abbrev source : FilePath
source = text "src" ∷ []

abbrev dest : FilePath
dest = text "dst" ∷ []

abbrev backend : LocalFsCopyBackend
backend = record { file_copier = ResolvedCopyStrategy.native_preferred; durable_writes = true }

abbrev before : Sys Disk
before = record {
  state = planned_state;
  world =
      put (join source path_a) (some (text "aaaaa"))
        (put (join source path_b) (some (text "bbbb")) (put dest (some []) (λ q. none)));
}

either_path :
    (r : FilePath) → contains (paths_of batch_1.files) r ≡ true → (path_a ≡ r) ⊎ (path_b ≡ r)
either_path r h = ground (arith, h, path_eq.beq_iff path_a r, path_eq.beq_iff path_b r)

of_both :
    (P : FilePath → Type 0)
    → P path_a
    → P path_b
    → (r : FilePath) → contains (paths_of batch_1.files) r ≡ true
    → P r
of_both P a b r m = elim (either_path r m) [ inl e ↦ subst P e a | inr e ↦ subst P e b ]

apart : AreApart source dest (paths_of batch_1.files)
unfolding temp_destination_path text_eq path_eq
apart = record {
  source_temp = λ r r' m m'.
      of_both (λ x. (temp_destination_path (join dest x) == join source r') ≡ false)
        (of_both (λ y. (temp_destination_path (join dest path_a) == join source y) ≡ false) refl
          refl r' m')
        (of_both (λ y. (temp_destination_path (join dest path_b) == join source y) ≡ false) refl
          refl r' m')
        r m;
  source_place = λ r r' m m'.
      of_both (λ x. (join dest x == join source r') ≡ false)
        (of_both (λ y. (join dest path_a == join source y) ≡ false) refl refl r' m')
        (of_both (λ y. (join dest path_b == join source y) ≡ false) refl refl r' m') r m;
  place_temp = λ r r' m m'.
      of_both (λ x. (temp_destination_path (join dest x) == join dest r') ≡ false)
        (of_both (λ y. (temp_destination_path (join dest path_a) == join dest y) ≡ false) refl refl
          r' m')
        (of_both (λ y. (temp_destination_path (join dest path_b) == join dest y) ≡ false) refl refl
          r' m')
        r m;
}

source_no_temp : IsNoTemp content source dest (paths_of batch_1.files) (join source path_a)
unfolding temp_destination_path text_eq path_eq
source_no_temp r m =
    of_both (λ x. (temp_destination_path (join dest x) == join source path_a) ≡ false) refl refl r m

copy_batch-IsWhole_example :
    let w = (copy_batch disk_env disk_volume backend batch_1 source dest before).1.world in
    (content (join source path_a) w ≡ content (join source path_a) before.world)
    ⊎ IsWhole content source dest (paths_of batch_1.files) (join source path_a) before.world w
copy_batch-IsWhole_example =
    copy_batch-IsWhole disk_env disk_volume content disk_laws backend source dest batch_1 apart
      before (join source path_a) source_no_temp

copied : (copy_batch disk_env disk_volume backend batch_1 source dest before).0 ≡ ok tt
unfolding copy_batch text_eq path_eq sort_by
copied = refl

copy_batch-IsCopy_example :
    All
      (λ f.
        IsCopy content source dest f before
          (copy_batch disk_env disk_volume backend batch_1 source dest before).1)
      batch_1.files
copy_batch-IsCopy_example =
    copy_batch-IsCopy disk_env disk_volume content disk_laws backend source dest batch_1 apart
      before copied

dest_there : disk_env.exists dest before.world ≡ true
unfolding text_eq path_eq
dest_there = refl

detect_batch_conflicts-search_example :
    IsCounted disk_host (detect_batch_conflicts disk_host batch_1 dest before.world)
    × ((q : FilePath)
        → contains (detect_batch_conflicts disk_host batch_1 dest before.world).existing_files q
          ≡ contains
              (map
                (λ e. join dest e.relative_path)
                (select (stands disk_host dest before.world) batch_1.files))
              q)
detect_batch_conflicts-search_example =
    detect_batch_conflicts-search disk_host batch_1 dest before.world dest_there (tt, (tt, tt))
