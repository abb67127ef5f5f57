-- ===== src/Transfer/BatchCopy/Whole.antt =====
-- src/transfer/batch_copy.rs: what the copying of a batch may do to the files of the system, and
-- what it has done when it returns.
use vibe_caravan.Prelude.{
  ◌≡◌, refl, ◌∙◌, ◌⊎◌, inl, inr, true, false, List, map, arith, FilePath, path_eq, ◌==◌, join,
  contains,
}
use vibe_caravan.Models.Batch.{FileEntry}
use vibe_caravan.Platform.Volume.{Content}
use vibe_caravan.Exec.{Sys}
use vibe_caravan.Exec.Within.{IsPreorder}
use vibe_caravan.Transfer.AtomicCopy.{temp_destination_path}

abbrev pub paths_of : List FileEntry → List FilePath
paths_of fs = map (λ f. f.relative_path) fs

-- No source of a file of the batch is the place, or the temporary file, of one of them, and no
-- place is a temporary file.
pub record AreApart (source_root destination_root : FilePath) (rels : List FilePath) : Type 0 where
  pub source_temp :
      (r r' : FilePath)
      → contains rels r ≡ true
      → contains rels r' ≡ true
      → (temp_destination_path (join destination_root r) == join source_root r') ≡ false
  pub source_place :
      (r r' : FilePath)
      → contains rels r ≡ true
      → contains rels r' ≡ true
      → (join destination_root r == join source_root r') ≡ false
  pub place_temp :
      (r r' : FilePath)
      → contains rels r ≡ true
      → contains rels r' ≡ true
      → (temp_destination_path (join destination_root r) == join destination_root r') ≡ false

module _ {W : Type 0} (content : FilePath → W → Content)
    (source_root destination_root : FilePath) where
  -- The place of a file has the bytes that its source had before.
  abbrev pub IsCopy : FileEntry → Sys W → Sys W → Type 0
  IsCopy f s t =
      content (join destination_root f.relative_path) t.world
      ≡ content (join source_root f.relative_path) s.world

module _ {W : Type 0} (content : FilePath → W → Content) (source_root destination_root : FilePath)
    (rels : List FilePath) where
  -- The path is no temporary file of the batch.
  abbrev pub IsNoTemp : FilePath → Type 0
  IsNoTemp q =
      (r : FilePath)
      → contains rels r ≡ true
      → (temp_destination_path (join destination_root r) == q) ≡ false

  -- The file at `q` is that of the batch there, with the bytes that its source had.
  pub record IsWhole (q : FilePath) (w w' : W) : Type 0 where
    pub rel : FilePath
    pub among : contains rels rel ≡ true
    pub place : q ≡ join destination_root rel
    pub whole : content q w' ≡ content (join source_root rel) w

  -- Each file, but for temporary ones, is as it was, or is a whole copy.
  abbrev pub WholeFiles : Sys W → Sys W → Type 0
  WholeFiles s t =
      (q : FilePath)
      → IsNoTemp q
      → (content q t.world ≡ content q s.world) ⊎ IsWhole q s.world t.world

  module _ (apart : AreApart source_root destination_root rels) where
    pub source-kept :
        (r : FilePath) (s t : Sys W)
        → contains rels r ≡ true
        → WholeFiles s t
        → content (join source_root r) t.world ≡ content (join source_root r) s.world
    source-kept r s t m h = elim (h (join source_root r) (λ r' m'. apart.source_temp r' r m' m)) [
      | inl same ↦ same
      | inr x ↦ absurd (
          ground (
            arith,
            apart.source_place x.rel r x.among m,
            path_eq.beq_iff (join destination_root x.rel) (join source_root r),
            x.place,
          ))
    ]

    WholeFiles-chain : (s t u : Sys W) → WholeFiles s t → WholeFiles t u → WholeFiles s u
    WholeFiles-chain s t u h k q n = elim (k q n) [
      | inl same ↦ elim (h q n) [
        | inl before ↦ inl (same ∙ before)
        | inr x ↦
            inr (record { rel = x.rel; among = x.among; place = x.place; whole = same ∙ x.whole })
      ]
      | inr x ↦ inr (record {
        rel = x.rel;
        among = x.among;
        place = x.place;
        whole = x.whole ∙ source-kept x.rel s t x.among h;
      })
    ]

    pub WholeFiles-preorder : IsPreorder WholeFiles
    WholeFiles-preorder = record { same = λ s q n. inl refl; chain = WholeFiles-chain }
