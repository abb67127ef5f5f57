-- ===== src/Models/Index.antt =====
-- `MigrationStateLookupIndex` of src/models/state.rs: the positions of the batches by their ids, a
-- cache that is not persisted. The two halves of the index (for batches and for planned batches)
-- have one code over lists of ids, and so has the model.
pub mod Position
pub mod Ensure
use vibe_caravan.Prelude.{
  ℕ, zero, suc, ◌+◌, Bool, true, false, ◌||◌, not, Option, none, some, List, [], ◌∷◌, ◌++◌, Text,
  text_eq, ◌==◌, nat_beq, if◌then◌else◌, length, get_elem?,
}
use vibe_caravan.Models.HashMap.{HashMap, get, insert}

-- One half of `MigrationStateLookupIndex`.
pub record Positions : Type 0 where
  pub pos_by_id : HashMap Text ℕ
  pub ids_in_order : List Text

-- `MigrationStateLookupIndex::default()`, for one half.
abbrev pub no_positions : Positions
no_positions = record { pos_by_id = []; ids_in_order = [] }

-- `for (index, batch) in batches.iter().enumerate()`, from `index` on.
abbrev pub rebuild_from : ℕ → List Text → Positions → Positions
rebuild_from index [] p = p
rebuild_from index (id ∷ ids) p =
    rebuild_from (index + 1) ids (record {
      pos_by_id = insert p.pos_by_id id index;
      ids_in_order = p.ids_in_order ++ (id ∷ []);
    })

-- `rebuild_batch_index` and `rebuild_planned_batch_index`, over the ids of the list.
unfoldable pub rebuild_index : List Text → Positions
rebuild_index ids = rebuild_from 0 ids no_positions

abbrev pub is_some_of_id : Option Text → Text → Bool
is_some_of_id none id = false
is_some_of_id (some j) id = j == id

abbrev pub is_some_of_pos : Option ℕ → ℕ → Bool
is_some_of_pos none index = false
is_some_of_pos (some i) index = nat_beq i index

abbrev pub consistent_from : ℕ → List Text → Positions → Bool
consistent_from index [] p = true
consistent_from index (id ∷ ids) p =
    if not (is_some_of_id (get_elem? p.ids_in_order index) id)
    then false
    else if not (is_some_of_pos (get p.pos_by_id id) index)
    then false
    else consistent_from (index + 1) ids p

-- `is_batch_index_consistent` and `is_planned_batch_index_consistent`, over the ids of the list.
unfoldable pub is_index_consistent : Positions → List Text → Bool
is_index_consistent p ids =
    if not (nat_beq (length p.pos_by_id) (length ids))
      || not (nat_beq (length p.ids_in_order) (length ids))
    then false
    else consistent_from 0 ids p

-- `ensure_batch_index_consistent` and `ensure_planned_batch_index_consistent`.
unfoldable pub ensure_index_consistent : Positions → List Text → Positions
unfolding is_index_consistent rebuild_index
ensure_index_consistent p ids = if not (is_index_consistent p ids) then rebuild_index ids else p
