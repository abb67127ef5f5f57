-- ===== src/Models/Index/Position.antt =====
-- What the lookup index means: an id stands at its position in the list of ids.
use vibe_caravan.Prelude.{
  ℕ, ◌+◌, ◌≤◌, ◌≡◌, refl, inl, inr, true, false, Option, none, some, List, [], ◌∷◌, ◌++◌, arith,
  Text, text_eq, ◌==◌, if◌then◌else◌, Bool-cases, contains, IsNodup,
}
use vibe_caravan.Models.HashMap.{get, insert, keys, get-insert, insert-IsNodup}
use vibe_caravan.Models.Index.{
  Positions, no_positions, rebuild_from, consistent_from, is_index_consistent,
  ensure_index_consistent,
}

-- The position of the first occurrence, counted from `k`.
abbrev pub position_from : ℕ → List Text → Text → Option ℕ
position_from k [] id = none
position_from k (x ∷ xs) id = if x == id then some k else position_from (k + 1) xs id

abbrev pub position : List Text → Text → Option ℕ
position xs id = position_from 0 xs id

abbrev or_else : Option ℕ → Option ℕ → Option ℕ
or_else (some i) o = some i
or_else none o = o

pub position_from-eq_none :
    (k : ℕ) (xs : List Text) (id : Text) → contains xs id ≡ false → position_from k xs id ≡ none
position_from-eq_none k [] id h = refl
position_from-eq_none k (x ∷ xs) id h = ground (arith, position_from-eq_none (k + 1) xs id)

position_from-some :
    (k : ℕ) (xs : List Text) (id : Text)
    → contains xs id ≡ true
    → (i : ℕ) × (position_from k xs id ≡ some i)
position_from-some k [] id h = absurd (ground arith)
position_from-some k (x ∷ xs) id h = elim (Bool-cases (x == id)) [
  | inl here ↦ (k, ground arith)
  | inr there ↦ let (i, e) = position_from-some (k + 1) xs id (ground arith) in (i, ground arith)
]

pub get-rebuild_from :
    (k : ℕ) (ids : List Text) (p : Positions) (id : Text)
    → IsNodup ids
    → get (rebuild_from k ids p).pos_by_id id
      ≡ or_else (position_from k ids id) (get p.pos_by_id id)
get-rebuild_from k [] p id n = refl
get-rebuild_from k (x ∷ xs) p id n = ground (
  arith,
  get-rebuild_from (k + 1) xs
      (record { pos_by_id = insert p.pos_by_id x k; ids_in_order = p.ids_in_order ++ (x ∷ []) }) id
      n.1,
  get-insert p.pos_by_id x id k,
  position_from-eq_none (k + 1) xs id,
  text_eq.beq_iff x id,
)

-- The hash map of the index is one: its keys differ.
abbrev pub IsMap : Positions → Type 0
IsMap p = IsNodup (keys p.pos_by_id)

rebuild_from-IsMap :
    (k : ℕ) (ids : List Text) (p : Positions) → IsMap p → IsMap (rebuild_from k ids p)
rebuild_from-IsMap k [] p m = m
rebuild_from-IsMap k (x ∷ xs) p m =
    rebuild_from-IsMap (k + 1) xs
      (record { pos_by_id = insert p.pos_by_id x k; ids_in_order = p.ids_in_order ++ (x ∷ []) })
      (insert-IsNodup p.pos_by_id x k m)

pub ensure-IsMap :
    (p : Positions) (ids : List Text) → IsMap p → IsMap (ensure_index_consistent p ids)
unfolding ensure_index_consistent
ensure-IsMap p ids m = elim (Bool-cases (is_index_consistent p ids)) [
  | inl good ↦ rw good m
  | inr bad ↦ rw bad (rebuild_from-IsMap 0 ids no_positions tt)
]

-- A consistent index has an entry, at or after `k`, for each id that stands from `k` on.
pub consistent_from-get :
    (k : ℕ) (ids : List Text) (p : Positions) (id : Text)
    → consistent_from k ids p ≡ true
    → contains ids id ≡ true
    → (i : ℕ) × (get p.pos_by_id id ≡ some i) × (k ≤ i)
consistent_from-get k [] p id c h = absurd (ground arith)
consistent_from-get k (x ∷ xs) p id c h = elim (Bool-cases (x == id)) [
  | inl here ↦ (k, ground (arith, text_eq.beq_iff x id), omega arith)
  | inr there ↦
      let (i, e, l) = consistent_from-get (k + 1) xs p id (ground arith) (ground arith) in
      (i, e, omega arith)
]

pub consistent_from-IsNodup :
    (k : ℕ) (ids : List Text) (p : Positions) → consistent_from k ids p ≡ true → IsNodup ids
consistent_from-IsNodup k [] p c = tt
consistent_from-IsNodup k (x ∷ xs) p c =
    let rest : consistent_from (k + 1) xs p ≡ true = ground arith in
    (
      elim (Bool-cases (contains xs x)) [
        | inl twice ↦
            let (i, e, l) = consistent_from-get (k + 1) xs p x rest twice in absurd (ground arith)
        | inr once ↦ once
      ],
      consistent_from-IsNodup (k + 1) xs p rest,
    )

pub consistent_from-position :
    (k : ℕ) (ids : List Text) (p : Positions) (id : Text)
    → consistent_from k ids p ≡ true
    → contains ids id ≡ true
    → get p.pos_by_id id ≡ position_from k ids id
consistent_from-position k [] p id c h = absurd (ground arith)
consistent_from-position k (x ∷ xs) p id c h =
    ground (arith, consistent_from-position (k + 1) xs p id, text_eq.beq_iff x id)
