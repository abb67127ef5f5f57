-- ===== src/Models/Index/Ensure.antt =====
-- src/models/state.rs: the repair of the lookup index against a search of the list.
use native.Mathlib.Nat.{zero-add}
use vibe_caravan.Prelude.{
  ℕ, suc, ◌+◌, ◌≡◌, refl, sym, ◌∙◌, ◌⊎◌, inl, inr, true, false, none, some, List, [], ◌∷◌, ◌++◌,
  arith, Text, text_eq, ◌==◌, Bool-cases, length, get_elem?, contains, IsNodup, contains_of_length,
}
use vibe_caravan.Models.HashMap.{
  HashMap, get, insert, keys, get-insert, contains-keys_of_get, get-eq_none,
}
use vibe_caravan.Models.Index.{
  Positions, no_positions, rebuild_from, rebuild_index, consistent_from, is_index_consistent,
  ensure_index_consistent,
}
use vibe_caravan.Models.Index.Position.{
  position_from, position, position_from-eq_none, get-rebuild_from, IsMap, consistent_from-get,
  consistent_from-IsNodup, consistent_from-position,
}

length-keys : (m : HashMap Text ℕ) → length (keys m) ≡ length m
length-keys [] = refl
length-keys ((k, v) ∷ m) = omega (arith, length-keys m)

is_consistent-length :
    (p : Positions) (ids : List Text)
    → is_index_consistent p ids ≡ true
    → length p.pos_by_id ≡ length ids
unfolding is_index_consistent
is_consistent-length p ids h = ground arith

is_consistent-from :
    (p : Positions) (ids : List Text)
    → is_index_consistent p ids ≡ true
    → consistent_from 0 ids p ≡ true
unfolding is_index_consistent
is_consistent-from p ids h = ground arith

-- A consistent index has no entry for an id that is not in the list: the map has as many entries
-- as the list has ids, and each id has one.
consistent-eq_none :
    (p : Positions) (ids : List Text) (id : Text)
    → IsMap p
    → is_index_consistent p ids ≡ true
    → contains ids id ≡ false
    → get p.pos_by_id id ≡ none
consistent-eq_none p ids id m c h =
    let nodup : IsNodup ids = consistent_from-IsNodup 0 ids p (is_consistent-from p ids c) in
    let same : length (keys p.pos_by_id) ≡ length ids =
      omega (arith, length-keys p.pos_by_id, is_consistent-length p ids c) in
    elim (Bool-cases (contains (keys p.pos_by_id) id)) [
      | inl held ↦ absurd (
          ground (
            arith,
            contains_of_length ids (keys p.pos_by_id) nodup
                (λ a q.
                  let (i, e, l) = consistent_from-get 0 ids p a (is_consistent-from p ids c) q in
                  contains-keys_of_get p.pos_by_id a e)
                same id held,
          ))
      | inr new ↦ get-eq_none p.pos_by_id id new
    ]

consistent-position :
    (p : Positions) (ids : List Text) (id : Text)
    → IsMap p
    → is_index_consistent p ids ≡ true
    → get p.pos_by_id id ≡ position ids id
consistent-position p ids id m c = elim (Bool-cases (contains ids id)) [
  | inl old ↦ consistent_from-position 0 ids p id (is_consistent-from p ids c) old
  | inr new ↦ consistent-eq_none p ids id m c new ∙ sym (position_from-eq_none 0 ids id new)
]

-- With different ids, and whatever stale entries the index held, the repaired index finds each id
-- at its position in the list, and no other id.
pub ensure-position :
    (p : Positions) (ids : List Text) (id : Text)
    → IsMap p
    → IsNodup ids
    → get (ensure_index_consistent p ids).pos_by_id id ≡ position ids id
unfolding ensure_index_consistent rebuild_index
ensure-position p ids id m n = elim (Bool-cases (is_index_consistent p ids)) [
  | inl good ↦ rw good (consistent-position p ids id m good)
  | inr bad ↦ ground (arith, bad, get-rebuild_from 0 ids no_positions id n)
]

-- The position of an id, counted from `k`, holds that id.
pub position_from-get_elem? :
    (k : ℕ) (ids : List Text) (id : Text) {i : ℕ}
    → position_from k ids id ≡ some i
    → (j : ℕ) × (i ≡ k + j) × (get_elem? ids j ≡ some id)
position_from-get_elem? k [] id h = absurd (ground arith)
position_from-get_elem? k (x ∷ xs) id {i = i} h = elim (Bool-cases (x == id)) [
  | inl here ↦ (0, ground arith, ground (arith, text_eq.beq_iff x id))
  | inr there ↦
      let (j, l, g) = position_from-get_elem? (k + 1) xs id {i = i} (ground arith) in
      (suc j, omega arith, g)
]

-- Where an index that is rebuilt answers, the answer holds the id, also where an id is repeated.
rebuild_from-get_elem? :
    (k : ℕ) (ids : List Text) (p : Positions) (id : Text) {i : ℕ}
    → get (rebuild_from k ids p).pos_by_id id ≡ some i
    → ((j : ℕ) × (i ≡ k + j) × (get_elem? ids j ≡ some id)) ⊎ (get p.pos_by_id id ≡ some i)
rebuild_from-get_elem? k [] p id h = inr h
rebuild_from-get_elem? k (x ∷ xs) p id {i = i} h =
    elim (rebuild_from-get_elem? (k + 1) xs
      (record { pos_by_id = insert p.pos_by_id x k; ids_in_order = p.ids_in_order ++ (x ∷ []) }) id
      {i = i} h) [
        | inl (j, l, g) ↦ inl (suc j, omega arith, g)
        | inr old ↦ elim (Bool-cases (x == id)) [
          | inl here ↦ inl (
            0,
            ground (arith, old, get-insert p.pos_by_id x id k),
            ground (arith, text_eq.beq_iff x id),
          )
          | inr there ↦ inr (ground (arith, old, get-insert p.pos_by_id x id k))
        ]
      ]

-- The index never points outside the list or at another id, also where ids are repeated.
pub ensure-get_elem? :
    (p : Positions) (ids : List Text) (id : Text) {i : ℕ}
    → IsMap p
    → get (ensure_index_consistent p ids).pos_by_id id ≡ some i
    → get_elem? ids i ≡ some id
unfolding ensure_index_consistent rebuild_index
ensure-get_elem? p ids id {i = i} m h = elim (Bool-cases (is_index_consistent p ids)) [
  | inl good ↦
      let (j, l, g) =
        position_from-get_elem? 0 ids id {i = i}
          (sym (consistent-position p ids id m good) ∙ (rw good at h)) in
      rw l (rw zero-add g)
  | inr bad ↦ elim (rebuild_from-get_elem? 0 ids no_positions id {i = i} (rw bad at h)) [
    | inl (j, l, g) ↦ rw l (rw zero-add g)
    | inr impossible ↦ absurd (ground (arith, impossible))
  ]
]
