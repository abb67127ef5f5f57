-- ===== src/Models/State/Keyed.antt =====
-- Lists of records with an id: the reference for what the indexed operations of the state do.
use native.Mathlib.Nat.{zero-add}
use vibe_caravan.Prelude.{
  ℕ, zero, suc, ◌+◌, ◌≡◌, refl, ◌||◌, true, Option, none, some, List, [], ◌∷◌, ◌++◌, map, arith,
  Text, text_eq, ◌==◌, if◌then◌else◌, Bool-cases, ◌⊎◌, inl, inr, get_elem?, set, find, contains,
  IsNodup,
}
use vibe_caravan.Models.Index.Position.{position_from, position}

module _ {ℓ} {A : Type ℓ} (id_of : A → Text) where
  -- The first record with the id is replaced, or the record is put at the end.
  abbrev pub upsert : A → List A → List A
  upsert b [] = b ∷ []
  upsert b (c ∷ cs) = if id_of c == id_of b then b ∷ cs else c ∷ upsert b cs

  abbrev pub find_id : List A → Text → Option A
  find_id xs id = find (λ c. id_of c == id) xs

  pub find_id-upsert :
      (b : A) (xs : List A) (j : Text)
      → find_id (upsert b xs) j ≡ (if id_of b == j then some b else find_id xs j)
  find_id-upsert b [] j = refl
  find_id-upsert b (c ∷ cs) j = ground (
    arith,
    find_id-upsert b cs j,
    text_eq.beq_iff (id_of c) (id_of b),
    text_eq.beq_iff (id_of c) j,
    text_eq.beq_iff (id_of b) j,
  )

  contains_of_get_elem? :
      (xs : List A) (i : ℕ) (id : Text)
      → get_elem? (map id_of xs) i ≡ some id
      → contains (map id_of xs) id ≡ true
  contains_of_get_elem? [] i id h = absurd (ground arith)
  contains_of_get_elem? (x ∷ xs) zero id h = ground (arith, text_eq.beq_iff (id_of x) id)
  contains_of_get_elem? (x ∷ xs) (suc i) id h = ground (arith, contains_of_get_elem? xs i id h)

  -- With different ids, a position that holds the id holds the record that a search finds.
  pub find_id-eq-get_elem? :
      (xs : List A) (i : ℕ) (id : Text)
      → IsNodup (map id_of xs)
      → get_elem? (map id_of xs) i ≡ some id
      → find_id xs id ≡ get_elem? xs i
  find_id-eq-get_elem? [] i id n h = absurd (ground arith)
  find_id-eq-get_elem? (x ∷ xs) zero id n h = ground (arith, text_eq.beq_iff (id_of x) id)
  find_id-eq-get_elem? (x ∷ xs) (suc i) id n h = ground (
    arith,
    find_id-eq-get_elem? xs i id n.1 h,
    contains_of_get_elem? xs i id h,
    text_eq.beq_iff (id_of x) id,
  )

  pub find_id_of_contains :
      (xs : List A) (id : Text)
      → contains (map id_of xs) id ≡ true
      → (x : A) × (find_id xs id ≡ some x) × (id_of x ≡ id)
  find_id_of_contains [] id h = absurd (ground arith)
  find_id_of_contains (x ∷ xs) id h = elim (Bool-cases (id_of x == id)) [
    | inl here ↦ (x, ground arith, (text_eq.beq_iff (id_of x) id).0 here)
    | inr there ↦ let (y, e, k) = find_id_of_contains xs id (ground arith) in (y, ground arith, k)
  ]

  pub id_of-find_id : (xs : List A) (id : Text) {x : A} → find_id xs id ≡ some x → id_of x ≡ id
  id_of-find_id [] id h = absurd (ground arith)
  id_of-find_id (y ∷ ys) id {x = x} h =
      ground (arith, id_of-find_id ys id {x = x}, text_eq.beq_iff (id_of y) id)

  -- The write of the program, at the position of the id or at the end, is `upsert`.
  abbrev pub write_at : A → List A → Option ℕ → List A
  write_at b xs none = xs ++ (b ∷ [])
  write_at b xs (some i) = set xs i b

  write_at-from :
      (k : ℕ) (b : A) (xs : List A) (o : Option ℕ)
      → position_from k (map id_of xs) (id_of b) ≡ o
      → ((o ≡ none) × (xs ++ (b ∷ []) ≡ upsert b xs))
        ⊎ ((i : ℕ) × (o ≡ some (k + i)) × (set xs i b ≡ upsert b xs))
  write_at-from k b [] o h = inl (ground arith, refl)
  write_at-from k b (x ∷ xs) o h = elim (Bool-cases (id_of x == id_of b)) [
    | inl here ↦ inr (0, ground arith, rw here)
    | inr there ↦ elim (write_at-from (k + 1) b xs o (ground arith)) [
      | inl (e, w) ↦ inl (e, ground (arith, w))
      | inr (i, e, w) ↦ inr (suc i, ground arith, ground (arith, w))
    ]
  ]

  pub write_at-position :
      (b : A) (xs : List A) → write_at b xs (position (map id_of xs) (id_of b)) ≡ upsert b xs
  write_at-position b xs = elim (write_at-from 0 b xs (position (map id_of xs) (id_of b)) refl) [
    | inl (e, w) ↦ rw e w
    | inr (i, e, w) ↦ rw (e, zero-add) w
  ]

  pub contains-upsert :
      (b : A) (xs : List A) (j : Text)
      → contains (map id_of (upsert b xs)) j ≡ (id_of b == j || contains (map id_of xs) j)
  contains-upsert b [] j = refl
  contains-upsert b (c ∷ cs) j = ground (
    arith,
    contains-upsert b cs j,
    text_eq.beq_iff (id_of c) (id_of b),
    text_eq.beq_iff (id_of c) j,
    text_eq.beq_iff (id_of b) j,
  )

  pub IsNodup-upsert :
      (b : A) (xs : List A) → IsNodup (map id_of xs) → IsNodup (map id_of (upsert b xs))
  IsNodup-upsert b [] n = (refl, tt)
  IsNodup-upsert b (c ∷ cs) n = ground (
    arith,
    IsNodup-upsert b cs n.1,
    contains-upsert b cs (id_of c),
    text_eq.beq_iff (id_of c) (id_of b),
    text_eq.beq_iff (id_of b) (id_of c),
  )
