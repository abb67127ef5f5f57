-- ===== src/Models/HashMap.antt =====
-- `std::collections::HashMap` as the program uses it: `get`, `insert`, `len` and `clear`. The keys
-- of a map are pairwise different, which `IsNodup (keys m)` states.
use vibe_caravan.Prelude.{
  ◌+◌, ◌≡◌, refl, true, false, Option, none, some, List, [], ◌∷◌, ◌||◌, arith, Eq, ◌==◌,
  if◌then◌else◌, length, contains, IsNodup,
}

abbrev pub HashMap {ℓ κ} : Type ℓ → Type κ → Type (ℓ ⊔ κ)
HashMap K V = List (K × V)

module _ {ℓ κ} {K : Type ℓ} {V : Type κ} where
  abbrev pub keys : HashMap K V → List K
  keys [] = []
  keys ((k, v) ∷ m) = k ∷ keys m

module _ {ℓ κ} {K : Type ℓ} {V : Type κ} ⦃e : Eq K⦄ where
  abbrev pub get : HashMap K V → K → Option V
  get [] k = none
  get ((j, v) ∷ m) k = if j == k then some v else get m k

  abbrev pub insert : HashMap K V → K → V → HashMap K V
  insert [] k v = (k, v) ∷ []
  insert ((j, w) ∷ m) k v = if j == k then (k, v) ∷ m else (j, w) ∷ insert m k v

  pub get-insert :
      (m : HashMap K V) (k j : K) (v : V)
      → get (insert m k v) j ≡ (if k == j then some v else get m j)
  get-insert [] k j v = refl
  get-insert ((i, w) ∷ m) k j v =
      ground (arith, e.beq_iff k j, e.beq_iff i k, e.beq_iff i j, get-insert m k j v)

  pub contains-keys-insert :
      (m : HashMap K V) (k j : K) (v : V)
      → contains (keys (insert m k v)) j ≡ (k == j || contains (keys m) j)
  contains-keys-insert [] k j v = refl
  contains-keys-insert ((i, w) ∷ m) k j v =
      ground (arith, e.beq_iff k j, e.beq_iff i k, e.beq_iff i j, contains-keys-insert m k j v)

  pub insert-IsNodup :
      (m : HashMap K V) (k : K) (v : V) → IsNodup (keys m) → IsNodup (keys (insert m k v))
  insert-IsNodup [] k v h = (refl, tt)
  insert-IsNodup ((i, w) ∷ m) k v h =
      ground (
        arith,
        contains-keys-insert m k i v,
        insert-IsNodup m k v h.1,
        e.beq_iff i k,
        e.beq_iff k i,
      )

  pub get-eq_none : (m : HashMap K V) (k : K) → contains (keys m) k ≡ false → get m k ≡ none
  get-eq_none [] k h = refl
  get-eq_none ((i, w) ∷ m) k h = ground (arith, get-eq_none m k)

  pub contains-keys_of_get :
      (m : HashMap K V) (k : K) {v : V} → get m k ≡ some v → contains (keys m) k ≡ true
  contains-keys_of_get [] k h = ground arith
  contains-keys_of_get ((i, w) ∷ m) k {v = v} h = ground (arith, contains-keys_of_get m k {v = v})

  pub length-insert_new :
      (m : HashMap K V) (k : K) (v : V)
      → contains (keys m) k ≡ false
      → length (insert m k v) ≡ length m + 1
  length-insert_new [] k v h = omega arith
  length-insert_new ((i, w) ∷ m) k v h = ground (arith, length-insert_new m k v)

  -- `iter().collect()` into a map: a later pair replaces an earlier one with its key.
  abbrev pub collect_into : HashMap K V → List (K × V) → HashMap K V
  collect_into m [] = m
  collect_into m ((k, v) ∷ kvs) = collect_into (insert m k v) kvs

  abbrev pub collect : List (K × V) → HashMap K V
  collect kvs = collect_into [] kvs

  get-collect_into :
      (m : HashMap K V) (kvs : List (K × V)) (j : K)
      → IsNodup (keys kvs)
      → get (collect_into m kvs) j ≡ (if contains (keys kvs) j then get kvs j else get m j)
  get-collect_into m [] j n = refl
  get-collect_into m ((k, v) ∷ kvs) j n =
      ground (arith, get-collect_into (insert m k v) kvs j n.1, get-insert m k j v, e.beq_iff k j)

  -- With different keys a map that is collected answers as the list.
  pub get-collect :
      (kvs : List (K × V)) (j : K) → IsNodup (keys kvs) → get (collect kvs) j ≡ get kvs j
  get-collect kvs j n = ground (arith, get-collect_into [] kvs j n, get-eq_none kvs j)
