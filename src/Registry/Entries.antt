-- ===== src/Registry/Entries.antt =====
-- src/migration_registry.rs: the ids of the entries.
use vibe_caravan.Prelude.{
  ℕ, ◌+◌, ◌%◌, ◌≡◌, ◌<◌, refl, false, Option, none, some, List, [], ◌∷◌, ◌++◌, map, arith, Text,
  text_eq, nat_eq, nat_beq, find, contains, IsNodup, IsNodup-concat, All, All-append, if◌then◌else◌,
}
use vibe_caravan.Registry.{
  MigrationStatus, MigrationEntry, MigrationRegistry, find_by_id, add_migration, new_entry,
  change_first,
}

abbrev ids_of : List MigrationEntry → List ℕ
ids_of ms = map (λ m. m.id) ms

-- The ids differ, and those to come are new.
pub record IsNumbered (r : MigrationRegistry) : Type 0 where
  pub differ : IsNodup (ids_of r.migrations)
  pub below : All (λ m. m.id < r.next_id) r.migrations

not_below :
    (ms : List MigrationEntry) (n : ℕ) → All (λ m. m.id < n) ms → contains (ids_of ms) n ≡ false
not_below [] n h = refl
not_below (m ∷ ms) n h = ground (arith, h.0, not_below ms n h.1)

below_more :
    (ms : List MigrationEntry) (n : ℕ) → All (λ m. m.id < n) ms → All (λ m. m.id < n + 1) ms
below_more [] n h = tt
below_more (m ∷ ms) n h = (omega (arith, h.0), below_more ms n h.1)

ids_of-append :
    (ms : List MigrationEntry) (m : MigrationEntry)
    → ids_of (ms ++ (m ∷ [])) ≡ ids_of ms ++ (m.id ∷ [])
ids_of-append [] m = refl
ids_of-append (x ∷ ms) m = rw (ids_of-append ms m) refl

find_new :
    (ms : List MigrationEntry) (m : MigrationEntry)
    → contains (ids_of ms) m.id ≡ false
    → find (λ x. nat_beq x.id m.id) (ms ++ (m ∷ [])) ≡ some m
find_new [] m h = ground arith
find_new (x ∷ ms) m h = ground (arith, find_new ms m, h)

find_old :
    (ms : List MigrationEntry) (m : MigrationEntry) (j : ℕ)
    → nat_beq m.id j ≡ false
    → find (λ x. nat_beq x.id j) (ms ++ (m ∷ [])) ≡ find (λ x. nat_beq x.id j) ms
find_old [] m j h = ground (arith, h)
find_old (x ∷ ms) m j h = ground (arith, find_old ms m j h)

-- In a registry whose ids differ and are below the next one, which is not the last `u64`, a new
-- migration gets an id that no entry has, its entry is found by it, every other id finds what it
-- found, and the ids of the new registry differ and are below the next one.
pub add_migration-IsNumbered :
    (now : ℕ) (r : MigrationRegistry) (source destination mode state_file : Text)
    → IsNumbered r
    → r.next_id + 1 < 18446744073709551616
    → let (id, r') = add_migration now r source destination mode state_file in
      (find_by_id r id ≡ none)
      × ((m : MigrationEntry) × (find_by_id r' id ≡ some m)
          × (m.source ≡ source)
          × (m.destination ≡ destination)
          × (m.status ≡ MigrationStatus.not_started))
      × ((j : ℕ) → nat_beq id j ≡ false → find_by_id r' j ≡ find_by_id r j)
      × IsNumbered r'
unfolding add_migration find_by_id
add_migration-IsNumbered now r source destination mode state_file n small =
    let wrapped : (r.next_id + 1) % 18446744073709551616 ≡ r.next_id + 1 = omega (arith, small) in
    let m = new_entry now r.next_id source destination mode state_file in
    let fresh = not_below r.migrations r.next_id n.below in
    (
      absent r.migrations r.next_id fresh,
      (m, find_new r.migrations m fresh, refl, refl, refl),
      λ j other. find_old r.migrations m j other,
      record {
        differ =
            rw (ids_of-append r.migrations m)
              (IsNodup-concat (ids_of r.migrations) r.next_id n.differ fresh);
        below = rw wrapped (
            All-append (λ x. x.id < r.next_id + 1) r.migrations (m ∷ [])
              (below_more r.migrations r.next_id n.below) (omega arith, tt));
      },
    )
  where
    absent :
        (ms : List MigrationEntry) (i : ℕ)
        → contains (ids_of ms) i ≡ false
        → find (λ x. nat_beq x.id i) ms ≡ none
    absent [] i h = refl
    absent (x ∷ ms) i h = ground (arith, absent ms i, h)

abbrev pub changed :
    (MigrationEntry → MigrationEntry) → Option MigrationEntry → Option MigrationEntry
changed f none = none
changed f (some m) = some (f m)

-- A change that keeps the id of an entry changes what its id finds, and nothing else.
pub find-change_first :
    (id j : ℕ) (f : MigrationEntry → MigrationEntry) (ms : List MigrationEntry)
    → ((m : MigrationEntry) → (f m).id ≡ m.id)
    → find (λ m. nat_beq m.id j) (change_first id f ms) ≡ (
        if nat_beq id j
        then changed f (find (λ m. nat_beq m.id j) ms)
        else find (λ m. nat_beq m.id j) ms)
find-change_first id j f [] h = ground arith
find-change_first id j f (m ∷ ms) h = ground (arith, find-change_first id j f ms h, h m)
