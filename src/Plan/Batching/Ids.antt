-- ===== src/Plan/Batching/Ids.antt =====
-- src/plan/batching.rs: the ids of the planned batches.
use vibe_caravan.Prelude.{
  ℕ, zero, suc, ◌+◌, ◌<◌, ◌≡◌, refl, ◌∙◌, ap, inl, inr, Bool, true, false, not, List, [], ◌∷◌, ◌++◌,
  map, arith, Text, text_eq, ltb, Bool-cases, is_empty, length, length-append, contains, IsNodup,
  sort_by, padded_injective,
}
use vibe_caravan.Error.{ok}
use vibe_caravan.Models.Batch.{Batch, FileEntry}
use vibe_caravan.Plan.Batching.{
  PlanOptions, Planner, batch_name, make_batch, flush, flush_if, is_full, plan_entry, plan_entries,
  no_batches, build_batches_from_ordered_entries, plan_batches, cmp_for_planning,
}

abbrev pub ids : List Batch → List Text
ids bs = map (λ b. b.id) bs

-- The names with the numbers `k`, `k + 1`, …, `n` of them.
abbrev pub numbered : ℕ → ℕ → List Text
numbered k zero = []
numbered k (suc n) = batch_name k ∷ numbered (k + 1) n

batch_name_injective : (n m : ℕ) → batch_name n ≡ batch_name m → n ≡ m
unfolding batch_name
batch_name_injective n m h = padded_injective 6 n m (cc)

contains-numbered : (k n j : ℕ) → j < k → contains (numbered k n) (batch_name j) ≡ false
contains-numbered k zero j h = refl
contains-numbered k (suc n) j h = ground (
  arith,
  contains-numbered (k + 1) n j,
  text_eq.beq_iff (batch_name k) (batch_name j),
  batch_name_injective k j,
)

pub numbered-IsNodup : (k n : ℕ) → IsNodup (numbered k n)
numbered-IsNodup k zero = tt
numbered-IsNodup k (suc n) =
    (contains-numbered (k + 1) n k (omega arith), numbered-IsNodup (k + 1) n)

numbered-concat : (k n : ℕ) → numbered k n ++ (batch_name (k + n) ∷ []) ≡ numbered k (suc n)
numbered-concat k zero = let e : k + 0 ≡ k = omega arith in rw e refl
numbered-concat k (suc n) =
    let e : k + suc n ≡ k + 1 + n = omega arith in
    rw e (ap (λ l. batch_name k ∷ l) (numbered-concat (k + 1) n))

-- The batches so far are numbered from one.
abbrev IsNumbered : List Batch → Type 0
IsNumbered bs = ids bs ≡ numbered 1 (length bs)

ids-append : (xs ys : List Batch) → ids (xs ++ ys) ≡ ids xs ++ ids ys
ids-append [] ys = refl
ids-append (x ∷ xs) ys = ap (λ l. x.id ∷ l) (ids-append xs ys)

push-IsNumbered :
    (bs : List Batch) (fs : List FileEntry) (n : ℕ)
    → IsNumbered bs
    → IsNumbered (bs ++ (make_batch (length bs + 1) fs n ∷ []))
unfolding make_batch
push-IsNumbered bs fs n h =
    let b = make_batch (length bs + 1) fs n in
    let longer : length (bs ++ (b ∷ [])) ≡ suc (length bs) =
      omega (arith, length-append {0} bs (b ∷ [])) in
    let next : length bs + 1 ≡ 1 + length bs = omega arith in
    rw longer (
      ids-append bs (b ∷ [])
      ∙ ap (λ l. l ++ (batch_name (length bs + 1) ∷ [])) h
      ∙ rw next (numbered-concat 1 (length bs)))

flush_if-IsNumbered :
    (c : Bool) (p : Planner) → IsNumbered p.batches → IsNumbered (flush_if c p).batches
unfolding flush
flush_if-IsNumbered true p h = push-IsNumbered p.batches p.current_files p.current_bytes h
flush_if-IsNumbered false p h = h

plan_entry-IsNumbered :
    (o : PlanOptions) (e : FileEntry) (p : Planner)
    → IsNumbered p.batches
    → IsNumbered (plan_entry o e p).batches
unfolding plan_entry
plan_entry-IsNumbered o e p h = elim (Bool-cases (ltb o.batch_size_bytes e.size_bytes)) [
  | inl large ↦
      let q = flush_if (not (is_empty p.current_files)) p in
      rw large (
        push-IsNumbered q.batches (e ∷ []) e.size_bytes
          (flush_if-IsNumbered (not (is_empty p.current_files)) p h))
  | inr small ↦ rw small (flush_if-IsNumbered (is_full o e p) p h)
]

plan_entries-IsNumbered :
    (o : PlanOptions) (es : List FileEntry) (p : Planner)
    → IsNumbered p.batches
    → IsNumbered (plan_entries o es p).batches
unfolding plan_entries
plan_entries-IsNumbered o [] p h = h
plan_entries-IsNumbered o (e ∷ es) p h =
    plan_entries-IsNumbered o es (plan_entry o e p) (plan_entry-IsNumbered o e p h)

build-IsNumbered :
    (o : PlanOptions) (es : List FileEntry)
    → ids (build_batches_from_ordered_entries o es)
      ≡ numbered 1 (length (build_batches_from_ordered_entries o es))
unfolding build_batches_from_ordered_entries
build-IsNumbered o es =
    let p = plan_entries o es no_batches in
    flush_if-IsNumbered (not (is_empty p.current_files)) p
      (plan_entries-IsNumbered o es no_batches refl)

-- The batches of a plan are named with the numbers from one, in order, and all names differ.
pub plan_batches-ids :
    (es : List FileEntry) (o : PlanOptions) (bs : List Batch)
    → plan_batches es o ≡ ok bs
    → (ids bs ≡ numbered 1 (length bs)) × IsNodup (ids bs)
unfolding plan_batches
plan_batches-ids es o bs h =
    let planned : build_batches_from_ordered_entries o (sort_by cmp_for_planning es) ≡ bs =
      ground arith in
    let names : ids bs ≡ numbered 1 (length bs) =
      rw (← planned) (build-IsNumbered o (sort_by cmp_for_planning es)) in
    (names, rw names (numbered-IsNodup 1 (length bs)))
