-- ===== src/Plan/Batching/Bounds.antt =====
-- src/plan/batching.rs: the limits and the totals of the planned batches.
use vibe_caravan.Prelude.{
  ℕ, ◌+◌, ◌≤◌, ◌<◌, ◌≡◌, ◌⊎◌, refl, ap, ◌∙◌, inl, inr, true, false, not, List, [], ◌∷◌, ◌++◌, map,
  arith, ltb, Bool-cases, is_empty, length, length-append, All, All-append, sum, u64_max,
  saturating_add, sort_by,
}
use vibe_caravan.Error.{ok}
use vibe_caravan.Models.Batch.{Batch, FileEntry}
use vibe_caravan.Plan.Batching.{
  PlanOptions, Planner, make_batch, flush, flush_if, push_single, push_current, is_full, plan_entry,
  plan_entries, no_batches, build_batches_from_ordered_entries, plan_batches, max_or_default,
  cmp_for_planning,
}

abbrev pub sizes : List FileEntry → List ℕ
sizes fs = map (λ f. f.size_bytes) fs

-- A batch within the limits. Only a file that is over the batch size, alone in its batch, makes
-- a batch of more than the batch size.
pub record IsPlanned (o : PlanOptions) (b : Batch) : Type 0 where
  pub nonempty : 1 ≤ length b.files
  pub counted : b.file_count ≡ length b.files
  pub totalled : b.total_bytes ≡ sum (sizes b.files)
  pub few : length b.files ≤ max_or_default o.max_files
  pub small :
      (b.total_bytes ≤ o.batch_size_bytes)
      ⊎ ((length b.files ≡ 1) × (o.batch_size_bytes < b.total_bytes))

sizes-append : (xs ys : List FileEntry) → sum (sizes (xs ++ ys)) ≡ sum (sizes xs) + sum (sizes ys)
sizes-append [] ys = omega arith
sizes-append (x ∷ xs) ys = omega (arith, sizes-append xs ys)

is_empty-length : (xs : List FileEntry) → is_empty xs ≡ false → 1 ≤ length xs
is_empty-length [] h = absurd (ground arith)
is_empty-length (x ∷ xs) h = omega arith

module _ (o : PlanOptions) (bounded : o.batch_size_bytes < u64_max)
    (room : 1 ≤ max_or_default o.max_files) where
  record IsCurrent (p : Planner) : Type 0 where
    total : p.current_bytes ≡ sum (sizes p.current_files)
    fits : p.current_bytes ≤ o.batch_size_bytes
    count : length p.current_files ≤ max_or_default o.max_files
    done : All (IsPlanned o) p.batches

  flush-IsCurrent : (p : Planner) → IsCurrent p → 1 ≤ length p.current_files → IsCurrent (flush p)
  unfolding flush make_batch
  flush-IsCurrent p c h = record {
    total = refl;
    fits = omega arith;
    count = omega arith;
    done = All-append (IsPlanned o) p.batches _ c.done (
      record {
        nonempty = h;
        counted = refl;
        totalled = c.total;
        few = c.count;
        small = inl c.fits;
      },
      tt,
    );
  }

  push_single-IsCurrent :
      (e : FileEntry) (p : Planner)
      → o.batch_size_bytes < e.size_bytes
      → IsCurrent p
      → IsCurrent (push_single e p)
  unfolding push_single make_batch
  push_single-IsCurrent e p large c = record {
    total = c.total;
    fits = c.fits;
    count = c.count;
    done = All-append (IsPlanned o) p.batches _ c.done (
      record {
        nonempty = omega arith;
        counted = refl;
        totalled = omega arith;
        few = room;
        small = inr (refl, large);
      },
      tt,
    );
  }

  push_current-IsCurrent :
      (e : FileEntry) (p : Planner)
      → saturating_add p.current_bytes e.size_bytes ≤ o.batch_size_bytes
      → length p.current_files + 1 ≤ max_or_default o.max_files
      → IsCurrent p
      → IsCurrent (push_current e p)
  unfolding push_current
  push_current-IsCurrent e p h k c = record {
    total = omega (arith, sizes-append p.current_files (e ∷ []), c.total);
    fits = h;
    count = omega (arith, length-append {0} p.current_files (e ∷ []));
    done = c.done;
  }

  flush_if_nonempty-IsCurrent :
      (p : Planner) → IsCurrent p → IsCurrent (flush_if (not (is_empty p.current_files)) p)
  flush_if_nonempty-IsCurrent p c = elim (Bool-cases (is_empty p.current_files)) [
    | inl none_held ↦ rw none_held c
    | inr held ↦ rw held (flush-IsCurrent p c (is_empty-length p.current_files held))
  ]

  -- With no files at hand there are no bytes at hand.
  empty-bytes :
      (p : Planner)
      → IsCurrent p
      → is_empty p.current_files ≡ true
      → (p.current_bytes ≡ 0) × (length p.current_files ≡ 0)
  empty-bytes p c h =
      let e : p.current_files ≡ [] = ground arith in
      (c.total ∙ ap (λ l. sum (sizes l)) e, ap length e)

  room_left :
      (e : FileEntry) (p : Planner)
      → ltb o.batch_size_bytes e.size_bytes ≡ false
      → is_full o e p ≡ false
      → IsCurrent p
      → (saturating_add p.current_bytes e.size_bytes ≤ o.batch_size_bytes)
        × (length p.current_files + 1 ≤ max_or_default o.max_files)
  room_left e p small fits c = elim (Bool-cases (is_empty p.current_files)) [
    | inl h ↦ let (a, b) = empty-bytes p c h in (ground arith, omega arith)
    | inr h ↦ (ground arith, ground arith)
  ]

  plan_small-IsCurrent :
      (e : FileEntry) (p : Planner)
      → ltb o.batch_size_bytes e.size_bytes ≡ false
      → IsCurrent p
      → IsCurrent (push_current e (flush_if (is_full o e p) p))
  plan_small-IsCurrent e p small c = elim (Bool-cases (is_full o e p)) [
    | inl full ↦ rw full (
        push_current-IsCurrent e (flush p) (unfold flush in ground arith) (unfold flush in room)
          (flush-IsCurrent p c (is_empty-length p.current_files (ground arith))))
    | inr fits ↦
        let (h, k) = room_left e p small fits c in rw fits (push_current-IsCurrent e p h k c)
  ]

  plan_entry-IsCurrent : (e : FileEntry) (p : Planner) → IsCurrent p → IsCurrent (plan_entry o e p)
  unfolding plan_entry
  plan_entry-IsCurrent e p c = elim (Bool-cases (ltb o.batch_size_bytes e.size_bytes)) [
    | inl large ↦ rw large (
        push_single-IsCurrent e (flush_if (not (is_empty p.current_files)) p) (ground arith)
          (flush_if_nonempty-IsCurrent p c))
    | inr small ↦ rw small (plan_small-IsCurrent e p small c)
  ]

  plan_entries-IsCurrent :
      (es : List FileEntry) (p : Planner) → IsCurrent p → IsCurrent (plan_entries o es p)
  unfolding plan_entries
  plan_entries-IsCurrent [] p c = c
  plan_entries-IsCurrent (e ∷ es) p c =
      plan_entries-IsCurrent es (plan_entry o e p) (plan_entry-IsCurrent e p c)

  pub build-IsPlanned :
      (es : List FileEntry) → All (IsPlanned o) (build_batches_from_ordered_entries o es)
  unfolding build_batches_from_ordered_entries
  build-IsPlanned es =
      (flush_if_nonempty-IsCurrent (plan_entries o es no_batches) (
        plan_entries-IsCurrent es no_batches
          (record { total = refl; fits = omega arith; count = omega arith; done = tt }))).done

  -- With a batch size below the largest `u64` and a file limit of at least one, each batch of a
  -- plan has a file, its count and its total are those of its files, it has no more files than
  -- the limit, and it is no larger than the batch size unless it is one file that is larger.
  pub plan_batches-IsPlanned :
      (es : List FileEntry) (bs : List Batch) → plan_batches es o ≡ ok bs → All (IsPlanned o) bs
  unfolding plan_batches
  plan_batches-IsPlanned es bs h = rw (← planned) (build-IsPlanned (sort_by cmp_for_planning es))
    where
      planned : build_batches_from_ordered_entries o (sort_by cmp_for_planning es) ≡ bs
      planned = ground arith
