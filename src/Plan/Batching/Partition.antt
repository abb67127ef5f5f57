-- ===== src/Plan/Batching/Partition.antt =====
-- src/plan/batching.rs: the files of the batches, put end to end, against the sorted files.
use mathlib.Core.List.{Perm, append-nil, append_assoc}
use vibe_caravan.Prelude.{
  ◌<◌, some, ◌≡◌, refl, sym, ◌∙◌, ap, inl, inr, Bool, true, false, not, List, [], ◌∷◌, ◌++◌, arith,
  sort_by, ltb, sort_by-perm, sort_by-IsSorted, IsSorted, Bool-cases, is_empty, IsTotal, path_cmp,
  path_cmp-IsTotal, FilePath, parent,
}
use vibe_caravan.Error.{ok, err}
use vibe_caravan.Models.Batch.{Batch, FileEntry}
use vibe_caravan.Plan.Batching.{
  PlanOptions, Planner, make_batch, flush, flush_if, push_single, push_current, is_full, plan_entry,
  plan_entries, no_batches, build_batches_from_ordered_entries, plan_batches, cmp_for_planning,
  planning_key_cmp, is_some_zero, check_options, batch_size_error, max_files_error,
}

-- The files of all batches, in order.
abbrev pub all_files : List Batch → List FileEntry
all_files [] = []
all_files (b ∷ bs) = b.files ++ all_files bs

-- What the planner holds so far.
abbrev held : Planner → List FileEntry
held p = all_files p.batches ++ p.current_files

all_files-append : (xs ys : List Batch) → all_files (xs ++ ys) ≡ all_files xs ++ all_files ys
all_files-append [] ys = refl
all_files-append (x ∷ xs) ys = simp (all_files-append xs ys, append_assoc)

held-flush : (p : Planner) → held (flush p) ≡ held p
unfolding flush make_batch
held-flush p = simp (all_files-append, append-nil)

held-flush_if : (b : Bool) (p : Planner) → held (flush_if b p) ≡ held p
held-flush_if true p = held-flush p
held-flush_if false p = refl

-- After a flush that was due if files were at hand, none are.
current-flush_if : (p : Planner) → (flush_if (not (is_empty p.current_files)) p).current_files ≡ []
unfolding flush
current-flush_if p = ground arith

held-push_single :
    (e : FileEntry) (p : Planner)
    → p.current_files ≡ []
    → held (push_single e p) ≡ held p ++ (e ∷ [])
unfolding push_single make_batch
held-push_single e p h = rw h (simp (all_files-append, append-nil))

held-push_current : (e : FileEntry) (p : Planner) → held (push_current e p) ≡ held p ++ (e ∷ [])
unfolding push_current
held-push_current e p = simp append_assoc

held-plan_entry :
    (o : PlanOptions) (e : FileEntry) (p : Planner) → held (plan_entry o e p) ≡ held p ++ (e ∷ [])
unfolding plan_entry
held-plan_entry o e p = elim (Bool-cases (ltb o.batch_size_bytes e.size_bytes)) [
  | inl large ↦ rw large (
      held-push_single e (flush_if (not (is_empty p.current_files)) p) (current-flush_if p)
      ∙ ap (λ l. l ++ (e ∷ [])) (held-flush_if (not (is_empty p.current_files)) p))
  | inr small ↦ rw small (
      held-push_current e (flush_if (is_full o e p) p)
      ∙ ap (λ l. l ++ (e ∷ [])) (held-flush_if (is_full o e p) p))
]

held-plan_entries :
    (o : PlanOptions) (es : List FileEntry) (p : Planner)
    → held (plan_entries o es p) ≡ held p ++ es
unfolding plan_entries
held-plan_entries o [] p = sym (append-nil (held p))
held-plan_entries o (e ∷ es) p =
    held-plan_entries o es (plan_entry o e p)
    ∙ ap (λ l. l ++ es) (held-plan_entry o e p)
    ∙ append_assoc (held p) (e ∷ []) es

all_files-eq-held : (p : Planner) → p.current_files ≡ [] → all_files p.batches ≡ held p
all_files-eq-held p h = rw h (sym (append-nil (all_files p.batches)))

pub all_files-build :
    (o : PlanOptions) (es : List FileEntry)
    → all_files (build_batches_from_ordered_entries o es) ≡ es
unfolding build_batches_from_ordered_entries
all_files-build o es =
    let p = plan_entries o es no_batches in
    all_files-eq-held (flush_if (not (is_empty p.current_files)) p) (current-flush_if p)
    ∙ held-flush_if (not (is_empty p.current_files)) p
    ∙ held-plan_entries o es no_batches

-- The order of the plan, by parent directory and then by path, is total.
pub planning_key_cmp-IsTotal : IsTotal planning_key_cmp
planning_key_cmp-IsTotal = record {
  cmp_refl = λ a. ground (arith, t.cmp_refl (parent a), t.cmp_refl a);
  cmp_eq = λ a b h. ground (arith, t.cmp_eq a b);
  cmp_flip = λ a b. ground (arith, t.cmp_flip (parent a) (parent b), t.cmp_flip a b);
  cmp_trans = λ a b c h k. ground (
    arith,
    t.cmp_trans a b c,
    t.cmp_trans (parent a) (parent b) (parent c),
    t.cmp_eq (parent a) (parent b),
    t.cmp_eq (parent b) (parent c),
    t.cmp_refl (parent a),
  );
}
  where
    t : IsTotal path_cmp
    t = path_cmp-IsTotal

relative_path : FileEntry → FilePath
relative_path f = f.relative_path

check_options-ok :
    (o : PlanOptions)
    → 0 < o.batch_size_bytes
    → is_some_zero o.max_files ≡ false
    → check_options o ≡ ok tt
check_options-ok o h k = ground arith

-- With a batch size and a file limit of at least one, planning succeeds. The batches, put end to
-- end, hold every file of the source as often as the source does, and in the order of the plan.
pub plan_batches-partition :
    (es : List FileEntry) (o : PlanOptions)
    → 0 < o.batch_size_bytes
    → is_some_zero o.max_files ≡ false
    → (bs : List Batch) × (plan_batches es o ≡ ok bs)
      × Perm (all_files bs) es
      × IsSorted cmp_for_planning (all_files bs)
unfolding plan_batches relative_path
plan_batches-partition es o h k = (
  build_batches_from_ordered_entries o (sort_by cmp_for_planning es),
  rw (check_options-ok o h k),
  rw (all_files-build o (sort_by cmp_for_planning es)) (sort_by-perm cmp_for_planning es),
  rw (all_files-build o (sort_by cmp_for_planning es))
      (sort_by-IsSorted relative_path planning_key_cmp-IsTotal es),
)

-- A batch size of zero, or else a file limit of zero, is refused, whatever the files are.
pub plan_batches-refused :
    (es : List FileEntry) (o : PlanOptions)
    → ((o.batch_size_bytes ≡ 0) → plan_batches es o ≡ err batch_size_error)
      × (0 < o.batch_size_bytes → o.max_files ≡ some 0 → plan_batches es o ≡ err max_files_error)
unfolding plan_batches
plan_batches-refused es o = (λ h. ground arith, λ h k. ground arith)
