-- ===== src/Commands/Deletion/Gate.antt =====
-- src/cli/commands/shared/deletion.rs: the loop over the batches to delete, under the relation of
-- Consent.
use mathlib.Core.Path.{subst}
use vibe_caravan.Prelude.{
  ◌≡◌, refl, sym, ◌∙◌, ap, inl, inr, true, false, Option, none, some, List, [], ◌∷◌, arith, Text,
  String, FilePath, text_eq, path_eq, ◌==◌, Bool-cases, Option-cases, contains,
}
use vibe_caravan.Models.Batch.{Batch, BatchState, PlannedBatch, to_batch}
use vibe_caravan.Models.State.{batch, planned_batch, materialize_planned_batch}
use vibe_caravan.Models.State.Keyed.{id_of-find_id}
use vibe_caravan.Models.State.Laws.{IsValid, planned_id, planned_batch-eq-find_id}
use vibe_caravan.Platform.{Env, EnvLaws, PersistKeeps}
use vibe_caravan.Exec.{Sys, attempt, ok_or_raise, ◌>>=◌}
use vibe_caravan.Exec.Within.{Within, Within-pure, Within-gets, Within-if, Within-bind, bind-at}
use vibe_caravan.Cleanup.{cleanup_batch}
use vibe_caravan.Cleanup.Effects.{Touches, places}
use vibe_caravan.Cleanup.Safety.{may_delete, cleanup_batch-gate, cleanup_batch-Touches}
use vibe_caravan.Commands.Deletion.{
  persist_state, delete_listed, delete_found, delete_batches_by_id, missing_manifest,
}
use vibe_caravan.Commands.Deletion.Consent.{
  IsApproved, KeepsFlags, planned_batch-same, Held, Consents, Consents-world, Consents-preorder,
}

module _ {W : Type 0} (env : Env W) (root q : FilePath) (laws : EnvLaws env)
    (kept : PersistKeeps env q) where
  pub Consents-interrupt : Within (Consents env root q) (attempt env.check_interrupt)
  Consents-interrupt = record {
    at = λ s. Consents-world env root q s _ refl (laws.interrupt_keeps q s.world);
  }

  pub Consents-persist_state : Within (Consents env root q) (persist_state env)
  unfolding persist_state
  Consents-persist_state = record {
    at = λ s. Consents-world env root q s _ refl (kept s.state s.world);
  }

  cleanup-flags :
      (b : BatchState) (id : Text) (paths : List FilePath) (s t : Sys W)
      → IsValid s.state
      → batch s.state id ≡ some b
      → Touches env laws b id paths s t
      → KeepsFlags s.state t.state
  cleanup-flags b id paths s t v found h j b0 e = elim (Bool-cases (id == j)) [
    | inr other ↦ (b0, h.others v j other ∙ e, (λ x. x, λ x. x))
    | inl here ↦
        let same : id ≡ j = ground (arith, text_eq.beq_iff id j, here) in
        elim (h.owns v) [
          | inl kept ↦ (
            b0,
            ap (batch t.state) (sym same) ∙ kept ∙ ap (batch s.state) same ∙ e,
            (λ x. x, λ x. x),
          )
          | inr (b1, e1, e2, e3) ↦
              let was : b0 ≡ b = ground (arith, e, found, same) in
              (
                b1,
                ap (batch t.state) (sym same) ∙ e1,
                (
                  λ x. e2 ∙ ap (λ (y : BatchState). y.verification_passed) (sym was) ∙ x,
                  λ x. e3 ∙ ap (λ (y : BatchState). y.approved_for_delete) (sym was) ∙ x,
                ),
              )
        ]
  ]

  -- A file that a cleanup removes belongs to the batch, and the batch was verified and approved.
  cleanup-removed :
      (p : PlannedBatch) (context : String) (b : BatchState) (s t : Sys W)
      → planned_batch t.state p.batch_id ≡ some p
      → batch s.state p.batch_id ≡ some b
      → may_delete (some b) ≡ true
      → KeepsFlags s.state t.state
      → Touches env laws b p.batch_id (places root (to_batch p).files) s t
      → env.exists q s.world ≡ true
      → env.exists q t.world ≡ false
      → IsApproved root q t.state
  cleanup-removed p context b s t planned found may keeps h there gone =
      let (b', e, (v, a)) = keeps p.batch_id b found in
      record {
        id = p.batch_id;
        record_of = b';
        planned = p;
        recorded = e;
        verified = v (ground (arith, may));
        approved = a (ground (arith, may));
        in_manifest = planned;
        among = elim (Bool-cases (contains (places root (to_batch p).files) q)) [
          | inl inside ↦ inside
          | inr outside ↦ absurd (cc (h.outside q outside, there, gone))
        ];
      }

  cleanup-Held :
      (p : PlannedBatch) (context : String) (b : BatchState) (s t : Sys W)
      → IsValid s.state
      → planned_batch s.state p.batch_id ≡ some p
      → batch s.state p.batch_id ≡ some b
      → may_delete (some b) ≡ true
      → Touches env laws b p.batch_id (places root (to_batch p).files) s t
      → Held env root q s t
  cleanup-Held p context b s t v planned found may h =
      let keeps = cleanup-flags b p.batch_id (places root (to_batch p).files) s t v found h in
      let same : (j : Text) → planned_batch t.state j ≡ planned_batch s.state j =
        λ j. planned_batch-same s.state t.state j v (h.valid v) h.manifest in
      record {
        valid = h.valid v;
        manifest = same;
        flags = keeps;
        none_new = h.none_new q;
        removed = cleanup-removed p context b s t (same p.batch_id ∙ planned) found may keeps h;
      }

  -- A cleanup that the guards refuse changes nothing.
  cleanup-refused :
      (bt : Batch) (context : String) (s : Sys W)
      → may_delete (batch s.state bt.id) ≡ false
      → Consents env root q s (cleanup_batch env bt root context s).1
  cleanup-refused bt context s refused =
      subst (λ (t : Sys W). Consents env root q s t)
        (sym (cleanup_batch-gate env bt root context s refused))
        ((Consents-preorder env root q).same s)

  cleanup-allowed :
      (p : PlannedBatch) (context : String) (b : BatchState) (s : Sys W)
      → planned_batch s.state p.batch_id ≡ some p
      → batch s.state p.batch_id ≡ some b
      → Consents env root q s (cleanup_batch env (to_batch p) root context s).1
  unfolding to_batch
  cleanup-allowed p context b s planned found v = elim (Bool-cases (may_delete (some b))) [
    | inl may ↦
        cleanup-Held p context b s _ v planned found may
          (cleanup_batch-Touches env laws (to_batch p) root context b s v found)
    | inr refused ↦ cleanup-refused (to_batch p) context s (ap may_delete found ∙ refused) v
  ]

  cleanup-Consents :
      (p : PlannedBatch) (context : String) (s : Sys W)
      → planned_batch s.state p.batch_id ≡ some p
      → Consents env root q s (cleanup_batch env (to_batch p) root context s).1
  unfolding to_batch
  cleanup-Consents p context s planned = elim (Option-cases (batch s.state p.batch_id)) [
    | inl missing ↦ cleanup-refused (to_batch p) context s (ap may_delete missing)
    | inr (b, found) ↦ cleanup-allowed p context b s planned found
  ]

  planned-Consents :
      (id : Text) (context : String) (p : PlannedBatch) (s : Sys W)
      → planned_batch s.state id ≡ some p
      → Consents env root q s (cleanup_batch env (to_batch p) root context s).1
  planned-Consents id context p s planned v =
      let same : p.batch_id ≡ id =
        id_of-find_id planned_id s.state.planned_batches id {x = p}
          (sym (planned_batch-eq-find_id s.state id v) ∙ planned) in
      cleanup-Consents p context s (ap (planned_batch s.state) same ∙ planned) v

  materialized-at :
      (context : String) (id : Text) (s : Sys W) (o : Option Batch)
      → ((bt : Batch) → o ≡ some bt → Consents env root q s (cleanup_batch env bt root context s).1)
      → Consents env root q s
          ((ok_or_raise o (missing_manifest id) >>= λ bt.
              cleanup_batch env bt root context >>= λ _. persist_state env)
            s).1
  materialized-at context id s none h = (Consents-preorder env root q).same s
  materialized-at context id s (some bt) h =
      bind-at (Consents-preorder env root q) (cleanup_batch env bt root context)
        (λ (u : Unit {0}). persist_state env) s (h bt refl) (λ u. Consents-persist_state)

  of-planned :
      (context : String) (id : Text) (s : Sys W) (bt : Batch)
      → materialize_planned_batch s.state id ≡ some bt
      → Consents env root q s (cleanup_batch env bt root context s).1
  unfolding materialize_planned_batch
  of-planned context id s bt h = elim (Option-cases (planned_batch s.state id)) [
    | inl missing ↦ absurd (ground (arith, rw (materialize_planned_batch, missing) at h))
    | inr (p, planned) ↦
        let same : to_batch p ≡ bt = ground (arith, rw (materialize_planned_batch, planned) at h) in
        subst (λ (x : Batch). Consents env root q s (cleanup_batch env x root context s).1) same
          (planned-Consents id context p s planned)
  ]

  delete_listed-at :
      (context : String) (id : Text) (s : Sys W)
      → Consents env root q s (delete_listed env root context id s).1
  unfolding delete_listed
  delete_listed-at context id s =
      materialized-at context id s (materialize_planned_batch s.state id) (of-planned context id s)

  Consents-delete_found :
      (context : String) (id : Text) (found : Option BatchState)
      → Within (Consents env root q) (delete_found env root context id found)
  unfolding delete_found
  Consents-delete_found context id none = Within-pure (Consents-preorder env root q) tt
  Consents-delete_found context id (some b) =
      Within-if (Consents-preorder env root q) b.deleted _ _
        (Within-pure (Consents-preorder env root q) tt)
        (record { at = delete_listed-at context id })

  pub Consents-delete_batches_by_id :
      (context : String) (ids : List Text)
      → Within (Consents env root q) (delete_batches_by_id env root context ids)
  unfolding delete_batches_by_id
  Consents-delete_batches_by_id context [] = Within-pure (Consents-preorder env root q) tt
  Consents-delete_batches_by_id context (id ∷ ids) =
      Within-bind (Consents-preorder env root q) _ _ Consents-interrupt λ _.
        Within-bind (Consents-preorder env root q) _ _
          (Within-gets (Consents-preorder env root q) (λ s. batch s id))
          λ found.
            Within-bind (Consents-preorder env root q) _ _ (Consents-delete_found context id found)
              λ _. Consents-delete_batches_by_id context ids
