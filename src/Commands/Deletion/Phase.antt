-- ===== src/Commands/Deletion/Phase.antt =====
-- src/cli/commands/shared/deletion.rs: the whole deletion phase, under the relation of Consent.
use vibe_caravan.Prelude.{
  ◌≡◌, refl, ◌∙◌, Bool, true, false, not, List, [], ◌∷◌, Text, String, FilePath, text_eq, path_eq,
  is_empty,
}
use vibe_caravan.Error.{Result, ok, err}
use vibe_caravan.Models.State.{
  approve_batches, batches_approved_but_not_deleted, batches_needing_approval,
}
use vibe_caravan.Models.State.Laws.{IsValid}
use vibe_caravan.Models.State.Approval.{approve_batches-IsValid, approve_batches-planned_batches}
use vibe_caravan.Platform.{Env, EnvLaws, PersistKeeps}
use vibe_caravan.Exec.{Sys, modify}
use vibe_caravan.Exec.Within.{Within, Within-pure, Within-gets, Within-when, Within-bind}
use vibe_caravan.Prompt.{request_approval_for_batches, parse_answer}
use vibe_caravan.Commands.Deletion.{delete_if_approved, ask_and_delete, approve_and_delete}
use vibe_caravan.Commands.Deletion.Consent.{
  KeepsFlags-approve_batches, Held, Consents, Consents-world, Consents-preorder,
}
use vibe_caravan.Commands.Deletion.Steps.{Consents-modify}
use vibe_caravan.Commands.Deletion.Gate.{Consents-persist_state, Consents-delete_batches_by_id}

module _ {W : Type 0} (env : Env W) (root q : FilePath) (laws : EnvLaws env)
    (kept : PersistKeeps env q) where
  Consents-approve_batches :
      (ids : List Text) → Within (Consents env root q) (modify (approve_batches ids))
  Consents-approve_batches ids =
      Consents-modify env root q (approve_batches ids) (approve_batches-IsValid ids)
        (approve_batches-planned_batches ids) (KeepsFlags-approve_batches ids)

  parse_answer-keeps :
      (r : Result Text × W) → env.exists q (parse_answer env.read_line r).1 ≡ env.exists q r.1
  parse_answer-keeps (ok answer, w) = refl
  parse_answer-keeps (err e, w) = refl

  request-keeps :
      (interactive explicit : Bool) (ids : List Text) (w : W)
      → env.exists q (request_approval_for_batches env.read_line interactive explicit ids w).1
        ≡ env.exists q w
  unfolding request_approval_for_batches
  request-keeps interactive true ids w = refl
  request-keeps interactive false [] w = refl
  request-keeps false false (id ∷ ids) w = refl
  request-keeps true false (id ∷ ids) w = parse_answer-keeps (env.read_line w) ∙ laws.read_keeps q w

  Consents-delete_if_approved :
      (context : String) (ids : List Text) (approved : Bool)
      → Within (Consents env root q) (delete_if_approved env root context ids approved)
  unfolding delete_if_approved
  Consents-delete_if_approved context ids false = Within-pure (Consents-preorder env root q) tt
  Consents-delete_if_approved context ids true =
      Within-bind (Consents-preorder env root q) _ _ (Consents-approve_batches ids) λ _.
        Within-bind (Consents-preorder env root q) _ _ (Consents-persist_state env root q laws kept)
          λ _. Consents-delete_batches_by_id env root q laws kept context ids

  Consents-ask_and_delete :
      (context : String) (interactive : Bool) (ids : List Text)
      → Within (Consents env root q) (ask_and_delete env root context interactive ids)
  unfolding ask_and_delete
  Consents-ask_and_delete context interactive ids =
      Within-bind (Consents-preorder env root q) _ _
        (record {
          at =
              λ s. Consents-world env root q s _ refl (request-keeps interactive false ids s.world);
        })
        λ approved. Consents-delete_if_approved context ids approved

  -- From a valid state, whatever the deletion phase comes to, and for a file that the writing of
  -- the state neither makes nor removes: if it was there before and is gone after, it belongs to the
  -- manifest of a batch whose record, in the state that is left, is verified and approved for
  -- deletion. It does not come into being, the state stays valid, no verification or approval is
  -- taken back, and the manifest is kept.
  pub approve_and_delete-Held :
      (context : String) (interactive : Bool) (s : Sys W)
      → IsValid s.state
      → Held env root q s (approve_and_delete env root context interactive s).1
  unfolding approve_and_delete
  approve_and_delete-Held context interactive s =
      let step : Within (Consents env root q) (approve_and_delete env root context interactive) =
        Within-bind (Consents-preorder env root q) _ _
          (Within-gets (Consents-preorder env root q) batches_approved_but_not_deleted)
          λ already.
            Within-bind (Consents-preorder env root q) _ _
              (Consents-delete_batches_by_id env root q laws kept context already)
              λ _.
                Within-bind (Consents-preorder env root q) _ _
                  (Within-gets (Consents-preorder env root q) batches_needing_approval)
                  λ waiting.
                    Within-when (Consents-preorder env root q) (not (is_empty waiting)) _
                      (Consents-ask_and_delete context interactive waiting) in
      step.at s
