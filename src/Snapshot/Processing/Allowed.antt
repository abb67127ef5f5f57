-- ===== src/Snapshot/Processing/Allowed.antt =====
-- src/snapshot/processing.rs: what every step of the processing keeps, the whole processing keeps.
use vibe_caravan.Prelude.{
  ℕ, ◌≡◌, true, Option, none, some, List, [], ◌∷◌, arith, Text, String, text_eq, FilePath, contains,
}
use vibe_caravan.Config.{Mode}
use vibe_caravan.Error.{Result, ok, err, Message, Arg, message, display}
use vibe_caravan.Models.State.{batch}
use vibe_caravan.Platform.Host.{Host}
use vibe_caravan.Exec.{Sys, Exec, attempt, call, modify, after}
use vibe_caravan.Exec.Within.{
  IsPreorder, Within, Within-pure, Within-raise, Within-gets, Within-if, Within-when, Within-bind,
}
use vibe_caravan.Snapshot.{
  SnapshotRequest, SnapshotBackend, Cadence, cadence, take_if_due, snapshot_outcome,
  push_snapshot_journal, record_snapshot, snapshot_if_needed,
}
use vibe_caravan.Snapshot.Validation.{validate_snapshot_configuration}
use vibe_caravan.Snapshot.Processing.{
  attempted, after_snapshot, take_snapshot, process_ids, process_if_configured, request_for,
  has_snapshot, snapshot_is_due, count_up, deleted_batch_ids, process_pending_snapshots,
}
use vibe_caravan.Commands.Deletion.{persist_state}

-- A relation that the steps of the processing stay within, where only the batches `ids` are marked.
pub record IsAllowed {W : Type 0} (host : Host W) (backend : SnapshotBackend W) (ids : List Text)
    (R : Sys W → Sys W → Type 0) : Type 0 where
  pub preorder : IsPreorder R
  pub interrupt : Within R (attempt host.env.check_interrupt)
  pub created :
      (dest : FilePath) (root : Option FilePath) (id : Text)
      → Within R (call (backend.create_snapshot dest root id))
  pub journal :
      (event : String) (id : Text) (context : Message)
      → Within R (push_snapshot_journal backend event id context)
  pub persisted : Within R (persist_state host.env)
  pub recorded :
      (id name : Text)
      → contains ids id ≡ true
      → Within {W = W} R (modify (record_snapshot id name))

module _ {W : Type 0} (host : Host W) (backend : SnapshotBackend W) (mode : Mode)
    (snapshot_every : Option ℕ) (destination_root : FilePath) (snapshot_root : Option FilePath)
    (all : List Text) (R : Sys W → Sys W → Type 0) (allowed : IsAllowed host backend all R) where
  attempted-within : {A : Type 0} (m : Exec W A) → Within R m → Within R (attempted m)
  attempted-within m h = record { at = λ s. h.at s }

  Within-snapshot_outcome :
      (id : Text) (answer : Result Text)
      → contains all id ≡ true
      → Within R (snapshot_outcome backend id answer)
  unfolding snapshot_outcome
  Within-snapshot_outcome id (ok name) m =
      Within-bind allowed.preorder _ _ (allowed.recorded id name m) λ _.
        Within-bind allowed.preorder _ _
          (allowed.journal "snapshot_completed" id (message "{}" (Arg.word name ∷ [])))
          λ _. Within-pure allowed.preorder (some name)
  Within-snapshot_outcome id (err e) m =
      Within-bind allowed.preorder _ _ (allowed.journal "snapshot_failed" id (display e))
        λ _. Within-raise allowed.preorder e

  Within-take_if_due :
      (r : SnapshotRequest) (c : Cadence)
      → contains all r.batch_id ≡ true
      → Within R (take_if_due backend r c)
  Within-take_if_due r (Cadence.refused why) m = Within-raise allowed.preorder _
  Within-take_if_due r Cadence.not_due m = Within-pure allowed.preorder none
  Within-take_if_due r Cadence.due m =
      Within-bind allowed.preorder _ _
        (allowed.created r.destination_root r.snapshot_root r.batch_id)
        λ answer. Within-snapshot_outcome r.batch_id answer m

  Within-after :
      (answer : Result (Option Text))
      → Within R
          (after_snapshot host backend mode snapshot_every destination_root snapshot_root answer)
  unfolding after_snapshot
  Within-after (ok (some name)) = allowed.persisted
  Within-after (ok none) = Within-pure allowed.preorder tt
  Within-after (err e) = allowed.persisted

  Within-take_snapshot :
      (id : Text) (count : ℕ)
      → contains all id ≡ true
      → Within R
          (take_snapshot host backend mode snapshot_every destination_root snapshot_root id count)
  unfolding take_snapshot snapshot_if_needed
  Within-take_snapshot id count m =
      let r =
        request_for host backend mode snapshot_every destination_root snapshot_root id count in
      Within-bind allowed.preorder _ _
        (Within-when allowed.preorder (snapshot_is_due snapshot_every count) _ allowed.interrupt)
        λ _.
          Within-bind allowed.preorder (attempted (snapshot_if_needed backend r)) _
            (attempted-within (snapshot_if_needed backend r)
              (Within-take_if_due r (cadence r.mode r.snapshot_every r.completed_batch_count) m))
            λ answer. Within-after answer

  pub Within-process_ids :
      (ids : List Text) (count : ℕ)
      → ((j : Text) → contains ids j ≡ true → contains all j ≡ true)
      → Within R
          (process_ids host backend mode snapshot_every destination_root snapshot_root ids count)
  unfolding process_ids
  Within-process_ids [] count sub = Within-pure allowed.preorder tt
  Within-process_ids (id ∷ ids) count sub = Within-bind allowed.preorder _ _ allowed.interrupt λ _.
      Within-bind allowed.preorder _ _ (Within-gets allowed.preorder (λ s. batch s id)) λ found.
        Within-bind allowed.preorder _ _
          (Within-if allowed.preorder (has_snapshot found) _ _ (Within-pure allowed.preorder tt) (
            Within-take_snapshot id (count_up count)
              (sub id (ground (arith, text_eq.beq_iff id id)))))
          λ _. Within-process_ids ids (count_up count) (λ j h. sub j (ground (arith, h)))

module _ {W : Type 0} (host : Host W) (backend : SnapshotBackend W) (mode : Mode)
    (snapshot_every : Option ℕ) (destination_root : FilePath) (snapshot_root : Option FilePath)
    (R : List Text → Sys W → Sys W → Type 0)
    (allowed : (ids : List Text) → IsAllowed host backend ids (R ids)) where
  configured-within :
      (every : Option ℕ) (s : Sys W)
      → R
          (deleted_batch_ids s.state)
          s
          (process_if_configured host backend mode snapshot_every destination_root snapshot_root
            every s).1
  unfolding process_if_configured
  configured-within none s = (allowed (deleted_batch_ids s.state)).preorder.same s
  configured-within (some n) s =
      let ids = deleted_batch_ids s.state in
      (Within-process_ids host backend mode snapshot_every destination_root snapshot_root ids
          (R ids) (allowed ids) ids 0 (λ j h. h)).at
        s

  validated-within :
      (r : Result (Unit {0})) (s : Sys W)
      → R
          (deleted_batch_ids s.state)
          s
          (after r
            (λ u.
              process_if_configured host backend mode snapshot_every destination_root snapshot_root
                snapshot_every)
            s).1
  validated-within (ok u) s = configured-within snapshot_every s
  validated-within (err e) s = (allowed (deleted_batch_ids s.state)).preorder.same s

  pub process_pending_snapshots-within :
      (s : Sys W)
      → R
          (deleted_batch_ids s.state)
          s
          (process_pending_snapshots host backend mode snapshot_every destination_root snapshot_root
            s).1
  unfolding process_pending_snapshots
  process_pending_snapshots-within s =
      validated-within
        (validate_snapshot_configuration host mode snapshot_every destination_root snapshot_root
          s.world)
        s
