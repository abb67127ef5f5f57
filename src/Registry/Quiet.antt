-- ===== src/Registry/Quiet.antt =====
-- src/migration_registry.rs: a change of a status leaves a file alone that is neither the registry
-- nor one of its temporary files, and it does not touch the state.
use vibe_caravan.Prelude.{ℕ, FilePath}
use vibe_caravan.Error.{Result}
use vibe_caravan.Platform.Host.{Host, Json}
use vibe_caravan.Platform.Volume.{Content}
use vibe_caravan.Platform.Steady.{IsSteady}
use vibe_caravan.Exec.{call, lift, ◌>>=◌}
use vibe_caravan.Exec.Within.{Within-lift}
use vibe_caravan.Exec.Quiet.{IsQuiet-preorder, Quiet, Quiet-call, Quiet-bind}
use vibe_caravan.AtomicWrite.Quiet.{IsUnwritten, Quiet-write_bytes}
use vibe_caravan.Registry.{
  MigrationStatus, MigrationRegistry, load, save, save_intent, save_commit, begin_status_transition,
  commit_status_transition, persist_status_transition_with_intent,
}

module _ {W : Type 0} (host : Host W) (json : Json MigrationRegistry) (path : FilePath)
    (content : FilePath → W → Content) (q : FilePath) (steady : IsSteady host content q)
    (unwritten : IsUnwritten path q) where
  Quiet-load : Quiet content q (load host json path)
  unfolding load
  Quiet-load = record { at = λ s. (IsQuiet-preorder content q).same s }

  Quiet-save : (r : MigrationRegistry) → Quiet content q (save host json path r)
  unfolding save
  Quiet-save r =
      Quiet-write_bytes host content q steady path (json.to_vec r) "migration registry"
        unwritten.target unwritten.temp

  -- Load, read the clock, change the entry, save.
  Quiet-change :
      (change : ℕ → MigrationRegistry → Result MigrationRegistry)
      → Quiet content q (
          load host json path >>= λ r. call host.env.now_unix_secs >>= λ now.
          lift (change now r) >>= λ r'. save host json path r')
  Quiet-change change = Quiet-bind content q _ _ Quiet-load λ r.
      Quiet-bind content q _ _ (Quiet-call content q host.env.now_unix_secs steady.now_same) λ now.
        Quiet-bind content q _ _ (Within-lift (IsQuiet-preorder content q) (change now r))
          λ r'. Quiet-save r'

  pub Quiet-persist_status :
      (id : ℕ) (target : MigrationStatus)
      → Quiet content q (persist_status_transition_with_intent host json path id target)
  unfolding persist_status_transition_with_intent save_intent save_commit
  Quiet-persist_status id target =
      Quiet-bind content q _ _ (Quiet-change (λ now r. begin_status_transition now r id target))
        λ _. Quiet-change (λ now r. commit_status_transition now r id)
