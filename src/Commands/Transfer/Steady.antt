-- ===== src/Commands/Transfer/Steady.antt =====
-- src/cli/commands/transfer/context.rs: the machine as the phases see it, with the writing of the
-- state on the disk, leaves a file alone that is neither a state nor one of their temporary files.
use vibe_caravan.Prelude.{ℕ, ◌≡◌, sym, ◌∙◌, true, some, List, FilePath, Bool-cases, inl, inr}
use vibe_caravan.Error.{Result, ok, err}
use vibe_caravan.Models.State.{MigrationState}
use vibe_caravan.Platform.{EnvLaws, PersistKeeps}
use vibe_caravan.Platform.Host.{Host}
use vibe_caravan.Platform.Volume.{Content, VolumeLaws, WriteLaws}
use vibe_caravan.Platform.Steady.{IsSteady}
use vibe_caravan.Exec.{Sys}
use vibe_caravan.Exec.Quiet.{IsQuiet, IsQuiet-preorder, Quiet}
use vibe_caravan.AtomicWrite.Quiet.{IsUnwritten, Quiet-write_bytes}
use vibe_caravan.StateStore.{
  StateJson, persist_state_with_revision, persist_state_with_compat_backup, backup_revision,
  then_backup, envelope_of,
}
use vibe_caravan.Commands.Transfer.Context.{secondary_state_path, transfer_host}

-- Where there is something at the path, it is a file with bytes.
abbrev pub IsRegular : {W : Type 0} → Host W → (FilePath → W → Content) → FilePath → Type 0
IsRegular {W = W} host content q =
    (w : W) → host.env.exists q w ≡ true → (bytes : List ℕ) × (content q w ≡ some bytes)

module _ {W : Type 0} (host : Host W) (content : FilePath → W → Content) (q : FilePath)
    (laws : WriteLaws host.env host.volume content) (regular : IsRegular host content q) where
  stays :
      (w w' : W)
      → content q w' ≡ content q w
      → host.env.exists q w ≡ true
      → host.env.exists q w' ≡ true
  stays w w' same there = let (bytes, here) = regular w there in laws.there q w' bytes (same ∙ here)

  -- For such a path, the same bytes mean the same existence.
  exists-same : (w w' : W) → content q w' ≡ content q w → host.env.exists q w' ≡ host.env.exists q w
  exists-same w w' same = elim (Bool-cases (host.env.exists q w)) [
    | inl there ↦ stays w w' same there ∙ sym there
    | inr gone ↦ elim (Bool-cases (host.env.exists q w')) [
      | inl new ↦ absurd (cc (stays w' w (sym same) new, gone))
      | inr none_there ↦ none_there ∙ sym gone
    ]
  ]

  pub PersistKeeps-same :
      ((s : MigrationState) (w : W) → content q (host.env.persist s w).1 ≡ content q w)
      → PersistKeeps host.env q
  PersistKeeps-same same s w = exists-same w (host.env.persist s w).1 (same s w)

module _ {W : Type 0} (host : Host W) (json : StateJson) (state_path : FilePath) where
  pub transfer_host-EnvLaws : EnvLaws host.env → EnvLaws (transfer_host host json state_path).env
  unfolding transfer_host
  transfer_host-EnvLaws laws = record {
    removed = laws.removed;
    removes_only = laws.removes_only;
    creates_nothing = laws.creates_nothing;
    now_keeps = laws.now_keeps;
    interrupt_keeps = laws.interrupt_keeps;
    read_keeps = laws.read_keeps;
  }

  module _ (content : FilePath → W → Content) where
    transfer_host-VolumeLaws :
        VolumeLaws host.env host.volume content
        → VolumeLaws
            (transfer_host host json state_path).env
            (transfer_host host json state_path).volume
            content
    unfolding transfer_host
    transfer_host-VolumeLaws laws = record {
      created = laws.created;
      os_other = laws.os_other;
      os_copied = laws.os_copied;
      native_other = laws.native_other;
      native_copied = laws.native_copied;
      synced = laws.synced;
      directory_synced = laws.directory_synced;
      renamed = laws.renamed;
      rename_other = laws.rename_other;
      rename_failed = laws.rename_failed;
      removed_other = laws.removed_other;
      interrupt_same = laws.interrupt_same;
    }

    transfer_host-WriteLaws :
        WriteLaws host.env host.volume content
        → WriteLaws
            (transfer_host host json state_path).env
            (transfer_host host json state_path).volume
            content
    unfolding transfer_host
    transfer_host-WriteLaws laws = record {
      new_other = laws.new_other;
      written = laws.written;
      write_other = laws.write_other;
      opened_synced = laws.opened_synced;
      read_back = laws.read_back;
      there = laws.there;
    }

    module _ (q : FilePath) (steady : IsSteady host content q) (primary : IsUnwritten state_path q)
        (secondary : IsUnwritten secondary_state_path q) where
      revision-Quiet :
          (path : FilePath) (state : MigrationState) (revision : ℕ)
          → IsUnwritten path q
          → Quiet content q (persist_state_with_revision host json path state revision)
      unfolding persist_state_with_revision
      revision-Quiet path state revision unwritten =
          Quiet-write_bytes host content q steady path
            (json.envelope.to_vec (envelope_of host json state revision)) "state" unwritten.target
            unwritten.temp

      backup-IsQuiet :
          (state : MigrationState) (revision : ℕ) (s : Sys W) (r : Result (Unit {0}) × Sys W)
          → IsQuiet content q s r.1
          → IsQuiet content q s (then_backup host json secondary_state_path state revision r).1
      backup-IsQuiet state revision s (err e, t) h = h
      backup-IsQuiet state revision s (ok done, t) h =
          (IsQuiet-preorder content q).chain s t _ h
            ((revision-Quiet secondary_state_path state revision secondary).at t)

      compat-Quiet :
          (state : MigrationState)
          → Quiet content q
              (persist_state_with_compat_backup host json state_path secondary_state_path state)
      unfolding persist_state_with_compat_backup
      compat-Quiet state = record {
        at = λ s.
            backup-IsQuiet state (backup_revision host json state_path secondary_state_path s.world)
              s _
              ((revision-Quiet state_path state
                  (backup_revision host json state_path secondary_state_path s.world) primary).at
                s);
      }

      pub transfer_host-IsSteady : IsSteady (transfer_host host json state_path) content q
      unfolding transfer_host
      transfer_host-IsSteady = record {
        volume_laws = transfer_host-VolumeLaws steady.volume_laws;
        write_laws = transfer_host-WriteLaws steady.write_laws;
        suffix_same = steady.suffix_same;
        now_same = steady.now_same;
        space_same = steady.space_same;
        persist_same = λ s w. ((compat-Quiet s).at (record { state = s; world = w })).same;
      }
