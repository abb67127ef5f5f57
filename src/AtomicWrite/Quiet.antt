-- ===== src/AtomicWrite/Quiet.antt =====
-- src/atomic_write.rs: a write leaves a file alone that is neither its target nor temporary.
use vibe_caravan.Prelude.{
  ℕ, ◌≡◌, ◌∙◌, Bool, true, false, Option, none, some, List, [], ◌∷◌, String, FilePath, parent,
  file_name, path_eq, ◌==◌,
}
use vibe_caravan.Error.{Result, ok, err, CaravanError, IoError}
use vibe_caravan.Platform.Host.{Host}
use vibe_caravan.Platform.Volume.{Content}
use vibe_caravan.Platform.Steady.{IsSteady}
use vibe_caravan.Exec.{Sys, Exec, call, ◌>>=◌}
use vibe_caravan.Exec.Within.{Within-pure, Within-raise, Within-ask, Within-ok_or_raise}
use vibe_caravan.Exec.Quiet.{IsQuiet, IsQuiet-preorder, Quiet, Quiet-call, Quiet-bind}
use vibe_caravan.AtomicWrite.{
  write_error, no_name_error, temp_path_for, or_fail, create_parent_directory, sync_parent,
  sync_parent_directory, write_through, remove_on_error, write_or_remove, write_bytes,
}
use vibe_caravan.AtomicWrite.Replaces.{IsNoTemp}

pub record IsUnwritten (path q : FilePath) : Type 0 where
  pub target : (path == q) ≡ false
  pub temp : IsNoTemp path q

module _ {W : Type 0} (host : Host W) (content : FilePath → W → Content) (q : FilePath)
    (steady : IsSteady host content q) where
  Quiet-or_fail :
      (error : IoError → CaravanError) (o : Option IoError) → Quiet content q (or_fail host error o)
  Quiet-or_fail error none = Within-pure (IsQuiet-preorder content q) tt
  Quiet-or_fail error (some e) = Within-raise (IsQuiet-preorder content q) (error e)

  -- One call, the handling of its answer, and what follows.
  Quiet-next :
      {A : Type 0} (f : W → Option IoError × W) (error : IoError → CaravanError) (rest : Exec W A)
      → ((w : W) → content q (f w).1 ≡ content q w)
      → Quiet content q rest
      → Quiet content q (call f >>= λ o. or_fail host error o >>= λ u. rest)
  Quiet-next f error rest h k =
      Quiet-bind content q (call f) (λ o. or_fail host error o >>= λ u. rest)
        (Quiet-call content q f h)
        λ o. Quiet-bind content q (or_fail host error o) (λ u. rest) (Quiet-or_fail error o) λ u. k

  Quiet-done :
      (f : W → Option IoError × W) (error : IoError → CaravanError)
      → ((w : W) → content q (f w).1 ≡ content q w)
      → Quiet content q (call f >>= or_fail host error)
  Quiet-done f error h =
      Quiet-bind content q (call f) (or_fail host error) (Quiet-call content q f h)
        (Quiet-or_fail error)

  Quiet-create_parent_directory :
      (path : FilePath) (subject : String)
      → Quiet content q (create_parent_directory host path subject)
  unfolding create_parent_directory
  Quiet-create_parent_directory [] subject = Within-pure (IsQuiet-preorder content q) tt
  Quiet-create_parent_directory (c ∷ rest) subject =
      Quiet-done (host.volume.create_dir_all (parent (c ∷ rest)))
        (write_error "failed to create {} directory {}" subject (parent (c ∷ rest)))
        (steady.volume_laws.created (parent (c ∷ rest)) q)

  Quiet-sync_parent :
      (windows : Bool) (path : FilePath) (subject : String)
      → Quiet content q (sync_parent host windows path subject)
  Quiet-sync_parent true path subject = Within-pure (IsQuiet-preorder content q) tt
  Quiet-sync_parent false [] subject = Within-pure (IsQuiet-preorder content q) tt
  Quiet-sync_parent false (c ∷ rest) subject =
      Quiet-bind content q _ _
        (Within-ask (IsQuiet-preorder content q) (host.volume.open_directory (parent (c ∷ rest))))
        λ opened.
          Quiet-bind content q _ _
            (Quiet-or_fail
              (write_error "failed to open {} parent directory {} for sync" subject
                (parent (c ∷ rest)))
              opened)
            λ _.
              Quiet-done (host.volume.sync_opened (parent (c ∷ rest)))
                (write_error "failed to sync {} parent directory {}" subject (parent (c ∷ rest)))
                (steady.write_laws.opened_synced (parent (c ∷ rest)) q)

  module _ (path : FilePath) (payload : List ℕ) (subject : String)
      (apart : (path == q) ≡ false) where
    Quiet-write_through :
        (temp : FilePath)
        → (temp == q) ≡ false
        → Quiet content q (write_through host temp path payload subject)
    unfolding sync_parent_directory
    Quiet-write_through temp n =
        Quiet-next (host.volume.create_new temp) _ _ (λ w. steady.write_laws.new_other temp q w n)
          (Quiet-next (host.volume.write_all temp payload) _ _
            (λ w. steady.write_laws.write_other temp q payload w n)
            (Quiet-next (host.volume.sync_file_data temp) _ _
              (λ w. steady.volume_laws.synced temp q w)
              (Quiet-next (host.volume.rename temp path) _ _
                (λ w. steady.volume_laws.rename_other temp path q w n apart)
                (Quiet-sync_parent host.is_windows path subject))))

    removed-IsQuiet :
        (temp : FilePath) (s : Sys W) (r : Result (Unit {0}) × Sys W)
        → (temp == q) ≡ false
        → IsQuiet content q s r.1
        → IsQuiet content q s (remove_on_error host temp r).1
    removed-IsQuiet temp s (ok u, t) n h = h
    removed-IsQuiet temp s (err e, t) n h = record {
      valid = h.valid;
      same = steady.volume_laws.removed_other temp q t.world n ∙ h.same;
    }

    Quiet-write_or_remove :
        (temp : FilePath)
        → (temp == q) ≡ false
        → Quiet content q (write_or_remove host temp path payload subject)
    Quiet-write_or_remove temp n = record {
      at = λ s.
          removed-IsQuiet temp s (write_through host temp path payload subject s) n
            ((Quiet-write_through temp n).at s);
    }

    pub Quiet-write_bytes :
        IsNoTemp path q → Quiet content q (write_bytes host path payload subject)
    unfolding write_bytes
    Quiet-write_bytes n = Quiet-bind content q _ _ (Quiet-create_parent_directory path subject) λ _.
        Quiet-bind content q _ _
          (Within-ok_or_raise (IsQuiet-preorder content q) (file_name path)
            (no_name_error subject path))
          λ name.
            Quiet-bind content q _ _
              (Quiet-call content q host.unique_suffix (steady.suffix_same q))
              λ unique. Quiet-write_or_remove (temp_path_for path name unique) (n name unique)
