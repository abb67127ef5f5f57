-- ===== src/Platform/Steady.antt =====
-- What the theorems on a whole run assume of the machine, for one file: the calls that are not made
-- to change that file leave its bytes alone.
use vibe_caravan.Prelude.{◌≡◌, FilePath}
use vibe_caravan.Models.State.{MigrationState}
use vibe_caravan.Platform.Host.{Host}
use vibe_caravan.Platform.Volume.{Content, VolumeLaws, WriteLaws}

-- The documented behaviour of the calls, and a file that is none of those that hold the state.
pub record IsSteady {W : Type 0} (host : Host W) (content : FilePath → W → Content) (q : FilePath)
    : Type 0 where
  pub volume_laws : VolumeLaws host.env host.volume content
  pub write_laws : WriteLaws host.env host.volume content
  pub suffix_same : (p : FilePath) (w : W) → content p (host.unique_suffix w).1 ≡ content p w
  pub now_same : (w : W) → content q (host.env.now_unix_secs w).1 ≡ content q w
  pub space_same :
      (dest : FilePath) (w : W) → content q (host.query_space_info dest w).1 ≡ content q w
  pub persist_same : (s : MigrationState) (w : W) → content q (host.env.persist s w).1 ≡ content q w
