-- ===== src/Registry.antt =====
-- src/migration_registry.rs and src/cli/commands/shared/app_context.rs: the list of migrations, and
-- the change of a status in two writes, so that a crash between them leaves the intent.
pub mod Entries
pub mod Intent
pub mod Quiet
use vibe_caravan.Prelude.{
  ℕ, ◌+◌, ◌%◌, ◌⊎◌, inl, inr, Bool, true, false, ◌&&◌, not, Option, none, some, List, [], ◌∷◌, ◌++◌,
  Text, text_eq, ◌==◌, FilePath, file_name, nat_beq, find, is_empty, if◌then◌else◌,
}
use vibe_caravan.Error.{Result, ok, err, CaravanError, IoError, Arg, Message, message}
use vibe_caravan.Platform.Host.{Host, Json}
use vibe_caravan.AtomicWrite.{write_bytes}
use vibe_caravan.Exec.{Sys, Exec, pure, call, lift, ◌>>=◌}

pub data MigrationStatus : Type 0 where
  not_started running verifying awaiting_deletion completed failed : MigrationStatus

pub record MigrationEntry : Type 0 where
  pub id : ℕ
  pub source : Text
  pub destination : Text
  pub mode : Text
  pub status : MigrationStatus
  pub pending_status : Option MigrationStatus
  pub created_at : ℕ
  pub updated_at : ℕ
  pub state_file : Text

abbrev status_or : Option MigrationStatus → MigrationStatus → MigrationStatus
status_or none status = status
status_or (some pending) status = pending

unfoldable pub effective_status : MigrationEntry → MigrationStatus
effective_status e = status_or e.pending_status e.status

pub record MigrationRegistry : Type 0 where
  pub migrations : List MigrationEntry
  pub next_id : ℕ

-- `MigrationRegistry::new`.
abbrev pub empty_registry : MigrationRegistry
empty_registry = record { migrations = []; next_id = 1 }

unfoldable pub find_by_id : MigrationRegistry → ℕ → Option MigrationEntry
find_by_id r id = find (λ m. nat_beq m.id id) r.migrations

-- Neither completed nor failed.
abbrev pub is_active : MigrationStatus → Bool
is_active MigrationStatus.completed = false
is_active MigrationStatus.failed = false
is_active _ = true

abbrev pub matches : Text → Text → Text → MigrationEntry → Bool
unfolding effective_status
matches source dest mode m =
    (m.source == source)
    && ((m.destination == dest) && ((m.mode == mode) && is_active (effective_status m)))

unfoldable pub find_by_source_dest : MigrationRegistry → Text → Text → Text → Option MigrationEntry
unfolding matches
find_by_source_dest r source dest mode = find (matches source dest mode) r.migrations

unfoldable pub find_first_incomplete : MigrationRegistry → Option MigrationEntry
unfolding effective_status
find_first_incomplete r = find (λ m. is_active (effective_status m)) r.migrations

abbrev new_entry : ℕ → ℕ → Text → Text → Text → Text → MigrationEntry
new_entry now id source destination mode state_file = record {
  id = id;
  source = source;
  destination = destination;
  mode = mode;
  status = MigrationStatus.not_started;
  pending_status = none;
  created_at = now;
  updated_at = now;
  state_file = state_file;
}

-- The id of the new entry, and the registry with it; the time comes first. The next id wraps, as in a
-- release build.
unfoldable pub add_migration :
    ℕ → MigrationRegistry → Text → Text → Text → Text → ℕ × MigrationRegistry
add_migration now r source destination mode state_file = (
  r.next_id,
  record {
    migrations = r.migrations ++ (new_entry now r.next_id source destination mode state_file ∷ []);
    next_id = (r.next_id + 1) % 18446744073709551616;
  },
)

abbrev not_found_error : ℕ → CaravanError
not_found_error id =
    CaravanError.state_corrupt (message "migration with id {} not found" (Arg.num id ∷ []))

-- The first entry with the id is changed.
abbrev pub change_first :
    ℕ → (MigrationEntry → MigrationEntry) → List MigrationEntry → List MigrationEntry
change_first id f [] = []
change_first id f (m ∷ ms) =
    let rest = change_first id f ms in if nat_beq m.id id then f m ∷ ms else m ∷ rest

abbrev change_found :
    ℕ
    → (MigrationEntry → MigrationEntry)
    → MigrationRegistry
    → Option MigrationEntry
    → Result MigrationRegistry
change_found id f r none = err (not_found_error id)
change_found id f r (some m) = ok (record r { migrations = change_first id f r.migrations })

abbrev pub begin : ℕ → MigrationStatus → MigrationEntry → MigrationEntry
begin now target m = record m { pending_status = some target; updated_at = now }

-- `if let Some(target) = entry.pending_status.take() { entry.status = target }`.
abbrev pub commit : ℕ → MigrationEntry → MigrationEntry
commit now m = record m {
  status = status_or m.pending_status m.status;
  pending_status = none;
  updated_at = now;
}

unfoldable pub begin_status_transition :
    ℕ → MigrationRegistry → ℕ → MigrationStatus → Result MigrationRegistry
unfolding find_by_id
begin_status_transition now r id target = change_found id (begin now target) r (find_by_id r id)

unfoldable pub commit_status_transition : ℕ → MigrationRegistry → ℕ → Result MigrationRegistry
unfolding find_by_id
commit_status_transition now r id = change_found id (commit now) r (find_by_id r id)

-- Each call reads the clock.
unfoldable pub update_status :
    ℕ → ℕ → MigrationRegistry → ℕ → MigrationStatus → Result MigrationRegistry
unfolding begin_status_transition commit_status_transition
update_status now now' r id status = elim (begin_status_transition now r id status) [
  | err e ↦ err e
  | ok r' ↦ commit_status_transition now' r' id
]

abbrev read_error : FilePath → IoError → CaravanError
read_error path e =
    CaravanError.io_context (message "failed to read migration registry {}" (Arg.path path ∷ [])) e

abbrev parse_error : FilePath → Message → CaravanError
parse_error path why = CaravanError.state_corrupt (
    message "failed to parse migration registry {}: {err}"
      (Arg.path path ∷ Arg.lit why.template ∷ why.args))

abbrev pub parsed_registry : FilePath → Message ⊎ MigrationRegistry → Result MigrationRegistry
parsed_registry path (inl why) = err (parse_error path why)
parsed_registry path (inr r) = ok r

module _ {W : Type 0} (host : Host W) (json : Json MigrationRegistry) (path : FilePath) where
  abbrev pub read_registry : IoError ⊎ List ℕ → Result MigrationRegistry
  read_registry (inl e) = err (read_error path e)
  read_registry (inr content) = parsed_registry path (json.from_str content)

  -- The registry in a world; loading changes nothing.
  unfoldable pub registry_in : W → Result MigrationRegistry
  registry_in w =
      if not (host.env.exists path w)
      then ok empty_registry
      else read_registry (host.volume.read_to_string path w)

  -- `MigrationRegistry::load`.
  unfoldable pub load : Exec W MigrationRegistry
  unfolding registry_in
  load s = (registry_in s.world, s)

  -- `MigrationRegistry::save`.
  unfoldable pub save : MigrationRegistry → Exec W (Unit {0})
  unfolding write_bytes
  save r = write_bytes host path (json.to_vec r) "migration registry"

  -- The first write: the intent.
  unfoldable pub save_intent : ℕ → MigrationStatus → Exec W (Unit {0})
  unfolding load save begin_status_transition
  save_intent id target = load >>= λ r. call host.env.now_unix_secs >>= λ now.
      lift (begin_status_transition now r id target) >>= λ r'. save r'

  unfoldable pub save_commit : ℕ → Exec W (Unit {0})
  unfolding load save commit_status_transition
  save_commit id = load >>= λ r. call host.env.now_unix_secs >>= λ now.
      lift (commit_status_transition now r id) >>= λ r'. save r'

  unfoldable pub persist_status_transition_with_intent : ℕ → MigrationStatus → Exec W (Unit {0})
  unfolding save_intent save_commit
  persist_status_transition_with_intent id target =
      save_intent id target >>= λ begun. save_commit id

  -- The branch for no active entry.
  abbrev register : Text → Text → Text → Text → MigrationRegistry → Exec W (ℕ × Bool)
  register source destination mode state_filename r = call host.env.now_unix_secs >>= λ now.
      let (id, r') = add_migration now r source destination mode state_filename in
      save r' >>= λ saved. pure (id, true)

  abbrev reuse_or_register :
      Text → Text → Text → Text → MigrationRegistry → Option MigrationEntry → Exec W (ℕ × Bool)
  reuse_or_register source destination mode state_filename r (some m) = pure (m.id, false)
  reuse_or_register source destination mode state_filename r none =
      register source destination mode state_filename r

  unfoldable pub register_or_reuse_migration : Text → Text → Text → Text → Exec W (ℕ × Bool)
  unfolding load find_by_source_dest add_migration save
  register_or_reuse_migration source destination mode state_filename = load >>= λ r.
      reuse_or_register source destination mode state_filename r
        (find_by_source_dest r source destination mode)

  -- `file_name()` of the path of a state, compared with the entry's.
  abbrev is_for_file : Option Text → MigrationEntry → Bool
  is_for_file none m = false
  is_for_file (some name) m = m.state_file == name

  abbrev last_id : (MigrationEntry → Bool) → List MigrationEntry → Option ℕ
  last_id p [] = none
  last_id p (m ∷ ms) = elim (last_id p ms) [
    | some id ↦ some id
    | none ↦ if p m then some m.id else none
  ]

  abbrev exact_or_any : Option ℕ → Option ℕ → Option ℕ
  exact_or_any (some id) other = some id
  exact_or_any none other = other

  -- The last entry that is active for the state, one of the same file first.
  unfoldable pub active_id_in : MigrationRegistry → Text → Text → Text → FilePath → Option ℕ
  unfolding matches
  active_id_in r source destination mode state_path =
      exact_or_any
        (last_id (λ m. matches source destination mode m && is_for_file (file_name state_path) m)
          r.migrations)
        (last_id (matches source destination mode) r.migrations)

  unfoldable pub find_active_migration_id_for_state :
      Text → Text → Text → FilePath → Exec W (Option ℕ)
  unfolding load active_id_in
  find_active_migration_id_for_state source destination mode state_path =
      load >>= λ r. pure (active_id_in r source destination mode state_path)
