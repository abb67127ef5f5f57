-- ===== src/Tests/Stores.antt =====
-- The theorems on what is kept on the disk, with the disk in memory.
use vibe_caravan.Prelude.{
  ℕ, ◌||◌, ◌≡◌, ◌≢◌, refl, ◌⊎◌, inl, inr, Option, none, some, List, [], ◌∷◌, ◌++◌, arith, Text,
  text, text_eq, path_eq, ◌==◌, FilePath, length, length-append, Bool-cases, ap, contains, IsNodup,
}
use vibe_caravan.Error.{Result, ok, Message, message}
use vibe_caravan.Models.State.{rebuild_indexes}
use vibe_caravan.Models.Batch.{CompletedFileIdentity}
use vibe_caravan.Platform.Host.{Json}
use vibe_caravan.Exec.{Sys}
use vibe_caravan.AtomicWrite.{temp_path_for, write_bytes}
use vibe_caravan.AtomicWrite.Replaces.{IsNoTemp, write_bytes-IsNoTemp, write_bytes-content}
use vibe_caravan.SourceCompletion.Identity.{identity_eq}
use vibe_caravan.SourceCompletion.Completion.{push_all, push_all-contains}
use vibe_caravan.StateStore.{
  PersistedStateEnvelope, ReconciledStateSource, LoadedStateCandidate, StateJson, reconcile,
  load_state_reconciled, persist_state_with_compat_backup, load_candidate_if_present, next_revision,
}
use vibe_caravan.StateStore.Reconcile.{Outcome, reconcile-Outcome}
use vibe_caravan.StateStore.Recovery.{JsonLaws, AreDistinct, without_index, HasNext, persist-load}
use vibe_caravan.Registry.{
  MigrationStatus, MigrationEntry, MigrationRegistry, begin, commit, find_by_id, registry_in,
  persist_status_transition_with_intent,
}
use vibe_caravan.Registry.Intent.{
  IsDone, IsOldOrNew, HoldsUpdate, IsReadBack, persist_status_transition-IsOldOrNew,
  persist_status_transition-IsDone,
}
use vibe_caravan.Tests.Data.{path_a, planned_state}
use vibe_caravan.Tests.Disk.{Disk, put, content, disk_host, disk-CanWrite, disk_readable}

abbrev primary : FilePath
primary = text "p" ∷ []

abbrev secondary : FilePath
secondary = text "s" ∷ []

suffixed : (name unique : Text) → length (name ++ (text "." ++ (unique ++ text ".tmp"))) ≢ 1
suffixed name unique h = omega (
  arith,
  h,
  length-append name (text "." ++ (unique ++ text ".tmp")),
  length-append unique (text ".tmp"),
)

-- A name of one letter is no temporary name.
no_temp : (dir : Text) (c : ℕ) → IsNoTemp (dir ∷ []) ((c ∷ []) ∷ [])
unfolding temp_path_for text_eq path_eq
no_temp dir c name unique =
    elim (Bool-cases (temp_path_for (dir ∷ []) name unique == ((c ∷ []) ∷ []))) [
      | inr other ↦ other
      | inl same ↦
          let e : temp_path_for (dir ∷ []) name unique ≡ ((c ∷ []) ∷ []) =
            (path_eq.beq_iff (temp_path_for (dir ∷ []) name unique) ((c ∷ []) ∷ [])).0 same in
          absurd (
            suffixed name unique (ap (λ (p : FilePath). elim p [ [] ↦ 0 | t ∷ rest ↦ length t ]) e))
    ]

distinct : AreDistinct primary secondary
distinct = record {
  differ = λ e. ground (arith, e);
  a_of_a = no_temp (text "p") 112;
  b_of_a = no_temp (text "p") 115;
  a_of_b = no_temp (text "s") 112;
  b_of_b = no_temp (text "s") 115;
}

-- An encoding of envelopes of one state.
abbrev with_rest : List ℕ → ℕ → ℕ → PersistedStateEnvelope
with_rest checksum version revision = record {
  format_version = version;
  revision = revision;
  state_checksum = checksum;
  state = without_index planned_state;
}

abbrev decode : List ℕ → Message ⊎ PersistedStateEnvelope
decode (version ∷ revision ∷ checksum) = inr (with_rest checksum version revision)
decode _ = inl (message "no envelope" [])

abbrev state_json : StateJson
state_json = record {
  envelope = record {
    to_vec = λ e. e.format_version ∷ e.revision ∷ e.state_checksum;
    from_str = decode;
  };
  state = record { to_vec = λ s. text "state"; from_str = λ b. inl (message "no state" []) };
}

json_laws : JsonLaws state_json disk_readable.is_utf8 planned_state
json_laws = record {
  envelope_back = λ v r c. refl;
  envelope_text = λ v r c. refl;
  index_skipped = λ t. refl;
}

abbrev empty_disk : Sys Disk
empty_disk = record { state = planned_state; world = λ q. none }

persisted :
    (persist_state_with_compat_backup disk_host state_json primary secondary planned_state
      empty_disk).0
    ≡ ok tt
unfolding persist_state_with_compat_backup path_eq
persisted = refl

room :
    HasNext disk_host state_json content disk_readable planned_state json_laws primary secondary
      distinct empty_disk.world
unfolding next_revision load_candidate_if_present
room = omega arith

persist-load_example :
    load_state_reconciled disk_host state_json primary secondary
      (persist_state_with_compat_backup disk_host state_json primary secondary planned_state
        empty_disk).1.world
    ≡ ok (record { state = rebuild_indexes planned_state; source = ReconciledStateSource.primary })
persist-load_example =
    persist-load disk_host state_json content disk_readable planned_state json_laws primary
      secondary distinct empty_disk room persisted

write_bytes-IsNoTemp_example :
    let w = (write_bytes disk_host primary (text "payload") "state" empty_disk).1.world in
    (content secondary w ≡ content secondary empty_disk.world)
    ⊎ ((secondary ≡ primary) × (content secondary w ≡ some (text "payload")))
write_bytes-IsNoTemp_example =
    write_bytes-IsNoTemp disk_host content disk-CanWrite primary (text "payload") "state" empty_disk
      secondary (no_temp (text "p") 115)

written : (write_bytes disk_host primary (text "payload") "state" empty_disk).0 ≡ ok tt
unfolding write_bytes path_eq
written = refl

write_bytes-content_example :
    content primary (write_bytes disk_host primary (text "payload") "state" empty_disk).1.world
    ≡ some (text "payload")
write_bytes-content_example =
    write_bytes-content disk_host content disk-CanWrite primary (text "payload") "state" empty_disk
      written

abbrev identity : CompletedFileIdentity
identity = record {
  mode = text "migrate";
  relative_path = path_a;
  size_bytes = 5;
  blake3_hash = text "aa";
}

push_all-contains_example :
    (contains (push_all [] (identity ∷ identity ∷ [])) identity
      ≡ (contains [] identity || contains (identity ∷ identity ∷ []) identity))
    × IsNodup (push_all [] (identity ∷ identity ∷ []))
push_all-contains_example = push_all-contains [] (identity ∷ identity ∷ []) tt identity

abbrev newer_backup : Option (Result LoadedStateCandidate)
newer_backup = some (ok (record { state = planned_state; revision = 4; state_checksum = text "b" }))

reconcile-Outcome_example :
    Outcome
      (some (ok (record { state = planned_state; revision = 3; state_checksum = text "a" })))
      newer_backup
      (reconcile primary secondary
        (some (ok (record { state = planned_state; revision = 3; state_checksum = text "a" })))
        newer_backup)
reconcile-Outcome_example =
    reconcile-Outcome primary secondary
      (some (ok (record { state = planned_state; revision = 3; state_checksum = text "a" })))
      newer_backup

abbrev entry : MigrationEntry
entry = record {
  id = 1;
  source = text "/src";
  destination = text "/dst";
  mode = text "migrate";
  status = MigrationStatus.running;
  pending_status = none;
  created_at = 7;
  updated_at = 7;
  state_file = text "m.json";
}

abbrev pub registry : MigrationRegistry
registry = record { migrations = entry ∷ []; next_id = 2 }

-- An encoding of this registry, and of those with its entry on the way to completion.
abbrev begun : ℕ → MigrationRegistry
begun now = record registry { migrations = begin now MigrationStatus.completed entry ∷ [] }

abbrev done : ℕ → MigrationRegistry
done now = record registry {
  migrations = commit now (begin 0 MigrationStatus.completed entry) ∷ [];
}

abbrev encode_entry : MigrationEntry → List ℕ
encode_entry m = elim m.pending_status [
  | none ↦ m.updated_at ∷ []
  | some pending ↦ m.updated_at ∷ 1 ∷ []
]

abbrev encode : List MigrationEntry → List ℕ
encode [] = []
encode (m ∷ ms) = encode_entry m

abbrev decode_registry : List ℕ → Message ⊎ MigrationRegistry
decode_registry [] = inr registry
decode_registry (now ∷ []) = inr (done now)
decode_registry (now ∷ one ∷ rest) = inr (begun now)

abbrev registry_json : Json MigrationRegistry
registry_json = record { to_vec = λ r. encode r.migrations; from_str = decode_registry }

abbrev registry_disk : Sys Disk
registry_disk = record { state = planned_state; world = put primary (some []) (λ q. none) }

found : find_by_id registry 1 ≡ some entry
unfolding find_by_id
found = refl

read_back :
    IsReadBack disk_host registry_json primary content disk_readable
      (no_temp (text "p") 112)
      1
      MigrationStatus.completed
      registry
read_back = record { intent = λ now. (refl, refl); committed = λ now now'. (refl, refl) }

loaded : registry_in disk_host registry_json primary registry_disk.world ≡ ok registry
unfolding registry_in text_eq path_eq
loaded = refl

persist_status_transition-IsOldOrNew_example :
    HoldsUpdate disk_host registry_json primary content disk_readable
      (no_temp (text "p") 112)
      1
      MigrationStatus.completed
      (IsOldOrNew disk_host registry_json primary content disk_readable
        (no_temp (text "p") 112)
        1
        MigrationStatus.completed
        entry)
      registry
      (persist_status_transition_with_intent disk_host registry_json primary 1
        MigrationStatus.completed registry_disk).1.world
persist_status_transition-IsOldOrNew_example =
    persist_status_transition-IsOldOrNew disk_host registry_json primary content disk_readable
      (no_temp (text "p") 112) 1 MigrationStatus.completed registry read_back entry found
      registry_disk loaded

completed :
    (persist_status_transition_with_intent disk_host registry_json primary 1
      MigrationStatus.completed registry_disk).0
    ≡ ok tt
unfolding persist_status_transition_with_intent path_eq
completed = refl

persist_status_transition-IsDone_example :
    HoldsUpdate disk_host registry_json primary content disk_readable
      (no_temp (text "p") 112)
      1
      MigrationStatus.completed
      (IsDone disk_host registry_json primary content disk_readable
        (no_temp (text "p") 112)
        1
        MigrationStatus.completed)
      registry
      (persist_status_transition_with_intent disk_host registry_json primary 1
        MigrationStatus.completed registry_disk).1.world
persist_status_transition-IsDone_example =
    persist_status_transition-IsDone disk_host registry_json primary content disk_readable
      (no_temp (text "p") 112) 1 MigrationStatus.completed registry read_back entry found
      registry_disk loaded completed
