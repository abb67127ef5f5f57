-- ===== src/Registry/Intent.antt =====
-- src/migration_registry.rs: the change of a status on the disk.
use vibe_caravan.Prelude.{
  ℕ, ◌≡◌, ◌≢◌, refl, ◌∙◌, ◌⊎◌, inl, inr, true, false, none, some, List, arith, FilePath, nat_beq,
  Bool-cases,
}
use vibe_caravan.Error.{Result, ok, err, IoError, Message}
use vibe_caravan.Platform.Host.{Host, Json}
use vibe_caravan.Platform.Volume.{Content}
use vibe_caravan.Exec.{Sys, Exec, call, lift, after, ◌>>=◌}
use vibe_caravan.AtomicWrite.Replaces.{IsReadable, IsNoTemp, write_bytes-Replaced}
use vibe_caravan.Registry.{
  MigrationStatus, MigrationEntry, MigrationRegistry, empty_registry, effective_status, find_by_id,
  change_first, change_found, begin, commit, begin_status_transition, commit_status_transition,
  parsed_registry, read_registry, registry_in, load, save, save_intent, save_commit,
  persist_status_transition_with_intent,
}
use vibe_caravan.Registry.Entries.{find-change_first}

module _ {W : Type 0} (host : Host W) (json : Json MigrationRegistry) (path : FilePath)
    (content : FilePath → W → Content) (disk : IsReadable host content)
    (no_temp : IsNoTemp path path) where
  -- The registry is written as a text from which it is read back.
  abbrev IsText : MigrationRegistry → Type 0
  IsText r = (disk.is_utf8 (json.to_vec r) ≡ true) × (json.from_str (json.to_vec r) ≡ inr r)

  -- The file holds the registry.
  abbrev Holds : MigrationRegistry → W → Type 0
  Holds r w =
      (bytes : List ℕ) × (content path w ≡ some bytes)
      × (disk.is_utf8 bytes ≡ true)
      × (json.from_str bytes ≡ inr r)

  Holds-loads : (r : MigrationRegistry) (w : W) → Holds r w → registry_in host json path w ≡ ok r
  unfolding registry_in
  Holds-loads r w (bytes, e, u, p) =
      rw (disk.can_write.write_laws.there path w bytes e, disk.reads path w bytes e u, p) refl

  Holds-kept :
      (r : MigrationRegistry) (w w' : W) → content path w' ≡ content path w → Holds r w → Holds r w'
  Holds-kept r w w' same (bytes, e, u, p) = (bytes, same ∙ e, u, p)

  -- After a save the file holds the new registry, or the old one if the save failed.
  save-Holds :
      (r r' : MigrationRegistry) (s : Sys W)
      → IsText r'
      → Holds r s.world
      → (((save host json path r' s).0 ≡ ok tt) → Holds r' (save host json path r' s).1.world)
        × (Holds r (save host json path r' s).1.world ⊎ Holds r' (save host json path r' s).1.world)
  unfolding save
  save-Holds r r' s back h =
      let w =
        write_bytes-Replaced host content disk.can_write path (json.to_vec r') "migration registry"
          s in
      (
        λ done. (json.to_vec r', w.done done, back.0, back.1),
        elim (w.whole path no_temp) [
          | inl kept ↦ inl (Holds-kept r s.world _ kept h)
          | inr (here, new) ↦ inr (json.to_vec r', new, back.0, back.1)
        ],
      )

  -- A step: load, read the clock, change the entry, save.
  abbrev step : (ℕ → MigrationRegistry → Result MigrationRegistry) → Exec W (Unit {0})
  step change = load host json path >>= λ r.
      call host.env.now_unix_secs >>= λ now. lift (change now r) >>= λ r'. save host json path r'

  step-Holds :
      (change : ℕ → MigrationRegistry → Result MigrationRegistry) (r r' : MigrationRegistry)
      (s : Sys W)
      → IsText r'
      → Holds r s.world
      → change (host.env.now_unix_secs s.world).0 r ≡ ok r'
      → (((step change s).0 ≡ ok tt) → Holds r' (step change s).1.world)
        × (Holds r (step change s).1.world ⊎ Holds r' (step change s).1.world)
  unfolding load
  step-Holds change r r' s back h e =
      let s1 : Sys W = record s { world = (host.env.now_unix_secs s.world).1 } in
      rw (Holds-loads r s.world h, e)
        (save-Holds r r' s1 back (Holds-kept r s.world s1.world (disk.now_same path s.world) h))

  -- The registry `r'` is `r` but for the entry of `id`, of which `P` holds.
  pub record IsUpdate (P : MigrationEntry → Type 0) (id : ℕ) (r r' : MigrationRegistry)
      : Type 0 where
    pub entry : MigrationEntry
    pub found : find_by_id r' id ≡ some entry
    pub property : P entry
    pub others : (j : ℕ) → nat_beq id j ≡ false → find_by_id r' j ≡ find_by_id r j

  changed_registry :
      (id : ℕ) (f : MigrationEntry → MigrationEntry) (r : MigrationRegistry) (m : MigrationEntry)
      → ((x : MigrationEntry) → (f x).id ≡ x.id)
      → find_by_id r id ≡ some m
      → let r' : MigrationRegistry = record r { migrations = change_first id f r.migrations } in
        (change_found id f r (find_by_id r id) ≡ ok r')
        × (find_by_id r' id ≡ some (f m))
        × ((j : ℕ) → nat_beq id j ≡ false → find_by_id r' j ≡ find_by_id r j)
  unfolding find_by_id
  changed_registry id f r m keeps found = (
    rw found refl,
    ground (arith, find-change_first id id f r.migrations keeps, found),
    λ j other. ground (arith, find-change_first id j f r.migrations keeps, other),
  )

  module _ (id : ℕ) (target : MigrationStatus) where
    abbrev Before : MigrationEntry → MigrationEntry → Type 0
    Before m x = x ≡ m

    -- The change is made.
    abbrev pub IsDone : MigrationEntry → Type 0
    IsDone x = (x.status ≡ target) × (x.pending_status ≡ none)

    -- The status that counts is the old one or the target.
    abbrev pub IsOldOrNew : MigrationEntry → MigrationEntry → Type 0
    IsOldOrNew m x = (effective_status x ≡ effective_status m) ⊎ (effective_status x ≡ target)

    -- What the file of the registry holds.
    abbrev pub HoldsUpdate : (MigrationEntry → Type 0) → MigrationRegistry → W → Type 0
    HoldsUpdate P r w =
        (r' : MigrationRegistry) × (registry_in host json path w ≡ ok r') × IsUpdate P id r r'

    abbrev intent_of : MigrationRegistry → ℕ → MigrationRegistry
    intent_of r now = record r { migrations = change_first id (begin now target) r.migrations }

    abbrev commit_of : MigrationRegistry → ℕ → MigrationRegistry
    commit_of r now = record r { migrations = change_first id (commit now) r.migrations }

    intent-Holds :
        (r : MigrationRegistry) (m : MigrationEntry) (s : Sys W)
        → ((now : ℕ) → IsText (intent_of r now))
        → find_by_id r id ≡ some m
        → Holds r s.world
        → let r1 = intent_of r (host.env.now_unix_secs s.world).0 in
          (((save_intent host json path id target s).0 ≡ ok tt)
            → Holds r1 (save_intent host json path id target s).1.world)
          × (Holds r (save_intent host json path id target s).1.world
              ⊎ Holds r1 (save_intent host json path id target s).1.world)
    unfolding save_intent begin_status_transition
    intent-Holds r m s back found h =
        let now = (host.env.now_unix_secs s.world).0 in
        step-Holds (λ n x. begin_status_transition n x id target) r (intent_of r now) s (back now) h
          (changed_registry id (begin now target) r m (λ x. refl) found).0

    commit-Holds :
        (r : MigrationRegistry) (m : MigrationEntry) (s : Sys W)
        → ((now : ℕ) → IsText (commit_of r now))
        → find_by_id r id ≡ some m
        → Holds r s.world
        → let r2 = commit_of r (host.env.now_unix_secs s.world).0 in
          (((save_commit host json path id s).0 ≡ ok tt)
            → Holds r2 (save_commit host json path id s).1.world)
          × (Holds r (save_commit host json path id s).1.world
              ⊎ Holds r2 (save_commit host json path id s).1.world)
    unfolding save_commit commit_status_transition
    commit-Holds r m s back found h =
        let now = (host.env.now_unix_secs s.world).0 in
        step-Holds (λ n x. commit_status_transition n x id) r (commit_of r now) s (back now) h
          (changed_registry id (commit now) r m (λ x. refl) found).0

    -- The documented behaviour of serde, for the two registries that are written.
    pub record IsReadBack (r : MigrationRegistry) : Type 0 where
      pub intent : (now : ℕ) → IsText (intent_of r now)
      pub committed : (now now' : ℕ) → IsText (commit_of (intent_of r now) now')

    module _ (r : MigrationRegistry) (back : IsReadBack r) (m : MigrationEntry)
        (found : find_by_id r id ≡ some m) where
      old-Update : (w : W) → Holds r w → HoldsUpdate (IsOldOrNew m) r w
      unfolding effective_status
      old-Update w h = (
        r,
        Holds-loads r w h,
        record { entry = m; found = found; property = inl refl; others = λ j n. refl },
      )

      intent-Update : (now : ℕ) (w : W) → Holds (intent_of r now) w → HoldsUpdate (IsOldOrNew m) r w
      unfolding effective_status
      intent-Update now w h =
          let (e, f, o) = changed_registry id (begin now target) r m (λ x. refl) found in
          (
            intent_of r now,
            Holds-loads (intent_of r now) w h,
            record { entry = begin now target m; found = f; property = inr refl; others = o },
          )

      commit-Update :
          (now now' : ℕ) (w : W)
          → Holds (commit_of (intent_of r now) now') w
          → HoldsUpdate IsDone r w × HoldsUpdate (IsOldOrNew m) r w
      unfolding effective_status
      commit-Update now now' w h =
          let (e, f, o) = changed_registry id (begin now target) r m (λ x. refl) found in
          let (e', f', o') =
            changed_registry id (commit now') (intent_of r now) (begin now target m) (λ x. refl)
              f in
          let r2 = commit_of (intent_of r now) now' in
          let others : (j : ℕ) → nat_beq id j ≡ false → find_by_id r2 j ≡ find_by_id r j =
            λ j n. o' j n ∙ o j n in
          let loads = Holds-loads r2 w h in
          (
            (
              r2,
              loads,
              record {
                entry = commit now' (begin now target m);
                found = f';
                property = (refl, refl);
                others = others;
              },
            ),
            (
              r2,
              loads,
              record {
                entry = commit now' (begin now target m);
                found = f';
                property = inr refl;
                others = others;
              },
            ),
          )

      -- What a run of both writes has come to.
      abbrev Comes : Result (Unit {0}) × Sys W → Type 0
      Comes x =
          (x.0 ≡ ok tt → HoldsUpdate IsDone r x.1.world) × HoldsUpdate (IsOldOrNew m) r x.1.world

      committed :
          (now : ℕ) (u : Sys W)
          → Holds (intent_of r now) u.world
          → Comes (save_commit host json path id u)
      committed now u h =
          let (e, f, o) = changed_registry id (begin now target) r m (λ x. refl) found in
          let (done, either) =
            commit-Holds (intent_of r now) (begin now target m) u (back.committed now) f h in
          let now' = (host.env.now_unix_secs u.world).0 in
          (
            λ k. (commit-Update now now' _ (done k)).0,
            elim either [
              | inl kept ↦ intent-Update now _ kept
              | inr new ↦ (commit-Update now now' _ new).1
            ],
          )

      then_commit :
          (now : ℕ) (x : Result (Unit {0}) × Sys W)
          → (x.0 ≡ ok tt → Holds (intent_of r now) x.1.world)
          → (Holds r x.1.world ⊎ Holds (intent_of r now) x.1.world)
          → Comes (after x.0 (λ begun. save_commit host json path id) x.1)
      then_commit now (err e, u) done either = (
        λ k. absurd (ground (arith, k)),
        elim either [ inl kept ↦ old-Update _ kept | inr new ↦ intent-Update now _ new ],
      )
      then_commit now (ok done_now, u) done either = committed now u (done refl)

      read-Holds :
          (w : W) (o : IoError ⊎ List ℕ)
          → host.volume.read_to_string path w ≡ o
          → read_registry host json path o ≡ ok r
          → Holds r w
      read-Holds w (inl e) answer h = absurd (ground (arith, h))
      read-Holds w (inr bytes) answer h = (
        bytes,
        disk.can_write.write_laws.read_back path w bytes answer,
        disk.was_text path w bytes answer,
        parsed (json.from_str bytes) h,
      )
        where
          parsed : (p : Message ⊎ MigrationRegistry) → parsed_registry path p ≡ ok r → p ≡ inr r
          parsed (inl why) k = absurd (ground (arith, k))
          parsed (inr x) k = ground (arith, k)

      -- A registry with an entry is one that was read.
      Holds-loaded : (w : W) → registry_in host json path w ≡ ok r → Holds r w
      unfolding registry_in find_by_id
      Holds-loaded w h = elim (Bool-cases (host.env.exists path w)) [
        | inr missing ↦ absurd (not_empty (ground (arith, rw missing at h)) found)
        | inl there ↦
            read-Holds w (host.volume.read_to_string path w) refl (ground (arith, rw there at h))
      ]
        where
          not_empty : empty_registry ≡ r → find_by_id r id ≢ some m
          not_empty e = rw (← e) (λ k. ground (arith, k))

      transition-Comes :
          (s : Sys W)
          → registry_in host json path s.world ≡ ok r
          → Comes (persist_status_transition_with_intent host json path id target s)
      unfolding persist_status_transition_with_intent
      transition-Comes s h =
          let (done, either) = intent-Holds r m s back.intent found (Holds-loaded s.world h) in
          then_commit (host.env.now_unix_secs s.world).0 (save_intent host json path id target s)
            done either

      -- For an entry of the registry on the disk, and however the two writes go, an error between
      -- them included: the registry can be loaded, the entry is there and its effective status is
      -- the old one or the target, and no other entry has changed. The conditions: a text that is
      -- on the disk can be read, the two registries are written as texts that read back, and the
      -- registry is no temporary file of a write to it.
      pub persist_status_transition-IsOldOrNew :
          (s : Sys W)
          → registry_in host json path s.world ≡ ok r
          → HoldsUpdate
              (IsOldOrNew m)
              r
              (persist_status_transition_with_intent host json path id target s).1.world
      persist_status_transition-IsOldOrNew s h = (transition-Comes s h).1

      -- If a transition succeeds, the entry on the disk has the target as its status and nothing
      -- pending, and no other entry has changed. The conditions: a text that is on the
      -- disk can be read, the two registries are written as texts that read back, and the registry
      -- is no temporary file of a write to it.
      pub persist_status_transition-IsDone :
          (s : Sys W)
          → registry_in host json path s.world ≡ ok r
          → (persist_status_transition_with_intent host json path id target s).0 ≡ ok tt
          → HoldsUpdate IsDone r
              (persist_status_transition_with_intent host json path id target s).1.world
      persist_status_transition-IsDone s h done = (transition-Comes s h).0 done
