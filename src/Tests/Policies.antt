-- ===== src/Tests/Policies.antt =====
-- Sizes, the capacity check and the snapshot policy at concrete inputs.
use vibe_caravan.Prelude.{
  ℕ, ◌+◌, ◌<◌, ◌≡◌, refl, ◌↔◌, ◌⊎◌, inl, inr, none, some, [], ◌∷◌, arith, text, text_eq, FilePath,
  trim, to_ascii_lowercase,
}
use vibe_caravan.Config.{Mode}
use vibe_caravan.Error.{Result, ok, err, CaravanError, message}
use vibe_caravan.Exec.{Sys}
use vibe_caravan.Size.{SizeParseError, parse_size}
use vibe_caravan.Platform.Host.{SpaceInfo}
use vibe_caravan.Capacity.{
  CapacityDecision, CapacityReport, check_capacity_with_probe_and_backend, check_capacity-decision,
}
use vibe_caravan.Snapshot.{
  SnapshotRequest, SnapshotBackend, IsDue, snapshot_if_needed, snapshot_if_needed-only-IsDue,
}
use vibe_caravan.Tests.Data.{id_1, approved_state}

two_kib : parse_size (text " 2 KiB") ≡ inr 2048
unfolding parse_size trim to_ascii_lowercase text_eq
two_kib = refl

sizes_too_large :
    (parse_size (text "18446744073709551615TiB") ≡ inl SizeParseError.too_large)
    × (parse_size (text "18446744073709551616") ≡ inl SizeParseError.invalid_numeric_part)
unfolding parse_size trim to_ascii_lowercase text_eq
sizes_too_large = (refl, refl)

sizes_refused :
    (parse_size (text "   ") ≡ inl SizeParseError.empty)
    × (parse_size (text "KiB") ≡ inl SizeParseError.missing_digits)
    × (parse_size (text "10MB") ≡ inl SizeParseError.unsupported_unit)
unfolding parse_size trim to_ascii_lowercase text_eq
sizes_refused = (refl, refl, refl)

abbrev space : SpaceInfo
space = record { total_bytes = 1000; available_bytes = 100; volume_free_bytes = 120 }

abbrev probe : FilePath → Result SpaceInfo
probe destination = ok space

check_capacity-decision_example :
    (r : CapacityReport) × (check_capacity_with_probe_and_backend [] 60 40 probe "custom_probe"
      ≡ ok r)
    × ((r.decision ≡ CapacityDecision.proceed) ↔ (60 + 40 < space.available_bytes))
    × ((r.reason ≡ none) ↔ (r.decision ≡ CapacityDecision.proceed))
check_capacity-decision_example =
    check_capacity-decision [] 60 40 probe "custom_probe" space (omega arith) refl (omega arith)

-- The world counts the snapshots.
abbrev counting : SnapshotBackend ℕ
counting = record {
  create_snapshot = λ dest root id w. (ok (text "snap"), w + 1);
  now_unix_secs = λ w. (1700000000, w);
}

abbrev no_space : CaravanError
no_space = CaravanError.io (message "no space left" [])

abbrev failing : SnapshotBackend ℕ
failing = record {
  create_snapshot = λ dest root id w. (err no_space, w);
  now_unix_secs = λ w. (1700000000, w);
}

abbrev request : SnapshotRequest
request = record {
  mode = Mode.migrate;
  snapshot_every = some 2;
  completed_batch_count = 4;
  batch_id = id_1;
  destination_root = text "dest" ∷ [];
  snapshot_root = none;
}

abbrev before_snapshot : Sys ℕ
before_snapshot = record { state = approved_state; world = 0 }

request-IsDue : IsDue request
request-IsDue = record {
  every = 2;
  migrating = refl;
  given = refl;
  positive = omega arith;
  some_done = omega arith;
  divides = refl;
}

snapshot_if_needed-only-IsDue_example :
    ((snapshot_if_needed counting request before_snapshot).1 ≡ before_snapshot) ⊎ IsDue request
snapshot_if_needed-only-IsDue_example =
    snapshot_if_needed-only-IsDue counting request before_snapshot
