-- ===== src/Tests/Disk.antt =====
-- A disk in memory: what each path has. Nothing fails on it, but the copy call of the platform is
-- not supported.
use Prim.Native.Nat.{ℕ}
use vibe_caravan.Prelude.{
  ◌≡◌, refl, ◌⊎◌, inl, inr, Bool, true, false, Option, none, some, List, [], ◌∷◌, arith, text,
  FilePath, path_eq, ◌==◌, length, if◌then◌else◌, Bool-cases,
}
use vibe_caravan.Error.{ok, IoError}
use vibe_caravan.Platform.{Env, EnvLaws}
use vibe_caravan.Platform.Volume.{Volume, Content, VolumeLaws, WriteLaws}
use vibe_caravan.Platform.Host.{Host}
use vibe_caravan.AtomicWrite.Replaces.{CanWrite, IsReadable}

abbrev pub Disk : Type 0
Disk = FilePath → Content

abbrev pub put : FilePath → Content → Disk → Disk
put p c w = λ q. if p == q then c else w q

abbrev is_some : Content → Bool
is_some none = false
is_some (some bytes) = true

abbrev len_of : Content → Option ℕ
len_of none = none
len_of (some bytes) = some (length bytes)

abbrev removed : FilePath → Content → Disk → Option IoError × Disk
removed p none w = (some IoError.not_found, w)
removed p (some bytes) w = (none, put p none w)

abbrev pub disk_env : Env Disk
disk_env = record {
  exists = λ q w. is_some (w q);
  remove_file = λ p w. removed p (w p) w;
  now_unix_secs = λ w. (1700000000, w);
  check_interrupt = λ w. (ok tt, w);
  read_line = λ w. (ok (text "yes"), w);
  persist = λ s w. (ok tt, w);
}

abbrev copied : FilePath → Content → Disk → (IoError ⊎ ℕ) × Disk
copied b none w = (inl IoError.not_found, w)
copied b (some bytes) w = (inr (length bytes), put b (some bytes) w)

abbrev moved : FilePath → FilePath → Content → Disk → Option IoError × Disk
moved a b none w = (some IoError.not_found, w)
moved a b (some bytes) w = (none, if a == b then w else put b (some bytes) (put a none w))

abbrev read_of : Content → IoError ⊎ List ℕ
read_of none = inl IoError.not_found
read_of (some bytes) = inr bytes

abbrev pub disk_volume : Volume Disk
disk_volume = record {
  create_dir_all = λ p w. (none, w);
  os_copy = λ a b w. copied b (w a) w;
  native_copy = λ a b w. (inl (IoError.other "unsupported"), w);
  sync_file_data = λ p w. (none, w);
  sync_directory = λ p w. (none, w);
  rename = λ a b w. moved a b (w a) w;
  create_new = λ p w. (none, put p (some []) w);
  write_all = λ p bytes w. (none, put p (some bytes) w);
  open_directory = λ p w. none;
  sync_opened = λ p w. (none, w);
  read_to_string = λ p w. read_of (w p);
  len = λ p w. len_of (w p);
}

abbrev pub content : FilePath → Disk → Content
content q w = w q

put-other : (p q : FilePath) (c : Content) (w : Disk) → (p == q) ≡ false → put p c w q ≡ w q
put-other p q c w h = rw h refl

put-same : (p : FilePath) (c : Content) (w : Disk) → put p c w p ≡ c
put-same p c w = ground (arith, path_eq.beq_iff p p)

copied-other :
    (b q : FilePath) (c : Content) (w : Disk) → (b == q) ≡ false → (copied b c w).1 q ≡ w q
copied-other b q none w h = refl
copied-other b q (some bytes) w h = put-other b q (some bytes) w h

copied-there :
    (b : FilePath) (c : Content) (w : Disk) (n : ℕ)
    → (copied b c w).0 ≡ inr n
    → (copied b c w).1 b ≡ c
copied-there b none w n h = absurd (ground (arith, h))
copied-there b (some bytes) w n h = put-same b (some bytes) w

removed-other :
    (p q : FilePath) (c : Content) (w : Disk) → (p == q) ≡ false → (removed p c w).1 q ≡ w q
removed-other p q none w h = refl
removed-other p q (some bytes) w h = put-other p q none w h

moved-there :
    (a b : FilePath) (c : Content) (w : Disk)
    → w a ≡ c
    → (moved a b c w).0 ≡ none
    → (moved a b c w).1 b ≡ c
moved-there a b none w e h = absurd (ground (arith, h))
moved-there a b (some bytes) w e h = elim (Bool-cases (a == b)) [
  | inl same ↦ rw same (ground (arith, (path_eq.beq_iff a b).0 same, e))
  | inr other ↦ rw other (put-same b (some bytes) (put a none w))
]

moved-other :
    (a b q : FilePath) (c : Content) (w : Disk)
    → (a == q) ≡ false
    → (b == q) ≡ false
    → (moved a b c w).1 q ≡ w q
moved-other a b q none w h k = refl
moved-other a b q (some bytes) w h k = elim (Bool-cases (a == b)) [
  | inl same ↦ rw same refl
  | inr other ↦ rw (other, k, h) refl
]

moved-failed :
    (a b q : FilePath) (c : Content) (w : Disk) (x : IoError)
    → (moved a b c w).0 ≡ some x
    → (moved a b c w).1 q ≡ w q
moved-failed a b q none w x h = refl
moved-failed a b q (some bytes) w x h = absurd (ground (arith, h))

pub disk_laws : VolumeLaws disk_env disk_volume content
disk_laws = record {
  created = λ p q w. refl;
  os_other = λ a b q w h. copied-other b q (w a) w h;
  os_copied = λ a b w n apart h. copied-there b (w a) w n h;
  native_other = λ a b q w h. refl;
  native_copied = λ a b w n apart h. absurd (ground (arith, h));
  synced = λ p q w. refl;
  directory_synced = λ p q w. refl;
  renamed = λ a b w h. moved-there a b (w a) w refl h;
  rename_other = λ a b q w h k. moved-other a b q (w a) w h k;
  rename_failed = λ a b q w x h. moved-failed a b q (w a) w x h;
  removed_other = λ p q w h. removed-other p q (w p) w h;
  interrupt_same = λ q w. refl;
}

read_of-some : (c : Content) (bytes : List ℕ) → read_of c ≡ inr bytes → c ≡ some bytes
read_of-some none bytes h = absurd (ground (arith, h))
read_of-some (some b) bytes h = ground (arith, h)

pub disk-WriteLaws : WriteLaws disk_env disk_volume content
disk-WriteLaws = record {
  new_other = λ p q w h. put-other p q (some []) w h;
  written = λ p bytes w h. put-same p (some bytes) w;
  write_other = λ p q bytes w h. put-other p q (some bytes) w h;
  opened_synced = λ p q w. refl;
  read_back = λ p w bytes h. read_of-some (w p) bytes h;
  there = λ p w bytes h. rw h refl;
}

removed_gone :
    (p : FilePath) (c : Content) (w : Disk)
    → w p ≡ c
    → (removed p c w).0 ≡ none
    → is_some ((removed p c w).1 p) ≡ false
removed_gone p none w e h = rw e refl
removed_gone p (some bytes) w e h = rw (put-same p none w) refl

none_created :
    (p q : FilePath) (c : Content) (w : Disk)
    → is_some (w q) ≡ false
    → is_some ((removed p c w).1 q) ≡ false
none_created p q none w h = h
none_created p q (some bytes) w h = elim (Bool-cases (p == q)) [
  | inl same ↦ rw same refl
  | inr other ↦ rw other h
]

pub disk_env-EnvLaws : EnvLaws disk_env
disk_env-EnvLaws = record {
  removed = λ p w h. removed_gone p (w p) w refl h;
  removes_only = λ p q w h. rw (removed-other p q (w p) w h) refl;
  creates_nothing = λ p q w h. none_created p q (w p) w h;
  now_keeps = λ q w. refl;
  interrupt_keeps = λ q w. refl;
  read_keeps = λ q w. refl;
}

-- The name is in the directory where the disk has the file.
abbrev pub disk_host : Host Disk
disk_host = record {
  env = disk_env;
  volume = disk_volume;
  metadata = λ w p. none;
  read_dir = λ p w.
      inr (some (record { file_name = text "a.txt"; is_file = true; is_symlink = false }) ∷ []);
  list_dir = λ p w. inr [];
  symlink_len = λ p w. len_of (w p);
  query_space_info = λ p w.
      (ok (record { total_bytes = 1000; available_bytes = 500; volume_free_bytes = 500 }), w);
  probe_backend = "memory";
  is_windows = false;
  to_lowercase = λ t. t;
  unique_suffix = λ w. (text "1.2", w);
  reads = λ p w. inr (inr (text "bytes") ∷ []);
  blake3 = λ bytes. bytes;
  canonicalize = λ p w. inr p;
  is_absolute = λ p. true;
  current_dir = λ w. inr [];
  dir_info = λ p w. inr (record { is_dir = true; dev = 1 });
  to_string_lossy = λ p. text "path";
  path_of = λ t. t ∷ [];
  as_bytes = λ t. t;
  write = λ p bytes w. (none, put p (some bytes) w);
}

pub disk-CanWrite : CanWrite disk_host content
disk-CanWrite = record {
  volume_laws = disk_laws;
  write_laws = disk-WriteLaws;
  suffix_same = λ q w. refl;
}

abbrev pub disk_readable : IsReadable disk_host content
disk_readable = record {
  can_write = disk-CanWrite;
  is_utf8 = λ bytes. true;
  was_text = λ p w bytes h. refl;
  reads = λ p w bytes h u. rw h refl;
  now_same = λ q w. refl;
}
