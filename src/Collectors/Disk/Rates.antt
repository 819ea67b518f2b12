-- ===== src/Collectors/Disk/Rates.antt =====
-- The rates that the disk collector reports between two calls.
use mathlib.Core.List.{append_assoc, append-nil}
use sys_scope.Base.{
  ℕ, ◌-◌, ◌≤◌, ◌<◌, ◌≡◌, refl, sym, ◌∙◌, Bool, true, false, ◌&&◌, ◌||◌, List, [], ◌∷◌, ◌++◌, Option,
  none, some, Text, codes, text_eq, text_key, lookup, if◌then◌else◌, ltb, sub_u64-eq-sub, u64_mod,
  to_u32, Double, min_of,
}
use sys_scope.Core.Result.{Result, ok, error}
use sys_scope.Core.Snapshot.{DiskSnapshot, DiskBlockDeviceInfo, zero_double}
use sys_scope.Platform.Files.{Reader}
use sys_scope.Collectors.Disk.{
  DiskBlockStats, DiskCollector, Progress, no_progress, device_stats, previous_of, device_info,
  idle_info, rated_info, seconds_of, add_device, scan_devices, report, collect_names, collect,
}
use sys_scope.Collectors.Disk.Laws.{has_stats, stats_of_listed, scan_devices-lookup}
use sys_scope.Collectors.Disk.Stat.{Holds, seen, device_stats-seen}

-- Counters that did not fall since the previous call, and a clock that did not go back.
pub record Grew (prev cur : DiskBlockStats) : Type 0 where
  pub fits_reads : cur.reads_completed < u64_mod
  pub fits_writes : cur.writes_completed < u64_mod
  pub fits_read_sectors : cur.read_sectors < u64_mod
  pub fits_write_sectors : cur.write_sectors < u64_mod
  pub fits_io : cur.io_time_ms < u64_mod
  pub fits_time : cur.timestamp_ns < u64_mod
  pub reads : prev.reads_completed ≤ cur.reads_completed
  pub writes : prev.writes_completed ≤ cur.writes_completed
  pub read_sectors : prev.read_sectors ≤ cur.read_sectors
  pub write_sectors : prev.write_sectors ≤ cur.write_sectors
  pub io : prev.io_time_ms ≤ cur.io_time_ms
  pub time : prev.timestamp_ns ≤ cur.timestamp_ns

abbrev pub GrewFrom : Option DiskBlockStats → Option DiskBlockStats → Type 0
GrewFrom none cur = Unit
GrewFrom (some prev) none = Unit
GrewFrom (some prev) (some cur) = Grew prev cur

module _ {W : Type 0} ⦃d : Double W⦄ where
  open d use {lit, of_u64, mul, div}

  -- A growth by `n` over `ns` nanoseconds, per second.
  abbrev pub per_second : W → ℕ → W
  per_second x ns = div x (div (of_u64 ns) (lit 1_000_000_000 0))

  -- What is reported of a device: its operations, bytes (512 to a sector) and share of I/O time since
  -- `prev`, all 0 where there is no earlier call or no time has passed.
  abbrev pub rates_of : Text → DiskBlockStats → Option DiskBlockStats → DiskBlockDeviceInfo W
  rates_of name cur none = record {
    device_name = name;
    read_iops = zero_double;
    write_iops = zero_double;
    read_bytes_per_sec = zero_double;
    write_bytes_per_sec = zero_double;
    io_utilization_percent = zero_double;
    queue_depth = to_u32 cur.io_in_progress;
  }
  rates_of name cur (some prev) =
      let ns = cur.timestamp_ns - prev.timestamp_ns in
      let io_seconds = div (of_u64 (cur.io_time_ms - prev.io_time_ms)) (lit 1000 0) in
      if ltb 0 ns
      then record {
        device_name = name;
        read_iops = per_second (of_u64 (cur.reads_completed - prev.reads_completed)) ns;
        write_iops = per_second (of_u64 (cur.writes_completed - prev.writes_completed)) ns;
        read_bytes_per_sec =
            per_second (mul (of_u64 (cur.read_sectors - prev.read_sectors)) (lit 512 0)) ns;
        write_bytes_per_sec =
            per_second (mul (of_u64 (cur.write_sectors - prev.write_sectors)) (lit 512 0)) ns;
        io_utilization_percent = min_of (lit 100 0) (per_second (mul (lit 100 0) io_seconds) ns);
        queue_depth = to_u32 cur.io_in_progress;
      }
      else record {
        device_name = name;
        read_iops = zero_double;
        write_iops = zero_double;
        read_bytes_per_sec = zero_double;
        write_bytes_per_sec = zero_double;
        io_utilization_percent = zero_double;
        queue_depth = to_u32 cur.io_in_progress;
      }

  device_info-rates_of :
      (name : Text) (cur : DiskBlockStats) (o : Option DiskBlockStats)
      → GrewFrom o (some cur)
      → device_info name cur o ≡ rates_of name cur o
  unfolding device_info idle_info rated_info seconds_of
  device_info-rates_of name cur none g = refl
  device_info-rates_of name cur (some p) g =
      rw
        (
          sub_u64-eq-sub cur.timestamp_ns p.timestamp_ns g.fits_time g.time,
          sub_u64-eq-sub cur.reads_completed p.reads_completed g.fits_reads g.reads,
          sub_u64-eq-sub cur.writes_completed p.writes_completed g.fits_writes g.writes,
          sub_u64-eq-sub cur.read_sectors p.read_sectors g.fits_read_sectors g.read_sectors,
          sub_u64-eq-sub cur.write_sectors p.write_sectors g.fits_write_sectors g.write_sectors,
          sub_u64-eq-sub cur.io_time_ms p.io_time_ms g.fits_io g.io,
        )
        refl

  abbrev with_device :
      Text
      → Option DiskBlockStats
      → Option DiskBlockStats
      → List (DiskBlockDeviceInfo W)
      → List (DiskBlockDeviceInfo W)
  with_device name none prev is = is
  with_device name (some cur) prev is = rates_of name cur prev ∷ is

  -- The devices that count, in the order of the listing.
  abbrev pub rated :
      (Text → Option DiskBlockStats)
      → (Text → Option DiskBlockStats)
      → List Text
      → List (DiskBlockDeviceInfo W)
  rated stat before [] = []
  rated stat before (n ∷ ns) = with_device n (seen stat n) (before n) (rated stat before ns)

  add_device-rated :
      (c : DiskCollector) (n : Text) (o : Option DiskBlockStats) (p : Progress W)
      (rest : List (DiskBlockDeviceInfo W))
      → GrewFrom (previous_of c n) o
      → (add_device c n o p).devices ++ rest ≡ p.devices ++ with_device n o (previous_of c n) rest
  unfolding add_device
  add_device-rated c n none p rest g = refl
  add_device-rated c n (some cur) p rest g =
      rw (device_info-rates_of n cur (previous_of c n) g)
        (append_assoc p.devices (rates_of n cur (previous_of c n) ∷ []) rest)

  scan_devices-rated :
      (fs : Reader) (now : ℕ) (c : DiskCollector) (stat before : Text → Option DiskBlockStats)
      (ns : List Text) (p : Progress W)
      → ((n : Text) → Holds fs now n (stat n))
      → ((n : Text) → previous_of c n ≡ before n)
      → ((n : Text) → GrewFrom (before n) (seen stat n))
      → (scan_devices fs now c ns p).devices ≡ p.devices ++ rated stat before ns
  unfolding scan_devices
  scan_devices-rated fs now c stat before [] p h b g = sym (append-nil p.devices)
  scan_devices-rated fs now c stat before (n ∷ ns) p h b g =
      scan_devices-rated fs now c stat before ns (add_device c n (device_stats fs now n) p) h b g
      ∙ rw (device_stats-seen fs now stat n (h n)) (
          add_device-rated c n (seen stat n) p (rated stat before ns) (rw (b n) (g n))
          ∙ rw (b n) refl)

abbrev pub is_listed : Text → List Text → Bool
is_listed key [] = false
is_listed key (n ∷ ns) = text_eq n key || is_listed key ns

-- The counters under a name after a call on these files: of a listed device that counts.
abbrev pub kept : (Text → Option DiskBlockStats) → List Text → Text → Option DiskBlockStats
kept stat ns key = if is_listed key ns then seen stat key else none

abbrev or_else : Option DiskBlockStats → Option DiskBlockStats → Option DiskBlockStats
or_else none o = o
or_else (some s) o = some s

or_else-listed :
    (is_key listed : Bool) (o before : Option DiskBlockStats)
    → or_else (if listed then o else none) (if is_key && has_stats o then o else before)
      ≡ or_else (if is_key || listed then o else none) before
or_else-listed true true none before = refl
or_else-listed true true (some s) before = refl
or_else-listed true false none before = refl
or_else-listed true false (some s) before = refl
or_else-listed false true none before = refl
or_else-listed false true (some s) before = refl
or_else-listed false false o before = refl

stats_of_listed-kept :
    (fs : Reader) (now : ℕ) (stat : Text → Option DiskBlockStats) (key : Text) (ns : List Text)
    (before : Option DiskBlockStats)
    → device_stats fs now key ≡ seen stat key
    → stats_of_listed fs now key ns before ≡ or_else (kept stat ns key) before
stats_of_listed-kept fs now stat key [] before h = refl
stats_of_listed-kept fs now stat key (n ∷ ns) before h =
    let o = device_stats fs now key in
    stats_of_listed-kept fs now stat key ns (if text_eq n key && has_stats o then o else before) h
    ∙ rw h (or_else-listed (text_eq n key) (is_listed key ns) (seen stat key) before)

or_else-none : (o : Option DiskBlockStats) → or_else o none ≡ o
or_else-none none = refl
or_else-none (some s) = refl

-- Whether the result is a snapshot of these devices.
abbrev pub HasDevices :
    {W : Type 0} → Result (DiskSnapshot W) → List (DiskBlockDeviceInfo W) → Type 0
HasDevices (error e) is = ⊥
HasDevices (ok s) is = s.devices ≡ is

-- A call on these files keeps the counters of the devices that count, and reports the rates since `before`.
collect-rated :
    (W : Type 0) ⦃d : Double W⦄ (fs : Reader) (now : ℕ) (c : DiskCollector)
    (stat before : Text → Option DiskBlockStats) (ns : List Text)
    → fs.list_directory_entries (codes "/sys/block") ≡ ok ns
    → ((n : Text) → Holds fs now n (stat n))
    → ((n : Text) → previous_of c n ≡ before n)
    → ((n : Text) → GrewFrom (before n) (seen stat n))
    → HasDevices (collect {W = W} fs now c).0 (rated stat before ns)
unfolding collect collect_names report
collect-rated W fs now c stat before ns l h b g =
    rw l (scan_devices-rated fs now c stat before ns no_progress h b g)

collect-saved :
    (W : Type 0) ⦃d : Double W⦄ (fs : Reader) (now : ℕ) (c : DiskCollector)
    (stat : Text → Option DiskBlockStats) (ns : List Text) (key : Text)
    → fs.list_directory_entries (codes "/sys/block") ≡ ok ns
    → Holds fs now key (stat key)
    → let c' = (collect {W = W} fs now c).1 in
      (c'.has_previous_state ≡ true) × (lookup key c'.previous_disk_states ≡ kept stat ns key)
unfolding collect collect_names report lookup
collect-saved W fs now c stat ns key l h = rw l (
  refl,
  scan_devices-lookup {W = W} fs now c key ns no_progress
      ∙ stats_of_listed-kept fs now stat key ns none (device_stats-seen fs now stat key h)
      ∙ or_else-none (kept stat ns key),
)

previous_of-saved :
    (c : DiskCollector) (key : Text) (o : Option DiskBlockStats)
    → (c.has_previous_state ≡ true) × (lookup key c.previous_disk_states ≡ o)
    → previous_of c key ≡ o
unfolding previous_of
previous_of-saved c key o h = rw h.0 h.1

-- Whatever the collector was, a call on the stat files `stat` and then one on `stat'` report: an entry
-- for each listed device whose name starts with neither loop nor ram and whose file can be read, in the
-- order of the second listing; its operations and bytes (512 to a sector) per second and its share of
-- I/O time, at most 100, each from its own counters, over the time between the calls, and 0 if no time
-- passed or the first call did not count the device. The second call is remembered for exactly its own devices. Files are as the kernel prints
-- them, in padded columns; counters and clock did not fall.
pub collect_twice-rated :
    (W : Type 0) ⦃d : Double W⦄ (fs fs' : Reader) (now now' : ℕ) (c : DiskCollector)
    (stat stat' : Text → Option DiskBlockStats) (ns ns' : List Text) (key : Text)
    → fs.list_directory_entries (codes "/sys/block") ≡ ok ns
    → fs'.list_directory_entries (codes "/sys/block") ≡ ok ns'
    → ((n : Text) → Holds fs now n (stat n))
    → ((n : Text) → Holds fs' now' n (stat' n))
    → ((n : Text) → GrewFrom (kept stat ns n) (seen stat' n))
    → let (r, c') = collect {W = W} fs' now' (collect {W = W} fs now c).1 in
      HasDevices r (rated stat' (kept stat ns) ns')
      × (c'.has_previous_state ≡ true)
      × (lookup key c'.previous_disk_states ≡ kept stat' ns' key)
collect_twice-rated W fs fs' now now' c stat stat' ns ns' key l l' h h' g =
    let c1 = (collect {W = W} fs now c).1 in
    let saved = collect-saved W fs' now' c1 stat' ns' key l' (h' key) in
    (
      collect-rated W fs' now' c1 stat' (kept stat ns) ns' l' h'
          (λ n.
            previous_of-saved c1 n (kept stat ns n) (collect-saved W fs now c stat ns n l (h n)))
          g,
      saved.0,
      saved.1,
    )
