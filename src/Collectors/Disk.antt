-- ===== src/Collectors/Disk.antt =====
-- collectors/disk.hpp and disk.cpp: the counters of /sys/block, turned into rates.
pub mod Laws
pub mod Rates
pub mod Stat
mod Tests
use sys_scope.Base.{
  ℕ, ◌<◌, ◌≡◌, Bool, true, false, ◌||◌, List, [], ◌∷◌, ◌++◌, Option, none, some, Text, codes,
  starts_with, Dict, lookup, insert, text_key, ltb, if◌then◌else◌, sub_u64, to_u32, Double, min_of,
}
use sys_scope.Stream.{Stream, open_text, read_u64}
use sys_scope.Core.Result.{Result, ok, error}
use sys_scope.Core.Snapshot.{DiskSnapshot, DiskBlockDeviceInfo, zero_double}
use sys_scope.Platform.Files.{Reader}

pub record DiskBlockStats : Type 0 where
  pub reads_completed : ℕ
  pub read_sectors : ℕ
  pub read_time_ms : ℕ
  pub writes_completed : ℕ
  pub write_sectors : ℕ
  pub write_time_ms : ℕ
  pub io_in_progress : ℕ
  pub io_time_ms : ℕ
  pub timestamp_ns : ℕ

abbrev pub States : Type 0
States = Dict Text DiskBlockStats

pub record DiskCollector : Type 0 where
  pub previous_disk_states : States
  pub has_previous_state : Bool

abbrev pub fresh : DiskCollector
fresh = record { previous_disk_states = []; has_previous_state = false }

-- `dummy` takes the merged counts.
pub parse_stats : ℕ → Text → DiskBlockStats
parse_stats now text =
    let (reads, s1) = read_u64 0 (open_text text) in
    let (dummy, s2) = read_u64 0 s1 in
    let (read_sectors, s3) = read_u64 0 s2 in
    let (read_time, s4) = read_u64 0 s3 in
    let (writes, s5) = read_u64 0 s4 in
    let (dummy', s6) = read_u64 dummy s5 in
    let (write_sectors, s7) = read_u64 0 s6 in
    let (write_time, s8) = read_u64 0 s7 in
    let (in_progress, s9) = read_u64 0 s8 in
    let (io_time, s10) = read_u64 0 s9 in
    record {
      reads_completed = reads;
      read_sectors = read_sectors;
      read_time_ms = read_time;
      writes_completed = writes;
      write_sectors = write_sectors;
      write_time_ms = write_time;
      io_in_progress = in_progress;
      io_time_ms = io_time;
      timestamp_ns = now;
    }

pub is_skipped : Text → Bool
is_skipped name = starts_with (codes "loop") name || starts_with (codes "ram") name

pub stats_in : ℕ → Result Text → Option DiskBlockStats
stats_in now (error e) = none
stats_in now (ok text) = some (parse_stats now text)

-- The stats of a device that is counted: no loop or ram device, and its file can be read.
pub device_stats : Reader → ℕ → Text → Option DiskBlockStats
unfolding stats_in
device_stats fs now name =
    if is_skipped name
    then none
    else stats_in now (fs.read_file_contents (codes "/sys/block/" ++ (name ++ codes "/stat")))

-- The stats of the same device at the previous call, if there was one.
pub previous_of : DiskCollector → Text → Option DiskBlockStats
previous_of c name = if c.has_previous_state then lookup name c.previous_disk_states else none

-- The stats and the report of the devices so far.
pub record Progress (W : Type 0) : Type 0 where
  pub states : States
  pub devices : List (DiskBlockDeviceInfo W)

module _ {W : Type 0} ⦃d : Double W⦄ where
  open d use {lit, of_u64, mul, div}

  -- `dt_ns / 1e9`
  pub seconds_of : ℕ → W
  seconds_of dt_ns = div (of_u64 dt_ns) (lit 1_000_000_000 0)

  pub idle_info : Text → DiskBlockStats → DiskBlockDeviceInfo W
  idle_info name cur = record {
    device_name = name;
    read_iops = zero_double;
    write_iops = zero_double;
    read_bytes_per_sec = zero_double;
    write_bytes_per_sec = zero_double;
    io_utilization_percent = zero_double;
    queue_depth = to_u32 cur.io_in_progress;
  }

  pub rated_info : Text → DiskBlockStats → DiskBlockStats → DiskBlockDeviceInfo W
  unfolding idle_info
  rated_info name cur prev =
      let dt_ns = sub_u64 cur.timestamp_ns prev.timestamp_ns in
      let dt_sec = seconds_of dt_ns in
      let io_ms_sec = div (of_u64 (sub_u64 cur.io_time_ms prev.io_time_ms)) (lit 1000 0) in
      if ltb 0 dt_ns
      then record {
        device_name = name;
        read_iops = div (of_u64 (sub_u64 cur.reads_completed prev.reads_completed)) dt_sec;
        write_iops = div (of_u64 (sub_u64 cur.writes_completed prev.writes_completed)) dt_sec;
        read_bytes_per_sec =
            div (mul (of_u64 (sub_u64 cur.read_sectors prev.read_sectors)) (lit 512 0)) dt_sec;
        write_bytes_per_sec =
            div (mul (of_u64 (sub_u64 cur.write_sectors prev.write_sectors)) (lit 512 0)) dt_sec;
        io_utilization_percent = min_of (lit 100 0) (div (mul (lit 100 0) io_ms_sec) dt_sec);
        queue_depth = to_u32 cur.io_in_progress;
      }
      else idle_info name cur

  pub device_info : Text → DiskBlockStats → Option DiskBlockStats → DiskBlockDeviceInfo W
  unfolding idle_info rated_info
  device_info name cur none = idle_info name cur
  device_info name cur (some prev) = rated_info name cur prev

  pub add_device : DiskCollector → Text → Option DiskBlockStats → Progress W → Progress W
  add_device c name none p = p
  add_device c name (some cur) p = record {
    states = insert name cur p.states;
    devices = p.devices ++ (device_info name cur (previous_of c name) ∷ []);
  }

  pub scan_devices : Reader → ℕ → DiskCollector → List Text → Progress W → Progress W
  unfolding add_device
  scan_devices fs now c [] p = p
  scan_devices fs now c (n ∷ ns) p =
      scan_devices fs now c ns (add_device c n (device_stats fs now n) p)

  abbrev pub no_progress : Progress W
  no_progress = record { states = []; devices = [] }

  pub report : Progress W → Result (DiskSnapshot W) × DiskCollector
  report p = (
    ok (record { devices = p.devices }),
    record { previous_disk_states = p.states; has_previous_state = true },
  )

  pub collect_names :
      Reader → ℕ → DiskCollector → Result (List Text) → Result (DiskSnapshot W) × DiskCollector
  unfolding report
  collect_names fs now c (error e) = (error e, c)
  collect_names fs now c (ok ns) = report (scan_devices fs now c ns no_progress)

  -- `now` is what Timestamp::now() says.
  pub collect : Reader → ℕ → DiskCollector → Result (DiskSnapshot W) × DiskCollector
  unfolding collect_names
  collect fs now c = collect_names fs now c (fs.list_directory_entries (codes "/sys/block"))
