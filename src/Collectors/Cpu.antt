-- ===== src/Collectors/Cpu.antt =====
-- collectors/cpu.hpp and cpu.cpp: jiffy counters of /proc/stat, turned into percentages of the time
-- between two calls.
pub mod Parse
pub mod Usage
pub mod Collect
pub mod Twice
mod Tests
use sys_scope.Base.{
  ℕ, suc, ◌+◌, ◌<◌, ◌≡◌, Bool, true, false, List, [], ◌∷◌, ◌++◌, Option, none, some, Text, codes,
  text_eq, starts_with, to_string, ltb, if◌then◌else◌, get_elem?, add_u64, sub_u64, to_u32, Double,
  min_of,
}
use sys_scope.Stream.{Stream, open_text, read_word, read_u64, stoull}
use sys_scope.Core.Result.{Result, ok, error}
use sys_scope.Core.Snapshot.{CpuSnapshot, CoreCpuSnapshot, blank_cpu, blank_core}
use sys_scope.Platform.Files.{Reader}

pub record CpuCounters : Type 0 where
  pub user : ℕ
  pub nice : ℕ
  pub system : ℕ
  pub idle : ℕ
  pub iowait : ℕ
  pub irq : ℕ
  pub softirq : ℕ
  pub steal : ℕ

abbrev no_counters : CpuCounters
no_counters = record {
  user = 0;
  nice = 0;
  system = 0;
  idle = 0;
  iowait = 0;
  irq = 0;
  softirq = 0;
  steal = 0;
}

pub total : CpuCounters → ℕ
total c =
    add_u64
      (add_u64
        (add_u64 (add_u64 (add_u64 (add_u64 (add_u64 c.user c.nice) c.system) c.idle) c.iowait)
          c.irq)
        c.softirq)
      c.steal

pub idle_time : CpuCounters → ℕ
idle_time c = add_u64 c.idle c.iowait

pub record CpuCollector : Type 0 where
  pub previous_aggregate : CpuCounters
  pub previous_cores : List CpuCounters
  pub has_previous_state : Bool

abbrev pub fresh : CpuCollector
fresh = record { previous_aggregate = no_counters; previous_cores = []; has_previous_state = false }

-- The label of a line and its eight counters. A counter that cannot be read stays 0.
pub parse_counters : Text → Text × CpuCounters
parse_counters line =
    let (label, s0) = read_word [] (open_text line) in
    let (user, s1) = read_u64 0 s0 in
    let (nice, s2) = read_u64 0 s1 in
    let (system, s3) = read_u64 0 s2 in
    let (idle, s4) = read_u64 0 s3 in
    let (iowait, s5) = read_u64 0 s4 in
    let (irq, s6) = read_u64 0 s5 in
    let (softirq, s7) = read_u64 0 s6 in
    let (steal, s8) = read_u64 0 s7 in
    (
      label,
      record {
        user = user;
        nice = nice;
        system = system;
        idle = idle;
        iowait = iowait;
        irq = irq;
        softirq = softirq;
        steal = steal;
      },
    )

-- What the lines of /proc/stat hold: the aggregate and the cores, in their order.
pub record Sample : Type 0 where
  pub aggregate : CpuCounters
  pub cores : List CpuCounters

add_counters : Text × CpuCounters → Sample → Sample
add_counters (label, c) s =
    if text_eq label (codes "cpu")
    then record s { aggregate = c }
    else if starts_with (codes "cpu") label
    then record s { cores = s.cores ++ (c ∷ []) }
    else s

pub scan_line : Text → Sample → Sample
unfolding add_counters
scan_line line s =
    if starts_with (codes "cpu") line then add_counters (parse_counters line) s else s

pub scan_lines : List Text → Sample → Sample
scan_lines [] s = s
scan_lines (l ∷ ls) s = scan_lines ls (scan_line l s)

abbrev pub no_sample : Sample
no_sample = record { aggregate = no_counters; cores = [] }

pub frequency_path : ℕ → Text
frequency_path i =
    codes "/sys/devices/system/cpu/cpu" ++ (to_string i ++ codes "/cpufreq/scaling_cur_freq")

-- A file that is missing or holds no number leaves the 0 of the initialiser.
abbrev or_zero : Option ℕ → ℕ
or_zero none = 0
or_zero (some n) = n

abbrev frequency_in : Result Text → ℕ
frequency_in (error e) = 0
frequency_in (ok t) = or_zero (stoull t)

pub frequency : Reader → ℕ → ℕ
frequency fs i = frequency_in (fs.read_file_contents (frequency_path i))

abbrev pub baseline : Sample → CpuCollector
baseline s = record {
  previous_aggregate = s.aggregate;
  previous_cores = s.cores;
  has_previous_state = true;
}

module _ {W : Type 0} ⦃d : Double W⦄ where
  open d use {lit, of_u64, mul, div}

  -- `100.0 * static_cast<double>(part) / static_cast<double>(whole)`
  unfoldable pub percent : ℕ → ℕ → W
  percent part whole = div (mul (lit 100 0) (of_u64 part)) (of_u64 whole)

  -- The aggregate percentages between two samples.
  pub aggregate_usage : CpuCounters → CpuCounters → List (CoreCpuSnapshot W) → CpuSnapshot W
  aggregate_usage cur prev per_core =
      let total_delta = sub_u64 (total cur) (total prev) in
      let idle_delta = sub_u64 (idle_time cur) (idle_time prev) in
      if ltb 0 total_delta
      then record {
        total_utilization =
            min_of (lit 100 0) (percent (sub_u64 total_delta idle_delta) total_delta);
        user_percent = percent (sub_u64 cur.user prev.user) total_delta;
        system_percent = percent (sub_u64 cur.system prev.system) total_delta;
        iowait_percent = percent (sub_u64 cur.iowait prev.iowait) total_delta;
        irq_percent = percent (sub_u64 cur.irq prev.irq) total_delta;
        softirq_percent = percent (sub_u64 cur.softirq prev.softirq) total_delta;
        steal_percent = percent (sub_u64 cur.steal prev.steal) total_delta;
        per_core = per_core;
      }
      else record blank_cpu { per_core = per_core }

  pub core_usage : ℕ → ℕ → CpuCounters → CpuCounters → CoreCpuSnapshot W
  core_usage i freq cur prev =
      let total_delta = sub_u64 (total cur) (total prev) in
      let idle_delta = sub_u64 (idle_time cur) (idle_time prev) in
      if ltb 0 total_delta
      then record {
        core_id = to_u32 i;
        total_utilization =
            min_of (lit 100 0) (percent (sub_u64 total_delta idle_delta) total_delta);
        user_percent = percent (sub_u64 cur.user prev.user) total_delta;
        system_percent = percent (sub_u64 cur.system prev.system) total_delta;
        iowait_percent = percent (sub_u64 cur.iowait prev.iowait) total_delta;
        frequency_khz = freq;
      }
      else record blank_core { core_id = to_u32 i; frequency_khz = freq }

  -- A core that the previous sample did not have gets no percentages.
  pub core_snapshot : ℕ → ℕ → CpuCounters → Option CpuCounters → CoreCpuSnapshot W
  unfolding core_usage
  core_snapshot i freq cur none = record blank_core { core_id = to_u32 i; frequency_khz = freq }
  core_snapshot i freq cur (some prev) = core_usage i freq cur prev

  -- `for (size_t i = 0; i < current_cores.size(); ++i)`
  pub core_snapshots : Reader → List CpuCounters → ℕ → List CpuCounters → List (CoreCpuSnapshot W)
  core_snapshots fs previous i [] = []
  core_snapshots fs previous i (c ∷ cs) =
      core_snapshot i (frequency fs i) c (get_elem? previous i)
      ∷ core_snapshots fs previous (i + 1) cs

  -- The first call: the same loop with no previous cores, so ids and frequencies alone.
  pub first_snapshot : Reader → Sample → CpuSnapshot W
  first_snapshot fs s = record blank_cpu { per_core = core_snapshots fs [] 0 s.cores }

  pub next_snapshot : Reader → CpuCollector → Sample → CpuSnapshot W
  next_snapshot fs c s =
      aggregate_usage s.aggregate c.previous_aggregate
        (core_snapshots fs c.previous_cores 0 s.cores)

  collect_sample : Reader → CpuCollector → Sample → Result (CpuSnapshot W) × CpuCollector
  unfolding first_snapshot next_snapshot
  collect_sample fs c s =
      (ok (if c.has_previous_state then next_snapshot fs c s else first_snapshot fs s), baseline s)

  collect_lines : Reader → CpuCollector → Result (List Text) → Result (CpuSnapshot W) × CpuCollector
  unfolding collect_sample
  collect_lines fs c (error e) = (error e, c)
  collect_lines fs c (ok ls) = collect_sample fs c (scan_lines ls no_sample)

  pub collect : Reader → CpuCollector → Result (CpuSnapshot W) × CpuCollector
  unfolding collect_lines
  collect fs c = collect_lines fs c (fs.read_file_lines (codes "/proc/stat"))
