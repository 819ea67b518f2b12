-- ===== src/Collectors/Process.antt =====
-- collectors/process.hpp and process.cpp: the processes of /proc, and their parents' children.
pub mod Tree
pub mod Fields
pub mod Stat
pub mod Name
pub mod Counts
pub mod Baseline
mod Tests
use sys_scope.Base.{
  ℕ, zero, suc, ◌+◌, ◌-◌, ◌≤◌, ◌<◌, ◌≡◌, Bool, true, false, not, ◌&&◌, ◌||◌, List, [], ◌∷◌, ◌++◌,
  map, Option, none, some, Text, codes, is_empty, find_char, rfind_char, substr, substr_from,
  all_digits, length, Dict, lookup, insert, int_key, int_eq, ℤ, pos, ltb, leb, ◌==◌, if◌then◌else◌,
  add_u64, sub_u64, mul_u64, to_u32, Double, min_of,
}
use sys_scope.Stream.{Stream, open_text, read_word, read_char, read_u64, read_int, stoi}
use sys_scope.Core.Result.{Result, ok, error, Outcome, returns, throws}
use sys_scope.Core.Snapshot.{ProcessSnapshot, ProcessInfo, zero_double}
use sys_scope.Platform.Files.{Reader}
use sys_scope.Collectors.Process.Fields.{StatFields, read_stat}

pub record ProcessStateSnapshot : Type 0 where
  pub total_process_cpu_time : ℕ
  pub timestamp_ns : ℕ

abbrev pub States : Type 0
States = Dict ℤ ProcessStateSnapshot

-- `ticks_per_sec` is what sysconf(_SC_CLK_TCK) says, or 100.
pub record ProcessCollector : Type 0 where
  pub previous_process_states : States
  pub previous_total_system_time : ℕ
  pub has_previous_state : Bool
  pub ticks_per_sec : ℕ

abbrev pub fresh : ℕ → ProcessCollector
fresh ticks = record {
  previous_process_states = [];
  previous_total_system_time = 0;
  has_previous_state = false;
  ticks_per_sec = ticks;
}

-- The sum of the eight counters of the first line of /proc/stat, if all can be read.
system_time_in : Text → ℕ
system_time_in line =
    let (label, s0) = read_word [] (open_text line) in
    let (user, s1) = read_u64 0 s0 in
    let (nice, s2) = read_u64 0 s1 in
    let (system, s3) = read_u64 0 s2 in
    let (idle, s4) = read_u64 0 s3 in
    let (iowait, s5) = read_u64 0 s4 in
    let (irq, s6) = read_u64 0 s5 in
    let (softirq, s7) = read_u64 0 s6 in
    let (steal, s8) = read_u64 0 s7 in
    if s8.failed
    then 0
    else add_u64
        (add_u64 (add_u64 (add_u64 (add_u64 (add_u64 (add_u64 user nice) system) idle) iowait) irq)
          softirq)
        steal

pub system_time_of : Result (List Text) → ℕ
unfolding system_time_in
system_time_of (error e) = 0
system_time_of (ok []) = 0
system_time_of (ok (l ∷ ls)) = system_time_in l

-- `std::replace(…, '\0', ' ')`
blank_nul : ℕ → ℕ
blank_nul c = if c == 0 then 32 else c

cmdline_of : Text → Result Text → Text
unfolding blank_nul
cmdline_of name (error e) = codes "[" ++ (name ++ codes "]")
cmdline_of name (ok []) = codes "[" ++ (name ++ codes "]")
cmdline_of name (ok (c ∷ s)) = map blank_nul (c ∷ s)

-- The pid of a directory entry; `none` for an entry that is no number an int holds.
pid_of : Text → Option ℤ
pid_of name = if is_empty name || not (all_digits name) then none else stoi name

abbrev proc_path : Text → Text → Text
proc_path entry file = codes "/proc/" ++ (entry ++ file)

module _ {W : Type 0} ⦃d : Double W⦄ where
  open d use {lit, of_u64, mul, div}

  -- The share of the system's time since the previous call, for a process that was there then.
  cpu_percent_of : ProcessCollector → ℕ → ℕ → Option ProcessStateSnapshot → W
  cpu_percent_of c now_total proc_time none = zero_double
  cpu_percent_of c now_total proc_time (some prev) =
      if c.has_previous_state
        && (ltb 0 c.previous_total_system_time && ltb c.previous_total_system_time now_total)
      then min_of (mul (lit 100 0) (of_u64 c.ticks_per_sec)) (
          div (mul (lit 100 0) (of_u64 (sub_u64 proc_time prev.total_process_cpu_time)))
            (of_u64 (sub_u64 now_total c.previous_total_system_time)))
      else zero_double

  info_of : ProcessCollector → ℕ → ℤ → Text → StatFields → Text → ProcessInfo W
  info_of c now_total pid name f cmdline = record {
    pid = pid;
    ppid = f.ppid;
    name = name;
    cmdline = cmdline;
    state = f.state;
    cpu_percent =
        cpu_percent_of c now_total (add_u64 f.utime f.stime) (lookup pid c.previous_process_states);
    rss_bytes = mul_u64 f.rss_pages 4096;
    vms_bytes = f.vms_bytes;
    threads = to_u32 f.num_threads;
    utime = f.utime;
    stime = f.stime;
    start_time = 0;
  }

  with_stat :
      Reader
      → ProcessCollector
      → ℕ
      → Text
      → ℤ
      → Outcome (Option (Text × StatFields))
      → Outcome (Option (ProcessInfo W))
  with_stat fs c now_total entry pid (throws e) = throws e
  with_stat fs c now_total entry pid (returns none) = returns none
  with_stat fs c now_total entry pid (returns (some (name, f))) = returns (
      some (
        info_of c now_total pid name f
          (cmdline_of name (fs.read_file_contents (proc_path entry (codes "/cmdline"))))))

  with_text :
      Reader → ProcessCollector → ℕ → Text → ℤ → Result Text → Outcome (Option (ProcessInfo W))
  unfolding with_stat
  with_text fs c now_total entry pid (error e) = returns none
  with_text fs c now_total entry pid (ok text) = with_stat fs c now_total entry pid (read_stat text)

  with_pid : Reader → ProcessCollector → ℕ → Text → Option ℤ → Outcome (Option (ProcessInfo W))
  unfolding with_text
  with_pid fs c now_total entry none = returns none
  with_pid fs c now_total entry (some pid) =
      with_text fs c now_total entry pid (fs.read_file_contents (proc_path entry (codes "/stat")))

  -- One round of the loop over /proc: what it reports of the entry, if anything.
  pub read_process : Reader → ProcessCollector → ℕ → Text → Outcome (Option (ProcessInfo W))
  unfolding with_pid
  read_process fs c now_total entry = with_pid fs c now_total entry (pid_of entry)

pub record Progress (W : Type 0) : Type 0 where
  pub states : States
  pub running : ℕ
  pub list : List (ProcessInfo W)

module _ {W : Type 0} ⦃d : Double W⦄ where
  abbrev pub no_progress : Progress W
  no_progress = record { states = []; running = 0; list = [] }

  pub add_process : ℕ → Option (ProcessInfo W) → Progress W → Progress W
  add_process now none p = p
  add_process now (some i) p = record {
    states =
        insert i.pid
          (record { total_process_cpu_time = add_u64 i.utime i.stime; timestamp_ns = now })
          p.states;
    running = if i.state == b'R' then to_u32 (p.running + 1) else p.running;
    list = p.list ++ (i ∷ []);
  }

  pub then_scan :
      Outcome (Option (ProcessInfo W))
      → (Option (ProcessInfo W) → Outcome (Progress W))
      → Outcome (Progress W)
  then_scan (throws e) k = throws e
  then_scan (returns i) k = k i

  -- The loop over /proc. `clock entry` is the time at which the entry is stamped.
  pub scan_entries :
      Reader → (Text → ℕ) → ProcessCollector → ℕ → List Text → Progress W → Outcome (Progress W)
  unfolding then_scan
  scan_entries fs clock c now_total [] p = returns p
  scan_entries fs clock c now_total (n ∷ ns) p =
      then_scan (read_process fs c now_total n)
        (λ i. scan_entries fs clock c now_total ns (add_process (clock n) i p))

  -- Nothing is stored before the loop has ended, so an exception leaves the collector as it was.
  pub finish :
      ProcessCollector
      → ℕ
      → Outcome (Progress W)
      → Outcome (Result (ProcessSnapshot W)) × ProcessCollector
  finish c now_total (throws e) = (throws e, c)
  finish c now_total (returns p) = (
    returns (
        ok (record {
          total_processes = to_u32 (length p.list);
          running_processes = p.running;
          process_list = p.list;
        })),
    record c {
      previous_process_states = p.states;
      previous_total_system_time = now_total;
      has_previous_state = true;
    },
  )

  pub collect_names :
      Reader
      → (Text → ℕ)
      → ProcessCollector
      → ℕ
      → Result (List Text)
      → Outcome (Result (ProcessSnapshot W)) × ProcessCollector
  unfolding finish
  collect_names fs clock c now_total (error e) = (returns (error e), c)
  collect_names fs clock c now_total (ok ns) =
      finish c now_total (scan_entries fs clock c now_total ns no_progress)

  pub collect :
      Reader
      → (Text → ℕ)
      → ProcessCollector
      → Outcome (Result (ProcessSnapshot W)) × ProcessCollector
  unfolding collect_names
  collect fs clock c =
      collect_names fs clock c (system_time_of (fs.read_file_lines (codes "/proc/stat")))
        (fs.list_directory_entries (codes "/proc"))
