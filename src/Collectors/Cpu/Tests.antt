-- ===== src/Collectors/Cpu/Tests.antt =====
-- The theorems on the CPU collector at a machine with two cores.
use sys_scope.Base.{
  to_string, ◌++◌, some, ◌-◌, ◌≡◌, refl, true, List, [], ◌∷◌, ◌++◌, arith, Text, codes, ltb,
  if◌then◌else◌, length, starts_with, sub_u64, min_of, Micro, micro_double, Micro-IsOrdered,
}
use sys_scope.Core.Result.{ok, value_or}
use sys_scope.Core.Snapshot.{CpuSnapshot, blank_cpu, zero_double}
use sys_scope.Samples.{uniform}
use sys_scope.Collectors.Cpu.{
  CpuCounters, CpuCollector, fresh, baseline, collect, collect_lines, collect_sample, scan_lines,
  no_sample, aggregate_usage, percent,
}
use sys_scope.Collectors.Cpu.Parse.{IsCounters, cpu_line, core_lines, scan_lines-stat}
use sys_scope.Collectors.Cpu.Usage.{Grew, aggregate_usage_lem, IsCapped, all_time, busy_time}
use sys_scope.Collectors.Cpu.Collect.{collect-IsCapped}
use sys_scope.Collectors.Cpu.Twice.{
  Stat, IsStat, stat_lines, usage_of, CoreReported, collect_twice-usage_of,
}
use sys_scope.Platform.Files.{Reader}

abbrev earlier : CpuCounters
earlier = record {
  user = 100;
  nice = 0;
  system = 50;
  idle = 800;
  iowait = 30;
  irq = 5;
  softirq = 5;
  steal = 10;
}

abbrev later : CpuCounters
later = record {
  user = 160;
  nice = 0;
  system = 70;
  idle = 890;
  iowait = 20;
  irq = 10;
  softirq = 10;
  steal = 10;
}

abbrev stat : List Text
stat =
    cpu_line (codes "cpu") (32 ∷ []) earlier (codes "0 0")
    ∷ (core_lines 0 (earlier ∷ (later ∷ [])) (codes "0 0") ++ (codes "intr 1" ∷ []))

scan_lines-stat_example :
    scan_lines stat no_sample ≡ record { aggregate = earlier; cores = earlier ∷ (later ∷ []) }
unfolding starts_with
scan_lines-stat_example =
    scan_lines-stat (32 ∷ []) earlier (earlier ∷ (later ∷ [])) (codes "0 0") (codes "intr 1" ∷ [])
      (refl, tt)
      (
        omega arith,
        omega arith,
        omega arith,
        omega arith,
        omega arith,
        omega arith,
        omega arith,
        omega arith,
      )
      (
        (
          omega arith,
          omega arith,
          omega arith,
          omega arith,
          omega arith,
          omega arith,
          omega arith,
          omega arith,
        ),
        (
          (
            omega arith,
            omega arith,
            omega arith,
            omega arith,
            omega arith,
            omega arith,
            omega arith,
            omega arith,
          ),
          tt,
        ),
      )
      (refl, tt)

aggregate_usage_lem_example :
    let s = aggregate_usage {W = Micro} later earlier [] in
    let elapsed = all_time later - all_time earlier in
    (s.total_utilization ≡ (
      if ltb 0 elapsed
      then min_of (micro_double.lit 100 0) (percent (busy_time later - busy_time earlier) elapsed)
      else zero_double))
    × (s.user_percent ≡ (
        if ltb 0 elapsed then percent (sub_u64 later.user earlier.user) elapsed else zero_double))
    × (s.iowait_percent ≡ (
        if ltb 0 elapsed
        then percent (sub_u64 later.iowait earlier.iowait) elapsed
        else zero_double))
    × (s.per_core ≡ [])
aggregate_usage_lem_example =
    aggregate_usage_lem earlier later []
      (record { fits = omega arith; busy = omega arith; all = omega arith })

abbrev stat_of : CpuCounters → Stat
stat_of c = record {
  aggregate = c;
  cores = c ∷ [];
  pad = 32 ∷ [];
  added = codes "0 0";
  others = codes "intr 1" ∷ [];
}

earlier-IsStat : IsStat (stat_of earlier)
unfolding starts_with
earlier-IsStat =
    let fits : IsCounters earlier = (
      omega arith,
      omega arith,
      omega arith,
      omega arith,
      omega arith,
      omega arith,
      omega arith,
      omega arith,
    ) in
    record { blank = (refl, tt); counters = fits; core_counters = (fits, tt); other = (refl, tt) }

later-IsStat : IsStat (stat_of later)
unfolding starts_with
later-IsStat =
    let fits : IsCounters later = (
      omega arith,
      omega arith,
      omega arith,
      omega arith,
      omega arith,
      omega arith,
      omega arith,
      omega arith,
    ) in
    record { blank = (refl, tt); counters = fits; core_counters = (fits, tt); other = (refl, tt) }

earlier-Grew : Grew earlier later
earlier-Grew = record { fits = omega arith; busy = omega arith; all = omega arith }

abbrev seen : CpuCounters → Reader
seen c = uniform (stat_lines (stat_of c)) (to_string 2_400_000 ++ (10 ∷ [])) []

collect_twice-usage_of_example :
    let (r, c') = collect {W = Micro} (seen later) (collect {W = Micro} (seen earlier) fresh).1 in
    (s : CpuSnapshot Micro) × (r ≡ ok s)
    × (s.total_utilization ≡ usage_of earlier later)
    × (length s.per_core ≡ 1)
    × CoreReported 0 2_400_000 earlier later s.per_core
    × (c' ≡ record {
      previous_aggregate = later;
      previous_cores = later ∷ [];
      has_previous_state = true;
    })
collect_twice-usage_of_example =
    collect_twice-usage_of Micro (seen earlier) (seen later) fresh (stat_of earlier) (stat_of later)
      0 earlier later (some 2_400_000) earlier-IsStat later-IsStat refl refl earlier-Grew refl refl
      earlier-Grew (refl, omega arith)

-- A collector whose last sample was `earlier`, for the aggregate and for one core.
abbrev warm : CpuCollector
warm = baseline (record { aggregate = earlier; cores = earlier ∷ [] })

abbrev reported : CpuSnapshot Micro
reported = value_or (collect (uniform stat [] []) warm).0 blank_cpu

collect-IsCapped_example : IsCapped reported
unfolding collect collect_lines collect_sample
collect-IsCapped_example =
    collect-IsCapped Micro-IsOrdered (uniform stat [] []) warm
      (collect {W = Micro} (uniform stat [] []) warm).1 reported refl
