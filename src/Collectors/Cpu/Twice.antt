-- ===== src/Collectors/Cpu/Twice.antt =====
-- What a call of `CpuCollector::collect` reports behind another call.
use sys_scope.Base.{
  Option, none, ◌<◌, to_string, u64_mod, ℕ, suc, zero, ◌+◌, ◌-◌, ◌≡◌, refl, ap, ◌∙◌, inl, inr, true,
  List, [], ◌∷◌, ◌++◌, some, arith, Text, codes, ltb, if◌then◌else◌, Bool-cases, All, get_elem?,
  length, to_u32, Double, min_of,
}
use sys_scope.Core.Result.{ok, error}
use sys_scope.Stream.RoundTrip.{stoull-to_string}
use sys_scope.Core.Snapshot.{CpuSnapshot, CoreCpuSnapshot, zero_double}
use sys_scope.Platform.Files.{Reader}
use sys_scope.Collectors.Cpu.{
  CpuCounters, CpuCollector, percent, core_usage, core_snapshot, core_snapshots, aggregate_usage,
  frequency, frequency_path, next_snapshot, collect, scan_lines, no_sample,
}
use sys_scope.Collectors.Cpu.Parse.{
  IsBlank, IsCounters, IsOther, cpu_line, core_lines, scan_lines-stat,
}
use sys_scope.Collectors.Cpu.Usage.{
  busy_time, all_time, Grew, busy_delta, total_delta, aggregate_usage_lem,
}
use sys_scope.Collectors.Cpu.Collect.{length-core_snapshots, aggregate_usage-per_core}

-- A /proc/stat: the aggregate, behind more blanks, the cores, what newer kernels add to these lines, and the
-- other lines.
pub record Stat : Type 0 where
  pub aggregate : CpuCounters
  pub cores : List CpuCounters
  pub pad : Text
  pub added : Text
  pub others : List Text

abbrev pub stat_lines : Stat → List Text
stat_lines f =
    cpu_line (codes "cpu") f.pad f.aggregate f.added ∷ (core_lines 0 f.cores f.added ++ f.others)

pub record IsStat (f : Stat) : Type 0 where
  pub blank : IsBlank f.pad
  pub counters : IsCounters f.aggregate
  pub core_counters : All IsCounters f.cores
  pub other : IsOther f.others

-- The frequency of core `k`, that its file holds on a line; 0 where the file cannot be read.
abbrev pub ShowsFrequency : Reader → ℕ → Option ℕ → Type 0
ShowsFrequency fs k none =
    (m : Text) × (fs.read_file_contents
        (codes "/sys/devices/system/cpu/cpu" ++ (to_string k ++ codes "/cpufreq/scaling_cur_freq"))
      ≡ error m)
ShowsFrequency fs k (some n) =
    (fs.read_file_contents
        (codes "/sys/devices/system/cpu/cpu" ++ (to_string k ++ codes "/cpufreq/scaling_cur_freq"))
      ≡ ok (to_string n ++ (10 ∷ [])))
    × (n < u64_mod)

abbrev pub khz_of : Option ℕ → ℕ
khz_of none = 0
khz_of (some n) = n

frequency-khz_of :
    (fs : Reader) (k : ℕ) (o : Option ℕ) → ShowsFrequency fs k o → frequency fs k ≡ khz_of o
unfolding frequency frequency_path
frequency-khz_of fs k none (m, e) = rw e refl
frequency-khz_of fs k (some n) (e, h) = rw (e, stoull-to_string n (10 ∷ []) h refl) refl

module _ {W : Type 0} ⦃d : Double W⦄ where
  open d use {lit, mul, div, of_u64}

  -- 100 times the growth of the busy time over that of the whole time, at most 100; 0 if no time passed.
  abbrev pub usage_of : CpuCounters → CpuCounters → W
  usage_of prev cur =
      let elapsed = all_time cur - all_time prev in
      if ltb 0 elapsed
      then min_of (lit 100 0)
          (div (mul (lit 100 0) (of_u64 (busy_time cur - busy_time prev))) (of_u64 elapsed))
      else zero_double

  aggregate_usage-usage_of :
      (prev cur : CpuCounters) (per_core : List (CoreCpuSnapshot W))
      → Grew prev cur
      → (aggregate_usage cur prev per_core).total_utilization ≡ usage_of prev cur
  unfolding percent
  aggregate_usage-usage_of prev cur per_core g = (aggregate_usage_lem prev cur per_core g).0

  core_usage-usage_of :
      (i freq : ℕ) (prev cur : CpuCounters)
      → Grew prev cur
      → let k = core_usage {W = W} i freq cur prev in
        (k.core_id ≡ to_u32 i)
        × (k.total_utilization ≡ usage_of prev cur)
        × (k.frequency_khz ≡ freq)
  unfolding core_usage percent
  core_usage-usage_of i freq prev cur g =
      rw (busy_delta prev cur g, total_delta prev cur g)
        (elim (Bool-cases (ltb 0 (all_time cur - all_time prev))) [
          | inl e ↦ rw e (refl, refl, refl)
          | inr e ↦ rw e (refl, refl, refl)
        ])

  get_elem?-core_snapshots :
      (fs : Reader) (previous : List CpuCounters) (i k : ℕ) (cs : List CpuCounters)
      (c : CpuCounters)
      → get_elem? cs k ≡ some c
      → get_elem? (core_snapshots {W = W} fs previous i cs) k
        ≡ some (core_snapshot (i + k) (frequency fs (i + k)) c (get_elem? previous (i + k)))
  unfolding core_snapshots
  get_elem?-core_snapshots fs previous i k [] c h = cc
  get_elem?-core_snapshots fs previous i zero (x ∷ cs) c h =
      let same : x ≡ c = cc in let shift : i + 0 ≡ i = omega arith in rw (same, shift) refl
  get_elem?-core_snapshots fs previous i (suc k) (x ∷ cs) c h =
      let shift : i + suc k ≡ i + 1 + k = omega arith in
      rw shift (get_elem?-core_snapshots fs previous (i + 1) k cs c h)

  -- The report of core `k` that both files have, `prev` and then `cur`.
  abbrev pub CoreReported : ℕ → ℕ → CpuCounters → CpuCounters → List (CoreCpuSnapshot W) → Type 0
  CoreReported k khz prev cur per_core =
      (core : CoreCpuSnapshot W) × (get_elem? per_core k ≡ some core)
      × (core.core_id ≡ to_u32 k)
      × (core.total_utilization ≡ usage_of prev cur)
      × (core.frequency_khz ≡ khz)

  core_snapshots-CoreReported :
      (fs : Reader) (previous cs : List CpuCounters) (k : ℕ) (prev cur : CpuCounters)
      → get_elem? previous k ≡ some prev
      → get_elem? cs k ≡ some cur
      → Grew prev cur
      → CoreReported k (frequency fs k) prev cur (core_snapshots {W = W} fs previous 0 cs)
  unfolding core_snapshot
  core_snapshots-CoreReported fs previous cs k prev cur p c g =
      let at : get_elem? (core_snapshots {W = W} fs previous 0 cs) k
          ≡ some (core_snapshot k (frequency fs k) cur (get_elem? previous k)) =
        get_elem?-core_snapshots fs previous 0 k cs cur c
        ∙ ap (λ j. some (core_snapshot j (frequency fs j) cur (get_elem? previous j)))
            (omega arith) in
      let (number, usage, khz) = core_usage-usage_of k (frequency fs k) prev cur g in
      (core_usage k (frequency fs k) cur prev, at ∙ rw p refl, number, usage, khz)

-- What a collector remembers of a file.
abbrev pub remembered : Stat → CpuCollector
remembered f = record {
  previous_aggregate = f.aggregate;
  previous_cores = f.cores;
  has_previous_state = true;
}

scan_lines-stat_lines :
    (f : Stat)
    → IsStat f
    → scan_lines (stat_lines f) no_sample ≡ record { aggregate = f.aggregate; cores = f.cores }
scan_lines-stat_lines f h =
    scan_lines-stat f.pad f.aggregate f.cores f.added f.others h.blank h.counters h.core_counters
      h.other

collect-remembered :
    (W : Type 0) ⦃d : Double W⦄ (fs : Reader) (c : CpuCollector) (f : Stat)
    → IsStat f
    → fs.read_file_lines (codes "/proc/stat") ≡ ok (stat_lines f)
    → (collect {W = W} fs c).1 ≡ remembered f
unfolding collect
collect-remembered W fs c f h r = rw (r, scan_lines-stat_lines f h) refl

module _ {W : Type 0} ⦃d : Double W⦄ where
  collect-after :
      (fs : Reader) (f f' : Stat)
      → IsStat f'
      → fs.read_file_lines (codes "/proc/stat") ≡ ok (stat_lines f')
      → let per_core = core_snapshots {W = W} fs f.cores 0 f'.cores in
        collect fs (remembered f)
        ≡ (ok (aggregate_usage f'.aggregate f.aggregate per_core), remembered f')
  unfolding collect next_snapshot
  collect-after fs f f' h r = rw (r, scan_lines-stat_lines f' h) refl

-- Whatever the collector was, after a call on a /proc/stat `f`, a call on a /proc/stat `f'` reports: as
-- utilization 100 times the growth of the busy time from `f` to `f'` over the growth of the whole time, at
-- most 100 and 0 if no time passed; an entry for each core of `f'`; for core `k`, which both have, its
-- number, its utilization by the same formula from its own counters, and the frequency that its file
-- shows, or 0 without one; and it remembers exactly the counters of `f'`. The times did not fall and
-- do not overflow.
pub collect_twice-usage_of :
    (W : Type 0) ⦃d : Double W⦄ (fs fs' : Reader) (c : CpuCollector) (f f' : Stat) (k : ℕ)
    (prev cur : CpuCounters) (khz : Option ℕ)
    → IsStat f
    → IsStat f'
    → fs.read_file_lines (codes "/proc/stat") ≡ ok (stat_lines f)
    → fs'.read_file_lines (codes "/proc/stat") ≡ ok (stat_lines f')
    → Grew f.aggregate f'.aggregate
    → get_elem? f.cores k ≡ some prev
    → get_elem? f'.cores k ≡ some cur
    → Grew prev cur
    → ShowsFrequency fs' k khz
    → let (r, c') = collect {W = W} fs' (collect {W = W} fs c).1 in
      (s : CpuSnapshot W) × (r ≡ ok s)
      × (s.total_utilization ≡ usage_of f.aggregate f'.aggregate)
      × (length s.per_core ≡ length f'.cores)
      × CoreReported k (khz_of khz) prev cur s.per_core
      × (c' ≡ record {
        previous_aggregate = f'.aggregate;
        previous_cores = f'.cores;
        has_previous_state = true;
      })
collect_twice-usage_of W fs fs' c f f' k prev cur khz h h' r r' g p q l shown =
    let cores = core_snapshots {W = W} fs' f.cores 0 f'.cores in
    rw (collect-remembered W fs c f h r, collect-after {W = W} fs' f f' h' r')
      (
        aggregate_usage f'.aggregate f.aggregate cores,
        refl,
        aggregate_usage-usage_of f.aggregate f'.aggregate cores g,
        rw (aggregate_usage-per_core f'.aggregate f.aggregate cores)
            (length-core_snapshots W fs' f.cores 0 f'.cores),
        rw (aggregate_usage-per_core f'.aggregate f.aggregate cores) (
            rw (← frequency-khz_of fs' k khz shown)
              (core_snapshots-CoreReported fs' f.cores f'.cores k prev cur p q l)),
        refl,
      )
