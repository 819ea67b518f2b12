-- ===== src/Collectors/Cpu/Collect.antt =====
-- What a call of `CpuCollector::collect` does to the collector and what it reports.
use sys_scope.Base.{
  ℕ, ◌+◌, ◌≡◌, refl, inl, inr, List, [], ◌∷◌, arith, Text, codes, length, All, ◌⊎◌, Bool-cases,
  Double, IsOrdered, if◌then◌else◌,
}
use sys_scope.Core.Result.{ok, error, Result-cases}
use sys_scope.Core.Snapshot.{CpuSnapshot, CoreCpuSnapshot, blank_cpu, zero_double}
use sys_scope.Platform.Files.{Reader}
use sys_scope.Collectors.Cpu.{
  CpuCollector, CpuCounters, Sample, baseline, collect, next_snapshot, first_snapshot, scan_lines,
  no_sample, core_snapshots, core_snapshot, aggregate_usage, fresh, collect_lines, collect_sample,
}
use sys_scope.Collectors.Cpu.Usage.{
  IsCapped, core_snapshots-capped, aggregate_usage-capped, zero-capped,
}

pub length-core_snapshots :
    (W : Type 0) ⦃d : Double W⦄ (fs : Reader) (previous : List CpuCounters) (i : ℕ)
    (cs : List CpuCounters)
    → length (core_snapshots {W = W} fs previous i cs) ≡ length cs
unfolding core_snapshots
length-core_snapshots W fs previous i [] = refl
length-core_snapshots W fs previous i (c ∷ cs) =
    omega (arith, length-core_snapshots W fs previous (i + 1) cs)

module _ {W : Type 0} ⦃d : Double W⦄ where
  pub aggregate_usage-per_core :
      (cur prev : CpuCounters) (per_core : List (CoreCpuSnapshot W))
      → (aggregate_usage cur prev per_core).per_core ≡ per_core
  unfolding aggregate_usage
  aggregate_usage-per_core cur prev per_core = ground arith

  -- If /proc/stat cannot be read, the call reports that error and keeps its state.
  collect-error :
      (fs : Reader) (c : CpuCollector) (m : Text)
      → fs.read_file_lines (codes "/proc/stat") ≡ error m
      → collect {W = W} fs c ≡ (error m, c)
  unfolding collect
  collect-error fs c m h = rw h

  -- If /proc/stat can be read, the call reports a snapshot with an entry for each core line and keeps the sample that it
  -- read as its next baseline. The first call reports the cores with no previous sample; a later
  -- call reports the usage since the baseline.
  pub collect-ok :
      (fs : Reader) (c : CpuCollector) (ls : List Text)
      → fs.read_file_lines (codes "/proc/stat") ≡ ok ls
      → let s = scan_lines ls no_sample in
        (s' : CpuSnapshot W) × (collect fs c ≡ (ok s', baseline s))
        × (length s'.per_core ≡ length s.cores)
        × (s' ≡ (
            if c.has_previous_state
            then aggregate_usage s.aggregate c.previous_aggregate
                (core_snapshots fs c.previous_cores 0 s.cores)
            else record blank_cpu { per_core = core_snapshots fs [] 0 s.cores }))
  unfolding collect next_snapshot first_snapshot
  collect-ok fs c ls h =
      let s = scan_lines ls no_sample in
      elim (Bool-cases c.has_previous_state) [
        | inl e ↦ (
          next_snapshot fs c s,
          rw (h, e),
          rw aggregate_usage-per_core (length-core_snapshots W fs c.previous_cores 0 s.cores),
          rw e,
        )
        | inr e ↦ (first_snapshot fs s, rw (h, e), length-core_snapshots W fs [] 0 s.cores, rw e)
      ]

  module _ (laws : IsOrdered W) where
    next_snapshot-IsCapped :
        (fs : Reader) (c : CpuCollector) (s : Sample) → IsCapped {W = W} (next_snapshot fs c s)
    unfolding next_snapshot
    next_snapshot-IsCapped fs c s =
        let cores = core_snapshots {W = W} fs c.previous_cores 0 s.cores in
        (
          aggregate_usage-capped laws s.aggregate c.previous_aggregate cores,
          rw (aggregate_usage-per_core s.aggregate c.previous_aggregate cores)
              (core_snapshots-capped laws fs c.previous_cores 0 s.cores),
        )

    first_snapshot-IsCapped : (fs : Reader) (s : Sample) → IsCapped {W = W} (first_snapshot fs s)
    unfolding first_snapshot
    first_snapshot-IsCapped fs s = (zero-capped laws, core_snapshots-capped laws fs [] 0 s.cores)

    -- Whatever the files hold and whatever the state, no reported utilization is above 100.
    pub collect-IsCapped :
        (fs : Reader) (c c' : CpuCollector) (s : CpuSnapshot W)
        → collect fs c ≡ (ok s, c')
        → IsCapped s
    unfolding next_snapshot first_snapshot
    collect-IsCapped fs c c' s h = elim (Result-cases (fs.read_file_lines (codes "/proc/stat"))) [
      | inl (ls, e) ↦
          let (s', e', l, r) = collect-ok fs c ls e in
          let same : s ≡ s' = cc in
          rw (same, r)
            (elim (Bool-cases c.has_previous_state) [
              | inl t ↦ rw t (next_snapshot-IsCapped fs c (scan_lines ls no_sample))
              | inr f ↦ rw f (first_snapshot-IsCapped fs (scan_lines ls no_sample))
            ])
      | inr (m, e) ↦ absurd (cc (collect-error fs c m e))
    ]

-- A core without any percentage.
abbrev pub IdleCore : {W : Type 0} ⦃d : Double W⦄ → CoreCpuSnapshot W → Type 0
IdleCore core =
    (core.total_utilization ≡ zero_double)
    × (core.user_percent ≡ zero_double)
    × (core.system_percent ≡ zero_double)
    × (core.iowait_percent ≡ zero_double)

-- A snapshot without any percentage, of the whole and of the cores.
pub record IsIdle {W : Type 0} ⦃d : Double W⦄ (s : CpuSnapshot W) : Type 0 where
  pub total : s.total_utilization ≡ zero_double
  pub user : s.user_percent ≡ zero_double
  pub system : s.system_percent ≡ zero_double
  pub iowait : s.iowait_percent ≡ zero_double
  pub irq : s.irq_percent ≡ zero_double
  pub softirq : s.softirq_percent ≡ zero_double
  pub steal : s.steal_percent ≡ zero_double
  pub cores : All IdleCore s.per_core

core_snapshots_idle :
    (W : Type 0) ⦃d : Double W⦄ (fs : Reader) (i : ℕ) (cs : List CpuCounters)
    → All (IdleCore {W = W}) (core_snapshots fs [] i cs)
unfolding core_snapshots core_snapshot
core_snapshots_idle W fs i [] = tt
core_snapshots_idle W fs i (c ∷ cs) =
    ((refl, refl, refl, refl), core_snapshots_idle W fs (i + 1) cs)

-- A collector that was never called reports no percentage, however much time was used.
pub collect-fresh :
    (W : Type 0) ⦃d : Double W⦄ (fs : Reader)
    → ((s : CpuSnapshot W) × ((collect {W = W} fs fresh).0 ≡ ok s) × IsIdle s)
      ⊎ ((m : Text) × ((collect {W = W} fs fresh).0 ≡ error m))
unfolding collect collect_lines collect_sample first_snapshot
collect-fresh W fs = elim (Result-cases (fs.read_file_lines (codes "/proc/stat"))) [
  | inl (ls, e) ↦
      let s = first_snapshot {W = W} fs (scan_lines ls no_sample) in
      inl (
        s,
        rw e refl,
        record {
          total = refl;
          user = refl;
          system = refl;
          iowait = refl;
          irq = refl;
          softirq = refl;
          steal = refl;
          cores = core_snapshots_idle W fs 0 (scan_lines ls no_sample).cores;
        },
      )
  | inr (m, e) ↦ inr (m, rw e refl)
]
