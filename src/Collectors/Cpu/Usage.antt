-- ===== src/Collectors/Cpu/Usage.antt =====
-- The percentages of the CPU collector: bounds, and what they are of the counters.
use sys_scope.Base.{
  ℕ, ◌+◌, ◌-◌, ◌≤◌, ◌<◌, ◌≡◌, refl, inl, inr, false, List, [], ◌∷◌, Option, none, some, arith, ltb,
  if◌then◌else◌, Bool-cases, All, get_elem?, u64_mod, add_u64, sub_u64, Double, IsOrdered, min_of,
  not-lt-min_of,
}
use sys_scope.Core.Snapshot.{CpuSnapshot, CoreCpuSnapshot, zero_double}
use sys_scope.Platform.Files.{Reader}
use sys_scope.Collectors.Cpu.{
  CpuCounters, total, idle_time, percent, aggregate_usage, core_usage, core_snapshot,
  core_snapshots, frequency,
}

-- What the counters say of the time that was not idle.
abbrev pub busy_time : CpuCounters → ℕ
busy_time c = c.user + c.nice + c.system + c.irq + c.softirq + c.steal

abbrev pub all_time : CpuCounters → ℕ
all_time c = busy_time c + c.idle + c.iowait

total-eq-all_time : (c : CpuCounters) → all_time c < u64_mod → total c ≡ all_time c
unfolding total add_u64
total-eq-all_time c h = omega arith

idle_time-eq : (c : CpuCounters) → all_time c < u64_mod → idle_time c ≡ c.idle + c.iowait
unfolding idle_time add_u64
idle_time-eq c h = omega arith

-- Counters that did not fall since the previous sample.
pub record Grew (prev cur : CpuCounters) : Type 0 where
  pub fits : all_time cur < u64_mod
  pub busy : busy_time prev ≤ busy_time cur
  pub all : all_time prev ≤ all_time cur

-- The difference of the two deltas is the growth of the busy time, also where idle or iowait fell.
pub busy_delta :
    (prev cur : CpuCounters)
    → Grew prev cur
    → sub_u64 (sub_u64 (total cur) (total prev)) (sub_u64 (idle_time cur) (idle_time prev))
      ≡ busy_time cur - busy_time prev
unfolding sub_u64
busy_delta prev cur g = omega (
  arith,
  g.fits,
  g.busy,
  g.all,
  total-eq-all_time cur,
  total-eq-all_time prev,
  idle_time-eq cur,
  idle_time-eq prev,
)

pub total_delta :
    (prev cur : CpuCounters)
    → Grew prev cur
    → sub_u64 (total cur) (total prev) ≡ all_time cur - all_time prev
unfolding sub_u64
total_delta prev cur g = omega (arith, g.fits, g.all, total-eq-all_time cur, total-eq-all_time prev)

module _ {W : Type 0} ⦃d : Double W⦄ where
  open d use {lit, lt}

  -- Between two samples whose total and busy times did not fall and do not overflow, the reported
  -- utilization is 100 times the growth of the busy time over the growth of the total time, at most
  -- 100, and 0 if no time passed; user and iowait are the wrapping differences over the same total.
  pub aggregate_usage_lem :
      (prev cur : CpuCounters) (per_core : List (CoreCpuSnapshot W))
      → Grew prev cur
      → let s = aggregate_usage cur prev per_core in
        let elapsed = all_time cur - all_time prev in
        (s.total_utilization ≡ (
          if ltb 0 elapsed
          then min_of (lit 100 0) (percent (busy_time cur - busy_time prev) elapsed)
          else zero_double))
        × (s.user_percent
            ≡ (if ltb 0 elapsed then percent (sub_u64 cur.user prev.user) elapsed else zero_double))
        × (s.iowait_percent ≡ (
            if ltb 0 elapsed
            then percent (sub_u64 cur.iowait prev.iowait) elapsed
            else zero_double))
        × (s.per_core ≡ per_core)
  unfolding aggregate_usage
  aggregate_usage_lem prev cur per_core g =
      rw (busy_delta prev cur g, total_delta prev cur g)
        (elim (Bool-cases (ltb 0 (all_time cur - all_time prev))) [
          | inl e ↦ rw e (refl, refl, refl, refl)
          | inr e ↦ rw e (refl, refl, refl, refl)
        ])

  -- No core and no aggregate is reported above 100 percent.
  abbrev pub IsCapped : CpuSnapshot W → Type 0
  IsCapped s =
      (lt (lit 100 0) s.total_utilization ≡ false)
      × All (λ (c : CoreCpuSnapshot W). lt (lit 100 0) c.total_utilization ≡ false) s.per_core

  module _ (laws : IsOrdered W) where
    pub zero-capped : lt (lit 100 0) zero_double ≡ false
    zero-capped = laws.lit-lt 100 0 0 (omega arith) (omega arith) (omega arith)

    core_usage-capped :
        (i freq : ℕ) (cur prev : CpuCounters)
        → lt (lit 100 0) (core_usage i freq cur prev).total_utilization ≡ false
    unfolding core_usage
    core_usage-capped i freq cur prev = ground (
      arith,
      zero-capped,
      not-lt-min_of laws (lit 100 0) (
          percent
            (sub_u64 (sub_u64 (total cur) (total prev)) (sub_u64 (idle_time cur) (idle_time prev)))
            (sub_u64 (total cur) (total prev))),
    )

    core_snapshot-capped :
        (i freq : ℕ) (cur : CpuCounters) (prev : Option CpuCounters)
        → lt (lit 100 0) (core_snapshot i freq cur prev).total_utilization ≡ false
    unfolding core_snapshot
    core_snapshot-capped i freq cur none = zero-capped
    core_snapshot-capped i freq cur (some p) = core_usage-capped i freq cur p

    pub core_snapshots-capped :
        (fs : Reader) (previous : List CpuCounters) (i : ℕ) (cs : List CpuCounters)
        → All
            (λ (c : CoreCpuSnapshot W). lt (lit 100 0) c.total_utilization ≡ false)
            (core_snapshots fs previous i cs)
    unfolding core_snapshots
    core_snapshots-capped fs previous i [] = tt
    core_snapshots-capped fs previous i (c ∷ cs) = (
      core_snapshot-capped i (frequency fs i) c (get_elem? previous i),
      core_snapshots-capped fs previous (i + 1) cs,
    )

    pub aggregate_usage-capped :
        (cur prev : CpuCounters) (per_core : List (CoreCpuSnapshot W))
        → lt (lit 100 0) (aggregate_usage cur prev per_core).total_utilization ≡ false
    unfolding aggregate_usage
    aggregate_usage-capped cur prev per_core = ground (
      arith,
      zero-capped,
      not-lt-min_of laws (lit 100 0) (
          percent
            (sub_u64 (sub_u64 (total cur) (total prev)) (sub_u64 (idle_time cur) (idle_time prev)))
            (sub_u64 (total cur) (total prev))),
    )
