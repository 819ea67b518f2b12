-- ===== src/Analytics/Profiler.antt =====
-- analytics/profiler.hpp and profiler.cpp. What the sampling thread sees is a list of file systems,
-- one for each round that it makes before the workload ends.
pub mod Report
mod Tests
use sys_scope.Base.{
  ℕ, ◌-◌, ◌≡◌, Bool, true, false, not, ◌&&◌, List, [], ◌∷◌, ◌++◌, Option, none, some, Text, codes,
  ltb, length, if◌then◌else◌, Double, max_of,
}
use sys_scope.Core.Result.{Result, ok, error}
use sys_scope.Core.Snapshot.{CpuSnapshot, MemorySnapshot, PsiSnapshot, zero_double}
use sys_scope.Platform.Files.{Reader}
use sys_scope.Collectors.Cpu
use sys_scope.Collectors.Memory
use sys_scope.Collectors.Psi

pub record ProfileReport (W : Type 0) : Type 0 where
  pub command : Text
  pub duration_seconds : W
  pub avg_cpu_percent : W
  pub peak_cpu_percent : W
  pub user_cpu_percent : W
  pub system_cpu_percent : W
  pub initial_rss_bytes : ℕ
  pub peak_rss_bytes : ℕ
  pub memory_growth_bytes : ℕ
  pub peak_psi_cpu_some : W
  pub peak_psi_memory_some : W
  pub peak_psi_io_some : W
  pub summary_diagnosis : Text

-- The sample vectors that the two threads share.
pub record Samples (W : Type 0) : Type 0 where
  pub cpu : List W
  pub rss : List ℕ
  pub psi_cpu : List W
  pub psi_mem : List W
  pub psi_io : List W

abbrev pub add_sample {ℓ κ} : {A : Type ℓ} {B : Type κ} → (A → B) → Result A → List B → List B
add_sample f (ok a) xs = xs ++ (f a ∷ [])
add_sample f (error e) xs = xs

abbrev pub if_empty {ℓ} : {A : Type ℓ} → List A → List A → List A
if_empty [] ys = ys
if_empty (x ∷ xs) ys = x ∷ xs

pub peak_rss_from : ℕ → List ℕ → ℕ
peak_rss_from best [] = best
peak_rss_from best (x ∷ xs) = peak_rss_from (if ltb best x then x else best) xs

pub peak_rss : ℕ → List ℕ → ℕ
peak_rss initial [] = 0
peak_rss initial (x ∷ xs) = peak_rss_from initial (x ∷ xs)

pub growth_of : ℕ → ℕ → ℕ
growth_of initial peak = if ltb initial peak then peak - initial else 0

abbrev balanced : Text
balanced = codes "Balanced resource execution."

abbrev unavailable : Text → Text
unavailable platform =
    codes "WARNING: Native Linux kernel VFS (/proc, /sys) telemetry unavailable on "
    ++ (platform ++ codes ". Profiler monitored process execution duration only.")

module _ {W : Type 0} ⦃d : Double W⦄ where
  open d use {lit, of_u64, add, div, lt}

  abbrev pub no_samples : Samples W
  no_samples = record { cpu = []; rss = []; psi_cpu = []; psi_mem = []; psi_io = [] }

  -- One round of the sampling thread.
  pub sample_round : Reader → Samples W × Cpu.CpuCollector → Samples W × Cpu.CpuCollector
  sample_round fs (s, c) =
      let (cpu, c') = Cpu.collect {W = W} fs c in
      let memory = Memory.collect {W = W} fs in
      let psi = Psi.collect {W = W} fs in
      (
        record {
          cpu = add_sample (λ (x : CpuSnapshot W). x.total_utilization) cpu s.cpu;
          rss = add_sample (λ (x : MemorySnapshot W). x.used_bytes) memory s.rss;
          psi_cpu = add_sample (λ (x : PsiSnapshot W). x.cpu_some.avg10) psi s.psi_cpu;
          psi_mem = add_sample (λ (x : PsiSnapshot W). x.memory_some.avg10) psi s.psi_mem;
          psi_io = add_sample (λ (x : PsiSnapshot W). x.io_some.avg10) psi s.psi_io;
        },
        c',
      )

  pub sample_rounds : List Reader → Samples W × Cpu.CpuCollector → Samples W × Cpu.CpuCollector
  sample_rounds [] r = r
  sample_rounds (fs ∷ rest) r = sample_rounds rest (sample_round fs r)

  -- A workload too short for a round is sampled once behind it.
  pub final_samples : Reader → Samples W × Cpu.CpuCollector → Samples W
  final_samples fs (s, c) = record s {
    cpu =
        if_empty s.cpu
          (add_sample (λ (x : CpuSnapshot W). x.total_utilization) (Cpu.collect {W = W} fs c).0 []);
    rss =
        if_empty s.rss
          (add_sample (λ (x : MemorySnapshot W). x.used_bytes) (Memory.collect {W = W} fs) []);
  }

  sum_of : W → List W → W
  sum_of acc [] = acc
  sum_of acc (x ∷ xs) = sum_of (add acc x) xs

  -- `peak = std::max(peak, val)`, and the loop of std::max_element behind the first element.
  pub peak_from : W → List W → W
  peak_from best [] = best
  peak_from best (x ∷ xs) = peak_from (max_of best x) xs

  average : List W → W
  average [] = zero_double
  average (x ∷ xs) = div (sum_of zero_double (x ∷ xs)) (of_u64 (length (x ∷ xs)))

  pub peak_cpu : List W → W
  peak_cpu xs = peak_from zero_double xs

  -- `*std::max_element(…)`, or the 0.0 of the report
  max_element : List W → W
  max_element [] = zero_double
  max_element (x ∷ xs) = peak_from x xs

  -- The ladder of the summary; the first that applies.
  pub summary_of : W → W → W → W → Text
  summary_of mem io cpu avg =
      if lt (lit 10 0) mem
      then codes "Memory-bound workload with severe PSI stall pressure."
      else if lt (lit 10 0) io
      then codes "I/O-bound workload with elevated disk wait pressure."
      else if lt (lit 10 0) cpu && lt (lit 70 0) avg
      then codes "CPU-bound workload with task scheduling contention."
      else if lt (lit 85 0) avg
      then codes "CPU-bound workload operating near full compute capacity."
      else balanced

  -- The report of the samples.
  pub report_of : Bool → Text → Text → W → ℕ → Samples W → ProfileReport W
  report_of linux platform command duration initial s =
      let avg = average s.cpu in
      let peak = peak_rss initial s.rss in
      let mem = max_element s.psi_mem in
      let io = max_element s.psi_io in
      let cpu = max_element s.psi_cpu in
      record {
        command = command;
        duration_seconds = duration;
        avg_cpu_percent = avg;
        peak_cpu_percent = peak_cpu s.cpu;
        user_cpu_percent = zero_double;
        system_cpu_percent = zero_double;
        initial_rss_bytes = initial;
        peak_rss_bytes = peak;
        memory_growth_bytes = growth_of initial peak;
        peak_psi_cpu_some = cpu;
        peak_psi_memory_some = mem;
        peak_psi_io_some = io;
        summary_diagnosis = if linux then summary_of mem io cpu avg else unavailable platform;
      }

  initial_of : Result (MemorySnapshot W) → ℕ
  initial_of (ok m) = m.used_bytes
  initial_of (error e) = 0

  -- `before`, `rounds` and `after` are the files at the baseline, at the rounds of the sampling thread,
  -- and when the workload has ended; `duration` is the measured time.
  pub profile_command : Bool → Text → Text → W → Reader → List Reader → Reader → ProfileReport W
  unfolding initial_of
  profile_command linux platform command duration before rounds after =
      let (baseline, c) = Cpu.collect {W = W} before Cpu.fresh in
      report_of linux platform command duration (initial_of (Memory.collect before))
        (final_samples after (sample_rounds rounds (no_samples, c)))
