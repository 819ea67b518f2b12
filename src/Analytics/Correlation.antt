-- ===== src/Analytics/Correlation.antt =====
-- analytics/correlation.hpp and correlation.cpp: four rules from a snapshot to diagnoses.
pub mod Justified
pub mod Rules
pub mod Sensors
mod Tests
use sys_scope.Base.{
  ℕ, ◌≡◌, Bool, true, false, not, ◌&&◌, ◌||◌, List, [], ◌∷◌, ◌++◌, Option, none, some, Text, codes,
  ltb, if◌then◌else◌, Double, max_of, min_of,
}
use sys_scope.Core.Types.{MetricType}
use sys_scope.Core.Snapshot.{
  MetricSnapshot, ThermalZoneInfo, ThermalSnapshot, GpuSnapshot, PsiSnapshot, CoreCpuSnapshot,
  zero_double,
}

pub record Evidence (W : Type 0) : Type 0 where
  pub metric : MetricType
  pub observed_value : W
  pub threshold : W
  pub contribution : W
  pub explanation : Text

pub record Diagnosis (W : Type 0) : Type 0 where
  pub condition : Text
  pub confidence : W
  pub evidence : List (Evidence W)

-- The evidence so far and the running sum `confidence`.
pub record Draft (W : Type 0) : Type 0 where
  pub found : List (Evidence W)
  pub confidence : W

abbrev pub is_some {ℓ} : {A : Type ℓ} → Option A → Bool
is_some none = false
is_some (some a) = true

abbrev pub no_cores : {A : Type 0} → List A → Bool
no_cores [] = true
no_cores (x ∷ xs) = false

module _ {W : Type 0} ⦃d : Double W⦄ where
  open d use {lit, add, lt, print}

  -- `push_back(ev)` and `confidence += amount`
  abbrev pub note : Evidence W → W → Draft W → Draft W
  note ev amount w = record { found = w.found ++ (ev ∷ []); confidence = add w.confidence amount }

  abbrev pub note_if : Bool → Evidence W → W → Draft W → Draft W
  note_if b ev amount w = if b then note ev amount w else w

  abbrev pub no_draft : Draft W
  no_draft = record { found = []; confidence = zero_double }

  abbrev pub conclude : Text → Draft W → Diagnosis W
  conclude condition w = record {
    condition = condition;
    confidence = min_of (lit 1 0) w.confidence;
    evidence = w.found;
  }

  abbrev shown : Text → W → Text → Text
  shown before x after = before ++ (print 2 x ++ after)

  pub zones_max : W → List (ThermalZoneInfo W) → W
  zones_max best [] = best
  zones_max best (z ∷ zs) = zones_max (max_of best z.temperature_celsius) zs

  gpu_max : W → Option (GpuSnapshot W) → W
  gpu_max best none = best
  gpu_max best (some g) = max_of best g.temperature_celsius

  thermal_max : W → Option (ThermalSnapshot W) → W
  thermal_max best none = best
  thermal_max best (some t) = zones_max best t.zones

  -- The hottest reading, from 0.0 up.
  pub max_temp : MetricSnapshot W → W
  unfolding gpu_max thermal_max
  max_temp s = thermal_max (gpu_max zero_double s.gpu) s.thermal

  temp_evidence : W → Evidence W
  temp_evidence t = record {
    metric = MetricType.temperature;
    observed_value = t;
    threshold = lit 75 0;
    contribution = lit 40 2;
    explanation = shown (codes "Peak temperature (") t (codes "°C) exceeded threshold 75°C");
  }

  busy_evidence : W → Evidence W
  busy_evidence u = record {
    metric = MetricType.cpu_utilization;
    observed_value = u;
    threshold = lit 80 0;
    contribution = lit 25 2;
    explanation = codes "CPU utilization remained >80%";
  }

  gpu_evidence : W → Evidence W
  gpu_evidence u = record {
    metric = MetricType.gpu_utilization;
    observed_value = u;
    threshold = lit 85 0;
    contribution = lit 25 2;
    explanation = codes "GPU utilization remained >85%";
  }

  note_gpu : Option (GpuSnapshot W) → Draft W → Draft W
  unfolding gpu_evidence
  note_gpu none w = w
  note_gpu (some g) w =
      note_if (lt (lit 85 0) g.utilization_percent) (gpu_evidence g.utilization_percent) (lit 25 2)
        w

  -- Rule 1
  pub thermal_rule : MetricSnapshot W → Option (Diagnosis W)
  unfolding temp_evidence busy_evidence note_gpu
  thermal_rule s =
      if is_some s.gpu || not (no_cores s.cpu.per_core)
      then (if lt (lit 75 0) (max_temp s)
          then some (
              conclude (codes "THERMAL THROTTLING") (
                note_gpu s.gpu (
                  note_if (lt (lit 80 0) s.cpu.total_utilization)
                    (busy_evidence s.cpu.total_utilization) (lit 25 2)
                    (note (temp_evidence (max_temp s)) (lit 40 2) no_draft))))
          else none)
      else none

  psi_memory_evidence : W → Evidence W
  psi_memory_evidence x = record {
    metric = MetricType.psi_memory_some;
    observed_value = x;
    threshold = lit 5 0;
    contribution = lit 50 2;
    explanation = shown (codes "Linux Memory PSI (some avg10=") x (codes "%) indicates task stall");
  }

  memory_evidence : W → Evidence W
  memory_evidence x = record {
    metric = MetricType.memory_utilization;
    observed_value = x;
    threshold = lit 70 0;
    contribution = lit 35 2;
    explanation = shown (codes "RAM utilization high (") x (codes "%)");
  }

  memory_of : W → Option (PsiSnapshot W) → Option (Diagnosis W)
  unfolding psi_memory_evidence memory_evidence
  memory_of used none = none
  memory_of used (some p) =
      if lt (lit 70 0) used
      then (if lt (lit 5 0) p.memory_some.avg10
          then some (
              conclude (codes "MEMORY CONTENTION & PRESSURE") (
                note (memory_evidence used) (lit 35 2)
                  (note (psi_memory_evidence p.memory_some.avg10) (lit 50 2) no_draft)))
          else none)
      else none

  -- Rule 2
  pub memory_rule : MetricSnapshot W → Option (Diagnosis W)
  unfolding memory_of
  memory_rule s = memory_of s.memory.utilization_percent s.psi

  psi_io_evidence : W → Evidence W
  psi_io_evidence x = record {
    metric = MetricType.psi_io_some;
    observed_value = x;
    threshold = lit 5 0;
    contribution = lit 55 2;
    explanation =
        shown (codes "Linux I/O PSI (some avg10=") x (codes "%) indicates task wait stall");
  }

  iowait_evidence : W → Evidence W
  iowait_evidence x = record {
    metric = MetricType.cpu_utilization;
    observed_value = x;
    threshold = lit 10 0;
    contribution = lit 35 2;
    explanation = shown (codes "CPU I/O Wait elevated (") x (codes "%)");
  }

  io_of : W → Option (PsiSnapshot W) → Option (Diagnosis W)
  unfolding psi_io_evidence iowait_evidence
  io_of iowait none = none
  io_of iowait (some p) =
      if lt (lit 5 0) p.io_some.avg10
      then some (
          conclude (codes "I/O BOTTLENECK") (
            note_if (lt (lit 10 0) iowait) (iowait_evidence iowait) (lit 35 2)
              (note (psi_io_evidence p.io_some.avg10) (lit 55 2) no_draft)))
      else none

  -- Rule 3
  pub io_rule : MetricSnapshot W → Option (Diagnosis W)
  unfolding io_of
  io_rule s = io_of s.cpu.iowait_percent s.psi

  psi_cpu_evidence : W → Evidence W
  psi_cpu_evidence x = record {
    metric = MetricType.psi_cpu_some;
    observed_value = x;
    threshold = lit 5 0;
    contribution = lit 50 2;
    explanation =
        shown (codes "Linux CPU PSI (some avg10=") x (codes "%) indicates runnable task stall");
  }

  cpu_evidence : W → Evidence W
  cpu_evidence x = record {
    metric = MetricType.cpu_utilization;
    observed_value = x;
    threshold = lit 75 0;
    contribution = lit 40 2;
    explanation =
        shown (codes "High CPU utilization (") x (codes "%) coincides with scheduling contention");
  }

  cpu_of : W → Option (PsiSnapshot W) → Option (Diagnosis W)
  unfolding psi_cpu_evidence cpu_evidence
  cpu_of used none = none
  cpu_of used (some p) =
      if lt (lit 75 0) used && lt (lit 5 0) p.cpu_some.avg10
      then some (
          conclude (codes "CPU SCHEDULING CONTENTION") (
            note (cpu_evidence used) (lit 40 2)
              (note (psi_cpu_evidence p.cpu_some.avg10) (lit 50 2) no_draft)))
      else none

  -- Rule 4
  pub cpu_rule : MetricSnapshot W → Option (Diagnosis W)
  unfolding cpu_of
  cpu_rule s = cpu_of s.cpu.total_utilization s.psi

  add_found : Option (Diagnosis W) → List (Diagnosis W) → List (Diagnosis W)
  add_found none ds = ds
  add_found (some x) ds = x ∷ ds

  -- The diagnoses of the rules that apply, in the order of the rules.
  pub analyze : MetricSnapshot W → List (Diagnosis W)
  unfolding add_found
  analyze s =
      add_found (thermal_rule s)
        (add_found (memory_rule s) (add_found (io_rule s) (add_found (cpu_rule s) [])))
