-- ===== src/Analytics/Correlation/Rules.antt =====
-- When each rule diagnoses.
use sys_scope.Base.{
  ◌≡◌, refl, ◌∙◌, ◌↔◌, ◌⊎◌, Bool, true, false, not, ◌&&◌, ◌||◌, List, [], ◌∷◌, Option, none, some,
  arith, Text, codes, map, if◌then◌else◌, Double, IsOrdered,
}
use sys_scope.Core.Snapshot.{CoreCpuSnapshot, GpuSnapshot, MetricSnapshot, PsiSnapshot, zero_double}
use sys_scope.Analytics.Correlation.{
  Diagnosis, max_temp, gpu_max, thermal_max, thermal_rule, memory_rule, io_rule, cpu_rule,
  memory_of, io_of, cpu_of, analyze, add_found, is_some, no_cores,
}
use sys_scope.Analytics.Correlation.Sensors.{
  GpuAbove, ThermalAbove, sensor_above, max_temp-above, max_temp-sensor_above,
}

abbrev pub said : Bool → Text → List Text → List Text
said b t ts = if b then t ∷ ts else ts

module _ {W : Type 0} ⦃d : Double W⦄ where
  open d use {lit, lt}

  module _ (laws : IsOrdered W) where
    -- Rule 1 diagnoses exactly when there is a GPU or a core, and a sensor reads above 75 degrees.
    pub thermal_rule_iff :
        (s : MetricSnapshot W)
        → (is_some (thermal_rule s) ≡ true) ↔ (
            ((is_some s.gpu ≡ true) ⊎ (no_cores s.cpu.per_core ≡ false))
            × (GpuAbove (lit 75 0) s.gpu ⊎ ThermalAbove (lit 75 0) s.thermal))
    unfolding thermal_rule
    thermal_rule_iff s =
        let hot = max_temp-above laws 75 s (omega arith) in
        (
          λ h.
              let fired : ((is_some s.gpu || not (no_cores s.cpu.per_core)) ≡ true)
                  × (lt (lit 75 0) (max_temp s) ≡ true) =
                ground arith in
              (ground arith, hot.0 fired.1),
          λ h. let t : lt (lit 75 0) (max_temp s) ≡ true = hot.1 h.1 in ground arith,
        )

  abbrev pub conditions : List (Diagnosis W) → List Text
  conditions = map λ (x : Diagnosis W). x.condition

  -- A pressure reading is there and above 5 percent.
  abbrev pub stalled : (PsiSnapshot W → W) → Option (PsiSnapshot W) → Bool
  stalled f none = false
  stalled f (some p) = lt (lit 5 0) (f p)

  memory_of-said :
      (used : W) (p : Option (PsiSnapshot W)) (ds : List (Diagnosis W))
      → conditions (add_found (memory_of used p) ds)
        ≡ said
            (lt (lit 70 0) used && stalled (λ (x : PsiSnapshot W). x.memory_some.avg10) p)
            (codes "MEMORY CONTENTION & PRESSURE")
            (conditions ds)
  unfolding memory_of add_found
  memory_of-said used none ds = ground arith
  memory_of-said used (some p) ds = ground arith

  io_of-said :
      (iowait : W) (p : Option (PsiSnapshot W)) (ds : List (Diagnosis W))
      → conditions (add_found (io_of iowait p) ds)
        ≡ said
            (stalled (λ (x : PsiSnapshot W). x.io_some.avg10) p)
            (codes "I/O BOTTLENECK")
            (conditions ds)
  unfolding io_of add_found
  io_of-said iowait none ds = refl
  io_of-said iowait (some p) ds = ground arith

  cpu_of-said :
      (used : W) (p : Option (PsiSnapshot W)) (ds : List (Diagnosis W))
      → conditions (add_found (cpu_of used p) ds)
        ≡ said
            (lt (lit 75 0) used && stalled (λ (x : PsiSnapshot W). x.cpu_some.avg10) p)
            (codes "CPU SCHEDULING CONTENTION")
            (conditions ds)
  unfolding cpu_of add_found
  cpu_of-said used none ds = ground arith
  cpu_of-said used (some p) ds = ground arith

  thermal_rule-said :
      (s : MetricSnapshot W) (ds : List (Diagnosis W))
      → conditions (add_found (thermal_rule s) ds)
        ≡ said
            ((is_some s.gpu || not (no_cores s.cpu.per_core)) && lt (lit 75 0) (max_temp s))
            (codes "THERMAL THROTTLING")
            (conditions ds)
  unfolding thermal_rule add_found
  thermal_rule-said s ds = ground arith

  -- Whether there is a GPU or a core.
  abbrev pub watched : Option (GpuSnapshot W) → List (CoreCpuSnapshot W) → Bool
  watched none [] = false
  watched none (c ∷ cs) = true
  watched (some g) cs = true

  watched-guard :
      (g : Option (GpuSnapshot W)) (cs : List (CoreCpuSnapshot W))
      → (is_some g || not (no_cores cs)) ≡ watched g cs
  watched-guard none [] = refl
  watched-guard none (c ∷ cs) = refl
  watched-guard (some g) cs = refl

  -- The conditions that `analyze` reports, each at most once and in this order: thermal with a GPU or
  -- a core and some sensor, the GPU's or any zone's, above 75, whatever the other sensors read; memory with more than 70 percent used and a memory stall
  -- above 5; I/O with an I/O stall above 5; scheduling with more than 75 percent used and a CPU stall
  -- above 5.
  pub conditions-analyze :
      (laws : IsOrdered W) (s : MetricSnapshot W)
      → conditions (analyze s)
        ≡ said
            (watched s.gpu s.cpu.per_core && sensor_above (lit 75 0) s.gpu s.thermal)
            (codes "THERMAL THROTTLING")
            (said
              (lt (lit 70 0) s.memory.utilization_percent
                && stalled (λ (x : PsiSnapshot W). x.memory_some.avg10) s.psi)
              (codes "MEMORY CONTENTION & PRESSURE")
              (said
                (stalled (λ (x : PsiSnapshot W). x.io_some.avg10) s.psi)
                (codes "I/O BOTTLENECK")
                (said
                  (lt (lit 75 0) s.cpu.total_utilization
                    && stalled (λ (x : PsiSnapshot W). x.cpu_some.avg10) s.psi)
                  (codes "CPU SCHEDULING CONTENTION")
                  [])))
  unfolding analyze memory_rule io_rule cpu_rule
  conditions-analyze laws s =
      rw
        (
          thermal_rule-said s _,
          watched-guard s.gpu s.cpu.per_core,
          max_temp-sensor_above laws s,
          memory_of-said s.memory.utilization_percent s.psi _,
          io_of-said s.cpu.iowait_percent s.psi _,
          cpu_of-said s.cpu.total_utilization s.psi [],
        )
        refl

  -- A snapshot without a GPU, thermal zones and pressure readings has no diagnosis.
  pub analyze-bare :
      (laws : IsOrdered W) (s : MetricSnapshot W)
      → s.gpu ≡ none
      → s.thermal ≡ none
      → s.psi ≡ none
      → analyze s ≡ []
  unfolding analyze thermal_rule memory_rule io_rule cpu_rule memory_of io_of cpu_of max_temp
      gpu_max thermal_max add_found
  analyze-bare laws s g t p =
      let cold : lt (lit 75 0) zero_double ≡ false =
        laws.lit-lt 75 0 0 (omega arith) (omega arith) (omega arith) ∙ refl in
      ground (arith, cold)
