-- ===== src/Collectors/Thermal/Degrees.antt =====
-- What the thermal collector makes of the kernel's millidegrees, and what the analysis makes of that.
use sys_scope.Base.{
  ℕ, ◌^◌, ◌≤◌, ◌<◌, ◌≡◌, refl, sym, ap, ◌∙◌, inr, true, false, List, ◌∷◌, ◌++◌, Option, none, some,
  arith, Text, ltb, if◌then◌else◌, pop_back_if, Double, IsOrdered,
}
use sys_scope.Core.Result.{ok}
use sys_scope.Core.Snapshot.{MetricSnapshot, ThermalZoneInfo}
use sys_scope.Collectors.Thermal.{celsius_of, zone_at, zone_of}
use sys_scope.Analytics.Correlation.{thermal_rule, is_some, no_cores}
use sys_scope.Analytics.Correlation.Rules.{thermal_rule_iff}
use sys_scope.Analytics.Correlation.Sensors.{ZoneAbove-among}

module _ {W : Type 0} ⦃d : Double W⦄ (laws : IsOrdered W) where
  open d use {lit, div, lt, stod}

  -- The temperature of a zone that reports `m` millidegrees
  abbrev degrees_of : ℕ → W
  degrees_of m = if ltb 1000 m then div (lit m 0) (lit 1000 0) else lit m 0

  celsius_of-lit : (m : ℕ) → m < 10 ^ 15 → celsius_of (lit m 0) ≡ degrees_of m
  unfolding celsius_of
  celsius_of-lit m h = rw (laws.lit-lt 1000 m 0 (omega arith) h (omega arith)) refl

  -- A zone whose files hold a type and a number of millidegrees is reported in degrees, the number over
  -- 1000, only if the number is above 1000; a number up to there is reported as it is.
  pub zone_of-millidegrees :
      (name kind temp : Text) (m : ℕ)
      → stod temp ≡ some (lit m 0)
      → m < 10 ^ 15
      → zone_of name (ok kind) (ok temp)
        ≡ some (record {
          name = name;
          type = pop_back_if 10 kind;
          temperature_celsius = if ltb 1000 m then div (lit m 0) (lit 1000 0) else lit m 0;
        })
  unfolding zone_of zone_at
  zone_of-millidegrees name kind temp m e h = rw (e, celsius_of-lit m h) refl

  above_75 : (m : ℕ) → 75 < m → m ≤ 1000 → lt (lit 75 0) (degrees_of m) ≡ true
  above_75 m h k =
      let small : ltb 1000 m ≡ false = ground arith in
      let big : ltb 75 m ≡ true = ground arith in
      rw small (laws.lit-lt 75 m 0 (omega arith) (omega (arith, k)) (omega arith) ∙ big)

  -- A zone at more than 75 and at most 1000 millidegrees, which is one degree at most, is diagnosed as
  -- overheated on a machine with a core, whichever zone of the snapshot it is.
  pub cold_zone-diagnosed :
      (name kind temp : Text) (m : ℕ) (z : ThermalZoneInfo W)
      (before after : List (ThermalZoneInfo W)) (s : MetricSnapshot W)
      → stod temp ≡ some (lit m 0)
      → 75 < m
      → m ≤ 1000
      → zone_of name (ok kind) (ok temp) ≡ some z
      → s.thermal ≡ some (record { zones = before ++ (z ∷ after) })
      → no_cores s.cpu.per_core ≡ false
      → is_some (thermal_rule s) ≡ true
  cold_zone-diagnosed name kind temp m z before after s e h k r t c =
      let read = zone_of-millidegrees name kind temp m e (omega (arith, k)) in
      let hot : lt (lit 75 0) z.temperature_celsius ≡ true =
        ap (λ (o : Option (ThermalZoneInfo W)). lt (lit 75 0) (temperature_in z o)) (sym r ∙ read)
        ∙ above_75 m h k in
      (thermal_rule_iff laws s).1
        (inr c, inr (rw t (ZoneAbove-among (lit 75 0) z before after hot)))
    where
      temperature_in : ThermalZoneInfo W → Option (ThermalZoneInfo W) → W
      temperature_in z none = z.temperature_celsius
      temperature_in z (some y) = y.temperature_celsius
