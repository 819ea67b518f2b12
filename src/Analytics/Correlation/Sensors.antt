-- ===== src/Analytics/Correlation/Sensors.antt =====
-- The hottest reading of a snapshot, against the readings of its sensors.
use sys_scope.Base.{
  ℕ, ◌^◌, ◌<◌, Bool-cases, ◌≡◌, refl, ◌∙◌, ◌↔◌, ◌⊎◌, inl, inr, Bool, true, false, ◌||◌, List, [],
  ◌∷◌, ◌++◌, Option, none, some, arith, Double, IsOrdered, max_of, max_of_number, lt-max_of,
  lt-max_of_left, lt-max_of_right,
}
use sys_scope.Core.Snapshot.{
  MetricSnapshot, GpuSnapshot, ThermalSnapshot, ThermalZoneInfo, zero_double,
}
use sys_scope.Analytics.Correlation.{max_temp, zones_max, gpu_max, thermal_max}

same_bool : (a b : Bool) → (a ≡ true) ↔ (b ≡ true) → a ≡ b
same_bool true b h = let q = h.0 refl in ground (arith, q)
same_bool false true h = let q = h.1 refl in ground (arith, q)
same_bool false false h = refl

module _ {W : Type 0} ⦃d : Double W⦄ where
  open d use {lit, lt, is_nan}

  -- A reading above `t` among the zones, and among all the sensors.
  abbrev pub ZoneAbove : W → List (ThermalZoneInfo W) → Type 0
  ZoneAbove t [] = ⊥
  ZoneAbove t (z ∷ zs) = (lt t z.temperature_celsius ≡ true) ⊎ ZoneAbove t zs

  abbrev pub GpuAbove : W → Option (GpuSnapshot W) → Type 0
  GpuAbove t none = ⊥
  GpuAbove t (some g) = lt t g.temperature_celsius ≡ true

  abbrev pub ThermalAbove : W → Option (ThermalSnapshot W) → Type 0
  ThermalAbove t none = ⊥
  ThermalAbove t (some th) = ZoneAbove t th.zones

  pub ZoneAbove-among :
      (t : W) (z : ThermalZoneInfo W) (before after : List (ThermalZoneInfo W))
      → lt t z.temperature_celsius ≡ true
      → ZoneAbove t (before ++ (z ∷ after))
  ZoneAbove-among t z [] after h = inl h
  ZoneAbove-among t z (x ∷ before) after h = inr (ZoneAbove-among t z before after h)

  -- Whether some sensor, of the GPU or of a thermal zone, reads above `t`.
  abbrev pub zone_above : W → List (ThermalZoneInfo W) → Bool
  zone_above t [] = false
  zone_above t (z ∷ zs) = lt t z.temperature_celsius || zone_above t zs

  abbrev pub sensor_above : W → Option (GpuSnapshot W) → Option (ThermalSnapshot W) → Bool
  sensor_above t none none = false
  sensor_above t none (some th) = zone_above t th.zones
  sensor_above t (some g) none = lt t g.temperature_celsius
  sensor_above t (some g) (some th) = lt t g.temperature_celsius || zone_above t th.zones

  ZoneAbove-zone_above :
      (t : W) (zs : List (ThermalZoneInfo W)) → ZoneAbove t zs ↔ (zone_above t zs ≡ true)
  ZoneAbove-zone_above t [] = (λ h. absurd h, λ h. ground arith)
  ZoneAbove-zone_above t (z ∷ zs) =
      let ih = ZoneAbove-zone_above t zs in
      (
        λ h. elim h [ inl x ↦ ground (arith, x) | inr y ↦ let q = ih.0 y in ground (arith, q) ],
        λ h. elim (Bool-cases (lt t z.temperature_celsius)) [
          | inl x ↦ inl x
          | inr x ↦ inr (ih.1 (ground (arith, h, x)))
        ],
      )

  sensor_above_iff :
      (t : W) (g : Option (GpuSnapshot W)) (th : Option (ThermalSnapshot W))
      → (GpuAbove t g ⊎ ThermalAbove t th) ↔ (sensor_above t g th ≡ true)
  sensor_above_iff t none none =
      (λ h. elim h [ inl x ↦ absurd x | inr y ↦ absurd y ], λ h. ground arith)
  sensor_above_iff t none (some th) =
      let z = ZoneAbove-zone_above t th.zones in
      (λ h. elim h [ inl x ↦ absurd x | inr y ↦ z.0 y ], λ h. inr (z.1 h))
  sensor_above_iff t (some g) none = (λ h. elim h [ inl x ↦ x | inr y ↦ absurd y ], λ h. inl h)
  sensor_above_iff t (some g) (some th) =
      let z = ZoneAbove-zone_above t th.zones in
      (
        λ h. elim h [ inl x ↦ ground (arith, x) | inr y ↦ let q = z.0 y in ground (arith, q) ],
        λ h. elim (Bool-cases (lt t g.temperature_celsius)) [
          | inl x ↦ inl x
          | inr x ↦ inr (z.1 (ground (arith, h, x)))
        ],
      )

  module _ (laws : IsOrdered W) where
    zones_max-above :
        (t best : W) (zs : List (ThermalZoneInfo W))
        → is_nan best ≡ false
        → (lt t (zones_max best zs) ≡ true) ↔ ((lt t best ≡ true) ⊎ ZoneAbove t zs)
    unfolding zones_max
    zones_max-above t best [] n = (λ h. inl h, λ h. elim h [ inl b ↦ b | inr a ↦ absurd a ])
    zones_max-above t best (z ∷ zs) n =
        let x = z.temperature_celsius in
        let ih = zones_max-above t (max_of best x) zs (max_of_number laws best x n) in
        (
          λ h. elim (ih.0 h) [
            | inr a ↦ inr (inr a)
            | inl m ↦ elim (lt-max_of laws t best x n m) [ inl b ↦ inl b | inr c ↦ inr (inl c) ]
          ],
          λ h. ih.1 (elim h [
            | inl b ↦ inl (lt-max_of_left laws t best x b)
            | inr (inl c) ↦ inl (lt-max_of_right laws t best x n c)
            | inr (inr a) ↦ inr a
          ]),
        )

    gpu_max-above :
        (t best : W) (g : Option (GpuSnapshot W))
        → is_nan best ≡ false
        → ((lt t (gpu_max best g) ≡ true) ↔ ((lt t best ≡ true) ⊎ GpuAbove t g))
          × (is_nan (gpu_max best g) ≡ false)
    unfolding gpu_max
    gpu_max-above t best none n = ((λ h. inl h, λ h. elim h [ inl b ↦ b | inr a ↦ absurd a ]), n)
    gpu_max-above t best (some g) n =
        let x = g.temperature_celsius in
        (
          (
            λ h. lt-max_of laws t best x n h,
            λ h. elim h [
              | inl b ↦ lt-max_of_left laws t best x b
              | inr c ↦ lt-max_of_right laws t best x n c
            ],
          ),
          max_of_number laws best x n,
        )

    thermal_max-above :
        (t best : W) (th : Option (ThermalSnapshot W))
        → is_nan best ≡ false
        → (lt t (thermal_max best th) ≡ true) ↔ ((lt t best ≡ true) ⊎ ThermalAbove t th)
    unfolding thermal_max
    thermal_max-above t best none n = (λ h. inl h, λ h. elim h [ inl b ↦ b | inr a ↦ absurd a ])
    thermal_max-above t best (some th) n = zones_max-above t best th.zones n

    -- The hottest reading is above a bound of whole degrees exactly when a sensor reads above it,
    -- also where other sensors report no number.
    pub max_temp-above :
        (t : ℕ) (s : MetricSnapshot W)
        → t < 10 ^ 15
        → (lt (lit t 0) (max_temp s) ≡ true)
          ↔ (GpuAbove (lit t 0) s.gpu ⊎ ThermalAbove (lit t 0) s.thermal)
    unfolding max_temp
    max_temp-above t s b =
        let start = laws.lit_number 0 0 in
        let g = gpu_max-above (lit t 0) zero_double s.gpu start in
        let th = thermal_max-above (lit t 0) (gpu_max zero_double s.gpu) s.thermal g.1 in
        let cold : lt (lit t 0) zero_double ≡ false =
          laws.lit-lt t 0 0 b (omega arith) (omega arith) ∙ (ground arith) in
        (
          λ h. elim (th.0 h) [
            | inr a ↦ inr a
            | inl m ↦ elim (g.0.0 m) [ inl z ↦ absurd (cc) | inr a ↦ inl a ]
          ],
          λ h. th.1 (elim h [ inl a ↦ inl (g.0.1 (inr a)) | inr a ↦ inr a ]),
        )

    pub max_temp-sensor_above :
        (s : MetricSnapshot W)
        → lt (lit 75 0) (max_temp s) ≡ sensor_above (lit 75 0) s.gpu s.thermal
    max_temp-sensor_above s =
        let m = max_temp-above 75 s (omega arith) in
        let a = sensor_above_iff (lit 75 0) s.gpu s.thermal in
        same_bool _ _ (λ h. a.0 (m.0 h), λ h. m.1 (a.1 h))
