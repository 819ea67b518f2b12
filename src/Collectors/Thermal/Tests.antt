-- ===== src/Collectors/Thermal/Tests.antt =====
-- The theorems on the thermal collector at a zone of half a degree.
use sys_scope.Base.{
  ◌≡◌, refl, true, [], ◌∷◌, some, arith, codes, Micro, micro_double, Micro-IsOrdered, pop_back_if,
  micro_stod,
}
use sys_scope.Core.Snapshot.{MetricSnapshot, ThermalZoneInfo}
use sys_scope.Samples.{overheated}
use sys_scope.Collectors.Thermal.{zone_of, zone_at, celsius_of}
use sys_scope.Collectors.Thermal.Degrees.{cold_zone-diagnosed}
use sys_scope.Analytics.Correlation.{thermal_rule, is_some}

abbrev half_degree : ThermalZoneInfo Micro
half_degree = record {
  name = codes "thermal_zone0";
  type = codes "x86";
  temperature_celsius = 500_000_000;
}

abbrev room : ThermalZoneInfo Micro
room = record half_degree { temperature_celsius = 20_000_000 }

abbrev cold : MetricSnapshot Micro
cold = record overheated { thermal = some (record { zones = room ∷ half_degree ∷ room ∷ [] }) }

cold_zone-diagnosed_example : is_some (thermal_rule cold) ≡ true
unfolding zone_of zone_at celsius_of micro_stod pop_back_if
cold_zone-diagnosed_example =
    cold_zone-diagnosed Micro-IsOrdered (codes "thermal_zone0") (codes "x86") (codes "500") 500
      half_degree (room ∷ []) (room ∷ []) cold refl (omega arith) (omega arith) refl refl refl
