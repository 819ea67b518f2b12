-- ===== src/Collectors/Thermal.antt =====
-- collectors/thermal.hpp and thermal.cpp: the zones of /sys/class/thermal.
pub mod Degrees
mod Tests
use sys_scope.Base.{
  ℕ, ◌≡◌, Bool, List, [], ◌∷◌, ◌++◌, Option, none, some, Text, codes, starts_with, pop_back_if,
  if◌then◌else◌, Double,
}
use sys_scope.Core.Result.{Result, ok, error}
use sys_scope.Core.Snapshot.{ThermalSnapshot, ThermalZoneInfo}
use sys_scope.Platform.Files.{Reader}

abbrev zone_path : Text → Text → Text
zone_path name file = codes "/sys/class/thermal/" ++ (name ++ file)

module _ {W : Type 0} ⦃d : Double W⦄ where
  open d use {lit, div, lt, stod}

  -- Above 1000 a reading is taken for thousandths of a degree.
  pub celsius_of : W → W
  celsius_of raw = if lt (lit 1000 0) raw then div raw (lit 1000 0) else raw

  pub zone_at : Text → Text → Option W → Option (ThermalZoneInfo W)
  zone_at name kind none = none
  zone_at name kind (some raw) =
      some
        (record { name = name; type = pop_back_if 10 kind; temperature_celsius = celsius_of raw })

  -- Both files must be readable, and the temperature a number.
  pub zone_of : Text → Result Text → Result Text → Option (ThermalZoneInfo W)
  unfolding zone_at
  zone_of name (error e) temp = none
  zone_of name (ok kind) (error e) = none
  zone_of name (ok kind) (ok temp) = zone_at name kind (stod temp)

  read_zone : Reader → Text → Option (ThermalZoneInfo W)
  read_zone fs name =
      if starts_with (codes "thermal_zone") name
      then zone_of name (fs.read_file_contents (zone_path name (codes "/type")))
          (fs.read_file_contents (zone_path name (codes "/temp")))
      else none

  add_zone : Option (ThermalZoneInfo W) → List (ThermalZoneInfo W) → List (ThermalZoneInfo W)
  add_zone none zones = zones
  add_zone (some z) zones = zones ++ (z ∷ [])

  scan_zones : Reader → List Text → List (ThermalZoneInfo W) → List (ThermalZoneInfo W)
  unfolding add_zone
  scan_zones fs [] zones = zones
  scan_zones fs (n ∷ ns) zones = scan_zones fs ns (add_zone (read_zone fs n) zones)

  pub collect_names : Reader → Result (List Text) → Result (ThermalSnapshot W)
  collect_names fs (error e) = error e
  collect_names fs (ok ns) = ok (record { zones = scan_zones fs ns [] })

  pub collect : Reader → Result (ThermalSnapshot W)
  unfolding collect_names
  collect fs = collect_names fs (fs.list_directory_entries (codes "/sys/class/thermal"))
