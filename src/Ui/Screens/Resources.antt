-- ===== src/Ui/Screens/Resources.antt =====
-- ui/dashboard.cpp: the screens CpuCores and MemoryAndDisk. `left` says whether std::left was written
-- to std::cout before, which stays in force.
use sys_scope.Base.{
  ℕ, Bool, true, List, [], ◌∷◌, ◌++◌, Option, none, some, Text, codes, to_string, pad_left,
  pad_right, if◌then◌else◌, Double,
}
use sys_scope.Core.Snapshot.{
  MetricSnapshot, CoreCpuSnapshot, DiskSnapshot, DiskBlockDeviceInfo, ThermalSnapshot,
  ThermalZoneInfo,
}
use sys_scope.Util.{format_metric, format_bytes, format_frequency_khz}
use sys_scope.Ui.Screens.{
  Env, cpu_cores, memory_and_disk, concat, newline, reset, bold, cyan, metric, load_color,
  make_progress_bar, render_header, render_footer,
}

-- `std::setw(k)`
abbrev pub pad : Bool → ℕ → Text → Text
pad left k s = if left then pad_right k s else pad_left k s

memory_line : (W : Type 0) ⦃d : Double W⦄ → Text → ℕ → Text
memory_line W label bytes = label ++ (format_bytes W bytes ++ newline)

module _ {W : Type 0} ⦃d : Double W⦄ where
  open d use {lit, mul, div}

  pub core_line : Bool → CoreCpuSnapshot W → Text
  core_line left core = concat (
      codes "  Core "
      ∷ pad left 2 (to_string core.core_id)
      ∷ codes " "
      ∷ load_color core.total_utilization (lit 80 0) (lit 50 0)
      ∷ make_progress_bar core.total_utilization 20
      ∷ codes " "
      ∷ metric core.total_utilization
      ∷ codes "%"
      ∷ reset
      ∷ codes " (User: "
      ∷ metric core.user_percent
      ∷ codes "% | Sys: "
      ∷ metric core.system_percent
      ∷ codes "% | Freq: "
      ∷ format_frequency_khz W core.frequency_khz
      ∷ codes ")"
      ∷ newline
      ∷ [])

  pub core_lines : Bool → List (CoreCpuSnapshot W) → Text
  unfolding core_line
  core_lines left [] = []
  core_lines left (c ∷ cs) = core_line left c ++ core_lines left cs

  pub render_cpu_cores : Env W → Bool → MetricSnapshot W → Text
  unfolding core_lines
  render_cpu_cores env left snapshot = concat (
      render_header env snapshot cpu_cores
      ∷ bold
      ∷ codes "PER-CORE CPU BREAKDOWN:"
      ∷ reset
      ∷ newline
      ∷ newline
      ∷ core_lines left snapshot.cpu.per_core
      ∷ render_footer env snapshot cpu_cores
      ∷ [])

  pub device_line : DiskBlockDeviceInfo W → Text
  device_line dev =
      let mb = mul (lit 1024 0) (lit 1024 0) in
      concat (
        pad_right 12 dev.device_name
        ∷ pad_right 14 (metric (div dev.read_bytes_per_sec mb))
        ∷ pad_right 14 (metric (div dev.write_bytes_per_sec mb))
        ∷ pad_right 12 (format_metric dev.read_iops 0)
        ∷ pad_right 12 (format_metric dev.write_iops 0)
        ∷ pad_right 10 (to_string dev.queue_depth)
        ∷ pad_right 10 (metric dev.io_utilization_percent)
        ∷ codes "%"
        ∷ newline
        ∷ [])

  pub device_lines : List (DiskBlockDeviceInfo W) → Text
  unfolding device_line
  device_lines [] = []
  device_lines (x ∷ xs) = device_line x ++ device_lines xs

  pub disk_table : List (DiskBlockDeviceInfo W) → Text
  unfolding device_lines
  disk_table devices = concat (
      bold
      ∷ codes "DISK BLOCK I/O TELEMETRY:"
      ∷ reset
      ∷ newline
      ∷ cyan
      ∷ pad_right 12 (codes "DEVICE")
      ∷ pad_right 14 (codes "READ MB/s")
      ∷ pad_right 14 (codes "WRITE MB/s")
      ∷ pad_right 12 (codes "READ IOPS")
      ∷ pad_right 12 (codes "WRITE IOPS")
      ∷ pad_right 10 (codes "QUEUE")
      ∷ pad_right 10 (codes "UTIL %")
      ∷ reset
      ∷ newline
      ∷ device_lines devices
      ∷ newline
      ∷ [])

  -- The text, and whether std::left is in force behind it.
  pub disk_section : Bool → Option (DiskSnapshot W) → Text × Bool
  unfolding disk_table
  disk_section left none = ([], left)
  disk_section left (some disk) = elim disk.devices [
    | [] ↦ ([], left)
    | x ∷ xs ↦ (disk_table (x ∷ xs), true)
  ]

  pub zone_line : Bool → ThermalZoneInfo W → Text
  zone_line left zone = concat (
      codes "  "
      ∷ pad left 16 zone.name
      ∷ codes " ("
      ∷ zone.type
      ∷ codes "): "
      ∷ metric zone.temperature_celsius
      ∷ codes " °C"
      ∷ newline
      ∷ [])

  pub zone_lines : Bool → List (ThermalZoneInfo W) → Text
  unfolding zone_line
  zone_lines left [] = []
  zone_lines left (z ∷ zs) = zone_line left z ++ zone_lines left zs

  pub thermal_section : Bool → Option (ThermalSnapshot W) → Text
  unfolding zone_lines
  thermal_section left none = []
  thermal_section left (some thermal) =
      concat
        (bold ∷ codes "THERMAL SENSORS:" ∷ reset ∷ newline ∷ zone_lines left thermal.zones ∷ [])

  pub render_memory_disk : Env W → Bool → MetricSnapshot W → Text × Bool
  unfolding memory_line disk_section thermal_section
  render_memory_disk env left snapshot =
      let (disks, left_after) = disk_section left snapshot.disk in
      let memory = snapshot.memory in
      (
        concat (
            render_header env snapshot memory_and_disk
            ∷ bold
            ∷ codes "MEMORY & SWAP ACCOUNTING:"
            ∷ reset
            ∷ newline
            ∷ memory_line W (codes "  Total RAM:     ") memory.total_bytes
            ∷ memory_line W (codes "  Used RAM:      ") memory.used_bytes
            ∷ memory_line W (codes "  Available RAM: ") memory.available_bytes
            ∷ memory_line W (codes "  Cached RAM:    ") memory.cached_bytes
            ∷ memory_line W (codes "  Swap Total:    ") memory.swap_total_bytes
            ∷ memory_line W (codes "  Swap Used:     ") memory.swap_used_bytes
            ∷ newline
            ∷ disks
            ∷ thermal_section left_after snapshot.thermal
            ∷ render_footer env snapshot memory_and_disk
            ∷ []),
        left_after,
      )
