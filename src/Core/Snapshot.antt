-- ===== src/Core/Snapshot.antt =====
-- include/sysscope/core/snapshot.hpp and metric.hpp, over the type `W` of doubles. A Timestamp is
-- its nanoseconds. Each `blank_…` is the value `T{}`.
use sys_scope.Base.{ℕ, List, [], Option, none, Text, ℤ, Double}
use sys_scope.Core.Types.{MetricType, MetricUnit, Source}

pub record MetricSample (W : Type 0) : Type 0 where
  pub timestamp : ℕ
  pub type : MetricType
  pub entity : Text
  pub value : W
  pub unit : MetricUnit
  pub source : Source

pub record CoreCpuSnapshot (W : Type 0) : Type 0 where
  pub core_id : ℕ
  pub total_utilization : W
  pub user_percent : W
  pub system_percent : W
  pub iowait_percent : W
  pub frequency_khz : ℕ

pub record CpuSnapshot (W : Type 0) : Type 0 where
  pub total_utilization : W
  pub user_percent : W
  pub system_percent : W
  pub iowait_percent : W
  pub irq_percent : W
  pub softirq_percent : W
  pub steal_percent : W
  pub per_core : List (CoreCpuSnapshot W)

pub record MemorySnapshot (W : Type 0) : Type 0 where
  pub total_bytes : ℕ
  pub available_bytes : ℕ
  pub free_bytes : ℕ
  pub used_bytes : ℕ
  pub cached_bytes : ℕ
  pub buffers_bytes : ℕ
  pub swap_total_bytes : ℕ
  pub swap_free_bytes : ℕ
  pub swap_used_bytes : ℕ
  pub utilization_percent : W

pub record ProcessInfo (W : Type 0) : Type 0 where
  pub pid : ℤ
  pub ppid : ℤ
  pub name : Text
  pub cmdline : Text
  pub state : ℕ
  pub cpu_percent : W
  pub rss_bytes : ℕ
  pub vms_bytes : ℕ
  pub threads : ℕ
  pub utime : ℕ
  pub stime : ℕ
  pub start_time : ℕ

pub record ProcessSnapshot (W : Type 0) : Type 0 where
  pub total_processes : ℕ
  pub running_processes : ℕ
  pub process_list : List (ProcessInfo W)

pub record GpuSnapshot (W : Type 0) : Type 0 where
  pub name : Text
  pub utilization_percent : W
  pub memory_utilization_percent : W
  pub memory_used_bytes : ℕ
  pub memory_total_bytes : ℕ
  pub temperature_celsius : W
  pub power_watts : W

pub record NetworkInterfaceInfo (W : Type 0) : Type 0 where
  pub interface_name : Text
  pub rx_bytes_per_sec : W
  pub tx_bytes_per_sec : W
  pub rx_packets_per_sec : W
  pub tx_packets_per_sec : W
  pub rx_errors : ℕ
  pub tx_errors : ℕ
  pub rx_drops : ℕ
  pub tx_drops : ℕ

pub record NetworkSnapshot (W : Type 0) : Type 0 where
  pub interfaces : List (NetworkInterfaceInfo W)

pub record ThermalZoneInfo (W : Type 0) : Type 0 where
  pub name : Text
  pub type : Text
  pub temperature_celsius : W

pub record ThermalSnapshot (W : Type 0) : Type 0 where
  pub zones : List (ThermalZoneInfo W)

pub record DiskBlockDeviceInfo (W : Type 0) : Type 0 where
  pub device_name : Text
  pub read_iops : W
  pub write_iops : W
  pub read_bytes_per_sec : W
  pub write_bytes_per_sec : W
  pub io_utilization_percent : W
  pub queue_depth : ℕ

pub record DiskSnapshot (W : Type 0) : Type 0 where
  pub devices : List (DiskBlockDeviceInfo W)

pub record PsiPressureValues (W : Type 0) : Type 0 where
  pub avg10 : W
  pub avg60 : W
  pub avg300 : W
  pub total_microseconds : ℕ

pub record PsiSnapshot (W : Type 0) : Type 0 where
  pub cpu_some : PsiPressureValues W
  pub memory_some : PsiPressureValues W
  pub memory_full : PsiPressureValues W
  pub io_some : PsiPressureValues W
  pub io_full : PsiPressureValues W

pub record MetricSnapshot (W : Type 0) : Type 0 where
  pub timestamp : ℕ
  pub cpu : CpuSnapshot W
  pub memory : MemorySnapshot W
  pub processes : ProcessSnapshot W
  pub gpu : Option (GpuSnapshot W)
  pub network : Option (NetworkSnapshot W)
  pub thermal : Option (ThermalSnapshot W)
  pub disk : Option (DiskSnapshot W)
  pub psi : Option (PsiSnapshot W)

module _ {W : Type 0} ⦃d : Double W⦄ where
  -- The member initialisers `{0.0}`.
  abbrev pub zero_double : W
  zero_double = d.lit 0 0

  abbrev pub blank_cpu : CpuSnapshot W
  blank_cpu = record {
    total_utilization = zero_double;
    user_percent = zero_double;
    system_percent = zero_double;
    iowait_percent = zero_double;
    irq_percent = zero_double;
    softirq_percent = zero_double;
    steal_percent = zero_double;
    per_core = [];
  }

  abbrev pub blank_core : CoreCpuSnapshot W
  blank_core = record {
    core_id = 0;
    total_utilization = zero_double;
    user_percent = zero_double;
    system_percent = zero_double;
    iowait_percent = zero_double;
    frequency_khz = 0;
  }

  abbrev pub blank_pressure : PsiPressureValues W
  blank_pressure = record {
    avg10 = zero_double;
    avg60 = zero_double;
    avg300 = zero_double;
    total_microseconds = 0;
  }

  abbrev pub blank_psi : PsiSnapshot W
  blank_psi = record {
    cpu_some = blank_pressure;
    memory_some = blank_pressure;
    memory_full = blank_pressure;
    io_some = blank_pressure;
    io_full = blank_pressure;
  }

  abbrev pub blank_memory : MemorySnapshot W
  blank_memory = record {
    total_bytes = 0;
    available_bytes = 0;
    free_bytes = 0;
    used_bytes = 0;
    cached_bytes = 0;
    buffers_bytes = 0;
    swap_total_bytes = 0;
    swap_free_bytes = 0;
    swap_used_bytes = 0;
    utilization_percent = zero_double;
  }

  -- `MetricSnapshot snapshot{}; snapshot.timestamp = Timestamp::now();`
  abbrev pub blank_snapshot : ℕ → MetricSnapshot W
  blank_snapshot now = record {
    timestamp = now;
    cpu = blank_cpu;
    memory = blank_memory;
    processes = record { total_processes = 0; running_processes = 0; process_list = [] };
    gpu = none;
    network = none;
    thermal = none;
    disk = none;
    psi = none;
  }
