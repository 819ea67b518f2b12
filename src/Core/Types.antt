-- ===== src/Core/Types.antt =====
-- include/sysscope/core/types.hpp: the enumerations and their texts.
use sys_scope.Base.{Text, codes}

pub data MetricType : Type 0 where
  cpu_utilization cpu_user_percent cpu_system_percent cpu_iowait_percent : MetricType
  cpu_frequency memory_utilization memory_total memory_available memory_free : MetricType
  memory_cached memory_buffers swap_utilization process_cpu process_rss_memory : MetricType
  process_vms_memory process_threads gpu_utilization gpu_memory_utilization : MetricType
  gpu_memory_used gpu_temperature gpu_power network_rx_rate network_tx_rate : MetricType
  network_rx_errors network_tx_errors disk_read_iops disk_write_iops : MetricType
  disk_read_throughput disk_write_throughput disk_io_utilization temperature : MetricType
  power_consumption psi_cpu_some psi_memory_some psi_memory_full psi_io_some : MetricType
  psi_io_full : MetricType

-- `to_string(MetricType)`
unfoldable pub metric_name : MetricType → Text
metric_name cpu_utilization = codes "CpuUtilization"
metric_name cpu_user_percent = codes "CpuUserPercent"
metric_name cpu_system_percent = codes "CpuSystemPercent"
metric_name cpu_iowait_percent = codes "CpuIoWaitPercent"
metric_name cpu_frequency = codes "CpuFrequency"
metric_name memory_utilization = codes "MemoryUtilization"
metric_name memory_total = codes "MemoryTotal"
metric_name memory_available = codes "MemoryAvailable"
metric_name memory_free = codes "MemoryFree"
metric_name memory_cached = codes "MemoryCached"
metric_name memory_buffers = codes "MemoryBuffers"
metric_name swap_utilization = codes "SwapUtilization"
metric_name process_cpu = codes "ProcessCpu"
metric_name process_rss_memory = codes "ProcessRssMemory"
metric_name process_vms_memory = codes "ProcessVmsMemory"
metric_name process_threads = codes "ProcessThreads"
metric_name gpu_utilization = codes "GpuUtilization"
metric_name gpu_memory_utilization = codes "GpuMemoryUtilization"
metric_name gpu_memory_used = codes "GpuMemoryUsed"
metric_name gpu_temperature = codes "GpuTemperature"
metric_name gpu_power = codes "GpuPower"
metric_name network_rx_rate = codes "NetworkRxRate"
metric_name network_tx_rate = codes "NetworkTxRate"
metric_name network_rx_errors = codes "NetworkRxErrors"
metric_name network_tx_errors = codes "NetworkTxErrors"
metric_name disk_read_iops = codes "DiskReadIops"
metric_name disk_write_iops = codes "DiskWriteIops"
metric_name disk_read_throughput = codes "DiskReadThroughput"
metric_name disk_write_throughput = codes "DiskWriteThroughput"
metric_name disk_io_utilization = codes "DiskIoUtilization"
metric_name temperature = codes "Temperature"
metric_name power_consumption = codes "PowerConsumption"
metric_name psi_cpu_some = codes "PsiCpuSome"
metric_name psi_memory_some = codes "PsiMemorySome"
metric_name psi_memory_full = codes "PsiMemoryFull"
metric_name psi_io_some = codes "PsiIoSome"
metric_name psi_io_full = codes "PsiIoFull"

pub data MetricUnit : Type 0 where
  percent bytes kilobytes megabytes gigabytes bytes_per_sec megabytes_per_sec : MetricUnit
  packets_per_sec iops celsius watts hertz kilohertz megahertz count microseconds : MetricUnit

-- `to_string(Unit)`
unfoldable pub unit_name : MetricUnit → Text
unit_name percent = codes "%"
unit_name bytes = codes "B"
unit_name kilobytes = codes "KB"
unit_name megabytes = codes "MB"
unit_name gigabytes = codes "GB"
unit_name bytes_per_sec = codes "B/s"
unit_name megabytes_per_sec = codes "MB/s"
unit_name packets_per_sec = codes "pkt/s"
unit_name iops = codes "IOPS"
unit_name celsius = codes "°C"
unit_name watts = codes "W"
unit_name hertz = codes "Hz"
unit_name kilohertz = codes "kHz"
unit_name megahertz = codes "MHz"
unit_name count = codes "cnt"
unit_name microseconds = codes "us"

pub data Source : Type 0 where
  procfs sysfs netlink nvml qualcomm hwmon mock : Source

-- `to_string(Source)`
unfoldable pub source_name : Source → Text
source_name procfs = codes "procfs"
source_name sysfs = codes "sysfs"
source_name netlink = codes "netlink"
source_name nvml = codes "nvml"
source_name qualcomm = codes "qualcomm"
source_name hwmon = codes "hwmon"
source_name mock = codes "mock"
