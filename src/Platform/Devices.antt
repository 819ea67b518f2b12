-- ===== src/Platform/Devices.antt =====
-- platform/accelerator_backend.hpp, the mock of netlink_reader.hpp, and capabilities.hpp with
-- capabilities.cpp.
use sys_scope.Base.{ℕ, Bool, false, List, [], ◌∷◌, ◌++◌, Text, codes, if◌then◌else◌, Double}
use sys_scope.Core.Result.{Result, ok, error}
use sys_scope.Core.Snapshot.{GpuSnapshot}

pub record MockGpuBackend (W : Type 0) : Type 0 where
  pub available : Bool
  pub snapshot : GpuSnapshot W

-- The backends; the two for hardware have no state.
pub data AcceleratorBackend (W : Type 0) : Type 0 where
  mock_gpu : MockGpuBackend W → AcceleratorBackend W
  qualcomm nvidia : AcceleratorBackend W

module _ {W : Type 0} where
  pub backend_name : AcceleratorBackend W → Text
  backend_name (mock_gpu m) = codes "Mock Accelerator Backend"
  backend_name qualcomm = codes "Qualcomm Adreno/Hexagon NPU/DSP Backend"
  backend_name nvidia = codes "NVIDIA NVML Backend"

  pub is_available : AcceleratorBackend W → Bool
  is_available (mock_gpu m) = m.available
  is_available qualcomm = false
  is_available nvidia = false

  pub set_snapshot : GpuSnapshot W → MockGpuBackend W → MockGpuBackend W
  set_snapshot s m = record m { snapshot = s }

  pub collect : AcceleratorBackend W → Result (GpuSnapshot W)
  collect (mock_gpu m) =
      if m.available then ok m.snapshot else error (codes "GPU Backend Unavailable")
  collect qualcomm = error (codes "Qualcomm hardware acceleration requires target SoC environment.")
  collect nvidia = error (codes "NVML library unavailable on host environment.")

-- `MockGpuBackend(available)`
abbrev pub new_mock_gpu : {W : Type 0} ⦃d : Double W⦄ → Bool → MockGpuBackend W
new_mock_gpu ⦃d = d⦄ available = record {
  available = available;
  snapshot = record {
    name = codes "Mock GPU";
    utilization_percent = d.lit 45 0;
    memory_utilization_percent = d.lit 30 0;
    memory_used_bytes = 3_221_225_472;
    memory_total_bytes = 8_589_934_592;
    temperature_celsius = d.lit 62 0;
    power_watts = d.lit 75 0;
  };
}

pub record NetlinkLinkStats : Type 0 where
  pub interface_name : Text
  pub rx_bytes : ℕ
  pub tx_bytes : ℕ
  pub rx_packets : ℕ
  pub tx_packets : ℕ
  pub rx_errors : ℕ
  pub tx_errors : ℕ
  pub rx_drops : ℕ
  pub tx_drops : ℕ

pub record MockNetlinkReader : Type 0 where
  pub available : Bool
  pub mock_links : List NetlinkLinkStats

pub add_mock_link : NetlinkLinkStats → MockNetlinkReader → MockNetlinkReader
add_mock_link s r = record r { mock_links = r.mock_links ++ (s ∷ []) }

pub query_link_stats : MockNetlinkReader → Result (List NetlinkLinkStats)
query_link_stats r =
    if r.available then ok r.mock_links else error (codes "Netlink Socket Unavailable")

pub record PlatformCapabilities : Type 0 where
  pub cpu : Bool
  pub memory : Bool
  pub process : Bool
  pub network : Bool
  pub disk : Bool
  pub thermal : Bool
  pub psi : Bool
  pub nvidia_gpu : Bool
  pub qualcomm_gpu : Bool
  pub npu : Bool
  pub dsp : Bool
  pub power : Bool

-- A line of the summary, with its newline.
capability_line : Text → Bool → Text
capability_line label b =
    label ++ ((if b then codes "AVAILABLE [✓]" else codes "UNAVAILABLE [-]") ++ (10 ∷ []))

pub summarize : PlatformCapabilities → Text
unfolding capability_line
summarize c =
    (codes "Platform Subsystem Capabilities:" ++ (10 ∷ []))
    ++ (capability_line (codes "  CPU Metrics:        ") c.cpu
        ++ (capability_line (codes "  Memory Metrics:     ") c.memory
            ++ (capability_line (codes "  Process Telemetry:  ") c.process
                ++ (capability_line (codes "  Network Link Stats: ") c.network
                    ++ (capability_line (codes "  Disk Block I/O:     ") c.disk
                        ++ (capability_line (codes "  Thermal & Hwmon:    ") c.thermal
                            ++ (capability_line (codes "  PSI Stalls:         ") c.psi
                                ++ (capability_line (codes "  NVIDIA GPU (NVML):  ") c.nvidia_gpu
                                    ++ (capability_line (codes "  Qualcomm GPU/Accel: ")
                                          c.qualcomm_gpu
                                        ++ (capability_line (codes "  NPU Acceleration:   ") c.npu
                                            ++ (capability_line (codes "  DSP Acceleration:   ")
                                                  c.dsp
                                                ++ capability_line (codes "  Power Telemetry:    ")
                                                    c.power)))))))))))
