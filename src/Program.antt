-- ===== src/Program.antt =====
-- src/main.cpp: what the program prints or starts for its arguments.
pub mod Arguments
use sys_scope.Base.{
  ℕ, Bool, true, false, not, List, [], ◌∷◌, ◌++◌, Text, codes, text_eq, if◌then◌else◌, Double,
}
use sys_scope.Core.Timestamp.{to_iso_string}
use sys_scope.Platform.Devices.{PlatformCapabilities, summarize}
use sys_scope.Platform.Host.{is_linux_platform, get_platform_name}
use sys_scope.Analytics.Profiler.{ProfileReport}
use sys_scope.Util.{format_metric, format_bytes}
use sys_scope.Ui.Screens.{Env, concat, newline}

-- The text that is printed, or the start of the interactive dashboard.
pub data Started : Type 0 where
  prints : Text → Started
  dashboard : Started

-- `PlatformCapabilities caps;`
abbrev no_capabilities : PlatformCapabilities
no_capabilities = record {
  cpu = false;
  memory = false;
  process = false;
  network = false;
  disk = false;
  thermal = false;
  psi = false;
  nvidia_gpu = false;
  qualcomm_gpu = false;
  npu = false;
  dsp = false;
  power = false;
}

abbrev double_rule : Text
double_rule = codes "===============================================================" ++ newline

abbrev single_rule : Text
single_rule = codes "---------------------------------------------------------------" ++ newline

-- A line of literal text.
abbrev line : Text → Text
line s = s ++ newline

-- The command: its words with a space between.
pub joined : Text → List Text → Text
joined cmd [] = cmd
joined cmd (w ∷ ws) = joined (cmd ++ (32 ∷ w)) ws

module _ {W : Type 0} ⦃d : Double W⦄ (env : Env W) where
  pub print_banner : Text
  unfolding concat
  print_banner = concat (
      double_rule
      ∷ line (codes " SysScope: Linux System Observability & Performance Diagnostics")
      ∷ codes " Version: "
      ∷ env.version
      ∷ codes " | C++20 | Target: "
      ∷ get_platform_name env.host
      ∷ newline
      ∷ double_rule
      ∷ newline
      ∷ [])

  pub monitor_text : Text
  unfolding print_banner
  monitor_text = concat (
      print_banner
      ∷ line (codes "SysScope Telemetry Engine Self-Monitoring Benchmark")
      ∷ line (codes "====================================================")
      ∷ newline
      ∷ line (codes "Sampling Rates:")
      ∷ line (codes "  CPU Collector:        100 ms")
      ∷ line (codes "  Memory Collector:     500 ms")
      ∷ line (codes "  Process Collector:    500 ms")
      ∷ line (codes "  Thermal Collector:    2000 ms")
      ∷ newline
      ∷ line (codes "Runtime Footprint:")
      ∷ line (codes "  CPU Overhead:         0.18%")
      ∷ line (codes "  Peak RSS Memory:      14.2 MB")
      ∷ line (codes "  Active Threads:       4")
      ∷ newline
      ∷ line (codes "Telemetry Engine Benchmark:")
      ∷ line (codes "  Samples Processed:    1,420")
      ∷ line (codes "  Queue Drops:          0")
      ∷ line (codes "  Median Latency:       0.12 ms")
      ∷ line (codes "  P99 Latency:          0.45 ms")
      ∷ newline
      ∷ codes "Status: EXCELLENT [✓] Telemetry overhead remains <0.2% CPU and <15MB RSS."
      ∷ newline
      ∷ [])

  labelled_percent : Text → W → Text
  labelled_percent label x = label ++ (format_metric x 2 ++ line (codes "%"))

  pub telemetry_lines : ProfileReport W → Text
  unfolding labelled_percent
  telemetry_lines report =
      if is_linux_platform env.host
      then concat (
          labelled_percent (codes "Avg CPU Util:     ") report.avg_cpu_percent
          ∷ labelled_percent (codes "Peak CPU Util:    ") report.peak_cpu_percent
          ∷ codes "Memory Peak RSS:  "
          ∷ line (format_bytes W report.peak_rss_bytes)
          ∷ codes "Memory Growth:    "
          ∷ line (format_bytes W report.memory_growth_bytes)
          ∷ labelled_percent (codes "Peak PSI CPU:     ") report.peak_psi_cpu_some
          ∷ labelled_percent (codes "Peak PSI Mem:     ") report.peak_psi_memory_some
          ∷ labelled_percent (codes "Peak PSI I/O:     ") report.peak_psi_io_some
          ∷ [])
      else concat (
          codes "Linux Telemetry:  UNAVAILABLE ("
          ∷ get_platform_name env.host
          ∷ line (codes " Host)")
          ∷ [])

  pub profile_text : Text → ProfileReport W → Text
  unfolding telemetry_lines
  profile_text cmd report = concat (
      print_banner
      ∷ codes "Profiling Workload: "
      ∷ line cmd
      ∷ newline
      ∷ line (codes "Application Performance Execution Report")
      ∷ line (codes "----------------------------------------")
      ∷ codes "Command:          "
      ∷ line report.command
      ∷ codes "Duration:         "
      ∷ format_metric report.duration_seconds 2
      ∷ line (codes " s")
      ∷ telemetry_lines report
      ∷ codes "Diagnosis:        "
      ∷ line report.summary_diagnosis
      ∷ [])

  module _ (now : ℕ) (profile_command : Text → ProfileReport W) where
    pub notice_text : Text
    notice_text = concat (
        print_banner
        ∷ codes "Initialization Time: "
        ∷ line (to_iso_string env.localtime now)
        ∷ newline
        ∷ line (summarize no_capabilities)
        ∷ single_rule
        ∷ codes " [NOTICE] Running on non-Linux host ("
        ∷ get_platform_name env.host
        ∷ line (codes ").")
        ∷ line (codes " Live kernel VFS telemetry (/proc, /sys, PSI, Netlink) requires")
        ∷ line (codes " a native Linux kernel environment or WSL2 (Ubuntu).")
        ∷ line (codes " Unit test suite & mock VFS fixture engine are fully functional.")
        ∷ single_rule
        ∷ newline
        ∷ [])

    -- Without a command of its own: the notice, or the dashboard.
    pub plain_start : Started
    unfolding notice_text
    plain_start = if not (is_linux_platform env.host) then prints notice_text else dashboard

    -- `argv[1]` and what follows it, with the report that the profiler gives for a command.
    pub with_command : Text → List Text → Started
    unfolding profile_text joined plain_start
    with_command command [] = plain_start
    with_command command (w ∷ ws) =
        if text_eq command (codes "profile")
        then prints (profile_text (joined w ws) (profile_command (joined w ws)))
        else plain_start

    -- `argv`, the program's name first.
    pub main : List Text → Started
    unfolding monitor_text with_command
    main [] = plain_start
    main (program ∷ []) = plain_start
    main (program ∷ command ∷ rest) =
        if text_eq command (codes "monitor") then prints monitor_text else with_command command rest
