-- ===== src/Ui/Screens/Overview.antt =====
-- ui/dashboard.cpp: the screen Overview.
use sys_scope.Base.{
  List, [], ◌∷◌, ◌++◌, Option, none, some, Text, codes, take, length, to_string, int_to_string,
  pad_right, Double,
}
use sys_scope.Core.Snapshot.{MetricSnapshot, ProcessInfo, PsiSnapshot}
use sys_scope.Analytics.Correlation.{Diagnosis, Evidence}
use sys_scope.Util.{format_bytes}
use sys_scope.Ui.Screens.{
  Env, overview, concat, newline, reset, bold, red, green, cyan, metric, load_color,
  make_progress_bar, render_header, render_footer, first_rows,
}

module _ {W : Type 0} ⦃d : Double W⦄ where
  open d use {lit, mul}

  pub cpu_section : MetricSnapshot W → Text
  cpu_section snapshot =
      let cpu_util = snapshot.cpu.total_utilization in
      concat (
        bold
        ∷ codes "CPU UTILIZATION: "
        ∷ reset
        ∷ load_color cpu_util (lit 80 0) (lit 50 0)
        ∷ make_progress_bar cpu_util 24
        ∷ codes " "
        ∷ metric cpu_util
        ∷ codes "%"
        ∷ reset
        ∷ codes " ("
        ∷ to_string (length snapshot.cpu.per_core)
        ∷ codes " Cores)"
        ∷ newline
        ∷ codes "  User: "
        ∷ metric snapshot.cpu.user_percent
        ∷ codes "% | System: "
        ∷ metric snapshot.cpu.system_percent
        ∷ codes "% | IO Wait: "
        ∷ metric snapshot.cpu.iowait_percent
        ∷ codes "%"
        ∷ newline
        ∷ newline
        ∷ [])

  pub memory_section : MetricSnapshot W → Text
  memory_section snapshot =
      let mem_util = snapshot.memory.utilization_percent in
      concat (
        bold
        ∷ codes "MEMORY USAGE:    "
        ∷ reset
        ∷ load_color mem_util (lit 80 0) (lit 60 0)
        ∷ make_progress_bar mem_util 24
        ∷ codes " "
        ∷ format_bytes W snapshot.memory.used_bytes
        ∷ codes " / "
        ∷ format_bytes W snapshot.memory.total_bytes
        ∷ codes " ("
        ∷ metric mem_util
        ∷ codes "%)"
        ∷ reset
        ∷ newline
        ∷ codes "  Available: "
        ∷ format_bytes W snapshot.memory.available_bytes
        ∷ codes " | Cached: "
        ∷ format_bytes W snapshot.memory.cached_bytes
        ∷ newline
        ∷ newline
        ∷ [])

  pub psi_lines : Option (PsiSnapshot W) → Text
  psi_lines none = concat (codes "  PSI Metrics: Unavailable" ∷ newline ∷ newline ∷ [])
  psi_lines (some p) = concat (
      codes "  CPU Stall (some avg10):    "
      ∷ metric p.cpu_some.avg10
      ∷ codes "%"
      ∷ newline
      ∷ codes "  Memory Stall (some avg10): "
      ∷ metric p.memory_some.avg10
      ∷ codes "%"
      ∷ newline
      ∷ codes "  I/O Stall (some avg10):    "
      ∷ metric p.io_some.avg10
      ∷ codes "%"
      ∷ newline
      ∷ newline
      ∷ [])

  pub process_row : ProcessInfo W → Text
  process_row p = concat (
      pad_right 8 (int_to_string p.pid)
      ∷ pad_right 20 (take 18 p.name)
      ∷ pad_right 10 (metric p.cpu_percent)
      ∷ pad_right 12 (format_bytes W p.rss_bytes)
      ∷ pad_right 8 (p.state ∷ [])
      ∷ pad_right 8 (to_string p.threads)
      ∷ newline
      ∷ [])

  pub process_rows : List (ProcessInfo W) → Text
  process_rows [] = []
  process_rows (p ∷ ps) = process_row p ++ process_rows ps

  pub process_section : Env W → MetricSnapshot W → Text
  unfolding process_rows
  process_section env snapshot = concat (
      bold
      ∷ codes "TOP PROCESSES (By CPU %):"
      ∷ reset
      ∷ newline
      ∷ cyan
      ∷ pad_right 8 (codes "PID")
      ∷ pad_right 20 (codes "NAME")
      ∷ pad_right 10 (codes "CPU %")
      ∷ pad_right 12 (codes "RSS MEM")
      ∷ pad_right 8 (codes "STATE")
      ∷ pad_right 8 (codes "THREADS")
      ∷ reset
      ∷ newline
      ∷ process_rows (first_rows 5 (env.sort snapshot.processes.process_list))
      ∷ newline
      ∷ [])

  evidence_lines : List (Evidence W) → Text
  evidence_lines [] = []
  evidence_lines (e ∷ es) =
      concat (codes "    • " ∷ e.explanation ∷ newline ∷ []) ++ evidence_lines es

  pub alerts : List (Diagnosis W) → Text
  unfolding evidence_lines
  alerts [] = []
  alerts (x ∷ xs) =
      concat (
        red
        ∷ bold
        ∷ codes "  [ALERT] "
        ∷ x.condition
        ∷ codes " (Confidence: "
        ∷ metric (mul x.confidence (lit 100 0))
        ∷ codes "%)"
        ∷ newline
        ∷ reset
        ∷ evidence_lines x.evidence
        ∷ [])
      ++ alerts xs

  pub health : List (Diagnosis W) → Text
  unfolding alerts
  health [] = concat (
      green
      ∷ bold
      ∷ codes "  ● HEALTHY [✓] "
      ∷ reset
      ∷ codes "No resource contention or thermal degradation detected."
      ∷ newline
      ∷ [])
  health (x ∷ xs) = alerts (x ∷ xs)

  pub render_overview : Env W → MetricSnapshot W → List (Diagnosis W) → Text
  unfolding cpu_section memory_section psi_lines process_section health
  render_overview env snapshot diagnoses = concat (
      render_header env snapshot overview
      ∷ cpu_section snapshot
      ∷ memory_section snapshot
      ∷ bold
      ∷ codes "PRESSURE STALL INFORMATION (PSI):"
      ∷ reset
      ∷ newline
      ∷ psi_lines snapshot.psi
      ∷ process_section env snapshot
      ∷ bold
      ∷ codes "SYSTEM DIAGNOSTICS & HEALTH:"
      ∷ reset
      ∷ newline
      ∷ health diagnoses
      ∷ render_footer env snapshot overview
      ∷ [])
