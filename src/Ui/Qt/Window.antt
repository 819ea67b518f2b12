-- ===== src/Ui/Qt/Window.antt =====
-- ui/qt/main_window.cpp: the poll, the navigation and the status bar. The layout of the widgets is Qt's.
pub mod Polled
mod Tests
use sys_scope.Base.{
  ℕ, Bool, List, [], ◌∷◌, ◌++◌, Text, codes, length, ltb, ℤ, pos, negsuc, if◌then◌else◌, Double,
}
use sys_scope.Core.Result.{Result, ok, error}
use sys_scope.Core.Snapshot.{MetricSnapshot, blank_snapshot}
use sys_scope.Platform.Files.{Reader}
use sys_scope.Platform.Host.{Host, get_platform_name}
use sys_scope.Collectors.Cpu
use sys_scope.Collectors.Memory
use sys_scope.Util.{format_metric}
use sys_scope.Ui.Dashboard.{or_keep}
use sys_scope.Ui.Qt.Labels.{Strings}
use sys_scope.Ui.Qt.Telemetry.{Bridge, post_snapshot}

-- The sidebar's items, one for each page of the stack in the same order.
abbrev pub sidebar_items : List Text
sidebar_items =
    codes "Overview Dashboard"
    ∷ codes "CPU Cores Grid"
    ∷ codes "Memory & Disk"
    ∷ codes "PSI Pressure Stalls"
    ∷ codes "Process Explorer"
    ∷ codes "Diagnostics & Incidents"
    ∷ codes "SQLite History"
    ∷ []

pub record MainWindow (W : Type 0) : Type 0 where
  pub bridge : Bridge W
  pub current_page : ℕ
  pub status_label : Text
  pub caps_label : Text

-- `index >= 0 && index < count`
pub on_navigation_changed : {W : Type 0} → ℤ → MainWindow W → MainWindow W
on_navigation_changed (negsuc n) w = w
on_navigation_changed (pos index) w =
    if ltb index (length sidebar_items) then record w { current_page = index } else w

-- `setup_status_bar`
setup_status_bar : {W : Type 0} → Host → MainWindow W → MainWindow W
setup_status_bar host w = record w {
  status_label = codes "System Target: " ++ get_platform_name host;
  caps_label = codes "Capabilities: Thermal [✗] | GPU [✗] | NPU [✗] | DSP [✗] | Net [✓] | Disk [✓]";
}

module _ {W : Type 0} ⦃d : Double W⦄ where
  -- The snapshot of a poll: the collectors are new ones, made for this call.
  pub polled : Reader → ℕ → MetricSnapshot W
  polled fs now =
      let s = blank_snapshot now in
      record s {
        cpu = or_keep (Cpu.collect fs Cpu.fresh).0 s.cpu;
        memory = or_keep (Memory.collect fs) s.memory;
      }

  pub poll_telemetry : Reader → ℕ → MainWindow W → MainWindow W
  unfolding polled
  poll_telemetry fs now w = record w { bridge = post_snapshot (polled fs now) w.bridge }

  on_snapshot_updated : Strings W → Host → MetricSnapshot W → MainWindow W → MainWindow W
  on_snapshot_updated strings host snapshot w = record w {
    status_label =
        strings.arg
          (strings.arg
            (strings.arg
              (codes "Target OS: %1 | CPU: %2% | RAM: %3% | Queue Drops: 0 | Sampling: 100ms")
              (get_platform_name host))
            (format_metric snapshot.cpu.total_utilization 2))
          (format_metric snapshot.memory.utilization_percent 2);
  }
