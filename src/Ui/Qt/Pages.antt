-- ===== src/Ui/Qt/Pages.antt =====
-- ui/qt/pages: the pages for the overview, the CPU cores, the memory and the pressure stalls. Each is the
-- labels, bars and charts that a snapshot sets.
use sys_scope.Base.{
  ℕ, ◌+◌, Bool, true, false, List, [], ◌∷◌, Option, none, some, Text, codes, ℤ, Double,
}
use sys_scope.Core.Snapshot.{MetricSnapshot, CoreCpuSnapshot, PsiSnapshot, PsiPressureValues}
use sys_scope.Util.{format_metric, format_bytes}
use sys_scope.Ui.Qt.Labels.{Strings}
use sys_scope.Ui.Qt.Chart.{TelemetryChart, append_sample}

-- A core's label and bar, shown or hidden together.
pub record CoreBar : Type 0 where
  pub label : Text
  pub value : ℤ
  pub visible : Bool

pub record DashboardPage (W : Type 0) : Type 0 where
  pub cpu_kpi : Text
  pub mem_kpi : Text
  pub cpu_psi_kpi : Text
  pub mem_psi_kpi : Text
  pub io_psi_kpi : Text
  pub cpu_chart : TelemetryChart W
  pub mem_chart : TelemetryChart W

pub record MemoryPage : Type 0 where
  pub total_ram_label : Text
  pub avail_ram_label : Text
  pub used_ram_label : Text
  pub cached_ram_label : Text
  pub swap_label : Text
  pub ram_bar : ℤ

pub record PsiPage : Type 0 where
  pub cpu_some_label : Text
  pub mem_some_label : Text
  pub mem_full_label : Text
  pub io_some_label : Text
  pub io_full_label : Text

hide : CoreBar → CoreBar
hide b = record b { visible = false }

module _ {W : Type 0} ⦃d : Double W⦄ (strings : Strings W) where
  open strings use {arg, arg_int}
  open d use {trunc}

  -- The text of a label with a number to two decimals.
  abbrev labelled : Text → W → Text
  labelled label x = arg label (format_metric x 2)

  core_shown : ℕ → CoreCpuSnapshot W → CoreBar
  core_shown i core = record {
    label = arg (arg_int (codes "Core %1: %2%") i) (format_metric core.total_utilization 2);
    value = trunc core.total_utilization;
    visible = true;
  }

  -- The bars from number `i`: those without a core are hidden.
  pub update_bars : ℕ → List CoreBar → List (CoreCpuSnapshot W) → List CoreBar
  unfolding hide core_shown
  update_bars i [] cores = []
  update_bars i (b ∷ bs) [] = hide b ∷ update_bars (i + 1) bs []
  update_bars i (b ∷ bs) (c ∷ cs) = core_shown i c ∷ update_bars (i + 1) bs cs

  pub update_cpu_page : MetricSnapshot W → List CoreBar → List CoreBar
  unfolding update_bars
  update_cpu_page snapshot bars = update_bars 0 bars snapshot.cpu.per_core

  pub psi_kpis : Option (PsiSnapshot W) → DashboardPage W → DashboardPage W
  psi_kpis none p = record p {
    cpu_psi_kpi = codes "CPU PSI: N/A";
    mem_psi_kpi = codes "MEM PSI: N/A";
    io_psi_kpi = codes "IO PSI: N/A";
  }
  psi_kpis (some s) p = record p {
    cpu_psi_kpi = labelled (codes "CPU PSI: %1%") s.cpu_some.avg10;
    mem_psi_kpi = labelled (codes "MEM PSI: %1%") s.memory_some.avg10;
    io_psi_kpi = labelled (codes "IO PSI: %1%") s.io_some.avg10;
  }

  pub update_dashboard_page : MetricSnapshot W → DashboardPage W → DashboardPage W
  unfolding psi_kpis
  update_dashboard_page snapshot p = psi_kpis snapshot.psi (record p {
    cpu_kpi = labelled (codes "CPU: %1%") snapshot.cpu.total_utilization;
    mem_kpi = labelled (codes "RAM: %1%") snapshot.memory.utilization_percent;
    cpu_chart = append_sample snapshot.cpu.total_utilization p.cpu_chart;
    mem_chart = append_sample snapshot.memory.utilization_percent p.mem_chart;
  })

  abbrev in_bytes : Text → ℕ → Text
  in_bytes label n = arg label (format_bytes W n)

  pub update_memory_page : MetricSnapshot W → MemoryPage
  update_memory_page snapshot = record {
    total_ram_label = in_bytes (codes "Total Physical RAM: %1") snapshot.memory.total_bytes;
    avail_ram_label =
        in_bytes (codes "Available Memory (MemAvailable): %1") snapshot.memory.available_bytes;
    used_ram_label = in_bytes (codes "Used Memory: %1") snapshot.memory.used_bytes;
    cached_ram_label = in_bytes (codes "Buffers / Page Cache: %1") snapshot.memory.cached_bytes;
    swap_label = in_bytes (codes "Swap Space: %1") snapshot.memory.swap_used_bytes;
    ram_bar = trunc snapshot.memory.utilization_percent;
  }

  pressure_label : Text → PsiPressureValues W → Text
  pressure_label label p = labelled (labelled (labelled label p.avg10) p.avg60) p.avg300

  pub psi_labels : Option (PsiSnapshot W) → PsiPage
  unfolding pressure_label
  psi_labels none = record {
    cpu_some_label = codes "CPU Some: N/A (PSI unavailable)";
    mem_some_label = codes "Memory Some: N/A (PSI unavailable)";
    mem_full_label = codes "Memory Full: N/A (PSI unavailable)";
    io_some_label = codes "I/O Some: N/A (PSI unavailable)";
    io_full_label = codes "I/O Full: N/A (PSI unavailable)";
  }
  psi_labels (some s) = record {
    cpu_some_label =
        pressure_label (codes "CPU Some (avg10 / avg60 / avg300): %1% / %2% / %3%") s.cpu_some;
    mem_some_label =
        pressure_label (codes "Memory Some (avg10 / avg60 / avg300): %1% / %2% / %3%")
          s.memory_some;
    mem_full_label =
        pressure_label (codes "Memory Full (avg10 / avg60 / avg300): %1% / %2% / %3%")
          s.memory_full;
    io_some_label =
        pressure_label (codes "I/O Some (avg10 / avg60 / avg300): %1% / %2% / %3%") s.io_some;
    io_full_label =
        pressure_label (codes "I/O Full (avg10 / avg60 / avg300): %1% / %2% / %3%") s.io_full;
  }

  pub update_psi_page : MetricSnapshot W → PsiPage
  unfolding psi_labels
  update_psi_page snapshot = psi_labels snapshot.psi
