-- ===== src/Ui/Screens.antt =====
-- The drawing functions of ui/dashboard.cpp as the text that they write. `Env` is what stands outside
-- the program: the generated version text, the platform, the C library's local time, and std::sort
-- with the comparator `a.cpu_percent > b.cpu_percent`.
pub mod Bar
pub mod Overview
pub mod Processes
pub mod Resources
pub mod Events
mod Tests
use sys_scope.Base.{
  ℕ, zero, suc, ◌+◌, ◌*◌, ◌<◌, ◌≡◌, Bool, true, false, not, ◌&&◌, ◌||◌, List, [], ◌∷◌, ◌++◌, Option,
  none, some, Text, codes, take, length, ltb, ◌==◌, to_string, int_to_string, pad_left, pad_right,
  ℤ, pos, pos_part, if◌then◌else◌, Double, clamp,
}
use sys_scope.Core.Snapshot.{
  MetricSnapshot, CoreCpuSnapshot, ProcessInfo, DiskBlockDeviceInfo, DiskSnapshot, ThermalZoneInfo,
  ThermalSnapshot, PsiSnapshot, zero_double,
}
use sys_scope.Core.Timestamp.{Tm, to_iso_string}
use sys_scope.Platform.Host.{Host, get_platform_name}
use sys_scope.Analytics.Correlation.{Diagnosis, Evidence}
use sys_scope.Util.{format_metric, format_bytes, format_frequency_khz}
use sys_scope.Ui.Terminal.{escape, clear_text}

pub record Env (W : Type 0) : Type 0 where
  pub version : Text
  pub host : Host
  pub localtime : ℕ → Tm
  pub sort : List (ProcessInfo W) → List (ProcessInfo W)

-- enum class DashboardScreen
pub data DashboardScreen : Type 0 where
  overview cpu_cores memory_and_disk processes diagnostics : DashboardScreen

abbrev pub screen_number : DashboardScreen → ℕ
screen_number overview = 1
screen_number cpu_cores = 2
screen_number memory_and_disk = 3
screen_number processes = 4
screen_number diagnostics = 5

-- namespace colors
abbrev pub reset : Text
reset = escape (codes "[0m")

abbrev pub bold : Text
bold = escape (codes "[1m")

abbrev pub red : Text
red = escape (codes "[31m")

abbrev pub green : Text
green = escape (codes "[32m")

abbrev pub yellow : Text
yellow = escape (codes "[33m")

abbrev pub cyan : Text
cyan = escape (codes "[36m")

abbrev pub white : Text
white = escape (codes "[37m")

abbrev pub bg_blue : Text
bg_blue = escape (codes "[44m")

-- A chain of `<<`.
unfoldable pub concat : List Text → Text
concat [] = []
concat (s ∷ ss) = s ++ concat ss

abbrev pub newline : Text
newline = 10 ∷ []

abbrev pub rule_line : Text
rule_line = codes "--------------------------------------------------------------------------------"

-- `i < filled`
abbrev pub below_int : ℕ → ℤ → Bool
below_int i z = ltb i (pos_part z)

-- The loop over the cells from `i`, `n` of them.
pub bar_cells : ℕ → ℕ → ℤ → Text
bar_cells zero i filled = []
bar_cells (suc n) i filled =
    (if below_int i filled then codes "█" else codes "░") ++ bar_cells n (i + 1) filled

tab : DashboardScreen → DashboardScreen → Text → Text
tab active_screen screen label =
    (if screen_number active_screen == screen_number screen then cyan else white)
    ++ (label ++ reset)

module _ {W : Type 0} ⦃d : Double W⦄ where
  open d use {lit, of_u64, add, mul, div, lt, trunc}

  pub make_progress_bar : W → ℕ → Text
  unfolding bar_cells
  make_progress_bar percent width =
      let filled =
        trunc (mul (div (clamp percent (lit 0 0) (lit 100 0)) (lit 100 0)) (of_u64 width)) in
      codes "[" ++ (bar_cells width 0 filled ++ codes "]")

  -- `format_metric(x)` with its default precision
  abbrev pub metric : W → Text
  metric x = format_metric x 2

  -- `x > high ? RED : (x > middle ? YELLOW : GREEN)`
  abbrev pub load_color : W → W → W → Text
  load_color x high middle = if lt high x then red else if lt middle x then yellow else green

  pub render_header : Env W → MetricSnapshot W → DashboardScreen → Text
  unfolding concat
  render_header env snapshot active_screen = concat (
      clear_text
      ∷ bg_blue
      ∷ white
      ∷ bold
      ∷ codes " SYSCOPE v"
      ∷ env.version
      ∷ codes " | Linux System Observability & Performance Diagnostics "
      ∷ reset
      ∷ newline
      ∷ codes "Target OS: "
      ∷ get_platform_name env.host
      ∷ codes " | Time: "
      ∷ to_iso_string env.localtime snapshot.timestamp
      ∷ codes " | Active Screen: "
      ∷ to_string (screen_number active_screen)
      ∷ newline
      ∷ rule_line
      ∷ newline
      ∷ [])

  pub cpu_stall : Option (PsiSnapshot W) → W
  cpu_stall none = lit 0 0
  cpu_stall (some p) = p.cpu_some.avg10

  pub render_footer : Env W → MetricSnapshot W → DashboardScreen → Text
  unfolding concat tab cpu_stall
  render_footer env snapshot active_screen = concat (
      newline
      ∷ rule_line
      ∷ newline
      ∷ bold
      ∷ codes "Status Bar: "
      ∷ reset
      ∷ codes "OS: "
      ∷ get_platform_name env.host
      ∷ codes " | CPU: "
      ∷ metric snapshot.cpu.total_utilization
      ∷ codes "% | RAM: "
      ∷ metric snapshot.memory.utilization_percent
      ∷ codes "% | PSI CPU: "
      ∷ metric (cpu_stall snapshot.psi)
      ∷ codes "% | Telemetry: 100ms | UI: 500ms | Queue Drops: 0"
      ∷ newline
      ∷ rule_line
      ∷ newline
      ∷ bold
      ∷ tab active_screen overview (codes "[1] Overview ")
      ∷ tab active_screen cpu_cores (codes "[2] CPU Cores ")
      ∷ tab active_screen memory_and_disk (codes "[3] Memory/Disk ")
      ∷ tab active_screen processes (codes "[4] Processes ")
      ∷ tab active_screen diagnostics (codes "[5] Diagnostics ")
      ∷ codes "| [r] Refresh | [q] Quit"
      ∷ newline
      ∷ [])

  -- The first `n`: `std::min(procs.size(), n)` rows are printed.
  abbrev pub first_rows : ℕ → List (ProcessInfo W) → List (ProcessInfo W)
  first_rows zero ps = []
  first_rows (suc n) [] = []
  first_rows (suc n) (p ∷ ps) = p ∷ first_rows n ps
