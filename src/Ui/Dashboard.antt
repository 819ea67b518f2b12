-- ===== src/Ui/Dashboard.antt =====
-- ui/dashboard.hpp and dashboard.cpp: the state, the collection of a snapshot and the history of
-- events. The interactive loop is in Loop, what is drawn in Screens.
pub mod Loop
pub mod History
pub mod Quit
mod Tests
use sys_scope.Base.{
  ℕ, ◌≡◌, Bool, true, false, ◌||◌, List, [], ◌∷◌, ◌++◌, Option, none, some, Text, codes, map, ◌==◌,
  push_all, if◌then◌else◌, Double,
}
use sys_scope.Core.Result.{Result, ok, error, Outcome, returns, throws}
use sys_scope.Core.Snapshot.{
  MetricSnapshot, CpuSnapshot, MemorySnapshot, ProcessSnapshot, PsiSnapshot, ThermalSnapshot,
  DiskSnapshot, blank_snapshot,
}
use sys_scope.Platform.Files.{Reader}
use sys_scope.Collectors.Cpu
use sys_scope.Collectors.Memory
use sys_scope.Collectors.Process
use sys_scope.Collectors.Psi
use sys_scope.Collectors.Network
use sys_scope.Collectors.Disk
use sys_scope.Collectors.Thermal
use sys_scope.Analytics.Correlation.{Diagnosis, analyze}
use sys_scope.Ui.Terminal.{
  Terminal, Keyboard, write, enable_raw_mode, disable_raw_mode, clear_screen, read_key,
}
use sys_scope.Ui.Screens.{
  Env, DashboardScreen, overview, cpu_cores, memory_and_disk, processes, diagnostics,
}
use sys_scope.Ui.Screens.Overview.{render_overview}
use sys_scope.Ui.Screens.Processes.{render_processes}
use sys_scope.Ui.Screens.Resources.{render_cpu_cores, render_memory_disk}
use sys_scope.Ui.Screens.Events.{render_diagnostics}

-- What the collectors see in one pass: the files, and the readings of the clock.
pub record Look : Type 0 where
  pub files : Reader
  pub now : ℕ
  pub network_now : ℕ
  pub disk_now : ℕ
  pub process_now : Text → ℕ

-- The collectors of memory, PSI and thermal zones keep no state. `left` is std::left of std::cout.
pub record Dashboard (W : Type 0) : Type 0 where
  pub cpu_col : Cpu.CpuCollector
  pub proc_col : Process.ProcessCollector
  pub net_col : Network.NetworkCollector
  pub disk_col : Disk.DiskCollector
  pub current_screen : DashboardScreen
  pub diagnostic_history : List (ℕ × Diagnosis W)
  pub terminal : Terminal
  pub left : Bool

abbrev pub new_dashboard : {W : Type 0} → ℕ → Terminal → Dashboard W
new_dashboard ticks t = record {
  cpu_col = Cpu.fresh;
  proc_col = Process.fresh ticks;
  net_col = Network.fresh;
  disk_col = Disk.fresh;
  current_screen = overview;
  diagnostic_history = [];
  terminal = t;
  left = false;
}

-- `if (res.is_ok()) part = res.value();`
abbrev pub or_keep {ℓ} : {A : Type ℓ} → Result A → A → A
or_keep (ok a) before = a
or_keep (error m) before = before

abbrev pub or_keep_some {ℓ} : {A : Type ℓ} → Result A → Option A → Option A
or_keep_some (ok a) before = some a
or_keep_some (error m) before = before

module _ {W : Type 0} ⦃d : Double W⦄ where
  -- `(void)net_col_.collect(); (void)disk_col_.collect();`
  rest_baselines : Look → Dashboard W → Dashboard W
  rest_baselines look db = record db {
    net_col = (Network.collect {W = W} look.files look.network_now db.net_col).1;
    disk_col = (Disk.collect {W = W} look.files look.disk_now db.disk_col).1;
  }

  after_process_baseline :
      {A : Type 0} → Look → Outcome A → Dashboard W → Outcome (Unit {0}) × Dashboard W
  unfolding rest_baselines
  after_process_baseline look (throws m) db = (throws m, db)
  after_process_baseline look (returns a) db = (returns tt, rest_baselines look db)

  -- The four calls that only set baselines. The process collector may throw.
  pub collect_baselines : Look → Dashboard W → Outcome (Unit {0}) × Dashboard W
  unfolding after_process_baseline
  collect_baselines look db =
      let (o, proc) = Process.collect {W = W} look.files look.process_now db.proc_col in
      after_process_baseline look o
        (record db { cpu_col = (Cpu.collect {W = W} look.files db.cpu_col).1; proc_col = proc })

  after_processes :
      Look
      → Outcome (Result (ProcessSnapshot W))
      → MetricSnapshot W
      → Dashboard W
      → Outcome (MetricSnapshot W) × Dashboard W
  after_processes look (throws m) s db = (throws m, db)
  after_processes look (returns r) s db =
      let (disk, disk_col) = Disk.collect look.files look.disk_now db.disk_col in
      (
        returns (record s {
          processes = or_keep r s.processes;
          psi = or_keep_some (Psi.collect look.files) s.psi;
          thermal = or_keep_some (Thermal.collect look.files) s.thermal;
          disk = or_keep_some disk s.disk;
        }),
        record db { disk_col = disk_col },
      )

  -- The snapshot: CPU, memory, processes, PSI, thermal zones, disks. No network and no GPU.
  pub collect_snapshot : Look → Dashboard W → Outcome (MetricSnapshot W) × Dashboard W
  unfolding after_processes
  collect_snapshot look db =
      let s = blank_snapshot look.now in
      let (cpu, cpu_col) = Cpu.collect look.files db.cpu_col in
      let (o, proc) = Process.collect look.files look.process_now db.proc_col in
      after_processes look o
        (record s {
          cpu = or_keep cpu s.cpu;
          memory = or_keep (Memory.collect look.files) s.memory;
        })
        (record db { cpu_col = cpu_col; proc_col = proc })

  -- `push_back({timestamp, diag})`, and the oldest event goes when there are more than 50.
  pub record_diagnoses : ℕ → List (Diagnosis W) → List (ℕ × Diagnosis W) → List (ℕ × Diagnosis W)
  record_diagnoses timestamp diagnoses history =
      push_all 50 (map (λ (x : Diagnosis W). (timestamp, x)) diagnoses) history

  pub print_screen : Text → Dashboard W → Dashboard W
  print_screen text db = record db { terminal = write text db.terminal }

  -- `switch (screen)`
  pub draw :
      Env W → DashboardScreen → MetricSnapshot W → List (Diagnosis W) → Dashboard W → Dashboard W
  unfolding print_screen
  draw env overview s diagnoses db = record (print_screen (render_overview env s diagnoses) db) {
    left = true;
  }
  draw env cpu_cores s diagnoses db = print_screen (render_cpu_cores env db.left s) db
  draw env memory_and_disk s diagnoses db =
      let (text, left) = render_memory_disk env db.left s in
      record (print_screen text db) { left = left }
  draw env processes s diagnoses db = record (print_screen (render_processes env s) db) {
    left = true;
  }
  draw env diagnostics s diagnoses db =
      print_screen (render_diagnostics env db.diagnostic_history s) db

  pub show :
      Env W
      → DashboardScreen
      → Outcome (MetricSnapshot W)
      → Dashboard W
      → Outcome (Unit {0}) × Dashboard W
  unfolding record_diagnoses draw
  show env screen (throws m) db = (throws m, db)
  show env screen (returns s) db =
      let diagnoses = analyze s in
      (
        returns tt,
        draw env screen s diagnoses (record db {
          diagnostic_history = record_diagnoses s.timestamp diagnoses db.diagnostic_history;
        }),
      )

  show_after :
      Env W
      → DashboardScreen
      → Look
      → Outcome (Unit {0})
      → Dashboard W
      → Outcome (Unit {0}) × Dashboard W
  unfolding show collect_snapshot
  show_after env screen look (throws m) db = (throws m, db)
  show_after env screen look (returns u) db =
      let (s, db') = collect_snapshot look db in show env screen s db'

  -- `before` is seen by the baselines and `after` 200 ms later.
  pub render_snapshot :
      Env W → DashboardScreen → Look → Look → Dashboard W → Outcome (Unit {0}) × Dashboard W
  unfolding show_after collect_baselines
  render_snapshot env screen before after db =
      let (o, db') = collect_baselines before (record db { current_screen = screen }) in
      show_after env screen after o db'
