-- ===== src/Ui/Qt/Window/Polled.antt =====
-- What the polls of the window can show.
use sys_scope.Base.{ℕ, ◌≡◌, refl, inl, inr, [], none, Double, IsOrdered}
use sys_scope.Core.Snapshot.{blank_cpu, blank_memory}
use sys_scope.Platform.Files.{Reader}
use sys_scope.Collectors.Cpu
use sys_scope.Collectors.Memory
use sys_scope.Collectors.Cpu.Collect.{IsIdle, collect-fresh}
use sys_scope.Analytics.Correlation.{analyze}
use sys_scope.Analytics.Correlation.Rules.{analyze-bare}
use sys_scope.Ui.Dashboard.{or_keep}
use sys_scope.Ui.Qt.Window.{polled}

blank_cpu-IsIdle : (W : Type 0) ⦃d : Double W⦄ → IsIdle (blank_cpu {W = W})
blank_cpu-IsIdle W = record {
  total = refl;
  user = refl;
  system = refl;
  iowait = refl;
  irq = refl;
  softirq = refl;
  steal = refl;
  cores = tt;
}

collected-IsIdle :
    (W : Type 0) ⦃d : Double W⦄ (fs : Reader)
    → IsIdle (or_keep (Cpu.collect {W = W} fs Cpu.fresh).0 blank_cpu)
collected-IsIdle W fs = elim (collect-fresh W fs) [
  | inl (s, e, v) ↦ rw e v
  | inr (m, e) ↦ rw e (blank_cpu-IsIdle W)
]

-- Whatever the files and the time, a poll of the window shows no CPU usage at all, of the whole and of
-- every core, no process and no pressure reading, and no rule of the correlation engine applies to it;
-- its memory is what the memory collector reports, or blank where that fails.
pub polled-IsIdle :
    (W : Type 0) ⦃d : Double W⦄ (laws : IsOrdered W) (fs : Reader) (now : ℕ)
    → let s = polled {W = W} fs now in
      IsIdle s.cpu
      × (s.processes.process_list ≡ [])
      × (s.psi ≡ none)
      × (analyze s ≡ [])
      × (s.memory ≡ or_keep (Memory.collect fs) blank_memory)
unfolding polled
polled-IsIdle W laws fs now =
    (collected-IsIdle W fs, refl, refl, analyze-bare laws (polled fs now) refl refl refl, refl)
