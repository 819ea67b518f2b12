-- ===== src/Ui/Qt/Window/Tests.antt =====
-- A poll on a machine that is busy.
use sys_scope.Base.{◌≡◌, [], ◌∷◌, none, codes, Micro, micro_double, Micro-IsOrdered}
use sys_scope.Core.Snapshot.{blank_memory}
use sys_scope.Platform.Files.{Reader}
use sys_scope.Samples.{uniform}
use sys_scope.Collectors.Cpu.Collect.{IsIdle}
use sys_scope.Collectors.Memory
use sys_scope.Analytics.Correlation.{analyze}
use sys_scope.Ui.Dashboard.{or_keep}
use sys_scope.Ui.Qt.Window.{polled}
use sys_scope.Ui.Qt.Window.Polled.{polled-IsIdle}

abbrev busy : Reader
busy = uniform (codes "cpu 900 0 90 9 0 0 0 0" ∷ codes "cpu0 900 0 90 9 0 0 0 0" ∷ []) [] []

polled-IsIdle_example :
    let s = polled {W = Micro} busy 77 in
    IsIdle s.cpu
    × (s.processes.process_list ≡ [])
    × (s.psi ≡ none)
    × (analyze s ≡ [])
    × (s.memory ≡ or_keep (Memory.collect busy) blank_memory)
polled-IsIdle_example = polled-IsIdle Micro Micro-IsOrdered busy 77
