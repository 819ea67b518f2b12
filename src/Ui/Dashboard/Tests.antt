-- ===== src/Ui/Dashboard/Tests.antt =====
-- A dashboard on a hot machine, with `2` and then `q` pressed.
use sys_scope.Base.{
  ℕ, ◌≡◌, refl, true, false, List, [], ◌∷◌, ◌++◌, some, codes, ◌/◌, ◌%◌, last_of, arith, Micro,
  micro_double,
}
use sys_scope.Samples.{uniform}
use sys_scope.Platform.Host.{linux}
use sys_scope.Ui.Terminal.{Termios}
use sys_scope.Ui.Screens.{Env}
use sys_scope.Ui.Dashboard.{Look, Dashboard, new_dashboard}
use sys_scope.Ui.Dashboard.Loop.{Round, loop, run_interactive_loop}
use sys_scope.Ui.Dashboard.History.{loop_events, loop-history}
use sys_scope.Ui.Dashboard.Quit.{mode_after, still_raw, run_interactive_loop-Restored}

abbrev cooked : Termios
cooked = record { echo = true; canonical = true; others = 5 }

abbrev board : Dashboard Micro
board = new_dashboard 100 (record {
  tty = some cooked;
  orig_termios = record { echo = false; canonical = false; others = 0 };
  raw_mode_enabled = false;
  output = [];
})

abbrev plain : Env Micro
plain = record {
  version = codes "1.0.0";
  host = linux;
  localtime = λ s. record {
    year = 70;
    mon = 0;
    mday = 1;
    hour = s / 3600 % 24;
    min = s / 60 % 60;
    sec = s % 60;
  };
  sort = λ ps. ps;
}

abbrev hot : Look
hot = record {
  files =
      uniform (codes "cpu 1 0 0 9 0 0 0 0" ∷ codes "cpu0 1 0 0 9 0 0 0 0" ∷ []) (codes "80000")
        (codes "thermal_zone0" ∷ []);
  now = 1_000_000_000;
  network_now = 1_000_000_001;
  disk_now = 1_000_000_002;
  process_now = λ entry. 1_000_000_003;
}

abbrev pressing : ℕ → Round
pressing key = record {
  keyboard = record { pressed = true; byte = some key };
  before = hot;
  after = hot;
}

abbrev presses : List Round
presses = pressing b'2' ∷ pressing b'q' ∷ []

loop-history_example :
    (loop plain presses board).1.diagnostic_history
    ≡ last_of 50 (board.diagnostic_history ++ loop_events plain presses board)
loop-history_example = loop-history plain presses board (omega arith)

run_interactive_loop-Restored_example :
    let (end, db) = run_interactive_loop plain hot presses board in
    (db.terminal.tty ≡ some (mode_after end cooked))
    × (db.terminal.raw_mode_enabled ≡ still_raw end)
run_interactive_loop-Restored_example =
    run_interactive_loop-Restored plain hot presses cooked board refl refl
