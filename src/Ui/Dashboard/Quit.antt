-- ===== src/Ui/Dashboard/Quit.antt =====
-- How the interactive loop ends, and the mode in which it leaves the terminal.
use sys_scope.Base.{
  ◌≡◌, ◌≢◌, refl, ap, ◌∙◌, inl, inr, Bool, true, false, List, [], ◌∷◌, ◌++◌, some, arith,
  Bool-cases, Double,
}
use sys_scope.Core.Result.{Result, Outcome, returns, throws, Outcome-cases}
use sys_scope.Core.Snapshot.{MetricSnapshot, ProcessSnapshot}
use sys_scope.Analytics.Correlation.{Diagnosis}
use sys_scope.Ui.Terminal.{Terminal, Termios, read_key, raw_of, enable_raw_mode}
use sys_scope.Ui.Terminal.Modes.{modes, modes-write, enable_raw_mode-modes, disable_raw_mode-modes}
use sys_scope.Ui.Screens.{
  Env, DashboardScreen, overview, cpu_cores, memory_and_disk, processes, diagnostics,
}
use sys_scope.Ui.Dashboard.{
  Look, Dashboard, collect_baselines, after_process_baseline, rest_baselines, collect_snapshot,
  after_processes, print_screen, draw, show, show_after, render_snapshot,
}
use sys_scope.Ui.Dashboard.Loop.{
  Round, LoopEnd, quit, running, thrown, is_quit, switch, loop, leave, start_loop,
  run_interactive_loop,
}

module _ {W : Type 0} ⦃d : Double W⦄ where
  -- The loop ends at the first round in which `q` or `Q` is pressed, or before it by an exception, and
  -- never looks at the rounds behind it.
  pub loop-quit :
      (env : Env W) (rs more : List Round) (q : Round) (db : Dashboard W)
      → is_quit (read_key q.keyboard) ≡ true
      → (loop env (rs ++ (q ∷ more)) db ≡ loop env (rs ++ (q ∷ [])) db)
        × ((loop env (rs ++ (q ∷ more)) db).0 ≢ running)
  unfolding loop
  loop-quit env [] more q db h = rw h (refl, λ e. cc)
  loop-quit env (r ∷ rs) more q db h =
      let screen = switch (read_key r.keyboard) db.current_screen in
      let drawn = render_snapshot env screen r.before r.after db in
      elim (Bool-cases (is_quit (read_key r.keyboard))) [
        | inl e ↦ rw e (refl, λ x. cc)
        | inr e ↦ elim (Outcome-cases drawn.0) [
          | inl (u, o) ↦ rw (e, o) (loop-quit env rs more q drawn.1 h)
          | inr (m, o) ↦ rw (e, o) (refl, λ x. cc)
        ]
      ]

module _ {W : Type 0} ⦃d : Double W⦄ where
  after_process_baseline-terminal :
      {A : Type 0} (look : Look) (o : Outcome A) (db : Dashboard W)
      → (after_process_baseline look o db).1.terminal ≡ db.terminal
  unfolding after_process_baseline rest_baselines
  after_process_baseline-terminal look (throws m) db = refl
  after_process_baseline-terminal look (returns a) db = refl

  collect_baselines-terminal :
      (look : Look) (db : Dashboard W) → (collect_baselines look db).1.terminal ≡ db.terminal
  unfolding collect_baselines
  collect_baselines-terminal look db = after_process_baseline-terminal look _ _

  after_processes-terminal :
      (look : Look) (o : Outcome (Result (ProcessSnapshot W))) (s : MetricSnapshot W)
      (db : Dashboard W)
      → (after_processes look o s db).1.terminal ≡ db.terminal
  unfolding after_processes
  after_processes-terminal look (throws m) s db = refl
  after_processes-terminal look (returns a) s db = refl

  collect_snapshot-terminal :
      (look : Look) (db : Dashboard W) → (collect_snapshot look db).1.terminal ≡ db.terminal
  unfolding collect_snapshot
  collect_snapshot-terminal look db = after_processes-terminal look _ _ _

  draw-modes :
      (env : Env W) (screen : DashboardScreen) (s : MetricSnapshot W) (ds : List (Diagnosis W))
      (db : Dashboard W)
      → modes (draw env screen s ds db).terminal ≡ modes db.terminal
  unfolding draw print_screen
  draw-modes env overview s ds db = modes-write _ db.terminal
  draw-modes env cpu_cores s ds db = modes-write _ db.terminal
  draw-modes env memory_and_disk s ds db = modes-write _ db.terminal
  draw-modes env processes s ds db = modes-write _ db.terminal
  draw-modes env diagnostics s ds db = modes-write _ db.terminal

  show-modes :
      (env : Env W) (screen : DashboardScreen) (o : Outcome (MetricSnapshot W)) (db : Dashboard W)
      → modes (show env screen o db).1.terminal ≡ modes db.terminal
  unfolding show
  show-modes env screen (throws m) db = refl
  show-modes env screen (returns s) db = draw-modes env screen s _ _

  show_after-modes :
      (env : Env W) (screen : DashboardScreen) (look : Look) (o : Outcome (Unit {0}))
      (db : Dashboard W)
      → modes (show_after env screen look o db).1.terminal ≡ modes db.terminal
  unfolding show_after
  show_after-modes env screen look (throws m) db = refl
  show_after-modes env screen look (returns u) db =
      show-modes env screen _ _ ∙ ap modes (collect_snapshot-terminal look db)

  render_snapshot-modes :
      (env : Env W) (screen : DashboardScreen) (before after : Look) (db : Dashboard W)
      → modes (render_snapshot env screen before after db).1.terminal ≡ modes db.terminal
  unfolding render_snapshot
  render_snapshot-modes env screen before after db =
      show_after-modes env screen after _ _
      ∙ ap modes (collect_baselines-terminal before (record db { current_screen = screen }))

  loop-modes :
      (env : Env W) (rs : List Round) (db : Dashboard W)
      → modes (loop env rs db).1.terminal ≡ modes db.terminal
  unfolding loop
  loop-modes env [] db = refl
  loop-modes env (r ∷ rs) db =
      let screen = switch (read_key r.keyboard) db.current_screen in
      let drawn = render_snapshot env screen r.before r.after db in
      let one = render_snapshot-modes env screen r.before r.after db in
      elim (Bool-cases (is_quit (read_key r.keyboard))) [
        | inl e ↦ rw e refl
        | inr e ↦ elim (Outcome-cases drawn.0) [
          | inl (u, o) ↦ rw (e, o) (loop-modes env rs drawn.1 ∙ one)
          | inr (m, o) ↦ rw (e, o) one
        ]
      ]

-- The mode that the loop leaves behind, for the mode `m` before it.
abbrev pub mode_after : LoopEnd → Termios → Termios
mode_after quit m = m
mode_after running m = raw_of m
mode_after (thrown e) m = raw_of m

abbrev pub still_raw : LoopEnd → Bool
still_raw quit = false
still_raw running = true
still_raw (thrown e) = true

-- The modes behind the end, from those that the loop has kept.
abbrev Restored : LoopEnd → Termios → Terminal → Type 0
Restored end m t = (t.tty ≡ some (mode_after end m)) × (t.raw_mode_enabled ≡ still_raw end)

module _ {W : Type 0} ⦃d : Double W⦄ where
  leave-Restored :
      (end : LoopEnd) (m : Termios) (db : Dashboard W)
      → modes db.terminal ≡ (some (raw_of m), m, true)
      → Restored end m (leave end db).terminal
  unfolding leave
  leave-Restored quit m db h = disable_raw_mode-modes m db.terminal _ h
  leave-Restored running m db h = ground arith
  leave-Restored (thrown e) m db h = ground arith

  start_loop-Restored :
      (env : Env W) (rounds : List Round) (o : Outcome (Unit {0})) (m : Termios) (db : Dashboard W)
      → modes db.terminal ≡ (some (raw_of m), m, true)
      → let (end, db') = start_loop env rounds o db in Restored end m db'.terminal
  unfolding start_loop
  start_loop-Restored env rounds (throws e) m db h = ground arith
  start_loop-Restored env rounds (returns u) m db h =
      leave-Restored _ m _ (loop-modes env rounds db ∙ h)

  -- On a terminal that is not in raw mode, the loop that is left by a key gives back the mode from before
  -- with the raw mode flag off; a loop that is still running is in raw mode; and an exception of a
  -- collector, which leaves the function at once, leaves the terminal in raw mode, without echo.
  pub run_interactive_loop-Restored :
      (env : Env W) (look : Look) (rounds : List Round) (m : Termios) (db : Dashboard W)
      → db.terminal.tty ≡ some m
      → db.terminal.raw_mode_enabled ≡ false
      → let (end, db') = run_interactive_loop env look rounds db in
        (db'.terminal.tty ≡ some (mode_after end m))
        × (db'.terminal.raw_mode_enabled ≡ still_raw end)
  unfolding run_interactive_loop
  run_interactive_loop-Restored env look rounds m db h r =
      let raw = record db { terminal = enable_raw_mode db.terminal } in
      start_loop-Restored env rounds _ m _
        (ap modes (collect_baselines-terminal look raw) ∙ enable_raw_mode-modes m db.terminal h r)
