-- ===== src/Ui/Dashboard/Loop.antt =====
-- ui/dashboard.cpp: the interactive loop.
use sys_scope.Base.{ℕ, Bool, ◌||◌, List, [], ◌∷◌, ◌++◌, Text, codes, ◌==◌, if◌then◌else◌, Double}
use sys_scope.Core.Result.{Outcome, returns, throws}
use sys_scope.Ui.Terminal.{
  Keyboard, write, enable_raw_mode, disable_raw_mode, clear_screen, read_key,
}
use sys_scope.Ui.Screens.{
  Env, DashboardScreen, overview, cpu_cores, memory_and_disk, processes, diagnostics,
}
use sys_scope.Ui.Dashboard.{Look, Dashboard, collect_baselines, render_snapshot}

pub is_quit : ℕ → Bool
is_quit key = key == b'q' || key == b'Q'

-- Keys other than the five digits keep the screen.
pub switch : ℕ → DashboardScreen → DashboardScreen
switch key current =
    if key == b'1'
    then overview
    else if key == b'2'
    then cpu_cores
    else if key == b'3'
    then memory_and_disk
    else if key == b'4'
    then processes
    else if key == b'5'
    then diagnostics
    else current

-- A round of the loop: the keyboard, and what the collectors see before and after the pause.
pub record Round : Type 0 where
  pub keyboard : Keyboard
  pub before : Look
  pub after : Look

-- How the loop stands: left by a key, by an exception, or still running when the rounds are used up.
pub data LoopEnd : Type 0 where
  quit running : LoopEnd
  thrown : Text → LoopEnd

module _ {W : Type 0} ⦃d : Double W⦄ where
  -- `while (running)`
  unfoldable pub loop : Env W → List Round → Dashboard W → LoopEnd × Dashboard W
  loop env [] db = (running, db)
  loop env (r ∷ rs) db =
      let key = read_key r.keyboard in
      let drawn = render_snapshot env (switch key db.current_screen) r.before r.after db in
      let rest : LoopEnd × Dashboard W = elim drawn.0 [
        | returns u ↦ loop env rs drawn.1
        | throws m ↦ (thrown m, drawn.1)
      ] in
      if is_quit key then (quit, db) else rest

  -- What follows the loop; an exception leaves the function at once.
  unfoldable pub leave : LoopEnd → Dashboard W → Dashboard W
  leave quit db = record db {
    terminal =
        write (codes "SysScope Dashboard exited cleanly." ++ (10 ∷ []))
          (clear_screen (disable_raw_mode db.terminal));
  }
  leave running db = db
  leave (thrown m) db = db

  unfoldable pub start_loop :
      Env W → List Round → Outcome (Unit {0}) → Dashboard W → LoopEnd × Dashboard W
  unfolding loop leave
  start_loop env rounds (throws m) db = (thrown m, db)
  start_loop env rounds (returns u) db = let (end, db') = loop env rounds db in (end, leave end db')

  unfoldable pub run_interactive_loop :
      Env W → Look → List Round → Dashboard W → LoopEnd × Dashboard W
  unfolding start_loop collect_baselines
  run_interactive_loop env look rounds db =
      let raw = record db { terminal = enable_raw_mode db.terminal } in
      let (o, db') = collect_baselines look raw in start_loop env rounds o db'
