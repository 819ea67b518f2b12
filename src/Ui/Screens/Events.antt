-- ===== src/Ui/Screens/Events.antt =====
-- ui/dashboard.cpp: the screen Diagnostics, with the history of events.
use sys_scope.Base.{ℕ, List, [], ◌∷◌, ◌++◌, Text, codes, Double}
use sys_scope.Core.Snapshot.{MetricSnapshot}
use sys_scope.Core.Timestamp.{to_iso_string}
use sys_scope.Analytics.Correlation.{Diagnosis, Evidence}
use sys_scope.Ui.Terminal.{clear_text}
use sys_scope.Ui.Screens.{
  Env, diagnostics, concat, newline, reset, bold, red, green, white, bg_blue, metric, render_footer,
}

module _ {W : Type 0} ⦃d : Double W⦄ where
  open d use {lit, mul}

  contribution_lines : List (Evidence W) → Text
  contribution_lines [] = []
  contribution_lines (e ∷ es) =
      concat (
        codes "    • "
        ∷ e.explanation
        ∷ codes " (Contribution: +"
        ∷ metric (mul e.contribution (lit 100 0))
        ∷ codes "%)"
        ∷ newline
        ∷ [])
      ++ contribution_lines es

  pub event_lines : Env W → ℕ × Diagnosis W → Text
  unfolding contribution_lines
  event_lines env (time, x) = concat (
      codes "["
      ∷ to_iso_string env.localtime time
      ∷ codes "] "
      ∷ red
      ∷ bold
      ∷ codes "[ALERT] "
      ∷ x.condition
      ∷ reset
      ∷ codes " (Confidence: "
      ∷ metric (mul x.confidence (lit 100 0))
      ∷ codes "%)"
      ∷ newline
      ∷ contribution_lines x.evidence
      ∷ newline
      ∷ [])

  -- From `rbegin()` to `rend()`: the newest event comes first.
  pub newest_first : Env W → List (ℕ × Diagnosis W) → Text
  unfolding event_lines
  newest_first env [] = []
  newest_first env (e ∷ es) = newest_first env es ++ event_lines env e

  pub event_log : Env W → List (ℕ × Diagnosis W) → Text
  unfolding newest_first
  event_log env [] = concat (
      green
      ∷ bold
      ∷ codes "● SYSTEM HEALTHY [✓]"
      ∷ newline
      ∷ reset
      ∷ codes "All metrics operate within nominal threshold baselines. "
      ∷ codes "Zero resource pressure events logged."
      ∷ newline
      ∷ [])
  event_log env (e ∷ es) = concat (
      bold
      ∷ codes "HISTORICAL RESOURCE PRESSURE EVENT LOG (Most Recent First):"
      ∷ newline
      ∷ reset
      ∷ newest_first env (e ∷ es)
      ∷ [])

  pub render_diagnostics : Env W → List (ℕ × Diagnosis W) → MetricSnapshot W → Text
  unfolding event_log
  render_diagnostics env diagnostic_history snapshot = concat (
      clear_text
      ∷ bg_blue
      ∷ white
      ∷ bold
      ∷ codes " SYSCOPE v"
      ∷ env.version
      ∷ codes " | Real-Time Resource Diagnostics Panel & Event History "
      ∷ reset
      ∷ newline
      ∷ newline
      ∷ event_log env diagnostic_history
      ∷ render_footer env snapshot diagnostics
      ∷ [])
