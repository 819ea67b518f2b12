-- ===== src/Ui/Qt/History/Session.antt =====
-- The history page of the program over a session of clicks, timer ticks and queries.
use sys_scope.Base.{ℕ, ◌≡◌, refl, List, [], ◌∷◌, Text, Double}
use sys_scope.Core.Timestamp.{Tm}
use sys_scope.Ui.Qt.Playback.Rounds.{new_playback_idle}
use sys_scope.Ui.Qt.Chart.Series.{update_series-empty_chart}
use sys_scope.Storage.Engine.{query_history-initialize}
use sys_scope.Ui.Qt.History.{
  HistoryPage, query, show_result, passed_on, values_of, rows_of, on_signals, new_history_page,
  on_query_clicked, on_play_clicked, on_pause_clicked, on_stop_clicked, on_timeout,
}

-- What can happen to the page. A query has two readings of the clock and the selected metric.
pub data PageEvent : Type 0 where
  queried : ℕ → ℕ → Text → PageEvent
  played paused stopped ticked : PageEvent

module _ {W : Type 0} ⦃d : Double W⦄ (localtime : ℕ → Tm) where
  pub step : PageEvent → HistoryPage W → HistoryPage W
  step (queried now later metric) p = on_query_clicked localtime now later metric p
  step played p = on_play_clicked p
  step paused p = on_pause_clicked p
  step stopped p = on_stop_clicked p
  step ticked p = on_timeout p

  pub run : List PageEvent → HistoryPage W → HistoryPage W
  run [] p = p
  run (e ∷ es) p = run es (step e p)

  queried_new :
      (now later : ℕ) (metric : Text)
      → on_query_clicked localtime now later metric new_history_page ≡ new_history_page {W = W}
  unfolding on_query_clicked new_history_page query passed_on show_result values_of rows_of
  queried_new now later metric =
      rw
        (
          query_history-initialize _ metric _ later,
          (new_playback_idle {W = W}).3,
          update_series-empty_chart,
        )
        refl

  step_new : (e : PageEvent) → step e new_history_page ≡ new_history_page {W = W}
  unfolding step new_history_page on_play_clicked on_pause_clicked on_stop_clicked on_timeout
      on_signals
  step_new (queried now later metric) = queried_new now later metric
  step_new played = rw (new_playback_idle {W = W}).0 refl
  step_new paused = rw (new_playback_idle {W = W}).1 refl
  step_new stopped = rw (new_playback_idle {W = W}).2 refl
  step_new ticked = rw (new_playback_idle {W = W}).4 refl

  -- From the page that the constructor makes, no sequence of queries, clicks on play, pause and stop,
  -- and ticks of the player's timer changes anything: its engine is its own and stays empty, so the
  -- table, the chart and the player do.
  pub run-new_history_page :
      (es : List PageEvent) → run es new_history_page ≡ new_history_page {W = W}
  unfolding run
  run-new_history_page [] = refl
  run-new_history_page (e ∷ es) = rw (step_new e) (run-new_history_page es)
