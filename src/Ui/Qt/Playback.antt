-- ===== src/Ui/Qt/Playback.antt =====
-- ui/qt/playback_controller.cpp. Of the QTimer the model keeps whether it is active and its interval; a
-- slot returns the new state with the signals that it emits.
pub mod Rounds
mod Tests
use sys_scope.Base.{
  ℕ, zero, suc, ◌+◌, Bool, true, false, List, [], ◌∷◌, ◌++◌, Option, none, some, get_elem?, ℤ, pos,
  if◌then◌else◌, Double,
}
use sys_scope.Storage.{HistoricalMetricRecord}

pub record Timer : Type 0 where
  pub active : Bool
  pub interval : ℤ

pub record PlaybackController (W : Type 0) : Type 0 where
  pub records : List (HistoricalMetricRecord W)
  pub current_index : ℕ
  pub speed : W
  pub timer : Timer

pub data Signal (W : Type 0) : Type 0 where
  playback_record : HistoricalMetricRecord W → Signal W
  playback_finished : Signal W

module _ {W : Type 0} ⦃d : Double W⦄ where
  open d use {lit, div, trunc}

  abbrev pub new_playback : PlaybackController W
  new_playback = record {
    records = [];
    current_index = 0;
    speed = lit 1 0;
    timer = record { active = false; interval = pos 0 };
  }

  pub load_records : List (HistoricalMetricRecord W) → PlaybackController W → PlaybackController W
  load_records records c = record c { records = records; current_index = 0 }

  -- `static_cast<int>(100 / speed_)`
  pub interval_of : W → ℤ
  interval_of speed = trunc (div (lit 100 0) speed)

  pub start_with : List (HistoricalMetricRecord W) → PlaybackController W → PlaybackController W
  unfolding interval_of
  start_with [] c = c
  start_with (r ∷ rs) c = record c {
    timer = record { active = true; interval = interval_of c.speed };
  }

  pub start : PlaybackController W → PlaybackController W
  unfolding start_with
  start c = start_with c.records c

  pub pause : PlaybackController W → PlaybackController W
  pause c = record c { timer = record c.timer { active = false } }

  pub stop : PlaybackController W → PlaybackController W
  stop c = record c { timer = record c.timer { active = false }; current_index = 0 }

  set_speed : W → PlaybackController W → PlaybackController W
  unfolding interval_of
  set_speed multiplier c = record c {
    speed = multiplier;
    timer =
        if c.timer.active then record c.timer { interval = interval_of multiplier } else c.timer;
  }

  -- `none` is `current_index_ >= records_.size()`.
  pub tick_at :
      Option (HistoricalMetricRecord W)
      → PlaybackController W
      → PlaybackController W × List (Signal W)
  tick_at none c = (record c { timer = record c.timer { active = false } }, playback_finished ∷ [])
  tick_at (some r) c = (record c { current_index = c.current_index + 1 }, playback_record r ∷ [])

  pub tick : PlaybackController W → PlaybackController W × List (Signal W)
  unfolding tick_at
  tick c = tick_at (get_elem? c.records c.current_index) c

  -- An interval passes: the timer calls `tick` only while it is active.
  pub timeout : PlaybackController W → PlaybackController W × List (Signal W)
  unfolding tick
  timeout c = if c.timer.active then tick c else (c, [])

  pub timeouts : ℕ → PlaybackController W → PlaybackController W × List (Signal W)
  unfolding timeout
  timeouts zero c = (c, [])
  timeouts (suc n) c =
      let (c', signals) = timeout c in let (end, later) = timeouts n c' in (end, signals ++ later)
