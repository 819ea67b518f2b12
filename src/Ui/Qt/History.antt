-- ===== src/Ui/Qt/History.antt =====
-- ui/qt/history_service.cpp and pages/history_page.cpp over the program's persistence engine. The engine
-- is shared by pointer; `none` is a null pointer.
pub mod LastHour
pub mod Session
mod Tests
use sys_scope.Base.{
  ℕ, Bool, List, [], ◌∷◌, ◌++◌, Option, none, some, Text, codes, map, sub_u64, Double,
}
use sys_scope.Core.Result.{Result, ok, error}
use sys_scope.Core.Timestamp.{Tm, to_iso_string}
use sys_scope.Storage.{Store, HistoricalMetricRecord, closed, initialize, query_history}
use sys_scope.Util.{format_metric}
use sys_scope.Ui.Qt.Chart.{TelemetryChart, empty_chart, update_series, append_sample}
use sys_scope.Ui.Qt.Playback
use sys_scope.Ui.Qt.Playback.{PlaybackController}

pub record HistoryQuery : Type 0 where
  pub start_time : ℕ
  pub end_time : ℕ
  pub metric_type : Text

-- HistoryResult has the one field `records`.
abbrev pub HistoryResult : Type 0 → Type 0
HistoryResult W = List (HistoricalMetricRecord W)

-- A row of the table: timestamp, metric, entity, value.
pub record Row : Type 0 where
  pub timestamp : Text
  pub metric : Text
  pub entity : Text
  pub value : Text

pub record HistoryPage (W : Type 0) : Type 0 where
  pub engine : Option (Store W)
  pub playback : PlaybackController W
  pub history_table : List Row
  pub history_chart : TelemetryChart W
  pub current_records : List (HistoricalMetricRecord W)

module _ {W : Type 0} where
  -- An error of the engine is passed on with its message.
  pub passed_on : Result (List (HistoricalMetricRecord W)) → Result (HistoryResult W)
  passed_on (error m) = error m
  passed_on (ok records) = ok records

  pub query : Option (Store W) → HistoryQuery → Result (HistoryResult W)
  unfolding passed_on
  query none q = error (codes "Persistence engine uninitialized")
  query (some engine) q = passed_on (query_history q.metric_type q.start_time q.end_time engine)

  pub values_of : List (HistoricalMetricRecord W) → List W
  values_of [] = []
  values_of (r ∷ rs) = r.value ∷ values_of rs

module _ {W : Type 0} ⦃d : Double W⦄ (localtime : ℕ → Tm) where
  pub row_of : HistoricalMetricRecord W → Row
  row_of rec = record {
    timestamp = to_iso_string localtime rec.timestamp_ns;
    metric = rec.metric_type;
    entity = rec.entity;
    value = format_metric rec.value 2;
  }

  pub rows_of : List (HistoricalMetricRecord W) → List Row
  unfolding row_of
  rows_of [] = []
  rows_of (r ∷ rs) = row_of r ∷ rows_of rs

  pub show_result : Result (HistoryResult W) → HistoryPage W → HistoryPage W
  unfolding rows_of values_of
  show_result (error m) p = p
  show_result (ok records) p = record p {
    current_records = records;
    playback = Playback.load_records records p.playback;
    history_table = rows_of records;
    history_chart = update_series (values_of records) p.history_chart;
  }

  -- An hour is 3600000000000 ns; the subtraction is of 64 bits. `now` and `later` are two readings of
  -- the clock, and `metric` the text that is selected.
  pub on_query_clicked : ℕ → ℕ → Text → HistoryPage W → HistoryPage W
  unfolding show_result query
  on_query_clicked now later metric p =
      show_result
        (query p.engine (record {
          start_time = sub_u64 now 3_600_000_000_000;
          end_time = later;
          metric_type = metric;
        }))
        p

module _ {W : Type 0} ⦃d : Double W⦄ where
  -- The constructor: the page makes an engine of its own.
  pub new_history_page : HistoryPage W
  new_history_page = record {
    engine = some (initialize (codes "/tmp/sysscope_history.db") closed).1;
    playback = Playback.new_playback;
    history_table = [];
    history_chart = empty_chart;
    current_records = [];
  }

  pub on_play_clicked : HistoryPage W → HistoryPage W
  on_play_clicked p = record p { playback = Playback.start p.playback }

  pub on_pause_clicked : HistoryPage W → HistoryPage W
  on_pause_clicked p = record p { playback = Playback.pause p.playback }

  pub on_stop_clicked : HistoryPage W → HistoryPage W
  on_stop_clicked p = record p { playback = Playback.stop p.playback }

  pub on_playback_record : HistoricalMetricRecord W → HistoryPage W → HistoryPage W
  on_playback_record rec p = record p { history_chart = append_sample rec.value p.history_chart }

  -- The signals of the player that reach the page; `playback_finished` is connected to nothing.
  pub on_signals : List (Playback.Signal W) → HistoryPage W → HistoryPage W
  unfolding on_playback_record
  on_signals [] p = p
  on_signals (Playback.playback_record rec ∷ ss) p = on_signals ss (on_playback_record rec p)
  on_signals (Playback.playback_finished ∷ ss) p = on_signals ss p

  -- An interval of the player's timer passes.
  pub on_timeout : HistoryPage W → HistoryPage W
  unfolding on_signals
  on_timeout p =
      let (playback, signals) = Playback.timeout p.playback in
      on_signals signals (record p { playback = playback })
