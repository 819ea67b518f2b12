-- ===== src/Ui/Qt/History/Tests.antt =====
-- A page over an engine with two snapshots, one of them too old.
use sys_scope.Base.{
  ℕ, ◌≡◌, refl, true, [], ◌∷◌, List, map, some, codes, arith, last_of, Micro, micro_double, ◌/◌,
  ◌%◌,
}
use sys_scope.Core.Timestamp.{Tm}
use sys_scope.Core.Snapshot.{MetricSnapshot}
use sys_scope.Samples.{overheated}
use sys_scope.Storage.{Store, closed, record_of}
use sys_scope.Storage.Engine.{store_all}
use sys_scope.Ui.Qt.Chart.{empty_chart}
use sys_scope.Ui.Qt.Playback.{new_playback}
use sys_scope.Ui.Qt.History.{HistoryPage, on_query_clicked, new_history_page}
use sys_scope.Ui.Qt.History.Session.{queried, played, ticked, run, run-new_history_page}
use sys_scope.Ui.Qt.History.LastHour.{last_hour, row_for, on_query_clicked-store_all}

abbrev first_day : ℕ → Tm
first_day s = record {
  year = 70;
  mon = 0;
  mday = 1;
  hour = s / 3600 % 24;
  min = s / 60 % 60;
  sec = s % 60;
}

abbrev stored : List (MetricSnapshot Micro)
stored = overheated ∷ record overheated { timestamp = 4_000_000_000_000 } ∷ []

abbrev engine : Store Micro
engine = record closed { initialized = true }

abbrev page : HistoryPage Micro
page = record {
  engine = some (store_all stored engine);
  playback = new_playback;
  history_table = [];
  history_chart = empty_chart;
  current_records = [];
}

on_query_clicked-store_all_example :
    let p =
      on_query_clicked first_day 5_000_000_000_000 5_000_000_000_001 (codes "cpu_psi_avg10") page in
    let found = map record_of (last_hour 5_000_000_000_000 5_000_000_000_001 stored) in
    (p.current_records ≡ found)
    × (p.playback.records ≡ found)
    × (p.playback.current_index ≡ 0)
    × (p.history_table
        ≡ map (row_for first_day) (last_hour 5_000_000_000_000 5_000_000_000_001 stored))
    × (p.history_chart.buffer
        ≡ last_of 60 (
            map
              (λ (x : MetricSnapshot Micro). x.cpu.total_utilization)
              (last_hour 5_000_000_000_000 5_000_000_000_001 stored)))
on_query_clicked-store_all_example =
    on_query_clicked-store_all Micro first_day 5_000_000_000_000 5_000_000_000_001
      (codes "cpu_psi_avg10") stored engine page refl refl refl (omega arith) (omega arith)

run-new_history_page_example :
    run first_day
      (queried 5_000_000_000_000 5_000_000_000_001 (codes "io_psi_avg10") ∷ played ∷ ticked ∷ [])
      new_history_page
    ≡ new_history_page {W = Micro}
run-new_history_page_example =
    run-new_history_page first_day
      (queried 5_000_000_000_000 5_000_000_000_001 (codes "io_psi_avg10") ∷ played ∷ ticked ∷ [])
