-- ===== src/Ui/Qt/History/LastHour.antt =====
-- What a query of the page shows of the snapshots that were stored.
use sys_scope.Base.{
  ℕ, ◌-◌, ◌≤◌, ◌<◌, ◌≡◌, refl, ap, ◌∙◌, true, List, [], ◌∷◌, Option, some, Text, codes, map, keep,
  take, sub_u64, sub_u64-eq-sub, u64_mod, last_of, Double,
}
use sys_scope.Core.Result.{Result, ok}
use sys_scope.Core.Snapshot.{MetricSnapshot}
use sys_scope.Core.Timestamp.{Tm, to_iso_string}
use sys_scope.Storage.{Store, HistoricalMetricRecord, in_range, record_of}
use sys_scope.Storage.Engine.{store_all, query_history-store_all, record_of-value, record_of-shown}
use sys_scope.Util.{format_metric}
use sys_scope.Ui.Qt.Playback.Rounds.{load_records-loaded}
use sys_scope.Ui.Qt.Chart.{max_points}
use sys_scope.Ui.Qt.Chart.Series.{update_series-append_all}
use sys_scope.Ui.Qt.History.{
  HistoryPage, HistoryQuery, HistoryResult, query, passed_on, show_result, on_query_clicked,
  values_of, rows_of, row_of, Row,
}

-- The snapshots whose time is at most an hour before `now` and not after `later`.
abbrev pub last_hour : {W : Type 0} → ℕ → ℕ → List (MetricSnapshot W) → List (MetricSnapshot W)
last_hour now later = keep (λ x. in_range (now - 3_600_000_000_000) later x.timestamp)

values_of-record_of :
    {W : Type 0} (xs : List (MetricSnapshot W))
    → values_of (map record_of xs) ≡ map (λ (x : MetricSnapshot W). x.cpu.total_utilization) xs
unfolding values_of
values_of-record_of [] = refl
values_of-record_of (x ∷ xs) =
    rw (record_of-value x) (ap (◌∷◌ x.cpu.total_utilization) (values_of-record_of xs))

-- The row of a snapshot: its time, the metric and the entity that are stored, and the CPU utilization with two
-- decimals.
abbrev pub row_for : {W : Type 0} ⦃d : Double W⦄ → (ℕ → Tm) → MetricSnapshot W → Row
row_for ⦃d⦄ localtime x = record {
  timestamp = to_iso_string localtime x.timestamp;
  metric = codes "cpu_utilization";
  entity = codes "system";
  value = take 63 (d.print 2 x.cpu.total_utilization);
}

rows_of-record_of :
    (W : Type 0) ⦃d : Double W⦄ (localtime : ℕ → Tm) (xs : List (MetricSnapshot W))
    → rows_of localtime (map record_of xs) ≡ map (row_for localtime) xs
unfolding rows_of row_of format_metric
rows_of-record_of W localtime [] = refl
rows_of-record_of W localtime (x ∷ xs) =
    rw (record_of-shown x) (ap (◌∷◌ (row_for localtime x)) (rows_of-record_of W localtime xs))

-- What a query that succeeds makes of the page.
abbrev Shown :
    {W : Type 0} ⦃d : Double W⦄
    → (ℕ → Tm)
    → List (HistoricalMetricRecord W)
    → HistoryPage W
    → Type 0
Shown localtime found p' =
    (p'.current_records ≡ found)
    × (p'.playback.records ≡ found)
    × (p'.playback.current_index ≡ 0)
    × (p'.history_table ≡ rows_of localtime found)
    × (p'.history_chart.buffer ≡ last_of max_points (values_of found))

show_result-ok :
    (W : Type 0) ⦃d : Double W⦄ (localtime : ℕ → Tm) (r : Result (HistoryResult W))
    (found : List (HistoricalMetricRecord W)) (p : HistoryPage W)
    → r ≡ ok found
    → Shown localtime found (show_result localtime r p)
unfolding show_result
show_result-ok W localtime r found p e = rw e (
  refl,
  (load_records-loaded found p.playback).0,
  (load_records-loaded found p.playback).1,
  refl,
  (update_series-append_all (values_of found) p.history_chart).1,
)

query-store_all :
    {W : Type 0} (q : HistoryQuery) (xs : List (MetricSnapshot W)) (s : Store W)
    (engine : Option (Store W))
    → s.initialized ≡ true
    → s.metric_store ≡ []
    → engine ≡ some (store_all xs s)
    → query engine q
      ≡ ok (
          map record_of
            (keep (λ (x : MetricSnapshot W). in_range q.start_time q.end_time x.timestamp) xs))
unfolding query passed_on
query-store_all q xs s engine i e g =
    rw (g, query_history-store_all q.metric_type q.start_time q.end_time xs s i e) refl

-- With an engine that was initialized empty and in which the snapshots `xs` were stored, a click on the
-- query button, for whichever metric is selected, loads the records of exactly those snapshots that
-- are at most an hour older than the first clock reading and not later than the second, in order;
-- the table has a row for each of them, with its time, metric, entity and value; the player is at the
-- first, and the chart holds the last 60 values of CPU utilization.
pub on_query_clicked-store_all :
    (W : Type 0) ⦃d : Double W⦄ (localtime : ℕ → Tm) (now later : ℕ) (metric : Text)
    (xs : List (MetricSnapshot W)) (s : Store W) (p : HistoryPage W)
    → s.initialized ≡ true
    → s.metric_store ≡ []
    → p.engine ≡ some (store_all xs s)
    → now < u64_mod
    → 3_600_000_000_000 ≤ now
    → let p' = on_query_clicked localtime now later metric p in
      let found = map record_of (last_hour now later xs) in
      (p'.current_records ≡ found)
      × (p'.playback.records ≡ found)
      × (p'.playback.current_index ≡ 0)
      × (p'.history_table ≡ map (row_for localtime) (last_hour now later xs))
      × (p'.history_chart.buffer
          ≡ last_of 60
              (map (λ (x : MetricSnapshot W). x.cpu.total_utilization) (last_hour now later xs)))
unfolding on_query_clicked
on_query_clicked-store_all W localtime now later metric xs s p i e g h k =
    let from : sub_u64 now 3_600_000_000_000 ≡ now - 3_600_000_000_000 =
      sub_u64-eq-sub now 3_600_000_000_000 h k in
    let found = map record_of (last_hour now later xs) in
    let q : HistoryQuery = record {
      start_time = now - 3_600_000_000_000;
      end_time = later;
      metric_type = metric;
    } in
    let (a, b, c, t, f) =
      show_result-ok W localtime (query p.engine q) found p
        (query-store_all q xs s p.engine i e g) in
    rw from (
      a,
      b,
      c,
      t ∙ rows_of-record_of W localtime (last_hour now later xs),
      f ∙ ap (last_of max_points) (values_of-record_of (last_hour now later xs)),
    )
