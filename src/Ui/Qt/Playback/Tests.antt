-- ===== src/Ui/Qt/Playback/Tests.antt =====
-- Two records played, with time to spare.
use sys_scope.Base.{ℕ, [], ◌∷◌, codes, Micro, micro_double}
use sys_scope.Storage.{HistoricalMetricRecord}
use sys_scope.Ui.Qt.Playback.{
  new_playback, playback_record, playback_finished, load_records, start, timeouts,
}
use sys_scope.Ui.Qt.Playback.Rounds.{IsPlayed, play_all}

abbrev reading : ℕ → HistoricalMetricRecord Micro
reading time = record {
  timestamp_ns = time;
  metric_type = codes "cpu_utilization";
  entity = codes "system";
  value = 5_000_000;
  unit = codes "%";
  source = codes "procfs";
}

play_all_example :
    let (end, out) =
      timeouts 6 (start (load_records (reading 1 ∷ reading 2 ∷ []) (new_playback {W = Micro}))) in
    IsPlayed end out
      (playback_record (reading 1) ∷ playback_record (reading 2) ∷ playback_finished ∷ [])
      2
play_all_example = play_all 3 (reading 1) (reading 2 ∷ []) new_playback
