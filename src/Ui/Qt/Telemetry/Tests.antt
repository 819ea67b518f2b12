-- ===== src/Ui/Qt/Telemetry/Tests.antt =====
-- Two polls, one of them delivered.
use sys_scope.Base.{◌≡◌, List, [], ◌∷◌, ◌++◌, arith, Micro, micro_double}
use sys_scope.Core.Snapshot.{MetricSnapshot, blank_snapshot}
use sys_scope.Samples.{overheated}
use sys_scope.Ui.Qt.Telemetry.{Bridge, new_model}
use sys_scope.Ui.Qt.Telemetry.Ring.{
  Event, posts, dispatches, run, posted, IsCaughtUp, run-IsCaughtUp,
}

abbrev idle_bridge : Bridge Micro
idle_bridge = record { pending = []; model = new_model }

abbrev two_polls : List (Event Micro)
two_polls = posts overheated ∷ dispatches ∷ posts (blank_snapshot 9) ∷ []

run-IsCaughtUp_example :
    (ss : List (MetricSnapshot Micro)) × (posted two_polls
      ≡ ss ++ (run two_polls idle_bridge).0.pending)
    × IsCaughtUp idle_bridge (run two_polls idle_bridge).0 (run two_polls idle_bridge).1 ss
run-IsCaughtUp_example = run-IsCaughtUp two_polls idle_bridge (omega arith)
