-- ===== src/Telemetry/Scheduler/Tests.antt =====
-- The theorems on the scheduler at two tasks.
use sys_scope.Base.{
  ℕ, ◌+◌, ◌*◌, ◌≤◌, ◌<◌, ◌≡◌, refl, true, ◌&&◌, List, [], ◌∷◌, map, some, arith, codes, keep,
  length, All,
}
use sys_scope.Telemetry.Scheduler.{
  SamplingTask, TelemetryScheduler, min_deadline, min_deadline_from, is_ready, interval_ns, round,
  elapsed, run_task, next_deadline_of, idle, start, stop, add_task,
}
use sys_scope.Telemetry.Scheduler.Threads.{Machine, calling, calls, unlocked}
use sys_scope.Telemetry.Scheduler.Rounds.{serve, serve_no_drift, round_progress}

abbrev cpu_task : SamplingTask
cpu_task = record {
  name = codes "cpu";
  interval = 1;
  next_deadline = 1_000_000;
  has_callback = true;
}

abbrev disk_task : SamplingTask
disk_task = record {
  name = codes "disk";
  interval = 5;
  next_deadline = 5_000_000;
  has_callback = true;
}

abbrev busy : TelemetryScheduler
busy = record { tasks = cpu_task ∷ (disk_task ∷ []); running = true }

earliest : min_deadline busy.tasks ≡ some 1_000_000
unfolding min_deadline min_deadline_from
earliest = refl

round_progress_example :
    let r = round 10 1_000_200 (elapsed []) busy in
    (0 < length (keep (is_ready 1_000_200) busy.tasks))
    × (r.calls ≡ map (λ t. t.name) (keep (λ t. is_ready 1_000_200 t && t.has_callback) busy.tasks))
    × All (λ t. 1_000_200 ≤ t.next_deadline) r.state.tasks
    × (r.state.running ≡ true)
round_progress_example =
    round_progress 10 1_000_200 1_000_000 busy refl earliest (omega arith, omega arith)

abbrev late : List ℕ
late = 1_000_300 ∷ (2_900_000 ∷ [])

serve_no_drift_example :
    (serve cpu_task late).next_deadline
    ≡ cpu_task.next_deadline + length late * interval_ns cpu_task.interval
unfolding run_task next_deadline_of
serve_no_drift_example =
    serve_no_drift cpu_task late (omega arith, omega arith, (omega arith, omega arith, tt))

-- Started with a task, and in the middle of a `stop` that came during the task's callback.
abbrev with_task : TelemetryScheduler
with_task = add_task 7 (codes "cpu") 10 true (start idle).0

abbrev stopping : Machine
stopping = unlocked (stop with_task) (calling 0 20_000_000)
