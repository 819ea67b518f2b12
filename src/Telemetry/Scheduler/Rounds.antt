-- ===== src/Telemetry/Scheduler/Rounds.antt =====
-- What a round of the scheduler calls, and the deadlines that it leaves.
use mathlib.Core.List.{append-nil}
use sys_scope.Base.{
  ℕ, ◌+◌, ◌*◌, ◌≤◌, ◌<◌, ◌≡◌, refl, ap, ◌⊎◌, inl, true, false, not, ◌&&◌, List, [], ◌∷◌, map, some,
  arith, ltb, keep, length, All, if◌then◌else◌,
}
use sys_scope.Telemetry.Scheduler.{
  SamplingTask, TelemetryScheduler, interval_ns, start, stop, min_deadline, min_deadline_from,
  next_deadline_of, is_ready, run_task, run_ready, run_tasks, round, elapsed, stopped,
}

-- The callbacks that one pass calls: those of the ready tasks that have one, in their order.
run_ready-calls :
    (now : ℕ) (ts : List SamplingTask)
    → (run_ready now ts).0 ≡ map (λ t. t.name) (keep (λ t. is_ready now t && t.has_callback) ts)
unfolding run_ready
run_ready-calls now [] = refl
run_ready-calls now (t ∷ ts) = ground (arith, run_ready-calls now ts)

run_ready-tasks : (now : ℕ) (ts : List SamplingTask) → (run_ready now ts).1 ≡ map (run_task now) ts
unfolding run_ready
run_ready-tasks now [] = refl
run_ready-tasks now (t ∷ ts) = ap (◌∷◌ (run_task now t)) (run_ready-tasks now ts)

-- No task is overdue behind a pass: a task that ran is due one interval after its last deadline or
-- after `now`, whichever is not past.
run_task-due : (now : ℕ) (t : SamplingTask) → now ≤ (run_task now t).next_deadline
unfolding run_task next_deadline_of
run_task-due now t = ground arith

map-run_task-due :
    (now : ℕ) (ts : List SamplingTask) → All (λ t. now ≤ t.next_deadline) (map (run_task now) ts)
map-run_task-due now [] = tt
map-run_task-due now (t ∷ ts) = (run_task-due now t, map-run_task-due now ts)

-- A task that is served at these times, each time no later than one interval past its deadline.
abbrev IsPunctual : SamplingTask → List ℕ → Type 0
IsPunctual t [] = Unit
IsPunctual t (now ∷ nows) =
    (t.next_deadline ≤ now)
    × (now ≤ t.next_deadline + interval_ns t.interval)
    × IsPunctual (run_task now t) nows

pub serve : SamplingTask → List ℕ → SamplingTask
serve t [] = t
serve t (now ∷ nows) = serve (run_task now t) nows

run_task-punctual :
    (now : ℕ) (t : SamplingTask)
    → t.next_deadline ≤ now
    → now ≤ t.next_deadline + interval_ns t.interval
    → ((run_task now t).next_deadline ≡ t.next_deadline + interval_ns t.interval)
      × ((run_task now t).interval ≡ t.interval)
unfolding run_task next_deadline_of
run_task-punctual now t h k = ground arith

-- A task that is served each time when it is due, and no later than one interval past its deadline,
-- does not drift: whatever the jitter of the times, its deadline moves by exactly one interval for
-- each of them.
pub serve_no_drift :
    (t : SamplingTask) (nows : List ℕ)
    → IsPunctual t nows
    → (serve t nows).next_deadline ≡ t.next_deadline + length nows * interval_ns t.interval
unfolding serve
serve_no_drift t [] h = omega arith
serve_no_drift t (now ∷ nows) h =
    let one = run_task-punctual now t h.0 h.1 in
    omega (
      arith,
      one,
      ap (λ (k : ℕ). length nows * (k * 1_000_000)) one.1,
      serve_no_drift (run_task now t) nows h.2,
    )

-- The earliest deadline is due at a time only if some task is ready then.
min_deadline_from-ready :
    (now best : ℕ) (ts : List SamplingTask)
    → min_deadline_from best ts ≤ now
    → (best ≤ now) ⊎ (0 < length (keep (is_ready now) ts))
unfolding min_deadline_from
min_deadline_from-ready now best [] h = inl h
min_deadline_from-ready now best (t ∷ ts) h = ground (
  arith,
  min_deadline_from-ready now (if ltb t.next_deadline best then t.next_deadline else best) ts h,
)

min_deadline-ready :
    (now m : ℕ) (ts : List SamplingTask)
    → min_deadline ts ≡ some m
    → m ≤ now
    → 0 < length (keep (is_ready now) ts)
unfolding min_deadline
min_deadline-ready now m [] e h = cc
min_deadline-ready now m (t ∷ ts) e h =
    ground (arith, min_deadline_from-ready now t.next_deadline ts)

-- What `wait_until` and the steady clock promise of a round that is not stopped: time does not go
-- back, and the wait does not end before the deadline `m`.
abbrev IsTimely : ℕ → ℕ → ℕ → Type 0
IsTimely m now now' = (now ≤ now') × (m ≤ now')

round-elapsed :
    (now now' m : ℕ) (s : TelemetryScheduler)
    → s.running ≡ true
    → min_deadline s.tasks ≡ some m
    → round now now' (elapsed []) s ≡ run_tasks now' s
unfolding round
round-elapsed now now' m s r e = rw (r, e, append-nil s.tasks) (ground arith)

-- A round of a running scheduler that has tasks, and that no `stop` and no new task meets, finds a
-- task that is ready, calls the callbacks of the ready tasks in their order, leaves no task overdue,
-- and keeps running, if the clock does not go back and the wait does not end before the earliest
-- deadline.
pub round_progress :
    (now now' m : ℕ) (s : TelemetryScheduler)
    → s.running ≡ true
    → min_deadline s.tasks ≡ some m
    → IsTimely m now now'
    → let r = round now now' (elapsed []) s in
      (0 < length (keep (is_ready now') s.tasks))
      × (r.calls ≡ map (λ t. t.name) (keep (λ t. is_ready now' t && t.has_callback) s.tasks))
      × All (λ t. now' ≤ t.next_deadline) r.state.tasks
      × (r.state.running ≡ true)
unfolding run_tasks
round_progress now now' m s r e h = rw (round-elapsed now now' m s r e) (
  min_deadline-ready now' m s.tasks e h.1,
  run_ready-calls now' s.tasks,
  rw run_ready-tasks (map-run_task-due now' s.tasks),
  r,
)

-- A round that a `stop` ends, with the earliest deadline `m` still ahead at `now`, calls nothing, keeps
-- the tasks and leaves the scheduler not running.
pub round_stopped :
    (now now' m : ℕ) (s : TelemetryScheduler)
    → min_deadline s.tasks ≡ some m
    → now < m
    → let r = round now now' stopped s in
      (r.calls ≡ []) × (r.state.running ≡ false) × (r.state.tasks ≡ s.tasks)
unfolding round
round_stopped now now' m s e h = rw e (ground arith)

-- A worker is started only where none runs, and joined only where one runs; a second start or stop
-- does nothing, and the tasks are kept.
pub start-stop_lem :
    (s : TelemetryScheduler)
    → ((start s).1 ≡ not s.running)
      × ((start (start s).0) ≡ ((start s).0, false))
      × ((stop s).1 ≡ s.running)
      × ((stop (stop s).0) ≡ ((stop s).0, false))
      × ((stop (start s).0).0 ≡ record s { running = false })
      × ((start s).0.tasks ≡ s.tasks)
unfolding start stop
start-stop_lem s = ground arith
