-- ===== src/Telemetry/Scheduler.antt =====
-- telemetry/scheduler.hpp and scheduler.cpp. Times are nanoseconds of the steady clock; `run_loop` is
-- a round at a time, with the clock readings of the round as arguments. The callbacks run unlocked;
-- Threads has a step of its own for the call of one, a round here has no call in between.
pub mod Rounds
pub mod Threads
mod Tests
use sys_scope.Base.{
  ℕ, ◌+◌, ◌*◌, ◌≡◌, Bool, true, false, List, [], ◌∷◌, ◌++◌, Option, none, some, Text, ltb, leb,
  if◌then◌else◌,
}

-- `has_callback` is the test `if (task.callback)`; the interval is in milliseconds.
pub record SamplingTask : Type 0 where
  pub name : Text
  pub interval : ℕ
  pub next_deadline : ℕ
  pub has_callback : Bool

pub record TelemetryScheduler : Type 0 where
  pub tasks : List SamplingTask
  pub running : Bool

abbrev pub idle : TelemetryScheduler
idle = record { tasks = []; running = false }

abbrev pub interval_ns : ℕ → ℕ
interval_ns ms = ms * 1_000_000

pub add_task : ℕ → Text → ℕ → Bool → TelemetryScheduler → TelemetryScheduler
add_task now name interval has_callback s = record s { tasks = s.tasks ++ (task ∷ []) }
  where
    task : SamplingTask
    task = record {
      name = name;
      interval = interval;
      next_deadline = now + interval_ns interval;
      has_callback = has_callback;
    }

-- The second component tells whether a worker thread is started, or joined.
pub start : TelemetryScheduler → TelemetryScheduler × Bool
start s = if s.running then (s, false) else (record s { running = true }, true)

pub stop : TelemetryScheduler → TelemetryScheduler × Bool
stop s = if s.running then (record s { running = false }, true) else (s, false)

-- `std::min_element` by deadline: the earliest deadline.
min_deadline_from : ℕ → List SamplingTask → ℕ
min_deadline_from best [] = best
min_deadline_from best (t ∷ ts) =
    min_deadline_from (if ltb t.next_deadline best then t.next_deadline else best) ts

pub min_deadline : List SamplingTask → Option ℕ
unfolding min_deadline_from
min_deadline [] = none
min_deadline (t ∷ ts) = some (min_deadline_from t.next_deadline ts)

-- The deadline after a run: one interval after the last, or after `now` for a task that is late.
pub next_deadline_of : ℕ → SamplingTask → ℕ
next_deadline_of now t =
    let next = t.next_deadline + interval_ns t.interval in
    if ltb next now then now + interval_ns t.interval else next

abbrev pub is_ready : ℕ → SamplingTask → Bool
is_ready now t = leb t.next_deadline now

pub run_task : ℕ → SamplingTask → SamplingTask
run_task now t = if is_ready now t then record t { next_deadline = next_deadline_of now t } else t

calls_of : ℕ → SamplingTask → List Text
calls_of now t = if is_ready now t then (if t.has_callback then t.name ∷ [] else []) else []

-- `for (auto& task : tasks_)`: the callbacks that are called, in order, and the new deadlines.
pub run_ready : ℕ → List SamplingTask → List Text × List SamplingTask
unfolding calls_of
run_ready now [] = ([], [])
run_ready now (t ∷ ts) =
    let (calls, ts') = run_ready now ts in (calls_of now t ++ calls, run_task now t ∷ ts')

-- What ends the wait of a round: the time, with the tasks that were added meanwhile, or a `stop`.
pub data Wake : Type 0 where
  elapsed : List SamplingTask → Wake
  stopped : Wake

pub record Round : Type 0 where
  pub calls : List Text
  pub state : TelemetryScheduler

run_tasks : ℕ → TelemetryScheduler → Round
run_tasks now s =
    let (calls, ts) = run_ready now s.tasks in
    record { calls = calls; state = record s { tasks = ts } }

quiet : TelemetryScheduler → Round
quiet s = record { calls = []; state = s }

after_wait : ℕ → Wake → TelemetryScheduler → Round
unfolding run_tasks quiet
after_wait now (elapsed added) s = run_tasks now (record s { tasks = s.tasks ++ added })
after_wait now stopped s = quiet (record s { running = false })

wait_for_deadline : ℕ → ℕ → Wake → TelemetryScheduler → Option ℕ → Round
unfolding after_wait run_tasks quiet
wait_for_deadline now now' wake s none = quiet s
wait_for_deadline now now' wake s (some deadline) =
    if ltb now deadline then after_wait now' wake s else run_tasks now' s

-- A round of `while (running_)`: `now` is read before the wait, `now'` behind it.
pub round : ℕ → ℕ → Wake → TelemetryScheduler → Round
unfolding wait_for_deadline
round now now' wake s =
    if s.running then wait_for_deadline now now' wake s (min_deadline s.tasks) else quiet s
