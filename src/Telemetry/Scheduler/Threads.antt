-- ===== src/Telemetry/Scheduler/Threads.antt =====
-- The scheduler's threads, interleaved: who may hold `worker_thread_`, and when `stop` returns. The
-- mutex is free while a callback runs and while `stop` joins, and other threads' calls come in between.
use sys_scope.Base.{ℕ, zero, suc, ◌≡◌, refl, Bool, true, false, List, [], ◌∷◌, Text}
use sys_scope.Telemetry.Scheduler.{
  SamplingTask, TelemetryScheduler, idle, add_task, start, stop, run_task,
}

-- `worker_thread_`: not joinable, in `run_loop` with the mutex or in its waits, in `run_loop` inside the
-- callback of a task and without the mutex, or returned from `run_loop` and not joined yet.
pub data Worker : Type 0 where
  absent looping returned : Worker
  calling : (task now : ℕ) → Worker

-- `live s w stopping`, where `stopping` says that a call of `stop` has given up the mutex and not
-- returned. `terminated` is std::terminate, and `dangling` a push_back while the worker holds a
-- reference into the vector.
pub data Machine : Type 0 where
  live : TelemetryScheduler → Worker → Bool → Machine
  terminated dangling : Machine

abbrev pub machine : Machine
machine = live idle absent false

-- `worker_thread_ = std::thread(…)`, where `start` says that one is made; the assignment to a thread
-- that is joinable terminates the program.
unfoldable pub launch : TelemetryScheduler × Bool → Worker → Bool → Machine
launch (s, false) w stopping = live s w stopping
launch (s, true) absent stopping = live s looping stopping
launch (s, true) looping stopping = terminated
launch (s, true) returned stopping = terminated
launch (s, true) (calling i now) stopping = terminated

-- `stop` returns at once, or goes on to the join.
abbrev pub unlocked : TelemetryScheduler × Bool → Worker → Machine
unlocked (s, joins) w = live s w joins

-- The body of the pass for task number `i` alone.
pub run_at : ℕ → ℕ → List SamplingTask → List SamplingTask
run_at now i [] = []
run_at now zero (t ∷ ts) = run_task now t ∷ ts
run_at now (suc i) (t ∷ ts) = t ∷ run_at now i ts

pub serve_at : ℕ → ℕ → TelemetryScheduler → TelemetryScheduler
unfolding run_at
serve_at now i s = record s { tasks = run_at now i s.tasks }

-- Without `careless`, one thread at a time, never the worker, calls `start` and `stop`, and none calls
-- add_task while a callback runs. The worker may serve any task at any time that it is in `run_loop`, which is more than
-- the passes do; `serves` is for a task whose callback is not called.
pub data Step (careless : Bool) : Machine → Machine → Type 0 where
  starts :
      (s : TelemetryScheduler) (w : Worker)
      → Step careless (live s w false) (launch (start s) w false)
  stops :
      (s : TelemetryScheduler) (w : Worker) → Step careless (live s w false) (unlocked (stop s) w)
  adds :
      (now : ℕ) (name : Text) (interval : ℕ) (has_callback : Bool) (s : TelemetryScheduler)
      (b : Bool)
      → Step careless
          (live s looping b)
          (live (add_task now name interval has_callback s) looping b)
  adds_alone :
      (now : ℕ) (name : Text) (interval : ℕ) (has_callback : Bool) (s : TelemetryScheduler)
      (b : Bool)
      → Step careless (live s absent b) (live (add_task now name interval has_callback s) absent b)
  adds_behind :
      (now : ℕ) (name : Text) (interval : ℕ) (has_callback : Bool) (s : TelemetryScheduler)
      (b : Bool)
      → Step careless
          (live s returned b)
          (live (add_task now name interval has_callback s) returned b)
  serves :
      (now i : ℕ) (s : TelemetryScheduler) (b : Bool)
      → Step careless (live s looping b) (live (serve_at now i s) looping b)
  calls :
      (now i : ℕ) (s : TelemetryScheduler) (b : Bool)
      → Step careless (live s looping b) (live s (calling i now) b)
  called :
      (now i : ℕ) (s : TelemetryScheduler) (b : Bool)
      → Step careless (live s (calling i now) b) (live (serve_at now i s) looping b)
  leaves :
      (s : TelemetryScheduler) (b : Bool)
      → s.running ≡ false
      → Step careless (live s looping b) (live s returned b)
  joined : (s : TelemetryScheduler) → Step careless (live s returned true) (live s absent false)
  none_to_join : (s : TelemetryScheduler) → Step careless (live s absent true) (live s absent false)
  starts_meanwhile :
      (s : TelemetryScheduler) (w : Worker)
      → careless ≡ true
      → Step careless (live s w true) (launch (start s) w true)
  adds_meanwhile :
      (now i : ℕ) (s : TelemetryScheduler) (b : Bool)
      → careless ≡ true
      → Step careless (live s (calling i now) b) dangling

pub data Run (careless : Bool) (m : Machine) : Machine → Type 0 where
  here : Run careless m m
  next : {k l : Machine} → Run careless m k → Step careless k l → Run careless m l

-- There is a worker exactly while the scheduler runs or a `stop` joins it, and the program goes on.
abbrev pub IsSound : Machine → Type 0
IsSound (live s absent stopping) = (s.running ≡ false) × (stopping ≡ false)
IsSound (live s looping false) = s.running ≡ true
IsSound (live s looping true) = s.running ≡ false
IsSound (live s (calling i now) false) = s.running ≡ true
IsSound (live s (calling i now) true) = s.running ≡ false
IsSound (live s returned stopping) = (s.running ≡ false) × (stopping ≡ true)
IsSound terminated = ⊥
IsSound dangling = ⊥

-- A `stop` that joins can still return, if callbacks do.
abbrev pub Returns : Machine → Type 0
Returns (live s w true) =
    (s' : TelemetryScheduler) × (s'.running ≡ false)
    × Run false (live s w true) (live s' absent false)
Returns (live s w false) = Unit
Returns terminated = Unit
Returns dangling = Unit

-- With a second thread the program can terminate: its `start` finds a `stop` between the unlock and the
-- join, and assigns over the thread that is joinable.
pub careless-terminates : Run true machine terminated
unfolding start stop launch
careless-terminates =
    next (next (next here (starts idle absent)) (stops (start idle).0 looping))
      (starts_meanwhile (stop (start idle).0).0 looping refl)

-- And an add_task during a callback can reallocate the vector under the worker's reference.
pub careless-dangles : Run true machine dangling
unfolding start launch
careless-dangles =
    next (next (next here (starts idle absent)) (calls 5 0 (start idle).0 false))
      (adds_meanwhile 5 0 (start idle).0 false refl)
