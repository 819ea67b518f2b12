-- ===== src/Telemetry/Queue.antt =====
-- telemetry/queue.hpp: BoundedQueue. Every method holds the mutex, so a use by several threads is a
-- sequence of calls, each of them one step.
pub mod Laws
pub mod Order
mod Tests
use sys_scope.Base.{
  ℕ, ◌+◌, ◌%◌, ◌≡◌, Bool, true, false, not, ◌||◌, List, [], ◌∷◌, ◌++◌, Option, none, some, length,
  leb, ltb, if◌then◌else◌, add_u64,
}

-- The front of the deque is the head of the list.
pub record BoundedQueue {ℓ} (A : Type ℓ) : Type ℓ where
  pub capacity : ℕ
  pub queue : List A
  pub shutdown : Bool
  pub dropped_count : ℕ

module _ {ℓ} {A : Type ℓ} where
  pub new : ℕ → BoundedQueue A
  new capacity = record {
    capacity = if ltb 0 capacity then capacity else 8192;
    queue = [];
    shutdown = false;
    dropped_count = 0;
  }

  abbrev pub pop_front : List A → List A
  pop_front [] = []
  pop_front (x ∷ xs) = xs

  -- `queue_.size() >= capacity_`
  abbrev pub is_full : BoundedQueue A → Bool
  is_full q = leb q.capacity (length q.queue)

  pub push : A → BoundedQueue A → BoundedQueue A
  push x q =
      if is_full q
      then record q {
        queue = pop_front q.queue ++ (x ∷ []);
        dropped_count = add_u64 q.dropped_count 1;
      }
      else record q { queue = q.queue ++ (x ∷ []) }

  take_front : List A → BoundedQueue A → Option A × BoundedQueue A
  take_front [] q = (none, q)
  take_front (x ∷ xs) q = (some x, record q { queue = xs })

  pub pop : BoundedQueue A → Option A × BoundedQueue A
  unfolding take_front
  pop q = take_front q.queue q

  abbrev pub is_empty : List A → Bool
  is_empty [] = true
  is_empty (x ∷ xs) = false

  -- The part behind `wait_for`, in the state in which the wait ends: it returns what its predicate
  -- says there.
  pub wait_and_pop : BoundedQueue A → Option A × BoundedQueue A
  unfolding take_front
  wait_and_pop q = if not (is_empty q.queue) || q.shutdown then take_front q.queue q else (none, q)

  pub shut_down : BoundedQueue A → BoundedQueue A
  shut_down q = record q { shutdown = true }

pub data Call {ℓ} (A : Type ℓ) : Type ℓ where
  pushes : A → Call A
  pops waits shuts : Call A

module _ {ℓ} {A : Type ℓ} where
  abbrev pub returned : Option A → List A
  returned none = []
  returned (some x) = x ∷ []

  -- A call's new state, and what it hands out.
  pub step : Call A → BoundedQueue A → List A × BoundedQueue A
  step (pushes x) q = ([], push x q)
  step pops q = let (o, q') = pop q in (returned o, q')
  step waits q = let (o, q') = wait_and_pop q in (returned o, q')
  step shuts q = ([], shut_down q)

  -- All that a sequence of calls hands out, in order, and the state that it leaves.
  pub run : List (Call A) → BoundedQueue A → List A × BoundedQueue A
  run [] q = ([], q)
  run (c ∷ cs) q = let (out, q') = step c q in let (outs, q'') = run cs q' in (out ++ outs, q'')
