-- ===== src/Telemetry/Queue/Laws.antt =====
-- The queue as a bounded FIFO that drops its oldest element.
use sys_scope.Base.{
  ℕ, ◌+◌, ◌-◌, ◌≤◌, ◌<◌, ◌≡◌, refl, sym, ap, inl, inr, List, [], ◌∷◌, ◌++◌, arith, length,
  length-append, drop, leb, Bool-cases, add_u64, if◌then◌else◌,
}
use sys_scope.Telemetry.Queue.{
  BoundedQueue, Call, pushes, pops, waits, shuts, new, push, pop, wait_and_pop, shut_down, step,
  run, pop_front, is_full, take_front,
}

-- The queue never holds more than its capacity, which is not 0.
pub record IsBounded {ℓ} {A : Type ℓ} (q : BoundedQueue A) : Type 0 where
  pub positive : 0 < q.capacity
  pub within : length q.queue ≤ q.capacity

module _ {ℓ} {A : Type ℓ} where
  pub new-IsBounded : (capacity : ℕ) → IsBounded {A = A} (new capacity)
  unfolding new
  new-IsBounded capacity = ground arith

  length-pop_front : (xs : List A) → length (pop_front xs) ≡ length xs - 1
  length-pop_front [] = omega arith
  length-pop_front (x ∷ xs) = omega arith

  push-IsBounded : (x : A) (q : BoundedQueue A) → IsBounded q → IsBounded (push x q)
  unfolding push
  push-IsBounded x q v = ground (
    arith,
    length-append q.queue (x ∷ []),
    length-append (pop_front q.queue) (x ∷ []),
    length-pop_front q.queue,
  )

  take_front-IsBounded :
      (xs : List A) (q : BoundedQueue A)
      → q.queue ≡ xs
      → IsBounded q
      → IsBounded (take_front xs q).1
  unfolding take_front
  take_front-IsBounded [] q e v = v
  take_front-IsBounded (x ∷ xs) q e v = record {
    positive = v.positive;
    within = omega (arith, v.within, ap length e);
  }

  pop-IsBounded : (q : BoundedQueue A) → IsBounded q → IsBounded (pop q).1
  unfolding pop
  pop-IsBounded q v = take_front-IsBounded q.queue q refl v

  wait_and_pop-IsBounded : (q : BoundedQueue A) → IsBounded q → IsBounded (wait_and_pop q).1
  unfolding wait_and_pop
  wait_and_pop-IsBounded q v = ground (arith, take_front-IsBounded q.queue q refl v)

  pub step-IsBounded : (c : Call A) (q : BoundedQueue A) → IsBounded q → IsBounded (step c q).1
  unfolding step shut_down
  step-IsBounded (pushes x) q v = push-IsBounded x q v
  step-IsBounded pops q v = pop-IsBounded q v
  step-IsBounded waits q v = wait_and_pop-IsBounded q v
  step-IsBounded shuts q v = record { positive = v.positive; within = v.within }

  run-IsBounded : (cs : List (Call A)) (q : BoundedQueue A) → IsBounded q → IsBounded (run cs q).1
  unfolding run
  run-IsBounded [] q v = v
  run-IsBounded (c ∷ cs) q v = run-IsBounded cs (step c q).1 (step-IsBounded c q v)

  -- After any sequence of calls on a new queue, whatever capacity was asked for, the queue holds at
  -- most its capacity, and the capacity is not 0.
  pub run-new-IsBounded : (capacity : ℕ) (cs : List (Call A)) → IsBounded (run cs (new capacity)).1
  run-new-IsBounded capacity cs = run-IsBounded cs (new capacity) (new-IsBounded capacity)

  -- The bounded FIFO that is promised: at the end of the queue, without the oldest beyond `cap`.
  abbrev pub offer : ℕ → A → List A → List A
  offer cap x xs = drop (length xs + 1 - cap) (xs ++ (x ∷ []))

  drop-one :
      (x : A) (xs : List A) → 0 < length xs → drop 1 (xs ++ (x ∷ [])) ≡ pop_front xs ++ (x ∷ [])
  drop-one x [] h = absurd (omega arith)
  drop-one x (y ∷ xs) h = refl

  -- `push` on a bounded queue is the offer of that FIFO: nothing is lost below the capacity, and at
  -- the capacity the oldest element alone, which the counter counts modulo 2^64.
  pub push_refines :
      (x : A) (q : BoundedQueue A)
      → IsBounded q
      → ((push x q).queue ≡ offer q.capacity x q.queue)
        × ((push x q).dropped_count ≡ (
            if leb q.capacity (length q.queue) then add_u64 q.dropped_count 1 else q.dropped_count))
        × ((push x q).capacity ≡ q.capacity)
        × ((push x q).shutdown ≡ q.shutdown)
  unfolding push
  push_refines x q v = elim (Bool-cases (is_full q)) [
    | inl e ↦
        let one : length q.queue + 1 - q.capacity ≡ 1 = ground arith in
        rw (e, one) (sym (drop-one x q.queue (ground arith)), refl, refl, refl)
    | inr e ↦
        let none_over : length q.queue + 1 - q.capacity ≡ 0 = ground arith in
        rw (e, none_over) (refl, refl, refl, refl)
  ]
