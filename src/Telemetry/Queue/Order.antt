-- ===== src/Telemetry/Queue/Order.antt =====
-- Nothing is lost or reordered but what is counted as dropped.
use mathlib.Core.List.{append_assoc, append-nil}
use sys_scope.Base.{
  ℕ, ◌+◌, ◌%◌, ◌<◌, ◌≡◌, refl, sym, ap, ◌∙◌, inl, inr, true, not, ◌||◌, List, [], ◌∷◌, ◌++◌, arith,
  length, length-append, Bool-cases, add_u64, u64_mod, if◌then◌else◌,
}
use sys_scope.Telemetry.Queue.{
  BoundedQueue, Call, pushes, pops, waits, shuts, new, push, pop, wait_and_pop, shut_down, step,
  run, pop_front, is_full, take_front, returned, is_empty,
}
use sys_scope.Telemetry.Queue.Laws.{IsBounded, new-IsBounded, step-IsBounded}

module _ {ℓ} {A : Type ℓ} where
  abbrev pub front : List A → List A
  front [] = []
  front (x ∷ xs) = x ∷ []

  -- What a `push` drops.
  abbrev dropped : Call A → BoundedQueue A → List A
  dropped (pushes x) q = if is_full q then front q.queue else []
  dropped pops q = []
  dropped waits q = []
  dropped shuts q = []

  abbrev pushed : Call A → List A
  pushed (pushes x) = x ∷ []
  pushed pops = []
  pushed waits = []
  pushed shuts = []

  front-append-pop_front : (xs : List A) → front xs ++ pop_front xs ≡ xs
  front-append-pop_front [] = refl
  front-append-pop_front (x ∷ xs) = refl

  -- What leaves the front in a call: what it drops, and what it hands out.
  abbrev leaves : Call A → BoundedQueue A → List A
  leaves c q = dropped c q ++ (step c q).0

  take_front-order :
      (xs : List A) (q : BoundedQueue A)
      → q.queue ≡ xs
      → returned (take_front xs q).0 ++ (take_front xs q).1.queue ≡ q.queue ++ []
  unfolding take_front
  take_front-order [] q e = rw e refl
  take_front-order (x ∷ xs) q e = rw e (ap (◌∷◌ x) (sym (append-nil xs)))

  step-order :
      (c : Call A) (q : BoundedQueue A) → leaves c q ++ (step c q).1.queue ≡ q.queue ++ pushed c
  unfolding step push pop wait_and_pop shut_down
  step-order (pushes x) q = elim (Bool-cases (is_full q)) [
    | inl e ↦ rw e (
        ap (λ (l : List A). l ++ (pop_front q.queue ++ (x ∷ []))) (append-nil (front q.queue))
        ∙ sym (append_assoc (front q.queue) (pop_front q.queue) (x ∷ []))
        ∙ ap (λ (l : List A). l ++ (x ∷ [])) (front-append-pop_front q.queue))
    | inr e ↦ rw e refl
  ]
  step-order pops q = take_front-order q.queue q refl
  step-order waits q = elim (Bool-cases (not (is_empty q.queue) || q.shutdown)) [
    | inl e ↦ rw e (take_front-order q.queue q refl)
    | inr e ↦ rw e (sym (append-nil q.queue))
  ]
  step-order shuts q = sym (append-nil q.queue)

  abbrev pub all_pushed : List (Call A) → List A
  all_pushed [] = []
  all_pushed (c ∷ cs) = pushed c ++ all_pushed cs

  abbrev pub all_leaves : List (Call A) → BoundedQueue A → List A
  all_leaves [] q = []
  all_leaves (c ∷ cs) q = leaves c q ++ all_leaves cs (step c q).1

  -- Over any sequence of calls the elements that leave, dropped or handed out, followed by what is
  -- still queued, are the elements that were queued followed by those that were pushed, in order.
  pub run-order :
      (cs : List (Call A)) (q : BoundedQueue A)
      → all_leaves cs q ++ (run cs q).1.queue ≡ q.queue ++ all_pushed cs
  unfolding run
  run-order [] q = sym (append-nil q.queue)
  run-order (c ∷ cs) q =
      append_assoc (leaves c q) (all_leaves cs (step c q).1) (run cs (step c q).1).1.queue
      ∙ ap (◌++◌ (leaves c q)) (run-order cs (step c q).1)
      ∙ sym (append_assoc (leaves c q) (step c q).1.queue (all_pushed cs))
      ∙ ap (λ (l : List A). l ++ all_pushed cs) (step-order c q)
      ∙ append_assoc q.queue (pushed c) (all_pushed cs)

  -- How many elements the pushes of a sequence of calls drop.
  abbrev pub drops : List (Call A) → BoundedQueue A → ℕ
  drops [] q = 0
  drops (c ∷ cs) q = length (dropped c q) + drops cs (step c q).1

  length-front-full :
      (q : BoundedQueue A) → IsBounded q → is_full q ≡ true → length (front q.queue) ≡ 1
  length-front-full q v e = full q.queue refl
    where
      full : (xs : List A) → q.queue ≡ xs → length (front xs) ≡ 1
      full [] h = absurd (ground (arith, v.positive, ap length h))
      full (x ∷ xs) h = refl

  take_front-dropped_count :
      (xs : List A) (q : BoundedQueue A) → (take_front xs q).1.dropped_count ≡ q.dropped_count
  unfolding take_front
  take_front-dropped_count [] q = refl
  take_front-dropped_count (x ∷ xs) q = refl

  step-dropped_count :
      (c : Call A) (q : BoundedQueue A)
      → IsBounded q
      → q.dropped_count < u64_mod
      → (step c q).1.dropped_count ≡ (q.dropped_count + length (dropped c q)) % u64_mod
  unfolding step push pop wait_and_pop shut_down add_u64
  step-dropped_count (pushes x) q v h = elim (Bool-cases (is_full q)) [
    | inl e ↦ rw (e, length-front-full q v e) refl
    | inr e ↦ rw e (omega arith)
  ]
  step-dropped_count pops q v h = rw (take_front-dropped_count q.queue q) (omega arith)
  step-dropped_count waits q v h = elim (Bool-cases (not (is_empty q.queue) || q.shutdown)) [
    | inl e ↦ rw (e, take_front-dropped_count q.queue q) (omega arith)
    | inr e ↦ rw e (omega arith)
  ]
  step-dropped_count shuts q v h = omega arith

  run-counts :
      (cs : List (Call A)) (q : BoundedQueue A)
      → IsBounded q
      → q.dropped_count < u64_mod
      → ((run cs q).1.dropped_count ≡ (q.dropped_count + drops cs q) % u64_mod)
        × (length (all_leaves cs q) ≡ length (run cs q).0 + drops cs q)
  unfolding run
  run-counts [] q v h = (omega arith, omega arith)
  run-counts (c ∷ cs) q v h =
      let one = step-dropped_count c q v h in
      let rest = run-counts cs (step c q).1 (step-IsBounded c q v) (omega (arith, one)) in
      (
        omega (arith, one, rest.0),
        omega (
          arith,
          rest.1,
          length-append (leaves c q) (all_leaves cs (step c q).1),
          length-append (dropped c q) (step c q).0,
          length-append (step c q).0 (run cs (step c q).1).0,
        ),
      )

  -- Over any sequence of calls on a new queue, every pushed element is handed out, still queued, or
  -- counted by `dropped_count`, which counts modulo 2^64.
  pub run-conserves :
      (capacity : ℕ) (cs : List (Call A))
      → let (out, q) = run cs (new capacity) in
        let n = drops cs (new capacity) in
        (length (all_pushed cs) ≡ length out + length q.queue + n) × (q.dropped_count ≡ n % u64_mod)
  unfolding new
  run-conserves capacity cs =
      let q = new {A = A} capacity in
      let counts = run-counts cs q (new-IsBounded capacity) (omega arith) in
      (
        omega (
          arith,
          counts.1,
          ap length (run-order cs q),
          length-append (all_leaves cs q) (run cs q).1.queue,
        ),
        omega (arith, counts.0),
      )
