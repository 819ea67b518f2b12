-- ===== src/Telemetry/Queue/Tests.antt =====
-- The theorems on the queue at a queue of two places.
use sys_scope.Base.{
  ℕ, ◌+◌, ◌%◌, ◌≡◌, refl, List, [], ◌∷◌, ◌++◌, arith, length, leb, if◌then◌else◌, add_u64, u64_mod,
  false,
}
use sys_scope.Telemetry.Queue.{BoundedQueue, Call, pushes, pops, waits, shuts, new, push, run}
use sys_scope.Telemetry.Queue.Laws.{offer, push_refines}
use sys_scope.Telemetry.Queue.Order.{all_leaves, all_pushed, drops, run-order, run-conserves}

abbrev calls : List (Call ℕ)
calls = pushes 1 ∷ (pushes 2 ∷ (pushes 3 ∷ (pops ∷ (shuts ∷ (waits ∷ (pushes 4 ∷ []))))))

abbrev full : BoundedQueue ℕ
full = record { capacity = 2; queue = 7 ∷ (8 ∷ []); shutdown = false; dropped_count = 5 }

run-order_example :
    all_leaves calls full ++ (run calls full).1.queue ≡ full.queue ++ all_pushed calls
run-order_example = run-order calls full

run-conserves_example :
    let (out, q) = run calls (new 2) in
    let n = drops calls (new 2) in
    (length (all_pushed calls) ≡ length out + length q.queue + n) × (q.dropped_count ≡ n % u64_mod)
run-conserves_example = run-conserves 2 calls

push_refines_example :
    ((push 9 full).queue ≡ offer full.capacity 9 full.queue)
    × ((push 9 full).dropped_count ≡ (
        if leb full.capacity (length full.queue)
        then add_u64 full.dropped_count 1
        else full.dropped_count))
    × ((push 9 full).capacity ≡ full.capacity)
    × ((push 9 full).shutdown ≡ full.shutdown)
push_refines_example = push_refines 9 full (record { positive = omega arith; within = omega arith })

push-full : (push 9 full).queue ≡ 8 ∷ (9 ∷ [])
unfolding push
push-full = refl
