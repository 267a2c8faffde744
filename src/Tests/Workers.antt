-- ===== src/Tests/Workers.antt =====
-- The worker and the pool on concrete queues.
use kelcoro.Base.{
  ℕ, zero, suc, ◌≡◌, refl, true, false, none, some, List, [], ◌∷◌, arith, ◌==◌, has, get_elem?,
  subst₂,
}
use kelcoro.Node.{Ptr, null, Handle, Store, put, pure, continue, ◌>>=◌, read, set_status}
use kelcoro.Node.Chain.{Live, nil, cons, SameCargo}
use kelcoro.Memory.Returns.{Returns}
use kelcoro.AwaitersQueue.Fifo.{IsQueue}
use kelcoro.Executor.{this_thread_attach}
use kelcoro.Executor.AttachList.{attach_each, Spares, AllReady}
use kelcoro.OperationHash.{do_hash}
use kelcoro.TaskQueue.{TaskQueue, empty_queue}
use kelcoro.TaskQueue.Laws.{as_awaiters}
use kelcoro.Worker.{cancel_tasks, ends, worker_round}
use kelcoro.Worker.Cancel.{cancel, cancel_tasks-each}
use kelcoro.Worker.Loop.{worker_round-pill}
use kelcoro.ThreadPool.{ThreadPool, attach_list}
use kelcoro.ThreadPool.Select.{IsPool, Fresh, spread_lists, attach_list-IsPool}
use kelcoro.Tests.{
  Distinct, node, memory, pair_1, pair_3, pair_3-AllReady, queue_1-IsQueue, note, note-Spares,
}

abbrev Log : Type 0
Log = List Handle × TaskQueue

abbrev Waiting : Log → List Ptr → Store → Type 0
Waiting e ps s = Distinct ps

runs-Spares : Spares (this_thread_attach note) Waiting
runs-Spares e p ps s e' t i r = (i.1, (note-Spares e p ps s e' t tt r).1)

cancel-Spares : Spares (cancel note) Waiting
unfolding put read set_status
cancel-Spares e p ps s e' t i r = (i.1, λ a h. written a (ground (arith, i.0)))
  where
    written : (a : Ptr) → (a == p) ≡ false → t a ≡ s a
    written a ne = ground arith

abbrev queue_3 : TaskQueue
queue_3 = record { first = 3; last = 4 }

queue_3-IsQueue : IsQueue memory (as_awaiters queue_3) (3 ∷ 4 ∷ [])
queue_3-IsQueue = record { chain = pair_3; ends = refl }

cancel_tasks-each_example :
    cancel_tasks note 3 ([], queue_3) 1 memory
    ≡ attach_each (cancel note) (1 ∷ 2 ∷ []) ([], queue_3) memory
cancel_tasks-each_example =
    cancel_tasks-each note Waiting cancel-Spares 3 ([], queue_3) pair_1 (refl, (refl, tt))
      (ground arith)

-- A task, the dead pill and a task behind it.
abbrev stopped : Store
stopped = put (put (put (λ _. none) 1 (some (node 6 11))) 6 (some (node 2 0))) 2 (some (node 0 12))

abbrev stopped_queue : TaskQueue
stopped_queue = record { first = 1; last = 2 }

stopped_pill : Live stopped 6 (node 2 0)
unfolding put
stopped_pill = record { ne_null = ground arith; holds = refl }

stopped-IsQueue : IsQueue stopped (as_awaiters stopped_queue) (1 ∷ 6 ∷ 2 ∷ [])
unfolding put
stopped-IsQueue = record {
  chain =
      cons {n = node 6 11} (record { ne_null = ground arith; holds = refl }) refl
        (cons {n = node 2 0} (record { ne_null = ground arith; holds = refl }) refl
          (cons {n = node 0 12} (record { ne_null = ground arith; holds = refl }) refl nil));
  ends = refl;
}

stopped-AllReady : AllReady stopped (1 ∷ [])
unfolding put
stopped-AllReady a i = ground arith

worker_round-pill_example :
    worker_round note 3 ([], stopped_queue) stopped
    ≡ continue
        (attach_each
          (this_thread_attach note)
          (1 ∷ [])
          ([], record stopped_queue { first = null })
          stopped)
        (λ e. attach_each (cancel note) (2 ∷ []) e >>= λ e'. pure (ends e'))
worker_round-pill_example =
    worker_round-pill note Waiting runs-Spares cancel-Spares (λ e p ps s i. i.1) 3 [] stopped_queue
      stopped (1 ∷ []) (2 ∷ []) 6 stopped-IsQueue stopped-AllReady stopped_pill refl
      (refl, (refl, (refl, tt))) (ground arith)

-- Two workers; the first has two tasks, the second none.
abbrev pool : ThreadPool
pool = record { queues = record { first = 1; last = 2 } ∷ empty_queue ∷ [] }

abbrev pool_lists : List (List Ptr)
pool_lists = (1 ∷ 2 ∷ []) ∷ [] ∷ []

pool-IsQueue :
    (i : ℕ) (q : TaskQueue) (xs : List Ptr)
    → get_elem? pool.queues i ≡ some q
    → get_elem? pool_lists i ≡ some xs
    → IsQueue memory (as_awaiters q) xs
pool-IsQueue zero q xs e f =
    subst₂ (λ a b. IsQueue memory (as_awaiters a) b) (cc) (cc) queue_1-IsQueue
pool-IsQueue (suc zero) q xs e f =
    let idle : IsQueue memory (as_awaiters empty_queue) [] = record { chain = nil; ends = tt } in
    subst₂ (λ a b. IsQueue memory (as_awaiters a) b) (cc) (cc) idle
pool-IsQueue (suc (suc i)) q xs e f = ground arith

pool-settled :
    (i : ℕ) (xs : List Ptr) (a : Ptr) → get_elem? pool_lists i ≡ some xs → has a xs ≡ true → 0 ≡ i
pool-settled zero xs a e m = refl
pool-settled (suc zero) xs a e m = ground arith
pool-settled (suc (suc i)) xs a e m = ground arith

pool-IsPool : IsPool memory pool pool_lists
pool-IsPool = record {
  home = λ a. 0;
  some_worker = ground arith;
  sized = refl;
  queue = pool-IsQueue;
  settled = pool-settled;
}

pair_3-Fresh : (a : Ptr) → has a (3 ∷ 4 ∷ []) ≡ true → Fresh a pool_lists
pair_3-Fresh a m zero xs e = ground arith
pair_3-Fresh a m (suc zero) xs e = ground arith
pair_3-Fresh a m (suc (suc i)) xs e = ground arith

attach_list-IsPool_example :
    Returns
      (λ p t. IsPool t p (spread_lists (do_hash 3) (3 ∷ 4 ∷ []) pool_lists) × SameCargo memory t)
      (attach_list 3 pool 3 memory)
attach_list-IsPool_example =
    attach_list-IsPool 3 pool pool_lists pool-IsPool pair_3 pair_3-AllReady pair_3-Fresh
      (ground arith)

node_3-Live : Live memory 3 (node 4 13)
unfolding put
node_3-Live = record { ne_null = ground arith; holds = refl }
