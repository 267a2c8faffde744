-- ===== src/Tests/Queues.antt =====
-- The queues and the road on concrete lists.
use kelcoro.Base.{◌≡◌, refl, some, [], ◌∷◌, arith, ◌==◌, List}
use kelcoro.Node.{Ptr, null}
use kelcoro.Node.Chain.{cargo}
use kelcoro.Memory.Returns.{Returns}
use kelcoro.AwaitersQueue.Fifo.{IsQueue}
use kelcoro.TaskQueue.{TaskQueue, push_deadpill}
use kelcoro.TaskQueue.Laws.{as_awaiters, push_deadpill-IsQueue}
use kelcoro.Tests.{node, memory, node_5-Live, node_6-Live, queue_1-IsQueue}

abbrev queued : List Ptr
queued = 1 ∷ 2 ∷ []

abbrev task_queue_1 : TaskQueue
task_queue_1 = record { first = 1; last = 2 }

push_deadpill-IsQueue_example :
    Returns
      (λ r t.
        IsQueue t (as_awaiters r.0) (1 ∷ 2 ∷ 6 ∷ 5 ∷ [])
        × (cargo (t 6) ≡ some (0, (node 0 0).status))
        × (cargo (t 5) ≡ some (25, (node 0 15).status))
        × (r.1 ≡ (1 == null)))
      (push_deadpill task_queue_1 6 5 25 memory)
push_deadpill-IsQueue_example =
    push_deadpill-IsQueue task_queue_1 (1 ∷ 2 ∷ []) 6 5 25 queue_1-IsQueue node_6-Live node_5-Live
      refl (ground arith) (λ a i. ground arith)
