-- ===== src/Tests/Gates.antt =====
-- The gate, the road and the executors on concrete lists.
use kelcoro.Base.{◌-◌, ◌≡◌, refl, true, false, inr, ◌&&◌, [], ◌∷◌, arith, ◌==◌, if◌then◌else◌}
use kelcoro.Node.{null, done, fault}
use kelcoro.Memory.Returns.{Returns}
use kelcoro.Executor.{attach_list, this_thread_attach}
use kelcoro.Executor.AttachList.{attach_each, attach_list-each}
use kelcoro.Executor.ThisThread.{tasks, resume_each}
use kelcoro.Road.{Road, open_road}
use kelcoro.Road.Laws.{open_road-each}
use kelcoro.Gate.{Gate, leave}
use kelcoro.Gate.Waking.{drained, leave-branches}
use kelcoro.Gate.Calls.{IsGate, leaves, Called, call, call-Called}
use kelcoro.Tests.{memory, pair_1, queue_1, queue_1-IsQueue, note, note-Spares}

attach_list-each_example :
    attach_list (this_thread_attach note) 3 ([], tt) 1 memory
    ≡ attach_each (this_thread_attach note) (1 ∷ 2 ∷ []) ([], tt) memory
attach_list-each_example =
    attach_list-each (this_thread_attach note) (λ _ _ _. Unit {0}) note-Spares 3 ([], tt) pair_1 tt
      (ground arith)

abbrev road_1 : Road
road_1 = record { waiters = queue_1; is_closed = true }

open_road-each_example :
    open_road (this_thread_attach note) 3 ([], road_1) memory
    ≡ attach_each
        (this_thread_attach note)
        (1 ∷ 2 ∷ [])
        ([], record { waiters = record queue_1 { first = null }; is_closed = false })
        memory
open_road-each_example =
    open_road-each (this_thread_attach note) (λ _ _ _. Unit {0}) note-Spares 3 [] road_1
      (1 ∷ 2 ∷ []) queue_1-IsQueue tt (ground arith)

abbrev gate_1 : Gate
gate_1 = record { count = 1; close_waiters = queue_1; close_requested = true }

leave-branches_example : leave note 3 ([], gate_1) memory ≡ (
    if gate_1.count == 0
    then fault
    else if gate_1.close_requested && gate_1.count == 1
    then resume_each note (tasks memory (1 ∷ 2 ∷ [])) ([], drained gate_1) memory
    else done ([], record gate_1 { count = gate_1.count - 1 }) memory)
leave-branches_example =
    leave-branches note (λ _ _ _. Unit {0}) note-Spares 3 [] gate_1 (1 ∷ 2 ∷ []) queue_1-IsQueue
      (ground arith) tt (ground arith)

gate_1-IsGate : IsGate memory gate_1 (1 ∷ 2 ∷ [])
gate_1-IsGate = record {
  queue = queue_1-IsQueue;
  small = ground arith;
  waiting = inr (refl, ground arith);
}

call-Called_example : Returns (Called memory [] (1 ∷ 2 ∷ []) []) (call 3 leaves ([], gate_1) memory)
call-Called_example =
    call-Called 3 leaves [] gate_1 (1 ∷ 2 ∷ []) gate_1-IsGate (ground arith) (ground arith)
