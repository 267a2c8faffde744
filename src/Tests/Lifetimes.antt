-- ===== src/Tests/Lifetimes.antt =====
-- Tasks, threads of coroutines, the lock-free stack, the latch and events on concrete runs.
use kelcoro.Base.{
  ℕ, ◌≡◌, refl, true, false, inl, ◌⊎◌, All, none, some, List, [], ◌∷◌, arith, ◌==◌, if◌then◌else◌,
}
use kelcoro.Node.{Handle}
use kelcoro.Memory.Returns.{Returns}
use kelcoro.Expected.{Expected, value, unexpected}
use kelcoro.LogicalThread.{stop, rests, empty, Thread, new_thread, Move, run}
use kelcoro.LogicalThread.Lifetime.{Sound, run-Sound, both, parked}
use kelcoro.LogicalThread.Stopped.{JoinsAll, stop-JoinsAll}
use kelcoro.AsyncTask
use kelcoro.AsyncTask.{AsyncTask, new_task}
use kelcoro.AsyncTask.Lifetime.{outcome, Stops, run-Alive}
use kelcoro.AsyncTask.States.{Alive, Answers}
use kelcoro.LockfreeStack.{tries, History, step}
use kelcoro.LockfreeStack.Interleaved.{open_stack, IsHistory, Stepped, step-Stepped}
use kelcoro.Latch.{Latch, settles, call}
use kelcoro.Latch.Waiters.{IsLatch, call-IsLatch}
use kelcoro.ReturnBlock.{val}
use kelcoro.ReturnBlock
use kelcoro.Task
use kelcoro.Task.{
  Task, Promise, coroutine, in_progress, task_object, finishes, move, result_or_rethrow,
}
use kelcoro.Task.Ownership.{awaited, answered, Moved, move-Moved, result_or_rethrow-IsTask}
use kelcoro.Events.{all_callbacks, any_callbacks}
use kelcoro.Events.Counted.{all_callbacks-last, any_callbacks-first}
use kelcoro.Tests.{memory, node_5-Live, pair_1}

-- The coroutine ends while its owner detaches.
abbrev crossing : List Move
crossing = Move.finishes ∷ Move.detaches ∷ Move.coroutine_goes_on ∷ Move.owner_goes_on ∷ []

run-Sound_example :
    (t : Thread) × (run crossing new_thread ≡ some t) × Sound t.frame t.coroutine t.owner
run-Sound_example = run-Sound crossing

-- A thread that has finished, and one that has not.
abbrev finished_thread : Thread
finished_thread = record new_thread {
  frame = some (record { stop_requested = false; flag = true });
  coroutine = rests;
}

stop-JoinsAll_example :
    JoinsAll (finished_thread ∷ new_thread ∷ []) (stop (finished_thread ∷ new_thread ∷ []))
stop-JoinsAll_example =
    stop-JoinsAll (finished_thread ∷ new_thread ∷ []) ((parked, refl), ((both, refl), tt))

-- Owner and coroutine at once: the coroutine has still to notify when the owner has joined.
run_joined_early :
    run (Move.finishes ∷ Move.joins ∷ Move.coroutine_goes_on ∷ []) new_thread
    ≡ some (record { frame = none; coroutine = rests; owner = empty; late = true })
unfolding run
run_joined_early = refl

-- The body throws 9, and the consumer gets it.
abbrev throws_nine : List (AsyncTask.Move ℕ ℕ)
throws_nine =
    AsyncTask.returns (unexpected 9)
    ∷ AsyncTask.producer_goes_on
    ∷ AsyncTask.gets
    ∷ AsyncTask.producer_goes_on
    ∷ []

run-Alive_example :
    ((t : AsyncTask ℕ ℕ) × (AsyncTask.run throws_nine new_task ≡ some t)
      × Alive t.frame t.producer t.consumer
      × All (λ e. outcome none throws_nine ≡ some e) t.got
      × (t.consumer ≡ AsyncTask.holds → Answers (outcome none throws_nine) t))
    ⊎ Stops none throws_nine new_task
run-Alive_example = run-Alive throws_nine

-- A second call of `get` fails the assertion.
run_gets_twice :
    AsyncTask.run {V = ℕ} {X = ℕ}
      (AsyncTask.returns (unexpected 9)
        ∷ AsyncTask.producer_goes_on
        ∷ AsyncTask.gets
        ∷ AsyncTask.gets
        ∷ [])
      new_task
    ≡ none
unfolding AsyncTask.run
run_gets_twice = refl

-- The stack of node 1 and 2 is closed by the marker at 99; node 5 is pushed after a stale load.
abbrev two_pushed : History 99
two_pushed = record { top = 1; pushes = 1 ∷ 2 ∷ []; pops = [] }

two_pushed-IsHistory : IsHistory 99 memory two_pushed (1 ∷ 2 ∷ []) []
two_pushed-IsHistory = record { stack = open_stack (ground arith) pair_1; account = refl }

step-Stepped_example :
    Returns (Stepped 99 two_pushed []) (step 99 (tries false 5) two_pushed memory)
step-Stepped_example =
    step-Stepped 99 (ground arith) (tries false 5) two_pushed (1 ∷ 2 ∷ []) [] two_pushed-IsHistory
      (_, node_5-Live, refl, ground arith)

-- Two coroutines wait, one of which has still to count down the last unit.
abbrev last_unit : Latch
last_unit = record { counter = 1; waiters = some (8 ∷ 7 ∷ []); closing = 0; attached = [] }

last_unit-IsLatch : IsLatch last_unit 1 (8 ∷ 7 ∷ [])
last_unit-IsLatch = record {
  enough = ground arith;
  waiting = (inl (ground arith, refl), refl, refl);
}

call-IsLatch_example :
    (l : Latch) × (call (settles 1) last_unit ≡ some l) × IsLatch l 0 (8 ∷ 7 ∷ [])
call-IsLatch_example =
    call-IsLatch (settles 1) last_unit 1 (8 ∷ 7 ∷ []) last_unit-IsLatch (ground arith)

-- Coroutine 4 waits for a task that ends with 9.
abbrev awaited_task : Task ℕ ℕ
awaited_task = record {
  frame = some (record { block = ReturnBlock.empty; who_waits = coroutine 4; stage = in_progress });
  owner = task_object;
  resumed = [];
}

move-Moved_example : Moved (some (value 9)) (4 ∷ []) (move (finishes (value 9)) awaited_task)
move-Moved_example = move-Moved (finishes (value 9)) awaited_task (4 ∷ []) none awaited tt

abbrev done_promise : Promise ℕ ℕ
done_promise = record { block = val 9; who_waits = coroutine 4; stage = Task.done }

result_or_rethrow-IsTask_example :
    (e : Expected ℕ ℕ) × (p : Promise ℕ ℕ) × (some (value 9) ≡ some e)
    × (◌≡◌ {A = List Handle} [] [])
    × (result_or_rethrow done_promise ≡ some (e, p))
result_or_rethrow-IsTask_example =
    result_or_rethrow-IsTask done_promise task_object [] (some (value 9)) (answered {e = value 9})
      refl

abbrev fired : List (ℕ × ℕ)
fired = (1, 5) ∷ (0, 6) ∷ []

abbrev fired_later : List (ℕ × ℕ)
fired_later = (0, 6) ∷ []

all_callbacks-last_example :
    (all_callbacks 2 fired (record { count = 0; input = 0 ∷ 0 ∷ [] })).0 ≡ (if 2 == 2 then 1 else 0)
all_callbacks-last_example =
    all_callbacks-last 2 fired (0 ∷ 0 ∷ []) (ground arith) (ground arith) (ground arith)

any_callbacks-first_example :
    ((any_callbacks {I = ℕ} ((1, 5) ∷ fired_later) (record { count = 0; input = none })).0 ≡ 1)
    × ((any_callbacks {I = ℕ} ((1, 5) ∷ fired_later) (record { count = 0; input = none })).1.input
        ≡ some (1, 5))
any_callbacks-first_example = any_callbacks-first 1 5 fired_later none (ground arith)
