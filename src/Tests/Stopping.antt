-- ===== src/Tests/Stopping.antt =====
-- A pool of one worker, run in a given order.
use kelcoro.Base.{ℕ, ◌≡◌, refl, false, inl, Option, none, some, List, [], ◌∷◌, get_elem?}
use kelcoro.ThreadPool.Stopping.{
  Thread, Entry, Phase, work, waits, runs, push_back, new_thread, Effect, resumed, Pool, finished,
  attach, push_deadpill, arrive, works, stops, destroy, Reach, start, arrives, moves, calls,
  work_step, stop_step, is_ended,
}
use kelcoro.ThreadPool.Starting.{new_pool, Ends}
use kelcoro.ThreadPool.Starting.Unwound.{new_pool-Ends}
use kelcoro.ThreadPool.Stopping.Finishes.{Finishes, call-Finishes}
use kelcoro.ThreadPool.Stopping.Invoked.{Settled, reach-Settled}
use kelcoro.ThreadPool.Stopping.Pills.{own_pill_fresh, move-resumes_pusher}
use kelcoro.ThreadPool.Stopping.Workers.{holds_own, resumes_pusher}

record Run (n : ℕ) : Type 0 where
  log : List Effect
  last : Pool
  reach : Reach n log last

-- Whose turn it is: a worker's, or the thread's that stops the pool.
data Turn : Type 0 where
  worker : ℕ → Turn
  stopper : Turn

abbrev worked :
    {n : ℕ} (r : Run n) (i : ℕ) (t : Thread)
    → get_elem? r.last.threads i ≡ some t
    → (o : Option (Effect × List Entry × Phase)) → work_step t.queue t.phase ≡ o
    → Run n
worked r i t there none e = r
worked r i t there (some (eff, q, phase)) e = record {
  log = _;
  last = _;
  reach = moves r.reach (works i t there e);
}

abbrev chosen :
    {n : ℕ} (r : Run n) (i : ℕ) (o : Option Thread) → get_elem? r.last.threads i ≡ o → Run n
chosen r i none e = r
chosen r i (some t) e = worked r i t e (work_step t.queue t.phase) refl

abbrev stopped :
    {n : ℕ} (r : Run n) (o : Option (Effect × Pool)) → stop_step r.last r.last.stage ≡ o → Run n
stopped r none e = r
stopped r (some (eff, q)) e = record { log = _; last = _; reach = moves r.reach (stops e) }

abbrev turn : {n : ℕ} → Run n → Turn → Run n
turn r (worker i) = chosen r i (get_elem? r.last.threads i) refl
turn r stopper = stopped r (stop_step r.last r.last.stage) refl

abbrev run : {n : ℕ} → Run n → List Turn → Run n
run r [] = r
run r (t ∷ ts) = run (turn r t) ts

-- Task 7 is attached.
abbrev with_task : Run 1
with_task = record {
  log = _;
  last = _;
  reach = arrives start (arrive 0 new_thread refl refl (attach 7));
}

-- Then `request_stop` pushes its pill.
abbrev requested : Run 1
requested = record {
  log = _;
  last = _;
  reach = arrives with_task.reach (arrive 0 _ refl refl push_deadpill);
}

abbrev destroyed : Run 1
destroyed = record { log = _; last = _; reach = calls with_task.reach (destroy (inl refl)) }

abbrev to_its_end : List Turn
to_its_end =
    worker 0
    ∷ stopper
    ∷ worker 0
    ∷ worker 0
    ∷ worker 0
    ∷ worker 0
    ∷ stopper
    ∷ stopper
    ∷ stopper
    ∷ stopper
    ∷ stopper
    ∷ stopper
    ∷ stopper
    ∷ []

-- The worker runs the task, meets the destructor's pill and ends.
run-destroyed : (run destroyed to_its_end).last.stage ≡ finished
unfolding work_step stop_step is_ended
run-destroyed = refl

reach-Settled_example : Settled (run destroyed to_its_end).log (run destroyed to_its_end).last
unfolding work_step stop_step is_ended
reach-Settled_example = reach-Settled (run destroyed to_its_end).reach refl

call-Finishes_example : Finishes 3 destroyed.last
call-Finishes_example = call-Finishes 3 with_task.reach (destroy (inl refl))

own_pill_fresh_example : holds_own (work 7 ∷ []) waits ≡ false
own_pill_fresh_example =
    own_pill_fresh 0 0 (push_back new_thread (work 7 ∷ [])) destroyed.reach refl refl

abbrev taken : Run 1
taken = turn with_task (worker 0)

move-resumes_pusher_example : resumes_pusher (resumed (work 7)) ≡ false
unfolding work_step
move-resumes_pusher_example =
    move-resumes_pusher taken.reach
      (works 0 (record new_thread { phase = runs (work 7) [] }) refl refl)

new_pool-Ends_example : Ends 2 (new_pool 2)
new_pool-Ends_example = new_pool-Ends 2
