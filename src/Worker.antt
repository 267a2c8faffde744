-- ===== src/Worker.antt =====
-- include/kelcoro/thread_pool.hpp: `cancel_tasks`, `default_worker_job` and the `worker` that runs it.
--
-- `resume` is what a resumed coroutine does. The queue is part of the state `X × TaskQueue` that it
-- changes: tasks push tasks, and what other threads push while one runs is its doing here.
pub mod Cancel
pub mod Loop
use kelcoro.Base.{ℕ, zero, suc, Option, none, some, ◌==◌, if◌then◌else◌}
use kelcoro.Node.{Ptr, null, Handle, ScheduleErrc, Cmd, pure, starve, ◌>>=◌, ◌>>◌, read, set_status}
use kelcoro.TaskQueue.{TaskQueue, pop_all, pop_all_not_empty}

module _ {E : Type 0} (resume : E → Handle → Cmd E) where
  -- `cancel_tasks`: each task is invoked once with the status `cancelled`; a node without a task, as
  -- the dead pill is one, is passed over.
  unfoldable pub cancel_tasks : ℕ → E → Ptr → Cmd E
  cancel_tasks zero e top = starve
  cancel_tasks (suc k) e top = if top == null then pure e else do
    n ← read top
    set_status top ScheduleErrc.cancelled
    e' ← if n.task == null then pure e else resume e n.task
    cancel_tasks k e' n.next

-- How the inner loop of `default_worker_job` ends: nothing is left, or a dead pill was met and the
-- list behind it is left.
pub data Batch (E : Type 0) : Type 0 where
  drained : E → Batch E
  dead_pill : E → Ptr → Batch E

module _ {E : Type 0} (resume : E → Handle → Cmd E) where
  -- `do { … } while (top);`
  unfoldable pub run_batch : ℕ → E → Ptr → Cmd (Batch E)
  run_batch zero e top = starve
  run_batch (suc k) e top = do
    n ← read top
    if n.task == null then pure (dead_pill e n.next) else do
      e' ← resume e n.task
      if n.next == null then pure (drained e') else run_batch k e' n.next

-- A round of the outer loop: it waits, it has run a batch, or the work has ended.
pub data Round (E : Type 0) : Type 0 where
  waits : E → Round E
  goes_on : E → Round E
  ends : E → Round E

module _ {X : Type 0} (resume : X × TaskQueue → Handle → Cmd (X × TaskQueue)) where
  finish : ℕ → Batch (X × TaskQueue) → Cmd (Round (X × TaskQueue))
  finish fuel (drained e) = pure (goes_on e)
  finish fuel (dead_pill e top) = do e' ← cancel_tasks resume fuel e top; pure (ends e')

  unfoldable pub worker_round : ℕ → X × TaskQueue → Cmd (Round (X × TaskQueue))
  unfolding finish
  worker_round fuel (x, q) = elim (pop_all_not_empty q) [
    | none ↦ pure (waits (x, q))
    | some (top, q') ↦ (do b ← run_batch resume fuel (x, q') top; finish fuel b)
  ]

  -- `default_worker_job`, until it ends or waits
  unfoldable pub worker_job : ℕ → ℕ → X × TaskQueue → Cmd (Round (X × TaskQueue))
  unfolding worker_round
  worker_job zero fuel st = starve
  worker_job (suc k) fuel st = do
    r ← worker_round fuel st
    elim r [
      | waits st' ↦ pure (waits st')
      | goes_on st' ↦ worker_job k fuel st'
      | ends st' ↦ pure (ends st')
    ]

  -- What the destructors do once the thread has ended: nobody will pop the queue any more.
  unfoldable pub cancel_rest : ℕ → X × TaskQueue → Cmd (X × TaskQueue)
  unfolding pop_all
  cancel_rest fuel (x, q) = let (top, q') = pop_all q in cancel_tasks resume fuel (x, q') top
