-- ===== src/Road.antt =====
-- include/kelcoro/road.hpp: `road`, which is open or closed; coroutines wait until it is open.
pub mod Laws
use kelcoro.Base.{ℕ, Bool, true, false, not}
use kelcoro.Node.{Ptr, Handle, Cmd, pure, ◌>>=◌, ◌>>◌, check, set_task}
use kelcoro.AwaitersQueue.{AwaitersQueue, empty_queue, push, pop_all}
use kelcoro.Executor.{attach_list}

pub record Road : Type 0 where
  pub waiters : AwaitersQueue
  pub is_closed : Bool

abbrev pub new_road : Road
new_road = record { waiters = empty_queue; is_closed = false }

unfoldable pub closed : Road → Bool
closed r = r.is_closed

-- precondition: not closed
unfoldable pub close : Road → Cmd Road
close r = do check (not r.is_closed); pure (record r { is_closed = true })

-- `open`. The road is part of the executor's state `X × Road`, since a waiter that the executor
-- resumes at once may close the road and wait again.
unfoldable pub open_road :
    {X : Type 0} → (X × Road → Ptr → Cmd (X × Road)) → ℕ → X × Road → Cmd (X × Road)
unfolding pop_all
open_road attach fuel (x, r) =
    let (top, rest) = pop_all r.waiters in
    attach_list attach fuel (x, record { waiters = rest; is_closed = false }) top

-- `open_awaiter`
unfoldable pub await_ready : Road → Bool
unfolding closed
await_ready r = not (closed r)

unfoldable pub await_suspend : Road → Ptr → Handle → Cmd Road
await_suspend r node h = do
  set_task node h
  q ← push r.waiters node
  pure (record r { waiters = q })

unfoldable pub await_resume : Road → Bool
unfolding closed
await_resume r = not (closed r)
