-- ===== src/TaskQueue.antt =====
-- include/kelcoro/thread_pool.hpp: `task_queue`, the queue of one worker thread. Each operation runs
-- under the queue's mutex, so it is one step of the system.
pub mod Laws
use kelcoro.Base.{
  ℕ, zero, suc, Bool, true, false, not, ◌&&◌, Option, none, some, ◌==◌, if◌then◌else◌,
}
use kelcoro.Node.{
  Ptr, null, Handle, Cmd, pure, starve, ◌>>=◌, ◌>>◌, check, read, set_next, set_task,
}

pub record TaskQueue : Type 0 where
  pub first : Ptr
  pub last : Ptr

abbrev pub empty_queue : TaskQueue
empty_queue = record { first = null; last = null }

-- The flag says whether `not_empty.notify_one()` was called.
unfoldable pub push_list : TaskQueue → Ptr → Ptr → Cmd (TaskQueue × Bool)
push_list q first_ last_ = do
  check (not (first_ == null) && not (last_ == null))
  if q.first == null
      then pure (record { first = first_; last = last_ }, true)
      else do set_next q.last first_; pure (record q { last = last_ }, false)

unfoldable pub push : TaskQueue → Ptr → Cmd (TaskQueue × Bool)
push q node = do set_next node null; push_list q node node

unfoldable pub find_last : ℕ → Ptr → Cmd Ptr
find_last zero p = starve
find_last (suc k) p = do n ← read p; if n.next == null then pure p else find_last k n.next

-- the overload that is given only the top of the list
unfoldable pub push_list_top : ℕ → TaskQueue → Ptr → Cmd (TaskQueue × Bool)
push_list_top fuel q first_ =
    if first_ == null then pure (q, false) else do l ← find_last fuel first_; push_list q first_ l

unfoldable pub pop_all : TaskQueue → Ptr × TaskQueue
pop_all q = (q.first, record q { first = null })

-- `none` while the caller waits on the condition variable
unfoldable pub pop_all_not_empty : TaskQueue → Option (Ptr × TaskQueue)
unfolding pop_all
pop_all_not_empty q = if q.first == null then none else some (pop_all q)

unfoldable pub attach : TaskQueue → Ptr → Cmd (TaskQueue × Bool)
attach q node = do n ← read node; check (not (n.task == null)); push q node

-- `deadpill_pusher::await_suspend`: the pill and, behind it, the coroutine that pushes it
unfoldable pub push_deadpill : TaskQueue → Ptr → Ptr → Handle → Cmd (TaskQueue × Bool)
push_deadpill q pill this_node handle = do
  set_next pill this_node
  set_task this_node handle
  push_list q pill this_node
