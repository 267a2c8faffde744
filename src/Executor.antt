-- ===== src/Executor.antt =====
-- include/kelcoro/executor_interface.hpp: executors, `attach_list`, `reverse_list` and `jump_on`.
--
-- An executor is a state `E` with the operation `attach`, which every function takes as an
-- argument. `attach` may write nodes, and a node may be gone when it returns. What a resumed
-- coroutine does is not in these sources: `resume` is a parameter too.
pub mod AttachList
pub mod Reverse
pub mod ThisThread
use kelcoro.Base.{ℕ, zero, suc, Bool, true, false, ◌==◌, if◌then◌else◌}
use kelcoro.Node.{
  Ptr, null, Handle, ScheduleErrc, ok, TaskNode, Cmd, pure, starve, ◌>>=◌, ◌>>◌, read, set_next,
  set_task,
}

module _ {E : Type 0} (attach : E → Ptr → Cmd E) where
  -- `next` is read before the node is handed over.
  unfoldable pub attach_list : ℕ → E → Ptr → Cmd E
  attach_list zero e top = starve
  attach_list (suc k) e top =
      if top == null then pure e else do n ← read top; e' ← attach e top; attach_list k e' n.next

  -- `create_node_and_attach::await_suspend`: the task is set before the node is attached
  unfoldable pub jump_suspend : E → Ptr → Handle → Cmd E
  jump_suspend e node handle = do set_task node handle; attach e node

reverse_loop : ℕ → Ptr → Ptr → Cmd Ptr
reverse_loop zero prev top = starve
reverse_loop (suc k) prev top =
    if top == null then pure prev else do n ← read top; set_next top prev; reverse_loop k top n.next

-- returns new begin
unfoldable pub reverse_list : ℕ → Ptr → Cmd Ptr
unfolding reverse_loop
reverse_list fuel top = reverse_loop fuel null top

-- `schedule_status`, which converts to `bool`
unfoldable pub is_ok : ScheduleErrc → Bool
is_ok ok = true
is_ok _ = false

-- `create_node_and_attach::await_resume`: the status that the executor left in the node
unfoldable pub jump_resume : Ptr → Cmd ScheduleErrc
jump_resume node = do n ← read node; pure n.status

-- `noop_executor_t`
abbrev pub noop_attach : {E : Type 0} → E → Ptr → Cmd E
noop_attach e node = pure e

-- `this_thread_executor_t`
unfoldable pub this_thread_attach : {E : Type 0} → (E → Handle → Cmd E) → E → Ptr → Cmd E
this_thread_attach resume e node = do n ← read node; resume e n.task
