-- ===== src/Node.antt =====
-- include/kelcoro/executor_interface.hpp: `task_node`, the unit of scheduling, and the memory in
-- which the intrusive lists of nodes live. The node of a coroutine that has been resumed is gone.
pub mod Chain
use kelcoro.Base.{ℕ, Bool, ◌==◌}
use kelcoro.Memory
pub use kelcoro.Memory.{
  Ptr, null, done, fault, no_fuel, pure, starve, continue, ◌>>=◌, ◌>>◌, check, write,
}
unfoldable pub use kelcoro.Memory.{put, read}

-- A coroutine handle; 0 is the empty handle.
abbrev pub Handle : Type 0
Handle = ℕ

-- `schedule_errc`
pub data ScheduleErrc : Type 0 where
  ok cancelled timed_out executor_overload : ScheduleErrc

pub record TaskNode : Type 0 where
  pub next : Ptr
  pub task : Handle
  pub status : ScheduleErrc

abbrev pub deadpill : TaskNode
deadpill = record { next = null; task = null; status = ScheduleErrc.ok }

abbrev pub is_deadpill : TaskNode → Bool
is_deadpill n = n.task == null

abbrev pub Store : Type 0
Store = Memory.Store TaskNode

abbrev pub Run : Type 0 → Type 0
Run = Memory.Run TaskNode

abbrev pub Cmd : Type 0 → Type 0
Cmd = Memory.Cmd TaskNode

-- `p->next = q`
unfoldable pub set_next : Ptr → Ptr → Cmd (Unit {0})
unfolding read
set_next p q = do n ← read p; write p (record n { next = q })

-- `p->task = h`
unfoldable pub set_task : Ptr → Handle → Cmd (Unit {0})
unfolding read
set_task p h = do n ← read p; write p (record n { task = h })

-- `p->status = e`
unfoldable pub set_status : Ptr → ScheduleErrc → Cmd (Unit {0})
unfolding read
set_status p e = do n ← read p; write p (record n { status = e })
