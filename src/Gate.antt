-- ===== src/Gate.antt =====
-- include/kelcoro/gate.hpp: `gate`, which counts the holders inside it and, once it is closed, wakes
-- those who wait for the last one to leave.

pub mod Waking
pub mod Calls
use kelcoro.Base.{ℕ, Bool, true, false, not, ◌&&◌, ◌==◌, if◌then◌else◌, size_add, size_sub}
use kelcoro.Node.{Ptr, null, Handle, Cmd, pure, ◌>>=◌, ◌>>◌, check, set_task}
use kelcoro.AwaitersQueue.{AwaitersQueue, empty_queue, push, pop_all}
use kelcoro.Executor.{attach_list, this_thread_attach}

pub record Gate : Type 0 where
  pub count : ℕ
  pub close_waiters : AwaitersQueue
  pub close_requested : Bool

abbrev pub new_gate : Gate
new_gate = record { count = 0; close_waiters = empty_queue; close_requested = false }

unfoldable pub is_closed : Gate → Bool
is_closed g = g.close_requested

unfoldable pub active_count : Gate → ℕ
active_count g = g.count

-- Without success the gate is as it was.
unfoldable pub try_enter : Gate → Bool × Gate
unfolding is_closed
try_enter g = if is_closed g then (false, g) else (true, record g { count = size_add g.count 1 })

-- What `enter` ends in: the gate entered, or the exception.
pub data Entered : Type 0 where
  entered : Gate → Entered
  gate_closed_exception : Entered

unfoldable pub enter : Gate → Entered
unfolding try_enter
enter g = let (success, g') = try_enter g in if success then entered g' else gate_closed_exception

-- The gate is part of the state `X × Gate` that a resumed waiter may change.
unfoldable pub leave :
    {X : Type 0} → (X × Gate → Handle → Cmd (X × Gate)) → ℕ → X × Gate → Cmd (X × Gate)
unfolding is_closed pop_all
leave resume fuel (x, g) = do
  check (not (g.count == 0))
  let left = record g { count = size_sub g.count 1 }
  let woken = pop_all left.close_waiters
  if is_closed left && left.count == 0
      then attach_list (this_thread_attach resume) fuel (x, record left { close_waiters = woken.1 })
          woken.0
      else pure (x, left)

-- `holder`: whether it still owes the gate a `leave`
pub record Holder : Type 0 where
  pub holds : Bool

-- the constructor
unfoldable pub hold : Gate → Entered × Holder
unfolding enter
hold g = elim (enter g) [
  | entered g' ↦ (entered g', record { holds = true })
  | gate_closed_exception ↦ (gate_closed_exception, record { holds = false })
]

-- `holder::release`, and the destructor
unfoldable pub release :
    {X : Type 0}
    → (X × Gate → Handle → Cmd (X × Gate))
    → ℕ
    → Holder
    → X × Gate
    → Cmd (Holder × (X × Gate))
release resume fuel h (x, g) =
    if h.holds
    then (do after ← leave resume fuel (x, g); pure (record { holds = false }, after))
    else pure (h, (x, g))

-- move assignment of holders, which swaps
unfoldable pub assign_holder : Holder → Holder → Holder × Holder
assign_holder h other = (other, h)

-- the move constructor: the new holder and the old one
unfoldable pub move_holder : Holder → Holder × Holder
move_holder h = (h, record { holds = false })

unfoldable pub close : Gate → Gate
close g = record g { close_requested = true }

-- `gate_close_awaiter`
unfoldable pub await_ready : Gate → Bool
await_ready g = g.count == 0

unfoldable pub await_suspend : Gate → Ptr → Handle → Cmd Gate
await_suspend g node waiter = do
  set_task node waiter
  q ← push g.close_waiters node
  pure (record g { close_waiters = q })

-- precondition: nobody is inside and nobody waits
unfoldable pub reopen : Gate → Cmd Gate
reopen g = do
  check (g.count == 0)
  check (g.close_waiters.first == null)
  pure (record g { close_requested = false })

-- the move constructor: the new gate and what is left of the old one
unfoldable pub move_gate : Gate → Cmd (Gate × Gate)
move_gate other = do
  check (other.count == 0)
  pure (
    record {
      count = 0;
      close_waiters = other.close_waiters;
      close_requested = other.close_requested;
    },
    record other { close_waiters = empty_queue; close_requested = false },
  )

-- move assignment: this gate and the other one afterwards
unfoldable pub assign_gate : Gate → Gate → Cmd (Gate × Gate)
assign_gate g other = do
  check (g.count == 0 && other.count == 0)
  check (g.close_waiters.first == null && other.close_waiters.first == null)
  pure (
    record g { close_waiters = other.close_waiters; close_requested = other.close_requested },
    record other { close_waiters = empty_queue; close_requested = false },
  )

-- the destructor's assertion
unfoldable pub destroy : Gate → Cmd (Unit {0})
destroy g = check (g.count == 0)
