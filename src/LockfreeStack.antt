-- ===== src/LockfreeStack.antt =====
-- include/kelcoro/nonowner_lockfree_stack.hpp: a stack of nodes that any number of threads push to and
-- that is popped as a whole. Each atomic operation, with the write of `next` that the pusher makes
-- to its own node, is one step; `spurious` is what a weak compare-exchange may do.
pub mod Interleaved
use kelcoro.Base.{ℕ, zero, suc, Bool, true, false, not, ◌&&◌, ◌==◌, if◌then◌else◌, List, [], ◌∷◌}
use kelcoro.Node.{Ptr, null, Cmd, pure, starve, ◌>>=◌, ◌>>◌, check, read, set_next}

-- How a compare-exchange ends: it has pushed, it must be tried again, or the stack is closed.
pub data Attempt : Type 0 where
  pushed retry refused : Attempt

-- `closed_marker` is never a real node; the stack is its `top`.
module _ (closed_marker : Ptr) where
  unfoldable pub new_stack : Bool → Ptr
  new_stack closed = if closed then closed_marker else null

  unfoldable pub closed : Ptr → Bool
  closed top = top == closed_marker

  -- `value_ptr->next = top.load()`
  unfoldable pub load_top : Ptr → Ptr → Cmd (Unit {0})
  load_top top value_ptr = do check (not (value_ptr == null)); set_next value_ptr top

  -- `top.compare_exchange_weak(value_ptr->next, value_ptr)`: a failure loads the top again
  unfoldable pub exchange : Bool → Ptr → Ptr → Cmd (Attempt × Ptr)
  exchange spurious top value_ptr = do
    n ← read value_ptr
    if not spurious && top == n.next
        then pure (pushed, value_ptr)
        else do set_next value_ptr top; pure (retry, top)

  -- one round of the loop of `try_push`, which is that of `push` with the test
  unfoldable pub try_exchange : Bool → Ptr → Ptr → Cmd (Attempt × Ptr)
  unfolding exchange
  try_exchange spurious top value_ptr = do
    n ← read value_ptr
    if n.next == closed_marker then pure (refused, top) else exchange spurious top value_ptr

  -- returns top of the stack
  unfoldable pub try_pop_all : Ptr → Ptr × Ptr
  try_pop_all top = (top, null)

  unfoldable pub close : Ptr → Ptr × Ptr
  close top = (if top == closed_marker then null else top, closed_marker)

  -- `push_stack` up to its loop: the last node of the other list is linked to the top
  unfoldable pub find_last : ℕ → Ptr → Cmd Ptr
  find_last zero p = starve
  find_last (suc k) p = do n ← read p; if n.next == null then pure p else find_last k n.next

  unfoldable pub load_list : ℕ → Ptr → Ptr → Cmd Ptr
  unfolding find_last
  load_list fuel top other_top =
      if other_top == null
      then pure null
      else do last ← find_last fuel other_top; set_next last top; pure last

  -- one round of its loop, with the last node
  unfoldable pub exchange_list : Bool → Ptr → Ptr → Ptr → Cmd (Attempt × Ptr)
  exchange_list spurious top other_top last = do
    n ← read last
    if not spurious && top == n.next
        then pure (pushed, other_top)
        else do set_next last top; pure (retry, top)

  -- What the threads do, in the order in which it happens.
  pub data Event : Type 0 where
    loads : Ptr → Event
    tries : Bool → Ptr → Event
    pops closes : Event

  -- The stack, the nodes pushed so far, newest first, and the tops that were popped, newest first.
  pub record History : Type 0 where
    pub top : Ptr
    pub pushes : List Ptr
    pub pops : List Ptr

  attempted : History → Ptr → Attempt × Ptr → History
  attempted h p (pushed, top) = record h { top = top; pushes = p ∷ h.pushes }
  attempted h p (_, top) = record h { top = top }

  unfoldable pub step : Event → History → Cmd History
  unfolding load_top try_exchange try_pop_all close attempted
  step (loads p) h = do load_top h.top p; pure h
  step (tries spurious p) h = do r ← try_exchange spurious h.top p; pure (attempted h p r)
  step pops h = let (t, top) = try_pop_all h.top in pure (record h { top = top; pops = t ∷ h.pops })
  step closes h = let (t, top) = close h.top in pure (record h { top = top; pops = t ∷ h.pops })
