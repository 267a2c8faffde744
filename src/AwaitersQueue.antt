-- ===== src/AwaitersQueue.antt =====
-- include/kelcoro/road.hpp: `awaiters_queue`, an intrusive FIFO of nodes, not thread safe.
pub mod Fifo
pub mod Suspend
use kelcoro.Base.{ℕ, zero, suc, Bool, not, ◌&&◌, ◌==◌, if◌then◌else◌}
use kelcoro.Node.{Ptr, null, Cmd, pure, starve, ◌>>=◌, ◌>>◌, check, read, set_next}

-- If `first` is null the value of `last` is unspecified.
pub record AwaitersQueue : Type 0 where
  pub first : Ptr
  pub last : Ptr

abbrev pub empty_queue : AwaitersQueue
empty_queue = record { first = null; last = null }

-- attach a whole linked list, given by both its ends
unfoldable pub push_list : AwaitersQueue → Ptr → Ptr → Cmd AwaitersQueue
push_list q first_ last_ = do
  check (not (first_ == null) && not (last_ == null))
  if q.first == null
      then pure (record { first = first_; last = last_ })
      else do set_next q.last first_; pure (record q { last = last_ })

-- precondition: the node is live and not in the queue
unfoldable pub push : AwaitersQueue → Ptr → Cmd AwaitersQueue
push q node = do set_next node null; push_list q node node

-- `while (last_->next) last_ = last_->next;`
unfoldable pub find_last : ℕ → Ptr → Cmd Ptr
find_last zero p = starve
find_last (suc k) p = do n ← read p; if n.next == null then pure p else find_last k n.next

-- the overload that is given only the top of the list
unfoldable pub push_list_top : ℕ → AwaitersQueue → Ptr → Cmd AwaitersQueue
push_list_top fuel q first_ =
    if first_ == null then pure q else do l ← find_last fuel first_; push_list q first_ l

unfoldable pub pop_all : AwaitersQueue → Ptr × AwaitersQueue
pop_all q = (q.first, record q { first = null })

-- the executor interface; precondition: the node has a task
unfoldable pub attach : AwaitersQueue → Ptr → Cmd AwaitersQueue
attach q node = do n ← read node; check (not (n.task == null)); push q node

unfoldable pub is_empty : AwaitersQueue → Bool
is_empty q = q.first == null

-- the move constructor: the new queue and what is left of the old one
unfoldable pub move_queue : AwaitersQueue → AwaitersQueue × AwaitersQueue
move_queue other = (other, empty_queue)

-- move assignment, which swaps: the queue and the other one afterwards
unfoldable pub assign_queue : AwaitersQueue → AwaitersQueue → AwaitersQueue × AwaitersQueue
assign_queue q other = (other, q)
