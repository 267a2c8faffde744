-- ===== src/ThreadPool.antt =====
-- include/kelcoro/thread_pool.hpp and noexport/fixed_array.hpp: `thread_pool`, which distributes tasks
-- among the queues of its workers by the operation's hash.
pub mod Select
pub mod Stopping
pub mod Starting
use kelcoro.Base.{
  ℕ, zero, suc, ◌-◌, ◌%◌, Option, none, some, Bool, true, false, List, [], ◌∷◌, ltb, ◌==◌,
  if◌then◌else◌, length, get_elem?, set, replicate, size_add,
}
use kelcoro.Node.{Ptr, null, Handle, Cmd, pure, starve, fault, ◌>>=◌, ◌>>◌, check, read, set_task}
use kelcoro.OperationHash.{do_hash, calculate_operation_hash}
use kelcoro.TaskQueue.{TaskQueue, empty_queue}
use kelcoro.TaskQueue

-- `operator[]`, whose assertion is that the index is in range
unfoldable pub at : List TaskQueue → ℕ → Cmd TaskQueue
at qs i = elim (get_elem? qs i) [ none ↦ (λ s. fault) | some q ↦ pure q ]

-- `queues` is a `fixed_array`: its size never changes.
pub record ThreadPool : Type 0 where
  pub queues : List TaskQueue

-- `std::max<size_t>(1, thread_count)` queues
unfoldable pub new_pool : ℕ → ThreadPool
new_pool thread_count = record {
  queues = replicate (if ltb thread_count 1 then 1 else thread_count) empty_queue;
}

-- from `std::thread::hardware_concurrency()`, which may be 0
unfoldable pub default_thread_count : ℕ → ℕ
default_thread_count c = if ltb c 2 then 1 else c - 1

-- the index that `select_queue` takes
unfoldable pub select_index : ThreadPool → ℕ → ℕ
select_index p op_hash = op_hash % length p.queues

-- `select_queue(op_hash).attach(node)`
unfoldable pub attach_to : ThreadPool → ℕ → Ptr → Cmd ThreadPool
unfolding select_index at
attach_to p op_hash node = do
  q ← at p.queues (select_index p op_hash)
  (q', woke) ← TaskQueue.attach q node
  pure (record p { queues = set p.queues (select_index p op_hash) q' })

unfoldable pub attach : ThreadPool → Ptr → Cmd ThreadPool
attach p node = do n ← read node; attach_to p (calculate_operation_hash n.task) node

-- `jump_on_thread_pool::await_suspend`
unfoldable pub jump_suspend : ThreadPool → Ptr → Handle → Cmd ThreadPool
jump_suspend p node handle = do
  set_task node handle
  attach_to p (calculate_operation_hash handle) node

spread : ℕ → ThreadPool → ℕ → Ptr → Cmd ThreadPool
spread zero p hash top = starve
spread (suc k) p hash top =
    if top == null
    then pure p
    else do n ← read top; p' ← attach_to p hash top; spread k p' (size_add hash 1) n.next

-- the overload of `attach_list` for pools: neighbours in the list go to neighbouring queues
unfoldable pub attach_list : ℕ → ThreadPool → Ptr → Cmd ThreadPool
unfolding spread
attach_list fuel p top = spread fuel p (do_hash top) top
