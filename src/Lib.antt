-- ===== src/Lib.antt =====
-- kelcoro, a C++ library of coroutines: where they run (executors, worker threads, a thread pool), what
-- they wait for (roads, gates, latches, events), how they own each other (tasks, logical threads), how
-- several are joined (when_all, when_any), what they yield (generators, channels), and where their
-- frames lie (memory resources, a stack of chunks).
--
-- A waiting coroutine keeps a node in its own frame, and every queue is a linked list through such
-- nodes; resuming a coroutine may end the life of its node. So a store says what lives at each address,
-- an access to what does not live is a fault, and what a resumed coroutine does is a parameter, of
-- which only this is assumed: it leaves alone the nodes whose turn is still to come. An object that a
-- resumed coroutine may change is part of the state that is passed through it.
--
-- Memory, Node: stores, commands and task_node (include/kelcoro/executor_interface.hpp).
-- AwaitersQueue, Road: awaiters_queue and road (include/kelcoro/road.hpp).
-- Executor: attach_list, reverse_list, jump_on, noop_executor, this_thread_executor
-- (include/kelcoro/executor_interface.hpp).
-- Gate: gate, its holder and its close awaiter (include/kelcoro/gate.hpp).
-- OperationHash: do_hash and calculate_operation_hash (include/kelcoro/operation_hash.hpp).
-- TaskQueue, Worker, ThreadPool: task_queue, cancel_tasks, default_worker_job, and the choice of a
-- queue in thread_pool (include/kelcoro/thread_pool.hpp, include/kelcoro/noexport/fixed_array.hpp).
-- ThreadPool/Stopping: request_stop, wait_stop and the destructor of thread_pool beside its workers and
-- those who attach tasks, as steps of threads whose order is open; a queue is the list of its nodes
-- there, whose links are in TaskQueue. ThreadPool/Starting: its constructor.
-- LockfreeStack: nonowner_lockfree_stack, step by step (include/kelcoro/nonowner_lockfree_stack.hpp).
-- Latch: latch, on what that stack promises (include/kelcoro/latch.hpp).
-- Events: event, and when_all and when_any over events (include/kelcoro/events.hpp).
-- ReturnBlock: return_block and its specialisations (include/kelcoro/common.hpp).
-- Task: task, its promise and start_result (include/kelcoro/task.hpp).
-- AsyncTask: async_task and its reference count (include/kelcoro/async_task.hpp).
-- LogicalThread: two_way_bound and logical_thread (include/kelcoro/logical_thread.hpp).
-- Expected, WhenAny, WhenAll: expected, and the shared states of when_any and when_all; in WhenAll/Jobs the
-- jobs of when_all and its loop are interleaved step by step
-- (include/kelcoro/noexport/expected.hpp, include/kelcoro/algorithm.hpp).
-- Leaves: the frames of nested generators and channels, a heap with a map for each member of a promise
-- and of an object, and the transfer of control between them
-- (include/kelcoro/noexport/generators_common.hpp, include/kelcoro/generator.hpp). A coroutine's body is
-- a script of what it does; Leaves/Nested says which items a heap of frames stands for.
-- Generator: generator, generator_promise and generator_iterator (include/kelcoro/generator.hpp).
-- Channel: channel, channel_promise, its awaiters and co_foreach (include/kelcoro/channel.hpp).
-- FrameMemory: the frame of a coroutine with its memory resource (include/kelcoro/memory_support.hpp).
-- StackResource: stack_resource and padding_len (include/kelcoro/stack_memory_resource.hpp,
-- include/kelcoro/memory_support.hpp).
-- Base holds what all share, Tests concrete runs.
--
-- A loop over a list takes fuel; a list of n nodes needs n + 1, and find_last needs n. Resuming a
-- coroutine takes one unit of fuel and one more for each leaf that is entered, left or destroyed on the
-- way; its destruction takes one for each frame. size_t has 64 bits, and its arithmetic is modulo 2 ^ 64.
-- A stack_resource with n chunks needs n + 1. An operation under a mutex is one step, and so is an atomic
-- operation; weaker memory orders than sequential consistency are not modelled. Others may push to a pool
-- until the last loop of its destructor or of wait_stop. Not modelled are what else than its leaves a
-- channel awaits, the awaiters of this_coro, and what is compile time only.
mod Base
pub mod Memory
pub mod Node
pub mod AwaitersQueue
pub mod Executor
pub mod Road
pub mod Gate
pub mod OperationHash
pub mod TaskQueue
pub mod Worker
pub mod ThreadPool
pub mod Expected
pub mod WhenAny
pub mod WhenAll
mod Tests
pub mod LogicalThread
pub mod AsyncTask
pub mod LockfreeStack
pub mod Latch
pub mod ReturnBlock
pub mod Task
pub mod Events
pub mod StackResource
pub mod Channel
pub mod FrameMemory
pub mod Generator
pub mod Leaves
