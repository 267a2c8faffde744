-- ===== src/Road/Laws.antt =====
-- include/kelcoro/road.hpp, `road`: waiting and opening.
use kelcoro.Base.{ℕ, ◌<◌, ◌≡◌, refl, false, List, has, length}
use kelcoro.Node.{Ptr, null, Handle, TaskNode, Store, Cmd}
use kelcoro.Node.Chain.{Live}
use kelcoro.Memory.Returns.{Returns, returns}
use kelcoro.AwaitersQueue.Fifo.{IsQueue}
use kelcoro.AwaitersQueue.Suspend.{Suspended, suspend-Suspended}
use kelcoro.Executor.AttachList.{attach_each, Spares, attach_list-each}
use kelcoro.Road.{Road, await_suspend, open_road}

-- A coroutine that waits for a road is stored in its node, which is live and not queued and now
-- stands last in the queue; the other nodes keep their tasks, those outside the queue are
-- untouched, and the road is open or closed as before.
pub await_suspend-Suspended :
    {s : Store} (r : Road) (xs : List Ptr) (node : Ptr) {n : TaskNode} (h : Handle)
    → IsQueue s r.waiters xs
    → Live s node n
    → has node xs ≡ false
    → Returns
        (λ r' t. Suspended s xs node n h r'.waiters t × (r'.is_closed ≡ r.is_closed))
        (await_suspend r node h s)
unfolding await_suspend
await_suspend-Suspended {s} r xs node h is v new =
    suspend-Suspended r.waiters xs node h _ is v new (λ q t e. returns (e, refl))

-- Opening a road hands every waiter to the executor, in the order of arrival, which runs with the
-- road open and no waiter queued and leaves alone the waiters whose turn is still to come. There
-- is more fuel than waiters.
pub open_road-each :
    {X : Type 0} (attach : X × Road → Ptr → Cmd (X × Road))
    (I : X × Road → List Ptr → Store → Type 0)
    → Spares attach I
    → (fuel : ℕ) (x : X) (r : Road) {s : Store} (xs : List Ptr) → IsQueue s r.waiters xs
    → I (x, record { waiters = record r.waiters { first = null }; is_closed = false }) xs s
    → length xs < fuel
    → open_road attach fuel (x, r) s
      ≡ attach_each attach xs
          (x, record { waiters = record r.waiters { first = null }; is_closed = false })
          s
unfolding open_road
open_road-each attach I spares fuel x r xs is i h =
    attach_list-each attach I spares fuel _ is.chain i h
