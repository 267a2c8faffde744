-- ===== src/AwaitersQueue/Suspend.antt =====
-- include/kelcoro/road.hpp and include/kelcoro/gate.hpp: the part that their awaiters share, in
-- which the coroutine is stored in its node and the node is pushed.
use kelcoro.Base.{◌≡◌, ◌≢◌, ◌∙◌, ap, some, false, List, [], ◌∷◌, ◌++◌, arith, has}
use kelcoro.Node.{Ptr, Handle, TaskNode, Store, Cmd, ◌>>=◌, ◌>>◌, set_task}
use kelcoro.Node.Chain.{
  Live, Live-put, set_task-live, frame-put, SameOutside, put-SameOutside, cargo,
}
use kelcoro.Memory.Returns
use kelcoro.Memory.Returns.{Returns, returns}
use kelcoro.AwaitersQueue.{AwaitersQueue, push}
use kelcoro.AwaitersQueue.Fifo.{IsQueue, push-IsQueue}

-- The node stands last in the queue and holds the coroutine; the other nodes keep their tasks, and
-- those outside the queue are untouched.
pub record Suspended (s : Store) (xs : List Ptr) (node : Ptr) (n : TaskNode) (h : Handle)
    (q : AwaitersQueue) (t : Store) : Type 0 where
  pub is : IsQueue t q (xs ++ node ∷ [])
  pub stored : cargo (t node) ≡ some (h, n.status)
  pub kept : (a : Ptr) → a ≢ node → cargo (t a) ≡ cargo (s a)
  pub same : SameOutside (node ∷ xs) s t

-- Then the code goes on from there.
pub suspend-Suspended :
    {s : Store} {B : Type 0} {Q : B → Store → Type 0} (q : AwaitersQueue) (xs : List Ptr)
    (node : Ptr) {n : TaskNode} (h : Handle) (k : AwaitersQueue → Cmd B)
    → IsQueue s q xs
    → Live s node n
    → has node xs ≡ false
    → ((q' : AwaitersQueue) (t : Store) → Suspended s xs node n h q' t → Returns Q (k q' t))
    → Returns Q ((set_task node h >> (push q node >>= k)) s)
suspend-Suspended {s} q xs node {n} h k is v new next =
    let m : TaskNode = record n { task = h } in
    rw (set_task-live v h) (
      Returns.and_then
        (push-IsQueue q xs node {n = m}
          (record { chain = frame-put node _ is.chain new; ends = is.ends }) (Live-put v m) new)
        λ q' t (is', kept, same). next q' t (record {
          is = is';
          stored = kept node ∙ ap cargo (Live-put v m).holds;
          kept = λ a ne.
              kept a
              ∙ ap cargo (put-SameOutside s node _ (node ∷ []) (ground arith) a (ground arith));
          same = λ a o. same a o ∙ put-SameOutside s node _ (node ∷ xs) (ground arith) a o;
        }))
