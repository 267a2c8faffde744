-- ===== src/TaskQueue/Laws.antt =====
-- include/kelcoro/thread_pool.hpp, `task_queue`: its operations, by those of `awaiters_queue`.
use kelcoro.Base.{
  ◌≡◌, refl, ap, subst, sym, has-append, ◌∙◌, ◌≢◌, Bool, false, List, [], ◌∷◌, ◌++◌, arith, ◌==◌,
  some, none, Bool-cases, ◌⊎◌, inl, inr, has, Disjoint,
}
use kelcoro.Node.{
  Ptr, null, Handle, TaskNode, Store, put, Run, done, fault, no_fuel, pure, continue, ◌>>=◌,
  set_next,
}
use kelcoro.Node.Chain.{
  Live, Chain, nil, cons, nil_of_null, null_of_nil, set_next-live, set_task-live, Live-put,
  frame-put, Last, SameCargo, SameOutside, cargo,
}
use kelcoro.Memory.Live.{Live-put_ne}
use kelcoro.Memory.Returns
use kelcoro.Memory.Returns.{Returns, returns}
use kelcoro.AwaitersQueue.{AwaitersQueue}
use kelcoro.AwaitersQueue
use kelcoro.AwaitersQueue.Fifo.{IsQueue, push_list-Pushed, push-IsQueue}
use kelcoro.TaskQueue.{TaskQueue, push_list, push, pop_all, pop_all_not_empty, push_deadpill}

-- The same two pointers.
abbrev pub as_awaiters : TaskQueue → AwaitersQueue
as_awaiters q = record { first = q.first; last = q.last }

abbrev pub woken : TaskQueue → AwaitersQueue → TaskQueue × Bool
woken q r = (record { first = r.first; last = r.last }, q.first == null)

push_list-awaiters :
    (q : TaskQueue) (f l : Ptr) (s : Store)
    → push_list q f l s ≡ (AwaitersQueue.push_list (as_awaiters q) f l >>= λ r. pure (woken q r)) s
unfolding push_list AwaitersQueue.push_list
push_list-awaiters q f l s = ground arith

push-awaiters :
    (q : TaskQueue) (node : Ptr) (s : Store)
    → push q node s ≡ (AwaitersQueue.push (as_awaiters q) node >>= λ r. pure (woken q r)) s
unfolding push AwaitersQueue.push
push-awaiters q node s = elim_set (set_next node null s)
  where
    elim_set :
        (r : Run (Unit {0}))
        → continue r (λ _. push_list q node node)
          ≡ continue
              (continue r (λ _. AwaitersQueue.push_list (as_awaiters q) node node))
              (λ r. pure (woken q r))
    elim_set (done u t) = push_list-awaiters q node node t
    elim_set fault = refl
    elim_set no_fuel = refl

-- What a push of the nodes `ys` leaves: the list of the queue with `ys` behind it, the tasks and
-- statuses as they were, and the worker woken if it had nothing to do.
pub record Queued (s : Store) (q : TaskQueue) (xs ys : List Ptr) (r : TaskQueue × Bool) (t : Store)
    : Type 0 where
  pub is : IsQueue t (as_awaiters r.0) (xs ++ ys)
  pub cargo : SameCargo s t
  pub same : SameOutside (ys ++ xs) s t
  pub woke : r.1 ≡ (q.first == null)

pub push-Queued :
    {s : Store} (q : TaskQueue) (xs : List Ptr) (node : Ptr) {n : TaskNode}
    → IsQueue s (as_awaiters q) xs
    → Live s node n
    → has node xs ≡ false
    → Returns (Queued s q xs (node ∷ [])) (push q node s)
push-Queued {s} q xs node is v new = rw (push-awaiters q node s) (
    Returns.and_then (push-IsQueue (as_awaiters q) xs node is v new) λ r t (is', kept, same).
      returns (record { is = is'; cargo = kept; same = same; woke = refl }))

-- `push_list` of a chain, given by its first and last node, none of them in the queue, puts it in
-- order behind what is queued; tasks, statuses and the nodes of neither list are as they were; and
-- the worker is notified exactly if the queue was empty.
push_list-Queued :
    {s : Store} (q : TaskQueue) (xs : List Ptr) (f l y : Ptr) (ys : List Ptr)
    → IsQueue s (as_awaiters q) xs
    → Chain s f (y ∷ ys)
    → Last (y ∷ ys) l
    → Disjoint (y ∷ ys) xs
    → Returns (Queued s q xs (y ∷ ys)) (push_list q f l s)
push_list-Queued {s} q xs f l y ys is c e apart = rw (push_list-awaiters q f l s) (
    Returns.and_then (push_list-Pushed f l y ys c e (as_awaiters q) xs is apart) λ r t h.
      returns (record {
        is = h.is;
        cargo = h.cargo;
        same = λ a o. h.same a (ground (arith, has-append a (y ∷ ys) xs));
        woke = refl;
      }))

-- `pop_all_not_empty` on a queue of nodes waits exactly if there are none; otherwise it returns
-- the chain of all of them in order, and leaves the queue empty.
pop_all_not_empty-branches :
    {s : Store} (q : TaskQueue) (xs : List Ptr)
    → IsQueue s (as_awaiters q) xs
    → ((xs ≡ []) × (pop_all_not_empty q ≡ none))
      ⊎ ((xs ≢ [])
          × (r : Ptr × TaskQueue) × (pop_all_not_empty q ≡ some r)
          × Chain s r.0 xs
          × IsQueue s (as_awaiters r.1) [])
unfolding pop_all_not_empty
pop_all_not_empty-branches q xs is = elim (Bool-cases (q.first == null)) [
  | inl waits ↦ inl (nil_of_null is.chain (ground arith), rw waits)
  | inr works ↦ inr (
    λ none_queued.
        let z = null_of_nil (subst (Chain _ q.first) none_queued is.chain) in ground arith,
    pop_all q,
    rw works,
    is.chain,
    record { chain = nil; ends = tt },
  )
]

-- `request_stop` puts the pill behind what is queued, and the node of its own coroutine, which
-- holds its handle, right behind the pill; the worker is notified exactly if the queue was empty.
-- Both nodes are live, different and in no queue, and the own node is the end of its list.
pub push_deadpill-IsQueue :
    {s : Store} (q : TaskQueue) (xs : List Ptr) (pill this_node : Ptr) {p n : TaskNode}
    (handle : Handle)
    → IsQueue s (as_awaiters q) xs
    → Live s pill p
    → Live s this_node n
    → n.next ≡ null
    → pill ≢ this_node
    → Disjoint (pill ∷ this_node ∷ []) xs
    → Returns
        (λ r t.
          IsQueue t (as_awaiters r.0) (xs ++ pill ∷ this_node ∷ [])
          × (cargo (t pill) ≡ some (p.task, p.status))
          × (cargo (t this_node) ≡ some (handle, n.status))
          × (r.1 ≡ (q.first == null)))
        (push_deadpill q pill this_node handle s)
unfolding push_deadpill
push_deadpill-IsQueue {s} q xs pill this_node {p} {n} handle is v w last ne apart =
    let p' : TaskNode = record p { next = this_node } in
    let n' : TaskNode = record n { task = handle } in
    let s1 : Store = put s pill (some p') in
    let s2 : Store = put s1 this_node (some n') in
    let w1 : Live s1 this_node n = Live-put_ne w pill (some p') (λ e. ne (sym e)) in
    let v2 : Live s2 pill p' = Live-put_ne (Live-put v p') this_node (some n') ne in
    let out : has this_node xs ≡ false = apart this_node (ground arith) in
    let tail : Chain s2 n'.next [] = rw last nil in
    let pair : Chain s2 pill (pill ∷ this_node ∷ []) =
      cons {n = p'} v2 (ground arith) (cons {n = n'} (Live-put w1 n') refl tail) in
    rw (set_next-live v this_node, set_task-live w1 handle)
      (Returns.weaken
        (push_list-Queued {s = s2} q xs pill this_node pill (this_node ∷ [])
          (record {
            chain =
                frame-put this_node _ (frame-put pill _ is.chain (apart pill (ground arith))) out;
            ends = is.ends;
          })
          pair refl apart)
        λ r t h. (
          h.is,
          h.cargo pill ∙ ap cargo v2.holds,
          h.cargo this_node ∙ ap cargo (Live-put w1 n').holds,
          h.woke,
        ))
