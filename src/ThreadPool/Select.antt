-- ===== src/ThreadPool/Select.antt =====
-- include/kelcoro/thread_pool.hpp, `thread_pool`: the queues that tasks go to.
use kelcoro.Base.{
  ap, subst, ℕ, zero, suc, ◌%◌, ◌<◌, ◌≡◌, refl, ◌∙◌, sym, subst₂, ◌≢◌, inl, inr, Bool, true, false,
  arith, List, [], ◌∷◌, ◌++◌, some, ◌==◌, if◌then◌else◌, has, has-append, length, get_elem?, set,
  get_elem?-set, get_elem?_total, length-set, size_add,
}
use kelcoro.Node.{Ptr, TaskNode, Store, done}
use kelcoro.Node.Chain.{Live, Chain, nil, cons, frame, not_null, read-live, cargo, SameCargo}
use kelcoro.Memory.Returns
use kelcoro.Memory.Returns.{Returns, returns}
use kelcoro.AwaitersQueue.Fifo.{IsQueue}
use kelcoro.Executor.AttachList.{Ready, AllReady, Ready-Live}
use kelcoro.OperationHash.{do_hash}
use kelcoro.TaskQueue.{TaskQueue}
use kelcoro.TaskQueue
use kelcoro.TaskQueue.Laws.{as_awaiters, Queued, push-Queued}
use kelcoro.ThreadPool.{ThreadPool, at, attach_to, spread, attach_list}

-- The queues hold the lists `xss`, in order, and no node is in two of them: each has its home.
pub record IsPool (s : Store) (p : ThreadPool) (xss : List (List Ptr)) : Type 0 where
  pub home : Ptr → ℕ
  pub some_worker : 0 < length p.queues
  pub sized : length p.queues ≡ length xss
  pub queue :
      (i : ℕ) (q : TaskQueue) (xs : List Ptr)
      → get_elem? p.queues i ≡ some q
      → get_elem? xss i ≡ some xs
      → IsQueue s (as_awaiters q) xs
  pub settled :
      (i : ℕ) (xs : List Ptr) (a : Ptr) → get_elem? xss i ≡ some xs → has a xs ≡ true → home a ≡ i

-- The node is in no queue.
abbrev pub Fresh : Ptr → List (List Ptr) → Type 0
Fresh node xss = (i : ℕ) (xs : List Ptr) → get_elem? xss i ≡ some xs → has node xs ≡ false

-- The list of queue `i` gets the node at its end.
abbrev pub append_at : ℕ → Ptr → List (List Ptr) → List (List Ptr)
append_at i node [] = []
append_at zero node (xs ∷ xss) = (xs ++ node ∷ []) ∷ xss
append_at (suc i) node (xs ∷ xss) = xs ∷ append_at i node xss

attach-Queued :
    {s : Store} (q : TaskQueue) (xs : List Ptr) (node : Ptr) {n : TaskNode}
    → IsQueue s (as_awaiters q) xs
    → Live s node n
    → Ready (cargo (s node))
    → has node xs ≡ false
    → Returns (Queued s q xs (node ∷ [])) (TaskQueue.attach q node s)
unfolding TaskQueue.attach
attach-Queued q xs node is v ready new =
    rw (read-live v, Ready-Live v ready) (push-Queued q xs node is v new)

append_at-set :
    (i : ℕ) (node : Ptr) (xss : List (List Ptr)) (xs : List Ptr)
    → get_elem? xss i ≡ some xs
    → append_at i node xss ≡ set xss i (xs ++ node ∷ [])
append_at-set i node [] xs e = refl
append_at-set zero node (x ∷ xss) xs e = let h : x ≡ xs = cc in rw h
append_at-set (suc i) node (x ∷ xss) xs e = rw (append_at-set i node xss xs e)

at-some :
    (qs : List TaskQueue) (i : ℕ) (q : TaskQueue) (s : Store)
    → get_elem? qs i ≡ some q
    → at qs i s ≡ done q s
unfolding at
at-some qs i q s e = rw (e, at)

-- What is left to show once the node stands in queue `i`.
resettled :
    {s t : Store} (p : ThreadPool) (xss : List (List Ptr)) (i : ℕ) (node : Ptr) (q : TaskQueue)
    (xs : List Ptr) (r : TaskQueue × Bool)
    → IsPool s p xss
    → Fresh node xss
    → get_elem? p.queues i ≡ some q
    → get_elem? xss i ≡ some xs
    → Queued s q xs (node ∷ []) r t
    → IsPool t (record p { queues = set p.queues i r.0 }) (set xss i (xs ++ node ∷ []))
resettled {s} {t} p xss i node q xs r is new at_q at_xs queued = record {
  home = λ a. if a == node then i else is.home a;
  some_worker = let h = is.some_worker in omega (arith, length-set {0} p.queues i r.0);
  sized =
      let h = is.sized in
      omega (arith, length-set {0} p.queues i r.0, length-set {0} xss i (xs ++ node ∷ []));
  queue = λ j q' ys e f. elim (get_elem?-set p.queues i j r.0 q' e) [
    | inl (same, new_queue) ↦ elim (get_elem?-set xss i j (xs ++ node ∷ []) ys f) [
      | inl (same', new_list) ↦
          subst₂ (λ a b. IsQueue t (as_awaiters a) b) (sym new_queue) (sym new_list) queued.is
      | inr (other, old_list) ↦ absurd (other same)
    ]
    | inr (other, old_queue) ↦ elim (get_elem?-set xss i j (xs ++ node ∷ []) ys f) [
      | inl (same, new_list) ↦ absurd (other same)
      | inr (other', old_list) ↦
          let kept = is.queue j q' ys old_queue old_list in
          record {
            chain = frame kept.chain λ a m. queued.same a (
                ground (
                  arith,
                  new j ys old_list,
                  is.settled j ys a old_list m,
                  is.settled i xs a at_xs,
                ));
            ends = kept.ends;
          }
    ]
  ];
  settled = λ j ys a e m. elim (get_elem?-set xss i j (xs ++ node ∷ []) ys e) [
    | inl (same, new_list) ↦ ground (arith, has-append a xs (node ∷ []), is.settled i xs a at_xs)
    | inr (other, old_list) ↦ ground (arith, new j ys old_list, is.settled j ys a old_list m)
  ];
}

-- A live node with a task that is in no queue goes behind the others of the queue that the hash
-- selects; the index is in range, the pool is well formed again, tasks and statuses are as they
-- were, and no node outside the queues is written.
attach_to-IsPool :
    {s : Store} (p : ThreadPool) (xss : List (List Ptr)) (hash : ℕ) (node : Ptr) {n : TaskNode}
    → IsPool s p xss
    → Live s node n
    → Ready (cargo (s node))
    → Fresh node xss
    → Returns
        (λ p' t.
          IsPool t p' (append_at (hash % length xss) node xss)
          × SameCargo s t
          × ((a : Ptr) → a ≢ node → Fresh a xss → t a ≡ s a))
        (attach_to p hash node s)
unfolding attach_to
attach_to-IsPool {s} p xss hash node is v ready new =
    let i : ℕ = hash % length p.queues in
    let some_worker = is.some_worker in
    let sized = is.sized in
    let below : i < length p.queues = grind arith in
    let (q, at_q) = get_elem?_total p.queues i below in
    let (xs, at_xs) = get_elem?_total xss i (omega arith) in
    let fresh = new i xs at_xs in
    rw (at-some p.queues i q s at_q, ← sized, append_at-set i node xss xs at_xs)
      (Returns.and_then (attach-Queued q xs node (is.queue i q xs at_q at_xs) v ready fresh)
        λ r t queued. returns (
          resettled p xss i node q xs r is new at_q at_xs queued,
          queued.cargo,
          λ a ne out. queued.same a (ground (arith, out i xs at_xs)),
        ))

-- Where the nodes of a list go when the first one has this hash.
abbrev pub spread_lists : ℕ → List Ptr → List (List Ptr) → List (List Ptr)
spread_lists hash [] xss = xss
spread_lists hash (y ∷ ys) xss =
    spread_lists (size_add hash 1) ys (append_at (hash % length xss) y xss)

length-append_at :
    (i : ℕ) (node : Ptr) (xss : List (List Ptr)) → length (append_at i node xss) ≡ length xss
length-append_at i node [] = refl
length-append_at zero node (x ∷ xss) = refl
length-append_at (suc i) node (x ∷ xss) = ap suc (length-append_at i node xss)

append_at-has :
    (i j : ℕ) (node a : Ptr) (xss : List (List Ptr)) (ys : List Ptr)
    → get_elem? (append_at i node xss) j ≡ some ys
    → Fresh a xss
    → (a == node) ≡ false
    → has a ys ≡ false
append_at-has i j node a [] ys e new ne = ground arith
append_at-has zero zero node a (x ∷ xss) ys e new ne =
    ground (arith, has-append a x (node ∷ []), new 0 x refl)
append_at-has zero (suc j) node a (x ∷ xss) ys e new ne = new (suc j) ys e
append_at-has (suc i) zero node a (x ∷ xss) ys e new ne = new 0 ys e
append_at-has (suc i) (suc j) node a (x ∷ xss) ys e new ne =
    append_at-has i j node a xss ys e (λ k. new (suc k)) ne

spread-IsPool :
    (fuel : ℕ) {s : Store} (p : ThreadPool) (xss : List (List Ptr)) (hash : ℕ) {top : Ptr}
    {ys : List Ptr}
    → IsPool s p xss
    → Chain s top ys
    → AllReady s ys
    → ((a : Ptr) → has a ys ≡ true → Fresh a xss)
    → length ys < fuel
    → Returns
        (λ p' t. IsPool t p' (spread_lists hash ys xss) × SameCargo s t)
        (spread fuel p hash top s)
unfolding spread
spread-IsPool zero p xss hash is c ready new h = absurd (omega arith)
spread-IsPool (suc k) p xss hash is nil ready new h = returns (is, λ a. refl)
spread-IsPool (suc k) p xss hash is (cons {p = y} {n} {ps} v out c) ready new h =
    rw (not_null v, read-live v)
      (Returns.and_then
        (attach_to-IsPool p xss hash y is v (ready y (ground arith)) (new y (ground arith)))
        λ p' t (is', kept, same).
          Returns.weaken
            (spread-IsPool k p' (append_at (hash % length xss) y xss) (size_add hash 1) is'
              (frame c λ a m. same a (ground arith) (new a (ground arith)))
              (λ a m. subst Ready (sym (kept a)) (ready a (ground arith)))
              (λ a m j zs e. append_at-has _ j y a xss zs e (new a (ground arith)) (ground arith))
              (omega arith))
            λ p'' u (is'', kept'). (is'', λ a. kept' a ∙ kept a))

-- `attach_list` on a well-formed pool returns: the first task goes to the end of the queue that
-- the hash of its node's address selects, each further one to the end of the queue of the next
-- hash; the pool is well formed again, and tasks and statuses are as they were. The nodes form a
-- chain, have a task and are in no queue, and there is more fuel than nodes.
pub attach_list-IsPool :
    (fuel : ℕ) {s : Store} (p : ThreadPool) (xss : List (List Ptr)) {top : Ptr} {ys : List Ptr}
    → IsPool s p xss
    → Chain s top ys
    → AllReady s ys
    → ((a : Ptr) → has a ys ≡ true → Fresh a xss)
    → length ys < fuel
    → Returns
        (λ p' t. IsPool t p' (spread_lists (do_hash top) ys xss) × SameCargo s t)
        (attach_list fuel p top s)
unfolding attach_list
attach_list-IsPool fuel p xss {top} is c ready new h =
    spread-IsPool fuel p xss (do_hash top) is c ready new h
