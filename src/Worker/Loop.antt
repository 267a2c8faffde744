-- ===== src/Worker/Loop.antt =====
-- include/kelcoro/thread_pool.hpp, `default_worker_job`: a round of its loop.
use kelcoro.Base.{
  ℕ, zero, suc, ◌<◌, ◌≡◌, refl, ◌∙◌, sym, subst, false, List, [], ◌∷◌, ◌++◌, arith, ◌==◌,
  has-append, length, length-append, some, eq→==,
}
use kelcoro.Node.{Ptr, null, Handle, TaskNode, Store, Cmd, pure, continue, ◌>>=◌}
use kelcoro.Node.Chain.{Live, Chain, nil, cons, frame, not_null, read-live, cargo}
use kelcoro.Memory.Returns
use kelcoro.AwaitersQueue.Fifo.{IsQueue}
use kelcoro.Executor.{this_thread_attach}
use kelcoro.Executor.AttachList.{
  attach_each, Spares, attach_each-Spares, Ready, AllReady, Ready-Live,
}
use kelcoro.TaskQueue.{TaskQueue, pop_all_not_empty}
use kelcoro.TaskQueue.Laws.{as_awaiters}
use kelcoro.Worker.{drained, dead_pill, run_batch, goes_on, ends, worker_round}
use kelcoro.Worker.Cancel.{cancel, cancel_tasks-each}

Chain-not_null :
    {s : Store} {p : Ptr} (y : Ptr) (xs ys : List Ptr)
    → Chain s p (xs ++ y ∷ ys)
    → (p == null) ≡ false
Chain-not_null y [] ys (cons v out c) = not_null v
Chain-not_null y (x ∷ xs) ys (cons v out c) = not_null v

behind :
    {s : Store} {p : Ptr} {ys : List Ptr} (y : Ptr) {n : TaskNode} (xs : List Ptr)
    → Chain s p (xs ++ y ∷ ys)
    → Live s y n
    → Chain s n.next ys
behind {s} {ys} y {n} [] (cons {n = m} v out c) w =
    let e : m.next ≡ n.next = cc (v.holds, w.holds) in subst (λ a. Chain s a ys) e c
behind y (x ∷ xs) (cons v out c) w = behind y xs c w

module _ {E : Type 0} (resume : E → Handle → Cmd E) (I : E → List Ptr → Store → Type 0)
    (spares : Spares (this_thread_attach resume) I) where
  run_batch-pill :
      (xs ys : List Ptr) (pill : Ptr) (k : ℕ) (e : E) {s : Store} {top : Ptr} {n : TaskNode}
      → Chain s top (xs ++ pill ∷ ys)
      → AllReady s xs
      → Live s pill n
      → n.task ≡ null
      → I e (xs ++ pill ∷ ys) s
      → length xs < k
      → run_batch resume k e top s
        ≡ continue
            (attach_each (this_thread_attach resume) xs e s)
            (λ e'. pure (dead_pill e' n.next))
  unfolding run_batch this_thread_attach
  run_batch-pill xs ys pill zero e c ready w dead i h = absurd (omega arith)
  run_batch-pill [] ys pill (suc k) e (cons {n = m} v out c) ready w dead i h =
      rw (read-live w, eq→== _ 0 dead)
  run_batch-pill (x ∷ xs) ys pill (suc k) e {s} {n} (cons {n = m} v out c) ready w dead i h =
      rw
        (
          read-live v,
          Ready-Live v (ready x (ground arith)),
          Chain-not_null pill xs ys c,
          Returns.continue_assoc (resume e m.task s) (attach_each (this_thread_attach resume) xs)
              (λ e'. pure (dead_pill e' n.next)),
        )
        (Returns.continue-congr (resume e m.task s) _ _ λ e' t r.
          let (i', same) = spares e x (xs ++ pill ∷ ys) s e' t i (rw (read-live v) r) in
          run_batch-pill xs ys pill k e' (frame c same)
            (λ a j.
              subst (λ o. Ready (cargo o))
                (sym (same a (ground (arith, has-append a xs (pill ∷ ys)))))
                (ready a (ground arith)))
            (record {
              ne_null = w.ne_null;
              holds = same pill (ground (arith, has-append pill xs (pill ∷ ys))) ∙ w.holds;
            })
            dead i' (omega arith))

  -- A list without a pill is run to its end.
  run_batch-tasks :
      (x : Ptr) (xs : List Ptr) (k : ℕ) (e : E) {s : Store} {top : Ptr}
      → Chain s top (x ∷ xs)
      → AllReady s (x ∷ xs)
      → I e (x ∷ xs) s
      → length xs < k
      → run_batch resume k e top s
        ≡ continue (attach_each (this_thread_attach resume) (x ∷ xs) e s) (λ e'. pure (drained e'))
  unfolding run_batch this_thread_attach
  run_batch-tasks x xs zero e c ready i h = absurd (omega arith)
  run_batch-tasks x [] (suc k) e {s} (cons {n = m} v out nil) ready i h =
      rw
        (
          read-live v,
          Ready-Live v (ready x (ground arith)),
          Returns.continue_assoc (resume e m.task s) (λ e'. pure e') (λ e'. pure (drained e')),
        )
        refl
  run_batch-tasks x (y ∷ ys) (suc k) e {s} (cons {n = m} v out c) ready i h =
      rw
        (
          read-live v,
          Ready-Live v (ready x (ground arith)),
          Chain-not_null y [] ys c,
          Returns.continue_assoc (resume e m.task s)
              (attach_each (this_thread_attach resume) (y ∷ ys)) (λ e'. pure (drained e')),
        )
        (Returns.continue-congr (resume e m.task s) _ _ λ e' t r.
          let (i', same) = spares e x (y ∷ ys) s e' t i (rw (read-live v) r) in
          run_batch-tasks y ys k e' (frame c same)
            (λ a j. subst (λ o. Ready (cargo o)) (sym (same a j)) (ready a (ground arith))) i'
            (omega arith))

module _ {X : Type 0} (resume : X × TaskQueue → Handle → Cmd (X × TaskQueue))
    (I : X × TaskQueue → List Ptr → Store → Type 0) (runs : Spares (this_thread_attach resume) I)
    (cancels : Spares (cancel resume) I)
    (skips : (e : X × TaskQueue) (p : Ptr) (ps : List Ptr) (s : Store)
      → I e (p ∷ ps) s
      → I e ps s) where
  abbrev popped : X × TaskQueue → X × TaskQueue
  popped (x, q) = (x, record q { first = null })

  takes :
      (q : TaskQueue)
      → (q.first == null) ≡ false
      → pop_all_not_empty q ≡ some (q.first, record q { first = null })
  unfolding pop_all_not_empty
  takes q e = rw e

  -- A batch without a dead pill is resumed task by task, in order, with the queue empty at the
  -- start; the worker then goes on. A task that runs leaves alone the nodes behind it, and there
  -- is fuel for each task.
  worker_round-tasks :
      (fuel : ℕ) (x : X) (q : TaskQueue) (s : Store) (y : Ptr) (ys : List Ptr)
      → IsQueue s (as_awaiters q) (y ∷ ys)
      → AllReady s (y ∷ ys)
      → I (popped (x, q)) (y ∷ ys) s
      → length ys < fuel
      → worker_round resume fuel (x, q) s
        ≡ continue
            (attach_each (this_thread_attach resume) (y ∷ ys) (popped (x, q)) s)
            (λ e. pure (goes_on e))
  unfolding worker_round
  worker_round-tasks fuel x q s y ys is ready i h =
      rw
        (
          takes q (Chain-not_null y [] ys is.chain),
          worker_round,
          run_batch-tasks resume I runs y ys fuel (popped (x, q)) is.chain ready i h,
          Returns.continue_assoc
              (attach_each (this_thread_attach resume) (y ∷ ys) (popped (x, q)) s)
              (λ e'. pure (drained e')) _,
        )
        refl

  -- A dead pill in the batch ends the worker's job: the tasks queued before it are resumed, in
  -- order, and then those behind it are cancelled, in order. The tasks before it are not empty, a
  -- task that runs leaves alone the nodes behind it, and there is more fuel than tasks.
  pub worker_round-pill :
      (fuel : ℕ) (x : X) (q : TaskQueue) (s : Store) (xs ys : List Ptr) (pill : Ptr) {n : TaskNode}
      → IsQueue s (as_awaiters q) (xs ++ pill ∷ ys)
      → AllReady s xs
      → Live s pill n
      → n.task ≡ null
      → I (popped (x, q)) (xs ++ pill ∷ ys) s
      → length (xs ++ ys) < fuel
      → worker_round resume fuel (x, q) s
        ≡ continue
            (attach_each (this_thread_attach resume) xs (popped (x, q)) s)
            (λ e. attach_each (cancel resume) ys e >>= λ e'. pure (ends e'))
  unfolding worker_round
  worker_round-pill fuel x q s xs ys pill {n} is ready w dead i h =
      rw
        (
          takes q (Chain-not_null pill xs ys is.chain),
          worker_round,
          run_batch-pill resume I runs xs ys pill fuel (popped (x, q)) is.chain ready w dead i
              (omega (arith, length-append {0} xs ys)),
          Returns.continue_assoc (attach_each (this_thread_attach resume) xs (popped (x, q)) s)
              (λ e'. pure (dead_pill e' n.next)) _,
        )
        (Returns.continue-congr (attach_each (this_thread_attach resume) xs (popped (x, q)) s) _ _
          λ e' t r.
            let (i', same) =
              attach_each-Spares (this_thread_attach resume) I runs xs (pill ∷ ys) _ e' s t i r in
            let waiting = frame (behind pill xs is.chain w) (λ a j. same a (ground arith)) in
            rw (
              cancel_tasks-each resume I cancels fuel e' waiting (skips e' pill ys t i')
                (omega (arith, length-append {0} xs ys))))
