-- ===== src/ThreadPool/Starting/Unwound.antt =====
-- include/kelcoro/thread_pool.hpp: how the constructor of `thread_pool` ends.
use kelcoro.Base.{
  ℕ, zero, suc, ◌+◌, ◌≡◌, refl, ◌∙◌, ap, Bool, true, false, some, [], ◌∷◌, ◌++◌, replicate, arith,
  get_elem?_behind, get_elem?_end, set_behind, replicate_behind,
}
use kelcoro.ThreadPool.Stopping.{
  quiet, own_pill, Thread, new_thread, waits, runs, cancels, ended, is_ended, work_step,
}
use kelcoro.ThreadPool.Starting.{
  no_thread, starts, unwinds, started, failed, Pool, new_pool, at_stage, unwind_next, start_step,
  Ends, all_started, none_left,
}
use kelcoro.ThreadPool.Starting.Joined.{
  others, idle_others, idle_shape, calm, joining, passing, over,
}

replicate-replicate : (i k : ℕ) (a : Thread) → replicate i a ++ replicate k a ≡ replicate (i + k) a
replicate-replicate zero k a = ap (λ n. replicate n a) (omega arith)
replicate-replicate (suc i) k a =
    let e : suc (i + k) ≡ suc i + k = omega arith in
    ap (λ l. a ∷ l) (replicate-replicate i k a) ∙ ap (λ n. replicate n a) e

abbrev asked : Thread
asked = record { queue = own_pill ∷ []; phase = waits; joinable = true }

-- A worker takes the pill, meets it, and ends.
asked-Ends :
    (n i j k : ℕ)
    → Ends n
        (record { threads = replicate (suc i) no_thread ++ others j k; stage = unwinds (suc i) })
    → Ends n (joining i asked j k)
unfolding work_step is_ended
asked-Ends n i j k ends =
    passing n i j k asked (quiet, [], runs own_pill []) refl refl
      (passing n i j k _ (quiet, [], cancels []) refl refl
        (passing n i j k _ (quiet, [], ended) refl refl (over n i j k ends)))

abbrev unwinding : ℕ → ℕ → ℕ → Pool
unwinding i j k = record { threads = replicate i no_thread ++ others j k; stage = unwinds i }

-- The guard joins the threads that have been started, and stops at the first one that is none.
unwinding-Ends : (n i j k : ℕ) → i + j + k ≡ n → Ends n (unwinding i j k)
unfolding start_step unwind_next
unwinding-Ends n i zero zero h =
    let e : (throws : Bool)
        → start_step throws (unwinding i 0 0) (unwinds i)
          ≡ some (at_stage (unwinding i 0 0) failed) =
      λ throws. rw (get_elem?_end i no_thread, start_step) refl in
    let ends =
      none_left refl
        (replicate-replicate i 0 no_thread ∙ ap (λ m. replicate m no_thread) (omega arith)) in
    calm n (unwinding i 0 0) _ _ (λ l. idle_shape l i 0 0) (e false) (e true) ends ends
unwinding-Ends n i zero (suc k) h =
    let e : (throws : Bool)
        → start_step throws (unwinding i 0 (suc k)) (unwinds i)
          ≡ some (at_stage (unwinding i 0 (suc k)) failed) =
      λ throws.
        rw (get_elem?_behind i no_thread no_thread (replicate k no_thread), start_step, unwind_next)
          refl in
    let ends =
      none_left refl
        (replicate-replicate i (suc k) no_thread ∙ ap (λ m. replicate m no_thread) (omega arith)) in
    calm n (unwinding i 0 (suc k)) _ _ (λ l. idle_shape l i 0 (suc k)) (e false) (e true) ends ends
unwinding-Ends n i (suc j) k h =
    let e : (throws : Bool)
        → start_step throws (unwinding i (suc j) k) (unwinds i) ≡ some (joining i asked j k) =
      λ throws.
        rw
          (
            get_elem?_behind i no_thread new_thread (others j k),
            start_step,
            unwind_next,
            set_behind i no_thread new_thread asked (others j k),
          )
          refl in
    let ends = asked-Ends n i j k (unwinding-Ends n (suc i) j k (omega (arith, h))) in
    calm n (unwinding i (suc j) k) _ _ (λ l. idle_shape l i (suc j) k) (e false) (e true) ends ends

abbrev starting : ℕ → ℕ → Pool
starting i k = record { threads = others i k; stage = starts i }

starting-Ends : (n i k : ℕ) → i + k ≡ n → Ends n (starting i k)
unfolding start_step
starting-Ends n i zero h =
    let e : (throws : Bool)
        → start_step throws (starting i 0) (starts i) ≡ some (at_stage (starting i 0) started) =
      λ throws. rw (get_elem?_end i new_thread, start_step) refl in
    let ends =
      all_started refl (
        replicate-replicate i 0 new_thread ∙ ap (λ m. replicate m new_thread) (omega (arith, h))) in
    calm n (starting i 0) _ _ (λ l. idle_others l i 0) (e false) (e true) ends ends
starting-Ends n i (suc k) h =
    let fails : start_step true (starting i (suc k)) (starts i) ≡ some (unwinding 0 i (suc k)) =
      rw (get_elem?_behind i new_thread no_thread (replicate k no_thread), start_step) refl in
    let works : start_step false (starting i (suc k)) (starts i) ≡ some (starting (suc i) k) =
      rw
        (
          get_elem?_behind i new_thread no_thread (replicate k no_thread),
          start_step,
          set_behind i new_thread no_thread new_thread (replicate k no_thread),
          replicate_behind i new_thread (replicate k no_thread),
        )
        refl in
    calm n (starting i (suc k)) _ _ (λ l. idle_others l i (suc k)) works fails
      (starting-Ends n (suc i) k (omega (arith, h)))
      (unwinding-Ends n 0 i (suc k) (omega (arith, h)))

-- The constructor of a pool of n workers comes to its end, whichever thread takes each step and
-- whether or not the start of a thread throws: either every thread has been started, or the guard
-- has joined each one that had been, so that none is joinable when the threads are destroyed and
-- no pill is left in a queue.
pub new_pool-Ends : (n : ℕ) → Ends n (new_pool n)
unfolding new_pool
new_pool-Ends n = starting-Ends n 0 n (omega arith)
