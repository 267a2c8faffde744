-- ===== src/ThreadPool/Stopping/Invoked.antt =====
-- include/kelcoro/thread_pool.hpp: which tasks have been invoked while a pool lives and stops.
use kelcoro.Base.{
  ℕ, zero, suc, ◌+◌, ◌≡◌, refl, true, false, inl, inr, some, List, [], ◌∷◌, ◌++◌, arith, get_elem?,
  replicate,
}
use kelcoro.ThreadPool.Stopping.{
  Entry, Phase, Thread, Effect, finished, Pool, push_back, is_ended, new_thread, own_pill, Arrive,
  arrive, Move, works, stops, Call, destroy, wait_stop, Reach, start, arrives, moves, calls,
}
use kelcoro.ThreadPool.Stopping.Fits.{IsStopping}
use kelcoro.ThreadPool.Stopping.Stages.{reach-IsStopping}
use kelcoro.ThreadPool.Stopping.Steps.{
  rest, Touched, stays, pushes, closes, pops, stop_step-Touched,
}
use kelcoro.ThreadPool.Stopping.Workers.{
  total, total-set, tally, pending, invoked, attached, work_step-Worked,
}

abbrev pub held : ℕ → Thread → ℕ
held h t = pending h t.queue t.phase

-- How often a task still waits to be invoked.
abbrev pub pending_in : ℕ → Pool → ℕ
pending_in h p = total (held h) p.threads + tally h (rest p.stage)

-- How often a run has invoked a task, and how often it has attached one.
abbrev pub times_invoked : ℕ → List Effect → ℕ
times_invoked h [] = 0
times_invoked h (eff ∷ log) = invoked h eff + times_invoked h log

abbrev pub times_attached : ℕ → List Effect → ℕ
times_attached h [] = 0
times_attached h (eff ∷ log) = attached h eff + times_attached h log

tally-append : (h : ℕ) (xs ys : List Entry) → tally h (xs ++ ys) ≡ tally h xs + tally h ys
tally-append h [] ys = omega arith
tally-append h (x ∷ xs) ys = ground (arith, tally-append h xs ys)

pending-append :
    (h : ℕ) (q : List Entry) (phase : Phase) (es : List Entry)
    → pending h (q ++ es) phase ≡ pending h q phase + tally h es
pending-append h q phase es = ground (arith, tally-append h q es)

abbrev Accounts : ℕ → Pool → Effect → Pool → Type 0
Accounts h p eff q = pending_in h q + invoked h eff ≡ pending_in h p + attached h eff

touched_once : (h : ℕ) (p : Pool) {eff : Effect} {q : Pool} → Touched p eff q → Accounts h p eff q
touched_once h p (stays stage lighter once spares) = ground (arith, once h)
touched_once h p (pushes i t stage there lighter same) = rw same (
    omega (
      arith,
      total-set (held h) p.threads i t (push_back t (own_pill ∷ [])) there,
      pending-append h t.queue t.phase (own_pill ∷ []),
    ))
touched_once h p (closes i t stage there lighter same) =
    rw same (omega (arith, total-set (held h) p.threads i t (record t { joinable = false }) there))
touched_once h p (pops i t stage there lighter none_left taken) =
    rw (none_left, taken)
      (ground (arith, total-set (held h) p.threads i t (record t { queue = [] }) there))

move_once :
    (h : ℕ) (p : Pool) {eff : Effect} {q : Pool} → IsStopping p → Move p eff q → Accounts h p eff q
move_once h p is (works i t {eff} {q} {phase} there e) =
    let w = work_step-Worked t.queue t.phase (eff, q, phase) e in
    omega (
      arith,
      total-set (held h) p.threads i t (record t { queue = q; phase = phase }) there,
      w.once h,
    )
move_once h p {eff} {q} is (stops e) =
    touched_once h p (stop_step-Touched p.threads p.stage (eff, q) is.range e)

arrive_once : (h : ℕ) (p : Pool) {eff : Effect} {q : Pool} → Arrive p eff q → Accounts h p eff q
arrive_once h p (arrive i t {es} there accepts arrival) = omega (
  arith,
  total-set (held h) p.threads i t (push_back t es) there,
  pending-append h t.queue t.phase es,
)

call_once : (h : ℕ) {p q : Pool} → Call p q → pending_in h q ≡ pending_in h p
call_once h (destroy (inl e)) = rw e refl
call_once h (destroy (inr e)) = rw e refl
call_once h (wait_stop e told) = rw e refl

nothing_held : (h n : ℕ) → total (held h) (replicate n new_thread) ≡ 0
nothing_held h zero = refl
nothing_held h (suc n) = omega (arith, nothing_held h n)

reach_once :
    (h : ℕ) {n : ℕ} {log : List Effect} {p : Pool}
    → Reach n log p
    → pending_in h p + times_invoked h log ≡ times_attached h log
reach_once h {n} start = omega (arith, nothing_held h n)
reach_once h (arrives {p} r a) = omega (arith, reach_once h r, arrive_once h p a)
reach_once h (moves {p} r m) = omega (arith, reach_once h r, move_once h p (reach-IsStopping r) m)
reach_once h (calls r c) = omega (arith, reach_once h r, call_once h c)

total_zero :
    (f : Thread → ℕ) (ts : List Thread)
    → ((i : ℕ) (t : Thread) → get_elem? ts i ≡ some t → f t ≡ 0)
    → total f ts ≡ 0
total_zero f [] all = refl
total_zero f (t ∷ ts) all = omega (arith, all 0 t refl, total_zero f ts (λ i. all (suc i)))

drained_thread : (h : ℕ) (t : Thread) → is_ended t.phase ≡ true → t.queue ≡ [] → held h t ≡ 0
unfolding is_ended
drained_thread h t over empty = ground arith

-- Each worker has ended and left nothing, and each task was invoked as often as it was attached.
pub record Settled (log : List Effect) (p : Pool) : Type 0 where
  pub ended : (i : ℕ) (t : Thread) → get_elem? p.threads i ≡ some t → is_ended t.phase ≡ true
  pub emptied : (i : ℕ) (t : Thread) → get_elem? p.threads i ≡ some t → t.queue ≡ []
  pub once : (h : ℕ) → times_invoked h log ≡ times_attached h log

-- When the destructor or `wait_stop` has come to its end, after any interleaving of workers,
-- arriving tasks and stopping thread, each worker has ended with an empty queue, and each task has
-- been invoked, resumed or cancelled, exactly as often as it was attached. Others push only before
-- the last loop.
pub reach-Settled :
    {n : ℕ} {log : List Effect} {p : Pool} → Reach n log p → p.stage ≡ finished → Settled log p
reach-Settled {n} {log} {p} r over =
    let is = reach-IsStopping r in
    let ended : (i : ℕ) (t : Thread) → get_elem? p.threads i ≡ some t → is_ended t.phase ≡ true =
      λ i t there. (is.fits i t there).past (rw over refl) in
    let emptied : (i : ℕ) (t : Thread) → get_elem? p.threads i ≡ some t → t.queue ≡ [] =
      λ i t there. (is.fits i t there).drained (rw over refl) in
    let none_left : (h : ℕ) → tally h (rest p.stage) ≡ 0 = λ h. rw over refl in
    record {
      ended = ended;
      emptied = emptied;
      once = λ h. omega (
        arith,
        reach_once h r,
        total_zero (held h) p.threads
            λ i t there. drained_thread h t (ended i t there) (emptied i t there),
        none_left h,
      );
    }
