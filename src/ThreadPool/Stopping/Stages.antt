-- ===== src/ThreadPool/Stopping/Stages.antt =====
-- include/kelcoro/thread_pool.hpp: what holds of each worker at each stage of the destructor and of
-- `wait_stop`, after each step.
use kelcoro.Base.{
  ℕ, suc, ◌≡◌, refl, some, Option-cases, List, [], ◌∷◌, arith, get_elem?, replicate,
  get_elem?_below, get_elem?_beyond, subst, Bool-cases, inl, inr,
}
use kelcoro.ThreadPool.Stopping.{
  at_index, own_pill, Thread, Effect, quiet, arrived, cancel_effect, Stage, lives, finished,
  destroys, joins, joined, empties, awaits, sweeps, clears, Pool, become, push_back, destroy_next,
  await_next, stop_step, Move, works, stops, Call, destroy, wait_stop, Reach, start, arrives, moves,
  calls, new_thread,
}
use kelcoro.ThreadPool.Stopping.Fits.{
  Fits, IsStopping, staged, replaced, works-IsStopping, is_told-pill, replicated, arrive-IsStopping,
}
use kelcoro.ThreadPool.Stopping.Changes.{
  begins_sweep, skips, join-IsStopping, pop_all-IsStopping, next_stage,
}

destroys-IsStopping :
    (ts : List Thread) (i : ℕ) (r : Effect × Pool)
    → IsStopping (record { threads = ts; stage = destroys i })
    → stop_step (record { threads = ts; stage = destroys i }) (destroys i) ≡ some r
    → IsStopping r.1
unfolding stop_step destroy_next
destroys-IsStopping ts i r is e = elim (Option-cases (get_elem? ts i)) [
  | inl absent ↦ begins_sweep _ i r is absent (λ j h. h) (λ j. refl) (rw (absent, at_index) at e)
  | inr (t, there) ↦ elim (Bool-cases t.joinable) [
    | inr skipped ↦
        skips _ i t (destroys (suc i)) r is there skipped refl (λ j h ne. ground arith)
          (λ j h. ground arith) (λ j. refl) (λ j. refl)
          (rw (there, at_index, skipped, destroy_next) at e)
    | inl joinable ↦
        let p : Pool = record { threads = ts; stage = destroys i } in
        let u = push_back t (own_pill ∷ []) in
        let h : (arrived (own_pill ∷ []), become p i u (joins i)) ≡ r =
          ground (arith, rw (there, at_index, joinable, destroy_next) at e) in
        let f = is.fits i t there in
        subst (λ z. IsStopping z.1) h
          (replaced p is i t u (joins i) there (get_elem?_below ts i t there)
            (record {
              unjoined = f.unjoined;
              past = λ h. ground arith;
              told = λ h. is_told-pill t.queue t.phase (own_pill ∷ []) refl;
              drained = λ h. ground arith;
              own = λ h. ground arith;
            })
            λ j v ne g. record {
              unjoined = g.unjoined;
              past = g.past;
              told = λ h. ground arith;
              drained = λ h. ground arith;
              own = λ h. ground (arith, g.own);
            })
  ]
]

awaits-IsStopping :
    (ts : List Thread) (i : ℕ) (r : Effect × Pool)
    → IsStopping (record { threads = ts; stage = awaits i })
    → stop_step (record { threads = ts; stage = awaits i }) (awaits i) ≡ some r
    → IsStopping r.1
unfolding stop_step await_next
awaits-IsStopping ts i r is e = elim (Option-cases (get_elem? ts i)) [
  | inl absent ↦ begins_sweep _ i r is absent (λ j h. h) (λ j. refl) (rw (absent, at_index) at e)
  | inr (t, there) ↦ elim (Bool-cases t.joinable) [
    | inr skipped ↦
        skips _ i t (awaits (suc i)) r is there skipped refl (λ j h ne. ground arith) (λ j h. refl)
          (λ j. refl) (λ j. refl) (rw (there, at_index, skipped, await_next) at e)
    | inl joinable ↦
        join-IsStopping _ i t (awaits (suc i)) r is there refl (λ j ne h. ground arith)
          (λ j h. refl) (λ j. refl) (λ j h. h) (rw (there, at_index, joinable, await_next) at e)
  ]
]

sweeps-IsStopping :
    (ts : List Thread) (i : ℕ) (r : Effect × Pool)
    → IsStopping (record { threads = ts; stage = sweeps i })
    → stop_step (record { threads = ts; stage = sweeps i }) (sweeps i) ≡ some r
    → IsStopping r.1
unfolding stop_step
sweeps-IsStopping ts i r is e = elim (Option-cases (get_elem? ts i)) [
  | inl absent ↦
      let h : (quiet, record { threads = ts; stage = finished }) ≡ r =
        ground (arith, rw (absent, at_index) at e) in
      subst (λ z. IsStopping z.1) h
        (staged _ is finished refl λ j t g f. record {
          unjoined = f.unjoined;
          past = f.past;
          told = λ h. ground arith;
          drained = λ _. f.drained (get_elem?_beyond ts i j t absent g);
          own = f.own;
        })
  | inr (t, there) ↦
      pop_all-IsStopping _ i t (clears i t.queue) r is there (get_elem?_below ts i t there) refl
        (λ j h. refl) (λ j. refl) (λ j ne h. ground arith) (λ j ne. refl)
        (rw (there, at_index) at e)
]

stop_step-IsStopping :
    (ts : List Thread) (stage : Stage) (r : Effect × Pool)
    → IsStopping (record { threads = ts; stage = stage })
    → stop_step (record { threads = ts; stage = stage }) stage ≡ some r
    → IsStopping r.1
unfolding stop_step
stop_step-IsStopping ts lives r is e = ground arith
stop_step-IsStopping ts (destroys i) r is e = destroys-IsStopping ts i r is e
stop_step-IsStopping ts (joins i) r is e = elim (Option-cases (get_elem? ts i)) [
  | inl absent ↦ ground (arith, rw (absent, at_index) at e)
  | inr (t, there) ↦
      join-IsStopping _ i t (joined i) r is there (get_elem?_below ts i t there)
        (λ j ne h. ground arith) (λ j h. ground arith) (λ j. refl) (λ j h. h)
        (rw (there, at_index) at e)
]
stop_step-IsStopping ts (joined i) r is e = elim (Option-cases (get_elem? ts i)) [
  | inl absent ↦ ground (arith, rw (absent, at_index) at e)
  | inr (t, there) ↦
      pop_all-IsStopping _ i t (empties i t.queue) r is there (get_elem?_below ts i t there)
        (ground arith) (λ j h. h) (λ j. refl) (λ j ne h. ground arith) (λ j ne. ground arith)
        (rw (there, at_index) at e)
]
stop_step-IsStopping ts (empties i []) r is e =
    next_stage _ (destroys (suc i)) quiet r is refl (λ j h. ground arith) (λ j. refl)
      (λ j h. ground arith) (λ j. refl) e
stop_step-IsStopping ts (empties i (x ∷ xs)) r is e =
    next_stage _ (empties i xs) (cancel_effect x) r is is.range (λ j h. h) (λ j. refl) (λ j h. h)
      (λ j. refl) e
stop_step-IsStopping ts (awaits i) r is e = awaits-IsStopping ts i r is e
stop_step-IsStopping ts (sweeps i) r is e = sweeps-IsStopping ts i r is e
stop_step-IsStopping ts (clears i []) r is e =
    next_stage _ (sweeps (suc i)) quiet r is refl (λ j h. refl) (λ j. refl) (λ j h. ground arith)
      (λ j. refl) e
stop_step-IsStopping ts (clears i (x ∷ xs)) r is e =
    next_stage _ (clears i xs) (cancel_effect x) r is is.range (λ j h. h) (λ j. refl) (λ j h. h)
      (λ j. refl) e
stop_step-IsStopping ts finished r is e = ground arith

pub move-IsStopping : {p q : Pool} {eff : Effect} → IsStopping p → Move p eff q → IsStopping q
move-IsStopping {p} is (works i t {eff} {q} {phase} there e) =
    works-IsStopping p is i t (eff, q, phase) there e
move-IsStopping {p} {q} {eff} is (stops e) = stop_step-IsStopping p.threads p.stage (eff, q) is e

pub call-IsStopping : {p q : Pool} → IsStopping p → Call p q → IsStopping q
call-IsStopping {p} is (destroy idle) = staged p is (destroys 0) refl λ j t g f. record {
  unjoined = f.unjoined;
  past = λ h. ground arith;
  told = λ h. ground arith;
  drained = λ h. ground arith;
  own = λ h. ground (arith, f.own h);
}
call-IsStopping {p} is (wait_stop idle told) = staged p is (awaits 0) refl λ j t g f. record {
  unjoined = f.unjoined;
  past = λ h. ground arith;
  told = λ h. told j t g;
  drained = λ h. ground arith;
  own = λ h. ground (arith, f.own h);
}

start-IsStopping : (n : ℕ) → IsStopping (record { threads = replicate n new_thread; stage = lives })
start-IsStopping n = record {
  range = refl;
  fits = λ j t e.
      let h : new_thread ≡ t = replicated n j t e in
      subst (Fits lives j) h (record {
        unjoined = λ h. ground arith;
        past = λ h. ground arith;
        told = λ h. ground arith;
        drained = λ h. ground arith;
        own = λ h. ground arith;
      });
}

-- On every interleaving of workers, tasks that arrive, and calls that stop the pool, each worker is
-- as the stage of the call says.
pub reach-IsStopping : {n : ℕ} {log : List Effect} {p : Pool} → Reach n log p → IsStopping p
reach-IsStopping {n} start = start-IsStopping n
reach-IsStopping (arrives r a) = arrive-IsStopping (reach-IsStopping r) a
reach-IsStopping (moves r m) = move-IsStopping (reach-IsStopping r) m
reach-IsStopping (calls r c) = call-IsStopping (reach-IsStopping r) c
