-- ===== src/ThreadPool/Stopping/Pills.antt =====
-- include/kelcoro/thread_pool.hpp: the dead pills of a pool that is being stopped.
use kelcoro.Base.{
  Bool, ℕ, ◌≡◌, refl, subst, true, false, some, inl, inr, List, [], ◌∷◌, ◌++◌, arith, get_elem?,
  get_elem?-set,
}
use kelcoro.ThreadPool.Stopping.{
  Entry, Phase, Thread, Effect, Stage, destroys, Pool, become, push_back, own_pill, Arrival, attach,
  push_deadpill, arrive, Move, works, stops, destroy, wait_stop, Reach, start, arrives, moves,
  calls, new_thread,
}
use kelcoro.ThreadPool.Stopping.Fits.{replicated}
use kelcoro.ThreadPool.Stopping.Stages.{reach-IsStopping}
use kelcoro.ThreadPool.Stopping.Steps.{Touched, stays, pushes, closes, pops, stop_step-Touched}
use kelcoro.ThreadPool.Stopping.Workers.{
  holds_own, paired, is_paired, resumes_pusher, work_step-Worked,
}

-- Whenever the destructor's loop is at a worker, about to push its pill, that pill is in no
-- worker's queue and in no list that a worker still walks, on any run of the pool: its one node is
-- never linked twice.
pub own_pill_fresh :
    {n : ℕ} {log : List Effect} {p : Pool} (i j : ℕ) (t : Thread)
    → Reach n log p
    → p.stage ≡ destroys i
    → get_elem? p.threads j ≡ some t
    → holds_own t.queue t.phase ≡ false
own_pill_fresh {p} i j t r at there =
    let f = (reach-IsStopping r).fits j t there in ground (arith, rw at at (f.own))

-- Each node of a `push_deadpill` coroutine stands behind its pill.
abbrev AllPaired : Pool → Type 0
AllPaired p =
    (j : ℕ) (t : Thread) → get_elem? p.threads j ≡ some t → is_paired t.queue t.phase ≡ true

paired-append :
    (b : Bool) (xs ys : List Entry)
    → paired b xs ≡ true
    → paired false ys ≡ true
    → paired b (xs ++ ys) ≡ true
paired-append b [] [] e f = refl
paired-append b [] (y ∷ ys) e f = ground arith
paired-append b (x ∷ xs) ys e f =
    ground (arith, paired-append true xs ys, paired-append false xs ys)

is_paired-append :
    (q : List Entry) (phase : Phase) (es : List Entry)
    → is_paired q phase ≡ true
    → paired false es ≡ true
    → is_paired (q ++ es) phase ≡ true
is_paired-append q phase es e f = ground (arith, paired-append false q es)

replaced_paired :
    (p : Pool) (i : ℕ) (u : Thread) (stage : Stage)
    → AllPaired p
    → is_paired u.queue u.phase ≡ true
    → AllPaired (become p i u stage)
replaced_paired p i u stage all new j t e = elim (get_elem?-set p.threads i j u t e) [
  | inl (same, is_new) ↦ rw is_new new
  | inr (other, old) ↦ all j t old
]

is_paired-pop :
    (q : List Entry) (phase : Phase) → is_paired q phase ≡ true → is_paired [] phase ≡ true
is_paired-pop q phase e = ground arith

touched_paired : (p : Pool) {eff : Effect} {q : Pool} → AllPaired p → Touched p eff q → AllPaired q
touched_paired p all (stays stage lighter once spares) = all
touched_paired p all (pushes i t stage there lighter same) =
    replaced_paired p i (push_back t (own_pill ∷ [])) stage all
      (is_paired-append t.queue t.phase (own_pill ∷ []) (all i t there) refl)
touched_paired p all (closes i t stage there lighter same) =
    replaced_paired p i (record t { joinable = false }) stage all (all i t there)
touched_paired p all (pops i t stage there lighter none_left taken) =
    replaced_paired p i (record t { queue = [] }) stage all
      (is_paired-pop t.queue t.phase (all i t there))

arrival_paired : {es : List Entry} → Arrival es → paired false es ≡ true
arrival_paired (attach task) = refl
arrival_paired push_deadpill = refl

reach_paired : {n : ℕ} {log : List Effect} {p : Pool} → Reach n log p → AllPaired p
reach_paired {n} start = λ j t e.
    let h : new_thread ≡ t = replicated n j t e in
    subst (λ u. is_paired u.queue u.phase ≡ true) h refl
reach_paired (arrives {p} r (arrive i t {es} there accepts arrival)) =
    replaced_paired p i (push_back t es) p.stage (reach_paired r)
      (is_paired-append t.queue t.phase es (reach_paired r i t there) (arrival_paired arrival))
reach_paired (moves {p} r (works i t {eff} {q} {phase} there e)) =
    replaced_paired p i (record t { queue = q; phase = phase }) p.stage (reach_paired r)
      ((work_step-Worked t.queue t.phase (eff, q, phase) e).pairs (reach_paired r i t there))
reach_paired (moves {p} {q} {eff} r (stops e)) =
    touched_paired p (reach_paired r)
      (stop_step-Touched p.threads p.stage (eff, q) (reach-IsStopping r).range e)
reach_paired (calls r (destroy idle)) = reach_paired r
reach_paired (calls r (wait_stop idle told)) = reach_paired r

touched_pusher : {p : Pool} {eff : Effect} {q : Pool} → Touched p eff q → resumes_pusher eff ≡ false
touched_pusher (stays stage lighter once spares) = spares
touched_pusher (pushes i t stage there lighter same) = refl
touched_pusher (closes i t stage there lighter same) = refl
touched_pusher (pops i t stage there lighter none_left taken) = refl

-- No worker resumes the coroutine of a `push_deadpill` as an ordinary task, on any run of the
-- pool: it is only ever cancelled, as the assertion in `deadpill_pusher::await_resume` demands.
pub move-resumes_pusher :
    {n : ℕ} {log : List Effect} {p q : Pool} {eff : Effect}
    → Reach n log p
    → Move p eff q
    → resumes_pusher eff ≡ false
move-resumes_pusher r (works i t {eff} {q} {phase} there e) =
    (work_step-Worked t.queue t.phase (eff, q, phase) e).spares (reach_paired r i t there)
move-resumes_pusher {p} {q} {eff} r (stops e) =
    touched_pusher (stop_step-Touched p.threads p.stage (eff, q) (reach-IsStopping r).range e)
