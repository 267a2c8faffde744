-- ===== src/ThreadPool/Stopping/Finishes.antt =====
-- include/kelcoro/thread_pool.hpp: the destructor and `wait_stop` come to their end.
use kelcoro.Base.{
  ℕ, zero, suc, ◌+◌, ◌*◌, ◌<◌, ◌≤◌, ◌≡◌, ◌≢◌, ◌⊎◌, refl, true, false, some, none, inl, inr, List,
  [], ◌∷◌, ◌++◌, arith, get_elem?, length, length-append, length-set, Option-cases, get_elem?_total,
  Bool-cases,
}
use kelcoro.ThreadPool.Stopping.{
  Entry, Phase, Thread, Effect, Stage, lives, finished, destroys, joins, joined, empties, awaits,
  sweeps, clears, Pool, push_back, own_pill, is_ended, is_told, work_step, stop_step, Arrival,
  attach, push_deadpill, Arrive, arrive, Move, works, stops, Call, destroy, wait_stop, Reach, join,
  destroy_next, await_next, pop_all, at_index,
}
use kelcoro.ThreadPool.Stopping.Fits.{IsStopping}
use kelcoro.ThreadPool.Stopping.Stages.{reach-IsStopping, move-IsStopping, call-IsStopping}
use kelcoro.ThreadPool.Stopping.Fits.{arrive-IsStopping}
use kelcoro.ThreadPool.Stopping.Steps.{
  stage_weight, Touched, stays, pushes, closes, pops, stop_step-Touched,
}
use kelcoro.ThreadPool.Stopping.Workers.{total, total-set, weight, work_step-Worked}

-- Whichever thread is next, and wherever at most `k` more lists arrive, the call comes to its end;
-- until then some thread can take a step.
pub data Finishes : ℕ → Pool → Type 0 where
  over : {k : ℕ} {p : Pool} → p.stage ≡ finished → Finishes k p
  goes_on :
      {k : ℕ} {p : Pool}
      → (eff : Effect) × (q : Pool) × Move p eff q
      → ((eff : Effect) (q : Pool) → Move p eff q → Finishes k q)
      → ((j : ℕ) (eff : Effect) (q : Pool) → suc j ≡ k → Arrive p eff q → Finishes j q)
      → Finishes k p

abbrev load : Thread → ℕ
load t = weight t.queue t.phase

abbrev pool_weight : Pool → ℕ
pool_weight p = total load p.threads + stage_weight (length p.threads) p.stage

weight-append :
    (q : List Entry) (phase : Phase) (es : List Entry)
    → weight (q ++ es) phase ≡ weight q phase + 2 * length es
weight-append q phase es = ground (arith, length-append q es)

weight-pop : (q : List Entry) (phase : Phase) → weight q phase ≡ weight [] phase + 2 * length q
weight-pop q phase = ground arith

touched_lighter :
    (p : Pool) {eff : Effect} {q : Pool} → Touched p eff q → pool_weight q < pool_weight p
touched_lighter p (stays stage lighter once spares) = ground arith
touched_lighter p (pushes i t stage there lighter same) =
    rw (length-set p.threads i (push_back t (own_pill ∷ []))) (
      omega (
        arith,
        total-set load p.threads i t (push_back t (own_pill ∷ [])) there,
        weight-append t.queue t.phase (own_pill ∷ []),
      ))
touched_lighter p (closes i t stage there lighter same) =
    rw (length-set p.threads i (record t { joinable = false }))
      (omega (arith, total-set load p.threads i t (record t { joinable = false }) there))
touched_lighter p (pops i t stage there lighter none_left taken) =
    rw (length-set p.threads i (record t { queue = [] })) (
      omega (
        arith,
        total-set load p.threads i t (record t { queue = [] }) there,
        weight-pop t.queue t.phase,
      ))

move_lighter :
    (p : Pool) {eff : Effect} {q : Pool}
    → IsStopping p
    → Move p eff q
    → pool_weight q < pool_weight p
move_lighter p is (works i t {eff} {q} {phase} there e) =
    let w = work_step-Worked t.queue t.phase (eff, q, phase) e in
    rw (length-set p.threads i (record t { queue = q; phase = phase })) (
      omega (
        arith,
        total-set load p.threads i t (record t { queue = q; phase = phase }) there,
        w.lighter,
      ))
move_lighter p {eff} {q} is (stops e) =
    touched_lighter p (stop_step-Touched p.threads p.stage (eff, q) is.range e)

arrival_small : {es : List Entry} → Arrival es → length es ≤ 2
arrival_small (attach task) = omega arith
arrival_small push_deadpill = omega arith

arrive_heavier :
    (p : Pool) {eff : Effect} {q : Pool} → Arrive p eff q → pool_weight q ≤ pool_weight p + 4
arrive_heavier p (arrive i t {es} there accepts arrival) =
    rw (length-set p.threads i (push_back t es)) (
      omega (
        arith,
        total-set load p.threads i t (push_back t es) there,
        weight-append t.queue t.phase es,
        arrival_small arrival,
      ))

-- A worker that has been told of a pill does not wait.
told_works :
    (q : List Entry) (phase : Phase)
    → is_told q phase ≡ true
    → is_ended phase ≡ false
    → work_step q phase ≢ none
unfolding work_step is_ended
told_works q phase told running stuck = ground arith

abbrev CanMove : Pool → Type 0
CanMove p = (eff : Effect) × (q : Pool) × Move p eff q

can_stop : (p : Pool) → stop_step p p.stage ≢ none → CanMove p
can_stop p free = elim (Option-cases (stop_step p p.stage)) [
  | inl stuck ↦ absurd (free stuck)
  | inr ((eff, q), e) ↦ (eff, q, stops e)
]

-- `join` returns, or the thread that is joined goes on.
joins_or_works :
    (p : Pool) (i : ℕ) (t : Thread) (stage : Stage)
    → get_elem? p.threads i ≡ some t
    → is_told t.queue t.phase ≡ true
    → (stop_step p p.stage ≡ none → join p i t stage ≡ none)
    → CanMove p
unfolding join
joins_or_works p i t stage there told step = elim (Bool-cases (is_ended t.phase)) [
  | inl done ↦ can_stop p λ stuck. ground (arith, rw done at (step stuck))
  | inr running ↦ elim (Option-cases (work_step t.queue t.phase)) [
    | inl stuck ↦ absurd (told_works t.queue t.phase told running stuck)
    | inr ((eff, q, phase), e) ↦ (eff, _, works i t there e)
  ]
]

can_move :
    (ts : List Thread) (stage : Stage)
    → IsStopping (record { threads = ts; stage = stage })
    → stage ≢ lives
    → stage ≢ finished
    → CanMove (record { threads = ts; stage = stage })
unfolding stop_step await_next
can_move ts lives is started unfinished = absurd (started refl)
can_move ts (destroys i) is started unfinished = can_stop _ λ stuck.
    elim (Option-cases (get_elem? ts i)) [
      | inl absent ↦ ground (arith, rw (absent, at_index) at stuck)
      | inr (t, there) ↦ ground (arith, rw (there, at_index) at stuck)
    ]
can_move ts (joins i) is started unfinished =
    let (t, there) = get_elem?_total ts i (ground (arith, is.range)) in
    joins_or_works _ i t (joined i) there ((is.fits i t there).told (ground arith))
      (λ stuck. rw (there, at_index) at stuck)
can_move ts (joined i) is started unfinished =
    let (t, there) = get_elem?_total ts i (ground (arith, is.range)) in
    can_stop _ λ stuck. ground (arith, rw (there, at_index) at stuck)
can_move ts (empties i []) is started unfinished = can_stop _ λ stuck. ground arith
can_move ts (empties i (x ∷ xs)) is started unfinished = can_stop _ λ stuck. ground arith
can_move ts (awaits i) is started unfinished = elim (Option-cases (get_elem? ts i)) [
  | inl absent ↦ can_stop _ λ stuck. ground (arith, rw (absent, at_index) at stuck)
  | inr (t, there) ↦ elim (Bool-cases t.joinable) [
    | inl joinable ↦
        joins_or_works _ i t (awaits (suc i)) there ((is.fits i t there).told refl)
          (λ stuck. rw (there, at_index, joinable, await_next) at stuck)
    | inr skipped ↦
        can_stop _ λ stuck. ground (arith, rw (there, at_index, skipped, await_next) at stuck)
  ]
]
can_move ts (sweeps i) is started unfinished = can_stop _ λ stuck.
    elim (Option-cases (get_elem? ts i)) [
      | inl absent ↦ ground (arith, rw (absent, at_index) at stuck)
      | inr (t, there) ↦ ground (arith, rw (there, at_index) at stuck)
    ]
can_move ts (clears i []) is started unfinished = can_stop _ λ stuck. ground arith
can_move ts (clears i (x ∷ xs)) is started unfinished = can_stop _ λ stuck. ground arith
can_move ts finished is started unfinished = absurd (unfinished refl)

is_finished : (stage : Stage) → (stage ≡ finished) ⊎ (stage ≢ finished)
is_finished stage = ground arith

stop_started :
    (ts : List Thread) (stage : Stage) (r : Effect × Pool)
    → stop_step (record { threads = ts; stage = stage }) stage ≡ some r
    → r.1.stage ≢ lives
unfolding stop_step destroy_next await_next join pop_all
stop_started ts stage r e h = ground arith

move_started :
    (p : Pool) {eff : Effect} {q : Pool}
    → IsStopping p
    → p.stage ≢ lives
    → Move p eff q
    → q.stage ≢ lives
move_started p is started (works i t there e) = started
move_started p {eff} {q} is started (stops e) = stop_started p.threads p.stage (eff, q) e

arrive_started : {p q : Pool} {eff : Effect} → p.stage ≢ lives → Arrive p eff q → q.stage ≢ lives
arrive_started started (arrive i t there accepts arrival) = started

call_started : {p q : Pool} → Call p q → q.stage ≢ lives
call_started (destroy idle) = λ h. ground arith
call_started (wait_stop idle told) = λ h. ground arith

finishes :
    (fuel k : ℕ) (p : Pool)
    → IsStopping p
    → p.stage ≢ lives
    → pool_weight p + 5 * k < fuel
    → Finishes k p
finishes zero k p is started h = absurd (omega arith)
finishes (suc fuel) k p is started h = elim (is_finished p.stage) [
  | inl done ↦ over done
  | inr unfinished ↦
      goes_on (can_move p.threads p.stage is started unfinished)
        (λ eff q m.
          finishes fuel k q (move-IsStopping is m) (move_started p is started m)
            (omega (arith, move_lighter p is m)))
        (λ j eff q e a.
          finishes fuel j q (arrive-IsStopping is a) (arrive_started started a)
            (omega (arith, arrive_heavier p a)))
]

-- Once the destructor of a pool, or `wait_stop` after a pill has gone to each worker, is called,
-- it comes to its end, whichever thread takes each step: until then some worker or the stopping
-- thread can take a step, so that no join waits for ever, and only finitely many steps are left.
-- It is called on any pool that can be reached, and at most k more tasks or pills of
-- `request_stop` arrive, before its last loop.
pub call-Finishes :
    {n : ℕ} {log : List Effect} {p q : Pool} (k : ℕ) → Reach n log p → Call p q → Finishes k q
call-Finishes {q} k r c =
    finishes (suc (pool_weight q + 5 * k)) k q (call-IsStopping (reach-IsStopping r) c)
      (call_started c) (omega arith)
