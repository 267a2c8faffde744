-- ===== src/ThreadPool/Stopping/Steps.antt =====
-- include/kelcoro/thread_pool.hpp: what a step of the thread that stops the pool does to the workers'
-- threads, by its kind.
use kelcoro.Base.{
  Option-cases, ℕ, suc, ◌+◌, ◌-◌, ◌*◌, ◌<◌, ◌≡◌, refl, false, some, List, [], ◌∷◌, arith, get_elem?,
  length, get_elem?_below, subst, Bool-cases, true, inl, inr,
}
use kelcoro.ThreadPool.Stopping.{
  Entry, own_pill, Thread, Effect, quiet, arrived, cancel_effect, is_ended, Stage, lives, finished,
  destroys, joins, joined, empties, awaits, sweeps, clears, Pool, become, at_stage, push_back,
  destroy_next, join,
}
use kelcoro.ThreadPool.Stopping.{at_index, await_next, pop_all, stop_step}
use kelcoro.ThreadPool.Stopping.Fits.{in_range}
use kelcoro.ThreadPool.Stopping.Workers.{tally, attached, invoked, resumes_pusher}

-- What is left of the list that is being cancelled.
abbrev pub rest : Stage → List Entry
rest (empties _ es) = es
rest (clears _ es) = es
rest _ = []

-- A bound on the steps from a stage on, for `n` workers.
abbrev pub stage_weight : ℕ → Stage → ℕ
stage_weight n lives = 0
stage_weight n (destroys i) = 6 * (n - i) + (2 * n + 2)
stage_weight n (joins i) = 6 * (n - suc i) + (2 * n + 5)
stage_weight n (joined i) = 6 * (n - suc i) + (2 * n + 4)
stage_weight n (empties i es) = 6 * (n - suc i) + (2 * n + 3 + length es)
stage_weight n (awaits i) = (n - i) + (2 * n + 2)
stage_weight n (sweeps i) = 2 * (n - i) + 1
stage_weight n (clears i es) = 2 * (n - suc i) + (2 + length es)
stage_weight n finished = 0

-- No thread is touched; a pill is pushed to one; one is joined; or the queue of one is popped.
pub data Touched (p : Pool) : Effect → Pool → Type 0 where
  stays :
      (stage : Stage) {eff : Effect}
      → stage_weight (length p.threads) stage < stage_weight (length p.threads) p.stage
      → ((h : ℕ) → tally h (rest stage) + invoked h eff ≡ tally h (rest p.stage) + attached h eff)
      → resumes_pusher eff ≡ false
      → Touched p eff (at_stage p stage)
  pushes :
      (i : ℕ) (t : Thread) (stage : Stage)
      → get_elem? p.threads i ≡ some t
      → stage_weight (length p.threads) stage + 2 < stage_weight (length p.threads) p.stage
      → rest stage ≡ rest p.stage
      → Touched p (arrived (own_pill ∷ [])) (become p i (push_back t (own_pill ∷ [])) stage)
  closes :
      (i : ℕ) (t : Thread) (stage : Stage)
      → get_elem? p.threads i ≡ some t
      → stage_weight (length p.threads) stage < stage_weight (length p.threads) p.stage
      → rest stage ≡ rest p.stage
      → Touched p quiet (become p i (record t { joinable = false }) stage)
  pops :
      (i : ℕ) (t : Thread) (stage : Stage)
      → get_elem? p.threads i ≡ some t
      → stage_weight (length p.threads) stage
        < stage_weight (length p.threads) p.stage + 2 * length t.queue
      → rest p.stage ≡ []
      → rest stage ≡ t.queue
      → Touched p quiet (become p i (record t { queue = [] }) stage)

cancel_effect-once :
    (e : Entry) (es : List Entry) (h : ℕ)
    → tally h es + invoked h (cancel_effect e) ≡ tally h (e ∷ es) + attached h (cancel_effect e)
unfolding cancel_effect
cancel_effect-once e es h = ground arith

cancel_effect-pusher : (e : Entry) → resumes_pusher (cancel_effect e) ≡ false
unfolding cancel_effect
cancel_effect-pusher e = ground arith

join-Touched :
    (p : Pool) (i : ℕ) (t : Thread) (stage : Stage) (r : Effect × Pool)
    → get_elem? p.threads i ≡ some t
    → stage_weight (length p.threads) stage < stage_weight (length p.threads) p.stage
    → rest stage ≡ rest p.stage
    → join p i t stage ≡ some r
    → Touched p r.0 r.1
unfolding join
join-Touched p i t stage r there lighter same e = elim (Bool-cases (is_ended t.phase)) [
  | inr running ↦ ground arith
  | inl over ↦
      let h : (quiet, become p i (record t { joinable = false }) stage) ≡ r =
        ground (arith, rw over at e) in
      subst (λ z. Touched p z.0 z.1) h (closes i t stage there lighter same)
]

module _ (p : Pool) (r : Effect × Pool) where
  destroys-Touched :
      (i : ℕ) (t : Thread)
      → p.stage ≡ destroys i
      → get_elem? p.threads i ≡ some t
      → some (destroy_next p i t) ≡ some r
      → Touched p r.0 r.1
  unfolding destroy_next
  destroys-Touched i t at there e =
      let below = get_elem?_below p.threads i t there in
      elim (Bool-cases t.joinable) [
        | inl joinable ↦
            let h : (arrived (own_pill ∷ []), become p i (push_back t (own_pill ∷ [])) (joins i))
                ≡ r =
              ground (arith, rw joinable at e) in
            subst (λ z. Touched p z.0 z.1) h
              (pushes i t (joins i) there (rw at (ground (arith, below))) (rw at refl))
        | inr skipped ↦
            let h : (quiet, at_stage p (destroys (suc i))) ≡ r = ground (arith, rw skipped at e) in
            subst (λ z. Touched p z.0 z.1) h
              (stays (destroys (suc i)) (rw at (ground (arith, below))) (λ h. rw at refl) refl)
      ]

  stays-Touched :
      (stage : Stage) (eff : Effect)
      → stage_weight (length p.threads) stage < stage_weight (length p.threads) p.stage
      → ((h : ℕ) → tally h (rest stage) + invoked h eff ≡ tally h (rest p.stage) + attached h eff)
      → resumes_pusher eff ≡ false
      → some (eff, at_stage p stage) ≡ some r
      → Touched p r.0 r.1
  stays-Touched stage eff lighter once spares e =
      let h : (eff, at_stage p stage) ≡ r = cc in
      subst (λ z. Touched p z.0 z.1) h (stays stage lighter once spares)

  pops-Touched :
      (i : ℕ) (t : Thread) (stage : Stage)
      → get_elem? p.threads i ≡ some t
      → stage_weight (length p.threads) stage
        < stage_weight (length p.threads) p.stage + 2 * length t.queue
      → rest p.stage ≡ []
      → rest stage ≡ t.queue
      → some (pop_all p i t stage) ≡ some r
      → Touched p r.0 r.1
  unfolding pop_all
  pops-Touched i t stage there lighter none_left taken e =
      let h : (quiet, become p i (record t { queue = [] }) stage) ≡ r = ground arith in
      subst (λ z. Touched p z.0 z.1) h (pops i t stage there lighter none_left taken)

  awaits-Touched :
      (i : ℕ) (t : Thread)
      → p.stage ≡ awaits i
      → get_elem? p.threads i ≡ some t
      → await_next p i t ≡ some r
      → Touched p r.0 r.1
  unfolding await_next
  awaits-Touched i t at there e =
      let below = get_elem?_below p.threads i t there in
      elim (Bool-cases t.joinable) [
        | inl joinable ↦
            join-Touched p i t (awaits (suc i)) r there (rw at (ground (arith, below))) (rw at refl)
              (rw joinable at e)
        | inr skipped ↦
            stays-Touched (awaits (suc i)) quiet (rw at (ground (arith, below))) (λ h. rw at refl)
              refl (rw skipped at e)
      ]

pub stop_step-Touched :
    (ts : List Thread) (stage : Stage) (r : Effect × Pool)
    → in_range stage (length ts) ≡ true
    → stop_step (record { threads = ts; stage = stage }) stage ≡ some r
    → Touched (record { threads = ts; stage = stage }) r.0 r.1
unfolding stop_step
stop_step-Touched ts lives r range e = ground arith
stop_step-Touched ts (destroys i) r range e = elim (Option-cases (get_elem? ts i)) [
  | inl absent ↦
      stays-Touched _ r (sweeps 0) quiet (ground arith) (λ h. refl) refl
        (rw (absent, at_index) at e)
  | inr (t, there) ↦ destroys-Touched _ r i t refl there (rw (there, at_index) at e)
]
stop_step-Touched ts (joins i) r range e = elim (Option-cases (get_elem? ts i)) [
  | inl absent ↦ ground (arith, rw (absent, at_index) at e)
  | inr (t, there) ↦
      join-Touched _ i t (joined i) r there (ground arith) refl (rw (there, at_index) at e)
]
stop_step-Touched ts (joined i) r range e = elim (Option-cases (get_elem? ts i)) [
  | inl absent ↦ ground (arith, rw (absent, at_index) at e)
  | inr (t, there) ↦
      pops-Touched _ r i t (empties i t.queue) there (ground arith) refl refl
        (rw (there, at_index) at e)
]
stop_step-Touched ts (empties i []) r range e =
    stays-Touched _ r (destroys (suc i)) quiet (ground arith) (λ h. refl) refl e
stop_step-Touched ts (empties i (x ∷ xs)) r range e =
    stays-Touched _ r (empties i xs) (cancel_effect x) (ground arith) (cancel_effect-once x xs)
      (cancel_effect-pusher x) e
stop_step-Touched ts (awaits i) r range e = elim (Option-cases (get_elem? ts i)) [
  | inl absent ↦
      stays-Touched _ r (sweeps 0) quiet (ground arith) (λ h. refl) refl
        (rw (absent, at_index) at e)
  | inr (t, there) ↦ awaits-Touched _ r i t refl there (rw (there, at_index) at e)
]
stop_step-Touched ts (sweeps i) r range e = elim (Option-cases (get_elem? ts i)) [
  | inl absent ↦
      stays-Touched _ r finished quiet (ground arith) (λ h. refl) refl (rw (absent, at_index) at e)
  | inr (t, there) ↦
      pops-Touched _ r i t (clears i t.queue) there (ground (arith, get_elem?_below ts i t there))
        refl refl (rw (there, at_index) at e)
]
stop_step-Touched ts (clears i []) r range e =
    stays-Touched _ r (sweeps (suc i)) quiet (ground arith) (λ h. refl) refl e
stop_step-Touched ts (clears i (x ∷ xs)) r range e =
    stays-Touched _ r (clears i xs) (cancel_effect x) (ground arith) (cancel_effect-once x xs)
      (cancel_effect-pusher x) e
stop_step-Touched ts finished r range e = ground arith
