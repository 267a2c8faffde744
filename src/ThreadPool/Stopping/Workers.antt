-- ===== src/ThreadPool/Stopping/Workers.antt =====
-- include/kelcoro/thread_pool.hpp, `default_worker_job`: a step of a worker, by what it does to
-- measures of its thread.
use kelcoro.Base.{
  ℕ, zero, suc, ◌+◌, ◌*◌, ◌<◌, ◌≡◌, refl, Bool, true, false, ◌||◌, ◌&&◌, some, List, [], ◌∷◌, arith,
  ◌==◌, if◌then◌else◌, get_elem?, set, length, subst, Bool-cases, inl, inr,
}
use kelcoro.ThreadPool.Stopping.{
  Entry, work, own_pill, pill, pusher, is_pill, Phase, waits, runs, cancels, ended, Thread, Effect,
  quiet, resumed, cancelled, arrived, cancel_effect, work_step, after_task, is_ended, is_told,
}

-- The sum of a measure of the threads.
abbrev pub total : (Thread → ℕ) → List Thread → ℕ
total f [] = 0
total f (t ∷ ts) = f t + total f ts

pub total-set :
    (f : Thread → ℕ) (ts : List Thread) (i : ℕ) (t u : Thread)
    → get_elem? ts i ≡ some t
    → total f (set ts i u) + f t ≡ total f ts + f u
total-set f [] i t u e = ground arith
total-set f (x ∷ xs) zero t u e = let h : x ≡ t = cc in rw h (omega arith)
total-set f (x ∷ xs) (suc i) t u e = omega (arith, total-set f xs i t u e)

-- A bound on the steps that a worker can take.
abbrev pub weight : List Entry → Phase → ℕ
weight q waits = 2 * length q + 1
weight q (runs e es) = 2 * length q + (2 + length es)
weight q (cancels es) = 2 * length q + (1 + length es)
weight q ended = 2 * length q

-- How often a task stands in a list.
abbrev pub is_task : ℕ → Entry → ℕ
is_task h (work g) = if h == g then 1 else 0
is_task h own_pill = 0
is_task h pill = 0
is_task h pusher = 0

abbrev pub tally : ℕ → List Entry → ℕ
tally h [] = 0
tally h (e ∷ es) = is_task h e + tally h es

abbrev pub pending : ℕ → List Entry → Phase → ℕ
pending h q waits = tally h q
pending h q (runs e es) = tally h q + (is_task h e + tally h es)
pending h q (cancels es) = tally h q + tally h es
pending h q ended = tally h q

-- How often a step invokes a task, and how often it attaches one.
abbrev pub invoked : ℕ → Effect → ℕ
invoked h (resumed e) = is_task h e
invoked h (cancelled e) = is_task h e
invoked h quiet = 0
invoked h (arrived _) = 0

abbrev pub attached : ℕ → Effect → ℕ
attached h (arrived es) = tally h es
attached h quiet = 0
attached h (resumed _) = 0
attached h (cancelled _) = 0

abbrev pub is_own : Entry → Bool
is_own own_pill = true
is_own (work _) = false
is_own pill = false
is_own pusher = false

abbrev pub has_own : List Entry → Bool
has_own [] = false
has_own (e ∷ es) = is_own e || has_own es

-- The destructor's pill is in the queue or in the list that the worker still walks.
abbrev pub holds_own : List Entry → Phase → Bool
holds_own q waits = has_own q
holds_own q (runs e es) = has_own (e ∷ es) || has_own q
holds_own q (cancels es) = has_own es || has_own q
holds_own q ended = has_own q

-- Each `pusher` stands right behind its pill.
abbrev pub paired : Bool → List Entry → Bool
paired b [] = true
paired b (pill ∷ es) = paired true es
paired b (pusher ∷ es) = b && paired false es
paired b (work _ ∷ es) = paired false es
paired b (own_pill ∷ es) = paired false es

abbrev pub is_paired : List Entry → Phase → Bool
is_paired q waits = paired false q
is_paired q (runs e es) = paired false (e ∷ es) && paired false q
is_paired q (cancels _) = paired false q
is_paired q ended = paired false q

abbrev pub resumes_pusher : Effect → Bool
resumes_pusher (resumed pusher) = true
resumes_pusher _ = false

pub record Worked (q : List Entry) (phase : Phase) (r : Effect × List Entry × Phase) : Type 0 where
  pub running : is_ended phase ≡ false
  pub lighter : weight r.1 r.2 < weight q phase
  pub told : is_told q phase ≡ true → is_told r.1 r.2 ≡ true
  pub own : holds_own r.1 r.2 ≡ true → holds_own q phase ≡ true
  pub once : (h : ℕ) → pending h r.1 r.2 + invoked h r.0 ≡ pending h q phase + attached h r.0
  pub pairs : is_paired q phase ≡ true → is_paired r.1 r.2 ≡ true
  pub spares : is_paired q phase ≡ true → resumes_pusher r.0 ≡ false

taking : (e : Entry) (es : List Entry) → Worked (e ∷ es) waits (quiet, [], runs e es)
unfolding is_ended
taking e es = record {
  running = refl;
  lighter = omega arith;
  told = λ h. ground arith;
  own = λ h. ground arith;
  once = λ h. omega arith;
  pairs = λ h. ground arith;
  spares = λ h. refl;
}

running_task :
    (q : List Entry) (e : Entry) (es : List Entry)
    → is_pill e ≡ false
    → Worked q (runs e es) (resumed e, q, after_task es)
unfolding is_ended after_task
running_task q e [] task = record {
  running = refl;
  lighter = ground arith;
  told = λ h. ground arith;
  own = λ h. ground arith;
  once = λ h. ground arith;
  pairs = λ h. ground arith;
  spares = λ h. ground arith;
}
running_task q e (y ∷ ys) task = record {
  running = refl;
  lighter = ground arith;
  told = λ h. ground arith;
  own = λ h. ground arith;
  once = λ h. ground arith;
  pairs = λ h. ground arith;
  spares = λ h. ground arith;
}

passing_pill :
    (q : List Entry) (e : Entry) (es : List Entry)
    → is_pill e ≡ true
    → Worked q (runs e es) (quiet, q, cancels es)
unfolding is_ended
passing_pill q e es dead = record {
  running = refl;
  lighter = ground arith;
  told = λ h. ground arith;
  own = λ h. ground arith;
  once = λ h. ground arith;
  pairs = λ h. ground arith;
  spares = λ h. ground arith;
}

cancelling :
    (q : List Entry) (e : Entry) (es : List Entry)
    → Worked q (cancels (e ∷ es)) (cancel_effect e, q, cancels es)
unfolding is_ended cancel_effect
cancelling q e es = record {
  running = refl;
  lighter = ground arith;
  told = λ h. ground arith;
  own = λ h. ground arith;
  once = λ h. ground arith;
  pairs = λ h. ground arith;
  spares = λ h. ground arith;
}

ending : (q : List Entry) → Worked q (cancels []) (quiet, q, ended)
unfolding is_ended
ending q = record {
  running = refl;
  lighter = omega arith;
  told = λ h. ground arith;
  own = λ h. ground arith;
  once = λ h. omega arith;
  pairs = λ h. ground arith;
  spares = λ h. ground arith;
}

pub work_step-Worked :
    (q : List Entry) (phase : Phase) (r : Effect × List Entry × Phase)
    → work_step q phase ≡ some r
    → Worked q phase r
unfolding work_step
work_step-Worked [] waits r e = ground arith
work_step-Worked (x ∷ xs) waits r e =
    let h : (quiet, [], runs x xs) ≡ r = cc in subst (Worked _ _) h (taking x xs)
work_step-Worked q (runs x xs) r e = elim (Bool-cases (is_pill x)) [
  | inl dead ↦
      let h : (quiet, q, cancels xs) ≡ r = ground arith in
      subst (Worked _ _) h (passing_pill q x xs dead)
  | inr task ↦
      let h : (resumed x, q, after_task xs) ≡ r = ground arith in
      subst (Worked _ _) h (running_task q x xs task)
]
work_step-Worked q (cancels []) r e =
    let h : (quiet, q, ended) ≡ r = cc in subst (Worked _ _) h (ending q)
work_step-Worked q (cancels (x ∷ xs)) r e =
    let h : (cancel_effect x, q, cancels xs) ≡ r = cc in subst (Worked _ _) h (cancelling q x xs)
work_step-Worked q ended r e = ground arith
