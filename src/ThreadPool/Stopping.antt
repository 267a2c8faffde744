-- ===== src/ThreadPool/Stopping.antt =====
-- include/kelcoro/thread_pool.hpp: how a `thread_pool` stops. `request_stop`, `wait_stop` and the
-- destructor run beside the workers and beside whoever attaches tasks.
--
-- A queue is the list of its nodes. A step is what a thread does between two accesses of a queue, or
-- between two resumed tasks; which thread is next is left open.
pub mod Fits
pub mod Changes
pub mod Stages
pub mod Steps
pub mod Invoked
pub mod Pills
pub mod Finishes
pub mod Workers
use kelcoro.Base.{
  ℕ, zero, suc, ◌≡◌, ◌⊎◌, Bool, true, false, ◌||◌, Option, none, some, List, [], ◌∷◌, ◌++◌,
  get_elem?, set, replicate, if◌then◌else◌,
}

-- The nodes: a task's, the pill of the destructor's frame, and the two of a `deadpill_pusher`, which
-- are a pill and the node of its coroutine.
pub data Entry : Type 0 where
  work : ℕ → Entry
  own_pill pill pusher : Entry

-- whether `task` is null
abbrev pub is_pill : Entry → Bool
is_pill own_pill = true
is_pill pill = true
is_pill (work _) = false
is_pill pusher = false

-- Where `default_worker_job` stands: in `pop_all_not_empty`, before a node of the inner loop and the
-- nodes behind it, or in `cancel_tasks` with what is left of the list.
pub data Phase : Type 0 where
  waits ended : Phase
  runs : Entry → List Entry → Phase
  cancels : List Entry → Phase

pub record Thread : Type 0 where
  pub queue : List Entry
  pub phase : Phase
  pub joinable : Bool

abbrev pub new_thread : Thread
new_thread = record { queue = []; phase = waits; joinable = true }

-- What a step does to tasks.
pub data Effect : Type 0 where
  quiet : Effect
  resumed cancelled : Entry → Effect
  arrived : List Entry → Effect

-- one iteration of `cancel_tasks`
unfoldable pub cancel_effect : Entry → Effect
cancel_effect e = if is_pill e then quiet else cancelled e

unfoldable pub after_task : List Entry → Phase
after_task [] = waits
after_task (e ∷ es) = runs e es

unfoldable pub work_step : List Entry → Phase → Option (Effect × List Entry × Phase)
unfolding after_task
work_step [] waits = none
work_step (e ∷ es) waits = some (quiet, [], runs e es)
work_step q (runs e es) =
    if is_pill e then some (quiet, q, cancels es) else some (resumed e, q, after_task es)
work_step q (cancels []) = some (quiet, q, ended)
work_step q (cancels (e ∷ es)) = some (cancel_effect e, q, cancels es)
work_step q ended = none

-- Where the thread stands that destroys the pool or waits for its stop: in no such call; at thread
-- `i` of the destructor's loop, in its `join`, after it, or in the loop's `cancel_tasks`; at thread
-- `i` of the loop of `wait_stop`; at queue `i` of the last loop of both, or in its `cancel_tasks`.
pub data Stage : Type 0 where
  lives finished : Stage
  destroys joins joined : ℕ → Stage
  empties : ℕ → List Entry → Stage
  awaits sweeps : ℕ → Stage
  clears : ℕ → List Entry → Stage

pub record Pool : Type 0 where
  pub threads : List Thread
  pub stage : Stage

-- The pool with thread `i` and the stage replaced.
abbrev pub become : Pool → ℕ → Thread → Stage → Pool
become p i t stage = record { threads = set p.threads i t; stage = stage }

abbrev pub at_stage : Pool → Stage → Pool
at_stage p stage = record p { stage = stage }

abbrev pub push_back : Thread → List Entry → Thread
push_back t es = record t { queue = t.queue ++ es }

unfoldable pub is_ended : Phase → Bool
is_ended ended = true
is_ended waits = false
is_ended (runs _ _) = false
is_ended (cancels _) = false

-- The destructor at thread `i`: it skips a thread that has been joined.
unfoldable pub destroy_next : Pool → ℕ → Thread → Effect × Pool
destroy_next p i t =
    if t.joinable
    then (arrived (own_pill ∷ []), become p i (push_back t (own_pill ∷ [])) (joins i))
    else (quiet, at_stage p (destroys (suc i)))

-- `join` returns once the thread has ended
unfoldable pub join : Pool → ℕ → Thread → Stage → Option (Effect × Pool)
join p i t stage =
    if is_ended t.phase
    then some (quiet, become p i (record t { joinable = false }) stage)
    else none

unfoldable pub await_next : Pool → ℕ → Thread → Option (Effect × Pool)
unfolding join
await_next p i t =
    if t.joinable then join p i t (awaits (suc i)) else some (quiet, at_stage p (awaits (suc i)))

-- `q.pop_all()`, whose list is cancelled next
unfoldable pub pop_all : Pool → ℕ → Thread → Stage → Effect × Pool
pop_all p i t stage = (quiet, become p i (record t { queue = [] }) stage)

-- A loop's body at index `i`, or what comes after the loop.
abbrev pub at_index {ℓ} : {A : Type ℓ} → Pool → ℕ → (Thread → A) → A → A
at_index p i body after = elim (get_elem? p.threads i) [ none ↦ after | some t ↦ body t ]

unfoldable pub stop_step : Pool → Stage → Option (Effect × Pool)
unfolding destroy_next join await_next pop_all cancel_effect
stop_step p lives = none
stop_step p (destroys i) =
    at_index p i (λ t. some (destroy_next p i t)) (some (quiet, at_stage p (sweeps 0)))
stop_step p (joins i) = at_index p i (λ t. join p i t (joined i)) none
stop_step p (joined i) = at_index p i (λ t. some (pop_all p i t (empties i t.queue))) none
stop_step p (empties i []) = some (quiet, at_stage p (destroys (suc i)))
stop_step p (empties i (e ∷ es)) = some (cancel_effect e, at_stage p (empties i es))
stop_step p (awaits i) = at_index p i (λ t. await_next p i t) (some (quiet, at_stage p (sweeps 0)))
stop_step p (sweeps i) =
    at_index p i (λ t. some (pop_all p i t (clears i t.queue))) (some (quiet, at_stage p finished))
stop_step p (clears i []) = some (quiet, at_stage p (sweeps (suc i)))
stop_step p (clears i (e ∷ es)) = some (cancel_effect e, at_stage p (clears i es))
stop_step p finished = none

-- The list that `attach` pushes, or an iteration of `request_stop`
pub data Arrival : List Entry → Type 0 where
  attach : (task : ℕ) → Arrival (work task ∷ [])
  push_deadpill : Arrival (pill ∷ pusher ∷ [])

-- Before the last loop others may still push.
abbrev pub is_open : Stage → Bool
is_open (sweeps _) = false
is_open (clears _ _) = false
is_open finished = false
is_open _ = true

pub data Arrive (p : Pool) : Effect → Pool → Type 0 where
  arrive :
      (i : ℕ) (t : Thread) {es : List Entry}
      → get_elem? p.threads i ≡ some t
      → is_open p.stage ≡ true
      → Arrival es
      → Arrive p (arrived es) (become p i (push_back t es) p.stage)

-- A step of a worker, or of the thread that stops the pool.
pub data Move (p : Pool) : Effect → Pool → Type 0 where
  works :
      (i : ℕ) (t : Thread) {eff : Effect} {q : List Entry} {phase : Phase}
      → get_elem? p.threads i ≡ some t
      → work_step t.queue t.phase ≡ some (eff, q, phase)
      → Move p eff (become p i (record t { queue = q; phase = phase }) p.stage)
  stops : {eff : Effect} {p' : Pool} → stop_step p p.stage ≡ some (eff, p') → Move p eff p'

abbrev pub has_pill : List Entry → Bool
has_pill [] = false
has_pill (e ∷ es) = is_pill e || has_pill es

-- The thread will meet a pill, or has met one.
abbrev pub is_told : List Entry → Phase → Bool
is_told q waits = has_pill q
is_told q (runs e es) = has_pill (e ∷ es) || has_pill q
is_told q (cancels _) = true
is_told q ended = true

-- A call starts between others; `wait_stop` comes after `request_stop`.
pub data Call (p : Pool) : Pool → Type 0 where
  destroy : (p.stage ≡ lives) ⊎ (p.stage ≡ finished) → Call p (at_stage p (destroys 0))
  wait_stop :
      p.stage ≡ lives
      → ((i : ℕ) (t : Thread) → get_elem? p.threads i ≡ some t → is_told t.queue t.phase ≡ true)
      → Call p (at_stage p (awaits 0))

-- The pools that `n` workers come to, with the effects of the steps, newest first.
pub data Reach (n : ℕ) : List Effect → Pool → Type 0 where
  start : Reach n [] (record { threads = replicate n new_thread; stage = lives })
  arrives :
      {log : List Effect} {p q : Pool} {eff : Effect}
      → Reach n log p
      → Arrive p eff q
      → Reach n (eff ∷ log) q
  moves :
      {log : List Effect} {p q : Pool} {eff : Effect}
      → Reach n log p
      → Move p eff q
      → Reach n (eff ∷ log) q
  calls : {log : List Effect} {p q : Pool} → Reach n log p → Call p q → Reach n log q
