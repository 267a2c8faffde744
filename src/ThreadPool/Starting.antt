-- ===== src/ThreadPool/Starting.antt =====
-- include/kelcoro/thread_pool.hpp: the constructor of `thread_pool`, which joins the threads that it has
-- started if a further one cannot be. Nobody else has the pool yet; the workers run beside it.
pub mod Joined
pub mod Unwound
use kelcoro.Base.{
  ℕ, suc, ◌≡◌, Bool, true, false, Option, none, some, List, [], ◌∷◌, ◌++◌, get_elem?, set,
  replicate, if◌then◌else◌,
}
use kelcoro.ThreadPool.Stopping.{
  Entry, Phase, Effect, own_pill, Thread, new_thread, push_back, ended, is_ended, work_step,
}

-- a `std::thread` that is no thread, as before its start and after `join`
abbrev pub no_thread : Thread
no_thread = record { queue = []; phase = ended; joinable = false }

-- At thread `i` of the loop that starts them; and in the guard of the failed constructor at thread `i`,
-- and in its `join`.
pub data Stage : Type 0 where
  starts unwinds joins : ℕ → Stage
  started failed : Stage

pub record Pool : Type 0 where
  pub threads : List Thread
  pub stage : Stage

unfoldable pub new_pool : ℕ → Pool
new_pool n = record { threads = replicate n no_thread; stage = starts 0 }

abbrev become : Pool → ℕ → Thread → Stage → Pool
become p i t stage = record { threads = set p.threads i t; stage = stage }

abbrev at_stage : Pool → Stage → Pool
at_stage p stage = record p { stage = stage }

-- The guard at thread `i`: it stops at the first one that is none.
unwind_next : Pool → ℕ → Thread → Pool
unwind_next p i t =
    if t.joinable then become p i (push_back t (own_pill ∷ [])) (joins i) else at_stage p failed

join : Pool → ℕ → Thread → Option Pool
join p i t =
    if is_ended t.phase
    then some (become p i (record t { joinable = false }) (unwinds (suc i)))
    else none

-- `throws` says whether the system refuses to start a thread.
unfoldable pub start_step : Bool → Pool → Stage → Option Pool
unfolding unwind_next join
start_step throws p (starts i) = elim (get_elem? p.threads i) [
  | none ↦ some (at_stage p started)
  | some t ↦
      some (if throws then at_stage p (unwinds 0) else become p i new_thread (starts (suc i)))
]
start_step throws p (unwinds i) = elim (get_elem? p.threads i) [
  | none ↦ some (at_stage p failed)
  | some t ↦ some (unwind_next p i t)
]
start_step throws p (joins i) = elim (get_elem? p.threads i) [ none ↦ none | some t ↦ join p i t ]
start_step throws p started = none
start_step throws p failed = none

pub data Step (p : Pool) : Pool → Type 0 where
  works :
      (i : ℕ) (t : Thread) (r : Effect × List Entry × Phase)
      → get_elem? p.threads i ≡ some t
      → work_step t.queue t.phase ≡ some r
      → Step p (become p i (record t { queue = r.1; phase = r.2 }) p.stage)
  constructs : (throws : Bool) {q : Pool} → start_step throws p p.stage ≡ some q → Step p q

-- Whichever thread is next, the constructor comes to its end: every thread has been started, or none
-- is left that has been and was not joined.
pub data Ends (n : ℕ) : Pool → Type 0 where
  all_started : {p : Pool} → p.stage ≡ started → p.threads ≡ replicate n new_thread → Ends n p
  none_left : {p : Pool} → p.stage ≡ failed → p.threads ≡ replicate n no_thread → Ends n p
  goes_on : {p : Pool} → (q : Pool) × Step p q → ((q : Pool) → Step p q → Ends n q) → Ends n p
