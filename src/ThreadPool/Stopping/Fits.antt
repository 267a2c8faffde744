-- ===== src/ThreadPool/Stopping/Fits.antt =====
-- include/kelcoro/thread_pool.hpp: what holds of each worker at each stage of the destructor and of
-- `wait_stop`.
use kelcoro.Base.{
  ℕ, zero, suc, ◌≡◌, ◌≢◌, refl, Bool, true, false, ◌||◌, some, List, [], ◌∷◌, ◌++◌, arith, ◌==◌,
  ltb, leb, get_elem?, get_elem?-set, replicate, length, length-set, subst₂, sym, inl, inr,
}
use kelcoro.ThreadPool.Stopping.{
  is_open, Entry, Phase, Thread, Effect, work_step, is_ended, has_pill, is_told, Stage, lives,
  finished, destroys, joins, joined, empties, awaits, sweeps, clears, Pool, become, at_stage,
  push_back, Arrival, attach, push_deadpill, Arrive, arrive, new_thread,
}
use kelcoro.ThreadPool.Stopping.Workers.{has_own, holds_own, work_step-Worked}

-- Thread `j` has ended.
abbrev pub is_past : Stage → ℕ → Bool
is_past lives j = false
is_past (destroys i) j = ltb j i
is_past (joins i) j = ltb j i
is_past (joined i) j = leb j i
is_past (empties i _) j = leb j i
is_past (awaits i) j = ltb j i
is_past (sweeps _) j = true
is_past (clears _ _) j = true
is_past finished j = true

-- Thread `j` meets a pill, or has met one.
abbrev pub told_by : Stage → ℕ → Bool
told_by (joins i) j = j == i
told_by (awaits _) j = true
told_by _ j = false

-- The queue of thread `j` is empty.
abbrev pub drained_by : Stage → ℕ → Bool
drained_by (sweeps i) j = ltb j i
drained_by (clears i _) j = leb j i
drained_by finished j = true
drained_by _ j = false

-- The pill of the destructor may be with thread `j`.
abbrev pub own_at : Stage → ℕ → Bool
own_at (joins i) j = j == i
own_at (joined i) j = j == i
own_at _ j = false

-- The loops' bodies are about a thread that is there.
abbrev pub in_range : Stage → ℕ → Bool
in_range (joins i) n = ltb i n
in_range (joined i) n = ltb i n
in_range (empties i _) n = ltb i n
in_range (clears i _) n = ltb i n
in_range _ n = true

pub record Fits (stage : Stage) (j : ℕ) (t : Thread) : Type 0 where
  pub unjoined : t.joinable ≡ false → is_ended t.phase ≡ true
  pub past : is_past stage j ≡ true → is_ended t.phase ≡ true
  pub told : told_by stage j ≡ true → is_told t.queue t.phase ≡ true
  pub drained : drained_by stage j ≡ true → t.queue ≡ []
  pub own : holds_own t.queue t.phase ≡ true → own_at stage j ≡ true

pub record IsStopping (p : Pool) : Type 0 where
  pub range : in_range p.stage (length p.threads) ≡ true
  pub fits : (j : ℕ) (t : Thread) → get_elem? p.threads j ≡ some t → Fits p.stage j t

drained-past : (stage : Stage) (j : ℕ) → drained_by stage j ≡ true → is_past stage j ≡ true
drained-past stage j h = ground arith

module _ (p : Pool) (is : IsStopping p) where
  -- The stage changes.
  pub staged :
      (stage : Stage)
      → in_range stage (length p.threads) ≡ true
      → ((j : ℕ) (t : Thread) → get_elem? p.threads j ≡ some t → Fits p.stage j t → Fits stage j t)
      → IsStopping (at_stage p stage)
  staged stage r f = record { range = r; fits = λ j t e. f j t e (is.fits j t e) }

  -- A thread changes, and perhaps the stage.
  pub replaced :
      (i : ℕ) (t u : Thread) (stage : Stage)
      → get_elem? p.threads i ≡ some t
      → in_range stage (length p.threads) ≡ true
      → Fits stage i u
      → ((j : ℕ) (v : Thread) → i ≢ j → Fits p.stage j v → Fits stage j v)
      → IsStopping (become p i u stage)
  replaced i t u stage e r f g = record {
    range = rw (length-set p.threads i u) r;
    fits = λ j v h. elim (get_elem?-set p.threads i j u v h) [
      | inl (same, new) ↦ subst₂ (Fits stage) same (sym new) f
      | inr (other, old) ↦ g j v other (is.fits j v old)
    ];
  }

  pub works-IsStopping :
      (i : ℕ) (t : Thread) (r : Effect × List Entry × Phase)
      → get_elem? p.threads i ≡ some t
      → work_step t.queue t.phase ≡ some r
      → IsStopping (become p i (record t { queue = r.1; phase = r.2 }) p.stage)
  works-IsStopping i t r e step =
      let w = work_step-Worked t.queue t.phase r step in
      let f = is.fits i t e in
      replaced i t _ p.stage e is.range
        (record {
          unjoined = λ h. ground (arith, w.running, f.unjoined h);
          past = λ h. ground (arith, w.running, f.past h);
          told = λ h. w.told (f.told h);
          drained = λ h. ground (arith, w.running, f.past (drained-past p.stage i h));
          own = λ h. f.own (w.own h);
        })
        (λ j v ne g. g)

has_pill-append : (xs ys : List Entry) → has_pill (xs ++ ys) ≡ (has_pill xs || has_pill ys)
has_pill-append [] ys = refl
has_pill-append (x ∷ xs) ys = ground (arith, has_pill-append xs ys)

has_own-append : (xs ys : List Entry) → has_own (xs ++ ys) ≡ (has_own xs || has_own ys)
has_own-append [] ys = refl
has_own-append (x ∷ xs) ys = ground (arith, has_own-append xs ys)

is_told-append :
    (q : List Entry) (phase : Phase) (es : List Entry)
    → is_told q phase ≡ true
    → is_told (q ++ es) phase ≡ true
is_told-append q phase es h = ground (arith, has_pill-append q es)

pub is_told-pill :
    (q : List Entry) (phase : Phase) (es : List Entry)
    → has_pill es ≡ true
    → is_told (q ++ es) phase ≡ true
is_told-pill q phase es h = ground (arith, has_pill-append q es)

holds_own-append :
    (q : List Entry) (phase : Phase) (es : List Entry)
    → holds_own (q ++ es) phase ≡ (holds_own q phase || has_own es)
holds_own-append q phase es = ground (arith, has_own-append q es)

open_undrained : (stage : Stage) (j : ℕ) → is_open stage ≡ true → drained_by stage j ≡ false
open_undrained stage j h = ground arith

arrives_not_own : {es : List Entry} → Arrival es → has_own es ≡ false
arrives_not_own (attach h) = refl
arrives_not_own push_deadpill = refl

pub replicated :
    (n j : ℕ) (t : Thread) → get_elem? (replicate n new_thread) j ≡ some t → new_thread ≡ t
replicated zero j t e = ground arith
replicated (suc n) zero t e = cc
replicated (suc n) (suc j) t e = replicated n j t e

pub arrive-IsStopping : {p q : Pool} {eff : Effect} → IsStopping p → Arrive p eff q → IsStopping q
arrive-IsStopping {p} is (arrive i t {es} there accepts arrival) =
    let f = is.fits i t there in
    replaced p is i t (push_back t es) p.stage there is.range
      (record {
        unjoined = f.unjoined;
        past = f.past;
        told = λ h. is_told-append t.queue t.phase es (f.told h);
        drained = λ h. ground (arith, open_undrained p.stage i accepts);
        own = λ h.
            f.own (ground (arith, holds_own-append t.queue t.phase es, arrives_not_own arrival));
      })
      (λ j v ne g. g)
