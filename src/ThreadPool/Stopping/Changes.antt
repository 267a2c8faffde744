-- ===== src/ThreadPool/Stopping/Changes.antt =====
-- include/kelcoro/thread_pool.hpp: the kinds of steps of the thread that stops the pool, by what they
-- need and leave.
use native.Mathlib.Decide.{ℕ_discrete}
use kelcoro.Base.{
  ℕ, ◌≡◌, ◌≢◌, refl, true, false, none, some, [], arith, ltb, get_elem?, length, get_elem?_beyond,
  subst, Bool-cases, inl, inr,
}
use kelcoro.ThreadPool.Stopping.{
  Phase, Thread, Effect, quiet, is_ended, Stage, sweeps, Pool, become, at_stage, join, pop_all,
}
use kelcoro.ThreadPool.Stopping.Workers.{holds_own}
use kelcoro.ThreadPool.Stopping.Fits.{
  is_past, told_by, drained_by, own_at, in_range, IsStopping, staged, replaced,
}

-- The last loop begins once all threads have ended.
pub begins_sweep :
    (p : Pool) (i : ℕ) (r : Effect × Pool)
    → IsStopping p
    → get_elem? p.threads i ≡ none
    → ((j : ℕ) → ltb j i ≡ true → is_past p.stage j ≡ true)
    → ((j : ℕ) → own_at p.stage j ≡ false)
    → some (quiet, at_stage p (sweeps 0)) ≡ some r
    → IsStopping r.1
begins_sweep p i r is absent past own e =
    let h : (quiet, at_stage p (sweeps 0)) ≡ r = cc in
    subst (λ z. IsStopping z.1) h
      (staged p is (sweeps 0) refl λ j t g f. record {
        unjoined = f.unjoined;
        past = λ _. f.past (past j (get_elem?_beyond p.threads i j t absent g));
        told = λ h. ground arith;
        drained = λ h. ground arith;
        own = λ h. ground (arith, f.own h, own j);
      })

-- Thread `i` is passed over, since it has been joined.
pub skips :
    (p : Pool) (i : ℕ) (t : Thread) (stage : Stage) (r : Effect × Pool)
    → IsStopping p
    → get_elem? p.threads i ≡ some t
    → t.joinable ≡ false
    → in_range stage (length p.threads) ≡ true
    → ((j : ℕ) → is_past stage j ≡ true → i ≢ j → is_past p.stage j ≡ true)
    → ((j : ℕ) → told_by stage j ≡ true → told_by p.stage j ≡ true)
    → ((j : ℕ) → drained_by stage j ≡ false)
    → ((j : ℕ) → own_at p.stage j ≡ false)
    → some (quiet, at_stage p stage) ≡ some r
    → IsStopping r.1
skips p i t stage r is there done range past told drained own e =
    let h : (quiet, at_stage p stage) ≡ r = cc in
    subst (λ z. IsStopping z.1) h
      (staged p is stage range λ j u g f. record {
        unjoined = f.unjoined;
        past = λ h. elim (ℕ_discrete i j) [
          | yes same ↦ let h : t ≡ u = cc in ground (arith, f.unjoined)
          | no other ↦ f.past (past j h other)
        ];
        told = λ h. f.told (told j h);
        drained = λ h. ground (arith, drained j);
        own = λ h. ground (arith, f.own h, own j);
      })

-- `join` leaves the thread as it has ended.
pub join-IsStopping :
    (p : Pool) (i : ℕ) (t : Thread) (stage : Stage) (r : Effect × Pool)
    → IsStopping p
    → get_elem? p.threads i ≡ some t
    → in_range stage (length p.threads) ≡ true
    → ((j : ℕ) → i ≢ j → is_past stage j ≡ true → is_past p.stage j ≡ true)
    → ((j : ℕ) → told_by stage j ≡ true → told_by p.stage j ≡ true)
    → ((j : ℕ) → drained_by stage j ≡ false)
    → ((j : ℕ) → own_at p.stage j ≡ true → own_at stage j ≡ true)
    → join p i t stage ≡ some r
    → IsStopping r.1
unfolding join
join-IsStopping p i t stage r is there range past told drained own e =
    elim (Bool-cases (is_ended t.phase)) [
      | inr running ↦ ground arith
      | inl over ↦
          let u : Thread = record t { joinable = false } in
          let h : (quiet, become p i u stage) ≡ r = ground (arith, rw over at e) in
          let f = is.fits i t there in
          subst (λ z. IsStopping z.1) h
            (replaced p is i t u stage there range
              (record {
                unjoined = λ _. over;
                past = λ _. over;
                told = λ h. f.told (told i h);
                drained = λ h. ground (arith, drained i);
                own = λ h. own i (f.own h);
              })
              λ j v ne g. record {
                unjoined = g.unjoined;
                past = λ h. g.past (past j ne h);
                told = λ h. g.told (told j h);
                drained = λ h. ground (arith, drained j);
                own = λ h. own j (g.own h);
              })
    ]

ended_empty : (phase : Phase) → is_ended phase ≡ true → holds_own [] phase ≡ false
unfolding is_ended
ended_empty phase h = ground arith

-- `pop_all` on the queue of a thread that has ended.
pub pop_all-IsStopping :
    (p : Pool) (i : ℕ) (t : Thread) (stage : Stage) (r : Effect × Pool)
    → IsStopping p
    → get_elem? p.threads i ≡ some t
    → in_range stage (length p.threads) ≡ true
    → is_past p.stage i ≡ true
    → ((j : ℕ) → is_past stage j ≡ true → is_past p.stage j ≡ true)
    → ((j : ℕ) → told_by stage j ≡ false)
    → ((j : ℕ) → i ≢ j → drained_by stage j ≡ true → drained_by p.stage j ≡ true)
    → ((j : ℕ) → i ≢ j → own_at p.stage j ≡ false)
    → some (pop_all p i t stage) ≡ some r
    → IsStopping r.1
unfolding pop_all
pop_all-IsStopping p i t stage r is there range over past told drained own e =
    let u : Thread = record t { queue = [] } in
    let h : (quiet, become p i u stage) ≡ r = ground arith in
    let f = is.fits i t there in
    subst (λ z. IsStopping z.1) h
      (replaced p is i t u stage there range
        (record {
          unjoined = f.unjoined;
          past = λ _. f.past over;
          told = λ h. ground (arith, told i);
          drained = λ h. refl;
          own = λ h. ground (arith, ended_empty t.phase (f.past over));
        })
        λ j v ne g. record {
          unjoined = g.unjoined;
          past = λ h. g.past (past j h);
          told = λ h. ground (arith, told j);
          drained = λ h. g.drained (drained j ne h);
          own = λ h. ground (arith, g.own h, own j ne);
        })

-- The stage changes, with no thread and no condition but of a test that holds of fewer threads.
pub next_stage :
    (p : Pool) (stage : Stage) (eff : Effect) (r : Effect × Pool)
    → IsStopping p
    → in_range stage (length p.threads) ≡ true
    → ((j : ℕ) → is_past stage j ≡ true → is_past p.stage j ≡ true)
    → ((j : ℕ) → told_by stage j ≡ false)
    → ((j : ℕ) → drained_by stage j ≡ true → drained_by p.stage j ≡ true)
    → ((j : ℕ) → own_at p.stage j ≡ false)
    → some (eff, at_stage p stage) ≡ some r
    → IsStopping r.1
next_stage p stage eff r is range past told drained own e =
    let h : (eff, at_stage p stage) ≡ r = cc in
    subst (λ z. IsStopping z.1) h
      (staged p is stage range λ j t _ f. record {
        unjoined = f.unjoined;
        past = λ h. f.past (past j h);
        told = λ h. ground (arith, told j);
        drained = λ h. f.drained (drained j h);
        own = λ h. ground (arith, f.own h, own j);
      })
