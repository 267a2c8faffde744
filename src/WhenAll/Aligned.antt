-- ===== src/WhenAll/Aligned.antt =====
-- include/kelcoro/algorithm.hpp, `when_all` of a vector: how its tasks, jobs and results stand to each
-- other.
use kelcoro.Base.{
  ℕ, zero, suc, ◌+◌, ◌<◌, ◌≡◌, refl, subst, Option, none, some, List, [], ◌∷◌, ◌++◌, arith, length,
  get_elem?, set, ◌≤◌,
}
use kelcoro.Expected.{Expected}
use kelcoro.ReturnBlock.{ReturnBlock}
use kelcoro.WhenAll.Jobs.{Stage, awaits, stores, counts, ended, Job, block_of, running}

module _ {V X : Type 0} where
  -- A job that has not stored has the outcome of its task in the child's block, one that has has it in
  -- the results.
  abbrev pub Fits : Expected V X → ReturnBlock V X → Stage → Expected V X → Type 0
  Fits e b awaits r = b ≡ block_of e
  Fits e b stores r = b ≡ block_of e
  Fits e b counts r = r ≡ e
  Fits e b ended r = r ≡ e

  abbrev pub job : ℕ → ReturnBlock V X → Stage → Job V X
  job i b stage = record { index = i; child = b; stage = stage }

  -- The tasks from index `i` on with their jobs and results; the last ones have not been started.
  pub data Aligned
      : ℕ
        → List (Expected V X)
        → List (Job V X)
        → List (Expected V X)
        → List (Expected V X)
        → Type 0 where
    unstarted :
        {i : ℕ} {es rs : List (Expected V X)} → length rs ≡ length es → Aligned i es [] rs es
    started :
        {i : ℕ} {e r : Expected V X} {b : ReturnBlock V X} {stage : Stage}
        {es rs tasks : List (Expected V X)} {js : List (Job V X)}
        → Fits e b stage r
        → Aligned (i + 1) es js rs tasks
        → Aligned i (e ∷ es) (job i b stage ∷ js) (r ∷ rs) tasks

  -- What a step of job `k` needs and does.
  abbrev pub StepAt :
      ℕ
      → List (Expected V X)
      → List (Job V X)
      → List (Expected V X)
      → List (Expected V X)
      → ℕ
      → ℕ
      → ReturnBlock V X
      → Stage
      → Type 0
  StepAt i es js rs tasks k x b awaits =
      Aligned i es (set js k (job x b stores)) rs tasks
      × (running (set js k (job x b stores)) ≡ running js)
  StepAt i es js rs tasks k x b stores =
      (e : Expected V X) × (x ≡ i + k)
      × (b ≡ block_of e)
      × (k < length rs)
      × ((b' : ReturnBlock V X)
          → Aligned i es (set js k (job x b' counts)) (set rs k e) tasks
            × (running (set js k (job x b' counts)) ≡ running js))
  StepAt i es js rs tasks k x b counts =
      Aligned i es (set js k (job x b ended)) rs tasks
      × (running (set js k (job x b ended)) + 1 ≡ running js)
  StepAt i es js rs tasks k x b ended = Unit

  abbrev pub StepAtJob :
      ℕ
      → List (Expected V X)
      → List (Job V X)
      → List (Expected V X)
      → List (Expected V X)
      → ℕ
      → Option (Job V X)
      → Type 0
  StepAtJob i es js rs tasks k none = Unit
  StepAtJob i es js rs tasks k (some j) = StepAt i es js rs tasks k j.index j.child j.stage

  running_cons :
      (i : ℕ) (b : ReturnBlock V X) (stage : Stage) (js : List (Job V X))
      → running (job i b stage ∷ js) ≡ running (job i b stage ∷ []) + running js
  running_cons i b awaits js = omega arith
  running_cons i b stores js = omega arith
  running_cons i b counts js = omega arith
  running_cons i b ended js = omega arith

  -- The step of a job behind the first.
  later_step :
      (i : ℕ) (e r : Expected V X) (c : ReturnBlock V X) (at : Stage)
      (es rs tasks : List (Expected V X)) (js : List (Job V X)) (k x : ℕ) (b : ReturnBlock V X)
      (stage : Stage)
      → Fits e c at r
      → StepAt (i + 1) es js rs tasks k x b stage
      → StepAt i (e ∷ es) (job i c at ∷ js) (r ∷ rs) tasks (suc k) x b stage
  later_step i e r c at es rs tasks js k x b awaits f (a, n) = (
    started f a,
    omega (arith, running_cons i c at js, running_cons i c at (set js k (job x b stores)), n),
  )
  later_step i e r c at es rs tasks js k x b stores f (d, at_i, is, small, next) = (
    d,
    omega arith,
    is,
    omega arith,
    λ b'.
        let (a, n) = next b' in
        (
          started f a,
          omega
              (arith, running_cons i c at js, running_cons i c at (set js k (job x b' counts)), n),
        ),
  )
  later_step i e r c at es rs tasks js k x b counts f (a, n) = (
    started f a,
    omega (arith, running_cons i c at js, running_cons i c at (set js k (job x b ended)), n),
  )
  later_step i e r c at es rs tasks js k x b ended f h = tt

  pub aligned_step :
      (k : ℕ) {i : ℕ} {es rs tasks : List (Expected V X)} {js : List (Job V X)}
      → Aligned i es js rs tasks
      → StepAtJob i es js rs tasks k (get_elem? js k)
  aligned_step k (unstarted h) = tt
  aligned_step zero (started {stage = awaits} f a) = (started f a, refl)
  aligned_step zero (started {e} {stage = stores} f a) =
      (e, omega arith, f, omega arith, λ b'. (started refl a, refl))
  aligned_step zero (started {stage = counts} f a) = (started f a, refl)
  aligned_step zero (started {stage = ended} f a) = tt
  aligned_step (suc k) (started {i} {e} {r} {b = c} {stage = at} {es} {rs} {tasks} {js} f a) =
      behind (get_elem? js k) (aligned_step k a)
    where
      behind :
          (o : Option (Job V X))
          → StepAtJob (i + 1) es js rs tasks k o
          → StepAtJob i (e ∷ es) (job i c at ∷ js) (r ∷ rs) tasks (suc k) o
      behind none h = tt
      behind (some j) h = later_step i e r c at es rs tasks js k j.index j.child j.stage f h

  -- One more job is started.
  pub aligned_start :
      {i : ℕ} {e : Expected V X} {es rs tasks : List (Expected V X)} {js : List (Job V X)}
      → Aligned i es js rs (e ∷ tasks)
      → Aligned i es (js ++ job (i + length js) (block_of e) awaits ∷ []) rs tasks
  aligned_start (unstarted {rs = []} h) = absurd (omega arith)
  aligned_start {i} {e} {tasks} (unstarted {rs = r ∷ rs} h) =
      let here : i ≡ i + length {A = Job V X} [] = omega arith in
      subst (λ n. Aligned i (e ∷ tasks) (job n (block_of e) awaits ∷ []) (r ∷ rs) tasks) here
        (started {r = r} {stage = awaits} refl (unstarted (omega arith)))
  aligned_start {e = new} {tasks} (started {i} {e} {r} {b} {stage} {es} {rs} {js} f a) =
      let there : i + 1 + length js ≡ i + suc (length js) = omega arith in
      subst
        (λ n.
          Aligned i (e ∷ es) (job i b stage ∷ (js ++ job n (block_of new) awaits ∷ [])) (r ∷ rs)
            tasks)
        there (started {stage = stage} f (aligned_start a))

  -- When all have ended, the results are what the tasks came to.
  pub aligned_end :
      {i : ℕ} {es rs tasks : List (Expected V X)} {js : List (Job V X)}
      → Aligned i es js rs tasks
      → running js + length tasks ≡ 0
      → rs ≡ es
  aligned_end {rs = []} (unstarted {es = []} h) n = refl
  aligned_end {rs = []} (unstarted {es = e ∷ es} h) n = absurd (omega arith)
  aligned_end {rs = r ∷ rs} (unstarted {es = []} h) n = absurd (omega arith)
  aligned_end {rs = r ∷ rs} (unstarted {es = e ∷ es} h) n = absurd (omega arith)
  aligned_end (started {stage = awaits} f a) n = absurd (omega arith)
  aligned_end (started {stage = stores} f a) n = absurd (omega arith)
  aligned_end (started {stage = counts} f a) n = absurd (omega arith)
  aligned_end (started {stage = ended} f a) n = let h = aligned_end a n in cc

  pub running-append_new :
      (js : List (Job V X)) (i : ℕ) (b : ReturnBlock V X)
      → running (js ++ job i b awaits ∷ []) ≡ running js + 1
  running-append_new [] i b = refl
  running-append_new (j ∷ js) i b = omega (
    arith,
    running_cons j.index j.child j.stage js,
    running_cons j.index j.child j.stage (js ++ job i b awaits ∷ []),
    running-append_new js i b,
  )

  pub aligned-small :
      {i : ℕ} {es rs tasks : List (Expected V X)} {js : List (Job V X)}
      → Aligned i es js rs tasks
      → running js + length tasks ≤ length es
  aligned-small (unstarted h) = omega arith
  aligned-small (started {stage = awaits} f a) = omega (arith, aligned-small a)
  aligned-small (started {stage = stores} f a) = omega (arith, aligned-small a)
  aligned-small (started {stage = counts} f a) = omega (arith, aligned-small a)
  aligned-small (started {stage = ended} f a) = omega (arith, aligned-small a)
