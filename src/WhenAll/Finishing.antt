-- ===== src/WhenAll/Finishing.antt =====
-- include/kelcoro/algorithm.hpp, `when_all` of a vector: how it comes to its end.
use kelcoro.Base.{
  ℕ, zero, suc, ◌+◌, ◌*◌, ◌<◌, ◌≡◌, ◌⊎◌, inl, inr, refl, subst, ap, none, some, List, [], ◌∷◌, ◌++◌,
  arith, ◌==◌, if◌then◌else◌, length, get_elem?, set, size_mod, ltb, Bool, true, false,
}
use kelcoro.Expected.{Expected}
use kelcoro.ReturnBlock.{ReturnBlock, val, ex}
use kelcoro.WhenAll.Jobs.{
  Stage, awaits, stores, counts, ended, Job, Joining, Move, starts, goes_on, block_of, begin, step,
  go_on, run, running,
}
use kelcoro.WhenAll.Aligned.{job}
use kelcoro.WhenAll.Ordered.{
  IsJoining, frame, outstanding, begin-IsJoining, step-IsJoining, run-IsJoining,
}

-- The steps that a job has still to take.
abbrev left : Stage → ℕ
left awaits = 3
left stores = 2
left counts = 1
left ended = 0

some_eq {ℓ} : {A : Type ℓ} (a u : A) → some a ≡ some u → a ≡ u
some_eq a u e = cc

some_if {ℓ} : {A : Type ℓ} (c : Bool) (a u : A) → (if c then some a else none) ≡ some u → a ≡ u
some_if true a u e = some_eq a u e
some_if false a u e = ground arith

module _ {V X : Type 0} where
  abbrev steps : List (Job V X) → ℕ
  steps [] = 0
  steps (j ∷ js) = left j.stage + steps js

  abbrev work : Joining V X → ℕ
  work st = steps st.jobs + 4 * length st.tasks

  steps-set :
      (js : List (Job V X)) (k : ℕ) (j j' : Job V X)
      → get_elem? js k ≡ some j
      → steps (set js k j') + left j.stage ≡ steps js + left j'.stage
  steps-set [] k j j' h = cc
  steps-set (i ∷ js) zero j j' h = let e : i ≡ j = cc in omega (arith, ap (λ x. left x.stage) e)
  steps-set (i ∷ js) (suc k) j j' h = omega (arith, steps-set js k j j' h)

  steps-append_new :
      (js : List (Job V X)) (i : ℕ) (b : ReturnBlock V X)
      → steps (js ++ job i b awaits ∷ []) ≡ steps js + 3
  steps-append_new [] i b = refl
  steps-append_new (j ∷ js) i b = omega (arith, steps-append_new js i b)

  -- There is something to do.
  abbrev Busy : Move → Joining V X → Type 0
  Busy starts st = 0 < length st.tasks
  Busy (goes_on k) st = (j : Job V X) × (get_elem? st.jobs k ≡ some j) × (0 < left j.stage)

  busy_first :
      (stage : Stage) (i : ℕ) (b : ReturnBlock V X) (js : List (Job V X))
      → 0 < running (job i b stage ∷ js)
      → (0 < left stage) ⊎ (0 < running js)
  busy_first awaits i b js h = inl (omega arith)
  busy_first stores i b js h = inl (omega arith)
  busy_first counts i b js h = inl (omega arith)
  busy_first ended i b js h = inr h

  busy_job :
      (js : List (Job V X))
      → 0 < running js
      → (k : ℕ) × (j : Job V X) × (get_elem? js k ≡ some j) × (0 < left j.stage)
  busy_job [] h = absurd (omega arith)
  busy_job (j ∷ js) h = elim (busy_first j.stage j.index j.child js h) [
    | inl a ↦ (0, j, refl, a)
    | inr b ↦ let (k, i, at_k, l) = busy_job js b in (suc k, i, at_k, l)
  ]

  changed :
      (st : Joining V X) (k : ℕ) (j j' : Job V X) (v u : Joining V X)
      → v ≡ u
      → get_elem? st.jobs k ≡ some j
      → v.jobs ≡ set st.jobs k j'
      → v.tasks ≡ st.tasks
      → left j'.stage < left j.stage
      → work u < work st
  changed st k j j' v u same at_k jobs tasks less =
      let smaller : work v < work st = omega (
        arith,
        ap steps jobs,
        ap (λ (ts : List (Expected V X)). length ts) tasks,
        steps-set st.jobs k j j' at_k,
      ) in
      subst (λ w. work w < work st) same smaller

  go_on-work :
      (st : Joining V X) (k x : ℕ) (b : ReturnBlock V X) (stage : Stage) (u : Joining V X)
      → get_elem? st.jobs k ≡ some (job x b stage)
      → 0 < left stage
      → go_on k (some (job x b stage)) st ≡ some u
      → work u < work st
  unfolding go_on
  go_on-work st k x b awaits u at_k h e =
      changed st k (job x b awaits) (job x b stores) _ u (some_eq _ u e) at_k refl refl
        (omega arith)
  go_on-work st k x (val v) stores u at_k h e =
      changed st k (job x (val v) stores) (job x (val v) counts) _ u
        (some_if (ltb x (length st.results)) _ u e) at_k refl refl (omega arith)
  go_on-work st k x (ex v) stores u at_k h e =
      changed st k (job x (ex v) stores) (job x ReturnBlock.empty counts) _ u
        (some_if (ltb x (length st.results)) _ u e) at_k refl refl (omega arith)
  go_on-work st k x ReturnBlock.empty stores u at_k h e = absurd (ground arith)
  go_on-work st k x b counts u at_k h e =
      changed st k (job x b counts) (job x b ended) _ u (some_eq _ u e) at_k refl refl (omega arith)
  go_on-work st k x b ended u at_k h e = absurd (omega arith)

  start-work :
      (es results tasks : List (Expected V X)) (count next : ℕ) (jobs : List (Job V X))
      (returned : List (List (Expected V X))) (u : Joining V X)
      → 0 < length tasks
      → step starts (frame es results tasks count next jobs returned) ≡ some u
      → work u < work (frame es results tasks count next jobs returned)
  unfolding step
  start-work es results [] count next jobs returned u h e = absurd (omega arith)
  start-work es results (t ∷ ts) count next jobs returned u h e =
      subst (λ v. work v < work (frame es results (t ∷ ts) count next jobs returned))
        (some_eq _ u e) (omega (arith, steps-append_new jobs next (block_of t)))

  step-work : (m : Move) (st u : Joining V X) → Busy m st → step m st ≡ some u → work u < work st
  unfolding step
  step-work starts st u h e =
      start-work [] st.results st.tasks st.count st.next st.jobs st.returned u h e
  step-work (goes_on k) st u (j, at_k, h) e =
      go_on-work st k j.index j.child j.stage u at_k h (rw (at_k) at e)

  next_move : (st : Joining V X) → (outstanding st ≡ 0) ⊎ ((m : Move) × Busy m st)
  next_move st = by_tasks (length st.tasks) refl (running st.jobs) refl
    where
      by_tasks :
          (t : ℕ)
          → length st.tasks ≡ t
          → (n : ℕ) → running st.jobs ≡ n
          → (outstanding st ≡ 0) ⊎ ((m : Move) × Busy m st)
      by_tasks (suc t) et n en = inr (starts, omega arith)
      by_tasks zero et (suc n) en =
          let (k, j, at_k, l) = busy_job st.jobs (omega arith) in inr (goes_on k, (j, at_k, l))
      by_tasks zero et zero en = inl (omega arith)

  -- What a state comes to when everybody goes on.
  abbrev pub Finishes : List (Expected V X) → Joining V X → Type 0
  Finishes es st =
      (ns : List Move) × (u : Joining V X) × (run ns st ≡ some u) × (u.returned ≡ es ∷ [])

  first_move :
      (es : List (Expected V X)) (st : Joining V X)
      → length es < size_mod
      → IsJoining es st
      → ((u : Joining V X) → IsJoining es u → work u < work st → Finishes es u)
      → (outstanding st ≡ 0) ⊎ ((m : Move) × Busy m st)
      → Finishes es st
  unfolding run
  first_move es st small is rest (inl none_left) = ([], st, refl, ground (arith, is.returned))
  first_move es st small is rest (inr (m, busy)) =
      let (u, e, good) = step-IsJoining m es st small is in
      let (ns, v, runs, end) = rest u good (step-work m st u busy e) in
      (m ∷ ns, v, rw (run, e) runs, end)

  run-Finishes :
      (n : ℕ) (es : List (Expected V X)) (st : Joining V X)
      → length es < size_mod
      → IsJoining es st
      → work st < n
      → Finishes es st
  run-Finishes zero es st small is enough = absurd (omega arith)
  run-Finishes (suc n) es st small is enough =
      first_move es st small is (λ u good less. run-Finishes n es u small good (omega arith))
        (next_move st)

  -- `when_all` of a vector of tasks that come to the outcomes `es`, fewer than 2 ^ 64, makes no
  -- step that fails, in whatever order its loop starts the jobs and these wait, store and count
  -- down. It returns once, when no job is left that has not counted down and no task without a
  -- job, and not before; and it returns what the tasks came to, in the order of the tasks. From
  -- wherever it has got, there are moves that bring it to that end.
  pub run-Returned :
      (ms : List Move) (blank : Expected V X) (es : List (Expected V X))
      → length es < size_mod
      → (st : Joining V X) × (run ms (begin blank es) ≡ some st)
        × (st.returned ≡ (if outstanding st == 0 then es ∷ [] else []))
        × Finishes es st
  run-Returned ms blank es small =
      let (st, e, is) = run-IsJoining ms es (begin blank es) small (begin-IsJoining blank es) in
      (st, e, is.returned, run-Finishes (suc (work st)) es st small is (omega arith))
