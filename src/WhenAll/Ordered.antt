-- ===== src/WhenAll/Ordered.antt =====
-- include/kelcoro/algorithm.hpp, `when_all` of a vector: what each step of its loop and of its jobs keeps.
use kelcoro.Base.{
  ℕ, ◌+◌, ◌<◌, ◌≡◌, refl, sym, subst, subst₂, Option, none, some, List, [], ◌∷◌, ◌++◌, arith, ◌==◌,
  if◌then◌else◌, length, get_elem?, set, size_mod, size_sub, replicate, length-replicate,
  length-append, length-set,
}
use kelcoro.Expected.{Expected, value, unexpected}
use kelcoro.ReturnBlock.{ReturnBlock, val}
use kelcoro.WhenAll.Jobs.{
  Stage, awaits, stores, counts, ended, Job, Joining, Move, starts, goes_on, block_of, begin, step,
  run, running, go_on,
}
use kelcoro.WhenAll.Aligned.{
  job, Aligned, unstarted, StepAt, StepAtJob, aligned_step, aligned_start, aligned_end,
  running-append_new, aligned-small,
}

module _ {V X : Type 0} where
  -- What holds of the frame of `when_all`.
  pub record IsJoining (es : List (Expected V X)) (st : Joining V X) : Type 0 where
    pub aligned : Aligned 0 es st.jobs st.results st.tasks
    pub next : st.next ≡ length st.jobs
    pub count : st.count ≡ running st.jobs + length st.tasks
    pub returned : st.returned ≡ (if running st.jobs + length st.tasks == 0 then es ∷ [] else [])

  replicate-Aligned :
      (blank : Expected V X) (es : List (Expected V X))
      → Aligned 0 es [] (replicate (length es) blank) es
  replicate-Aligned blank es = unstarted (length-replicate (length es) blank)

  pub begin-IsJoining :
      (blank : Expected V X) (es : List (Expected V X)) → IsJoining es (begin blank es)
  unfolding begin
  begin-IsJoining blank [] = record {
    aligned = replicate-Aligned blank [];
    next = refl;
    count = refl;
    returned = refl;
  }
  begin-IsJoining blank (e ∷ es) = record {
    aligned = replicate-Aligned blank (e ∷ es);
    next = refl;
    count = omega arith;
    returned = ground arith;
  }

  -- The jobs that have not counted down, with the tasks that have no job yet.
  abbrev pub outstanding : Joining V X → ℕ
  outstanding st = running st.jobs + length st.tasks

  abbrev pub Kept : List (Expected V X) → Option (Joining V X) → Type 0
  Kept es r = (u : Joining V X) × (r ≡ some u) × IsJoining es u

  module _ (es : List (Expected V X)) (results tasks : List (Expected V X)) (count next : ℕ)
      (jobs : List (Job V X)) (returned : List (List (Expected V X))) where
    abbrev pub frame : Joining V X
    frame = record {
      results = results;
      count = count;
      next = next;
      tasks = tasks;
      jobs = jobs;
      returned = returned;
    }

    -- A step that leaves the count as it was.
    same_count :
        (results' : List (Expected V X)) (jobs' : List (Job V X))
        → IsJoining es frame
        → Aligned 0 es jobs' results' tasks
        → length jobs' ≡ length jobs
        → running jobs' ≡ running jobs
        → IsJoining es (record frame { results = results'; jobs = jobs' })
    same_count results' jobs' is a l n = record {
      aligned = a;
      next = omega (arith, is.next);
      count = omega (arith, is.count);
      returned = ground (arith, is.returned);
    }

    store-IsJoining :
        (k : ℕ) (e : Expected V X)
        → IsJoining es frame
        → k < length results
        → ((b : ReturnBlock V X)
            → Aligned 0 es (set jobs k (job k b counts)) (set results k e) tasks
              × (running (set jobs k (job k b counts)) ≡ running jobs))
        → Kept es (go_on k (some (job k (block_of e) stores)) frame)
    unfolding go_on
    store-IsJoining k (value v) is below next =
        let (a, n) = next (val v) in (_, ground arith, same_count _ _ is a (length-set jobs k _) n)
    store-IsJoining k (unexpected x) is below next =
        let (a, n) = next ReturnBlock.empty in
        (_, ground arith, same_count _ _ is a (length-set jobs k _) n)

    count_down-IsJoining :
        (k x : ℕ) (b : ReturnBlock V X)
        → length es < size_mod
        → IsJoining es frame
        → StepAt 0 es jobs results tasks k x b counts
        → Kept es (go_on k (some (job x b counts)) frame)
    unfolding go_on
    count_down-IsJoining k x b small is (a, n) =
        let fits = aligned-small is.aligned in
        let one : size_sub count 1 ≡ running (set jobs k (job x b ended)) + length tasks =
          omega (arith, is.count) in
        (
          _,
          refl,
          record {
            aligned = a;
            next = omega (arith, is.next, length-set jobs k (job x b ended));
            count = one;
            returned = ground (arith, is.count, is.returned, aligned_end a);
          },
        )

    go_on-IsJoining :
        (k x : ℕ) (b : ReturnBlock V X) (stage : Stage)
        → length es < size_mod
        → IsJoining es frame
        → StepAt 0 es jobs results tasks k x b stage
        → Kept es (go_on k (some (job x b stage)) frame)
    unfolding go_on
    go_on-IsJoining k x b awaits small is (a, n) =
        (_, refl, same_count results _ is a (length-set jobs k _) n)
    go_on-IsJoining k x b stores small is (e, at_k, block, below, next) =
        let here : k ≡ x = omega arith in
        subst₂ (λ y c. Kept es (go_on k (some (job y c stores)) frame)) here (sym block)
          (store-IsJoining k e is below (
            subst
              (λ y.
                (c : ReturnBlock V X)
                → Aligned 0 es (set jobs k (job y c counts)) (set results k e) tasks
                  × (running (set jobs k (job y c counts)) ≡ running jobs))
              (sym here) next))
    go_on-IsJoining k x b counts small is h = count_down-IsJoining k x b small is h
    go_on-IsJoining k x b ended small is h = (_, refl, is)

  start_at :
      (es results tasks : List (Expected V X)) (count next : ℕ) (jobs : List (Job V X))
      (returned : List (List (Expected V X)))
      → IsJoining es (frame es results tasks count next jobs returned)
      → Kept es (step starts (frame es results tasks count next jobs returned))
  unfolding step
  start_at es results [] count next jobs returned is = (_, refl, is)
  start_at es results (e ∷ ts) count next jobs returned is =
      let more = running-append_new jobs next (block_of e) in
      (
        _,
        refl,
        record {
          aligned =
              subst (λ n. Aligned 0 es (jobs ++ job n (block_of e) awaits ∷ []) results ts)
                (omega (arith, is.next)) (aligned_start is.aligned);
          next = omega (arith, is.next, length-append jobs (job next (block_of e) awaits ∷ []));
          count = omega (arith, is.count);
          returned = ground (arith, is.returned);
        },
      )

  pub step-IsJoining :
      (m : Move) (es : List (Expected V X)) (st : Joining V X)
      → length es < size_mod
      → IsJoining es st
      → Kept es (step m st)
  unfolding step go_on
  step-IsJoining starts es st small is =
      start_at es st.results st.tasks st.count st.next st.jobs st.returned is
  step-IsJoining (goes_on k) es st small is = goes (get_elem? st.jobs k) (aligned_step k is.aligned)
    where
      goes :
          (o : Option (Job V X))
          → StepAtJob 0 es st.jobs st.results st.tasks k o
          → Kept es (go_on k o st)
      goes none h = (st, refl, is)
      goes (some j) h =
          go_on-IsJoining es st.results st.tasks st.count st.next st.jobs st.returned k j.index
            j.child j.stage small is h

  pub run-IsJoining :
      (ms : List Move) (es : List (Expected V X)) (st : Joining V X)
      → length es < size_mod
      → IsJoining es st
      → Kept es (run ms st)
  unfolding run
  run-IsJoining [] es st small is = (st, refl, is)
  run-IsJoining (m ∷ ms) es st small is =
      let (u, e, next) = step-IsJoining m es st small is in
      rw (run, e) (run-IsJoining ms es u small next)
