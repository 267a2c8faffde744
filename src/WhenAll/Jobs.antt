-- ===== src/WhenAll/Jobs.antt =====
-- include/kelcoro/algorithm.hpp: `when_all` of a vector, with its loop that starts the jobs, and
-- `job_for_when_all` in steps, interleaved in any order. The tasks are given by what each comes to.
use kelcoro.Base.{
  ℕ, ◌+◌, Option, none, some, List, [], ◌∷◌, ◌++◌, ◌==◌, if◌then◌else◌, length, ltb, get_elem?, set,
  replicate, size_sub,
}
use kelcoro.Expected.{Expected, value, unexpected}
use kelcoro.ReturnBlock.{ReturnBlock, val, ex, has_exception, take_exception, result}

-- Where a job is: its child has not ended, or the job has to store the outcome, then to count down.
pub data Stage : Type 0 where
  awaits stores counts ended : Stage

-- A coroutine `job_for_when_all`, with the index of its result, and the block of its child.
pub record Job (V X : Type 0) : Type 0 where
  pub index : ℕ
  pub child : ReturnBlock V X
  pub stage : Stage

-- The frame of `when_all` with its jobs. `returned` is what its body has returned, once for each time
-- that it got to its end.
pub record Joining (V X : Type 0) : Type 0 where
  pub results : List (Expected V X)
  pub count : ℕ
  pub next : ℕ
  pub tasks : List (Expected V X)
  pub jobs : List (Job V X)
  pub returned : List (List (Expected V X))

-- The loop over the tasks starts one more job, or a job goes on.
pub data Move : Type 0 where
  starts : Move
  goes_on : ℕ → Move

module _ {V X : Type 0} where
  -- the block of a task that has come to this outcome
  abbrev pub block_of : Expected V X → ReturnBlock V X
  block_of (value v) = val v
  block_of (unexpected x) = ex x

  -- The body up to the loop. Without tasks it returns at once.
  unfoldable pub begin : Expected V X → List (Expected V X) → Joining V X
  begin blank tasks = record {
    results = replicate (length tasks) blank;
    count = length tasks;
    next = 0;
    tasks = tasks;
    jobs = [];
    returned = if length tasks == 0 then [] ∷ [] else [];
  }

  -- one turn of the loop; the child runs until it waits
  start_next : List (Expected V X) → Joining V X → Joining V X
  start_next [] st = st
  start_next (e ∷ es) st = record st {
    next = st.next + 1;
    tasks = es;
    jobs = st.jobs ++ record { index = st.next; child = block_of e; stage = awaits } ∷ [];
  }

  -- what is emplaced, and the child's block after it; an assertion that fails is `none`
  outcome_of : ReturnBlock V X → Option (Expected V X × ReturnBlock V X)
  unfolding has_exception take_exception result
  outcome_of b =
      if has_exception b
      then elim (take_exception b) [ none ↦ none | some (x, b') ↦ some (unexpected x, b') ]
      else elim (result b) [ none ↦ none | some v ↦ some (value v, b) ]

  store : ℕ → Job V X → Joining V X → Option (Joining V X)
  unfolding outcome_of
  store k j st = elim (outcome_of j.child) [
    | none ↦ none
    | some (e, b) ↦
        if ltb j.index (length st.results)
        then some (record st {
          results = set st.results j.index e;
          jobs = set st.jobs k (record j { child = b; stage = counts });
        })
        else none
  ]

  -- `fetch_sub`; the last one resumes the owner, which returns the results
  count_down : ℕ → Job V X → Joining V X → Joining V X
  count_down k j st = record st {
    count = size_sub st.count 1;
    jobs = set st.jobs k (record j { stage = ended });
    returned = if st.count == 1 then st.results ∷ st.returned else st.returned;
  }

  job_step : Stage → ℕ → Job V X → Joining V X → Option (Joining V X)
  unfolding store count_down
  job_step awaits k j st = some (record st { jobs = set st.jobs k (record j { stage = stores }) })
  job_step stores k j st = store k j st
  job_step counts k j st = some (count_down k j st)
  job_step ended k j st = some st

  -- A job that has not been started takes no step.
  unfoldable pub go_on : ℕ → Option (Job V X) → Joining V X → Option (Joining V X)
  unfolding job_step
  go_on k none st = some st
  go_on k (some j) st = job_step j.stage k j st

  unfoldable pub step : Move → Joining V X → Option (Joining V X)
  unfolding start_next go_on
  step starts st = some (start_next st.tasks st)
  step (goes_on k) st = go_on k (get_elem? st.jobs k) st

  unfoldable pub run : List Move → Joining V X → Option (Joining V X)
  unfolding step
  run [] st = some st
  run (m ∷ ms) st = elim (step m st) [ none ↦ none | some st' ↦ run ms st' ]

  -- The jobs that have not counted down.
  abbrev pub running : List (Job V X) → ℕ
  running [] = 0
  running (j ∷ js) = elim j.stage [
    | ended ↦ running js
    | awaits ↦ running js + 1
    | stores ↦ running js + 1
    | counts ↦ running js + 1
  ]
