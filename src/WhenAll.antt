-- ===== src/WhenAll.antt =====
-- include/kelcoro/algorithm.hpp: `when_all`. Each child runs in a job that stores its outcome at its
-- index, counts down, and resumes the owner if the count was 1.
pub mod Join
pub mod Jobs
pub mod Aligned
pub mod Ordered
pub mod Finishing
use kelcoro.Base.{
  ℕ, Bool, true, false, List, [], ◌∷◌, ◌==◌, if◌then◌else◌, length, set, replicate, size_sub,
}
use kelcoro.Node.{Handle}
use kelcoro.Expected.{Expected}

pub record WhenAllState (V X : Type 0) : Type 0 where
  pub results : List (Expected V X)
  pub count : ℕ

module _ {V X : Type 0} where
  -- `results` starts with default values
  unfoldable pub start : Expected V X → ℕ → WhenAllState V X
  start blank tasks = record { results = replicate tasks blank; count = tasks }

  -- The end of `job_for_when_all`, for the task at index `i`, as one step; WhenAll/Jobs has the store and
  -- the countdown apart. The flag says whether it is the last.
  unfoldable pub finish_job : ℕ → Expected V X → WhenAllState V X → Bool × WhenAllState V X
  finish_job i e st =
      (st.count == 1, record { results = set st.results i e; count = size_sub st.count 1 })

  -- Jobs that end one after the other, in the order of their countdowns; the handles resumed.
  unfoldable pub join :
      Handle → List (ℕ × Expected V X) → WhenAllState V X → List Handle × WhenAllState V X
  unfolding finish_job
  join owner [] st = ([], st)
  join owner ((i, e) ∷ cs) st =
      let (last, st') = finish_job i e st in
      let (hs, end) = join owner cs st' in (if last then owner ∷ hs else hs, end)
