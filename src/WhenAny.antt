-- ===== src/WhenAny.antt =====
-- include/kelcoro/algorithm.hpp: `when_any`. Each child runs in a job that reports its outcome to the
-- shared state, under a mutex, and resumes the owner if it gets it back.
pub mod Race
use kelcoro.Base.{
  ℕ, Bool, true, false, Option, none, some, List, [], ◌∷◌, ◌==◌, if◌then◌else◌, size_sub,
}
use kelcoro.Node.{Handle, null}
use kelcoro.Expected.{Expected, value, unexpected}

-- `when_any_state_dyn`; `when_any_state` keeps the index in its variant
pub record WhenAnyState (V X : Type 0) : Type 0 where
  pub result : Option (ℕ × Expected V X)
  pub count_waiters : ℕ
  pub owner : Handle

-- How a child ends: with a value, with a value whose move into the state throws, or by throwing.
pub data Outcome (V X : Type 0) : Type 0 where
  returned : V → Outcome V X
  move_threw : X → Outcome V X
  threw : X → Outcome V X

module _ {V X : Type 0} where
  abbrev pub initial : ℕ → Handle → WhenAnyState V X
  initial count owner = record { result = none; count_waiters = count; owner = owner }

  -- returns the owner if the caller must resume it
  unfoldable pub set_exception : ℕ → X → WhenAnyState V X → Handle × WhenAnyState V X
  set_exception i p st = if st.owner == null then (null, st) else (
    if size_sub st.count_waiters 1 == 0 then st.owner else null,
    record st { result = some (i, unexpected p); count_waiters = size_sub st.count_waiters 1 },
  )

  -- The argument is what emplacing the result comes to; if that throws, the mutex is let go and
  -- `set_exception` takes it again, which is one step here.
  unfoldable pub set_result : ℕ → Expected V X → WhenAnyState V X → Handle × WhenAnyState V X
  unfolding set_exception
  set_result i (value v) st =
      if st.owner == null
      then (null, st)
      else (st.owner, record st { result = some (i, value v); owner = null })
  set_result i (unexpected p) st = if st.owner == null then (null, st) else set_exception i p st

  -- the end of `job_for_when_any_dyn`, with the state still there
  unfoldable pub report : ℕ → Outcome V X → WhenAnyState V X → Handle × WhenAnyState V X
  unfolding set_exception set_result
  report i (returned v) st = set_result i (value v) st
  report i (move_threw p) st = set_result i (unexpected p) st
  report i (threw p) st = set_exception i p st

  -- a job whose child ended when the state was gone does nothing
  unfoldable pub finish_job :
      ℕ → Outcome V X → Option (WhenAnyState V X) → Handle × Option (WhenAnyState V X)
  unfolding report
  finish_job i o none = (null, none)
  finish_job i o (some st) = let (h, st') = report i o st in (h, some st')

  -- Children that end one after the other, in the order in which they take the mutex; the handles
  -- that are resumed, and the state that is left.
  unfoldable pub race : List (ℕ × Outcome V X) → WhenAnyState V X → List Handle × WhenAnyState V X
  unfolding report
  race [] st = ([], st)
  race ((i, o) ∷ cs) st =
      let (h, st') = report i o st in
      let (hs, last) = race cs st' in (if h == null then hs else h ∷ hs, last)
