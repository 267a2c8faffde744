-- ===== src/WhenAll/Join.antt =====
-- include/kelcoro/algorithm.hpp, `when_all`: the resumption of the owner.
use kelcoro.Base.{
  ℕ, ◌-◌, ◌<◌, ◌≤◌, ◌≡◌, List, [], ◌∷◌, arith, ◌==◌, if◌then◌else◌, length, set, size_mod, size_sub,
}
use kelcoro.Node.{Handle}
use kelcoro.Expected.{Expected}
use kelcoro.WhenAll.{WhenAllState, join}

module _ {V X : Type 0} where
  -- Of at most `count` jobs that end in any order, the owner is resumed exactly once if all
  -- `count` have ended, and not at all before. The count is positive and a `size_t`.
  pub join_resumes :
      (owner : Handle) (cs : List (ℕ × Expected V X)) (st : WhenAllState V X)
      → 0 < st.count
      → length cs ≤ st.count
      → st.count < size_mod
      → (join owner cs st).0 ≡ (if length cs == st.count then owner ∷ [] else [])
  unfolding join
  join_resumes owner [] st pos fits small = ground arith
  join_resumes owner ((i, e) ∷ []) st pos fits small = ground arith
  join_resumes owner ((i, e) ∷ c ∷ cs) st pos fits small =
      let one : size_sub st.count 1 ≡ st.count - 1 = omega arith in
      ground (
        arith,
        one,
        join_resumes owner (c ∷ cs)
            (record { results = set st.results i e; count = size_sub st.count 1 }) (omega arith)
            (omega arith) (omega arith),
      )
