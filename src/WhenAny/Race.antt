-- ===== src/WhenAny/Race.antt =====
-- include/kelcoro/algorithm.hpp, `when_any`: the endings of the children, in any order.
use kelcoro.Base.{
  ℕ, ◌-◌, ◌<◌, ◌≤◌, ◌≡◌, refl, ◌≢◌, Option, none, some, List, [], ◌∷◌, arith, ◌==◌, if◌then◌else◌,
  length, size_mod, size_sub, ne→==,
}
use kelcoro.Node.{Handle, null}
use kelcoro.Expected.{Expected, value, unexpected}
use kelcoro.WhenAny.{WhenAnyState, Outcome, returned, move_threw, threw, race}

one_less : (count : ℕ) → 0 < count → count < size_mod → size_sub count 1 ≡ count - 1
one_less count pos small = omega arith

module _ {V X : Type 0} where
  -- The specification: the first child that succeeds, and the last one that fails.
  abbrev pub first_success : List (ℕ × Outcome V X) → Option (ℕ × Expected V X)
  first_success [] = none
  first_success ((i, returned v) ∷ cs) = some (i, value v)
  first_success ((i, move_threw p) ∷ cs) = first_success cs
  first_success ((i, threw p) ∷ cs) = first_success cs

  abbrev pub last_failure :
      Option (ℕ × Expected V X) → List (ℕ × Outcome V X) → Option (ℕ × Expected V X)
  last_failure r [] = r
  last_failure r ((i, returned v) ∷ cs) = last_failure r cs
  last_failure r ((i, move_threw p) ∷ cs) = last_failure (some (i, unexpected p)) cs
  last_failure r ((i, threw p) ∷ cs) = last_failure (some (i, unexpected p)) cs

  -- What the owner gets, and whether it is resumed, when `cs` of `count` children have ended.
  abbrev pub Decided :
      ℕ
      → Handle
      → Option (ℕ × Expected V X)
      → List (ℕ × Outcome V X)
      → List Handle × WhenAnyState V X
      → Type 0
  Decided count owner r cs (hs, st) = elim (first_success cs) [
    | some w ↦ (hs ≡ owner ∷ []) × (st.result ≡ some w)
    | none ↦
        (hs ≡ (if length cs == count then owner ∷ [] else [])) × (st.result ≡ last_failure r cs)
  ]

  -- Once the owner is taken nothing changes any more.
  race-settled :
      (cs : List (ℕ × Outcome V X)) (st : WhenAnyState V X)
      → st.owner ≡ null
      → race cs st ≡ ([], st)
  unfolding race
  race-settled [] st e = refl
  race-settled ((i, returned v) ∷ cs) st e = ground (arith, race-settled cs st)
  race-settled ((i, move_threw p) ∷ cs) st e = ground (arith, race-settled cs st)
  race-settled ((i, threw p) ∷ cs) st e = ground (arith, race-settled cs st)

  -- After any sequence of at most `count` endings of children: if one succeeded, the owner was
  -- resumed exactly once and the result is the first success; otherwise the result is the last
  -- failure, and the owner was resumed, once, exactly if all `count` children have ended. The
  -- owner is not null, and `count` is a positive `size_t`.
  pub race-Decided :
      (cs : List (ℕ × Outcome V X)) (count : ℕ) (owner : Handle) (r : Option (ℕ × Expected V X))
      → owner ≢ null
      → 0 < count
      → length cs ≤ count
      → count < size_mod
      → Decided count owner r cs
          (race cs (record { result = r; count_waiters = count; owner = owner }))
  unfolding race
  race-Decided [] count owner r ne pos fits small = (ground arith, refl)
  race-Decided ((i, returned v) ∷ cs) count owner r ne pos fits small = ground (
    arith,
    race-settled cs (record { result = some (i, value v); count_waiters = count; owner = null }),
  )
  race-Decided ((i, threw p) ∷ []) count owner r ne pos fits small =
      rw (ne→== owner 0 ne, one_less count pos small) (ground arith)
  race-Decided ((i, threw p) ∷ c ∷ cs) count owner r ne pos fits small =
      rw (ne→== owner 0 ne, one_less count pos small)
        (ground (
          arith,
          race-Decided (c ∷ cs) (count - 1) owner (some (i, unexpected p)) ne (omega arith)
              (omega arith) (omega arith),
        ))
  race-Decided ((i, move_threw p) ∷ []) count owner r ne pos fits small =
      rw (ne→== owner 0 ne, one_less count pos small) (ground arith)
  race-Decided ((i, move_threw p) ∷ c ∷ cs) count owner r ne pos fits small =
      rw (ne→== owner 0 ne, one_less count pos small)
        (ground (
          arith,
          race-Decided (c ∷ cs) (count - 1) owner (some (i, unexpected p)) ne (omega arith)
              (omega arith) (omega arith),
        ))
