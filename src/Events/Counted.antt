-- ===== src/Events/Counted.antt =====
-- include/kelcoro/events.hpp, `when_all` and `when_any` over events: the counters of their
-- callbacks.
use kelcoro.Base.{
  ℕ, ◌+◌, ◌<◌, ◌≤◌, ◌≡◌, refl, Option, some, List, [], ◌∷◌, arith, ◌==◌, length, if◌then◌else◌, set,
}
use kelcoro.Events.{AllOf, all_callbacks, AnyOf, any_callbacks, one_more}

module _ {I : Type 0} where
  all_callbacks-from :
      (events : ℕ) (cs : List (ℕ × I)) (st : AllOf I)
      → events < 256
      → st.count + length cs ≤ events
      → 0 < length cs
      → (all_callbacks events cs st).0 ≡ (if st.count + length cs == events then 1 else 0)
  unfolding all_callbacks
  all_callbacks-from events [] st few fits some_left = absurd (omega arith)
  all_callbacks-from events ((i, v) ∷ []) st few fits some_left = ground arith
  all_callbacks-from events ((i, v) ∷ c ∷ cs) st few fits some_left =
      let one : one_more st.count ≡ st.count + 1 = omega arith in
      ground (
        arith,
        one,
        all_callbacks-from events (c ∷ cs)
            (record { count = one_more st.count; input = set st.input i v }) few (omega arith)
            (omega arith),
      )

  -- The coroutine that awaits `when_all` of fewer than 256 events, and of one at least, is resumed
  -- exactly once if all their callbacks have run, in any order, and not at all before.
  pub all_callbacks-last :
      (events : ℕ) (cs : List (ℕ × I)) (start : List I)
      → 0 < events
      → events < 256
      → length cs ≤ events
      → (all_callbacks events cs (record { count = 0; input = start })).0
        ≡ (if length cs == events then 1 else 0)
  unfolding all_callbacks
  all_callbacks-last events [] start pos few fits = ground arith
  all_callbacks-last events (c ∷ cs) start pos few fits =
      let from_zero =
        all_callbacks-from events (c ∷ cs) (record { count = 0; input = start }) few (omega arith)
          (omega arith) in
      ground (arith, from_zero)

  any_callbacks-later :
      (cs : List (ℕ × I)) (st : AnyOf I)
      → 0 < st.count
      → st.count + length cs < 256
      → ((any_callbacks cs st).0 ≡ 0) × ((any_callbacks cs st).1.input ≡ st.input)
  unfolding any_callbacks
  any_callbacks-later [] st pos few = (refl, refl)
  any_callbacks-later ((i, v) ∷ cs) st pos few =
      let one : one_more st.count ≡ st.count + 1 = omega arith in
      ground (arith, one, any_callbacks-later cs (record st { count = one_more st.count }))

  -- The coroutine that awaits `when_any` of events is resumed exactly once, by the first callback,
  -- and gets its event and input, whatever callbacks follow, fewer than 256 in all.
  pub any_callbacks-first :
      (i : ℕ) (v : I) (cs : List (ℕ × I)) (start : Option (ℕ × I))
      → length cs + 1 < 256
      → ((any_callbacks ((i, v) ∷ cs) (record { count = 0; input = start })).0 ≡ 1)
        × ((any_callbacks ((i, v) ∷ cs) (record { count = 0; input = start })).1.input
            ≡ some (i, v))
  unfolding any_callbacks
  any_callbacks-first i v cs start few =
      let (none_more, kept) =
        any_callbacks-later cs (record { count = 1; input = some (i, v) }) (omega arith)
          (omega arith) in
      (rw none_more, kept)
