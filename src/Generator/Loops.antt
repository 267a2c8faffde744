-- ===== src/Generator/Loops.antt =====
-- include/kelcoro/generator.hpp: the range-based for loop over a generator.
use kelcoro.Base.{
  true, false, none, ℕ, zero, suc, ◌<◌, Option, some, List, [], ◌∷◌, length, ◌≡◌, ◌≢◌, refl, ap,
  ◌∙◌, arith,
}
use kelcoro.Node.{Ptr}
use kelcoro.Leaves.{ok, Heap}
use kelcoro.Leaves.Nested.{Item, value, exception, Frames}
use kelcoro.Leaves.Suspended.{Comes, comes, Comes-bind}
use kelcoro.Generator.{at_end, value_of, advance, loop_from, for_each}
use kelcoro.Generator.Held.{
  Holds, holds_nothing, holds_done, holds, first, rest, values, failure, after_failure,
}
use kelcoro.Generator.Iteration.{Stepped, advance-Stepped, begin-Stepped}

module _ {Y X : Type 0} where
  at_end-none : (g : Ptr) (h : Heap Y X) → h.current_result g ≡ none → at_end g h ≡ true
  unfolding at_end
  at_end-none g h result = rw (at_end, result) refl

  at_end-some :
      (g : Ptr) (h : Heap Y X) (y : Y)
      → h.current_result g ≡ some y
      → (at_end g h ≡ false) × (value_of g h ≡ ok y)
  unfolding at_end value_of
  at_end-some g h y result = (rw (at_end, result) refl, rw (value_of, result) refl)

  -- What a loop over the generator `g` comes to.
  pub record Looped (h : Heap Y X) (g : Ptr) (xs : List (Item Y X)) (n : ℕ) (F : Frames)
      (ys : List Y) (thrown : Option X) (t : Heap Y X) : Type 0 where
    pub collects : ys ≡ values xs
    pub throws : thrown ≡ failure xs
    pub leaves : Holds t g (after_failure xs) n F
    pub tops : t.top ≡ h.top
    pub others : (a : Ptr) → a ≢ g → t.current_result a ≡ h.current_result a

  -- A generator whose current value is there is not at its end.
  advance-Holds :
      (k : ℕ) (h : Heap Y X) (g : Ptr) (xs : List (Item Y X)) (n : ℕ) (F : Frames) (y : Y)
      → n < k
      → h.current_result g ≡ some y
      → Holds h g xs n F
      → Comes (λ (thrown, t). Stepped h g xs n F thrown t) (advance k g h)
  advance-Holds k h g xs n F y lt result (holds_nothing at nothing) = cc
  advance-Holds k h g xs n F y lt result (holds_done at real top_in lives ends linked nothing) = cc
  advance-Holds k h g xs n F y lt result (holds {w} {R} at linked s) =
      advance-Stepped k h g w R xs n F lt at linked s

  loop_from-Looped :
      (j k : ℕ) (h t : Heap Y X) (g : Ptr) (xs : List (Item Y X)) (n : ℕ) (F : Frames)
      (thrown : Option X)
      → n < k
      → length xs < j
      → Stepped h g xs n F thrown t
      → Comes (λ (ys, thrown', u). Looped h g xs n F ys thrown' u) (loop_from j k g thrown t)
  unfolding loop_from first rest values failure after_failure
  loop_from-Looped zero k h t g xs n F thrown lt le step = absurd (omega arith)
  loop_from-Looped (suc j) k h t g [] n F thrown lt le step =
      rw (ap (λ v. v.0) step.gives, loop_from, at_end-none g t (ap (λ v. v.1) step.gives))
        (comes (record {
          collects = refl;
          throws = refl;
          leaves = step.leaves;
          tops = step.tops;
          others = step.others;
        }))
  loop_from-Looped (suc j) k h t g (exception x ∷ xs) n F thrown lt le step =
      rw (ap (λ v. v.0) step.gives) (
        comes (record {
          collects = refl;
          throws = refl;
          leaves = step.leaves;
          tops = step.tops;
          others = step.others;
        }))
  loop_from-Looped (suc j) k h t g (value y ∷ xs) n F thrown lt le step =
      let (more, found) = at_end-some g t y (ap (λ v. v.1) step.gives) in
      rw (ap (λ v. v.0) step.gives, loop_from, more, found)
        (Comes-bind (advance-Holds k t g xs n F y lt (ap (λ v. v.1) step.gives) step.leaves)
          (λ (thrown', u) next.
            Comes-bind (loop_from-Looped j k t u g xs n F thrown' lt (omega arith) next)
              (λ (ys, last, v) more. comes (record {
                collects = ap (λ l. y ∷ l) more.collects;
                throws = more.throws;
                leaves = more.leaves;
                tops = more.tops ∙ step.tops;
                others = λ a ne. more.others a ne ∙ step.others a ne;
              }))))

  -- A range-based for loop over a generator whose bodies yield values and other generators, nested
  -- to any depth, ends: it collects the values up to the first exception that leaves a body, in
  -- the order of the flattened bodies, and that exception; the generator then holds what comes
  -- after it, ready for another loop, keeps its top frame, and no other object's current value is
  -- changed. The fuel exceeds the steps that are left and the number of items.
  pub for_each-Looped :
      (j k : ℕ) (h : Heap Y X) (g : Ptr) (xs : List (Item Y X)) (n : ℕ) (F : Frames)
      → n < k
      → length xs < j
      → Holds h g xs n F
      → Comes (λ (ys, thrown, t). Looped h g xs n F ys thrown t) (for_each j k g h)
  unfolding for_each
  for_each-Looped j k h g xs n F lt le held =
      Comes-bind (begin-Stepped k h g xs n F lt held)
        (λ (thrown, t) step. loop_from-Looped j k h t g xs n F thrown lt le step)
