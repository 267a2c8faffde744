-- ===== src/Channel/Loops.antt =====
-- include/kelcoro/channel.hpp: the loop `co_foreach`.
use kelcoro.Base.{
  true, false, ℕ, zero, suc, ◌<◌, Option, none, some, List, [], ◌∷◌, length, ◌≡◌, refl, ap, eq→==,
  arith,
}
use kelcoro.Node.{Ptr, Handle}
use kelcoro.Leaves.{ok, Heap, update-same}
use kelcoro.Leaves.Nested.{Item, value, exception, Frames}
use kelcoro.Leaves.Suspended.{Comes, comes, Comes-bind, Suspended-Agree}
use kelcoro.Generator.Held.{first, rest, values, failure, after_failure}
use kelcoro.Channel.{at_end, value_of, advance, loop_from, co_foreach, take_exception}
use kelcoro.Channel.Held.{Holds, holds_nothing, holds_done, holds, Started, Came}
use kelcoro.Channel.Iteration.{advance-Came, next-Came}

module _ {Y X : Type 0} where
  at_end-none : (c : Ptr) (h : Heap Y X) → h.current_result c ≡ none → at_end c h ≡ true
  unfolding at_end
  at_end-none c h result = rw (at_end, result) refl

  at_end-some :
      (c : Ptr) (h : Heap Y X) (y : Y)
      → h.current_result c ≡ some y
      → (at_end c h ≡ false) × (value_of c h ≡ ok y)
  unfolding at_end value_of
  at_end-some c h y result = (rw (at_end, result) refl, rw (value_of, result) refl)

  -- What a loop over the channel `c` comes to; `kept` is the exception that is left in it.
  pub record Looped (c : Ptr) (xs : List (Item Y X)) (n : ℕ) (F : Frames) (ys : List Y)
      (thrown kept : Option X) (t : Heap Y X) : Type 0 where
    pub collects : ys ≡ values xs
    pub throws : thrown ≡ failure xs
    pub leaves : Holds t c (after_failure xs) n F
    pub ends : t.current_result c ≡ none
    pub keeps : t.exception c ≡ kept

  -- A channel whose current value is there is not at its end.
  advance-Holds :
      (k : ℕ) (h : Heap Y X) (c : Ptr) (consumer : Handle) (xs : List (Item Y X)) (n : ℕ)
      (F : Frames) (y : Y)
      → n < k
      → h.exception c ≡ none
      → h.current_result c ≡ some y
      → Holds h c xs n F
      → Started h c consumer
      → Comes (Came h c consumer xs n F) (advance k c h)
  advance-Holds k h c consumer xs n F y lt clean result (holds_nothing at nothing) go = cc
  advance-Holds k h c consumer xs n F y lt clean result (holds_done at real lives ends nothing) go =
      cc
  advance-Holds k h c consumer xs n F y lt clean result (holds {w} {R} at s) go =
      advance-Came k h c w R consumer xs n F lt clean at s go

  loop_from-Looped :
      (j k : ℕ) (h t : Heap Y X) (c : Ptr) (consumer runs : Handle) (xs : List (Item Y X)) (n : ℕ)
      (F : Frames)
      → n < k
      → length xs < j
      → Came h c consumer xs n F (runs, t)
      → Comes
          (λ (ys, u). Looped c xs n F ys (u.exception c) (failure xs) u)
          (loop_from j k c consumer runs t)
  unfolding loop_from Came first rest values failure after_failure
  loop_from-Looped zero k h t c consumer runs xs n F lt le came = absurd (omega arith)
  loop_from-Looped (suc j) k h t c consumer runs [] n F lt le (step, tops, go) =
      rw
        (
          step.returns,
          loop_from,
          eq→== consumer consumer refl,
          at_end-none c t (ap (λ v. v.1) step.gives),
        )
        (comes (record {
          collects = refl;
          throws = ap (λ v. v.0) step.gives;
          leaves = step.leaves;
          ends = ap (λ v. v.1) step.gives;
          keeps = ap (λ v. v.0) step.gives;
        }))
  loop_from-Looped (suc j) k h t c consumer runs (exception x ∷ xs) n F lt le (step, tops, go) =
      rw
        (
          step.returns,
          loop_from,
          eq→== consumer consumer refl,
          at_end-none c t (ap (λ v. v.1) step.gives),
        )
        (comes (record {
          collects = refl;
          throws = ap (λ v. v.0) step.gives;
          leaves = step.leaves;
          ends = ap (λ v. v.1) step.gives;
          keeps = ap (λ v. v.0) step.gives;
        }))
  loop_from-Looped (suc j) k h t c consumer runs (value y ∷ xs) n F lt le (step, tops, go) =
      let result = ap (λ v. v.1) step.gives in
      let (more, found) = at_end-some c t y result in
      rw (step.returns, loop_from, eq→== consumer consumer refl, more, found)
        (Comes-bind
          (advance-Holds k t c consumer xs n F y lt (ap (λ v. v.0) step.gives) result step.leaves
            (go y result))
          (λ (runs', u) more.
            Comes-bind (loop_from-Looped j k t u c consumer runs' xs n F lt (omega arith) more)
              (λ (ys, v) last. comes (record {
                collects = ap (λ l. y ∷ l) last.collects;
                throws = last.throws;
                leaves = last.leaves;
                ends = last.ends;
                keeps = last.keeps;
              }))))

  taken :
      {h : Heap Y X} {c : Ptr} {xs : List (Item Y X)} {n : ℕ} {F : Frames}
      → Holds h c xs n F
      → Holds (take_exception c h).1 c xs n F
  unfolding take_exception
  taken (holds_nothing at result) = holds_nothing at result
  taken (holds_done at real lives ends result) = holds_done at real lives ends result
  taken (holds at s) = holds at (
      Suspended-Agree s refl record {
        alive = λ a i. refl;
        done = λ a i. refl;
        body = λ a i. refl;
        link = λ a i. refl;
        current_worker = λ a i. refl;
      })

  -- `co_foreach` over a channel with nested channels, in which no exception is stored, ends, and
  -- control comes back to its consumer at every item: it collects the values up to the first
  -- exception, throws that exception, which is stored no longer, and leaves the channel with what
  -- comes after it and without a current value. The fuel exceeds the steps that are left and the
  -- number of items.
  pub co_foreach-Looped :
      (j k : ℕ) (h : Heap Y X) (c : Ptr) (consumer : Handle) (xs : List (Item Y X)) (n : ℕ)
      (F : Frames)
      → n < k
      → length xs < j
      → h.exception c ≡ none
      → Holds h c xs n F
      → Comes (λ (ys, thrown, t). Looped c xs n F ys thrown none t) (co_foreach j k c consumer h)
  unfolding co_foreach take_exception
  co_foreach-Looped j k h c consumer xs n F lt le clean held =
      Comes-bind (next-Came k h c consumer xs n F lt clean held) (λ (runs, t) came.
        Comes-bind (loop_from-Looped j k h t c consumer runs xs n F lt le came) (λ (ys, u) loop.
          comes (record {
            collects = loop.collects;
            throws = loop.throws;
            leaves = taken loop.leaves;
            ends = loop.ends;
            keeps = update-same u.exception c none;
          })))
