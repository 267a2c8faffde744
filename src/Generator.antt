-- ===== src/Generator.antt =====
-- include/kelcoro/generator.hpp: the generator object, its promise and its iterator. The address of the
-- object stands for the object and for its iterators; the heap of frames is Leaves'.
pub mod Held
pub mod Iteration
pub mod Loops
pub mod Prepared
pub mod Objects
pub mod Released
pub mod Ranges
use kelcoro.Base.{ℕ, zero, suc, Bool, true, false, not, Option, none, some, List, [], ◌∷◌, ◌==◌}
use kelcoro.Node.{Ptr, null}
use kelcoro.Leaves.{
  Heap, Run, ok, fault, no_fuel, ◌>>=◌, ◌>>◌, check, update, Stop, yielded, ended, threw, empty,
  skip_this_leaf, set_result, resume, clear,
}

module _ {Y X : Type 0} where
  -- `prepare_to_start`
  unfoldable pub prepare_to_start : Ptr → Heap Y X → Heap Y X
  prepare_to_start g h = record h { link = update h.link (h.top g) g }

  -- `prepare_to_start` of a generator that has a frame
  unfoldable pub prepare_if_top : Ptr → Heap Y X → Heap Y X
  unfolding prepare_to_start
  prepare_if_top g h = elim (h.top g == null) [ true ↦ h | false ↦ prepare_to_start g h ]

  -- `generator(handle_type)`
  unfoldable pub new_generator : Ptr → Ptr → Heap Y X → Heap Y X
  unfolding prepare_to_start
  new_generator g p h =
      prepare_to_start g
        (record h { current_result = update h.current_result g none; top = update h.top g p })

  unfoldable pub swap : Ptr → Ptr → Heap Y X → Heap Y X
  unfolding prepare_if_top
  swap g g' h = prepare_if_top g' (
      prepare_if_top g (record h {
        current_result =
            update (update h.current_result g (h.current_result g')) g' (h.current_result g);
        top = update (update h.top g (h.top g')) g' (h.top g);
      }))

  -- `generator(generator&&)`
  unfoldable pub move_generator : Ptr → Ptr → Heap Y X → Heap Y X
  unfolding swap
  move_generator g other h =
      swap g other
        (record h { current_result = update h.current_result g none; top = update h.top g null })

  unfoldable pub release : Ptr → Heap Y X → Ptr × Heap Y X
  release g h = (h.top g, record h { top = update h.top g null })

  unfoldable pub reset : ℕ → ℕ → Ptr → Ptr → Heap Y X → Run (Heap Y X)
  unfolding clear
  reset j k g p h = do h' ← clear j k g h; ok (record h' { top = update h'.top g p })

  -- `generator_promise::unhandled_exception`, which throws the exception on
  unfoldable pub unhandled_exception : Ptr → Heap Y X → Run (Heap Y X)
  unfolding skip_this_leaf set_result
  unhandled_exception w h = do
    h' ← elim (h.root w == w) [ true ↦ ok h | false ↦ skip_this_leaf w h ]
    h'' ← set_result w none h'
    ok (record h'' { done = update h''.done w true })

  -- `yield_value`
  abbrev pub yield_value : Ptr → Y → Heap Y X → Run (Heap Y X)
  yield_value w y h = set_result w (some y) h

  -- What the promise that stops does to the consumer: `yield_value`, the end of `final_suspend`, and
  -- `unhandled_exception`, with the exception that leaves `resume`.
  unfoldable pub arrive : Stop Y X → Heap Y X → Run (Option X × Heap Y X)
  unfolding set_result unhandled_exception
  arrive (yielded y w) h = do h' ← yield_value w y h; ok (none, h')
  arrive (ended w) h = do h' ← set_result w none h; ok (none, h')
  arrive (threw x w) h = do h' ← unhandled_exception w h; ok (some x, h')

  -- `generator_iterator::operator++`, and the exception that it throws
  unfoldable pub advance : ℕ → Ptr → Heap Y X → Run (Option X × Heap Y X)
  unfolding empty resume arrive
  advance k g h = do
    is_empty ← empty (h.top g) h
    check (not is_empty)
    (s, h') ← resume k (h.current_worker (h.top g)) h
    (thrown, h'') ← arrive s h'
    check (h''.top g == h.top g)
    ok (thrown, h'')

  unfoldable pub begin : ℕ → Ptr → Heap Y X → Run (Option X × Heap Y X)
  unfolding empty advance
  begin k g h = do
    is_empty ← empty (h.top g) h
    elim is_empty [ true ↦ ok (none, h) | false ↦ advance k g h ]

  -- `operator==` with the sentinel
  unfoldable pub at_end : Ptr → Heap Y X → Bool
  at_end g h = elim (h.current_result g) [ none ↦ true | some y ↦ false ]

  -- `generator_iterator::operator*`
  unfoldable pub value_of : Ptr → Heap Y X → Run Y
  value_of g h = elim (h.current_result g) [ none ↦ fault | some y ↦ ok y ]

  -- The loop of `for (auto&& y : g)` from an iterator on: the values that it meets, and the exception
  -- that leaves it.
  unfoldable pub loop_from : ℕ → ℕ → Ptr → Option X → Heap Y X → Run (List Y × Option X × Heap Y X)
  unfolding advance at_end value_of
  loop_from j k g (some x) h = ok ([], some x, h)
  loop_from zero k g none h = no_fuel
  loop_from (suc j) k g none h = elim (at_end g h) [
    | true ↦ ok ([], none, h)
    | false ↦ (do
      y ← value_of g h
      (thrown, h') ← advance k g h
      (ys, thrown', h'') ← loop_from j k g thrown h'
      ok (y ∷ ys, thrown', h''))
  ]

  -- `for (auto&& y : g)`
  unfoldable pub for_each : ℕ → ℕ → Ptr → Heap Y X → Run (List Y × Option X × Heap Y X)
  unfolding begin loop_from
  for_each j k g h = do (thrown, h') ← begin k g h; loop_from j k g thrown h'
