-- ===== src/Generator/Ranges.antt =====
-- include/kelcoro/noexport/generators_common.hpp: the generator of a range, and the loop over it.
use mathlib.Core.List.{append-nil}
use kelcoro.Base.{
  ℕ, suc, ◌<◌, true, false, none, List, [], ◌∷◌, map, length, ◌≡◌, ◌≢◌, ◌==◌, refl, sym, ap, ◌∙◌,
  subst, eq→==, arith,
}
use kelcoro.Node.{Ptr, null}
use kelcoro.Leaves.{Heap, to_generator}
use kelcoro.Leaves.Nested.{Item, value, Frames, Items, at_end, gives, works, at_top}
use kelcoro.Leaves.Suspended.{Comes, Comes-map}
use kelcoro.Generator.{for_each}
use kelcoro.Generator.Held.{holds, values, failure}
use kelcoro.Generator.Loops.{for_each-Looped}

length-map_value :
    {Y : Type 0} (X : Type 0) (ys : List Y) → length (map {B = Item Y X} value ys) ≡ length ys
length-map_value X [] = refl
length-map_value X (y ∷ ys) = ap suc (length-map_value X ys)

values-map_value :
    {Y : Type 0} (X : Type 0) (ys : List Y) → values (map {B = Item Y X} value ys) ≡ ys
unfolding values
values-map_value X [] = refl
values-map_value X (y ∷ ys) = ap (λ l. y ∷ l) (values-map_value X ys)

failure-map_value :
    {Y : Type 0} (X : Type 0) (ys : List Y) → failure (map {B = Item Y X} value ys) ≡ none
unfolding failure
failure-map_value X [] = refl
failure-map_value X (y ∷ ys) = failure-map_value X ys

module _ {Y X : Type 0} where
  to_generator-Items :
      (h : Heap Y X) (ys : List Y) (F : Frames) → Items h (to_generator ys) (map value ys) 0 F
  unfolding to_generator
  to_generator-Items h [] F = at_end
  to_generator-Items h (y ∷ ys) F = gives (to_generator-Items h ys F)

  -- A for loop over a generator that has just been made of a range collects the elements of the
  -- range, in order, and throws nothing. The fuel exceeds the number of elements.
  to_generator-for_each :
      (j k : ℕ) (h : Heap Y X) (g R : Ptr) (ys : List Y)
      → 2 < k
      → length ys < j
      → h.top g ≡ R
      → h.link R ≡ g
      → R ≢ null
      → h.alive R ≡ true
      → h.done R ≡ false
      → h.root R ≡ R
      → h.current_worker R ≡ R
      → h.body R ≡ to_generator ys
      → Comes (λ (zs, thrown, t). (zs ≡ ys) × (thrown ≡ none)) (for_each j k g h)
  to_generator-for_each j k h g R ys lt le at linked real lives unfinished root worker body =
      Comes-map
        (λ (zs, thrown, t) loop.
          (loop.collects ∙ values-map_value X ys, loop.throws ∙ failure-map_value X ys))
        (for_each-Looped j k h g (map value ys) 1 (λ a. a == R) (omega arith)
          (subst (λ l. l < j) (sym (length-map_value X ys)) le)
          (holds at linked record {
            root = root;
            worker = worker;
            working =
                works {G = λ a. false} {H = λ a. false} real lives unfinished body
                  (to_generator-Items h ys (λ a. false)) (at_top {n = 0} refl) (eq→== R R refl) refl
                  refl (λ a i. refl) (λ a i. absurd (ground arith)) (λ a i. absurd (ground arith))
                  (omega arith) (sym (append-nil (map value ys)));
          }))
