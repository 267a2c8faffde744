-- ===== src/Generator/Held.antt =====
-- include/kelcoro/generator.hpp: what a generator object holds, the items that are still to come.
use kelcoro.Base.{ℕ, true, Option, none, some, List, [], ◌∷◌, ◌≡◌, ◌≢◌}
use kelcoro.Node.{Ptr, null}
use kelcoro.Leaves.{Heap}
use kelcoro.Leaves.Nested.{Item, value, exception, Frames}
use kelcoro.Leaves.Suspended.{Suspended}

module _ {Y X : Type 0} where
  -- The bound is on the steps, and the frames are those that are not at their end.
  pub data Holds (h : Heap Y X) (g : Ptr) : List (Item Y X) → ℕ → Frames → Type 0 where
    holds_nothing :
        {n : ℕ} {F : Frames} → h.top g ≡ null → h.current_result g ≡ none → Holds h g [] n F
    holds_done :
        {R : Ptr} {n : ℕ} {F : Frames}
        → h.top g ≡ R
        → R ≢ null
        → F R ≡ true
        → h.alive R ≡ true
        → h.done R ≡ true
        → h.link R ≡ g
        → h.current_result g ≡ none
        → Holds h g [] n F
    holds :
        {w R : Ptr} {xs : List (Item Y X)} {n : ℕ} {F : Frames}
        → h.top g ≡ R
        → h.link R ≡ g
        → Suspended h w R xs n F
        → Holds h g xs n F

  -- The exception that the next step throws, and the value that it leaves.
  unfoldable pub first : List (Item Y X) → Option X × Option Y
  first [] = (none, none)
  first (value y ∷ xs) = (none, some y)
  first (exception x ∷ xs) = (some x, none)

  unfoldable pub rest : List (Item Y X) → List (Item Y X)
  rest [] = []
  rest (x ∷ xs) = xs

  -- The values before the first exception, that exception, and what comes after it.
  unfoldable pub values : List (Item Y X) → List Y
  values [] = []
  values (value y ∷ xs) = y ∷ values xs
  values (exception x ∷ xs) = []

  unfoldable pub failure : List (Item Y X) → Option X
  failure [] = none
  failure (value y ∷ xs) = failure xs
  failure (exception x ∷ xs) = some x

  unfoldable pub after_failure : List (Item Y X) → List (Item Y X)
  after_failure [] = []
  after_failure (value y ∷ xs) = after_failure xs
  after_failure (exception x ∷ xs) = xs
