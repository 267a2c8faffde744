-- ===== src/Channel/Held.antt =====
-- include/kelcoro/channel.hpp: what a channel object holds, and what a step of it does.
use kelcoro.Base.{ℕ, true, Option, none, some, List, [], ◌≡◌, ◌≢◌}
use kelcoro.Node.{Ptr, null, Handle}
use kelcoro.Leaves.{Heap}
use kelcoro.Leaves.Nested.{Item, Frames}
use kelcoro.Leaves.Suspended.{Suspended}
use kelcoro.Generator.Held.{first, rest}

module _ {Y X : Type 0} where
  -- The items that are still to come; the bound is on the steps, and the frames are those of the
  -- channel.
  pub data Holds (h : Heap Y X) (c : Ptr) : List (Item Y X) → ℕ → Frames → Type 0 where
    holds_nothing :
        {n : ℕ} {F : Frames} → h.top c ≡ null → h.current_result c ≡ none → Holds h c [] n F
    holds_done :
        {R : Ptr} {n : ℕ} {F : Frames}
        → h.top c ≡ R
        → R ≢ null
        → h.alive R ≡ true
        → h.done R ≡ true
        → h.current_result c ≡ none
        → Holds h c [] n F
    holds :
        {w R : Ptr} {xs : List (Item Y X)} {n : ℕ} {F : Frames}
        → h.top c ≡ R
        → Suspended h w R xs n F
        → Holds h c xs n F

  -- What a step does: it leaves the first item in the channel, and gives control to its consumer.
  pub record Stepped (h : Heap Y X) (c : Ptr) (consumer : Handle) (xs : List (Item Y X)) (n : ℕ)
      (F : Frames) (runs : Handle) (t : Heap Y X) : Type 0 where
    pub gives : ◌≡◌ {A = Option X × Option Y} (t.exception c, t.current_result c) (first xs)
    pub returns : runs ≡ consumer
    pub leaves : Holds t c (rest xs) n F
    pub others :
        (a : Ptr)
        → a ≢ c
        → (t.current_result a ≡ h.current_result a) × (t.exception a ≡ h.exception a)

  -- The channel has been started by its consumer.
  pub record Started (h : Heap Y X) (c : Ptr) (consumer : Handle) : Type 0 where
    pub linked : h.link (h.top c) ≡ c
    pub waits : h.handle c ≡ consumer

  -- What a step comes to: a channel that has a value has been started.
  unfoldable pub Came :
      Heap Y X → Ptr → Handle → List (Item Y X) → ℕ → Frames → Handle × Heap Y X → Type 0
  Came h c consumer xs n F (runs, t) =
      Stepped h c consumer xs n F runs t
      × (t.top ≡ h.top)
      × ((y : Y) → t.current_result c ≡ some y → Started t c consumer)
