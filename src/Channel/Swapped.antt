-- ===== src/Channel/Swapped.antt =====
-- include/kelcoro/channel.hpp: `swap` of channels that have been started.
use kelcoro.Base.{ℕ, ◌<◌, some, ◌∷◌, List, ◌≡◌, ◌≢◌, refl, ap, ◌∙◌, ne→==}
use kelcoro.Node.{Ptr, null, Handle}
use kelcoro.Leaves.{Heap, Stop, update, update-same, update-other, empty}
use kelcoro.Leaves.Nested.{Item, value, Frames}
use kelcoro.Leaves.Suspended.{
  Comes, comes, Comes-bind, Suspended, Suspended-top, Suspended-Agree, After, after_value,
}
use kelcoro.Leaves.Resumed.{resume-After}
use kelcoro.Channel.{advance, arrive, swap}
use kelcoro.Channel.Arrivals.{deliver_lem}

module _ {Y X : Type 0} where
  -- The value is in `c'`, and `c` is as in `h`.
  pub Elsewhere : Heap Y X → Ptr → Ptr → Y → Handle × Heap Y X → Type 0
  Elsewhere h c c' y (runs, t) =
      (t.current_result c' ≡ some y)
      × (t.current_result c ≡ h.current_result c)
      × (runs ≡ h.handle c')

  arrive-Elsewhere :
      {h : Heap Y X} {y : Y} {xs : List (Item Y X)} {n : ℕ} {F : Frames} {s : Stop Y X}
      {t : Heap Y X} (c c' R : Ptr)
      → c ≢ c'
      → h.link R ≡ c'
      → After h R n F (value y ∷ xs) (s, t)
      → Comes (Elsewhere h c c' y) (arrive s t)
  unfolding arrive Elsewhere
  arrive-Elsewhere c c' R ne linked (after_value {y} {w} {t} next kept) =
      let (real, lives, unfinished, inside) = Suspended-top next in
      rw (deliver_lem t w R c' (some y) next.root lives (kept.consumer ∙ linked)) (
        comes (
          update-same t.current_result c' (some y),
          update-other t.current_result c' (some y) c ne ∙ ap (λ f. f c) kept.results,
          ap (λ f. f c') kept.handles,
        ))

  advance-Elsewhere :
      (k : ℕ) (h : Heap Y X) (c c' w R : Ptr) (y : Y) (xs : List (Item Y X)) (n : ℕ) (F : Frames)
      → n < k
      → c ≢ c'
      → h.top c ≡ R
      → h.link R ≡ c'
      → Suspended h w R (value y ∷ xs) n F
      → Comes (Elsewhere h c c' y) (advance k c h)
  unfolding advance empty
  advance-Elsewhere k h c c' w R y xs n F lt ne at linked s =
      let (real, lives, unfinished, inside) = Suspended-top s in
      rw (at, ne→== R null real, lives, unfinished, s.worker)
        (Comes-bind (resume-After k h w R (value y ∷ xs) n F lt s)
          (λ (stop, t) came. arrive-Elsewhere c c' R ne linked came))

  -- If a channel is swapped with one that has been started and whose next item is a value,
  -- `operator++` right after it leaves the value in the other object: the channel that is iterated
  -- has the current result that it had, and the coroutine that goes on is the other object's
  -- consumer.
  pub swap-advance :
      (k : ℕ) (h : Heap Y X) (c c' w R : Ptr) (y : Y) (xs : List (Item Y X)) (n : ℕ) (F : Frames)
      → n < k
      → c ≢ c'
      → h.top c' ≡ R
      → h.link R ≡ c'
      → Suspended h w R (value y ∷ xs) n F
      → Comes (Elsewhere (swap c c' h) c c' y) (advance k c (swap c c' h))
  unfolding swap
  swap-advance k h c c' w R y xs n F lt ne at linked s =
      advance-Elsewhere k (swap c c' h) c c' w R y xs n F lt ne
        (update-other (update h.top c (h.top c')) c' (h.top c) c ne
          ∙ update-same h.top c (h.top c')
          ∙ at)
        linked
        (Suspended-Agree s refl record {
          alive = λ a i. refl;
          done = λ a i. refl;
          body = λ a i. refl;
          link = λ a i. refl;
          current_worker = λ a i. refl;
        })
