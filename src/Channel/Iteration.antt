-- ===== src/Channel/Iteration.antt =====
-- include/kelcoro/channel.hpp: `begin`, `next` and `operator++`.
use kelcoro.Base.{ℕ, ◌<◌, none, List, ◌≡◌, refl, sym, ap, ◌∙◌, ne→==}
use kelcoro.Node.{Ptr, null, Handle}
use kelcoro.Leaves.{Heap, update-same, update-other, empty}
use kelcoro.Leaves.Nested.{Item, Frames}
use kelcoro.Leaves.Suspended.{
  Comes, comes, Comes-bind, Comes-map, Suspended, Suspended-top, Suspended-AgreeBut,
}
use kelcoro.Leaves.Resumed.{resume-After}
use kelcoro.Generator.Held.{first, rest}
use kelcoro.Channel.{advance, start, next}
use kelcoro.Channel.Held.{Holds, holds_nothing, holds_done, holds, Started, Came}
use kelcoro.Channel.Arrivals.{arrive-Stepped}

module _ {Y X : Type 0} where
  started_top :
      {h : Heap Y X} (c : Ptr) {w R : Ptr} (consumer : Handle) {xs : List (Item Y X)} {n : ℕ}
      {F : Frames}
      → h.top c ≡ R
      → Suspended h w R xs n F
      → Suspended (start c consumer h) w R xs n F
  unfolding start
  started_top {h} c {R} consumer at s = Suspended-AgreeBut s refl refl record {
    alive = λ a i. refl;
    done = λ a i. refl;
    body = λ a i. refl;
    link = λ a i ne. update-other h.link (h.top c) c a (λ e. ne (e ∙ at));
    current_worker = λ a i ne. refl;
  }

  pub advance-Came :
      (k : ℕ) (h : Heap Y X) (c w R : Ptr) (consumer : Handle) (xs : List (Item Y X)) (n : ℕ)
      (F : Frames)
      → n < k
      → h.exception c ≡ none
      → h.top c ≡ R
      → Suspended h w R xs n F
      → Started h c consumer
      → Comes (Came h c consumer xs n F) (advance k c h)
  unfolding advance empty Came
  advance-Came k h c w R consumer xs n F lt clean at s go =
      let (real, lives, unfinished, inside) = Suspended-top s in
      let linked : h.link R ≡ c = ap h.link (sym at) ∙ go.linked in
      rw (at, ne→== R null real, lives, unfinished, s.worker)
        (Comes-bind (resume-After k h w R xs n F lt s) (λ (stop, t) came.
          Comes-map (λ a (step, tops, more). (step, tops, λ y e. more))
            (arrive-Stepped h c R consumer at linked go.waits clean real came)))

  pub next-Came :
      (k : ℕ) (h : Heap Y X) (c : Ptr) (consumer : Handle) (xs : List (Item Y X)) (n : ℕ)
      (F : Frames)
      → n < k
      → h.exception c ≡ none
      → Holds h c xs n F
      → Comes (Came h c consumer xs n F) (next k c consumer h)
  unfolding next start empty Came first rest
  next-Came k h c consumer xs n F lt clean (holds_nothing at result) = rw (at) (
      comes (
        record {
          gives = rw (clean, result) refl;
          returns = refl;
          leaves = holds_nothing at result;
          others = λ a ne. (refl, refl);
        },
        refl,
        λ y e. cc,
      ))
  next-Came k h c consumer xs n F lt clean (holds_done {R} at real lives ends result) =
      rw (at, ne→== R null real, lives, ends)
        (comes (
          record {
            gives = rw (clean, result) refl;
            returns = refl;
            leaves = holds_done at real lives ends result;
            others = λ a ne. (refl, refl);
          },
          refl,
          λ y e. cc,
        ))
  next-Came k h c consumer xs n F lt clean (holds {w} {R} at s) =
      let (real, lives, unfinished, inside) = Suspended-top s in
      rw (at, ne→== R null real, lives, unfinished)
        (Comes-map
          (λ (runs, t) (step, tops, more). (
            record {
              gives = step.gives;
              returns = step.returns;
              leaves = step.leaves;
              others = step.others;
            },
            tops,
            more,
          ))
          (advance-Came k (start c consumer h) c w R consumer xs n F lt clean at
            (started_top c consumer at s)
            record {
              linked = update-same h.link (h.top c) c;
              waits = update-same h.handle c consumer;
            }))
