-- ===== src/Channel/Arrivals.antt =====
-- include/kelcoro/channel.hpp: what the promise that stops does to its consumer.
use kelcoro.Base.{
  ℕ, true, Option, none, some, List, ◌∷◌, ◌≡◌, ◌≢◌, refl, sym, ap, subst, ◌∙◌, inl, inr, ne→==,
  eq→==,
}
use kelcoro.Node.{Ptr, null, Handle}
use kelcoro.Leaves.{Heap, ok, update, update-same, update-other, Stop, set_result}
use kelcoro.Leaves.Nested.{Item, exception, Frames}
use kelcoro.Leaves.Suspended.{
  Comes, comes, Kept, Suspended-top, Suspended-Agree, After, after_value, after_end,
  after_exception,
}
use kelcoro.Leaves.Skips.{skipped, skipped-Suspended, skip_this_leaf-owner, Rest-owner, top_lives}
use kelcoro.Leaves.Resumed.{Rest-cases}
use kelcoro.Generator.Held.{first, rest}
use kelcoro.Channel.{unhandled_exception, deliver, consumer_handle, arrive, next}
use kelcoro.Channel.Held.{Holds, holds_done, holds, Stepped, Started}

module _ {Y X : Type 0} where
  pub deliver_lem :
      (h : Heap Y X) (w R c : Ptr) (v : Option Y)
      → h.root w ≡ R
      → h.alive R ≡ true
      → h.link R ≡ c
      → deliver w v h ≡ ok (h.handle c, record h { current_result = update h.current_result c v })
  unfolding deliver consumer_handle set_result
  deliver_lem h w R c v root lives linked =
      rw (root, lives, linked, consumer_handle, root, lives, linked) refl

  -- The frame `w` threw, and is at its end.
  failed : Ptr → Ptr → X → (Ptr → Ptr) → (Ptr → Ptr) → Heap Y X → Heap Y X
  failed w c x roots workers t = record t {
    done = update t.done w true;
    root = roots;
    link = update t.link w c;
    current_worker = workers;
    exception = update t.exception c (some x);
  }

  stopped : Ptr → Heap Y X → Heap Y X
  stopped c u = record u { current_result = update u.current_result c none }

  failed-Stepped :
      (h t : Heap Y X) (c R w : Ptr) (x : X) (roots workers : Ptr → Ptr) (consumer : Handle) {n : ℕ}
      {F : Frames} {xs : List (Item Y X)}
      → h.top c ≡ R
      → h.handle c ≡ consumer
      → Kept h t R
      → update t.link w c R ≡ c
      → Holds (stopped c (failed w c x roots workers t)) c xs n F
      → Stepped h c consumer
          (exception x ∷ xs)
          n
          F
          (t.handle c)
          (stopped c (failed w c x roots workers t))
        × (t.top ≡ h.top)
        × Started (stopped c (failed w c x roots workers t)) c consumer
  unfolding stopped failed first rest
  failed-Stepped h t c R w x roots workers consumer at waits kept linked held = (
    record {
      gives = rw (update-same t.exception c (some x), update-same t.current_result c none) refl;
      returns = ap (λ f. f c) kept.handles ∙ waits;
      leaves = held;
      others = λ a ne. (
        update-other t.current_result c none a ne ∙ ap (λ f. f a) kept.results,
        update-other t.exception c (some x) a ne ∙ ap (λ f. f a) kept.exceptions,
      );
    },
    kept.tops,
    record {
      linked = ap (update t.link w c) (ap (λ f. f c) kept.tops ∙ at) ∙ linked;
      waits = ap (λ f. f c) kept.handles ∙ waits;
    },
  )

  pub arrive-Stepped :
      (h : Heap Y X) (c R : Ptr) (consumer : Handle) {n : ℕ} {F : Frames} {xs : List (Item Y X)}
      {s : Stop Y X} {t : Heap Y X}
      → h.top c ≡ R
      → h.link R ≡ c
      → h.handle c ≡ consumer
      → h.exception c ≡ none
      → R ≢ null
      → After h R n F xs (s, t)
      → Comes
          (λ (runs, u). Stepped h c consumer xs n F runs u × (u.top ≡ h.top) × Started u c consumer)
          (arrive s t)
  unfolding arrive unhandled_exception skipped failed stopped first rest
  arrive-Stepped h c R consumer {F} at linked waits clean real (after_value {y} {w} {t} next kept) =
      let (real', lives, unfinished, inside) = Suspended-top next in
      let top_c = ap (λ f. f c) kept.tops ∙ at in
      rw (deliver_lem t w R c (some y) next.root lives (kept.consumer ∙ linked)) (
        comes (
          record {
            gives =
                rw (ap (λ f. f c) kept.exceptions ∙ clean, update-same t.current_result c (some y))
                  refl;
            returns = ap (λ f. f c) kept.handles ∙ waits;
            leaves = holds top_c (
                Suspended-Agree next refl record {
                  alive = λ a i. refl;
                  done = λ a i. refl;
                  body = λ a i. refl;
                  link = λ a i. refl;
                  current_worker = λ a i. refl;
                });
            others = λ a ne. (
              update-other t.current_result c (some y) a ne ∙ ap (λ f. f a) kept.results,
              ap (λ f. f a) kept.exceptions,
            );
          },
          kept.tops,
          record {
            linked = ap t.link top_c ∙ kept.consumer ∙ linked;
            waits = ap (λ f. f c) kept.handles ∙ waits;
          },
        ))
  arrive-Stepped h c R consumer at linked waits clean real (after_end {t} lives ends root kept) =
      let top_c = ap (λ f. f c) kept.tops ∙ at in
      rw (deliver_lem t R R c none root lives (kept.consumer ∙ linked)) (
        comes (
          record {
            gives =
                rw (ap (λ f. f c) kept.exceptions ∙ clean, update-same t.current_result c none)
                  refl;
            returns = ap (λ f. f c) kept.handles ∙ waits;
            leaves = holds_done top_c real lives ends (update-same t.current_result c none);
            others = λ a ne. (
              update-other t.current_result c none a ne ∙ ap (λ f. f a) kept.results,
              ap (λ f. f a) kept.exceptions,
            );
          },
          kept.tops,
          record {
            linked = ap t.link top_c ∙ kept.consumer ∙ linked;
            waits = ap (λ f. f c) kept.handles ∙ waits;
          },
        ))
  arrive-Stepped h c R consumer {n} {F} at linked waits clean real
        (after_exception {x} {xs} {w} {t} real' root lives r inside out sub kept) =
      let top_c = ap (λ f. f c) kept.tops ∙ at in
      let top_lives = top_lives t w R r lives in
      let clean' = ap (λ f. f c) kept.exceptions ∙ clean in
      elim (Rest-cases r) [
        | inl (e, nothing) ↦
            let u = failed w c x (update t.root w w) t.current_worker t in
            rw
              (
                root,
                top_lives,
                kept.consumer,
                linked,
                clean',
                eq→== R w (sym e),
                root,
                kept.consumer,
                linked,
                eq→== (update t.root w w w) w (update-same t.root w w),
                deliver_lem u w w c none (update-same t.root w w) lives (update-same t.link w c),
              )
              (comes (
                failed-Stepped h t c R w x (update t.root w w) t.current_worker consumer at waits
                  kept (ap (update t.link w c) (sym e) ∙ update-same t.link w c)
                  (subst (λ ys. Holds (stopped c u) c ys n F) (sym nothing)
                    (holds_done top_c real top_lives
                      (subst (λ a. update t.done w true a ≡ true) e (update-same t.done w true))
                      (update-same t.current_result c none)))))
        | inr ne ↦
            let o = t.link w in
            let owner = Rest-owner ne r out in
            let roots = update (update t.root o R) w w in
            let u = failed w c x roots (update t.current_worker R o) t in
            rw
              (
                root,
                top_lives,
                kept.consumer,
                linked,
                clean',
                ne→== R w (λ e. ne (sym e)),
                skip_this_leaf-owner t w R root ne top_lives owner,
                update-other t.root o R w (λ e. owner.1 (sym e)),
                root,
                kept.consumer,
                linked,
                eq→== (roots w) w (update-same (update t.root o R) w w),
                deliver_lem u w w c none (update-same (update t.root o R) w w) lives
                    (update-same t.link w c),
              )
              (comes (
                failed-Stepped h t c R w x roots (update t.current_worker R o) consumer at waits
                  kept (update-other t.link w c R (λ e. ne (sym e)) ∙ kept.consumer ∙ linked)
                  (holds top_c (
                    Suspended-Agree
                      (skipped-Suspended t w R o roots (update t.link w c) real' lives ne refl
                        (update-other (update t.root o R) w w o owner.1 ∙ update-same t.root o R)
                        (update-other t.link w c) r inside out sub)
                      refl
                      record {
                        alive = λ a i. refl;
                        done = λ a i. refl;
                        body = λ a i. refl;
                        link = λ a i. refl;
                        current_worker = λ a i. refl;
                      }))))
      ]
