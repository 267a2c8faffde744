-- ===== src/Generator/Objects.antt =====
-- include/kelcoro/generator.hpp: generator objects that change hands.
use kelcoro.Base.{
  ℕ, false, none, List, [], ◌≡◌, ◌≢◌, ◌⊎◌, refl, sym, ap, subst, ◌∙◌, inl, inr, arith,
}
use kelcoro.Node.{Ptr, null}
use kelcoro.Leaves.{Heap, update, update-same, update-other}
use kelcoro.Leaves.Nested.{Item, Frames, Apart}
use kelcoro.Leaves.Chained.{AgreeBut}
use kelcoro.Leaves.Suspended.{Suspended-Agree}
use kelcoro.Generator.{prepare_if_top, swap, move_generator}
use kelcoro.Generator.Held.{Holds, holds_nothing, holds_done, holds}
use kelcoro.Generator.Prepared.{Holds-top, hand_over, prepare_other, prepare_if_top-Prepared}

module _ {Y X : Type 0} where
  exchanged : Ptr → Ptr → Heap Y X → Heap Y X
  exchanged g g' h = record h {
    current_result =
        update (update h.current_result g (h.current_result g')) g' (h.current_result g);
    top = update (update h.top g (h.top g')) g' (h.top g);
  }

  exchanged_into :
      (g g' : Ptr) (h : Heap Y X) (q : Ptr) (F : Frames) → AgreeBut q h (exchanged g g' h) F
  unfolding exchanged
  exchanged_into g g' h q F = record {
    alive = λ a i. refl;
    done = λ a i. refl;
    body = λ a i. refl;
    link = λ a i ne. refl;
    current_worker = λ a i ne. refl;
  }

  exchanged_from :
      (g g' : Ptr) {h t : Heap Y X} {q : Ptr} {F : Frames}
      → AgreeBut q (exchanged g g' h) t F
      → AgreeBut q h t F
  unfolding exchanged
  exchanged_from g g' same = record {
    alive = same.alive;
    done = same.done;
    body = same.body;
    link = same.link;
    current_worker = same.current_worker;
  }

  elsewhere :
      {h : Heap Y X} {g : Ptr} {xs : List (Item Y X)} {n : ℕ} {F G : Frames} (p : Ptr)
      → p ≡ h.top g
      → Holds h g xs n F
      → Apart F G
      → (p ≡ null) ⊎ (G p ≡ false)
  elsewhere {h} {g} {G} p e held apart = elim (Holds-top held) [
    | inl is_null ↦ inl (e ∙ is_null)
    | inr inside ↦ inr (subst (λ a. G a ≡ false) (sym e) (apart (h.top g) inside))
  ]

  -- After `swap` of two generators, each empty, finished or anywhere in its iteration, with frames
  -- that are apart, each holds the items that the other one held, and is the consumer of its top
  -- frame.
  pub swap-Holds :
      (h : Heap Y X) (g g' : Ptr) (xs ys : List (Item Y X)) (n m : ℕ) (F G : Frames)
      → g ≢ g'
      → Apart F G
      → Apart G F
      → Holds h g xs n F
      → Holds h g' ys m G
      → Holds (swap g g' h) g ys m G × Holds (swap g g' h) g' xs n F
  unfolding swap exchanged
  swap-Holds h g g' xs ys n m F G ne apart apart' held held' =
      let s = exchanged g g' h in
      let u = prepare_if_top g s in
      let kept = prepare_if_top-Prepared s g in
      let top_g : s.top g ≡ h.top g' =
        update-other (update h.top g (h.top g')) g' (h.top g) g ne
        ∙ update-same h.top g (h.top g') in
      let top_g' : s.top g' ≡ h.top g = update-same (update h.top g (h.top g')) g' (h.top g) in
      let result_g : s.current_result g ≡ h.current_result g' =
        update-other (update h.current_result g (h.current_result g')) g' (h.current_result g) g ne
        ∙ update-same h.current_result g (h.current_result g') in
      let result_g' : s.current_result g' ≡ h.current_result g =
        update-same (update h.current_result g (h.current_result g')) g' (h.current_result g) in
      (
        prepare_other g'
            (hand_over s held' (exchanged_into g g' h (h.top g') G) refl refl top_g result_g)
            (elsewhere (u.top g') (ap (λ f. f g') kept.tops ∙ top_g') held apart),
        hand_over u held
            (exchanged_from g g' (kept.frames (h.top g) F (elsewhere (s.top g) top_g held' apart')))
            kept.roots kept.workers (ap (λ f. f g') kept.tops ∙ top_g')
            (ap (λ f. f g') kept.results ∙ result_g'),
      )

  blank : Ptr → Heap Y X → Heap Y X
  blank g h = record h {
    current_result = update h.current_result g none;
    top = update h.top g null;
  }

  blank-Holds :
      {h : Heap Y X} (g : Ptr) {g' : Ptr} {xs : List (Item Y X)} {n : ℕ} {F : Frames}
      → g' ≢ g
      → Holds h g' xs n F
      → Holds (blank g h) g' xs n F
  unfolding blank
  blank-Holds {h} g {g'} ne (holds_nothing at result) =
      holds_nothing (update-other h.top g null g' ne ∙ at)
        (update-other h.current_result g none g' ne ∙ result)
  blank-Holds {h} g {g'} ne (holds_done at real inside lives ends linked result) =
      holds_done (update-other h.top g null g' ne ∙ at) real inside lives ends linked
        (update-other h.current_result g none g' ne ∙ result)
  blank-Holds {h} g {g'} ne (holds at linked next) =
      holds (update-other h.top g null g' ne ∙ at) linked (
        Suspended-Agree next refl record {
          alive = λ a i. refl;
          done = λ a i. refl;
          body = λ a i. refl;
          link = λ a i. refl;
          current_worker = λ a i. refl;
        })

  move_generator-Holds :
      (h : Heap Y X) (g g' : Ptr) (xs : List (Item Y X)) (n : ℕ) (F : Frames)
      → g ≢ g'
      → Holds h g' xs n F
      → Holds (move_generator g g' h) g xs n F × Holds (move_generator g g' h) g' [] 0 (λ a. false)
  unfolding move_generator blank
  move_generator-Holds h g g' xs n F ne held =
      swap-Holds (blank g h) g g' [] xs 0 n (λ a. false) F ne (λ a i. absurd (ground arith))
        (λ a i. refl)
        (holds_nothing (update-same h.top g null) (update-same h.current_result g none))
        (blank-Holds g (λ e. ne (sym e)) held)
