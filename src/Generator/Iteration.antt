-- ===== src/Generator/Iteration.antt =====
-- include/kelcoro/generator.hpp: `begin`, `operator++` and the range-based for loop.
use kelcoro.Base.{
  ℕ, ◌<◌, true, Option, none, some, List, ◌≡◌, ◌≢◌, refl, sym, ap, subst, ◌∙◌, inl, inr, ne→==,
  eq→==,
}
use kelcoro.Node.{Ptr, null}
use kelcoro.Leaves.{Heap, update, update-same, update-other, Stop, empty, set_result}
use kelcoro.Leaves.Nested.{Item, Frames, Agree}
use kelcoro.Leaves.Suspended.{
  Comes, comes, Comes-bind, Kept, Suspended, Suspended-top, Suspended-Agree, After, after_value,
  after_end, after_exception,
}
use kelcoro.Leaves.Skips.{skipped, skipped-Suspended, skip_this_leaf-owner, Rest-owner, top_lives}
use kelcoro.Leaves.Resumed.{resume-After, Rest-cases}
use kelcoro.Generator.{unhandled_exception, arrive, advance, begin}
use kelcoro.Generator.Held.{Holds, holds_nothing, holds_done, holds, first, rest}

module _ {Y X : Type 0} where
  -- What a step of the generator `g` does: it gives the first item, and the rest is left.
  pub record Stepped (h : Heap Y X) (g : Ptr) (xs : List (Item Y X)) (n : ℕ) (F : Frames)
      (thrown : Option X) (t : Heap Y X) : Type 0 where
    pub gives : ◌≡◌ {A = Option X × Option Y} (thrown, t.current_result g) (first xs)
    pub leaves : Holds t g (rest xs) n F
    pub tops : t.top ≡ h.top
    pub others : (a : Ptr) → a ≢ g → t.current_result a ≡ h.current_result a

  with_result :
      (h : Heap Y X) (r : Ptr → Option Y) (F : Frames) → Agree h (record h { current_result = r }) F
  with_result h r F = record {
    alive = λ a i. refl;
    done = λ a i. refl;
    body = λ a i. refl;
    link = λ a i. refl;
    current_worker = λ a i. refl;
  }

  top-Kept : {h t : Heap Y X} {R : Ptr} (g : Ptr) → Kept h t R → h.top g ≡ R → t.top g ≡ R
  top-Kept g kept at = ap (λ f. f g) kept.tops ∙ at

  thrown_from : Ptr → Ptr → Heap Y X → Heap Y X
  thrown_from w g t = record t {
    done = update t.done w true;
    current_result = update t.current_result g none;
  }

  arrive-Stepped :
      (h : Heap Y X) (g R : Ptr) {n : ℕ} {F : Frames} {xs : List (Item Y X)} {s : Stop Y X}
      {t : Heap Y X}
      → h.top g ≡ R
      → h.link R ≡ g
      → R ≢ null
      → F R ≡ true
      → After h R n F xs (s, t)
      → Comes (λ (thrown, u). Stepped h g xs n F thrown u) (arrive s t)
  unfolding thrown_from skipped arrive set_result unhandled_exception first rest
  arrive-Stepped h g R {F} at linked real top_in (after_value {y} {t} next kept) =
      let (real', lives, unfinished, inside) = Suspended-top next in
      rw (next.root, lives, kept.consumer, linked)
        (comes (record {
          gives = ap (λ v. (none, v)) (update-same t.current_result g (some y));
          leaves =
              holds (top-Kept g kept at) (kept.consumer ∙ linked)
                (Suspended-Agree next refl (with_result t (update t.current_result g (some y)) F));
          tops = kept.tops;
          others =
              λ a ne. update-other t.current_result g (some y) a ne ∙ ap (λ f. f a) kept.results;
        }))
  arrive-Stepped h g R at linked real top_in (after_end {t} lives ends root kept) =
      rw (root, lives, kept.consumer, linked)
        (comes (record {
          gives = ap (λ v. (none, v)) (update-same t.current_result g none);
          leaves =
              holds_done (top-Kept g kept at) real top_in lives ends (kept.consumer ∙ linked)
                (update-same t.current_result g none);
          tops = kept.tops;
          others = λ a ne. update-other t.current_result g none a ne ∙ ap (λ f. f a) kept.results;
        }))
  arrive-Stepped h g R {n} {F} at linked real top_in
        (after_exception {x} {xs} {w} {t} real' root lives r inside out sub kept) =
      elim (Rest-cases r) [
        | inl (e, nothing) ↦
            let u = thrown_from w g t in
            rw (root, eq→== R w (sym e), root, top_lives t w R r lives, kept.consumer, linked)
              (comes (record {
                gives = ap (λ v. (some x, v)) (update-same t.current_result g none);
                leaves =
                    subst (λ ys. Holds u g ys n F) (sym nothing)
                      (holds_done (top-Kept g kept at) real top_in (top_lives t w R r lives)
                        (subst (λ a. update t.done w true a ≡ true) e (update-same t.done w true))
                        (kept.consumer ∙ linked) (update-same t.current_result g none));
                tops = kept.tops;
                others =
                    λ a ne. update-other t.current_result g none a ne ∙ ap (λ f. f a) kept.results;
              }))
        | inr ne ↦
            let o = t.link w in
            let owner = Rest-owner ne r out in
            rw
              (
                root,
                ne→== R w (λ e. ne (sym e)),
                skip_this_leaf-owner t w R root ne (top_lives t w R r lives) owner,
                update-other t.root o R w (λ e. owner.1 (sym e)),
                root,
                top_lives t w R r lives,
                kept.consumer,
                linked,
              )
              (comes (record {
                gives = ap (λ v. (some x, v)) (update-same t.current_result g none);
                leaves = holds (top-Kept g kept at) (kept.consumer ∙ linked) (
                    Suspended-Agree
                      (skipped-Suspended t w R o (update t.root o R) t.link real' lives ne refl
                        (update-same t.root o R) (λ a e. refl) r inside out sub)
                      refl
                      record {
                        alive = λ a i. refl;
                        done = λ a i. refl;
                        body = λ a i. refl;
                        link = λ a i. refl;
                        current_worker = λ a i. refl;
                      });
                tops = kept.tops;
                others =
                    λ a ne. update-other t.current_result g none a ne ∙ ap (λ f. f a) kept.results;
              }))
      ]

  pub advance-Stepped :
      (k : ℕ) (h : Heap Y X) (g w R : Ptr) (xs : List (Item Y X)) (n : ℕ) (F : Frames)
      → n < k
      → h.top g ≡ R
      → h.link R ≡ g
      → Suspended h w R xs n F
      → Comes (λ (thrown, t). Stepped h g xs n F thrown t) (advance k g h)
  unfolding advance empty
  advance-Stepped k h g w R xs n F lt at linked s =
      let (real, lives, unfinished, inside) = Suspended-top s in
      rw (at, ne→== R null real, lives, unfinished, s.worker)
        (Comes-bind (resume-After k h w R xs n F lt s) (λ (stop, t) came.
          Comes-bind (arrive-Stepped h g R at linked real inside came)
            (λ (thrown, u) step. rw (ap (λ f. f g) step.tops ∙ at, eq→== R R refl) (comes step))))

  -- `begin` of a generator that holds a list of items refines taking its head: at the end of the
  -- list the current result is null, a value is the current result, an exception is thrown, with
  -- the current result null, and the rest of the list is held then. The top frame of no object,
  -- and the current result of no other object, is changed. The fuel exceeds the steps that are
  -- left.
  pub begin-Stepped :
      (k : ℕ) (h : Heap Y X) (g : Ptr) (xs : List (Item Y X)) (n : ℕ) (F : Frames)
      → n < k
      → Holds h g xs n F
      → Comes (λ (thrown, t). Stepped h g xs n F thrown t) (begin k g h)
  unfolding begin empty first rest
  begin-Stepped k h g xs n F lt (holds_nothing at result) = rw (at) (
      comes (record {
        gives = ap (λ v. (none, v)) result;
        leaves = holds_nothing at result;
        tops = refl;
        others = λ a ne. refl;
      }))
  begin-Stepped k h g xs n F lt (holds_done {R} at real top_in lives ends linked result) =
      rw (at, ne→== R null real, lives, ends)
        (comes (record {
          gives = ap (λ v. (none, v)) result;
          leaves = holds_done at real top_in lives ends linked result;
          tops = refl;
          others = λ a ne. refl;
        }))
  begin-Stepped k h g xs n F lt (holds {w} {R} at linked s) =
      let (real, lives, unfinished, inside) = Suspended-top s in
      rw (at, ne→== R null real, lives, unfinished)
        (advance-Stepped k h g w R xs n F lt at linked s)
