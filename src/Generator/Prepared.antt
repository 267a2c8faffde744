-- ===== src/Generator/Prepared.antt =====
-- include/kelcoro/generator.hpp: `prepare_to_start`, which makes an object the consumer of its frame.
use kelcoro.Base.{
  ℕ, true, false, List, ◌≡◌, ◌≢◌, ◌⊎◌, ◌==◌, refl, sym, ap, subst, ◌∙◌, inl, inr, ne→==, Bool-cases,
  arith,
}
use kelcoro.Node.{Ptr, null}
use kelcoro.Leaves.{Heap, update, update-same, update-other}
use kelcoro.Leaves.Nested.{Item, Frames}
use kelcoro.Leaves.Chained.{AgreeBut, other}
use kelcoro.Leaves.Suspended.{Suspended-top, Suspended-Agree, Suspended-AgreeBut}
use kelcoro.Generator.{prepare_to_start, prepare_if_top}
use kelcoro.Generator.Held.{Holds, holds_nothing, holds_done, holds}

module _ {Y X : Type 0} where
  AgreeBut-refl : (q : Ptr) (h : Heap Y X) (F : Frames) → AgreeBut q h h F
  AgreeBut-refl q h F = record {
    alive = λ a i. refl;
    done = λ a i. refl;
    body = λ a i. refl;
    link = λ a i ne. refl;
    current_worker = λ a i ne. refl;
  }

  prepare_null : (g : Ptr) (h : Heap Y X) → h.top g ≡ null → prepare_if_top g h ≡ h
  unfolding prepare_if_top
  prepare_null g h at = rw (prepare_if_top, at) refl

  prepare_top :
      (g : Ptr) (h : Heap Y X) (R : Ptr)
      → h.top g ≡ R
      → R ≢ null
      → prepare_if_top g h ≡ record h { link = update h.link R g }
  unfolding prepare_if_top prepare_to_start
  prepare_top g h R at real =
      rw (prepare_if_top, at, ne→== R null real)
        (ap (λ a. record h { link = update h.link a g }) at)

  pub Holds-top :
      {h : Heap Y X} {g : Ptr} {xs : List (Item Y X)} {n : ℕ} {F : Frames}
      → Holds h g xs n F
      → (h.top g ≡ null) ⊎ (F (h.top g) ≡ true)
  Holds-top (holds_nothing at result) = inl at
  Holds-top {F} (holds_done at real inside lives ends linked result) =
      inr (subst (λ a. F a ≡ true) (sym at) inside)
  Holds-top {F} (holds at linked s) =
      let (real, lives, unfinished, inside) = Suspended-top s in
      inr (subst (λ a. F a ≡ true) (sym at) inside)

  -- A generator that is given the top of another, by `prepare_to_start`.
  pub hand_over :
      {h : Heap Y X} (s : Heap Y X) {g g' : Ptr} {xs : List (Item Y X)} {n : ℕ} {F : Frames}
      → Holds h g' xs n F
      → AgreeBut (h.top g') h s F
      → s.root ≡ h.root
      → s.current_worker ≡ h.current_worker
      → s.top g ≡ h.top g'
      → s.current_result g ≡ h.current_result g'
      → Holds (prepare_if_top g s) g xs n F
  hand_over s {g} (holds_nothing at result) same root worker top result' =
      rw (prepare_null g s (top ∙ at)) (holds_nothing (top ∙ at) (result' ∙ result))
  hand_over s {g} (holds_done {R} at real inside lives ends linked result) same root worker top
        result' =
      rw (prepare_top g s R (top ∙ at) real) (
        holds_done (top ∙ at) real inside (same.alive R inside ∙ lives) (same.done R inside ∙ ends)
          (update-same s.link R g) (result' ∙ result))
  hand_over {h} s {g} {F} (holds {w} {R} at linked next) same root worker top result' =
      let (real, lives, unfinished, inside) = Suspended-top next in
      let same' : AgreeBut R h s F = subst (λ a. AgreeBut a h s F) at same in
      rw (prepare_top g s R (top ∙ at) real) (
        holds (top ∙ at) (update-same s.link R g) (
          Suspended-AgreeBut next (ap (λ f. f w) root) (ap (λ f. f R) worker) record {
            alive = same.alive;
            done = same.done;
            body = same.body;
            link = λ a i ne. update-other s.link R g a ne ∙ same'.link a i ne;
            current_worker = λ a i ne. same'.current_worker a i ne;
          }))

  -- The generator `g'` starts, and `g` holds what it held.
  linked_other :
      {h : Heap Y X} {g : Ptr} (g' : Ptr) {xs : List (Item Y X)} {n : ℕ} {F : Frames}
      → Holds h g xs n F
      → F (h.top g') ≡ false
      → Holds (prepare_to_start g' h) g xs n F
  unfolding prepare_to_start
  linked_other g' (holds_nothing at result) out = holds_nothing at result
  linked_other {h} g' {F} (holds_done {R} at real inside lives ends linked result) out =
      holds_done at real inside lives ends
        (update-other h.link (h.top g') g' R (other (h.top g') R F out inside) ∙ linked) result
  linked_other {h} g' {F} (holds {R} at linked next) out =
      let (real, lives, unfinished, inside) = Suspended-top next in
      holds at (update-other h.link (h.top g') g' R (other (h.top g') R F out inside) ∙ linked) (
        Suspended-Agree next refl record {
          alive = λ a i. refl;
          done = λ a i. refl;
          body = λ a i. refl;
          link = λ a i. update-other h.link (h.top g') g' a (other (h.top g') a F out i);
          current_worker = λ a i. refl;
        })

  pub prepare_other :
      {h : Heap Y X} {g : Ptr} (g' : Ptr) {xs : List (Item Y X)} {n : ℕ} {F : Frames}
      → Holds h g xs n F
      → (h.top g' ≡ null) ⊎ (F (h.top g') ≡ false)
      → Holds (prepare_if_top g' h) g xs n F
  unfolding prepare_if_top
  prepare_other {h} g' held (inl at) = rw (prepare_null g' h at) held
  prepare_other {h} {g} g' {xs} {n} {F} held (inr out) = elim (Bool-cases (h.top g' == null)) [
    | inl is_null ↦ rw (prepare_if_top, is_null) held
    | inr has_top ↦ rw (prepare_if_top, has_top) (linked_other g' held out)
  ]

  -- What `prepare_to_start` leaves as it is.
  pub record Prepared (h t : Heap Y X) (g : Ptr) : Type 0 where
    pub frames :
        (q : Ptr) (F : Frames) → (h.top g ≡ null) ⊎ (F (h.top g) ≡ false) → AgreeBut q h t F
    pub roots : t.root ≡ h.root
    pub workers : t.current_worker ≡ h.current_worker
    pub tops : t.top ≡ h.top
    pub results : t.current_result ≡ h.current_result

  pub prepare_if_top-Prepared : (h : Heap Y X) (g : Ptr) → Prepared h (prepare_if_top g h) g
  unfolding prepare_if_top prepare_to_start
  prepare_if_top-Prepared h g = elim (Bool-cases (h.top g == null)) [
    | inl is_null ↦
        rw (prepare_if_top, is_null)
          record {
            frames = λ q F out. AgreeBut-refl q h F;
            roots = refl;
            workers = refl;
            tops = refl;
            results = refl;
          }
    | inr has_top ↦
        rw (prepare_if_top, has_top)
          record {
            frames = λ q F out. elim out [
              | inl is_null ↦ absurd (ground arith)
              | inr out ↦ record {
                alive = λ a i. refl;
                done = λ a i. refl;
                body = λ a i. refl;
                link = λ a i ne. update-other h.link (h.top g) g a (other (h.top g) a F out i);
                current_worker = λ a i ne. refl;
              }
            ];
            roots = refl;
            workers = refl;
            tops = refl;
            results = refl;
          }
  ]
