-- ===== src/Generator/Released.antt =====
-- include/kelcoro/generator.hpp: `release` and `reset`.
use kelcoro.Base.{
  suc, ℕ, ◌<◌, true, false, Option, none, some, List, ◌∷◌, ◌≡◌, ◌≢◌, refl, sym, ap, ◌∙◌, ne→==,
  eq→==,
}
use kelcoro.Node.{Ptr, null}
use kelcoro.Leaves.{
  clear, Stop, Heap, ok, ◌>>=◌, update, update-same, update-other, empty, set_result,
}
use kelcoro.Leaves.Nested.{Item, value, Frames}
use kelcoro.Leaves.Suspended.{
  Comes, comes, Comes-bind, After, Suspended, Suspended-top, Suspended-Agree, after_value,
}
use kelcoro.Leaves.Resumed.{resume-After}
use kelcoro.Generator.{release, reset, begin, advance, arrive, at_end}

module _ {Y X : Type 0} where
  release-begin :
      (k : ℕ) (h : Heap Y X) (g : Ptr) (y : Y)
      → h.current_result g ≡ some y
      → (begin k g (release g h).1 ≡ ok (none, (release g h).1))
        × (at_end g (release g h).1 ≡ false)
  unfolding release begin at_end empty
  release-begin k h g y result = (rw (update-same h.top g null) refl, rw (result) refl)

  -- A value for another object than the one that is iterated.
  pub Misdelivered : Ptr → Ptr → Y → Option X × Heap Y X → Type 0
  Misdelivered g g' y (thrown, t) =
      (thrown ≡ none)
      × (at_end g' t ≡ true)
      × (t.current_result g ≡ some y)
      × (empty (t.top g') t ≡ ok false)

  arrive-Misdelivered :
      {h : Heap Y X} {y : Y} {xs : List (Item Y X)} {n : ℕ} {F : Frames} {s : Stop Y X}
      {t : Heap Y X} (g g' R : Ptr)
      → g ≢ g'
      → h.top g' ≡ R
      → h.link R ≡ g
      → h.current_result g' ≡ none
      → After h R n F (value y ∷ xs) (s, t)
      → Comes (λ (thrown, u). (u.top g' ≡ R) × Misdelivered g g' y (thrown, u)) (arrive s t)
  unfolding empty arrive set_result at_end Misdelivered
  arrive-Misdelivered g g' R ne at linked result (after_value {y} {t} next kept) =
      let (real, lives, unfinished, inside) = Suspended-top next in
      let at' : t.top g' ≡ R = ap (λ f. f g') kept.tops ∙ at in
      rw (next.root, lives, kept.consumer, linked)
        (comes (
          at',
          (
            refl,
            rw
                (
                  at_end,
                  update-other t.current_result g (some y) g' (λ e. ne (sym e))
                      ∙ ap (λ f. f g') kept.results
                      ∙ result,
                )
                refl,
            update-same t.current_result g (some y),
            rw (at', ne→== R null real, lives, unfinished) refl,
          ),
        ))

  advance-Misdelivered :
      (k : ℕ) (h : Heap Y X) (g g' w R : Ptr) (y : Y) (xs : List (Item Y X)) (n : ℕ) (F : Frames)
      → n < k
      → g ≢ g'
      → h.top g' ≡ R
      → h.link R ≡ g
      → Suspended h w R (value y ∷ xs) n F
      → h.current_result g' ≡ none
      → Comes (Misdelivered g g' y) (advance k g' h)
  unfolding advance empty arrive set_result at_end Misdelivered
  advance-Misdelivered k h g g' w R y xs n F lt ne at linked s result =
      let (real, lives, unfinished, inside) = Suspended-top s in
      rw (at, ne→== R null real, lives, unfinished, s.worker)
        (Comes-bind (resume-After k h w R (value y ∷ xs) n F lt s) (λ (stop, t) came.
          Comes-bind (arrive-Misdelivered g g' R ne at linked result came)
            (λ (thrown, u) (at', delivered). rw (at', eq→== R R refl) (comes delivered))))

  -- If the frame that a generator releases is given to an empty one by `reset`, and its next item
  -- is a value, `begin` of that one is the end although it is not empty: the value is the current
  -- result of the generator that released the frame.
  clear-null : (j k : ℕ) (g : Ptr) (h : Heap Y X) → h.top g ≡ null → clear (suc j) k g h ≡ ok h
  unfolding clear
  clear-null j k g h at = rw (clear, at) refl

  -- If the frame that a generator releases is given to an empty one by `reset`, and its next item
  -- is a value, `begin` of that one is the end although it is not empty: the value is the current
  -- result of the generator that released the frame.
  pub reset-begin :
      (i j k : ℕ) (h : Heap Y X) (g g' w R : Ptr) (y : Y) (xs : List (Item Y X)) (n : ℕ)
      (F : Frames)
      → n < k
      → g ≢ g'
      → h.top g ≡ R
      → h.link R ≡ g
      → Suspended h w R (value y ∷ xs) n F
      → h.top g' ≡ null
      → h.current_result g' ≡ none
      → Comes
          (Misdelivered g g' y)
          (reset (suc j) i g' (release g h).0 (release g h).1 >>= begin k g')
  unfolding release reset clear begin empty
  reset-begin i j k h g g' w R y xs n F lt ne at linked s nothing result =
      let (real, lives, unfinished, inside) = Suspended-top s in
      let tops = update (update h.top g null) g' (h.top g) in
      let at' : tops g' ≡ R = update-same (update h.top g null) g' (h.top g) ∙ at in
      rw
        (
          reset,
          clear-null j i g' (release g h).1
              (update-other h.top g null g' (λ e. ne (sym e)) ∙ nothing),
          at',
          ne→== R null real,
          lives,
          unfinished,
        )
        (advance-Misdelivered k (record h { top = tops }) g g' w R y xs n F lt ne at' linked
          (Suspended-Agree s refl record {
            alive = λ a i. refl;
            done = λ a i. refl;
            body = λ a i. refl;
            link = λ a i. refl;
            current_worker = λ a i. refl;
          })
          result)
