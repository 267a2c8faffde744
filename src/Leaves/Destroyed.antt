-- ===== src/Leaves/Destroyed.antt =====
-- include/kelcoro/generator.hpp, include/kelcoro/channel.hpp: `clear` in the middle of an iteration.
use kelcoro.Base.{
  ◌⊎◌, Bool, ℕ, zero, suc, ◌+◌, ◌≤◌, ◌≡◌, ◌≢◌, refl, sym, ap, ◌∙◌, subst, inl, inr, true, false,
  ne→==, List, arith,
}
use kelcoro.Node.{Ptr, null}
use kelcoro.Leaves.{Script, leaves, Heap, update, update-same, update-other, destroy, clear}
use kelcoro.Leaves.Nested.{
  Item, Frames, Sub, Items, at_end, fails, gives, departs, skips, enters, works, Rest, at_top,
  owned,
}
use kelcoro.Leaves.Chained.{other}
use kelcoro.Leaves.Suspended.{
  Comes, comes, Comes-bind, Comes-map, Suspended, Suspended-top, Suspended-Agree,
}

still : (alive : Ptr → Bool) (p a : Ptr) → alive a ≡ false → update alive p false a ≡ false
unfolding update
still alive p a gone = ground (arith, gone)

-- The frame `w` and its owners, up to the top `R`.
pub data OnPath (link : Ptr → Ptr) (R : Ptr) : Ptr → Ptr → Type 0 where
  here : {w : Ptr} → OnPath link R w w
  up : {w a : Ptr} → w ≢ R → OnPath link R (link w) a → OnPath link R w a

at_top_path :
    (link : Ptr → Ptr) {R w a : Ptr} (D : Ptr → Type 0) → w ≡ R → D w → OnPath link R w a → D a
at_top_path link D e d here = d
at_top_path link D e d (up ne path) = absurd (ne e)

owned_path :
    (link : Ptr → Ptr) {R w o a : Ptr} (D : Ptr → Type 0)
    → link w ≡ o
    → D w
    → OnPath link R w a
    → ((a ≡ o) ⊎ D a) ⊎ OnPath link R o a
owned_path link D e d here = inl (inr d)
owned_path link {R} {a} D e d (up ne path) = inr (subst (λ p. OnPath link R p a) e path)

module _ {Y X : Type 0} where
  -- The frames of `D` are gone, and nothing out of `F` is.
  pub record Died (h : Heap Y X) (D : Ptr → Type 0) (F : Frames) (t : Heap Y X) : Type 0 where
    pub dead : (a : Ptr) → D a → t.alive a ≡ false
    pub others : (a : Ptr) → F a ≡ false → t.alive a ≡ h.alive a
    pub less : (a : Ptr) → h.alive a ≡ false → t.alive a ≡ false
    pub tops : t.top ≡ h.top

  killed :
      {h t : Heap Y X} {F : Frames} {D : Ptr → Type 0} (p : Ptr)
      → F p ≡ true
      → Died h D F t
      → Died h (λ a. (a ≡ p) ⊎ D a) F (record t { alive = update t.alive p false })
  unfolding update
  killed {h} {t} {F} p inside died = record {
    dead = λ a d. elim d [
      | inl e ↦ ap (update t.alive p false) e ∙ update-same t.alive p false
      | inr d ↦ still t.alive p a (died.dead a d)
    ];
    others = λ a out.
        update-other t.alive p false a (λ e. other a p F out inside (sym e)) ∙ died.others a out;
    less = λ a gone. still t.alive p a (died.less a gone);
    tops = died.tops;
  }

  unharmed : {h : Heap Y X} {F : Frames} → Died h (λ a. ⊥) F h
  unharmed = record {
    dead = λ a d. absurd d;
    others = λ a out. refl;
    less = λ a gone. gone;
    tops = refl;
  }

  Died-Sub :
      {h t : Heap Y X} {F : Frames} {D E : Ptr → Type 0}
      → ((a : Ptr) → E a → D a)
      → Died h D F t
      → Died h E F t
  Died-Sub f died = record {
    dead = λ a d. died.dead a (f a d);
    others = died.others;
    less = died.less;
    tops = died.tops;
  }

  just :
      {h t : Heap Y X} {F : Frames} {D : Ptr → Type 0} (p : Ptr)
      → Died h (λ a. (a ≡ p) ⊎ D a) F t
      → Died h (λ a. a ≡ p) F t
  just p = Died-Sub (λ a e. inl e)

  -- The frame that is to be resumed is destroyed.
  destroy-worker :
      {h : Heap Y X} {w : Ptr} {b : Script Y X} {xs : List (Item Y X)} {m : ℕ} {F G : Frames}
      (k : ℕ)
      → h.alive w ≡ true
      → h.done w ≡ false
      → h.body w ≡ b
      → Items h b xs m G
      → F w ≡ true
      → Sub G F
      → Comes (Died h (λ a. a ≡ w) F) (destroy (suc (suc k)) w h)
  unfolding destroy
  destroy-worker {w} k lives unfinished at (departs (inl e) i out sub lt) inside more =
      rw (lives, unfinished, at, e) (comes (just w (killed w inside unharmed)))
  destroy-worker {w} k lives unfinished at
        (departs {p} (inr (ne, lives', ends, inside')) i out sub lt) inside more =
      rw (lives, unfinished, at, ne→== p null ne, lives', ends)
        (comes (just w (killed w inside (killed p (more p inside') unharmed))))
  destroy-worker {w} k lives unfinished at at_end inside more =
      rw (lives, unfinished, at) (comes (just w (killed w inside unharmed)))
  destroy-worker {w} k lives unfinished at fails inside more =
      rw (lives, unfinished, at) (comes (just w (killed w inside unharmed)))
  destroy-worker {w} k lives unfinished at (gives i) inside more =
      rw (lives, unfinished, at) (comes (just w (killed w inside unharmed)))
  destroy-worker {w} k lives unfinished at (skips g i out sub lt) inside more =
      rw (lives, unfinished, at) (comes (just w (killed w inside unharmed)))
  destroy-worker {w} k lives unfinished at (enters ne l u i' wk v i apart sub sub' lt e) inside
        more =
      rw (lives, unfinished, at) (comes (just w (killed w inside unharmed)))

  destroy-owner :
      {h : Heap Y X} {w o : Ptr} {b : Script Y X} {F : Frames} {D : Ptr → Type 0} (k j : ℕ)
      → h.alive o ≡ true
      → h.done o ≡ false
      → h.body o ≡ leaves w b
      → w ≢ null
      → F o ≡ true
      → ((j : ℕ) → k ≤ j → Comes (Died h D F) (destroy j w h))
      → suc k ≤ j
      → Comes (Died h (λ a. (a ≡ o) ⊎ D a) F) (destroy j o h)
  unfolding destroy
  destroy-owner k zero lives unfinished at real inside gone le = absurd (omega arith)
  destroy-owner {w} {o} k (suc j) lives unfinished at real inside gone le =
      rw (lives, unfinished, at, ne→== w null real)
        (Comes-bind (gone j (omega arith)) (λ t died. comes (killed o inside died)))

  -- Once a frame can be destroyed, so can its owners, up to the top.
  destroy-owners :
      {h : Heap Y X} {w R : Ptr} {ys : List (Item Y X)} {n : ℕ} {F H : Frames} {D : Ptr → Type 0}
      (k : ℕ)
      → Rest h w R ys n H
      → Sub H F
      → D w
      → ((j : ℕ) → k ≤ j → Comes (Died h D F) (destroy j w h))
      → w ≢ null
      → (j : ℕ) → k + n ≤ j
      → Comes (Died h (λ a. D a ⊎ OnPath h.link R w a) F) (destroy j R h)
  destroy-owners {h} {w} {R} {F} {D} k (at_top e) sub dw gone real j le =
      Comes-map
        (λ t. Died-Sub (λ a d. elim d [ inl d ↦ d | inr path ↦ at_top_path h.link D e dw path ]))
        (subst (λ p. Comes (Died h D F) (destroy j p h)) e (gone j (omega arith)))
  destroy-owners {h} {w} {R} {F} {D} k
        (owned {o} ne link real lives unfinished at i r inside outG outH apart sub sub' lt e) more
        dw gone wreal j le =
      Comes-map
        (λ t.
          Died-Sub
            (λ a d. elim d [ inl d ↦ inl (inr d) | inr path ↦ owned_path h.link D link dw path ]))
        (destroy-owners (suc k) r (λ a i. more a (sub' a i)) (inl refl)
          (λ i. destroy-owner k i lives unfinished at wreal (more o inside) gone) real j
          (omega arith))

  destroy_worker_lem :
      {h : Heap Y X} {w : Ptr} {b : Script Y X} {xs : List (Item Y X)} {m : ℕ} {F G : Frames}
      → h.alive w ≡ true
      → h.done w ≡ false
      → h.body w ≡ b
      → Items h b xs m G
      → F w ≡ true
      → Sub G F
      → (j : ℕ) → 2 ≤ j
      → Comes (Died h (λ a. a ≡ w) F) (destroy j w h)
  destroy_worker_lem lives unfinished at i inside sub zero le = absurd (omega arith)
  destroy_worker_lem lives unfinished at i inside sub (suc zero) le = absurd (omega arith)
  destroy_worker_lem lives unfinished at i inside sub (suc (suc j)) le =
      destroy-worker j lives unfinished at i inside sub

  destroy-Died :
      (k : ℕ) (h : Heap Y X) (w R : Ptr) (xs : List (Item Y X)) (n : ℕ) (F : Frames)
      → suc (suc n) ≤ k
      → Suspended h w R xs n F
      → Comes (Died h (OnPath h.link R w) F) (destroy k R h)
  destroy-Died k h w R xs n F le s = elim s.working [
    | works real lives unfinished body i r inside out out' apart sub sub' lt e ↦
        Comes-map (λ t. Died-Sub (λ a path. inr path))
          (destroy-owners 2 r sub' refl (destroy_worker_lem lives unfinished body i inside sub) real
            k (omega arith))
  ]

  -- `clear` of a generator or channel that is suspended anywhere in its iteration ends and touches
  -- no frame that is gone: the frame that would be resumed and all its owners up to the top are
  -- destroyed, no frame of anything else is, the object has no top, and the tops of all other
  -- objects are as they were. The loop of `clear` has two turns, and the depth two more than the
  -- bound on the steps left.
  pub clear-Died :
      (j k : ℕ) (h : Heap Y X) (g w R : Ptr) (xs : List (Item Y X)) (n : ℕ) (F : Frames)
      → suc (suc n) ≤ k
      → h.top g ≡ R
      → Suspended h w R xs n F
      → Comes
          (λ t.
            ((a : Ptr) → OnPath h.link R w a → t.alive a ≡ false)
            × ((a : Ptr) → F a ≡ false → t.alive a ≡ h.alive a)
            × (t.top ≡ update h.top g null))
          (clear (suc (suc j)) k g h)
  unfolding clear
  clear-Died j k h g w R xs n F le at s =
      let (real, lives, unfinished, inside) = Suspended-top s in
      let u = record h { top = update h.top g null } in
      let next : Suspended u w R xs n F = Suspended-Agree s refl record {
        alive = λ a i. refl;
        done = λ a i. refl;
        body = λ a i. refl;
        link = λ a i. refl;
        current_worker = λ a i. refl;
      } in
      rw (clear, at, ne→== R null real, at)
        (Comes-bind (destroy-Died k u w R xs n F le next) (λ t died.
          rw (clear, ap (λ f. f g) died.tops ∙ update-same h.top g null)
            (comes (died.dead, died.others, died.tops))))
