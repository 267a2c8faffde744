-- ===== src/Leaves/Moves.antt =====
-- include/kelcoro/noexport/generators_common.hpp, include/kelcoro/generator.hpp: the frame that is resumed
-- goes on, destroys a leaf, or gives control back to its owner.
use kelcoro.Base.{ℕ, ◌+◌, ◌<◌, ◌≡◌, ◌≢◌, refl, ◌∙◌, sym, inl, inr, true, false, ne→==, List, ◌++◌}
use kelcoro.Node.{Ptr, null}
use kelcoro.Leaves.{Script, Heap, update, update-same, update-other, set_body, destroy_leaf}
use kelcoro.Leaves.Nested.{
  Item, Frames, Sub, Apart, Gone, Items, Agree, Items-Agree, works, Rest, Rest-Agree,
}
use kelcoro.Leaves.Chained.{other, Sub-out}
use kelcoro.Leaves.Suspended.{Kept-frames, Comes, comes, Kept, Kept-refl, Suspended, Agree-set_body}

module _ {Y X : Type 0} where
  -- All but the script of the frame that is resumed.
  pub record Stands (h : Heap Y X) (w R : Ptr) (ys : List (Item Y X)) (k : ℕ) (F G H : Frames)
      : Type 0 where
    pub real : w ≢ null
    pub lives : h.alive w ≡ true
    pub unfinished : h.done w ≡ false
    pub root : h.root w ≡ R
    pub worker : h.current_worker R ≡ w
    pub rest : Rest h w R ys k H
    pub inside : F w ≡ true
    pub out : G w ≡ false
    pub out' : H w ≡ false
    pub apart : Apart G H
    pub sub : Sub G F
    pub sub' : Sub H F

  pub Stands-Suspended :
      {h : Heap Y X} {w R : Ptr} {b : Script Y X} {xs ys zs : List (Item Y X)} {m k n : ℕ}
      {F G H : Frames}
      → Stands h w R ys k F G H
      → Items h b xs m G
      → m + k < n
      → zs ≡ xs ++ ys
      → Suspended (set_body w b h) w R zs n F
  Stands-Suspended {h} {w} {b} {G} {H} s i lt e = record {
    root = s.root;
    worker = s.worker;
    working =
        works s.real s.lives s.unfinished (update-same h.body w b)
          (Items-Agree i (Agree-set_body w b h G s.out))
          (Rest-Agree s.rest refl (Agree-set_body w b h H s.out')) s.inside s.out s.out' s.apart
          s.sub s.sub' lt e;
  }

  Stands-move :
      {h t : Heap Y X} {w R : Ptr} {ys : List (Item Y X)} {k : ℕ} {F G G' H : Frames}
      → Stands h w R ys k F G H
      → Sub G' G
      → t.alive w ≡ h.alive w
      → t.done w ≡ h.done w
      → t.root w ≡ h.root w
      → t.current_worker R ≡ h.current_worker R
      → Rest t w R ys k H
      → Stands t w R ys k F G' H
  Stands-move {w} s sub alive done root worker rest = record {
    real = s.real;
    lives = alive ∙ s.lives;
    unfinished = done ∙ s.unfinished;
    root = root ∙ s.root;
    worker = worker ∙ s.worker;
    rest = rest;
    inside = s.inside;
    out = Sub-out w sub s.out;
    out' = s.out';
    apart = λ a i. s.apart a (sub a i);
    sub = λ a i. s.sub a (sub a i);
    sub' = s.sub';
  }

  Stands-Sub :
      {h : Heap Y X} {w R : Ptr} {ys : List (Item Y X)} {k : ℕ} {F G G' H : Frames}
      → Stands h w R ys k F G H
      → Sub G' G
      → Stands h w R ys k F G' H
  Stands-Sub s sub = Stands-move s sub refl refl refl refl s.rest

  Agree-kill :
      (p : Ptr) (h : Heap Y X) (F : Frames)
      → F p ≡ false
      → Agree h (record h { alive = update h.alive p false }) F
  Agree-kill p h F out = record {
    alive = λ a i. update-other h.alive p false a (other p a F out i);
    done = λ a i. refl;
    body = λ a i. refl;
    link = λ a i. refl;
    current_worker = λ a i. refl;
  }

  -- The leaf that is at its end is destroyed.
  pub destroy_leaf-Comes :
      {h : Heap Y X} {w p R : Ptr} {b : Script Y X} {xs ys zs : List (Item Y X)} {m k n : ℕ}
      {F G G' H : Frames}
      → Stands h w R ys k F G H
      → Gone h p G
      → Items h b xs m G'
      → G' p ≡ false
      → Sub G' G
      → m + k < n
      → zs ≡ xs ++ ys
      → Comes (λ t. Suspended (set_body w b t) w R zs n F × Kept h t R) (destroy_leaf p h)
  unfolding destroy_leaf
  destroy_leaf-Comes {h} {w} {p} {R} {G} {G'} {H} s (inl e) i out sub lt eq =
      rw (e) (comes (Stands-Suspended (Stands-Sub s sub) i lt eq, Kept-refl h R))
  destroy_leaf-Comes {h} {w} {p} {R} {G} {G'} {H} s (inr (ne, lives, ends, inside)) i out sub lt
        eq =
      rw (ne→== p null ne, lives, ends)
        (comes (
          Stands-Suspended
              (Stands-move s sub
                (update-other h.alive p false w (λ e. other w p G s.out inside (sym e))) refl refl
                refl (Rest-Agree s.rest refl (Agree-kill p h H (s.apart p inside))))
              (Items-Agree i (Agree-kill p h G' out)) lt eq,
          Kept-frames,
        ))
