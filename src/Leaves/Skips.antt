-- ===== src/Leaves/Skips.antt =====
-- include/kelcoro/noexport/generators_common.hpp, include/kelcoro/generator.hpp: a frame gives control
-- back to its owner.
use kelcoro.Base.{
  ap, some, ℕ, suc, ◌≡◌, ◌≢◌, refl, ◌∙◌, sym, subst, inl, inr, true, false, ne→==, List, arith,
}
use kelcoro.Node.{Ptr, null}
use kelcoro.Leaves.{ok, final_suspend, Heap, update, update-same, update-other, skip_this_leaf}
use kelcoro.Leaves.Nested.{Item, Frames, Sub, departs, Items-Agree, works, Rest, at_top, owned}
use kelcoro.Leaves.Chained.{
  Agree-AgreeBut, AgreeBut, other, either, either_left, either_right, either_out, Rest-top,
  Rest-out, Rest-AgreeBut, Sub-out,
}
use kelcoro.Leaves.Suspended.{
  Kept-frames, Comes, comes, single, single-same, single-other, with_single-Apart, with_single-Sub,
  Kept, Suspended,
}

module _ {Y X : Type 0} where
  -- A frame `w` is at its end, and its owner `o` goes on. The roots are `roots` then, and the links
  -- are `links`.
  unfoldable pub skipped : Ptr → Ptr → Ptr → (Ptr → Ptr) → (Ptr → Ptr) → Heap Y X → Heap Y X
  skipped w o R roots links h = record h {
    done = update h.done w true;
    root = roots;
    link = links;
    current_worker = update h.current_worker R o;
  }

  AgreeBut-skipped :
      (w o R : Ptr) (roots links : Ptr → Ptr) (h : Heap Y X) (F : Frames)
      → ((a : Ptr) → a ≢ w → links a ≡ h.link a)
      → F w ≡ false
      → AgreeBut R h (skipped w o R roots links h) F
  unfolding skipped
  AgreeBut-skipped w o R roots links h F same out = record {
    alive = λ a i. refl;
    done = λ a i. update-other h.done w true a (other w a F out i);
    body = λ a i. refl;
    link = λ a i ne. same a (other w a F out i);
    current_worker = λ a i ne. update-other h.current_worker R o a ne;
  }

  pub top_lives :
      (h : Heap Y X) (w R : Ptr) {zs : List (Item Y X)} {n : ℕ} {H : Frames}
      → Rest h w R zs n H
      → h.alive w ≡ true
      → h.alive R ≡ true
  top_lives h w R r lives = elim (Rest-top r) [
    | inl e ↦ subst (λ a. h.alive a ≡ true) e lives
    | inr (apart, inside, real, lives', unfinished) ↦ lives'
  ]

  pub skipped-Suspended :
      (h : Heap Y X) (w R o : Ptr) (roots links : Ptr → Ptr) {zs : List (Item Y X)} {n : ℕ}
      {F H : Frames}
      → w ≢ null
      → h.alive w ≡ true
      → w ≢ R
      → h.link w ≡ o
      → roots o ≡ R
      → ((a : Ptr) → a ≢ w → links a ≡ h.link a)
      → Rest h w R zs n H
      → F w ≡ true
      → H w ≡ false
      → Sub H F
      → Suspended (skipped w o R roots links h) o R zs n F
  unfolding skipped
  skipped-Suspended h w R o roots links real lives ne linked root same (at_top e) inside out sub =
      absurd (ne e)
  skipped-Suspended h w R o roots links {zs} {n} {F} {H = S} real lives ne linked root same
        (owned {o = p} {b} {xs} {m} {G} {H} ne' link real' lives' unfinished at i r inside' outG
          outH apart sub' sub'' lt e)
        inside out sub =
      let t = skipped w p R roots links h in
      let out_G = Sub-out w sub' out in
      let p_o : p ≡ o = sym link ∙ linked in
      subst (λ v. Suspended (skipped w v R roots links h) v R zs n F) p_o
        record {
          root = ap roots p_o ∙ root;
          worker = update-same h.current_worker R p;
          working =
              works {m = suc m} real' lives'
                (update-other h.done w true p (other w p S out inside') ∙ unfinished) at
                (departs {F = either (single w) G}
                  (inr (
                    real,
                    lives,
                    update-same h.done w true,
                    either_left (single w) G w (single-same w),
                  ))
                  (Items-Agree i (
                    Agree-AgreeBut R (AgreeBut-skipped w p R roots links h G same out_G)
                      (Rest-out r outG apart)))
                  out_G (either_right (single w) G) (omega arith))
                (Rest-AgreeBut R r (λ ne''. same p (other w p S out inside'))
                  (AgreeBut-skipped w p R roots links h H same (Sub-out w sub'' out)))
                (sub p inside')
                (either_out (single w) G p (single-other w p (other w p S out inside')) outG) outH
                (with_single-Apart w (Sub-out w sub'' out) apart)
                (with_single-Sub w inside (λ a j. sub a (sub' a j))) (λ a j. sub a (sub'' a j))
                (omega arith) e;
        }

  -- The owner of a frame that is not the top.
  pub Rest-owner :
      {h : Heap Y X} {w R : Ptr} {zs : List (Item Y X)} {n : ℕ} {H : Frames}
      → w ≢ R
      → Rest h w R zs n H
      → H w ≡ false
      → (h.alive (h.link w) ≡ true) × (h.link w ≢ w)
  Rest-owner ne (at_top e) out = absurd (ne e)
  Rest-owner {h} {w} {H = S} ne
        (owned {o} ne' link real lives unfinished at i r inside outG outH apart sub sub' lt e) out =
      (
        subst (λ a. h.alive a ≡ true) (sym link) lives,
        subst (λ a. a ≢ w) (sym link) (other w o S out inside),
      )

  pub skip_this_leaf-owner :
      (h : Heap Y X) (w R : Ptr)
      → h.root w ≡ R
      → w ≢ R
      → h.alive R ≡ true
      → (h.alive (h.link w) ≡ true) × (h.link w ≢ w)
      → skip_this_leaf w h
        ≡ ok (record h {
          root = update h.root (h.link w) R;
          current_worker = update h.current_worker R (h.link w);
        })
  unfolding skip_this_leaf
  skip_this_leaf-owner h w R root ne top_lives (lives, ne') =
      rw (root, ne→== R w (λ e. ne (sym e)), ne→== (h.link w) w ne', lives, top_lives) refl

  pub final_suspend-Comes :
      {h : Heap Y X} {w R : Ptr} {zs : List (Item Y X)} {n : ℕ} {F H : Frames}
      → w ≢ null
      → h.alive w ≡ true
      → h.root w ≡ R
      → w ≢ R
      → Rest h w R zs n H
      → F w ≡ true
      → H w ≡ false
      → Sub H F
      → Comes
          (λ (next, t). (v : Ptr) × (next ≡ some v) × Suspended t v R zs n F × Kept h t R)
          (final_suspend w (record h { done = update h.done w true }))
  unfolding final_suspend skipped
  final_suspend-Comes {h} {w} {R} real lives root ne r inside out sub =
      let t = record h { done = update h.done w true } in
      rw (final_suspend, root, ne→== R w (λ e. ne (sym e)))
        (rw (skip_this_leaf-owner t w R root ne (top_lives h w R r lives) (Rest-owner ne r out)) (
          comes (
            h.link w,
            refl,
            skipped-Suspended h w R (h.link w) (update h.root (h.link w) R) h.link real lives ne
                refl (update-same h.root (h.link w) R) (λ a e. refl) r inside out sub,
            Kept-frames,
          )))
