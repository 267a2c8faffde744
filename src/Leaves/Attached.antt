-- ===== src/Leaves/Attached.antt =====
-- include/kelcoro/noexport/generators_common.hpp, include/kelcoro/generator.hpp: the frame that is resumed
-- gives control to a leaf.
use mathlib.Core.List.{append_assoc}
use kelcoro.Base.{
  ℕ, suc, ◌+◌, ◌<◌, ◌≡◌, ◌≢◌, refl, ◌∙◌, ap, sym, true, false, ne→==, List, ◌++◌, arith,
}
use kelcoro.Node.{Ptr, null}
use kelcoro.Leaves.{Script, leaves, Heap, update, update-same, update-other, set_body, attach_leaf}
use kelcoro.Leaves.Nested.{
  Item, Frames, Sub, Apart, Items, Items-Agree, Working, works, Rest, owned,
}
use kelcoro.Leaves.Chained.{
  AgreeBut, Agree-AgreeBut, other, either, either_left, either_right, either_out, either_least,
  Rest-out, Rest-AgreeBut, Rest-append, Sub-out,
}
use kelcoro.Leaves.Suspended.{
  Comes, comes, single, single-same, single-other, with_single-Sub, Kept, Suspended,
}
use kelcoro.Leaves.Skips.{top_lives}
use kelcoro.Leaves.Moves.{Stands}

module _ {Y X : Type 0} where
  -- A generator becomes a leaf of the one that is resumed.
  pub attached : Ptr → Ptr → Ptr → Ptr → Script Y X → Heap Y X → Heap Y X
  attached p v w R b h = record h {
    body = update h.body w (leaves p b);
    root = update h.root v R;
    link = update h.link p w;
    current_worker = update h.current_worker R v;
  }

  AgreeBut-attached :
      (p v w R : Ptr) (b : Script Y X) (h : Heap Y X) (F : Frames)
      → F w ≡ false
      → F R ≡ false
      → AgreeBut p h (attached p v w R b h) F
  unfolding attached
  AgreeBut-attached p v w R b h F out out' = record {
    alive = λ a i. refl;
    done = λ a i. refl;
    body = λ a i. update-other h.body w (leaves p b) a (other w a F out i);
    link = λ a i ne. update-other h.link p w a ne;
    current_worker = λ a i ne. update-other h.current_worker R v a (other R a F out' i);
  }

  AgreeBut-attached_root :
      (p v w R : Ptr) (b : Script Y X) (h : Heap Y X) (F : Frames)
      → F w ≡ false
      → F p ≡ false
      → AgreeBut R h (attached p v w R b h) F
  unfolding attached
  AgreeBut-attached_root p v w R b h F out out' = record {
    alive = λ a i. refl;
    done = λ a i. refl;
    body = λ a i. update-other h.body w (leaves p b) a (other w a F out i);
    link = λ a i ne. update-other h.link p w a (other p a F out' i);
    current_worker = λ a i ne. update-other h.current_worker R v a ne;
  }

  -- The owners of the new leaf.
  Rest-attached :
      (v : Ptr) {h : Heap Y X} {w R p : Ptr} {b : Script Y X} {ys zs : List (Item Y X)} {k j : ℕ}
      {F G H K : Frames}
      → Stands h w R ys k F G H
      → Items h b zs j K
      → Sub K G
      → K p ≡ false
      → G p ≡ true
      → Rest
          (attached p v w R b h)
          p
          R
          (zs ++ ys)
          (suc (suc (j + k)))
          (either (single w) (either K H))
  unfolding attached
  Rest-attached v {h} {w} {R} {p} {b} {G} {H} {K} s i sub out inside =
      let top_out = Rest-out s.rest s.out s.apart in
      let same = AgreeBut-attached p v w R b h K (Sub-out w sub s.out) (Sub-out R sub top_out) in
      owned (other R p G top_out inside) (update-same h.link p w) s.real s.lives s.unfinished
        (update-same h.body w (leaves p b)) (Items-Agree i (Agree-AgreeBut p same out))
        (Rest-AgreeBut R s.rest
          (λ ne. update-other h.link p w w (λ e. other w p G s.out inside (sym e)))
          (AgreeBut-attached_root p v w R b h H s.out' (s.apart p inside)))
        (either_left (single w) (either K H) w (single-same w)) (Sub-out w sub s.out) s.out'
        (λ a j. s.apart a (sub a j))
        (λ a j. either_right (single w) (either K H) a (either_left K H a j))
        (λ a j. either_right (single w) (either K H) a (either_right K H a j)) (omega arith) refl

  pub attach_leaf-Comes :
      {h : Heap Y X} {w R p v : Ptr} {b : Script Y X} {xs ys zs us : List (Item Y X)} {k j m n : ℕ}
      {F G H L K : Frames}
      → Stands h w R ys k F G H
      → p ≢ null
      → h.alive p ≡ true
      → L p ≡ true
      → h.current_worker p ≡ v
      → Working h v p xs m L
      → Items h b zs j K
      → Apart L K
      → Sub L G
      → Sub K G
      → suc (m + j) < n
      → us ≡ (xs ++ zs) ++ ys
      → Comes
          (λ (v', t). Suspended t v' R us (n + k) F × Kept h t R)
          (attach_leaf p w (set_body w (leaves p b) h))
  unfolding attach_leaf attached
  attach_leaf-Comes {h} {w} {R} {p} {v} {b} {xs} {ys} {zs} {k} {j} {G} {H} {L} {K} s ne lives inside
        worker
        (works {b = c} {xs = xs'} {ys = ys'} {G = G'} {H = H'} real' lives' unfinished at i r
          inside' outG outH apart sub sub' lt e)
        items apart' subL subK le eq =
      let top_out = Rest-out s.rest s.out s.apart in
      let at_leaf = subL v inside' in
      let sub_G : Sub G' G = λ a o. subL a (sub a o) in
      let sub_H : Sub H' G = λ a o. subL a (sub' a o) in
      let O = either (single w) (either K H) in
      let apart_O : Apart L O = λ a o.
        either_out (single w) (either K H) a (single-other w a (other w a G s.out (subL a o)))
          (either_out K H a (apart' a o) (s.apart a (subL a o))) in
      let same_G =
        AgreeBut-attached p v w R b h G' (Sub-out w sub_G s.out) (Sub-out R sub_G top_out) in
      let same_H =
        AgreeBut-attached p v w R b h H' (Sub-out w sub_H s.out) (Sub-out R sub_H top_out) in
      let tail = Rest-attached v s items subK (apart' p inside) (subL p inside) in
      rw
        (
          ne→== w p (λ f. other w p G s.out (subL p inside) (sym f)),
          worker,
          s.root,
          lives,
          s.lives,
          lives',
          top_lives h w R s.rest s.lives,
        )
        (comes (
          record {
            root = update-same h.root v R;
            worker = update-same h.current_worker R v;
            working =
                works real' lives' unfinished
                  (update-other h.body w (leaves p b) v (other w v G s.out at_leaf) ∙ at)
                  (Items-Agree i (Agree-AgreeBut p same_G (Rest-out r outG apart)))
                  (Rest-append p R tail r (other R v G top_out at_leaf) (update-other h.link p w v)
                    same_H (λ a o. apart_O a (sub' a o)) (Sub-out R sub_H top_out))
                  (s.sub v at_leaf) outG (either_out H' O v outH (apart_O v inside'))
                  (λ a o. either_out H' O a (apart a o) (apart_O a (sub a o)))
                  (λ a o. s.sub a (sub_G a o))
                  (either_least (λ a o. s.sub a (sub_H a o))
                    (with_single-Sub w s.inside (either_least (λ a o. s.sub a (subK a o)) s.sub')))
                  (omega arith)
                  (eq
                    ∙ ap (λ u. (u ++ zs) ++ ys) e
                    ∙ append_assoc (xs' ++ ys') zs ys
                    ∙ append_assoc xs' ys' (zs ++ ys));
          },
          record {
            tops = refl;
            results = refl;
            handles = refl;
            exceptions = refl;
            consumer = update-other h.link p w R (λ f. other R p G top_out (subL p inside) (sym f));
          },
        ))
