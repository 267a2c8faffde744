-- ===== src/Leaves/Resumed.antt =====
-- include/kelcoro/noexport/generators_common.hpp, include/kelcoro/generator.hpp: what the coroutine that is
-- resumed comes to.
use kelcoro.Base.{
  ap, ℕ, zero, suc, ◌+◌, ◌<◌, ◌≤◌, ◌≡◌, ◌≢◌, refl, sym, subst, ◌⊎◌, inl, inr, true, ne→==, eq→==,
  List, [], ◌++◌, arith,
}
use kelcoro.Node.{Ptr, null}
use kelcoro.Leaves.{
  final_suspend, Script, Heap, Run, ok, update, update-same, Stop, ended, resume, empty,
}
use kelcoro.Leaves.Nested.{
  Item, Frames, Gone, Items, at_end, fails, gives, departs, skips, enters, works, Rest, at_top,
  owned, Rest-weaken,
}
use kelcoro.Leaves.Suspended.{
  Kept-frames, Comes, comes, Comes-bind, Comes-map, Kept, Kept-refl, Kept-trans, Suspended, After,
  after_value, after_end, after_exception, After-Kept,
}
use kelcoro.Leaves.Skips.{final_suspend-Comes}
use kelcoro.Leaves.Moves.{Stands, Stands-Suspended, destroy_leaf-Comes}
use kelcoro.Leaves.Attached.{attach_leaf-Comes}

abbrev Resumes : (Y X : Type 0) → ℕ → Type 0
Resumes Y X k =
    (h : Heap Y X) (w R : Ptr) (xs : List (Item Y X)) (n : ℕ) (F : Frames)
    → n < k
    → Suspended h w R xs n F
    → Comes (After h R n F xs) (resume k w h)

module _ {Y X : Type 0} where
  pub again :
      {h t : Heap Y X} {R : Ptr} {xs : List (Item Y X)} {n m : ℕ} {F : Frames}
      {r : Run (Stop Y X × Heap Y X)}
      → Kept h t R
      → m ≤ n
      → Comes (After t R m F xs) r
      → Comes (After h R n F xs) r
  again kept le c = Comes-map (λ a i. After-Kept kept le i) c

  pub Rest-cases :
      {h : Heap Y X} {w R : Ptr} {ys : List (Item Y X)} {k : ℕ} {H : Frames}
      → Rest h w R ys k H
      → ((w ≡ R) × (ys ≡ [])) ⊎ (w ≢ R)
  Rest-cases (at_top e) = inl (e, refl)
  Rest-cases (owned ne link real lives unfinished at i r inside outG outH apart sub sub' lt e) =
      inr ne

  empty-Gone : (h : Heap Y X) (F : Frames) (p : Ptr) → Gone h p F → empty p h ≡ ok true
  unfolding empty
  empty-Gone h F p (inl e) = rw e refl
  empty-Gone h F p (inr (ne, lives, ends, inside)) = rw (ne→== p null ne, lives, ends) refl

  resume-step :
      {k : ℕ} {h : Heap Y X} {w R : Ptr} {b : Script Y X} {xs ys : List (Item Y X)} {n m j : ℕ}
      {F G H : Frames}
      → Resumes Y X k
      → n < suc k
      → Stands h w R ys j F G H
      → Items h b xs m G
      → h.body w ≡ b
      → m + j < n
      → Comes (After h R n F (xs ++ ys)) (resume (suc k) w h)
  unfolding resume final_suspend
  resume-step {k} {h} {w} {R} {ys} {n} {j} {F} ih lt s at_end at le = elim (Rest-cases s.rest) [
    | inl (e, nothing) ↦
        subst (λ v. Comes (After h R n F v) (resume (suc k) w h)) (sym nothing)
          (rw (s.lives, s.unfinished, at, final_suspend, s.root, eq→== R w (sym e))
            (subst
              (λ v.
                Comes (After h R n F []) (ok (ended v, record h { done = update h.done w true })))
              (sym e)
              (comes (
                after_end (subst (λ a. h.alive a ≡ true) e s.lives)
                  (subst (λ a. update h.done w true a ≡ true) e (update-same h.done w true))
                  (subst (λ a. h.root a ≡ R) e s.root) Kept-frames))))
    | inr ne ↦
        rw (s.lives, s.unfinished, at)
          (Comes-bind
            (final_suspend-Comes {n = j} s.real s.lives s.root ne s.rest s.inside s.out' s.sub')
            (λ (next, t) (v, e, more, kept).
              rw e (again kept (omega arith) (ih _ v R _ j _ (omega arith) more))))
  ]
  resume-step {h} {R} ih lt s fails at le =
      rw (s.lives, s.unfinished, at)
        (comes (
          after_exception s.real s.root s.lives (Rest-weaken s.rest (λ a i. i) (omega arith))
            s.inside s.out' s.sub' (Kept-refl h R)))
  resume-step ih lt s (gives i) at le =
      rw (s.lives, s.unfinished, at)
        (comes (after_value (Stands-Suspended s i le refl) Kept-frames))
  resume-step {w} {R} {m} {j} ih lt s (departs g i out sub less) at le =
      rw (s.lives, s.unfinished, at)
        (Comes-bind (destroy_leaf-Comes {n = m + j} s g i out sub (omega arith) refl)
          (λ t (next, kept).
            again (Kept-trans kept Kept-frames) (omega arith)
              (ih _ w R _ (m + j) _ (omega arith) next)))
  resume-step {h} {w} {R} {m} {j} {G} ih lt s (skips {p} {m = l} g i out sub less) at le =
      rw (s.lives, s.unfinished, at, empty-Gone h G p g)
        (again Kept-frames (omega arith) (
          ih _ w R _ (m + j) _ (omega arith) (
            Stands-Suspended {m = suc l} s (departs g i out sub (omega arith)) (omega arith) refl)))
  resume-step {w} {R} {ys} {m} {j} ih lt s
        (enters {p} ne lives unfinished inside worker work i apart sub sub' less e) at le =
      rw (s.lives, s.unfinished, at, ne→== p null ne, lives, unfinished)
        (Comes-bind
          (attach_leaf-Comes s ne lives inside worker work i apart sub sub' less
            (ap (λ u. u ++ ys) e))
          (λ (v', t) (next, kept).
            again kept (omega arith) (ih _ v' R _ (m + j) _ (omega arith) next)))

  -- With fuel for the steps that are left, the frame that is resumed comes to the next item of the
  -- generator, and what follows is still to come.
  pub resume-After :
      (k : ℕ) (h : Heap Y X) (w R : Ptr) (xs : List (Item Y X)) (n : ℕ) (F : Frames)
      → n < k
      → Suspended h w R xs n F
      → Comes (After h R n F xs) (resume k w h)
  resume-After zero h w R zs n F lt s = absurd (omega arith)
  resume-After (suc k) h w R zs n F lt s = elim s.working [
    | works {m} real lives unfinished at i r inside out out' apart sub sub' le e ↦
        subst (λ v. Comes (After h R n F v) (resume (suc k) w h)) (sym e)
          (resume-step (resume-After k) lt
            (record {
              real = real;
              lives = lives;
              unfinished = unfinished;
              root = s.root;
              worker = s.worker;
              rest = r;
              inside = inside;
              out = out;
              out' = out';
              apart = apart;
              sub = sub;
              sub' = sub';
            })
            i at le)
  ]
