-- ===== src/Leaves/Chained.antt =====
-- include/kelcoro/noexport/generators_common.hpp: the owners of the frame that is resumed, when the top
-- of their generator changes hands or its worker changes.
use mathlib.Core.List.{append_assoc}
use kelcoro.Base.{
  ℕ, ◌+◌, ◌≡◌, ◌≢◌, ◌∙◌, ap, sym, subst, ◌⊎◌, inl, inr, true, false, ◌||◌, List, ◌++◌, arith,
}
use kelcoro.Node.{Ptr, null}
use kelcoro.Leaves.{Heap}
use kelcoro.Leaves.Nested.{
  Item, Frames, Sub, Apart, Agree, Items-Agree, Rest, at_top, owned, Rest-weaken,
}

pub other : (q a : Ptr) (F : Frames) → F q ≡ false → F a ≡ true → a ≢ q
other q a F out inside e = let i : F q ≡ true = subst (λ x. F x ≡ true) e inside in cc

abbrev pub either : Frames → Frames → Frames
either F G a = F a || G a

pub either_left : (F G : Frames) → Sub F (either F G)
either_left F G a i = ground arith

pub either_right : (F G : Frames) → Sub G (either F G)
either_right F G a i = ground arith

pub either_out : (F G : Frames) (a : Ptr) → F a ≡ false → G a ≡ false → either F G a ≡ false
either_out F G a i j = ground arith

either-Sub : {F H : Frames} (G : Frames) → Sub F H → Sub (either F G) (either H G)
either-Sub {F} {H} G sub a i = ground (arith, sub a)

pub either_least : {F G H : Frames} → Sub F H → Sub G H → Sub (either F G) H
either_least {F} {G} {H} sub sub' a i = ground (arith, sub a, sub' a)

pub Sub-out : {F G : Frames} (a : Ptr) → Sub F G → G a ≡ false → F a ≡ false
Sub-out {F} {G} a sub out = ground (arith, sub a)

module _ {Y X : Type 0} where
  -- The same frames of `F`, but for the links of `q`.
  pub record AgreeBut (q : Ptr) (h t : Heap Y X) (F : Frames) : Type 0 where
    pub alive : (a : Ptr) → F a ≡ true → t.alive a ≡ h.alive a
    pub done : (a : Ptr) → F a ≡ true → t.done a ≡ h.done a
    pub body : (a : Ptr) → F a ≡ true → t.body a ≡ h.body a
    pub link : (a : Ptr) → F a ≡ true → a ≢ q → t.link a ≡ h.link a
    pub current_worker : (a : Ptr) → F a ≡ true → a ≢ q → t.current_worker a ≡ h.current_worker a

  pub AgreeBut-Sub :
      {q : Ptr} {h t : Heap Y X} {F G : Frames} → AgreeBut q h t F → Sub G F → AgreeBut q h t G
  AgreeBut-Sub same sub = record {
    alive = λ a i. same.alive a (sub a i);
    done = λ a i. same.done a (sub a i);
    body = λ a i. same.body a (sub a i);
    link = λ a i. same.link a (sub a i);
    current_worker = λ a i. same.current_worker a (sub a i);
  }

  pub Agree-AgreeBut :
      (q : Ptr) {h t : Heap Y X} {F : Frames} → AgreeBut q h t F → F q ≡ false → Agree h t F
  Agree-AgreeBut q {F} same out = record {
    alive = same.alive;
    done = same.done;
    body = same.body;
    link = λ a i. same.link a i (other q a F out i);
    current_worker = λ a i. same.current_worker a i (other q a F out i);
  }

  -- The top is among the owners, unless it is the frame itself.
  pub Rest-top :
      {h : Heap Y X} {w p : Ptr} {xs : List (Item Y X)} {n : ℕ} {F : Frames}
      → Rest h w p xs n F
      → (w ≡ p) ⊎ ((w ≢ p) × (F p ≡ true) × (p ≢ null) × (h.alive p ≡ true) × (h.done p ≡ false))
  Rest-top (at_top e) = inl e
  Rest-top {h} {p} {F}
        (owned {o} ne link real lives unfinished at i r inside outG outH apart sub sub' lt e) =
      elim (Rest-top r) [
        | inl same ↦ inr (
          ne,
          subst (λ a. F a ≡ true) same inside,
          subst (λ a. a ≢ null) same real,
          subst (λ a. h.alive a ≡ true) same lives,
          subst (λ a. h.done a ≡ false) same unfinished,
        )
        | inr (ne', inside', real', lives', unfinished') ↦
            inr (ne, sub' p inside', real', lives', unfinished')
      ]

  -- The top is in no part that is apart from the owners.
  pub Rest-out :
      {h : Heap Y X} {w p : Ptr} {xs : List (Item Y X)} {n : ℕ} {G H : Frames}
      → Rest h w p xs n H
      → G w ≡ false
      → Apart G H
      → G p ≡ false
  Rest-out {p} {G} {H} r out apart = elim (Rest-top r) [
    | inl same ↦ subst (λ a. G a ≡ false) same out
    | inr (ne, inside, real, lives, unfinished) ↦ ground (arith, apart p)
  ]

module _ {Y X : Type 0} {h t : Heap Y X} (q : Ptr) where
  pub Rest-AgreeBut :
      {w : Ptr} {xs : List (Item Y X)} {n : ℕ} {F : Frames}
      → Rest h w q xs n F
      → (w ≢ q → t.link w ≡ h.link w)
      → AgreeBut q h t F
      → Rest t w q xs n F
  Rest-AgreeBut (at_top e) l same = at_top e
  Rest-AgreeBut
        (owned {o} ne link real lives unfinished at i r inside outG outH apart sub sub' lt e) l
        same =
      owned ne (l ne ∙ link) real (same.alive o inside ∙ lives) (same.done o inside ∙ unfinished)
        (same.body o inside ∙ at)
        (Items-Agree i (Agree-AgreeBut q (AgreeBut-Sub same sub) (Rest-out r outG apart)))
        (Rest-AgreeBut r (same.link o inside) (AgreeBut-Sub same sub')) inside outG outH apart sub
        sub' lt e

  -- The generator with top `q` becomes a leaf of another one, with the top `R`.
  pub Rest-append :
      (R : Ptr) {zs : List (Item Y X)} {k : ℕ} {O : Frames}
      → Rest t q R zs k O
      → {w : Ptr} {xs : List (Item Y X)} {n : ℕ} {F : Frames} → Rest h w q xs n F
      → w ≢ R
      → (w ≢ q → t.link w ≡ h.link w)
      → AgreeBut q h t F
      → Apart F O
      → F R ≡ false
      → Rest t w R (xs ++ zs) (n + k) (either F O)
  Rest-append R {zs} {k} {O} tail {w} {n} {F} (at_top e) ne l same apart out =
      subst (λ a. Rest t a R zs (n + k) (either F O)) (sym e)
        (Rest-weaken tail (either_right F O) (omega arith))
  Rest-append R {zs} {k} {O} tail {w} {n} {F}
        (owned {o} {xs} {ys} {m} {k = j} {G} {H} ne' link real lives unfinished at i r inside outG
          outH parts sub sub' lt e)
        ne l same apart out =
      owned ne (l ne' ∙ link) real (same.alive o inside ∙ lives) (same.done o inside ∙ unfinished)
        (same.body o inside ∙ at)
        (Items-Agree i (Agree-AgreeBut q (AgreeBut-Sub same sub) (Rest-out r outG parts)))
        (Rest-append R tail r (λ same_o. other R o F out inside same_o) (same.link o inside)
          (AgreeBut-Sub same sub') (λ a j. apart a (sub' a j)) (Sub-out R sub' out))
        (either_left F O o inside) outG (either_out H O o outH (apart o inside))
        (λ a j. either_out H O a (parts a j) (apart a (sub a j)))
        (λ a j. either_left F O a (sub a j)) (either-Sub O sub') (omega arith)
        (ap (λ v. v ++ zs) e ∙ append_assoc xs ys zs)
