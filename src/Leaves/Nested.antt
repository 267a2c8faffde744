-- ===== src/Leaves/Nested.antt =====
-- include/kelcoro/noexport/generators_common.hpp: what a heap of nested generators stands for, the items
-- that are still to come.
use kelcoro.Base.{
  ℕ, suc, ◌+◌, ◌<◌, ◌≤◌, ◌≡◌, ◌≢◌, ◌∙◌, ◌⊎◌, inl, inr, Bool, true, false, List, [], ◌∷◌, ◌++◌,
  arith,
}
use kelcoro.Node.{Ptr, null}
use kelcoro.Leaves.{Script, returns, throws, yields, nests, leaves, Heap}

-- What the consumer of a generator meets: a value, or an exception, after which it can go on.
pub data Item (Y X : Type 0) : Type 0 where
  value : Y → Item Y X
  exception : X → Item Y X

-- The frames that a part of the heap consists of.
abbrev pub Frames : Type 0
Frames = Ptr → Bool

abbrev pub Sub : Frames → Frames → Type 0
Sub F G = (a : Ptr) → F a ≡ true → G a ≡ true

abbrev pub Apart : Frames → Frames → Type 0
Apart F G = (a : Ptr) → F a ≡ true → G a ≡ false

module _ {Y X : Type 0} where
  -- A generator that is at its end: it has no frame, or one of `F` that is at its final suspension.
  abbrev pub Gone : Heap Y X → Ptr → Frames → Type 0
  Gone h p F = (p ≡ null) ⊎ ((p ≢ null) × (h.alive p ≡ true) × (h.done p ≡ true) × (F p ≡ true))

-- The numbers bound the steps that are left.
mutual
  -- The items of a script, with those of the generators that it yields in full.
  pub data Items {Y X : Type 0} (h : Heap Y X)
      : Script Y X → List (Item Y X) → ℕ → Frames → Type 0 where
    at_end : {n : ℕ} {F : Frames} → Items h returns [] n F
    fails : {x : X} {n : ℕ} {F : Frames} → Items h (throws x) (exception x ∷ []) n F
    gives :
        {y : Y} {b : Script Y X} {xs : List (Item Y X)} {n : ℕ} {F : Frames}
        → Items h b xs n F
        → Items h (yields y b) (value y ∷ xs) n F
    departs :
        {p : Ptr} {b : Script Y X} {xs : List (Item Y X)} {n m : ℕ} {F G : Frames}
        → Gone h p F
        → Items h b xs m G
        → G p ≡ false
        → Sub G F
        → m < n
        → Items h (leaves p b) xs n F
    skips :
        {p : Ptr} {b : Script Y X} {xs : List (Item Y X)} {n m : ℕ} {F G : Frames}
        → Gone h p F
        → Items h b xs m G
        → G p ≡ false
        → Sub G F
        → suc m < n
        → Items h (nests p b) xs n F
    enters :
        {p w : Ptr} {b : Script Y X} {xs ys zs : List (Item Y X)} {n m k : ℕ} {F G H : Frames}
        → p ≢ null
        → h.alive p ≡ true
        → h.done p ≡ false
        → G p ≡ true
        → h.current_worker p ≡ w
        → Working h w p xs m G
        → Items h b ys k H
        → Apart G H
        → Sub G F
        → Sub H F
        → suc (m + k) < n
        → zs ≡ xs ++ ys
        → Items h (nests p b) zs n F

  -- The items of the generator with top `p`, in which the frame `w` is to be resumed.
  pub data Working {Y X : Type 0} (h : Heap Y X)
      : Ptr → Ptr → List (Item Y X) → ℕ → Frames → Type 0 where
    works :
        {p w : Ptr} {b : Script Y X} {xs ys zs : List (Item Y X)} {n m k : ℕ} {F G H : Frames}
        → w ≢ null
        → h.alive w ≡ true
        → h.done w ≡ false
        → h.body w ≡ b
        → Items h b xs m G
        → Rest h w p ys k H
        → F w ≡ true
        → G w ≡ false
        → H w ≡ false
        → Apart G H
        → Sub G F
        → Sub H F
        → m + k < n
        → zs ≡ xs ++ ys
        → Working h w p zs n F

  -- The items that follow when the frame `w` is at its end: those of its owners, up to the top `p`.
  pub data Rest {Y X : Type 0} (h : Heap Y X)
      : Ptr → Ptr → List (Item Y X) → ℕ → Frames → Type 0 where
    at_top : {p w : Ptr} {n : ℕ} {F : Frames} → w ≡ p → Rest h w p [] n F
    owned :
        {p w o : Ptr} {b : Script Y X} {xs ys zs : List (Item Y X)} {n m k : ℕ} {F G H : Frames}
        → w ≢ p
        → h.link w ≡ o
        → o ≢ null
        → h.alive o ≡ true
        → h.done o ≡ false
        → h.body o ≡ leaves w b
        → Items h b xs m G
        → Rest h o p ys k H
        → F o ≡ true
        → G o ≡ false
        → H o ≡ false
        → Apart G H
        → Sub G F
        → Sub H F
        → suc (m + k) < n
        → zs ≡ xs ++ ys
        → Rest h w p zs n F

module _ {Y X : Type 0} where
  -- Two heaps with the same frames of `F`, but for the roots, which are read of workers only.
  pub record Agree (h t : Heap Y X) (F : Frames) : Type 0 where
    pub alive : (a : Ptr) → F a ≡ true → t.alive a ≡ h.alive a
    pub done : (a : Ptr) → F a ≡ true → t.done a ≡ h.done a
    pub body : (a : Ptr) → F a ≡ true → t.body a ≡ h.body a
    pub link : (a : Ptr) → F a ≡ true → t.link a ≡ h.link a
    pub current_worker : (a : Ptr) → F a ≡ true → t.current_worker a ≡ h.current_worker a

  Agree-Sub : {h t : Heap Y X} {F G : Frames} → Agree h t F → Sub G F → Agree h t G
  Agree-Sub same sub = record {
    alive = λ a i. same.alive a (sub a i);
    done = λ a i. same.done a (sub a i);
    body = λ a i. same.body a (sub a i);
    link = λ a i. same.link a (sub a i);
    current_worker = λ a i. same.current_worker a (sub a i);
  }

  Gone-Agree : {h t : Heap Y X} {F : Frames} (p : Ptr) → Gone h p F → Agree h t F → Gone t p F
  Gone-Agree p (inl e) same = inl e
  Gone-Agree p (inr (ne, lives, ends, inside)) same =
      inr (ne, same.alive p inside ∙ lives, same.done p inside ∙ ends, inside)

-- What stands for the items is the frames, and nothing else.
mutual
  pub Items-Agree :
      {Y X : Type 0} {h t : Heap Y X} {b : Script Y X} {xs : List (Item Y X)} {n : ℕ} {F : Frames}
      → Items h b xs n F
      → Agree h t F
      → Items t b xs n F
  Items-Agree at_end same = at_end
  Items-Agree fails same = fails
  Items-Agree (gives i) same = gives (Items-Agree i same)
  Items-Agree (departs {p} g i out sub lt) same =
      departs (Gone-Agree p g same) (Items-Agree i (Agree-Sub same sub)) out sub lt
  Items-Agree (skips {p} g i out sub lt) same =
      skips (Gone-Agree p g same) (Items-Agree i (Agree-Sub same sub)) out sub lt
  Items-Agree (enters {p} ne lives unfinished inside worker v i apart sub sub' lt e) same =
      enters ne (same.alive p (sub p inside) ∙ lives) (same.done p (sub p inside) ∙ unfinished)
        inside (same.current_worker p (sub p inside) ∙ worker)
        (Working-Agree v (Agree-Sub same sub)) (Items-Agree i (Agree-Sub same sub')) apart sub sub'
        lt e

  pub Working-Agree :
      {Y X : Type 0} {h t : Heap Y X} {w p : Ptr} {xs : List (Item Y X)} {n : ℕ} {F : Frames}
      → Working h w p xs n F
      → Agree h t F
      → Working t w p xs n F
  Working-Agree (works {w} ne lives unfinished at i r inside outG outH apart sub sub' lt e) same =
      works ne (same.alive w inside ∙ lives) (same.done w inside ∙ unfinished)
        (same.body w inside ∙ at) (Items-Agree i (Agree-Sub same sub))
        (Rest-Agree r (same.link w inside) (Agree-Sub same sub')) inside outG outH apart sub sub' lt
        e

  pub Rest-Agree :
      {Y X : Type 0} {h t : Heap Y X} {w p : Ptr} {xs : List (Item Y X)} {n : ℕ} {F : Frames}
      → Rest h w p xs n F
      → t.link w ≡ h.link w
      → Agree h t F
      → Rest t w p xs n F
  Rest-Agree (at_top e) l same = at_top e
  Rest-Agree (owned {o} ne link real lives unfinished at i r inside outG outH apart sub sub' lt e) l
        same =
      owned ne (l ∙ link) real (same.alive o inside ∙ lives) (same.done o inside ∙ unfinished)
        (same.body o inside ∙ at) (Items-Agree i (Agree-Sub same sub))
        (Rest-Agree r (same.link o inside) (Agree-Sub same sub')) inside outG outH apart sub sub' lt
        e

module _ {Y X : Type 0} where
  -- A bound may be raised, and further frames may be added.
  pub Rest-weaken :
      {h : Heap Y X} {w p : Ptr} {xs : List (Item Y X)} {n m : ℕ} {F G : Frames}
      → Rest h w p xs n F
      → Sub F G
      → n ≤ m
      → Rest h w p xs m G
  Rest-weaken (at_top e) more le = at_top e
  Rest-weaken (owned {o} ne link real lives unfinished at i r inside outG outH apart sub sub' lt e)
        more le =
      owned ne link real lives unfinished at i r (more o inside) outG outH apart
        (λ a j. more a (sub a j)) (λ a j. more a (sub' a j)) (omega arith) e

  pub Working-weaken :
      {h : Heap Y X} {w p : Ptr} {xs : List (Item Y X)} {n m : ℕ} {F G : Frames}
      → Working h w p xs n F
      → Sub F G
      → n ≤ m
      → Working h w p xs m G
  Working-weaken (works {w} ne lives unfinished at i r inside outG outH apart sub sub' lt e) more
        le =
      works ne lives unfinished at i r (more w inside) outG outH apart (λ a j. more a (sub a j))
        (λ a j. more a (sub' a j)) (omega arith) e
