-- ===== src/Leaves/Suspended.antt =====
-- include/kelcoro/noexport/generators_common.hpp, include/kelcoro/generator.hpp: what is to come when a
-- frame is resumed, and what came.
use kelcoro.Base.{
  Bool, ℕ, ◌≤◌, ◌≡◌, ◌≢◌, refl, ◌∙◌, sym, subst, inl, inr, true, false, ◌==◌, ne→==, Bool-cases,
  List, [], ◌∷◌, arith,
}
use kelcoro.Node.{Ptr, null}
use kelcoro.Leaves.{
  Script, Heap, Run, ok, ◌>>=◌, update-other, Stop, yielded, ended, threw, set_body,
}
use kelcoro.Leaves.Nested.{
  Items-Agree, Item, value, exception, Frames, Sub, Apart, Agree, Working, works, Working-Agree,
  Rest, Rest-weaken, Working-weaken,
}
use kelcoro.Leaves.Chained.{
  AgreeBut, AgreeBut-Sub, Agree-AgreeBut, Rest-out, Rest-AgreeBut, Rest-top, other, either,
}

-- A run that ends, with a result of `P`.
pub data Comes {A : Type 0} (P : A → Type 0) : Run A → Type 0 where
  comes : {a : A} → P a → Comes P (ok a)

pub Comes-bind :
    {A B : Type 0} {P : A → Type 0} {Q : B → Type 0} {m : Run A} {k : A → Run B}
    → Comes P m
    → ((a : A) → P a → Comes Q (k a))
    → Comes Q (m >>= k)
Comes-bind (comes {a} i) next = next a i

pub Comes-map :
    {A : Type 0} {P Q : A → Type 0} {m : Run A} → ((a : A) → P a → Q a) → Comes P m → Comes Q m
Comes-map f (comes {a} i) = comes (f a i)

pub single : Ptr → Frames
single w a = a == w

pub single-same : (w : Ptr) → single w w ≡ true
unfolding single
single-same w = ground arith

pub single-other : (w a : Ptr) → a ≢ w → single w a ≡ false
unfolding single
single-other w a ne = ne→== a w ne

single_eq : (w a : Ptr) → single w a ≡ true → a ≡ w
unfolding single
single_eq w a i = ground arith

pub with_single-Apart :
    (w : Ptr) {G H : Frames} → H w ≡ false → Apart G H → Apart (either (single w) G) H
with_single-Apart w {G} {H} out apart a i = elim (Bool-cases (single w a)) [
  | inl at ↦ subst (λ v. H v ≡ false) (sym (single_eq w a at)) out
  | inr away ↦ ground (arith, apart a)
]

pub with_single-Sub : (w : Ptr) {G F : Frames} → F w ≡ true → Sub G F → Sub (either (single w) G) F
with_single-Sub w {G} {F} inside sub a i = elim (Bool-cases (single w a)) [
  | inl at ↦ subst (λ v. F v ≡ true) (sym (single_eq w a at)) inside
  | inr away ↦ ground (arith, sub a)
]

module _ {Y X : Type 0} where
  -- What the frames do not hold is as it was.
  pub record Kept (h t : Heap Y X) (top : Ptr) : Type 0 where
    pub tops : t.top ≡ h.top
    pub results : t.current_result ≡ h.current_result
    pub handles : t.handle ≡ h.handle
    pub exceptions : t.exception ≡ h.exception
    pub consumer : t.link top ≡ h.link top

  -- The generator with the top `R` has the frames `F`, and `w` is resumed next.
  pub record Suspended (h : Heap Y X) (w R : Ptr) (xs : List (Item Y X)) (n : ℕ) (F : Frames)
      : Type 0 where
    pub root : h.root w ≡ R
    pub worker : h.current_worker R ≡ w
    pub working : Working h w R xs n F

  Suspended-weaken :
      {h : Heap Y X} {w R : Ptr} {xs : List (Item Y X)} {n m : ℕ} {F : Frames}
      → Suspended h w R xs n F
      → n ≤ m
      → Suspended h w R xs m F
  Suspended-weaken s le = record {
    root = s.root;
    worker = s.worker;
    working = Working-weaken s.working (λ a i. i) le;
  }

  -- What the consumer gets, for the items that were to come, and the heap that is left.
  pub data After (h : Heap Y X) (R : Ptr) (n : ℕ) (F : Frames)
      : List (Item Y X) → Stop Y X × Heap Y X → Type 0 where
    after_value :
        {y : Y} {xs : List (Item Y X)} {w : Ptr} {t : Heap Y X}
        → Suspended t w R xs n F
        → Kept h t R
        → After h R n F (value y ∷ xs) (yielded y w, t)
    after_end :
        {t : Heap Y X}
        → t.alive R ≡ true
        → t.done R ≡ true
        → t.root R ≡ R
        → Kept h t R
        → After h R n F [] (ended R, t)
    after_exception :
        {x : X} {xs : List (Item Y X)} {w : Ptr} {t : Heap Y X} {H : Frames}
        → w ≢ null
        → t.root w ≡ R
        → t.alive w ≡ true
        → Rest t w R xs n H
        → F w ≡ true
        → H w ≡ false
        → Sub H F
        → Kept h t R
        → After h R n F (exception x ∷ xs) (threw x w, t)

  pub Kept-refl : (h : Heap Y X) (R : Ptr) → Kept h h R
  Kept-refl h R = record {
    tops = refl;
    results = refl;
    handles = refl;
    exceptions = refl;
    consumer = refl;
  }

  -- Only frames are changed.
  pub Kept-frames :
      {h : Heap Y X} {alive done : Ptr → Bool} {body : Ptr → Script Y X} {root worker : Ptr → Ptr}
      {R : Ptr}
      → Kept h
          (record h {
            alive = alive;
            done = done;
            body = body;
            root = root;
            current_worker = worker;
          })
          R
  Kept-frames = record {
    tops = refl;
    results = refl;
    handles = refl;
    exceptions = refl;
    consumer = refl;
  }

  pub Kept-trans : {h t u : Heap Y X} {R : Ptr} → Kept h t R → Kept t u R → Kept h u R
  Kept-trans i j = record {
    tops = j.tops ∙ i.tops;
    results = j.results ∙ i.results;
    handles = j.handles ∙ i.handles;
    exceptions = j.exceptions ∙ i.exceptions;
    consumer = j.consumer ∙ i.consumer;
  }

  pub After-Kept :
      {h t : Heap Y X} {R : Ptr} {n m : ℕ} {F : Frames} {xs : List (Item Y X)}
      {r : Stop Y X × Heap Y X}
      → Kept h t R
      → m ≤ n
      → After t R m F xs r
      → After h R n F xs r
  After-Kept kept le (after_value s more) =
      after_value (Suspended-weaken s le) (Kept-trans kept more)
  After-Kept kept le (after_end lives ends top more) =
      after_end lives ends top (Kept-trans kept more)
  After-Kept kept le (after_exception real root lives r inside out sub more) =
      after_exception real root lives (Rest-weaken r (λ a i. i) le) inside out sub
        (Kept-trans kept more)

  pub Agree-set_body :
      (w : Ptr) (b : Script Y X) (h : Heap Y X) (F : Frames)
      → F w ≡ false
      → Agree h (set_body w b h) F
  Agree-set_body w b h F out = record {
    alive = λ a i. refl;
    done = λ a i. refl;
    body = λ a i. update-other h.body w b a (other w a F out i);
    link = λ a i. refl;
    current_worker = λ a i. refl;
  }

  -- The top of a generator that is not at its end.
  pub Suspended-top :
      {h : Heap Y X} {w R : Ptr} {xs : List (Item Y X)} {n : ℕ} {F : Frames}
      → Suspended h w R xs n F
      → (R ≢ null) × (h.alive R ≡ true) × (h.done R ≡ false) × (F R ≡ true)
  Suspended-top {h} {R} {F} s = elim s.working [
    | works {w} real lives unfinished at i r inside out out' apart sub sub' le e ↦
        elim (Rest-top r) [
          | inl same ↦ (
            subst (λ a. a ≢ null) same real,
            subst (λ a. h.alive a ≡ true) same lives,
            subst (λ a. h.done a ≡ false) same unfinished,
            subst (λ a. F a ≡ true) same inside,
          )
          | inr (ne, inside', real', lives', unfinished') ↦
              (real', lives', unfinished', sub' R inside')
        ]
  ]

  -- What is to come is told by the frames.
  pub Suspended-Agree :
      {h t : Heap Y X} {w R : Ptr} {xs : List (Item Y X)} {n : ℕ} {F : Frames}
      → Suspended h w R xs n F
      → t.root w ≡ h.root w
      → Agree h t F
      → Suspended t w R xs n F
  Suspended-Agree {R} s root same =
      let (real, lives, unfinished, inside) = Suspended-top s in
      record {
        root = root ∙ s.root;
        worker = same.current_worker R inside ∙ s.worker;
        working = Working-Agree s.working same;
      }

  -- The links of the top are no part of what is to come.
  pub Suspended-AgreeBut :
      {h t : Heap Y X} {w R : Ptr} {xs : List (Item Y X)} {n : ℕ} {F : Frames}
      → Suspended h w R xs n F
      → t.root w ≡ h.root w
      → t.current_worker R ≡ h.current_worker R
      → AgreeBut R h t F
      → Suspended t w R xs n F
  Suspended-AgreeBut {w} {R} s root worker same = elim s.working [
    | works real lives unfinished at i r inside out out' apart sub sub' le e ↦ record {
      root = root ∙ s.root;
      worker = worker ∙ s.worker;
      working =
          works real (same.alive w inside ∙ lives) (same.done w inside ∙ unfinished)
            (same.body w inside ∙ at)
            (Items-Agree i (Agree-AgreeBut R (AgreeBut-Sub same sub) (Rest-out r out apart)))
            (Rest-AgreeBut R r (same.link w inside) (AgreeBut-Sub same sub')) inside out out' apart
            sub sub' le e;
    }
  ]
