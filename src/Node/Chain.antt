-- ===== src/Node/Chain.antt =====
-- Linked lists of nodes in a store: from `p` the `next` pointers lead through the listed nodes,
-- all live and different, to nullptr.
use kelcoro.Base.{
  ℕ, ◌≡◌, refl, ◌∙◌, true, false, Option, none, some, List, [], ◌∷◌, ◌++◌, arith, has, has-append,
  Disjoint,
}
pub use kelcoro.Memory.Live.{Live, not_null, read-live, Live-put}
use kelcoro.Node.{
  Ptr, null, TaskNode, Handle, ScheduleErrc, Store, put, done, set_next, set_task, set_status,
}

pub data Chain (s : Store) : Ptr → List Ptr → Type 0 where
  nil : Chain s null []
  cons :
      {p : Ptr} {n : TaskNode} {ps : List Ptr}
      → Live s p n
      → has p ps ≡ false
      → Chain s n.next ps
      → Chain s p (p ∷ ps)

module _ {s : Store} {p : Ptr} {n : TaskNode} (v : Live s p n) where
  pub set_next-live : (q : Ptr) → set_next p q s ≡ done tt (put s p (some (record n { next = q })))
  unfolding set_next
  set_next-live q = rw (read-live v)

  pub set_task-live :
      (h : Handle) → set_task p h s ≡ done tt (put s p (some (record n { task = h })))
  unfolding set_task
  set_task-live h = rw (read-live v)

  pub set_status-live :
      (e : ScheduleErrc) → set_status p e s ≡ done tt (put s p (some (record n { status = e })))
  unfolding set_status
  set_status-live e = rw (read-live v)

-- A chain survives any change that spares its own nodes.
pub frame :
    {s t : Store} {p : Ptr} {ps : List Ptr}
    → Chain s p ps
    → ((a : Ptr) → has a ps ≡ true → t a ≡ s a)
    → Chain t p ps
frame nil same = nil
frame (cons {p} v out c) same =
    cons (record { ne_null = v.ne_null; holds = same p (ground arith) ∙ v.holds }) out
      (frame c λ a i. same a (ground arith))

pub frame-put :
    {s : Store} {p : Ptr} {ps : List Ptr} (a : Ptr) (c : Option TaskNode)
    → Chain s p ps
    → has a ps ≡ false
    → Chain (put s a c) p ps
unfolding put
frame-put a c ch out = frame ch (ground arith)

pub nil_of_null : {s : Store} {p : Ptr} {ps : List Ptr} → Chain s p ps → p ≡ null → ps ≡ []
nil_of_null nil e = refl
nil_of_null (cons v out c) e = absurd (v.ne_null e)

pub null_of_nil : {s : Store} {p : Ptr} → Chain s p [] → p ≡ null
null_of_nil nil = refl

-- The last node of a list that is not empty.
abbrev pub Last : List Ptr → Ptr → Type 0
Last [] l = ⊥
Last (x ∷ []) l = x ≡ l
Last (x ∷ y ∷ ys) l = Last (y ∷ ys) l

pub has-Last : (xs : List Ptr) (l : Ptr) → Last xs l → has l xs ≡ true
has-Last [] l h = absurd h
has-Last (x ∷ []) l h = ground arith
has-Last (x ∷ y ∷ ys) l h = ground (arith, has-Last (y ∷ ys) l h)

pub Last-append :
    (xs : List Ptr) (y : Ptr) (ys : List Ptr) (l : Ptr) → Last (y ∷ ys) l → Last (xs ++ y ∷ ys) l
Last-append [] y ys l h = h
Last-append (x ∷ []) y ys l h = h
Last-append (x ∷ z ∷ zs) y ys l h = Last-append (z ∷ zs) y ys l h

-- The part of a node that the lists do not use: who is to run, and with what status.
abbrev pub cargo : Option TaskNode → Option (Handle × ScheduleErrc)
cargo none = none
cargo (some n) = some (n.task, n.status)

abbrev pub SameCargo : Store → Store → Type 0
SameCargo s t = (a : Ptr) → cargo (t a) ≡ cargo (s a)

-- `t` differs from `s` at most at the nodes of `ps`.
abbrev pub SameOutside : List Ptr → Store → Store → Type 0
SameOutside ps s t = (a : Ptr) → has a ps ≡ false → t a ≡ s a

pub SameCargo-put_next :
    {s : Store} {p : Ptr} {n : TaskNode} (q : Ptr)
    → Live s p n
    → SameCargo s (put s p (some (record n { next = q })))
unfolding put
SameCargo-put_next {p} q v a = let h = v.holds in ground arith

pub put-SameOutside :
    (s : Store) (p : Ptr) (c : Option TaskNode) (ps : List Ptr)
    → has p ps ≡ true
    → SameOutside ps s (put s p c)
unfolding put
put-SameOutside s p c ps i a o = ground arith

pub SameOutside-trans :
    {s t u : Store} (xs ys zs : List Ptr)
    → SameOutside xs s t
    → SameOutside ys t u
    → ((a : Ptr) → has a zs ≡ false → (has a xs ≡ false) × (has a ys ≡ false))
    → SameOutside zs s u
SameOutside-trans xs ys zs f g sub a o = g a (sub a o).1 ∙ f a (sub a o).0

pub Disjoint-out : (a : ℕ) (xs ys : List ℕ) → Disjoint ys xs → has a xs ≡ true → has a ys ≡ false
Disjoint-out a xs ys apart i = ground (arith, apart a)

-- Redirecting the last node of `xs` joins it to the chain `ys`.
pub relink :
    {s : Store} {p : Ptr} (f l : Ptr) {m : TaskNode} {xs : List Ptr} (ys : List Ptr)
    → Chain s p xs
    → Last xs l
    → Live s l m
    → Chain s f ys
    → Disjoint ys xs
    → Chain (put s l (some (record m { next = f }))) p (xs ++ ys)
unfolding put
relink f l ys nil e v d apart = absurd e
relink f l {m} ys (cons {p} v0 out nil) e v d apart =
    cons {n = record m { next = f }} (record { ne_null = v0.ne_null; holds = ground arith })
      (Disjoint-out p (p ∷ []) ys apart (ground arith))
      (frame-put l _ d (Disjoint-out l (p ∷ []) ys apart (ground arith)))
relink f l {m} ys (cons {p} {n} v0 out (cons {ps} v1 out1 c)) e v d apart =
    let inside : has l (n.next ∷ ps) ≡ true = has-Last (n.next ∷ ps) l e in
    cons {n = n} (record { ne_null = v0.ne_null; holds = ground (arith, v0.holds) })
      (ground (
        arith,
        has-append p (n.next ∷ ps) ys,
        Disjoint-out p (p ∷ n.next ∷ ps) ys apart (ground arith),
      ))
      (relink f l ys (cons v1 out1 c) e v d (λ a i. ground (arith, apart a i)))
