-- ===== src/LockfreeStack/Interleaved.antt =====
-- include/kelcoro/nonowner_lockfree_stack.hpp: the invariant of the stack under the steps of any
-- threads.
use kelcoro.Base.{
  ap, ◌≡◌, ◌≢◌, refl, sym, ◌⊎◌, inl, inr, Bool, false, not, ◌&&◌, Bool-cases, List, [], ◌∷◌, ◌++◌,
  arith, ◌==◌, has, some,
}
use kelcoro.Node.{Ptr, null, TaskNode, Store, put}
use kelcoro.Node.Chain.{Live, Chain, nil, cons, not_null, read-live, set_next-live, frame-put}
use kelcoro.Memory.Returns.{Returns, returns}
use kelcoro.LockfreeStack.{Event, loads, tries, pops, closes, History, step}

module _ (closed_marker : Ptr) where
  -- The nodes of the stack, newest first, from its top on; a closed stack has none.
  pub data IsStack (s : Store) : Ptr → List Ptr → Type 0 where
    open_stack :
        {top : Ptr} {xs : List Ptr} → top ≢ closed_marker → Chain s top xs → IsStack s top xs
    closed_stack : IsStack s closed_marker []

  frame-IsStack :
      {s : Store} {top : Ptr} {xs : List Ptr} (p : Ptr) (n : TaskNode)
      → IsStack s top xs
      → has p xs ≡ false
      → IsStack (put s p (some n)) top xs
  frame-IsStack p n (open_stack ne c) out = open_stack ne (frame-put p _ c out)
  frame-IsStack p n closed_stack out = closed_stack

  open_Chain :
      {s : Store} {top : Ptr} {xs : List Ptr}
      → IsStack s top xs
      → top ≢ closed_marker
      → Chain s top xs
  open_Chain (open_stack ne c) h = c
  open_Chain closed_stack h = absurd (h refl)

  closed_empty :
      {s : Store} {top : Ptr} {xs : List Ptr} → IsStack s top xs → top ≡ closed_marker → xs ≡ []
  closed_empty (open_stack ne c) h = absurd (ne h)
  closed_empty closed_stack h = refl

  -- A stack with its history: what has been popped are lists, which with the stack are all pushes.
  pub record IsHistory (s : Store) (h : History closed_marker) (xs : List Ptr) (popped : List Ptr)
      : Type 0 where
    pub stack : IsStack s h.top xs
    pub account : xs ++ popped ≡ h.pushes

  -- A thread loads and pushes a node of its own that is not in the stack; who pops knows that the
  -- stack is not closed.
  abbrev pub Allowed : Store → Ptr → List Ptr → Event closed_marker → Type 0
  Allowed s top xs (loads p) = (n : TaskNode) × Live s p n × (has p xs ≡ false)
  Allowed s top xs (tries b p) =
      (n : TaskNode) × Live s p n × (has p xs ≡ false) × (p ≢ closed_marker)
  Allowed s top xs pops = top ≢ closed_marker
  Allowed s top xs closes = Unit

  -- A step pops nothing, or it hands over the whole chain and leaves the stack empty.
  abbrev pub Handed :
      Store
      → History closed_marker
      → History closed_marker
      → List Ptr
      → List Ptr
      → List Ptr
      → Type 0
  Handed t h h' ys popped popped' =
      ((h'.pops ≡ h.pops) × (popped' ≡ popped))
      ⊎ ((top : Ptr) × (zs : List Ptr) × (h'.pops ≡ top ∷ h.pops)
          × (popped' ≡ zs ++ popped)
          × Chain t top zs
          × (ys ≡ []))

  pub record Stepped (h : History closed_marker) (popped : List Ptr) (h' : History closed_marker)
      (t : Store) : Type 0 where
    pub ys : List Ptr
    pub popped' : List Ptr
    pub is : IsHistory t h' ys popped'
    pub handed : Handed t h h' ys popped popped'

  module _ (h : History closed_marker) {s : Store} (xs popped : List Ptr)
      (is : IsHistory s h xs popped) where
    -- A write to a node outside the stack.
    written : (p : Ptr) (n : TaskNode) → has p xs ≡ false → Stepped h popped h (put s p (some n))
    written p n out = record {
      ys = xs;
      popped' = popped;
      is = record { stack = frame-IsStack p n is.stack out; account = is.account };
      handed = inl (refl, refl);
    }

    popping :
        (t top : Ptr)
        → Chain s t xs
        → IsStack s top []
        → Stepped h popped (record h { top = top; pops = t ∷ h.pops }) s
    popping t top c st' = record {
      ys = [];
      popped' = xs ++ popped;
      is = record { stack = st'; account = is.account };
      handed = inr (t, xs, refl, refl, c, refl);
    }

    pushes :
        (p : Ptr) (n : TaskNode)
        → Live s p n
        → has p xs ≡ false
        → p ≢ closed_marker
        → n.next ≡ h.top
        → h.top ≢ closed_marker
        → Stepped h popped (record h { top = p; pushes = p ∷ h.pushes }) s
    pushes p n v out ne e open_top = record {
      ys = p ∷ xs;
      popped' = popped;
      is = record {
        stack = open_stack ne (cons {n = n} v out (rw e (open_Chain is.stack open_top)));
        account = ap (λ a. p ∷ a) is.account;
      };
      handed = inl (refl, refl);
    }

    loads-Stepped :
        (p : Ptr)
        → Allowed s h.top xs (loads p)
        → Returns (Stepped h popped) (step closed_marker (loads p) h s)
    unfolding step
    loads-Stepped p (n, v, out) =
        rw (not_null v, set_next-live v h.top) (returns (written p (record n { next = h.top }) out))

    tries-Stepped :
        (b : Bool) (p : Ptr)
        → Allowed s h.top xs (tries b p)
        → Returns (Stepped h popped) (step closed_marker (tries b p) h s)
    unfolding step
    tries-Stepped b p (n, v, out, ne) =
        rw (read-live v) (elim (Bool-cases (n.next == closed_marker)) [
          | inl refuses ↦
              rw refuses
                (returns (record { ys = xs; popped' = popped; is = is; handed = inl (refl, refl) }))
          | inr open_next ↦ elim (Bool-cases (not b && h.top == n.next)) [
            | inl wins ↦
                rw (open_next, read-live v, wins)
                  (returns (pushes p n v out ne (ground arith) (ground arith)))
            | inr loses ↦
                rw (open_next, read-live v, loses, set_next-live v h.top)
                  (returns (written p (record n { next = h.top }) out))
          ]
        ])

  -- Each step of any thread on the lock-free stack (a load, a compare-exchange that may fail, a
  -- pop of all, a close) returns and keeps this: the nodes of the stack, newest first, followed by
  -- those of the popped lists, are the nodes pushed so far, newest first; and a pop or close hands
  -- over the whole chain and leaves the stack empty. The node of a load or exchange is live, not
  -- in the stack and not the marker, and `try_pop_all` finds the stack open; the marker is not
  -- null.
  pub step-Stepped :
      closed_marker ≢ null
      → (e : Event closed_marker) (h : History closed_marker) {s : Store} (xs popped : List Ptr)
      → IsHistory s h xs popped
      → Allowed s h.top xs e
      → Returns (Stepped h popped) (step closed_marker e h s)
  unfolding step
  step-Stepped real (loads p) h xs popped is ok = loads-Stepped h xs popped is p ok
  step-Stepped real (tries b p) h xs popped is ok = tries-Stepped h xs popped is b p ok
  step-Stepped real pops h xs popped is ok = returns (
      popping h xs popped is h.top null (open_Chain is.stack ok)
        (open_stack (λ e. real (sym e)) nil))
  step-Stepped real closes h xs popped is ok = elim (Bool-cases (h.top == closed_marker)) [
    | inl shut ↦
        let none_left = closed_empty is.stack (ground arith) in
        rw shut
          (returns (popping h xs popped is null closed_marker (rw none_left nil) closed_stack))
    | inr open_top ↦ rw open_top (
        returns (
          popping h xs popped is h.top closed_marker (open_Chain is.stack (ground arith))
            closed_stack))
  ]
