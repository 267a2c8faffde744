-- ===== src/Executor/AttachList.antt =====
-- include/kelcoro/executor_interface.hpp, `attach_list`, for any executor and for an
-- `awaiters_queue`.
use kelcoro.Base.{
  ℕ, zero, suc, ◌<◌, ◌∙◌, refl, ◌≡◌, ◌≢◌, true, false, List, [], ◌∷◌, ◌++◌, arith, ◌==◌, has,
  Disjoint, length, has-append, subst, subst₂, ap, Option, none, some,
}
use mathlib.Core.List.{append-nil, append_assoc}
use kelcoro.Node.{Ptr, null, Handle, ScheduleErrc, TaskNode, Store, done, Cmd, pure, ◌>>=◌}
use kelcoro.Node.Chain.{
  Live, Chain, nil, cons, frame, not_null, read-live, SameOutside, SameCargo, cargo,
}
use kelcoro.Memory.Returns
use kelcoro.Memory.Returns.{Returns, returns}
use kelcoro.Executor.{attach_list}
use kelcoro.AwaitersQueue.{AwaitersQueue}
use kelcoro.AwaitersQueue
use kelcoro.AwaitersQueue.Fifo.{IsQueue, push-IsQueue}

module _ {E : Type 0} (attach : E → Ptr → Cmd E) where
  -- The specification: one `attach` for each node, in order.
  abbrev pub attach_each : List Ptr → E → Cmd E
  attach_each [] e = pure e
  attach_each (p ∷ ps) e = attach e p >>= attach_each ps

  -- While the nodes `ps` wait for their turn the executor keeps `I`, and leaves them alone. It may
  -- change or end the node that it was given, and all others.
  abbrev pub Spares : (E → List Ptr → Store → Type 0) → Type 0
  Spares I =
      (e : E) (p : Ptr) (ps : List Ptr) (s : Store) (e' : E) (t : Store)
      → I e (p ∷ ps) s
      → attach e p s ≡ done e' t
      → I e' ps t × ((a : Ptr) → has a ps ≡ true → t a ≡ s a)

  -- `attach_list` on a chain attaches each node once, in order, for any executor that leaves alone
  -- the nodes whose turn is still to come, even one that ends the life of each node it is given.
  -- There is more fuel than nodes.
  pub attach_list-each :
      (I : E → List Ptr → Store → Type 0)
      → Spares I
      → (fuel : ℕ) (e : E) {s : Store} {top : Ptr} {ps : List Ptr} → Chain s top ps
      → I e ps s
      → length ps < fuel
      → attach_list attach fuel e top s ≡ attach_each ps e s
  unfolding attach_list
  attach_list-each I spares zero e c i h = absurd (omega arith)
  attach_list-each I spares (suc k) e nil i h = refl
  attach_list-each I spares (suc k) e {s} (cons {p} {n} {ps} v out c) i h =
      rw (not_null v, read-live v)
        (Returns.continue-congr (attach e p s) _ _ λ e' t r.
          let (i', same) = spares e p ps s e' t i r in
          attach_list-each I spares k e' (frame c same) i' (omega arith))

module _ {E : Type 0} (attach : E → Ptr → Cmd E) (I : E → List Ptr → Store → Type 0) where
  -- What waits behind the nodes that are attached is as it was.
  pub attach_each-Spares :
      Spares attach I
      → (ps zs : List Ptr) (e e' : E) (s t : Store) → I e (ps ++ zs) s
      → attach_each attach ps e s ≡ done e' t
      → I e' zs t × ((a : Ptr) → has a zs ≡ true → t a ≡ s a)
  attach_each-Spares spares [] zs e e' s t i r = (
    subst₂ (λ a b. I a zs b) (cc) (cc) i,
    λ a h. let same : t ≡ s = cc in ap (λ (f : Store). f a) same,
  )
  attach_each-Spares spares (p ∷ ps) zs e e' s t i r =
      let (e1, s1, first, rest) =
        Returns.continue-eq-done (attach e p s) (attach_each attach ps) r in
      let (i1, same) = spares e p (ps ++ zs) s e1 s1 i first in
      let (i2, same2) = attach_each-Spares spares ps zs e1 e' s1 t i1 rest in
      (i2, λ a h. same2 a h ∙ same a (ground (arith, has-append a ps zs)))

-- There is a task to run: `attach` asserts it.
abbrev pub Ready : Option (Handle × ScheduleErrc) → Type 0
Ready none = ⊥
Ready (some (h, e)) = h ≢ null

abbrev pub AllReady : Store → List Ptr → Type 0
AllReady s ps = (a : Ptr) → has a ps ≡ true → Ready (cargo (s a))

pub Ready-Live :
    {s : Store} {p : Ptr} {n : TaskNode}
    → Live s p n
    → Ready (cargo (s p))
    → (n.task == null) ≡ false
Ready-Live {s} {p} {n} v r =
    let h : Ready (cargo (some n)) = subst (λ x. Ready (cargo x)) v.holds r in ground arith

attach-IsQueue :
    {s : Store} (q : AwaitersQueue) (xs : List Ptr) (node : Ptr) {n : TaskNode}
    → IsQueue s q xs
    → Live s node n
    → Ready (cargo (s node))
    → has node xs ≡ false
    → Returns
        (λ q' t. IsQueue t q' (xs ++ node ∷ []) × SameCargo s t × SameOutside (node ∷ xs) s t)
        (AwaitersQueue.attach q node s)
unfolding AwaitersQueue.attach
attach-IsQueue q xs node is v ready new =
    rw (read-live v, Ready-Live v ready) (push-IsQueue q xs node is v new)

-- A chain of nodes with tasks that is attached to an `awaiters_queue`, none of them queued before,
-- stands in its order behind what was queued, with the tasks and statuses as they were. There is
-- more fuel than nodes.
attach_list-IsQueue :
    (fuel : ℕ) {s : Store} (q : AwaitersQueue) (xs : List Ptr) {top : Ptr} {ys : List Ptr}
    → IsQueue s q xs
    → Chain s top ys
    → AllReady s ys
    → Disjoint ys xs
    → length ys < fuel
    → Returns
        (λ q' t. IsQueue t q' (xs ++ ys) × SameCargo s t)
        (attach_list AwaitersQueue.attach fuel q top s)
unfolding attach_list
attach_list-IsQueue zero q xs is c ready apart h = absurd (omega arith)
attach_list-IsQueue (suc k) q xs is nil ready apart h = returns (rw append-nil is, λ a. refl)
attach_list-IsQueue (suc k) q xs is (cons {p} {n} {ps} v out c) ready apart h =
    rw (not_null v, read-live v)
      (Returns.and_then
        (attach-IsQueue q xs p is v (ready p (ground arith)) (apart p (ground arith)))
        λ q' t (is', cargo, same).
          Returns.weaken
            (attach_list-IsQueue k q' (xs ++ p ∷ []) is'
              (frame c (λ a i. same a (ground (arith, apart a))))
              (λ a i. rw (cargo a) (ready a (ground arith)))
              (λ a i. ground (arith, has-append a xs (p ∷ []), apart a)) (omega arith))
            λ q'' u (is'', cargo'). (rw append_assoc at is'', λ a. cargo' a ∙ cargo a))
