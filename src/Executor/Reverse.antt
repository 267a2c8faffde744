-- ===== src/Executor/Reverse.antt =====
-- include/kelcoro/executor_interface.hpp, `reverse_list`.
use mathlib.Core.List
use mathlib.Core.List.{reverse_aux}
use kelcoro.Base.{
  ℕ, zero, suc, ◌<◌, ◌∙◌, refl, ◌≡◌, false, List, [], ◌∷◌, arith, has, Disjoint, length,
}
use kelcoro.Node.{Ptr, TaskNode, Store}
use kelcoro.Node.Chain.{
  Chain, nil, cons, not_null, read-live, set_next-live, Live-put, frame-put, put-SameOutside,
  SameOutside, SameOutside-trans, SameCargo, SameCargo-put_next,
}
use kelcoro.Memory.Returns
use kelcoro.Memory.Returns.{Returns, returns}
use kelcoro.Executor.{reverse_loop, reverse_list}

-- `prev` heads what has been turned round, `top` what is left.
reverse_loop-Chain :
    (k : ℕ) {s : Store} {prev top : Ptr} {ps done : List Ptr}
    → Chain s top ps
    → Chain s prev done
    → Disjoint ps done
    → length ps < k
    → Returns
        (λ p t. Chain t p (reverse_aux ps done) × SameCargo s t × SameOutside ps s t)
        (reverse_loop k prev top s)
unfolding reverse_loop
reverse_loop-Chain zero c d apart fuel = absurd (omega arith)
reverse_loop-Chain (suc k) nil d apart fuel = returns (d, λ a. refl, λ a o. refl)
reverse_loop-Chain (suc k) {s} {prev} {done} (cons {p} {n} {ps} v out c) d apart fuel =
    let turned : TaskNode = record n { next = prev } in
    let new : has p done ≡ false = apart p (ground arith) in
    rw (not_null v, read-live v, set_next-live v prev)
      (Returns.weaken
        (reverse_loop-Chain k (frame-put p _ c out)
          (cons {n = turned} (Live-put v turned) new (frame-put p _ d new))
          (λ a i. ground (arith, apart a)) (omega arith))
        λ q t (chain, cargo, same). (
          chain,
          λ a. cargo a ∙ SameCargo-put_next prev v a,
          SameOutside-trans (p ∷ []) ps (p ∷ ps) (put-SameOutside s p _ (p ∷ []) (ground arith))
              same (λ a o. (ground arith, ground arith)),
        ))

-- `reverse_list` on a chain returns the head of a chain of the same nodes in reverse order, with
-- their tasks and statuses, and writes nothing else. There is more fuel than nodes.
reverse_list-reverse :
    {s : Store} (fuel : ℕ) {top : Ptr} {ps : List Ptr}
    → Chain s top ps
    → length ps < fuel
    → Returns
        (λ p t. Chain t p (List.reverse ps) × SameCargo s t × SameOutside ps s t)
        (reverse_list fuel top s)
unfolding reverse_list
reverse_list-reverse fuel c h = reverse_loop-Chain fuel c nil (λ a i. refl) h
