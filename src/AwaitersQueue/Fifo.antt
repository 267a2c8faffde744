-- ===== src/AwaitersQueue/Fifo.antt =====
-- include/kelcoro/road.hpp, `awaiters_queue`: its operations on the list that it stands for.
use kelcoro.Base.{
  ℕ, zero, suc, ◌≡◌, refl, ap, ◌∙◌, ◌≤◌, false, List, [], ◌∷◌, ◌++◌, arith, ◌==◌, has, Disjoint,
  length,
}
use mathlib.Core.List.{append-nil}
use kelcoro.Node.{Ptr, null, TaskNode, Store, done}
use kelcoro.Node.Chain.{
  Live, Chain, nil, cons, not_null, read-live, set_next-live, Live-put, frame-put, put-SameOutside,
  SameOutside-trans, Last, has-Last, Last-append, SameCargo, SameOutside, SameCargo-put_next,
  relink, null_of_nil,
}
use kelcoro.Memory.Returns
use kelcoro.Memory.Returns.{Returns, returns}
use kelcoro.AwaitersQueue.{AwaitersQueue, push_list, push, find_last, push_list_top, pop_all}

-- `last` is the last node, unless there is none.
abbrev pub EndsAt : List Ptr → Ptr → Type 0
EndsAt [] l = Unit
EndsAt (x ∷ xs) l = Last (x ∷ xs) l

-- The queue holds the nodes `xs`, oldest first.
pub record IsQueue (s : Store) (q : AwaitersQueue) (xs : List Ptr) : Type 0 where
  pub chain : Chain s q.first xs
  pub ends : EndsAt xs q.last

-- What a push of the chain `ys` leaves: the queue with `ys` behind `xs`, every task and status
-- as it was, and the nodes of neither list untouched.
pub record Pushed (s : Store) (xs ys : List Ptr) (q : AwaitersQueue) (t : Store) : Type 0 where
  pub is : IsQueue t q (xs ++ ys)
  pub cargo : SameCargo s t
  pub same : SameOutside xs s t

Live-Last :
    {s : Store} {p : Ptr} {xs : List Ptr} (l : Ptr)
    → Chain s p xs
    → Last xs l
    → (n : TaskNode) × Live s l n
Live-Last l nil e = absurd e
Live-Last {s} l (cons {n} v out nil) e = (n, rw (← e) v)
Live-Last l (cons v out (cons v1 out1 c)) e = Live-Last l (cons v1 out1 c) e

Chain-not_null_of_cons :
    {s : Store} {p y : Ptr} {ys : List Ptr} → Chain s p (y ∷ ys) → (p == null) ≡ false
Chain-not_null_of_cons (cons v out c) = not_null v

Last-not_null :
    {s : Store} {p : Ptr} {xs : List Ptr} (l : Ptr) → Chain s p xs → Last xs l → (l == null) ≡ false
Last-not_null l c e = not_null (Live-Last l c e).1

module _ {s : Store} (f l y : Ptr) (ys : List Ptr) (c : Chain s f (y ∷ ys))
    (e : Last (y ∷ ys) l) where
  push_list-ends :
      {first : Ptr} (last : Ptr) {xs : List Ptr}
      → Chain s first xs
      → EndsAt xs last
      → Disjoint (y ∷ ys) xs
      → Returns (Pushed s xs (y ∷ ys)) (push_list (record { first = first; last = last }) f l s)
  unfolding push_list
  push_list-ends last nil ends apart =
      rw (Chain-not_null_of_cons c, Last-not_null l c e)
        (returns
          (record { is = record { chain = c; ends = e }; cargo = λ a. refl; same = λ a o. refl }))
  push_list-ends last (cons {p} {ps} v out d) ends apart =
      let (n, w) = Live-Last last (cons v out d) ends in
      rw (Chain-not_null_of_cons c, Last-not_null l c e, not_null v, set_next-live w f)
        (returns (record {
          is = record {
            chain = relink f last (y ∷ ys) (cons v out d) ends w c apart;
            ends = Last-append (p ∷ ps) y ys l e;
          };
          cargo = SameCargo-put_next f w;
          same = put-SameOutside s last _ (p ∷ ps) (has-Last (p ∷ ps) last ends);
        }))

  -- `push_list` puts the whole chain behind what is queued.
  pub push_list-Pushed :
      (q : AwaitersQueue) (xs : List Ptr)
      → IsQueue s q xs
      → Disjoint (y ∷ ys) xs
      → Returns (Pushed s xs (y ∷ ys)) (push_list q f l s)
  push_list-Pushed q xs is = push_list-ends q.last is.chain is.ends

-- `push` of a live node that is not in the queue puts it at the end; tasks and statuses are as
-- they were, and only nodes of the queue and the new one are written.
pub push-IsQueue :
    {s : Store} (q : AwaitersQueue) (xs : List Ptr) (node : Ptr) {n : TaskNode}
    → IsQueue s q xs
    → Live s node n
    → has node xs ≡ false
    → Returns
        (λ q' t. IsQueue t q' (xs ++ node ∷ []) × SameCargo s t × SameOutside (node ∷ xs) s t)
        (push q node s)
unfolding push
push-IsQueue {s} q xs node {n} is v new =
    let alone : TaskNode = record n { next = null } in
    rw (set_next-live v null) (
      Returns.weaken
        (push_list-Pushed node node node [] (cons {n = alone} (Live-put v alone) refl nil) refl q xs
          (record { chain = frame-put node _ is.chain new; ends = is.ends }) (λ a i. ground arith))
        λ q' t h. (
          h.is,
          λ a. h.cargo a ∙ SameCargo-put_next null v a,
          SameOutside-trans (node ∷ []) xs (node ∷ xs)
              (put-SameOutside s node _ (node ∷ []) (ground arith)) h.same
              (λ a o. (ground arith, ground arith)),
        ))

-- The walk finds the last node when the fuel is the length of the list.
pub find_last-Last :
    {s : Store} (k : ℕ) {p : Ptr} {xs : List Ptr} (l : Ptr)
    → Chain s p xs
    → Last xs l
    → length xs ≤ k
    → find_last k p s ≡ done l s
unfolding find_last
find_last-Last k l nil e h = absurd e
find_last-Last zero l (cons v out c) e h = absurd (omega arith)
find_last-Last {s} (suc k) l (cons v out nil) e h = rw (read-live v) (ap (λ a. done a s) e)
find_last-Last (suc k) l (cons v out (cons v1 out1 c)) e h =
    rw (read-live v, not_null v1) (find_last-Last k l (cons v1 out1 c) e (omega arith))

-- The overload of `push_list` that is given the top alone puts the whole chain, empty or not, in
-- order behind what is queued, if no node of it is queued; tasks, statuses and the nodes of
-- neither list are as they were. As much fuel as nodes is enough.
push_list_top-Pushed :
    (fuel : ℕ) {s : Store} (q : AwaitersQueue) (xs ys : List Ptr) (f l : Ptr)
    → IsQueue s q xs
    → Chain s f ys
    → EndsAt ys l
    → Disjoint ys xs
    → length ys ≤ fuel
    → Returns (Pushed s xs ys) (push_list_top fuel q f s)
unfolding push_list_top
push_list_top-Pushed fuel q xs [] f l is c e apart h =
    rw (null_of_nil c)
      (returns (record { is = rw append-nil is; cargo = λ a. refl; same = λ a o. refl }))
push_list_top-Pushed fuel q xs (y ∷ ys) f l is c e apart h =
    rw (Chain-not_null_of_cons c, find_last-Last fuel l c e h)
      (push_list-Pushed f l y ys c e q xs is apart)

-- `pop_all` hands over the whole chain in order, and leaves the queue empty.
pub pop_all-IsQueue :
    {s : Store} (q : AwaitersQueue) (xs : List Ptr)
    → IsQueue s q xs
    → Chain s (pop_all q).0 xs × IsQueue s (pop_all q).1 []
unfolding pop_all
pop_all-IsQueue q xs is = (is.chain, record { chain = nil; ends = tt })
