-- ===== src/Tests.antt =====
-- Concrete stores and queues on which the theorems about the executors are applied.
mod Queues
mod Gates
mod Workers
mod Stopping
mod Joins
mod Lifetimes
mod Notifications
mod Blocks
mod Chunks
mod Generators
mod FrameSizes
use kelcoro.Base.{
  ap, ℕ, true, false, ◌≡◌, refl, ◌++◌, Option, none, some, List, [], ◌∷◌, arith, has,
}
use kelcoro.Node.{Ptr, Handle, ScheduleErrc, TaskNode, Store, put, done, Cmd, pure, read}
use kelcoro.Node.Chain.{Live, Chain, nil, cons}
use kelcoro.AwaitersQueue.{AwaitersQueue}
use kelcoro.AwaitersQueue.Fifo.{IsQueue}
use kelcoro.Executor.{this_thread_attach}
use kelcoro.Executor.AttachList.{AllReady, Spares}

-- Every node stands once in the list.
abbrev pub Distinct : List Ptr → Type 0
Distinct [] = Unit
Distinct (p ∷ ps) = (has p ps ≡ false) × Distinct ps

abbrev pub node : Ptr → Handle → TaskNode
node next task = record { next = next; task = task; status = ScheduleErrc.ok }

-- Nodes 1 and 2 are linked, 3 and 4 are linked, 5 stands alone, 6 is a dead pill.
abbrev pub memory : Store
memory =
    put
      (put
        (put
          (put (put (put (λ _. none) 1 (some (node 2 11))) 2 (some (node 0 12))) 3
            (some (node 4 13)))
          4 (some (node 0 14)))
        5 (some (node 0 15)))
      6 (some (node 0 0))

pub node_5-Live : Live memory 5 (node 0 15)
unfolding put
node_5-Live = record { ne_null = ground arith; holds = refl }

pub node_6-Live : Live memory 6 (node 0 0)
unfolding put
node_6-Live = record { ne_null = ground arith; holds = refl }

pub pair_1 : Chain memory 1 (1 ∷ 2 ∷ [])
unfolding put
pair_1 =
    cons {n = node 2 11} (record { ne_null = ground arith; holds = refl }) refl
      (cons {n = node 0 12} (record { ne_null = ground arith; holds = refl }) refl nil)

pub pair_3 : Chain memory 3 (3 ∷ 4 ∷ [])
unfolding put
pair_3 =
    cons {n = node 4 13} (record { ne_null = ground arith; holds = refl }) refl
      (cons {n = node 0 14} (record { ne_null = ground arith; holds = refl }) refl nil)

pub pair_3-AllReady : AllReady memory (3 ∷ 4 ∷ [])
unfolding put
pair_3-AllReady a i = ground arith

abbrev pub queue_1 : AwaitersQueue
queue_1 = record { first = 1; last = 2 }

pub queue_1-IsQueue : IsQueue memory queue_1 (1 ∷ 2 ∷ [])
queue_1-IsQueue = record { chain = pair_1; ends = refl }

-- An executor that notes the coroutines it is to resume.
abbrev pub note : {X : Type 0} → List Handle × X → Handle → Cmd (List Handle × X)
note (log, x) h = pure (log ++ h ∷ [], x)

pub note-Spares :
    {X : Type 0} → Spares {E = List Handle × X} (this_thread_attach note) (λ _ _ _. Unit {0})
unfolding this_thread_attach read
note-Spares e p ps s e' t i r = (tt, λ a h. ap (λ (f : Store). f a) (unchanged r))
  where
    unchanged : this_thread_attach note e p s ≡ done e' t → t ≡ s
    unchanged r = ground arith
