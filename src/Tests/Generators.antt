-- ===== src/Tests/Generators.antt =====
-- A generator that yields a value and another generator, and then a value: the theorems about
-- generators are applied to it.
use kelcoro.Base.{if◌then◌else◌, ◌+◌, ℕ, false, ◌||◌, none, List, [], ◌∷◌, ◌≡◌, ◌==◌, refl, arith}
use kelcoro.Node.{Ptr, null}
use kelcoro.Leaves.Destroyed.{OnPath, clear-Died}
use kelcoro.Leaves.{leaves, clear, update, Script, returns, throws, yields, nests, Heap, ◌>>=◌}
use kelcoro.Leaves.Nested.{
  owned, Item, value, exception, Frames, at_end, fails, gives, enters, Working, works, at_top,
}
use kelcoro.Leaves.Suspended.{Suspended, Comes}
use kelcoro.Generator.{swap, reset, release, begin, for_each}
use kelcoro.Generator.Held.{Holds, holds_nothing, holds}
use kelcoro.Generator.Iteration.{Stepped, begin-Stepped}
use kelcoro.Generator.Loops.{Looped, for_each-Looped}
use kelcoro.Generator.Objects.{swap-Holds}
use kelcoro.Leaves.{to_generator}
use kelcoro.Channel
use kelcoro.Channel.Held
use kelcoro.Channel.Loops.{co_foreach-Looped}
use kelcoro.Channel.Swapped.{Elsewhere, swap-advance}
use kelcoro.Generator.Released.{Misdelivered, reset-begin}

abbrev leaf_body : Script ℕ ℕ
leaf_body = yields 6 (throws 9)

abbrev root_body : Script ℕ ℕ
root_body = yields 5 (nests 2 (yields 7 returns))

-- The frames 1 and 2 are the tops of the generators 20 and 21; the generator 22 has none.
abbrev heap : Heap ℕ ℕ
heap = record {
  alive = λ a. a == 1 || a == 2;
  done = λ a. false;
  body = λ a. if a == 1 then root_body else if a == 2 then leaf_body else returns;
  root = λ a. a;
  current_worker = λ a. a;
  link = λ a. a + 19;
  top = λ a. if a == 20 then 1 else if a == 21 then 2 else 0;
  current_result = λ a. none;
  handle = λ a. 0;
  exception = λ a. none;
}

abbrev no_frames : Frames
no_frames a = false

abbrev leaf_frames : Frames
leaf_frames a = a == 2

abbrev all_frames : Frames
all_frames a = a == 1 || a == 2

abbrev items : List (Item ℕ ℕ)
items = value 5 ∷ value 6 ∷ exception 9 ∷ value 7 ∷ []

leaf-Working : Working heap 2 2 (value 6 ∷ exception 9 ∷ []) 1 leaf_frames
leaf-Working =
    works (ground arith) refl refl refl (gives {n = 0} {F = no_frames} fails)
      (at_top {n = 0} {F = no_frames} refl) refl refl refl (λ a i. refl)
      (λ a i. absurd (ground arith)) (λ a i. absurd (ground arith)) (omega arith) refl

root-Suspended : Suspended heap 1 1 items 4 all_frames
root-Suspended = record {
  root = refl;
  worker = refl;
  working =
      works {G = leaf_frames} {H = no_frames} (ground arith) refl refl refl
        (gives {n = 3} (
          enters {m = 1} {k = 0} {G = leaf_frames} {H = no_frames} (ground arith) refl refl refl
            refl leaf-Working (gives at_end) (λ a i. refl) (λ a i. i) (λ a i. absurd (ground arith))
            (omega arith) refl))
        (at_top {n = 0} refl) refl refl refl (λ a i. refl) (λ a i. ground arith)
        (λ a i. absurd (ground arith)) (omega arith) refl;
}

root-Holds : Holds heap 20 items 4 all_frames
root-Holds = holds refl refl root-Suspended

begin-Stepped_example :
    Comes (λ (thrown, t). Stepped heap 20 items 4 all_frames thrown t) (begin 9 20 heap)
begin-Stepped_example = begin-Stepped 9 heap 20 items 4 all_frames (omega arith) root-Holds

for_each-Looped_example :
    Comes (λ (ys, thrown, t). Looped heap 20 items 4 all_frames ys thrown t) (for_each 9 9 20 heap)
for_each-Looped_example =
    for_each-Looped 9 9 heap 20 items 4 all_frames (omega arith) (omega arith) root-Holds

swap-Holds_example :
    Holds (swap 20 22 heap) 20 [] 0 no_frames × Holds (swap 20 22 heap) 22 items 4 all_frames
swap-Holds_example =
    swap-Holds heap 20 22 items [] 4 0 all_frames no_frames (ground arith) (λ a i. refl)
      (λ a i. absurd (ground arith)) root-Holds (holds_nothing refl refl)

reset-begin_example :
    Comes
      (Misdelivered 20 22 5)
      (reset 1 0 22 (release 20 heap).0 (release 20 heap).1 >>= begin 9 22)
reset-begin_example =
    reset-begin 0 0 9 heap 20 22 1 1 5 (value 6 ∷ exception 9 ∷ value 7 ∷ []) 4 all_frames
      (omega arith) (ground arith) refl refl root-Suspended refl refl

-- The frame 1 iterates a range.
abbrev range_heap : Heap ℕ ℕ
range_heap = record heap { body = λ a. to_generator (3 ∷ 4 ∷ []) }

-- The coroutine 77 iterates the channel 20.
co_foreach-Looped_example :
    Comes
      (λ (ys, thrown, t). Channel.Loops.Looped 20 items 4 all_frames ys thrown none t)
      (Channel.co_foreach 9 9 20 77 heap)
co_foreach-Looped_example =
    co_foreach-Looped 9 9 heap 20 77 items 4 all_frames (omega arith) (omega arith) refl
      (Channel.Held.holds refl root-Suspended)

swap-advance_example :
    Comes
      (Elsewhere (Channel.swap 22 20 heap) 22 20 5)
      (Channel.advance 9 22 (Channel.swap 22 20 heap))
swap-advance_example =
    swap-advance 9 heap 22 20 1 1 5 (value 6 ∷ exception 9 ∷ value 7 ∷ []) 4 all_frames
      (omega arith) (ground arith) refl refl root-Suspended

-- The generator 20 is suspended in the leaf 2.
abbrev nested_heap : Heap ℕ ℕ
nested_heap = record heap {
  body = λ a. if a == 1 then leaves 2 (yields 7 returns) else leaf_body;
  root = λ a. 1;
  current_worker = λ a. 2;
  link = λ a. if a == 1 then 20 else 1;
}

abbrev top_frames : Frames
top_frames a = a == 1

nested-Suspended : Suspended nested_heap 2 1 (value 6 ∷ exception 9 ∷ value 7 ∷ []) 3 all_frames
nested-Suspended = record {
  root = refl;
  worker = refl;
  working =
      works {m = 0} {k = 2} {G = no_frames} {H = top_frames} (ground arith) refl refl refl
        (gives fails)
        (owned {m = 0} {k = 0} {G = no_frames} {H = no_frames} (ground arith) refl (ground arith)
          refl refl refl (gives at_end) (at_top refl) refl refl refl (λ a i. refl)
          (λ a i. absurd (ground arith)) (λ a i. absurd (ground arith)) (omega arith) refl)
        refl refl refl (λ a i. absurd (ground arith)) (λ a i. absurd (ground arith))
        (λ a i. ground arith) (omega arith) refl;
}

clear-Died_example :
    Comes
      (λ t.
        ((a : Ptr) → OnPath nested_heap.link 1 2 a → t.alive a ≡ false)
        × ((a : Ptr) → all_frames a ≡ false → t.alive a ≡ nested_heap.alive a)
        × (t.top ≡ update nested_heap.top 20 null))
      (clear 2 5 20 nested_heap)
clear-Died_example =
    clear-Died 0 5 nested_heap 20 2 1 (value 6 ∷ exception 9 ∷ value 7 ∷ []) 3 all_frames
      (omega arith) refl nested-Suspended
