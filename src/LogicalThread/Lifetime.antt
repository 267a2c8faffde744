-- ===== src/LogicalThread/Lifetime.antt =====
-- include/kelcoro/logical_thread.hpp: the life of the frame under interleavings of coroutine and
-- owner.
use kelcoro.Base.{◌≢◌, ◌≡◌, refl, Bool, true, false, Option, none, some, List, [], ◌∷◌, arith}
use kelcoro.LogicalThread.{
  Frame, Coroutine, runs, notifies, destroys, rests, Owner, holds, leaves_notifying,
  leaves_destroying, empty, Thread, new_thread, Step, taken, blocked, fault, Move, move, run,
}

-- The states that are reached. The flag is set by the first side that leaves.
pub data IsThread : Option Frame → Coroutine → Owner → Type 0 where
  both : {b : Bool} → IsThread (some (record { stop_requested = b; flag = false })) runs holds
  finished :
      {b : Bool} → IsThread (some (record { stop_requested = b; flag = true })) notifies holds
  parked : {b : Bool} → IsThread (some (record { stop_requested = b; flag = true })) rests holds
  joined_early : IsThread none notifies empty
  leaving :
      {b : Bool}
      → IsThread (some (record { stop_requested = b; flag = true })) runs leaves_notifying
  left : {b : Bool} → IsThread (some (record { stop_requested = b; flag = true })) runs empty
  last_finishing :
      {b : Bool}
      → IsThread (some (record { stop_requested = b; flag = true })) destroys leaves_notifying
  last_finished :
      {b : Bool} → IsThread (some (record { stop_requested = b; flag = true })) destroys empty
  gone_early : IsThread none rests leaves_notifying
  last_leaving :
      {b : Bool}
      → IsThread (some (record { stop_requested = b; flag = true })) notifies leaves_destroying
  last_left :
      {b : Bool}
      → IsThread (some (record { stop_requested = b; flag = true })) rests leaves_destroying
  gone : IsThread none rests empty

abbrev pub Good : Thread → Type 0
Good t = IsThread t.frame t.coroutine t.owner

abbrev GoodStep : Step Thread → Type 0
GoodStep (taken u) = Good u
GoodStep blocked = Unit
GoodStep fault = ⊥

module _ (late : Bool) where
  abbrev at : Option Frame → Coroutine → Owner → Thread
  at f c o = record { frame = f; coroutine = c; owner = o; late = late }

  move-GoodStep :
      (m : Move) {f : Option Frame} {c : Coroutine} {o : Owner}
      → IsThread f c o
      → GoodStep (move m (at f c o))
  unfolding move
  move-GoodStep Move.finishes both = finished
  move-GoodStep Move.finishes leaving = last_finishing
  move-GoodStep Move.finishes left = last_finished
  move-GoodStep Move.coroutine_goes_on finished = parked
  move-GoodStep Move.coroutine_goes_on joined_early = gone
  move-GoodStep Move.coroutine_goes_on last_finishing = gone_early
  move-GoodStep Move.coroutine_goes_on last_finished = gone
  move-GoodStep Move.coroutine_goes_on last_leaving = last_left
  move-GoodStep Move.requests_stop both = both
  move-GoodStep Move.requests_stop finished = finished
  move-GoodStep Move.requests_stop parked = parked
  move-GoodStep Move.joins finished = joined_early
  move-GoodStep Move.joins parked = gone
  move-GoodStep Move.detaches both = leaving
  move-GoodStep Move.detaches finished = last_leaving
  move-GoodStep Move.detaches parked = last_left
  move-GoodStep Move.owner_goes_on leaving = left
  move-GoodStep Move.owner_goes_on last_finishing = last_finished
  move-GoodStep Move.owner_goes_on gone_early = gone
  move-GoodStep Move.owner_goes_on last_leaving = joined_early
  move-GoodStep Move.owner_goes_on last_left = gone
  move-GoodStep _ _ = tt

-- What is claimed of a state: a frame that is gone has no coroutine running in it and no owner who
-- can still use it, and a frame that is there has a side that has not left it yet.
abbrev pub Sound : Option Frame → Coroutine → Owner → Type 0
Sound none c o = (c ≢ runs) × (o ≢ holds)
Sound (some f) c o = ¬ ((c ≡ rests) × (o ≡ empty))

IsThread-Sound : {f : Option Frame} {c : Coroutine} {o : Owner} → IsThread f c o → Sound f c o
IsThread-Sound both = ground arith
IsThread-Sound finished = ground arith
IsThread-Sound parked = ground arith
IsThread-Sound joined_early = ground arith
IsThread-Sound leaving = ground arith
IsThread-Sound left = ground arith
IsThread-Sound last_finishing = ground arith
IsThread-Sound last_finished = ground arith
IsThread-Sound gone_early = ground arith
IsThread-Sound last_leaving = ground arith
IsThread-Sound last_left = ground arith
IsThread-Sound gone = ground arith

module _ (ms : List Move)
    (run-Good : (t : Thread) → Good t → (u : Thread) × (run ms t ≡ some u) × Good u) where
  after-Good :
      (t : Thread) (r : Step Thread)
      → Good t
      → GoodStep r
      → (u : Thread) × ((elim r [ taken v ↦ run ms v | blocked ↦ run ms t | fault ↦ none ])
          ≡ some u)
        × Good u
  after-Good t (taken v) g h = run-Good v h
  after-Good t blocked g h = run-Good t g
  after-Good t fault g h = absurd h

run-Good : (ms : List Move) (t : Thread) → Good t → (u : Thread) × (run ms t ≡ some u) × Good u
unfolding run
run-Good [] t g = (t, refl, g)
run-Good (m ∷ ms) t g = after-Good ms (run-Good ms) t (move m t) g (move-GoodStep t.late m g)

-- In every interleaving of the coroutine of a new `logical_thread` with its owner no step reads,
-- writes or destroys a destroyed frame, the address of a flag that is notified aside; a frame that
-- is gone has no coroutine running in it and no owner who holds it; and a frame that is there has
-- a side that has not come to rest.
pub run-Sound :
    (ms : List Move)
    → (t : Thread) × (run ms new_thread ≡ some t) × Sound t.frame t.coroutine t.owner
run-Sound ms = let (t, e, g) = run-Good ms new_thread both in (t, e, IsThread-Sound g)
