-- ===== src/LogicalThread.antt =====
-- include/kelcoro/logical_thread.hpp: `two_way_bound`, by which the coroutine of a `logical_thread` and
-- the object that owns it agree on who destroys the frame. Every atomic operation is one step.
pub mod Lifetime
pub mod Stopped
use kelcoro.Base.{Bool, true, false, not, Option, none, some, List, [], ◌∷◌, if◌then◌else◌}

-- What lies in the coroutine's frame: `stop_requested_` and the flag of `stopped`.
pub record Frame : Type 0 where
  pub stop_requested : Bool
  pub flag : Bool

-- `two_way_bound::try_inform` up to the notification: whether the other side was not there before
unfoldable pub try_inform : Frame → Bool × Frame
try_inform f = (not f.flag, record f { flag = true })

-- Where the coroutine is: it runs, it has still to notify or to destroy its frame, or it is at rest,
-- suspended for good or destroyed.
pub data Coroutine : Type 0 where
  runs notifies destroys rests : Coroutine

-- Where the owner is: it holds the handle, it has in `detach` still to notify or to destroy the frame,
-- or it is empty.
pub data Owner : Type 0 where
  holds leaves_notifying leaves_destroying empty : Owner

-- `frame` is `none` once it is destroyed. `late` says that a flag was notified after its frame.
pub record Thread : Type 0 where
  pub frame : Option Frame
  pub coroutine : Coroutine
  pub owner : Owner
  pub late : Bool

abbrev pub new_thread : Thread
new_thread = record {
  frame = some (record { stop_requested = false; flag = false });
  coroutine = runs;
  owner = holds;
  late = false;
}

-- What a step comes to: it is taken, it cannot be taken now, or it touches a frame that is gone.
pub data Step (S : Type 0) : Type 0 where
  taken : S → Step S
  blocked : Step S
  fault : Step S

-- `handle.destroy()`
unfoldable pub destroy : Thread → Step Thread
destroy t = elim t.frame [ none ↦ fault | some f ↦ taken (record t { frame = none }) ]

-- `flag.notify_one()`, which takes the address of the flag only
unfoldable pub notify : Thread → Thread
notify t = elim t.frame [ none ↦ record t { late = true } | some f ↦ t ]

-- `set_stopped_and_wait_or_destroy::await_suspend`
unfoldable pub final_suspend : Thread → Step Thread
unfolding try_inform
final_suspend t = elim t.frame [
  | none ↦ fault
  | some f ↦
      let (informed, f') = try_inform f in
      taken (record t { frame = some f'; coroutine = if informed then notifies else destroys })
]

unfoldable pub join : Thread → Step Thread
unfolding destroy
join t = elim t.frame [
  | none ↦ fault
  | some f ↦ if f.flag then destroy (record t { owner = empty }) else blocked
]

unfoldable pub detach : Thread → Step Thread
unfolding try_inform
detach t = elim t.frame [
  | none ↦ fault
  | some f ↦
      let (informed, f') = try_inform f in
      taken (record t {
        frame = some f';
        owner = if informed then leaves_notifying else leaves_destroying;
      })
]

unfoldable pub request_stop : Thread → Step Thread
request_stop t = elim t.frame [
  | none ↦ fault
  | some f ↦ taken (record t { frame = some (record f { stop_requested = true }) })
]

-- What follows a step.
infixl 5 ◌>>=◌
unfoldable pub ◌>>=◌ : {S T : Type 0} → Step S → (S → Step T) → Step T
(taken s) >>= k = k s
blocked >>= k = blocked
fault >>= k = fault

unfoldable pub joinable : Thread → Bool
joinable t = elim t.owner [ holds ↦ true | _ ↦ false ]

-- `try_cancel_and_join`, the destructor
unfoldable pub try_cancel_and_join : Thread → Step Thread
unfolding joinable request_stop join ◌>>=◌
try_cancel_and_join t = if joinable t then request_stop t >>= join else taken t

-- How far a loop over a range of threads has come: it is through, it waits with the threads as they
-- are then, or it touches a frame that is gone.
pub data Progress : Type 0 where
  through waits : List Thread → Progress
  breaks : Progress

abbrev pub behind : Thread → Progress → Progress
behind t (through ts) = through (t ∷ ts)
behind t (waits ts) = waits (t ∷ ts)
behind t breaks = breaks

-- One member function of each element of a range, in order.
unfoldable pub for_all : (Thread → Step Thread) → List Thread → Progress
for_all f [] = through []
for_all f (t ∷ ts) = elim (f t) [
  | taken u ↦ behind u (for_all f ts)
  | blocked ↦ waits (t ∷ ts)
  | fault ↦ breaks
]

-- `stop` of a range
unfoldable pub stop : List Thread → Progress
unfolding for_all request_stop join
stop ts = elim (for_all request_stop ts) [
  | through us ↦ for_all join us
  | waits us ↦ waits us
  | breaks ↦ breaks
]

-- The moves of the coroutine and of its owner. `goes_on` ends the move that was begun.
pub data Move : Type 0 where
  finishes coroutine_goes_on requests_stop joins detaches owner_goes_on : Move

coroutine_move : Coroutine → Move → Thread → Step Thread
unfolding destroy notify final_suspend
coroutine_move runs finishes t = final_suspend t
coroutine_move notifies coroutine_goes_on t = taken (notify (record t { coroutine = rests }))
coroutine_move destroys coroutine_goes_on t = destroy (record t { coroutine = rests })
coroutine_move c m t = blocked

owner_move : Owner → Move → Thread → Step Thread
unfolding destroy notify join detach request_stop
owner_move holds requests_stop t = request_stop t
owner_move holds joins t = join t
owner_move holds detaches t = detach t
owner_move leaves_notifying owner_goes_on t = taken (notify (record t { owner = empty }))
owner_move leaves_destroying owner_goes_on t = destroy (record t { owner = empty })
owner_move o m t = blocked

unfoldable pub move : Move → Thread → Step Thread
unfolding coroutine_move owner_move
move finishes t = coroutine_move t.coroutine finishes t
move coroutine_goes_on t = coroutine_move t.coroutine coroutine_goes_on t
move m t = owner_move t.owner m t

-- The moves in the order in which they happen; one that is blocked is not made. `none` is a fault.
unfoldable pub run : List Move → Thread → Option Thread
unfolding move
run [] t = some t
run (m ∷ ms) t = elim (move m t) [ taken u ↦ run ms u | blocked ↦ run ms t | fault ↦ none ]
