-- ===== src/AsyncTask.antt =====
-- include/kelcoro/async_task.hpp: `async_task`, whose coroutine and whose consumer share the frame by
-- a reference count. Every atomic operation is one step; a blocked step is waiting.
pub mod States
pub mod Lifetime
use kelcoro.Base.{
  ℕ, ◌+◌, ◌%◌, Bool, true, false, Option, none, some, List, [], ◌∷◌, ◌==◌, if◌then◌else◌,
}
use kelcoro.Expected.{Expected, value, unexpected}
use kelcoro.ReturnBlock
use kelcoro.ReturnBlock.{
  ReturnBlock, has_exception, set_exception, take_exception, return_value, result,
}

-- `async_task_promise` and the `return_block` under it
pub record Promise (V X : Type 0) : Type 0 where
  pub ready : Bool
  pub ref_count : ℕ
  pub block : ReturnBlock V X

-- Where the coroutine is: in its body, in `await_suspend` of its final suspension (before it sets
-- `ready`, notifies, gives up its reference, destroys the frame), or at rest.
pub data Producer : Type 0 where
  runs returned notifies releases destroys rests : Producer

-- Where the consumer is: it has the handle, has to destroy the frame in `detach`, or is empty.
pub data Consumer : Type 0 where
  holds detaching empty : Consumer

-- `got` are the outcomes that `get` has returned or rethrown, the last one first.
pub record AsyncTask (V X : Type 0) : Type 0 where
  pub frame : Option (Promise V X)
  pub producer : Producer
  pub consumer : Consumer
  pub got : List (Expected V X)

-- A step is taken, cannot be taken now, or touches a frame that is gone or fails an assertion.
pub data Step (S : Type 0) : Type 0 where
  taken : S → Step S
  blocked : Step S
  fault : Step S

-- `fetch_sub(1)` on an `int8_t`
abbrev pub one_less : ℕ → ℕ
one_less n = (n + 255) % 256

producing : Producer → Bool
producing rests = false
producing _ = true

holding : Consumer → Bool
holding holds = true
holding _ = false

-- The body returns or throws, or a step of what follows is made; the consumer calls `get`, detaches,
-- or destroys the frame that it was the last to leave.
pub data Move (V X : Type 0) : Type 0 where
  returns : Expected V X → Move V X
  producer_goes_on gets detaches consumer_goes_on : Move V X

module _ {V X : Type 0} where
  -- The count starts at 1, and the constructor of `async_task` adds its own reference.
  abbrev pub new_task : AsyncTask V X
  new_task = record {
    frame = some (record { ready = false; ref_count = 1 + 1; block = ReturnBlock.empty });
    producer = runs;
    consumer = holds;
    got = [];
  }

  unfoldable pub destroy : AsyncTask V X → Step (AsyncTask V X)
  destroy t = elim t.frame [ none ↦ fault | some p ↦ taken (record t { frame = none }) ]

  -- a step of `destroy_if_consumer_dead_t::await_suspend`
  producer_move : Producer → Promise V X → AsyncTask V X → Step (AsyncTask V X)
  unfolding destroy
  producer_move returned p t =
      taken (record t { frame = some (record p { ready = true }); producer = notifies })
  producer_move notifies p t = taken (record t { producer = releases })
  producer_move releases p t = taken (record t {
    frame = some (record p { ref_count = one_less p.ref_count });
    producer = if p.ref_count == 1 then destroys else rests;
  })
  producer_move destroys p t = destroy (record t { producer = rests })
  producer_move _ p t = blocked

  -- the body's end: `return_value`, or `unhandled_exception`
  put_outcome : Expected V X → ReturnBlock V X → Option (ReturnBlock V X)
  unfolding return_value set_exception
  put_outcome (value v) b = return_value v b
  put_outcome (unexpected x) b = set_exception x b

  body_returns : Expected V X → Producer → Promise V X → AsyncTask V X → Step (AsyncTask V X)
  unfolding put_outcome
  body_returns e runs p t = elim (put_outcome e p.block) [
    | none ↦ fault
    | some b ↦ taken (record t { frame = some (record p { block = b }); producer = returned })
  ]
  body_returns e _ p t = blocked

  -- `detach`, also in the destructor
  detach : Consumer → Promise V X → AsyncTask V X → Step (AsyncTask V X)
  detach holds p t = taken (record t {
    frame = some (record p { ref_count = one_less p.ref_count });
    consumer = if p.ref_count == 1 then detaching else empty;
  })
  detach _ p t = blocked

  last_detach : Consumer → AsyncTask V X → Step (AsyncTask V X)
  unfolding destroy
  last_detach detaching t = destroy (record t { consumer = empty })
  last_detach _ t = blocked

  -- `ready` on a task that is not empty
  unfoldable pub ready : AsyncTask V X → Step Bool
  ready t = elim t.consumer [
    | holds ↦ elim t.frame [ none ↦ fault | some p ↦ taken p.ready ]
    | detaching ↦ taken false
    | empty ↦ taken false
  ]

  -- the end of `get`: an exception is moved out of the block, and a value stays there
  get_outcome : ReturnBlock V X → Option (Expected V X × ReturnBlock V X)
  unfolding has_exception take_exception result
  get_outcome b =
      if has_exception b
      then elim (take_exception b) [ none ↦ none | some (x, b') ↦ some (unexpected x, b') ]
      else elim (result b) [ none ↦ none | some v ↦ some (value v, b) ]

  -- `get() &` of a task that is not empty, which waits until `ready`
  unfoldable pub get : AsyncTask V X → Step (Expected V X × AsyncTask V X)
  unfolding get_outcome
  get t = elim t.frame [
    | none ↦ fault
    | some p ↦
        if p.ready
        then elim (get_outcome p.block) [
          | none ↦ fault
          | some (e, b) ↦ taken (e, record t { frame = some (record p { block = b }) })
        ]
        else blocked
  ]

  note_get : Consumer → AsyncTask V X → Step (AsyncTask V X)
  unfolding get
  note_get holds t = elim (get t) [
    | taken (e, u) ↦ taken (record u { got = e ∷ u.got })
    | blocked ↦ blocked
    | fault ↦ fault
  ]
  note_get _ t = blocked

  -- A side that has left makes no move.
  on_frame :
      (Promise V X → AsyncTask V X → Step (AsyncTask V X))
      → Bool
      → AsyncTask V X
      → Step (AsyncTask V X)
  on_frame f false t = blocked
  on_frame f true t = elim t.frame [ none ↦ fault | some p ↦ f p t ]

  unfoldable pub move : Move V X → AsyncTask V X → Step (AsyncTask V X)
  unfolding producer_move body_returns note_get detach last_detach on_frame producing holding
  move (returns e) t = on_frame (body_returns e t.producer) (producing t.producer) t
  move producer_goes_on t = on_frame (producer_move t.producer) (producing t.producer) t
  move gets t = note_get t.consumer t
  move detaches t = on_frame (detach t.consumer) (holding t.consumer) t
  move consumer_goes_on t = last_detach t.consumer t

  -- The moves in the order in which they happen; one that is blocked is not made. `none` is a fault.
  unfoldable pub run : List (Move V X) → AsyncTask V X → Option (AsyncTask V X)
  unfolding move
  run [] t = some t
  run (m ∷ ms) t = elim (move m t) [ taken u ↦ run ms u | blocked ↦ run ms t | fault ↦ none ]
