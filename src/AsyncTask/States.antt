-- ===== src/AsyncTask/States.antt =====
-- include/kelcoro/async_task.hpp: the states of a task that are reached, and what `get` says in them.
use kelcoro.Base.{
  ℕ, ◌≢◌, ◌≡◌, ◌⊎◌, inl, inr, refl, Bool, true, false, Option, none, some, List, [], ◌∷◌, All,
  arith,
}
use kelcoro.Expected.{Expected, value, unexpected}
use kelcoro.ReturnBlock.{ReturnBlock, val, ex}
use kelcoro.AsyncTask.{
  Promise, Producer, runs, returned, notifies, releases, destroys, rests, Consumer, holds,
  detaching, empty, AsyncTask, Step, taken, blocked, fault, Move, returns, producer_goes_on, gets,
  detaches, consumer_goes_on, ready, get, move,
}

module _ {V X : Type 0} where
  abbrev promise : Bool → ℕ → ReturnBlock V X → Option (Promise V X)
  promise ready count block = some (record { ready = ready; ref_count = count; block = block })

  -- What lies in the block, by what the body has come to and what `get` has given.
  pub data Kept : Option (Expected V X) → List (Expected V X) → ReturnBlock V X → Type 0 where
    value_stays :
        {v : V} {es : List (Expected V X)}
        → All (λ e. some (value v) ≡ some e) es
        → Kept (some (value v)) es (val v)
    thrown : {x : X} → Kept (some (unexpected x)) [] (ex x)
    taken_out : {x : X} → Kept (some (unexpected x)) (unexpected x ∷ []) ReturnBlock.empty

  -- The states that are reached, with what the body has come to and what `get` has given.
  pub data IsTask
      : Option (Expected V X)
        → List (Expected V X)
        → Option (Promise V X)
        → Producer
        → Consumer
        → Type 0 where
    both : IsTask none [] (promise false 2 ReturnBlock.empty) runs holds
    alone : IsTask none [] (promise false 1 ReturnBlock.empty) runs empty
    stored :
        {e : Expected V X} {es : List (Expected V X)} {b : ReturnBlock V X}
        → Kept (some e) es b
        → IsTask (some e) es (promise false 2 b) returned holds
    set :
        {e : Expected V X} {es : List (Expected V X)} {b : ReturnBlock V X}
        → Kept (some e) es b
        → IsTask (some e) es (promise true 2 b) notifies holds
    informed :
        {e : Expected V X} {es : List (Expected V X)} {b : ReturnBlock V X}
        → Kept (some e) es b
        → IsTask (some e) es (promise true 2 b) releases holds
    parked :
        {e : Expected V X} {es : List (Expected V X)} {b : ReturnBlock V X}
        → Kept (some e) es b
        → IsTask (some e) es (promise true 1 b) rests holds
    alone_stored :
        {e : Expected V X} {es : List (Expected V X)} {b : ReturnBlock V X}
        → Kept (some e) es b
        → IsTask (some e) es (promise false 1 b) returned empty
    alone_set :
        {e : Expected V X} {es : List (Expected V X)} {b : ReturnBlock V X}
        → Kept (some e) es b
        → IsTask (some e) es (promise true 1 b) notifies empty
    alone_informed :
        {e : Expected V X} {es : List (Expected V X)} {b : ReturnBlock V X}
        → Kept (some e) es b
        → IsTask (some e) es (promise true 1 b) releases empty
    ending :
        {e : Expected V X} {es : List (Expected V X)} {b : ReturnBlock V X}
        → Kept (some e) es b
        → IsTask (some e) es (promise true 0 b) destroys empty
    last :
        {e : Expected V X} {es : List (Expected V X)} {b : ReturnBlock V X}
        → Kept (some e) es b
        → IsTask (some e) es (promise true 0 b) rests detaching
    gone :
        {e : Expected V X} {es : List (Expected V X)} {b : ReturnBlock V X}
        → Kept (some e) es b
        → IsTask (some e) es none rests empty

  abbrev pub Good : Option (Expected V X) → AsyncTask V X → Type 0
  Good o t = IsTask o t.got t.frame t.producer t.consumer

  abbrev pub after : Option (Expected V X) → Move V X → Option (Expected V X)
  after none (returns e) = some e
  after o m = o

  -- A call of `get` after the one that threw: the block is empty.
  abbrev pub Repeats : Option (Expected V X) → Move V X → AsyncTask V X → Type 0
  Repeats o m t =
      (x : X) × (m ≡ gets)
      × (t.consumer ≡ holds)
      × (o ≡ some (unexpected x))
      × (t.got ≡ unexpected x ∷ [])

  abbrev pub GoodStep :
      Option (Expected V X) → Move V X → AsyncTask V X → Step (AsyncTask V X) → Type 0
  GoodStep o m t (taken u) = Good (after o m) u
  GoodStep o m t blocked = o ≡ after o m
  GoodStep o m t fault = Repeats o m t

  abbrev pub at : List (Expected V X) → Option (Promise V X) → Producer → Consumer → AsyncTask V X
  at es f p c = record { frame = f; producer = p; consumer = c; got = es }

  pub move-GoodStep :
      (m : Move V X) {o : Option (Expected V X)} {es : List (Expected V X)}
      {f : Option (Promise V X)} {p : Producer} {c : Consumer}
      → IsTask o es f p c
      → GoodStep o m (at es f p c) (move m (at es f p c))
  unfolding move
  move-GoodStep (returns (value v)) both = stored (value_stays tt)
  move-GoodStep (returns (unexpected x)) both = stored thrown
  move-GoodStep (returns (value v)) alone = alone_stored (value_stays tt)
  move-GoodStep (returns (unexpected x)) alone = alone_stored thrown
  move-GoodStep producer_goes_on (stored k) = set k
  move-GoodStep producer_goes_on (set k) = informed k
  move-GoodStep producer_goes_on (informed k) = parked k
  move-GoodStep producer_goes_on (alone_stored k) = alone_set k
  move-GoodStep producer_goes_on (alone_set k) = alone_informed k
  move-GoodStep producer_goes_on (alone_informed k) = ending k
  move-GoodStep producer_goes_on (ending k) = gone k
  move-GoodStep gets (set (value_stays all)) = set (value_stays (refl, all))
  move-GoodStep gets (set thrown) = set taken_out
  move-GoodStep gets (set taken_out) = (_, refl, refl, refl, refl)
  move-GoodStep gets (informed (value_stays all)) = informed (value_stays (refl, all))
  move-GoodStep gets (informed thrown) = informed taken_out
  move-GoodStep gets (informed taken_out) = (_, refl, refl, refl, refl)
  move-GoodStep gets (parked (value_stays all)) = parked (value_stays (refl, all))
  move-GoodStep gets (parked thrown) = parked taken_out
  move-GoodStep gets (parked taken_out) = (_, refl, refl, refl, refl)
  move-GoodStep detaches both = alone
  move-GoodStep detaches (stored k) = alone_stored k
  move-GoodStep detaches (set k) = alone_set k
  move-GoodStep detaches (informed k) = alone_informed k
  move-GoodStep detaches (parked k) = last k
  move-GoodStep consumer_goes_on (last k) = gone k
  move-GoodStep _ _ = refl

  -- The frame has gone only when both sides are through, and is gone when they are.
  abbrev pub Alive : Option (Promise V X) → Producer → Consumer → Type 0
  Alive none p c = (p ≡ rests) × (c ≡ empty)
  Alive (some f) p c = ¬ ((p ≡ rests) × (c ≡ empty))

  -- What `get` comes to once the task is ready.
  abbrev pub Gives : Expected V X → AsyncTask V X → Type 0
  Gives (value v) t = get t ≡ taken (value v, t)
  Gives (unexpected x) t =
      ((t.got ≡ []) × (u : AsyncTask V X) × (get t ≡ taken (unexpected x, u)))
      ⊎ ((t.got ≡ unexpected x ∷ []) × (get t ≡ fault))

  -- What `ready` and `get` say to a consumer that has the handle.
  abbrev pub Answers : Option (Expected V X) → AsyncTask V X → Type 0
  Answers o t =
      ((ready t ≡ taken false) × (get t ≡ blocked) × (t.producer ≢ rests))
      ⊎ ((e : Expected V X) × (o ≡ some e) × (ready t ≡ taken true) × Gives e t)

  pub IsTask-Alive :
      {o : Option (Expected V X)} {es : List (Expected V X)} {f : Option (Promise V X)}
      {p : Producer} {c : Consumer}
      → IsTask o es f p c
      → Alive f p c
  IsTask-Alive both = ground arith
  IsTask-Alive alone = ground arith
  IsTask-Alive (stored k) = ground arith
  IsTask-Alive (set k) = ground arith
  IsTask-Alive (informed k) = ground arith
  IsTask-Alive (parked k) = ground arith
  IsTask-Alive (alone_stored k) = ground arith
  IsTask-Alive (alone_set k) = ground arith
  IsTask-Alive (alone_informed k) = ground arith
  IsTask-Alive (ending k) = ground arith
  IsTask-Alive (last k) = ground arith
  IsTask-Alive (gone k) = ground arith

  Kept-given :
      {o : Option (Expected V X)} {es : List (Expected V X)} {b : ReturnBlock V X}
      → Kept o es b
      → All (λ e. o ≡ some e) es
  Kept-given (value_stays all) = all
  Kept-given thrown = tt
  Kept-given taken_out = (refl, tt)

  pub IsTask-given :
      {o : Option (Expected V X)} {es : List (Expected V X)} {f : Option (Promise V X)}
      {p : Producer} {c : Consumer}
      → IsTask o es f p c
      → All (λ e. o ≡ some e) es
  IsTask-given both = tt
  IsTask-given alone = tt
  IsTask-given (stored k) = Kept-given k
  IsTask-given (set k) = Kept-given k
  IsTask-given (informed k) = Kept-given k
  IsTask-given (parked k) = Kept-given k
  IsTask-given (alone_stored k) = Kept-given k
  IsTask-given (alone_set k) = Kept-given k
  IsTask-given (alone_informed k) = Kept-given k
  IsTask-given (ending k) = Kept-given k
  IsTask-given (last k) = Kept-given k
  IsTask-given (gone k) = Kept-given k

  Kept-Gives :
      (count : ℕ) (p : Producer) {e : Expected V X} {es : List (Expected V X)} {b : ReturnBlock V X}
      → Kept (some e) es b
      → Gives e (at es (promise true count b) p holds)
  unfolding get
  Kept-Gives count p (value_stays all) = refl
  Kept-Gives count p thrown = inl (refl, _, refl)
  Kept-Gives count p taken_out = inr (refl, refl)

  pub IsTask-Answers :
      {o : Option (Expected V X)} {es : List (Expected V X)} {f : Option (Promise V X)}
      {p : Producer} {c : Consumer}
      → IsTask o es f p c
      → c ≡ holds
      → Answers o (at es f p c)
  unfolding get ready
  IsTask-Answers both h = inl (refl, refl, ground arith)
  IsTask-Answers (stored k) h = inl (refl, refl, ground arith)
  IsTask-Answers (set k) h = inr (_, refl, refl, Kept-Gives 2 notifies k)
  IsTask-Answers (informed k) h = inr (_, refl, refl, Kept-Gives 2 releases k)
  IsTask-Answers (parked k) h = inr (_, refl, refl, Kept-Gives 1 rests k)
  IsTask-Answers alone h = absurd (ground arith)
  IsTask-Answers (alone_stored k) h = absurd (ground arith)
  IsTask-Answers (alone_set k) h = absurd (ground arith)
  IsTask-Answers (alone_informed k) h = absurd (ground arith)
  IsTask-Answers (ending k) h = absurd (ground arith)
  IsTask-Answers (last k) h = absurd (ground arith)
  IsTask-Answers (gone k) h = absurd (ground arith)
