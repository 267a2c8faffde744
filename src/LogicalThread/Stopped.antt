-- ===== src/LogicalThread/Stopped.antt =====
-- include/kelcoro/logical_thread.hpp: the destructor of `logical_thread`, and `stop`.
use kelcoro.Base.{
  ◌≡◌, ◌≢◌, refl, sym, subst, ap, ◌++◌, Bool, true, false, Option, none, some, List, [], ◌∷◌, All,
  map, arith,
}
use kelcoro.LogicalThread.{
  Frame, Coroutine, runs, notifies, rests, Owner, holds, empty, Thread, Step, taken, blocked, fault,
  try_cancel_and_join, Progress, through, waits, breaks, behind, for_all, stop, request_stop, join,
}
use kelcoro.LogicalThread.Lifetime.{
  Good, IsThread, both, finished, parked, joined_early, leaving, left, last_finishing,
  last_finished, gone_early, last_leaving, last_left, gone,
}

-- What is left of a thread that has been joined.
abbrev pub joined : Thread → Thread
joined t = record t { frame = none; owner = empty }

-- Joined if the coroutine has finished; else its owner waits.
abbrev pub Joins : Thread → Step Thread → Type 0
Joins t (taken u) = (t.coroutine ≢ runs) × (u ≡ joined t)
Joins t blocked = t.coroutine ≡ runs
Joins t fault = ⊥

-- What a thread with an owner may be.
data Holding : Option Frame → Coroutine → Type 0 where
  running : {b : Bool} → Holding (some (record { stop_requested = b; flag = false })) runs
  notifying : {b : Bool} → Holding (some (record { stop_requested = b; flag = true })) notifies
  resting : {b : Bool} → Holding (some (record { stop_requested = b; flag = true })) rests

Good-Holding :
    {f : Option Frame} {c : Coroutine} {o : Owner} → IsThread f c o → o ≡ holds → Holding f c
Good-Holding both here = running
Good-Holding finished here = notifying
Good-Holding parked here = resting
Good-Holding joined_early here = ground arith
Good-Holding leaving here = ground arith
Good-Holding left here = ground arith
Good-Holding last_finishing here = ground arith
Good-Holding last_finished here = ground arith
Good-Holding gone_early here = ground arith
Good-Holding last_leaving here = ground arith
Good-Holding last_left here = ground arith
Good-Holding gone here = ground arith

abbrev at : Bool → Option Frame → Coroutine → Thread
at late f c = record { frame = f; coroutine = c; owner = holds; late = late }

join-Joins :
    (late : Bool) {f : Option Frame} {c : Coroutine}
    → Holding f c
    → Joins (at late f c) (join (at late f c))
unfolding join
join-Joins late running = refl
join-Joins late notifying = (λ e. ground arith, refl)
join-Joins late resting = (λ e. ground arith, refl)

cancel-Joins :
    (late : Bool) {f : Option Frame} {c : Coroutine}
    → Holding f c
    → Joins (at late f c) (try_cancel_and_join (at late f c))
unfolding try_cancel_and_join
cancel-Joins late running = refl
cancel-Joins late notifying = (λ e. ground arith, refl)
cancel-Joins late resting = (λ e. ground arith, refl)

at_eq : (t : Thread) → t.owner ≡ holds → at t.late t.frame t.coroutine ≡ t
at_eq t here = rw here refl

pub try_cancel_and_join-Joins :
    (t : Thread) → Good t → t.owner ≡ holds → Joins t (try_cancel_and_join t)
try_cancel_and_join-Joins t good here =
    subst (λ u. Joins u (try_cancel_and_join u)) (at_eq t here)
      (cancel-Joins t.late (Good-Holding good here))

-- A thread that has been asked to stop.
abbrev pub asked : Thread → Thread
asked t = record t {
  frame = elim t.frame [ none ↦ none | some f ↦ some (record f { stop_requested = true }) ];
}

-- `us` is left of `ts` when `stop` waits for `runner`, the first whose coroutine still runs: those
-- before it are joined, and it and all behind it have been asked to stop.
pub record WaitsAt (ts us : List Thread) : Type 0 where
  before : List Thread
  runner : Thread
  later : List Thread
  split : ts ≡ before ++ runner ∷ later
  finished : All (λ t. t.coroutine ≢ runs) before
  running : runner.coroutine ≡ runs
  left : us ≡ map joined before ++ map asked (runner ∷ later)

-- What `stop` comes to: all are joined, or it waits.
abbrev pub JoinsAll : List Thread → Progress → Type 0
JoinsAll ts (through us) = All (λ t. t.coroutine ≢ runs) ts × (us ≡ map joined ts)
JoinsAll ts (waits us) = WaitsAt ts us
JoinsAll ts breaks = ⊥

abbrev Held : Thread → Type 0
Held t = Holding t.frame t.coroutine × (t.owner ≡ holds)

request_at :
    (late : Bool) {f : Option Frame} {c : Coroutine}
    → Holding f c
    → (request_stop (at late f c) ≡ taken (asked (at late f c)))
      × Joins (asked (at late f c)) (join (asked (at late f c)))
unfolding request_stop
request_at late running = (refl, join-Joins late running)
request_at late notifying = (refl, join-Joins late notifying)
request_at late resting = (refl, join-Joins late resting)

request-asked :
    (t : Thread) → Held t → (request_stop t ≡ taken (asked t)) × Joins (asked t) (join (asked t))
request-asked t (holding, here) =
    subst (λ v. (request_stop v ≡ taken (asked v)) × Joins (asked v) (join (asked v)))
      (at_eq t here) (request_at t.late holding)

for_all-request_stop :
    (ts : List Thread) → All Held ts → for_all request_stop ts ≡ through (map asked ts)
unfolding for_all
for_all-request_stop [] held = refl
for_all-request_stop (t ∷ ts) (here, held) =
    rw (for_all, (request-asked t here).0, for_all-request_stop ts held) refl

behind-JoinsAll :
    (t : Thread) (ts : List Thread) (r : Progress)
    → t.coroutine ≢ runs
    → JoinsAll ts r
    → JoinsAll (t ∷ ts) (behind (joined t) r)
behind-JoinsAll t ts (through us) done (all, e) = ((done, all), ap (λ vs. joined t ∷ vs) e)
behind-JoinsAll t ts (waits us) done w = record {
  before = t ∷ w.before;
  runner = w.runner;
  later = w.later;
  split = ap (λ vs. t ∷ vs) w.split;
  finished = (done, w.finished);
  running = w.running;
  left = ap (λ vs. joined t ∷ vs) w.left;
}
behind-JoinsAll t ts breaks done h = absurd h

for_all-join : (ts : List Thread) → All Held ts → JoinsAll ts (for_all join (map asked ts))
unfolding for_all
for_all-join [] held = (tt, refl)
for_all-join (t ∷ ts) (here, held) =
    after_join (join (asked t)) (for_all join (map asked ts)) (request-asked t here).1
      (for_all-join ts held)
  where
    after_join :
        (r : Step Thread) (rest : Progress)
        → Joins (asked t) r
        → JoinsAll ts rest
        → JoinsAll (t ∷ ts) (elim r [
          | taken u ↦ behind u rest
          | blocked ↦ waits (asked t ∷ map asked ts)
          | fault ↦ breaks
        ])
    after_join (taken u) rest (done, e) h =
        subst (λ v. JoinsAll (t ∷ ts) (behind v rest)) (sym e) (behind-JoinsAll t ts rest done h)
    after_join blocked rest e h = record {
      before = [];
      runner = t;
      later = ts;
      split = refl;
      finished = tt;
      running = e;
      left = refl;
    }
    after_join fault rest e h = absurd e

-- `stop` of a range of logical threads, each in a state that is reached and with its owner,
-- touches no frame that is gone and asks every one to stop before it joins the first. If all
-- coroutines have finished it joins them all, with each frame destroyed and each object empty;
-- otherwise it waits for the first one that still runs, with those before it joined, and with the
-- stop requested in it and in all behind it.
pub stop-JoinsAll :
    (ts : List Thread) → All (λ t. Good t × (t.owner ≡ holds)) ts → JoinsAll ts (stop ts)
unfolding stop
stop-JoinsAll ts all =
    let held = holding ts all in rw (stop, for_all-request_stop ts held) (for_all-join ts held)
  where
    holding : (ts : List Thread) → All (λ t. Good t × (t.owner ≡ holds)) ts → All Held ts
    holding [] all = tt
    holding (t ∷ ts) ((good, here), rest) = ((Good-Holding good here, here), holding ts rest)
