-- ===== src/AsyncTask/Lifetime.antt =====
-- include/kelcoro/async_task.hpp: the life of the frame and the result, under interleavings of
-- coroutine and consumer.
use kelcoro.Base.{
  subst, ◌≡◌, ◌⊎◌, inl, inr, refl, ◌∙◌, Option, none, some, List, [], ◌∷◌, ◌++◌, All,
}
use kelcoro.Expected.{Expected}
use kelcoro.AsyncTask.{
  holds, AsyncTask, Step, taken, blocked, fault, Move, returns, producer_goes_on, gets, detaches,
  consumer_goes_on, new_task, move, run,
}
use kelcoro.AsyncTask.States.{
  both, Good, after, Repeats, GoodStep, move-GoodStep, Alive, Answers, IsTask-Alive, IsTask-given,
  IsTask-Answers,
}

module _ {V X : Type 0} where
  -- The body comes to its end once.
  abbrev pub outcome : Option (Expected V X) → List (Move V X) → Option (Expected V X)
  outcome (some e) ms = some e
  outcome none [] = none
  outcome none (returns e ∷ ms) = some e
  outcome none (_ ∷ ms) = outcome none ms

  outcome-after :
      (o : Option (Expected V X)) (m : Move V X) (ms : List (Move V X))
      → outcome (after o m) ms ≡ outcome o (m ∷ ms)
  outcome-after (some e) m ms = refl
  outcome-after none (returns e) ms = refl
  outcome-after none producer_goes_on ms = refl
  outcome-after none gets ms = refl
  outcome-after none detaches ms = refl
  outcome-after none consumer_goes_on ms = refl

  -- Where a run ends.
  abbrev Ends : Option (Expected V X) → Option (AsyncTask V X) → Type 0
  Ends o r = (u : AsyncTask V X) × (r ≡ some u) × Good o u

  -- A run that stops at a call of `get` after the one that threw.
  pub record Stops (o : Option (Expected V X)) (ms : List (Move V X)) (t : AsyncTask V X)
      : Type 0 where
    before : List (Move V X)
    rest : List (Move V X)
    reached : AsyncTask V X
    moves : ms ≡ before ++ gets ∷ rest
    reaches : run before t ≡ some reached
    repeats : Repeats (outcome o before) gets reached
    stops : run ms t ≡ none

  later_Stops :
      {o : Option (Expected V X)} {ms : List (Move V X)} (m : Move V X) {t u : AsyncTask V X}
      → ((ns : List (Move V X)) → run (m ∷ ns) t ≡ run ns u)
      → Stops (after o m) ms u
      → Stops o (m ∷ ms) t
  later_Stops {o} m same s = record {
    before = m ∷ s.before;
    rest = s.rest;
    reached = s.reached;
    moves = rw (s.moves) refl;
    reaches = same s.before ∙ s.reaches;
    repeats = subst (λ a. Repeats a gets s.reached) (outcome-after o m s.before) s.repeats;
    stops = same _ ∙ s.stops;
  }

  -- Where a run ends, or that it stops.
  abbrev Comes : Option (Expected V X) → List (Move V X) → AsyncTask V X → Type 0
  Comes o ms t = Ends (outcome o ms) (run ms t) ⊎ Stops o ms t

  later_Comes :
      (o : Option (Expected V X)) (m : Move V X) (ms : List (Move V X)) (t u : AsyncTask V X)
      → ((ns : List (Move V X)) → run (m ∷ ns) t ≡ run ns u)
      → Comes (after o m) ms u
      → Comes o (m ∷ ms) t
  later_Comes o m ms t u same (inl (v, e, i)) =
      inl (v, same ms ∙ e, subst (λ a. Good a v) (outcome-after o m ms) i)
  later_Comes o m ms t u same (inr s) = inr (later_Stops m same s)

  after_step :
      (o : Option (Expected V X)) (m : Move V X) (ms : List (Move V X)) (t : AsyncTask V X)
      → ((o' : Option (Expected V X)) (u : AsyncTask V X) → Good o' u → Comes o' ms u)
      → Good o t
      → (r : Step (AsyncTask V X)) → move m t ≡ r
      → GoodStep o m t r
      → Comes o (m ∷ ms) t
  unfolding run
  after_step o m ms t rest g (taken u) e h =
      later_Comes o m ms t u (λ ns. rw (run, e) refl) (rest _ u h)
  after_step o m ms t rest g blocked e h =
      later_Comes o m ms t t (λ ns. rw (run, e) refl) (rest _ t (subst (λ a. Good a t) h g))
  after_step o m ms t rest g fault e (x, is, here, thrown, given) = inr (record {
    before = [];
    rest = ms;
    reached = t;
    moves = rw is refl;
    reaches = refl;
    repeats = (x, refl, here, rw thrown refl, given);
    stops = rw (run, e) refl;
  })

  run-Comes :
      (ms : List (Move V X)) (o : Option (Expected V X)) (t : AsyncTask V X)
      → Good o t
      → Comes o ms t
  unfolding run
  run-Comes [] none t g = inl (t, refl, g)
  run-Comes [] (some e) t g = inl (t, refl, g)
  run-Comes (m ∷ ms) o t g =
      after_step o m ms t (run-Comes ms) g (move m t) refl (move-GoodStep m g)

  -- In every interleaving of the coroutine of a new `async_task` with its consumer no step touches
  -- a destroyed frame, and the only assertion that fails is that of a call of `get` after one that
  -- has thrown. Short of such a call the frame is gone exactly when both sides are through; all
  -- that `get` has given is what the body first returned or threw; and a consumer that has the
  -- handle is told not ready and waits in `get` while the coroutine is not at rest, or is told
  -- ready: then `get` gives the value and changes nothing, or throws the exception if it has not
  -- yet, or fails the assertion.
  pub run-Alive :
      (ms : List (Move V X))
      → ((t : AsyncTask V X) × (run ms new_task ≡ some t)
          × Alive t.frame t.producer t.consumer
          × All (λ e. outcome none ms ≡ some e) t.got
          × (t.consumer ≡ holds → Answers (outcome none ms) t))
        ⊎ Stops none ms new_task
  run-Alive ms = elim (run-Comes ms none new_task both) [
    | inl (t, e, g) ↦ inl (t, e, IsTask-Alive g, IsTask-given g, IsTask-Answers g)
    | inr s ↦ inr s
  ]
