-- ===== src/Task/Ownership.antt =====
-- include/kelcoro/task.hpp: who owns the frame of a task, who waits for it, and its outcome.
use kelcoro.Base.{◌≡◌, refl, true, false, Option, none, some, List, [], ◌∷◌, ◌++◌, arith}
use kelcoro.Node.{Handle}
use kelcoro.Expected.{Expected, value, unexpected}
use kelcoro.ReturnBlock.{ReturnBlock, empty, val, ex}
use kelcoro.Task.{
  Waiter, nobody, noop, coroutine, Stage, initial, in_progress, done, Promise, Owner, task_object,
  start_result, raw_handle, no_owner, Task, Move, awaits, starts, awaits_started, drops_started,
  detaches, starts_and_detaches, drops_task, resumes_raw, destroys_raw, finishes, move,
  result_or_rethrow,
}

module _ {V X : Type 0} where
  abbrev block_of : Expected V X → ReturnBlock V X
  block_of (value v) = val v
  block_of (unexpected x) = ex x

  abbrev frame_of : ReturnBlock V X → Waiter → Stage → Option (Promise V X)
  frame_of b w st = some (record { block = b; who_waits = w; stage = st })

  -- The states of a task, with the coroutine that waits for it now and with its outcome.
  pub data IsTask
      : List Handle → Option (Expected V X) → Option (Promise V X) → Owner → Type 0 where
    fresh : IsTask [] none (frame_of empty nobody initial) task_object
    awaited :
        {h : Handle} → IsTask (h ∷ []) none (frame_of empty (coroutine h) in_progress) task_object
    answered :
        {e : Expected V X} {w : Waiter}
        → IsTask [] (some e) (frame_of (block_of e) w done) task_object
    started : IsTask [] none (frame_of empty noop in_progress) start_result
    started_awaited :
        {h : Handle} → IsTask (h ∷ []) none (frame_of empty (coroutine h) in_progress) start_result
    started_done :
        {e : Expected V X} {w : Waiter}
        → IsTask [] (some e) (frame_of (block_of e) w done) start_result
    released : IsTask [] none (frame_of empty nobody initial) raw_handle
    detached : IsTask [] none (frame_of empty nobody in_progress) no_owner
    stopping : IsTask [] none (frame_of empty noop in_progress) raw_handle
    stopped :
        {e : Expected V X} {w : Waiter}
        → IsTask [] (some e) (frame_of (block_of e) w done) raw_handle
    gone : {o : Option (Expected V X)} → IsTask [] o none no_owner

  -- The preconditions that the header states, by the owner, the waiter and the stage.
  abbrev pub Allowed : Move V X → Owner → Waiter → Stage → Type 0
  Allowed (awaits h) task_object w in_progress = ⊥
  Allowed (awaits h) task_object w st = Unit
  Allowed starts task_object w initial = Unit
  Allowed (awaits_started h) start_result w done = Unit
  Allowed (awaits_started h) start_result noop in_progress = Unit
  Allowed drops_started start_result w done = Unit
  Allowed drops_started start_result noop in_progress = Unit
  Allowed detaches task_object w initial = Unit
  Allowed (starts_and_detaches b) task_object w initial = Unit
  Allowed (starts_and_detaches b) task_object w done = Unit
  Allowed drops_task task_object w initial = Unit
  Allowed drops_task task_object w done = Unit
  Allowed resumes_raw raw_handle w initial = Unit
  Allowed destroys_raw raw_handle w initial = Unit
  Allowed destroys_raw raw_handle w done = Unit
  Allowed (finishes e) o w in_progress = Unit
  Allowed m o w st = ⊥

  abbrev pub AllowedAt : Move V X → Option (Promise V X) → Owner → Type 0
  AllowedAt m none o = ⊥
  AllowedAt m (some p) o = Allowed m o p.who_waits p.stage

  -- A coroutine that awaits a task that is not done is suspended.
  abbrev pub suspends : Move V X → Option (Promise V X) → List Handle
  suspends (awaits h) (some p) = elim p.stage [ done ↦ [] | _ ↦ h ∷ [] ]
  suspends (awaits_started h) (some p) = elim p.stage [ done ↦ [] | _ ↦ h ∷ [] ]
  suspends m f = []

  abbrev pub outcome_after : Move V X → Option (Expected V X) → Option (Expected V X)
  outcome_after (finishes e) o = some e
  outcome_after m o = o

  -- What a move leads to. Who waits now, with those resumed before, is who was suspended so far.
  abbrev pub Moved : Option (Expected V X) → List Handle → Option (Task V X) → Type 0
  Moved o log r =
      (t : Task V X) × (w : List Handle) × (r ≡ some t)
      × IsTask w o t.frame t.owner
      × (w ++ t.resumed ≡ log)

  move-IsTask :
      (m : Move V X) {f : Option (Promise V X)} {ow : Owner} {w : List Handle}
      {o : Option (Expected V X)} (log : List Handle)
      → IsTask w o f ow
      → AllowedAt m f ow
      → Moved
          (outcome_after m o)
          (suspends m f ++ w ++ log)
          (move m (record { frame = f; owner = ow; resumed = log }))
  unfolding move
  move-IsTask (awaits h) log fresh ok = (_, h ∷ [], refl, awaited, refl)
  move-IsTask (awaits h) log answered ok = (_, [], refl, answered, refl)
  move-IsTask starts log fresh ok = (_, [], refl, started, refl)
  move-IsTask (awaits_started h) log started ok = (_, h ∷ [], refl, started_awaited, refl)
  move-IsTask (awaits_started h) log started_done ok = (_, [], refl, started_done, refl)
  move-IsTask drops_started log started ok = (_, [], refl, detached, refl)
  move-IsTask drops_started log started_done ok = (_, [], refl, gone, refl)
  move-IsTask detaches log fresh ok = (_, [], refl, released, refl)
  move-IsTask (starts_and_detaches true) log fresh ok = (_, [], refl, stopping, refl)
  move-IsTask (starts_and_detaches false) log fresh ok = (_, [], refl, detached, refl)
  move-IsTask (starts_and_detaches true) log answered ok = (_, [], refl, stopped, refl)
  move-IsTask (starts_and_detaches false) log answered ok = (_, [], refl, gone, refl)
  move-IsTask drops_task log fresh ok = (_, [], refl, gone, refl)
  move-IsTask drops_task log answered ok = (_, [], refl, gone, refl)
  move-IsTask resumes_raw log released ok = (_, [], refl, detached, refl)
  move-IsTask destroys_raw log released ok = (_, [], refl, gone, refl)
  move-IsTask destroys_raw log stopped ok = (_, [], refl, gone, refl)
  move-IsTask (finishes (value v)) log awaited ok = (_, [], refl, answered {e = (value v)}, refl)
  move-IsTask (finishes (value v)) log started ok =
      (_, [], refl, started_done {e = (value v)}, refl)
  move-IsTask (finishes (value v)) log started_awaited ok =
      (_, [], refl, started_done {e = (value v)}, refl)
  move-IsTask (finishes (value v)) log detached ok = (_, [], refl, gone, refl)
  move-IsTask (finishes (value v)) log stopping ok = (_, [], refl, stopped {e = (value v)}, refl)
  move-IsTask (finishes (unexpected x)) log awaited ok =
      (_, [], refl, answered {e = (unexpected x)}, refl)
  move-IsTask (finishes (unexpected x)) log started ok =
      (_, [], refl, started_done {e = (unexpected x)}, refl)
  move-IsTask (finishes (unexpected x)) log started_awaited ok =
      (_, [], refl, started_done {e = (unexpected x)}, refl)
  move-IsTask (finishes (unexpected x)) log detached ok = (_, [], refl, gone, refl)
  move-IsTask (finishes (unexpected x)) log stopping ok =
      (_, [], refl, stopped {e = (unexpected x)}, refl)
  move-IsTask m log is ok = absurd ok

  -- Every allowed move on a well-formed task (await, start, await or drop what `start` returned,
  -- detach, start and detach, drop the task, resume or destroy the raw handle, end of the body)
  -- succeeds without use of a destroyed frame, and leaves a well-formed task: a frame that is gone
  -- has no owner and nobody waits for it, and an unowned frame is one whose body still runs. Who
  -- waits, with those resumed before, is who was suspended so far.
  pub move-Moved :
      (m : Move V X) (t : Task V X) (w : List Handle) (o : Option (Expected V X))
      → IsTask w o t.frame t.owner
      → AllowedAt m t.frame t.owner
      → Moved (outcome_after m o) (suspends m t.frame ++ w ++ t.resumed) (move m t)
  move-Moved m t w o is ok = move-IsTask m t.resumed is ok

  -- In a well-formed task that is done nobody waits any more, and `result_or_rethrow` gives the
  -- outcome of the body, the value that it returned or the exception that it threw.
  pub result_or_rethrow-IsTask :
      (p : Promise V X) (ow : Owner) (w : List Handle) (o : Option (Expected V X))
      → IsTask w o (some p) ow
      → p.stage ≡ done
      → (e : Expected V X) × (p' : Promise V X) × (o ≡ some e)
        × (w ≡ [])
        × (result_or_rethrow p ≡ some (e, p'))
  unfolding result_or_rethrow
  result_or_rethrow-IsTask p ow w o (answered {e = value v}) h = (_, _, refl, refl, refl)
  result_or_rethrow-IsTask p ow w o (answered {e = unexpected x}) h = (_, _, refl, refl, refl)
  result_or_rethrow-IsTask p ow w o (started_done {e = value v}) h = (_, _, refl, refl, refl)
  result_or_rethrow-IsTask p ow w o (started_done {e = unexpected x}) h = (_, _, refl, refl, refl)
  result_or_rethrow-IsTask p ow w o (stopped {e = value v}) h = (_, _, refl, refl, refl)
  result_or_rethrow-IsTask p ow w o (stopped {e = unexpected x}) h = (_, _, refl, refl, refl)
  result_or_rethrow-IsTask p ow w o _ h = absurd (ground arith)
