-- ===== src/Task.antt =====
-- include/kelcoro/task.hpp: `task`, its promise, and the object that `start` returns. A precondition
-- that does not hold, and any use of a frame that is gone, is `none`. The context is `null_context`.
pub mod Ownership
use kelcoro.Base.{Bool, true, false, Option, none, some, List, [], ◌∷◌, if◌then◌else◌}
use kelcoro.Node.{Handle}
use kelcoro.Expected.{Expected, value, unexpected}
use kelcoro.ReturnBlock.{
  ReturnBlock, empty, return_value, set_exception, has_exception, take_exception, result,
}

-- `who_waits`: nullptr, `std::noop_coroutine()`, or a coroutine
pub data Waiter : Type 0 where
  nobody noop : Waiter
  coroutine : Handle → Waiter

-- Where the task's coroutine is: at its initial suspension, in its body, or at its final suspension.
pub data Stage : Type 0 where
  initial in_progress done : Stage

pub record Promise (V X : Type 0) : Type 0 where
  pub block : ReturnBlock V X
  pub who_waits : Waiter
  pub stage : Stage

-- Who owns the handle: a `task`, a `start_result`, somebody who got it raw, or nobody.
pub data Owner : Type 0 where
  task_object start_result raw_handle no_owner : Owner

-- `frame` is `none` once it is destroyed; `resumed` are the coroutines to which the end of the task
-- transferred control.
pub record Task (V X : Type 0) : Type 0 where
  pub frame : Option (Promise V X)
  pub owner : Owner
  pub resumed : List Handle

-- What the holders of a handle and the coroutine do.
pub data Move (V X : Type 0) : Type 0 where
  awaits : Handle → Move V X
  starts : Move V X
  awaits_started : Handle → Move V X
  drops_started detaches : Move V X
  starts_and_detaches : Bool → Move V X
  drops_task resumes_raw destroys_raw : Move V X
  finishes : Expected V X → Move V X

module _ {V X : Type 0} where
  abbrev pub new_task : Task V X
  new_task = record {
    frame = some (record { block = empty; who_waits = nobody; stage = initial });
    owner = task_object;
    resumed = [];
  }

  abbrev with_frame : Task V X → (Promise V X → Option (Task V X)) → Option (Task V X)
  with_frame t k = elim t.frame [ none ↦ none | some p ↦ k p ]

  -- `h.resume()`: a coroutine is resumed once, from its initial suspension
  resume : Promise V X → Owner → Task V X → Option (Task V X)
  resume p o t = elim p.stage [
    | initial ↦ some (record t { frame = some (record p { stage = in_progress }); owner = o })
    | in_progress ↦ none
    | done ↦ none
  ]

  destroy : Task V X → Option (Task V X)
  destroy t = some (record t { frame = none; owner = no_owner })

  -- `co_await` on a task: at once if it is done, else `prepare_task_to_start`
  await_task : Handle → Promise V X → Task V X → Option (Task V X)
  unfolding resume
  await_task h p t = elim p.stage [
    | done ↦ some t
    | _ ↦ resume (record p { who_waits = coroutine h }) task_object t
  ]

  start : Promise V X → Task V X → Option (Task V X)
  unfolding resume
  start p t = resume (record p { who_waits = noop }) start_result t

  -- `already_started_awaiter`
  await_started : Handle → Promise V X → Task V X → Option (Task V X)
  await_started h p t = elim p.stage [
    | done ↦ some t
    | _ ↦ some (record t { frame = some (record p { who_waits = coroutine h }) })
  ]

  -- `~start_result`
  drop_started : Promise V X → Task V X → Option (Task V X)
  unfolding destroy
  drop_started p t = elim p.stage [
    | done ↦ destroy t
    | _ ↦ some (record t { frame = some (record p { who_waits = nobody }); owner = no_owner })
  ]

  -- `detach`, which gives the handle to the caller
  detach : Promise V X → Task V X → Option (Task V X)
  detach p t =
      some (record t { frame = some (record p { who_waits = nobody }); owner = raw_handle })

  start_and_detach : Bool → Promise V X → Task V X → Option (Task V X)
  unfolding destroy resume
  start_and_detach stop_at_end p t = elim p.stage [
    | done ↦
        if stop_at_end
        then some (record t { frame = some (record p { who_waits = nobody }); owner = raw_handle })
        else destroy t
    | _ ↦
        resume (record p { who_waits = if stop_at_end then noop else nobody })
          (if stop_at_end then raw_handle else no_owner) t
  ]

  -- `return_value` or `unhandled_exception`
  stores : Expected V X → ReturnBlock V X → Option (ReturnBlock V X)
  unfolding return_value set_exception
  stores (value v) b = return_value v b
  stores (unexpected x) b = set_exception x b

  -- `final_suspend`: control goes to who waits; with nobody the coroutine is not suspended and its
  -- frame is destroyed
  final_suspend : Promise V X → Task V X → Option (Task V X)
  final_suspend p t = elim p.who_waits [
    | nobody ↦ some (record t { frame = none })
    | noop ↦ some (record t { frame = some (record p { stage = done }) })
    | coroutine h ↦
        some (record t { frame = some (record p { stage = done }); resumed = h ∷ t.resumed })
  ]

  -- the end of the body
  finish : Expected V X → Promise V X → Task V X → Option (Task V X)
  unfolding stores final_suspend
  finish e p t = elim p.stage [
    | in_progress ↦ elim (stores e p.block) [
      | none ↦ none
      | some b ↦ final_suspend (record p { block = b }) t
    ]
    | _ ↦ none
  ]

  unfoldable pub move : Move V X → Task V X → Option (Task V X)
  unfolding await_task start await_started drop_started detach start_and_detach destroy resume
      finish
  move (awaits h) t = with_frame t (λ p. await_task h p t)
  move starts t = with_frame t (λ p. start p t)
  move (awaits_started h) t = with_frame t (λ p. await_started h p t)
  move drops_started t = with_frame t (λ p. drop_started p t)
  move detaches t = with_frame t (λ p. detach p t)
  move (starts_and_detaches b) t = with_frame t (λ p. start_and_detach b p t)
  move drops_task t = with_frame t (λ p. destroy t)
  move resumes_raw t = with_frame t (λ p. resume p no_owner t)
  move destroys_raw t = with_frame t (λ p. destroy t)
  move (finishes e) t = with_frame t (λ p. finish e p t)

  -- `result_or_rethrow`
  unfoldable pub result_or_rethrow : Promise V X → Option (Expected V X × Promise V X)
  unfolding has_exception take_exception result
  result_or_rethrow p =
      if has_exception p.block
      then elim (take_exception p.block) [
        | none ↦ none
        | some (x, b) ↦ some (unexpected x, record p { block = b })
      ]
      else elim (result p.block) [ none ↦ none | some v ↦ some (value v, p) ]
