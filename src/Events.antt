-- ===== src/Events.antt =====
-- include/kelcoro/events.hpp: `event`, and `when_all` and `when_any` over events. The subscribers are the
-- nodes of a `nonowner_lockfree_stack`.
pub mod Notified
pub mod Counted
use kelcoro.Base.{
  ℕ, zero, suc, ◌+◌, ◌-◌, ◌%◌, Bool, true, false, Option, none, some, List, [], ◌∷◌, ◌==◌,
  if◌then◌else◌, length, set,
}
use kelcoro.Node.{Ptr, null, Handle, Cmd, pure, starve, ◌>>=◌, ◌>>◌, read, set_task}
use kelcoro.LockfreeStack.{load_top, try_pop_all}
use kelcoro.Executor.{attach_list}

-- The `input` fields of the subscribers.
abbrev pub Inputs : Type 0 → Type 0
Inputs I = Ptr → Option I

abbrev pub give : {I : Type 0} → I → Ptr → Inputs I → Inputs I
give i p inputs a = if a == p then some i else inputs a

-- `subscribe::await_suspend` up to the loop of `push`: the task is set before the node is published
unfoldable pub subscribe : Ptr → Ptr → Ptr → Handle → Cmd (Unit {0})
unfolding load_top
subscribe closed_marker top node handle = do set_task node handle; load_top closed_marker top node

module _ {E : Type 0} (attach : E × Ptr → Ptr → Cmd (E × Ptr)) where
  -- `notify_all` of an event without input. With the executor's state goes the event's stack: a
  -- subscriber that is resumed may subscribe again. Whether somebody was woken.
  unfoldable pub notify_all_void : Ptr → ℕ → E × Ptr → Cmd ((E × Ptr) × Bool)
  unfolding try_pop_all
  notify_all_void closed_marker fuel (e, stack) =
      let (top, stack') = try_pop_all closed_marker stack in
      if top == null
      then pure ((e, stack'), false)
      else do st ← attach_list attach fuel (e, stack') top; pure (st, true)

-- What a subscriber that is resumed may change: the executor, its input, and the event's stack.
abbrev pub Notifying : Type 0 → Type 0 → Type 0
Notifying E I = E × Inputs I × Ptr

module _ {E I : Type 0} (attach : Notifying E I → Ptr → Cmd (Notifying E I)) where
  -- the loop of `notify_all`: the input is copied and `next` is read before the node is handed over
  unfoldable pub notify_each : ℕ → I → Notifying E I → Ptr → Cmd (Notifying E I)
  notify_each zero input st top = starve
  notify_each (suc k) input (e, inputs, stack) top =
      if top == null then pure (e, inputs, stack) else do
        n ← read top
        st ← attach (e, give input top inputs, stack) top
        notify_each k input st n.next

  unfoldable pub notify_all : Ptr → ℕ → I → Notifying E I → Cmd (Notifying E I × Bool)
  unfolding notify_each try_pop_all
  notify_all closed_marker fuel input (e, inputs, stack) =
      let (top, stack') = try_pop_all closed_marker stack in
      if top == null
      then pure ((e, inputs, stack'), false)
      else do st ← notify_each fuel input (e, inputs, stack') top; pure (st, true)

-- `fetch_add(1)` on a `uint8_t`
abbrev pub one_more : ℕ → ℕ
one_more n = (n + 1) % 256

-- `subscribe_all_last_resumes_main_t`
pub record AllOf (I : Type 0) : Type 0 where
  pub count : ℕ
  pub input : List I

module _ {I : Type 0} where
  -- the callback of event `i`, among `events` of them; whether it resumes the coroutine
  unfoldable pub all_callback : ℕ → ℕ → I → AllOf I → Bool × AllOf I
  all_callback events i v st =
      (st.count == events - 1, record { count = one_more st.count; input = set st.input i v })

  -- The callbacks in the order of their `fetch_add`; how often the coroutine is resumed.
  unfoldable pub all_callbacks : ℕ → List (ℕ × I) → AllOf I → ℕ × AllOf I
  unfolding all_callback
  all_callbacks events [] st = (0, st)
  all_callbacks events ((i, v) ∷ cs) st =
      let (resumes, st') = all_callback events i v st in
      let (more, last) = all_callbacks events cs st' in (if resumes then more + 1 else more, last)

-- `subscribe_all_first_resumes_main_t` with the shared counter
pub record AnyOf (I : Type 0) : Type 0 where
  pub count : ℕ
  pub input : Option (ℕ × I)

module _ {I : Type 0} where
  unfoldable pub any_callback : ℕ → I → AnyOf I → Bool × AnyOf I
  any_callback i v st =
      if st.count == 0
      then (true, record { count = one_more st.count; input = some (i, v) })
      else (false, record st { count = one_more st.count })

  unfoldable pub any_callbacks : List (ℕ × I) → AnyOf I → ℕ × AnyOf I
  unfolding any_callback
  any_callbacks [] st = (0, st)
  any_callbacks ((i, v) ∷ cs) st =
      let (resumes, st') = any_callback i v st in
      let (more, last) = any_callbacks cs st' in (if resumes then more + 1 else more, last)
