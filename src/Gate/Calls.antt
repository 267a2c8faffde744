-- ===== src/Gate/Calls.antt =====
-- include/kelcoro/gate.hpp: the invariant of a gate under the calls of one thread.
use mathlib.Core.List.{append-nil, append_assoc}
use kelcoro.Base.{
  ℕ, ◌+◌, ◌<◌, ◌≡◌, refl, ◌≢◌, ◌∙◌, ap, sym, subst, ◌⊎◌, inl, inr, true, false, ◌&&◌, Bool-cases,
  ne→==, eq→==, Option, some, List, [], ◌∷◌, ◌++◌, arith, ◌==◌, if◌then◌else◌, has, length,
  size_mod,
}
use kelcoro.Node.{Ptr, null, Handle, ScheduleErrc, TaskNode, Store, done, Cmd, pure, ◌>>=◌, read}
use kelcoro.Node.Chain.{Live, nil, null_of_nil, cargo}
use kelcoro.Memory.Returns
use kelcoro.Memory.Returns.{Returns, returns}
use kelcoro.AwaitersQueue.Fifo.{IsQueue}
use kelcoro.AwaitersQueue.Suspend.{Suspended, suspend-Suspended}
use kelcoro.Executor.{this_thread_attach}
use kelcoro.Executor.AttachList.{Spares}
use kelcoro.Executor.ThisThread.{task_of, tasks, resume_each}
use kelcoro.Gate.{Gate, try_enter, leave, close, await_ready, await_suspend, reopen}
use kelcoro.Gate.Waking.{drained, leave-branches}

-- What holds of a gate between calls: who waits is in the queue, and waits for somebody who is
-- inside a closed gate.
pub record IsGate (s : Store) (g : Gate) (xs : List Ptr) : Type 0 where
  pub queue : IsQueue s g.close_waiters xs
  pub small : g.count < size_mod
  pub waiting : (xs ≡ []) ⊎ ((g.close_requested ≡ true) × (g.count ≢ 0))

-- The calls of one thread. A coroutine that awaits `close` gives its node and itself.
pub data Call : Type 0 where
  enters leaves reopens : Call
  closes : Ptr → Handle → Call

-- The woken coroutines are noted in the order in which they are resumed; each runs later.
abbrev pub note : List Handle × Gate → Handle → Cmd (List Handle × Gate)
note (log, g) h = pure (log ++ h ∷ [], g)

-- `co_await g.close()` goes on at once if nobody is inside.
abbrev pub await_close : Ptr → Handle → List Handle × Gate → Cmd (List Handle × Gate)
await_close node h (log, g) =
    let closing = close g in
    if await_ready closing
    then pure (log ++ h ∷ [], closing)
    else (do g' ← await_suspend closing node h; pure (log, g'))

unfoldable pub call : ℕ → Call → List Handle × Gate → Cmd (List Handle × Gate)
call fuel enters (log, g) = pure (log, (try_enter g).1)
call fuel leaves st = leave note fuel st
call fuel reopens (log, g) = do g' ← reopen g; pure (log, g')
call fuel (closes node h) st = await_close node h st

-- The preconditions that the header states.
abbrev pub Allowed : Store → Gate → List Ptr → Call → Type 0
Allowed s g xs enters = g.count + 1 < size_mod
Allowed s g xs leaves = g.count ≢ 0
Allowed s g xs reopens = (g.count ≡ 0) × (xs ≡ [])
Allowed s g xs (closes node h) = (n : TaskNode) × Live s node n × (has node xs ≡ false)

abbrev pub arrivals : Call → List Handle
arrivals (closes node h) = h ∷ []
arrivals _ = []

-- The waiters afterwards, with those resumed: nobody is lost, doubled or out of turn.
pub record Called (s : Store) (log : List Handle) (xs : List Ptr) (new : List Handle)
    (st : List Handle × Gate) (t : Store) : Type 0 where
  pub ys : List Ptr
  pub gate : IsGate t st.1 ys
  pub account : st.0 ++ tasks t ys ≡ log ++ tasks s xs ++ new

note-Spares : Spares (this_thread_attach note) (λ _ _ _. Unit {0})
unfolding this_thread_attach read
note-Spares e p ps s e' t i r = (tt, λ a h. ap (λ (f : Store). f a) (unchanged r))
  where
    unchanged : this_thread_attach note e p s ≡ done e' t → t ≡ s
    unchanged r = ground arith

resume_each-note :
    (hs log : List Handle) (g : Gate) (s : Store)
    → resume_each note hs (log, g) s ≡ done (log ++ hs, g) s
resume_each-note [] log g s = rw append-nil
resume_each-note (h ∷ hs) log g s =
    resume_each-note hs (log ++ h ∷ []) g s ∙ rw (append_assoc log (h ∷ []) hs)

tasks-append : (s : Store) (xs ys : List Ptr) → tasks s (xs ++ ys) ≡ tasks s xs ++ tasks s ys
tasks-append s [] ys = refl
tasks-append s (x ∷ xs) ys = rw (tasks-append s xs ys)

task_of-cargo : (m n : Option TaskNode) → cargo m ≡ cargo n → task_of m ≡ task_of n
task_of-cargo m n e = ground arith

tasks-cargo :
    (s t : Store) (xs : List Ptr)
    → ((a : Ptr) → has a xs ≡ true → cargo (t a) ≡ cargo (s a))
    → tasks t xs ≡ tasks s xs
tasks-cargo s t [] same = refl
tasks-cargo s t (x ∷ xs) same = cc (
  task_of-cargo (t x) (s x) (same x (ground arith)),
  tasks-cargo s t xs (λ a i. same a (ground arith)),
)

task_of-stored :
    (m : Option TaskNode) (h : Handle) (e : ScheduleErrc) → cargo m ≡ some (h, e) → task_of m ≡ h
task_of-stored m h e q = ground arith

await_suspend-Suspended :
    {s : Store} (g : Gate) (xs : List Ptr) (node : Ptr) {n : TaskNode} (h : Handle)
    → IsQueue s g.close_waiters xs
    → Live s node n
    → has node xs ≡ false
    → Returns
        (λ g' t.
          Suspended s xs node n h g'.close_waiters t
          × (g'.count ≡ g.count)
          × (g'.close_requested ≡ g.close_requested))
        (await_suspend g node h s)
unfolding await_suspend
await_suspend-Suspended g xs node h is v new =
    suspend-Suspended g.close_waiters xs node h _ is v new (λ q t e. returns (e, refl, refl))

module _ (fuel : ℕ) {s : Store} (log : List Handle) (g : Gate) (xs : List Ptr)
    (is : IsGate s g xs) where
  -- A call that moves no waiter.
  unmoved : (g' : Gate) → IsGate s g' xs → Called s log xs [] (log, g') s
  unmoved g' is' = record { ys = xs; gate = is'; account = sym (append-nil _) }

  enters-Called :
      g.count + 1 < size_mod → Returns (Called s log xs []) (call fuel enters (log, g) s)
  unfolding call try_enter
  enters-Called small = returns (unmoved _ (ground (arith, is.queue, is.small, is.waiting)))

  reopens-Called :
      (g.count ≡ 0) × (xs ≡ []) → Returns (Called s log xs []) (call fuel reopens (log, g) s)
  unfolding call reopen
  reopens-Called (none_inside, none_waits) =
      let queue : IsQueue s g.close_waiters [] =
        subst (IsQueue s g.close_waiters) none_waits is.queue in
      let no_waiter : g.close_waiters.first ≡ null = null_of_nil queue.chain in
      rw (eq→== _ 0 none_inside, eq→== _ 0 no_waiter)
        (returns
          (unmoved _ (record { queue = is.queue; small = is.small; waiting = inl none_waits })))

  leaves-Called :
      g.count ≢ 0 → length xs < fuel → Returns (Called s log xs []) (call fuel leaves (log, g) s)
  unfolding call
  leaves-Called inside h =
      rw
        (
          leave-branches note (λ _ _ _. Unit {0}) note-Spares fuel log g xs is.queue is.small tt h,
          ne→== _ 0 inside,
        )
        (elim (Bool-cases (g.close_requested && g.count == 1)) [
          | inl last ↦
              rw (last, resume_each-note (tasks s xs) log (drained g) s)
                (returns (record {
                  ys = [];
                  gate = record {
                    queue = record { chain = nil; ends = tt };
                    small = omega arith;
                    waiting = inl refl;
                  };
                  account = refl;
                }))
          | inr more ↦ rw more (
              returns (
                unmoved _ (record {
                  queue = is.queue;
                  small = let small = is.small in omega arith;
                  waiting = ground (arith, is.waiting);
                })))
        ])

  closes-Called :
      (node : Ptr) (h : Handle)
      → (n : TaskNode) × Live s node n × (has node xs ≡ false)
      → Returns (Called s log xs (h ∷ [])) (call fuel (closes node h) (log, g) s)
  unfolding call close await_ready
  closes-Called node h (n, v, new) = elim (Bool-cases (g.count == 0)) [
    | inl empty ↦
        let nobody : xs ≡ [] = ground (arith, is.waiting) in
        rw empty (
          returns (record {
            ys = [];
            gate = record {
              queue = subst (IsQueue s g.close_waiters) nobody is.queue;
              small = is.small;
              waiting = inl refl;
            };
            account = rw nobody (simp append-nil);
          }))
    | inr some_inside ↦ rw some_inside (
        Returns.and_then (await_suspend-Suspended (close g) xs node h is.queue v new)
          λ g' t (e, count, closed). returns (record {
            ys = xs ++ node ∷ [];
            gate = record {
              queue = e.is;
              small = let small = is.small in omega arith;
              waiting = inr (closed, ground arith);
            };
            account =
                rw
                  (
                    tasks-append t xs (node ∷ []),
                    tasks-cargo s t xs (λ a i. e.kept a (ground arith)),
                    task_of-stored (t node) h _ e.stored,
                  )
                  (sym (append_assoc log (tasks s xs) (h ∷ [])));
          }))
  ]

-- Every allowed call on a well-formed gate (enter, leave, `co_await close()`, reopen) returns,
-- given more fuel than waiters: the gate is well formed again, so whoever waits in the queue waits
-- for somebody inside a closed gate; and the coroutines resumed so far, followed by those that
-- still wait, are those of before followed by the one that the call brings.
pub call-Called :
    (fuel : ℕ) {s : Store} (c : Call) (log : List Handle) (g : Gate) (xs : List Ptr)
    → IsGate s g xs
    → Allowed s g xs c
    → length xs < fuel
    → Returns (Called s log xs (arrivals c)) (call fuel c (log, g) s)
call-Called fuel enters log g xs is ok h = enters-Called fuel log g xs is ok
call-Called fuel leaves log g xs is ok h = leaves-Called fuel log g xs is ok h
call-Called fuel reopens log g xs is ok h = reopens-Called fuel log g xs is ok
call-Called fuel (closes node w) log g xs is ok h = closes-Called fuel log g xs is node w ok
