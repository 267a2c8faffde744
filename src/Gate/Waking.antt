-- ===== src/Gate/Waking.antt =====
-- include/kelcoro/gate.hpp, `leave`: its branches.
use kelcoro.Base.{
  ℕ, ◌-◌, ◌<◌, ◌≡◌, inl, inr, ◌&&◌, Bool-cases, List, arith, ◌==◌, if◌then◌else◌, length, size_mod,
  size_sub,
}
use kelcoro.Node.{Ptr, null, Handle, Store, done, fault, Cmd}
use kelcoro.AwaitersQueue.Fifo.{IsQueue}
use kelcoro.Executor.{this_thread_attach}
use kelcoro.Executor.AttachList.{Spares}
use kelcoro.Executor.ThisThread.{tasks, resume_each, attach_list-tasks}
use kelcoro.Gate.{Gate, leave}

-- The gate as the waiters find it that the last `leave` wakes: closed, with nobody inside and
-- nobody waiting.
abbrev pub drained : Gate → Gate
drained g = record g { count = 0; close_waiters = record g.close_waiters { first = null } }

-- `leave` on every branch: it faults if nobody is inside; the last one out of a closed gate
-- resumes all waiters in order, with the gate empty and no waiter queued; otherwise it counts down
-- only. The count is a `size_t`, there is more fuel than waiters, and a resumed coroutine leaves
-- alone the waiters behind it.
pub leave-branches :
    {X : Type 0} (resume : X × Gate → Handle → Cmd (X × Gate))
    (I : X × Gate → List Ptr → Store → Type 0)
    → Spares (this_thread_attach resume) I
    → (fuel : ℕ) (x : X) (g : Gate) {s : Store} (xs : List Ptr) → IsQueue s g.close_waiters xs
    → g.count < size_mod
    → I (x, drained g) xs s
    → length xs < fuel
    → leave resume fuel (x, g) s ≡ (
        if g.count == 0
        then fault
        else if g.close_requested && g.count == 1
        then resume_each resume (tasks s xs) (x, drained g) s
        else done (x, record g { count = g.count - 1 }) s)
unfolding leave
leave-branches resume I spares fuel x g {s} xs is small i h = elim (Bool-cases (g.count == 0)) [
  | inl empty ↦ rw empty
  | inr some_inside ↦
      let one : size_sub g.count 1 ≡ g.count - 1 = ground arith in
      let only_one : (g.count - 1 == 0) ≡ (g.count == 1) = ground arith in
      rw (some_inside, one, only_one)
        (elim (Bool-cases (g.close_requested && g.count == 1)) [
          | inl last ↦
              let none_left : g.count - 1 ≡ 0 = ground arith in
              rw (last, none_left) (attach_list-tasks resume I spares fuel xs _ is.chain i h)
          | inr more ↦ rw more
        ])
]
