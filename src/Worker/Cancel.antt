-- ===== src/Worker/Cancel.antt =====
-- include/kelcoro/thread_pool.hpp, `cancel_tasks`.
use kelcoro.Base.{ℕ, zero, suc, ◌<◌, ◌≡◌, refl, ◌∙◌, List, ◌==◌, length, if◌then◌else◌, some}
use kelcoro.Node.{
  Ptr, null, Handle, ScheduleErrc, TaskNode, Store, put, Cmd, pure, ◌>>=◌, ◌>>◌, read, set_status,
}
use kelcoro.Node.Chain.{Live, Chain, nil, cons, frame, not_null, read-live, set_status-live}
use kelcoro.Memory.Returns
use kelcoro.Executor.{attach_list}
use kelcoro.Executor.AttachList.{attach_each, Spares, attach_list-each}
use kelcoro.Worker.{cancel_tasks}

module _ {E : Type 0} (resume : E → Handle → Cmd E) where
  -- What is done to one node.
  abbrev pub cancel : E → Ptr → Cmd E
  cancel e p = do
    n ← read p
    set_status p ScheduleErrc.cancelled
    if n.task == null then pure e else resume e n.task

  -- The status is there when the task runs.
  abbrev marked : Store → Ptr → TaskNode → Store
  marked s p n = put s p (some (record n { status = ScheduleErrc.cancelled }))

  abbrev invoke : TaskNode → E → Cmd E
  invoke n e = if n.task == null then pure e else resume e n.task

  cancel-Live :
      {s : Store} {p : Ptr} {n : TaskNode} (e : E)
      → Live s p n
      → cancel e p s ≡ invoke n e (marked s p n)
  cancel-Live e v = rw (read-live v, set_status-live v ScheduleErrc.cancelled)

  cancel_tasks-attach_list :
      (I : E → List Ptr → Store → Type 0)
      → Spares cancel I
      → (k : ℕ) (e : E) {s : Store} {top : Ptr} {ps : List Ptr} → Chain s top ps
      → I e ps s
      → cancel_tasks resume k e top s ≡ attach_list cancel k e top s
  unfolding cancel_tasks attach_list
  cancel_tasks-attach_list I spares zero e c i = refl
  cancel_tasks-attach_list I spares (suc k) e nil i = refl
  cancel_tasks-attach_list I spares (suc k) e {s} (cons {p} {n} {ps} v out c) i =
      rw (not_null v, read-live v, set_status-live v ScheduleErrc.cancelled, cancel-Live e v)
        (Returns.continue-congr (invoke n e (marked s p n)) _ _ λ e' t r.
          let (i', same) = spares e p ps s e' t i (cancel-Live e v ∙ r) in
          cancel_tasks-attach_list I spares k e' (frame c same) i')

  -- `cancel_tasks` on a chain does, node by node and in order, this: it sets the status
  -- `cancelled` and then resumes the task, if there is one. No node is read after its task has
  -- run; a task that runs leaves alone the nodes behind it, and there is more fuel than nodes.
  pub cancel_tasks-each :
      (I : E → List Ptr → Store → Type 0)
      → Spares cancel I
      → (fuel : ℕ) (e : E) {s : Store} {top : Ptr} {ps : List Ptr} → Chain s top ps
      → I e ps s
      → length ps < fuel
      → cancel_tasks resume fuel e top s ≡ attach_each cancel ps e s
  cancel_tasks-each I spares fuel e c i h =
      cancel_tasks-attach_list I spares fuel e c i ∙ attach_list-each cancel I spares fuel e c i h
