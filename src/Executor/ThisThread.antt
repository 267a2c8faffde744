-- ===== src/Executor/ThisThread.antt =====
-- include/kelcoro/executor_interface.hpp, `attach_list` with `this_thread_executor`.
use kelcoro.Base.{
  ℕ, ◌<◌, ◌≡◌, refl, ◌∙◌, true, List, [], ◌∷◌, Option, none, some, arith, has, length,
}
use kelcoro.Node.{Ptr, null, Handle, TaskNode, Store, Cmd, pure, ◌>>=◌}
use kelcoro.Node.Chain.{Chain, cons, frame, read-live}
use kelcoro.Memory.Returns
use kelcoro.Executor.{attach_list, this_thread_attach}
use kelcoro.Executor.AttachList.{attach_each, Spares, attach_list-each}

abbrev pub task_of : Option TaskNode → Handle
task_of none = null
task_of (some n) = n.task

-- The tasks of the nodes, as the store has them.
abbrev pub tasks : Store → List Ptr → List Handle
tasks s [] = []
tasks s (p ∷ ps) = task_of (s p) ∷ tasks s ps

tasks-same :
    {s t : Store} (ps : List Ptr)
    → ((a : Ptr) → has a ps ≡ true → t a ≡ s a)
    → tasks t ps ≡ tasks s ps
tasks-same [] same = refl
tasks-same (p ∷ ps) same = cc (same p (ground arith), tasks-same ps (λ a i. same a (ground arith)))

module _ {E : Type 0} (resume : E → Handle → Cmd E) where
  abbrev pub resume_each : List Handle → E → Cmd E
  resume_each [] e = pure e
  resume_each (h ∷ hs) e = resume e h >>= resume_each hs

  attach_each-tasks :
      (I : E → List Ptr → Store → Type 0)
      → Spares (this_thread_attach resume) I
      → (ps : List Ptr) (e : E) {s : Store} {top : Ptr} → Chain s top ps
      → I e ps s
      → attach_each (this_thread_attach resume) ps e s ≡ resume_each (tasks s ps) e s
  unfolding this_thread_attach
  attach_each-tasks I spares [] e c i = refl
  attach_each-tasks I spares (p ∷ ps) e {s} (cons {n} v out c) i =
      rw (read-live v, v.holds)
        (Returns.continue-congr (resume e n.task s) _ _ λ e' t r.
          let (i', same) = spares e p ps s e' t i (rw (read-live v) r) in
          rw (← tasks-same ps same) (attach_each-tasks I spares ps e' (frame c same) i'))

  -- `attach_list` with `this_thread_executor` resumes the tasks that the nodes of the chain hold,
  -- in order, if a coroutine that runs leaves alone the nodes behind its own. There is more fuel
  -- than nodes.
  pub attach_list-tasks :
      (I : E → List Ptr → Store → Type 0)
      → Spares (this_thread_attach resume) I
      → (fuel : ℕ) (ps : List Ptr) (e : E) {s : Store} {top : Ptr} → Chain s top ps
      → I e ps s
      → length ps < fuel
      → attach_list (this_thread_attach resume) fuel e top s ≡ resume_each (tasks s ps) e s
  attach_list-tasks I spares fuel ps e c i h =
      attach_list-each (this_thread_attach resume) I spares fuel e c i h
      ∙ attach_each-tasks I spares ps e c i
