-- ===== src/Events/Notified.antt =====
-- include/kelcoro/events.hpp, `notify_all`: the loop over the subscribers.
use kelcoro.Base.{ltb, ℕ, zero, suc, ◌<◌, ◌≡◌, refl, List, ◌∷◌, arith, length}
use kelcoro.Node.{Ptr, null, Store, Cmd, pure, continue}
use kelcoro.Node.Chain.{Chain, nil, cons, frame, not_null, read-live}
use kelcoro.Memory.Returns
use kelcoro.Executor.AttachList.{attach_each, Spares}
use kelcoro.Events.{Inputs, give, Notifying, notify_each, notify_all}

module _ {E I : Type 0} (attach : Notifying E I → Ptr → Cmd (Notifying E I)) (input : I) where
  -- What is done for one subscriber.
  abbrev pub hand_over : Notifying E I → Ptr → Cmd (Notifying E I)
  hand_over (e, inputs, stack) p = attach (e, give input p inputs, stack) p

  notify_each-each :
      (J : Notifying E I → List Ptr → Store → Type 0)
      → Spares hand_over J
      → (fuel : ℕ) (st : Notifying E I) {s : Store} {top : Ptr} {ps : List Ptr} → Chain s top ps
      → J st ps s
      → length ps < fuel
      → notify_each attach fuel input st top s ≡ attach_each hand_over ps st s
  unfolding notify_each
  notify_each-each J spares zero st c i h = absurd (omega arith)
  notify_each-each J spares (suc k) st nil i h = refl
  notify_each-each J spares (suc k) (e, inputs, stack) {s} (cons {p} {n} {ps} v out c) i h =
      rw (not_null v, read-live v)
        (Returns.continue-congr (attach (e, give input p inputs, stack) p s) _ _ λ st' t r.
          let (i', same) = spares (e, inputs, stack) p ps s st' t i r in
          notify_each-each J spares k st' (frame c same) i' (omega arith))

  -- `notify_all` on a stack of subscribers takes them all off the event's stack before the first
  -- is handed over, then gives each one the input and hands it to the executor, once and in the
  -- order of the stack, and says whether there was one. What those that are resumed push meanwhile
  -- is not handed over, and is on the event's stack at the end as they left it. The executor
  -- leaves alone those whose turn is still to come, and there is more fuel than subscribers.
  pub notify_all-each :
      (J : Notifying E I → List Ptr → Store → Type 0)
      → Spares hand_over J
      → (closed_marker : Ptr) (fuel : ℕ) (e : E) (inputs : Inputs I) {s : Store} {top : Ptr}
        {ps : List Ptr}
      → Chain s top ps
      → J (e, inputs, null) ps s
      → length ps < fuel
      → notify_all attach closed_marker fuel input (e, inputs, top) s
        ≡ continue
            (attach_each hand_over ps (e, inputs, null) s)
            (λ st. pure (st, ltb 0 (length ps)))
  unfolding notify_all
  notify_all-each J spares marker fuel e inputs nil i h = refl
  notify_all-each J spares marker fuel e inputs {s} {top} (cons {p} {n} {ps} v out c) i h =
      rw
        (
          not_null v,
          notify_each-each J spares fuel (e, inputs, null) {ps = p ∷ ps} (cons {n = n} v out c) i h,
        )
        (ground arith)
