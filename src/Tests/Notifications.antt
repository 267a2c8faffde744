-- ===== src/Tests/Notifications.antt =====
-- `notify_all` of an event whose subscribers subscribe again when they are resumed.
use kelcoro.Base.{
  ltb, ℕ, ◌≡◌, refl, Bool, false, Option, none, some, List, [], ◌∷◌, ◌++◌, arith, ◌==◌,
}
use kelcoro.Node.{Ptr, null, Store, put, continue, Run, done, Cmd, pure, read, set_next, ◌>>◌}
use kelcoro.Executor.AttachList.{attach_each, Spares}
use kelcoro.Events.{Notifying, notify_all}
use kelcoro.Events.Notified.{hand_over, notify_all-each}
use kelcoro.Tests.{memory, pair_1, Distinct}

-- The coroutine is resumed in place: it notes its input and pushes its node again.
abbrev resubscribe : Notifying (List (Option ℕ)) ℕ → Ptr → Cmd (Notifying (List (Option ℕ)) ℕ)
resubscribe (log, inputs, stack) p = do set_next p stack; pure (log ++ inputs p ∷ [], inputs, p)

abbrev Waiting : Notifying (List (Option ℕ)) ℕ → List Ptr → Store → Type 0
Waiting st ps s = Distinct ps

resubscribe-Spares : Spares (hand_over resubscribe 3) Waiting
unfolding put read set_next
resubscribe-Spares e p ps s e' t i r = (i.1, λ a h. written a (ground (arith, i.0)))
  where
    written : (a : Ptr) → (a == p) ≡ false → t a ≡ s a
    written a ne = ground arith

notify_all-each_example :
    notify_all resubscribe 99 3 3 ([], (λ _. none), 1) memory
    ≡ continue
        (attach_each (hand_over resubscribe 3) (1 ∷ 2 ∷ []) ([], (λ _. none), null) memory)
        (λ st. pure (st, ltb 0 2))
notify_all-each_example =
    notify_all-each resubscribe 3 Waiting resubscribe-Spares 99 3 [] (λ _. none) pair_1
      (refl, (refl, tt)) (ground arith)

abbrev seen : Run (Notifying (List (Option ℕ)) ℕ × Bool) → Option (List (Option ℕ) × Ptr)
seen (done ((log, inputs, stack), woken) s) = some (log, stack)
seen _ = none

-- Both have noted the input, and wait again for the next `notify_all`.
resubscribed :
    seen (notify_all resubscribe 99 3 3 ([], (λ _. none), 1) memory)
    ≡ some (some 3 ∷ some 3 ∷ [], 2)
unfolding notify_all put read set_next
resubscribed = refl
