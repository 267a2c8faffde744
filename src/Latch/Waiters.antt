-- ===== src/Latch/Waiters.antt =====
-- include/kelcoro/latch.hpp: the invariant of a latch under the steps of any threads.
use mathlib.Core.List.{append-nil}
use kelcoro.Base.{
  Bool-cases, eq→==, true, ℕ, ◌-◌, ◌+◌, ◌≤◌, ◌≡◌, ◌≢◌, refl, ◌⊎◌, inl, inr, Option, none, some,
  List, [], ◌∷◌, arith, ◌==◌, leb,
}
use kelcoro.Node.{Handle}
use kelcoro.Latch.{Latch, max, new_latch, Call, waits, arrives, settles, counts_down, closes, call}

-- `owed` is what the coroutines that have arrived are still to count down; `arrived` are all that came,
-- newest first.
abbrev pub Waiting : Option (List Handle) → ℕ → ℕ → List Handle → List Handle → Type 0
Waiting none counter closing attached arrived = (counter ≡ 0) × (attached ≡ arrived)
Waiting (some hs) counter closing attached arrived =
    (((counter ≢ 0) × (closing ≡ 0)) ⊎ ((counter ≡ 0) × (closing ≢ 0)))
    × (attached ≡ [])
    × (hs ≡ arrived)

pub record IsLatch (l : Latch) (owed : ℕ) (arrived : List Handle) : Type 0 where
  pub enough : owed ≤ l.counter
  pub waiting : Waiting l.waiters l.counter l.closing l.attached arrived

-- The preconditions that the header states: no more is counted down than was promised.
abbrev pub Allowed : Call → Latch → ℕ → Type 0
Allowed (waits h) l owed = Unit
Allowed (arrives h n) l owed = n + owed ≤ l.counter
Allowed (settles n) l owed = n ≤ owed
Allowed (counts_down n) l owed = n + owed ≤ l.counter
Allowed closes l owed = l.closing ≢ 0

abbrev pub owed_after : Call → ℕ → ℕ
owed_after (arrives h n) owed = n + owed
owed_after (settles n) owed = owed - n
owed_after _ owed = owed

abbrev pub arrived_after : Call → List Handle → List Handle
arrived_after (waits h) hs = h ∷ hs
arrived_after (arrives h n) hs = h ∷ hs
arrived_after _ hs = hs

-- Where a call leads.
abbrev Leads : Option Latch → ℕ → List Handle → Type 0
Leads r owed arrived = (l : Latch) × (r ≡ some l) × IsLatch l owed arrived

waits-IsLatch :
    (h : Handle) (c : ℕ) (w : Option (List Handle)) (k : ℕ) (a : List Handle) (owed : ℕ)
    (arrived : List Handle)
    → owed ≤ c
    → Waiting w c k a arrived
    → Leads
        (call (waits h) (record { counter = c; waiters = w; closing = k; attached = a }))
        owed
        (h ∷ arrived)
unfolding call
waits-IsLatch h c none k a owed arrived le (z, e) =
    (_, refl, record { enough = le; waiting = (z, rw e) })
waits-IsLatch h c (some hs) k a owed arrived le (z, n, e) =
    (_, refl, record { enough = le; waiting = (z, n, rw e) })

counts-IsLatch :
    (n : ℕ) (c : ℕ) (w : Option (List Handle)) (k : ℕ) (a : List Handle) (owed : ℕ)
    (arrived : List Handle)
    → n + owed ≤ c
    → Waiting w c k a arrived
    → Leads
        (call (counts_down n) (record { counter = c; waiters = w; closing = k; attached = a }))
        owed
        arrived
unfolding call
counts-IsLatch n c none k a owed arrived le (z, e) =
    rw (fits) (_, refl, record { enough = omega arith; waiting = (omega arith, e) })
  where
    fits : leb n c ≡ true
    fits = ground arith
counts-IsLatch n c (some hs) k a owed arrived le (z, e, m) =
    rw (fits) (_, refl, record { enough = omega arith; waiting = (ground arith, e, m) })
  where
    fits : leb n c ≡ true
    fits = ground arith

module _ (h : Handle) (n c k : ℕ) (a : List Handle) (owed : ℕ) (arrived : List Handle)
    (le : n + owed ≤ c) where
  fits : leb n c ≡ true
  fits = ground arith

  arrives-IsLatch :
      (w : Option (List Handle))
      → Waiting w c k a arrived
      → Leads
          (call (arrives h n) (record { counter = c; waiters = w; closing = k; attached = a }))
          (n + owed)
          (h ∷ arrived)
  unfolding call
  arrives-IsLatch none (z, e) =
      rw (fits, eq→== n 0 (omega arith)) (_, refl, record { enough = le; waiting = (z, rw e) })
  arrives-IsLatch (some hs) (z, e, m) = elim (Bool-cases (n == 0)) [
    | inl nothing ↦ rw (fits, nothing) (_, refl, record { enough = le; waiting = (z, e, rw m) })
    | inr something ↦ rw (fits, something) (_, refl, record { enough = le; waiting = (z, e, rw m) })
  ]

closes-IsLatch :
    (c : ℕ) (w : Option (List Handle)) (k : ℕ) (a : List Handle) (owed : ℕ) (arrived : List Handle)
    → owed ≤ c
    → k ≢ 0
    → Waiting w c k a arrived
    → Leads
        (call closes (record { counter = c; waiters = w; closing = k; attached = a }))
        owed
        arrived
unfolding call
closes-IsLatch c none k a owed arrived le ok (z, e) =
    (_, refl, record { enough = le; waiting = (z, e) })
closes-IsLatch c (some hs) k a owed arrived le ok (inl (z, zero_closing), e, m) =
    absurd (ok zero_closing)
closes-IsLatch c (some hs) k a owed arrived le ok (inr (z, more), e, m) =
    (_, refl, record { enough = le; waiting = (z, rw (e, append-nil) m) })

-- A new latch, for which nobody has come yet.
pub new_latch-IsLatch :
    (count : ℕ) → count ≤ max → (l : Latch) × (new_latch count ≡ some l) × IsLatch l 0 []
unfolding new_latch
new_latch-IsLatch count le =
    let small : leb count max ≡ true = ground arith in
    elim (Bool-cases (count == 0)) [
      | inl ended ↦
          rw (small, ended)
            (_, refl, record { enough = omega arith; waiting = (ground arith, refl) })
      | inr counts ↦
          rw (small, counts)
            (
              _,
              refl,
              record { enough = omega arith; waiting = (inl (ground arith, refl), refl, refl) },
            )
    ]

-- Every allowed step on a well-formed latch succeeds, no assertion failing, and the latch is well
-- formed again: while it is open all who came wait, and the count is positive or a step that saw
-- zero is still to close it; once it is closed the count is zero and all who came have been
-- attached. No more is counted down than the counter has beyond what arrived coroutines still owe.
pub call-IsLatch :
    (c : Call) (l : Latch) (owed : ℕ) (arrived : List Handle)
    → IsLatch l owed arrived
    → Allowed c l owed
    → (l' : Latch) × (call c l ≡ some l') × IsLatch l' (owed_after c owed) (arrived_after c arrived)
unfolding call
call-IsLatch (waits h) l owed arrived is ok =
    waits-IsLatch h l.counter l.waiters l.closing l.attached owed arrived is.enough is.waiting
call-IsLatch (arrives h n) l owed arrived is ok =
    arrives-IsLatch h n l.counter l.closing l.attached owed arrived ok l.waiters is.waiting
call-IsLatch (settles n) l owed arrived is ok =
    let enough : owed ≤ l.counter = is.enough in
    counts-IsLatch n l.counter l.waiters l.closing l.attached (owed - n) arrived (omega arith)
      is.waiting
call-IsLatch (counts_down n) l owed arrived is ok =
    counts-IsLatch n l.counter l.waiters l.closing l.attached owed arrived ok is.waiting
call-IsLatch closes l owed arrived is ok =
    closes-IsLatch l.counter l.waiters l.closing l.attached owed arrived is.enough ok is.waiting
