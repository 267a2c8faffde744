-- ===== src/Latch.antt =====
-- include/kelcoro/latch.hpp: `latch`. The stack of waiters is what a `nonowner_lockfree_stack` promises:
-- the waiters, newest first, until it is closed. Each atomic operation is one step.
pub mod Waiters
use kelcoro.Base.{
  ℕ, ◌-◌, ◌+◌, Bool, true, false, ◌&&◌, Option, none, some, List, [], ◌∷◌, ◌++◌, ltb, leb, ◌==◌,
  if◌then◌else◌,
}
use kelcoro.Node.{Handle}

-- `waiters` is `none` once the stack is closed. `closing` counts the calls of `count_down` that have
-- seen zero and have not closed the stack yet; `attached` are the coroutines given to the executor or
-- not suspended, newest first.
pub record Latch : Type 0 where
  pub counter : ℕ
  pub waiters : Option (List Handle)
  pub closing : ℕ
  pub attached : List Handle

-- `max()`, with 64-bit `ptrdiff_t`
abbrev pub max : ℕ
max = 9223372036854775807

-- A failed assertion is `none`.
unfoldable pub new_latch : ℕ → Option Latch
new_latch count =
    if leb count max
    then some (record {
      counter = count;
      waiters = if count == 0 then none else some [];
      closing = 0;
      attached = [];
    })
    else none

unfoldable pub ready : Latch → Bool
ready l = elim l.waiters [ none ↦ true | some hs ↦ false ]

-- `stack.try_push`, whose result is whether the coroutine is suspended
unfoldable pub try_push : Handle → Latch → Latch
try_push h l = elim l.waiters [
  | none ↦ record l { attached = h ∷ l.attached }
  | some hs ↦ record l { waiters = some (h ∷ hs) }
]

-- `wait`: a coroutine that finds the latch ready is not suspended
unfoldable pub wait : Handle → Latch → Latch
unfolding ready try_push
wait h l = if ready l then record l { attached = h ∷ l.attached } else try_push h l

-- `stack.push`, whose precondition is that the stack is not closed
unfoldable pub push : Handle → Latch → Option Latch
push h l = elim l.waiters [ none ↦ none | some hs ↦ some (record l { waiters = some (h ∷ hs) }) ]

-- `count_down` up to the test of its result
unfoldable pub count_down : ℕ → Latch → Option Latch
count_down n l =
    if leb n l.counter
    then some (record l {
      counter = l.counter - n;
      closing = if l.counter == n then l.closing + 1 else l.closing;
    })
    else none

-- the first part of `arrive_and_wait(n)`; the second is `count_down(n)`, if `n` is not 0
unfoldable pub arrive : Handle → ℕ → Latch → Option Latch
unfolding wait push
arrive h n l = if leb n l.counter then if n == 0 then some (wait h l) else push h l else none

-- `wakeup_all`: the executor gets what `close` returns, the newest first
unfoldable pub wakeup_all : Latch → Latch
wakeup_all l = elim l.waiters [
  | none ↦ record l { closing = l.closing - 1 }
  | some hs ↦ record l { waiters = none; closing = l.closing - 1; attached = hs ++ l.attached }
]

-- What the threads do, in the order in which it happens; `arrives` and `settles` are the two parts of
-- one `arrive_and_wait`.
pub data Call : Type 0 where
  waits : Handle → Call
  arrives : Handle → ℕ → Call
  settles counts_down : ℕ → Call
  closes : Call

unfoldable pub call : Call → Latch → Option Latch
unfolding wait arrive count_down wakeup_all
call (waits h) l = some (wait h l)
call (arrives h n) l = arrive h n l
call (settles n) l = count_down n l
call (counts_down n) l = count_down n l
call closes l = some (wakeup_all l)
