-- ===== src/Channel.antt =====
-- include/kelcoro/channel.hpp: the channel object, its promise, its awaiters and the loop `co_foreach`.
-- The address of the object stands for the object and for its iterators; the heap of frames is
-- Leaves'. The awaits of a channel's body on anything but its leaves are not in its script.
pub mod Held
pub mod Arrivals
pub mod Iteration
pub mod Loops
pub mod Swapped
use kelcoro.Base.{ℕ, zero, suc, Bool, true, false, not, Option, none, some, List, [], ◌∷◌, ◌==◌}
use kelcoro.Node.{Ptr, null, Handle}
use kelcoro.Leaves.{
  Heap, Run, ok, fault, no_fuel, ◌>>=◌, ◌>>◌, check, update, Stop, yielded, ended, threw, empty,
  skip_this_leaf, set_result, resume,
}

module _ {Y X : Type 0} where
  -- `channel(handle_type)`
  unfoldable pub new_channel : Ptr → Ptr → Heap Y X → Heap Y X
  new_channel c p h = record h {
    current_result = update h.current_result c none;
    handle = update h.handle c 0;
    top = update h.top c p;
    exception = update h.exception c none;
  }

  unfoldable pub swap : Ptr → Ptr → Heap Y X → Heap Y X
  swap c c' h = record h {
    current_result =
        update (update h.current_result c (h.current_result c')) c' (h.current_result c);
    handle = update (update h.handle c (h.handle c')) c' (h.handle c);
    top = update (update h.top c (h.top c')) c' (h.top c);
    exception = update (update h.exception c (h.exception c')) c' (h.exception c);
  }

  -- `channel(channel&&)`
  unfoldable pub move_channel : Ptr → Ptr → Heap Y X → Heap Y X
  unfolding swap new_channel
  move_channel c other h = swap c other (new_channel c null h)

  unfoldable pub release : Ptr → Heap Y X → Ptr × Heap Y X
  release c h = (h.top c, record h { top = update h.top c null })

  unfoldable pub take_exception : Ptr → Heap Y X → Option X × Heap Y X
  take_exception c h = (h.exception c, record h { exception = update h.exception c none })

  unfoldable pub consumer_handle : Ptr → Heap Y X → Run Handle
  consumer_handle w h = do check (h.alive (h.root w)); ok (h.handle (h.link (h.root w)))

  -- `channel_promise::unhandled_exception`; with an exception that is not taken yet it terminates
  unfoldable pub unhandled_exception : X → Ptr → Heap Y X → Run (Heap Y X)
  unfolding skip_this_leaf
  unhandled_exception x w h = do
    check (h.alive (h.root w))
    check (elim (h.exception (h.link (h.root w))) [ none ↦ true | some _ ↦ false ])
    h' ← elim (h.root w == w) [ true ↦ ok h | false ↦ skip_this_leaf w h ]
    ok (record h' {
      exception = update h'.exception (h'.link (h'.root w)) (some x);
      link = update h'.link w (h'.link (h'.root w));
      root = update h'.root w w;
    })

  -- `set_result`, and the coroutine that goes on: the one in which the channel is
  unfoldable pub deliver : Ptr → Option Y → Heap Y X → Run (Handle × Heap Y X)
  unfolding set_result consumer_handle
  deliver w v h = do h' ← set_result w v h; next ← consumer_handle w h'; ok (next, h')

  -- `yield_value`
  abbrev pub yield_value : Ptr → Y → Heap Y X → Run (Handle × Heap Y X)
  yield_value w y h = deliver w (some y) h

  -- What the promise that stops does: `yield_value`, the end of `final_suspend`, and
  -- `unhandled_exception` with the `final_suspend` after it.
  unfoldable pub arrive : Stop Y X → Heap Y X → Run (Handle × Heap Y X)
  unfolding deliver unhandled_exception
  arrive (yielded y w) h = yield_value w y h
  arrive (ended w) h = deliver w none h
  arrive (threw x w) h = do
    h' ← unhandled_exception x w h
    check (h'.root w == w)
    deliver w none (record h' { done = update h'.done w true })

  -- `channel_iterator::operator++`, up to the coroutine that goes on
  unfoldable pub advance : ℕ → Ptr → Heap Y X → Run (Handle × Heap Y X)
  unfolding empty resume arrive
  advance k c h = do
    is_empty ← empty (h.top c) h
    check (not is_empty)
    (s, h') ← resume k (h.current_worker (h.top c)) h
    arrive s h'

  -- `await_suspend` of `starter` and of `next_awaiter`, up to the transfer
  unfoldable pub start : Ptr → Handle → Heap Y X → Heap Y X
  start c consumer h = record h {
    handle = update h.handle c consumer;
    link = update h.link (h.top c) c;
  }

  -- `co_await c.begin()` and `co_await c.next()`
  unfoldable pub next : ℕ → Ptr → Handle → Heap Y X → Run (Handle × Heap Y X)
  unfolding empty advance start
  next k c consumer h = do
    is_empty ← empty (h.top c) h
    elim is_empty [ true ↦ ok (consumer, h) | false ↦ advance k c (start c consumer h) ]

  -- `operator==` with the sentinel
  unfoldable pub at_end : Ptr → Heap Y X → Bool
  at_end c h = elim (h.current_result c) [ none ↦ true | some y ↦ false ]

  -- `channel_iterator::operator*`
  unfoldable pub value_of : Ptr → Heap Y X → Run Y
  value_of c h = elim (h.current_result c) [ none ↦ fault | some y ↦ ok y ]

  -- The loop of `co_foreach` from an iterator on: the values that it meets. The consumer is the only
  -- one that goes on.
  unfoldable pub loop_from : ℕ → ℕ → Ptr → Handle → Handle → Heap Y X → Run (List Y × Heap Y X)
  unfolding advance at_end value_of
  loop_from zero k c consumer runs h = no_fuel
  loop_from (suc j) k c consumer runs h = do
    check (runs == consumer)
    elim (at_end c h) [
      | true ↦ ok ([], h)
      | false ↦ (do
        y ← value_of c h
        (runs', h') ← advance k c h
        (ys, h'') ← loop_from j k c consumer runs' h'
        ok (y ∷ ys, h''))
    ]

  -- `co_foreach`, with the exception that `channel_scope_guard` throws at its end
  unfoldable pub co_foreach : ℕ → ℕ → Ptr → Handle → Heap Y X → Run (List Y × Option X × Heap Y X)
  unfolding next loop_from take_exception
  co_foreach j k c consumer h = do
    (runs, h') ← next k c consumer h
    (ys, h'') ← loop_from j k c consumer runs h'
    let (thrown, h''') = take_exception c h'' in ok (ys, thrown, h''')
