-- ===== src/Leaves.antt =====
-- include/kelcoro/noexport/generators_common.hpp, with what generator.hpp and channel.hpp have in common:
-- the frames of nested generators, and the transfer of control between them.
--
-- What a coroutine's body does is not in these sources: it is a script of the steps that matter. Each
-- member of a frame and of a generator object has a map of its own from addresses. `root`,
-- `current_worker` and `link` are members of the promise; `link` is the union of `_owner` and
-- `_consumer`.
pub mod Nested
pub mod Chained
pub mod Suspended
pub mod Moves
pub mod Skips
pub mod Attached
pub mod Resumed
pub mod Destroyed
use kelcoro.Base.{
  ℕ, zero, suc, Bool, true, false, not, ◌&&◌, ◌≡◌, ◌≢◌, arith, Option, none, some, List, [], ◌∷◌,
  ◌==◌, if◌then◌else◌,
}
use kelcoro.Node.{Ptr, null, Handle}

-- The rest of a body: it returns, throws, yields a value, yields the elements of the generator whose
-- top frame is given, or, suspended there, has that generator still to destroy.
pub data Script (Y X : Type 0) : Type 0 where
  returns : Script Y X
  throws : X → Script Y X
  yields : Y → Script Y X → Script Y X
  nests : Ptr → Script Y X → Script Y X
  leaves : Ptr → Script Y X → Script Y X

-- `to_generator`, for a range with these elements
unfoldable pub to_generator : {Y X : Type 0} → List Y → Script Y X
to_generator [] = returns
to_generator (y ∷ ys) = yields y (to_generator ys)

pub record Heap (Y X : Type 0) : Type 0 where
  pub alive : Ptr → Bool
  pub done : Ptr → Bool
  pub body : Ptr → Script Y X
  pub root : Ptr → Ptr
  pub current_worker : Ptr → Ptr
  pub link : Ptr → Ptr
  pub top : Ptr → Ptr
  pub current_result : Ptr → Option Y
  pub handle : Ptr → Handle
  pub exception : Ptr → Option X

-- `fault` is an access to a frame that is gone, or an assertion or assumption that fails.
pub data Run (A : Type 0) : Type 0 where
  ok : A → Run A
  fault no_fuel : Run A

infixl 5 ◌>>=◌ ◌>>◌
abbrev pub ◌>>=◌ : {A B : Type 0} → Run A → (A → Run B) → Run B
ok a >>= k = k a
fault >>= k = fault
no_fuel >>= k = no_fuel

abbrev pub ◌>>◌ : {B : Type 0} → Run (Unit {0}) → Run B → Run B
m >> k = m >>= λ _. k

abbrev pub check : Bool → Run (Unit {0})
check b = if b then ok tt else fault

-- The map with another value at `p`.
unfoldable pub update : {A : Type 0} → (Ptr → A) → Ptr → A → Ptr → A
update f p v a = if a == p then v else f a

pub update-same : {A : Type 0} (f : Ptr → A) (p : Ptr) (v : A) → update f p v p ≡ v
unfolding update
update-same f p v = ground arith

pub update-other :
    {A : Type 0} (f : Ptr → A) (p : Ptr) (v : A) (a : Ptr) → a ≢ p → update f p v a ≡ f a
unfolding update
update-other f p v a ne = ground arith

-- What a coroutine that is resumed comes to, with the frame that stops.
pub data Stop (Y X : Type 0) : Type 0 where
  yielded : Y → Ptr → Stop Y X
  ended : Ptr → Stop Y X
  threw : X → Ptr → Stop Y X

module _ {Y X : Type 0} where
  abbrev pub set_body : Ptr → Script Y X → Heap Y X → Heap Y X
  set_body p b h = record h { body = update h.body p b }

  -- `empty` of a generator with this top
  unfoldable pub empty : Ptr → Heap Y X → Run Bool
  empty p h = if p == null then ok true else do check (h.alive p); ok (h.done p)

  -- `attach_leaf::await_suspend`: the coroutine to which control is transferred
  unfoldable pub attach_leaf : Ptr → Ptr → Heap Y X → Run (Ptr × Heap Y X)
  attach_leaf leaf owner h = do
    check (not (owner == leaf))
    check (h.alive leaf)
    check (h.alive owner)
    check (h.alive (h.current_worker leaf))
    check (h.alive (h.root owner))
    ok (
      h.current_worker leaf,
      record h {
        root = update h.root (h.current_worker leaf) (h.root owner);
        link = update h.link leaf owner;
        current_worker = update h.current_worker (h.root owner) (h.current_worker leaf);
      },
    )

  -- `skip_this_leaf`
  unfoldable pub skip_this_leaf : Ptr → Heap Y X → Run (Heap Y X)
  skip_this_leaf p h = do
    check (not (h.root p == p))
    check (not (h.link p == p))
    check (h.alive (h.link p))
    check (h.alive (h.root p))
    ok (record h {
      root = update h.root (h.link p) (h.root p);
      current_worker = update h.current_worker (h.root p) (h.link p);
    })

  -- The destructor of a generator that is at its end; nullptr has no frame.
  unfoldable pub destroy_leaf : Ptr → Heap Y X → Run (Heap Y X)
  destroy_leaf p h =
      if p == null
      then ok h
      else do check (h.alive p); check (h.done p); ok (record h { alive = update h.alive p false })

  -- `destroy` of a coroutine: a leaf in which it is suspended is destroyed with its other variables;
  -- at its final suspension it has none.
  unfoldable pub destroy : ℕ → Ptr → Heap Y X → Run (Heap Y X)
  destroy zero p h = no_fuel
  destroy (suc k) p h = do
    check (h.alive p)
    h' ← elim (h.done p) [
      | true ↦ ok h
      | false ↦ elim (h.body p) [
        | leaves q b ↦ elim (q == null) [ true ↦ ok h | false ↦ destroy k q h ]
        | _ ↦ ok h
      ]
    ]
    ok (record h' { alive = update h'.alive p false })

  -- `clear`, with the turns of its loop and the depth of the frames
  unfoldable pub clear : ℕ → ℕ → Ptr → Heap Y X → Run (Heap Y X)
  unfolding destroy
  clear zero k g h = no_fuel
  clear (suc j) k g h = elim (h.top g == null) [
    | true ↦ ok h
    | false ↦ (do h' ← destroy k (h.top g) (record h { top = update h.top g null }); clear j k g h')
  ]

  -- `final_awaiter::await_suspend` up to what it tells the consumer: the owner goes on, if there is one.
  unfoldable pub final_suspend : Ptr → Heap Y X → Run (Option Ptr × Heap Y X)
  unfolding skip_this_leaf
  final_suspend p h = elim (h.root p == p) [
    | true ↦ ok (none, h)
    | false ↦ (do h' ← skip_this_leaf p h; ok (some (h'.link p), h'))
  ]

  -- Resumes a coroutine, and those to which it transfers control, up to a yield of one of them, the
  -- end of the root, or an exception that leaves a body.
  unfoldable pub resume : ℕ → Ptr → Heap Y X → Run (Stop Y X × Heap Y X)
  unfolding empty attach_leaf final_suspend destroy_leaf
  resume zero w h = no_fuel
  resume (suc k) w h = do
    check (h.alive w && not (h.done w))
    elim (h.body w) [
      | yields y b ↦ ok (yielded y w, set_body w b h)
      | throws x ↦ ok (threw x w, h)
      | nests p b ↦ (do
        is_empty ← empty p h
        elim is_empty [
          | true ↦ resume k w (set_body w (leaves p b) h)
          | false ↦ (do (w', h') ← attach_leaf p w (set_body w (leaves p b) h); resume k w' h')
        ])
      | leaves p b ↦ (do h' ← destroy_leaf p h; resume k w (set_body w b h'))
      | returns ↦ (do
        (next, h') ← final_suspend w (record h { done = update h.done w true })
        elim next [ none ↦ ok (ended w, h') | some o ↦ resume k o h' ])
    ]

  -- `set_result`: what the consumer of the root finds
  unfoldable pub set_result : Ptr → Option Y → Heap Y X → Run (Heap Y X)
  set_result p v h = do
    check (h.alive (h.root p))
    ok (record h { current_result = update h.current_result (h.link (h.root p)) v })
