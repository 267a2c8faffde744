-- ===== src/ReturnBlock.antt =====
-- include/kelcoro/common.hpp: `return_block`, in which a promise keeps what its coroutine returned or
-- threw. An assertion that fails is `none`.
pub mod References
pub mod Rethrown
use kelcoro.Base.{Bool, true, false, Option, none, some}

-- `retkind_e` with the storage that it selects
pub data ReturnBlock (V X : Type 0) : Type 0 where
  empty : ReturnBlock V X
  val : V → ReturnBlock V X
  ex : X → ReturnBlock V X

module _ {V X : Type 0} where
  unfoldable pub has_exception : ReturnBlock V X → Bool
  has_exception (ex x) = true
  has_exception _ = false

  -- A value that is there is destroyed first.
  unfoldable pub set_exception : X → ReturnBlock V X → Option (ReturnBlock V X)
  set_exception x (ex y) = none
  set_exception x _ = some (ex x)

  unfoldable pub take_exception : ReturnBlock V X → Option (X × ReturnBlock V X)
  take_exception (ex x) = some (x, empty)
  take_exception _ = none

  unfoldable pub return_value : V → ReturnBlock V X → Option (ReturnBlock V X)
  return_value v empty = some (val v)
  return_value v _ = none

  -- `co_return dd::rvo`, after `return_place`
  unfoldable pub return_rvo : ReturnBlock V X → Option (ReturnBlock V X)
  return_rvo empty = none
  return_rvo r = some r

  -- `co_return return_exception`
  unfoldable pub return_exception : X → ReturnBlock V X → Option (ReturnBlock V X)
  unfolding set_exception
  return_exception x r = set_exception x r

  unfoldable pub result : ReturnBlock V X → Option V
  result (val v) = some v
  result _ = none

  -- the place for a value that is made from the arguments
  unfoldable pub return_place : V → ReturnBlock V X → Option (ReturnBlock V X)
  return_place v empty = some (val v)
  return_place v _ = none
