-- ===== src/ReturnBlock/Rethrown.antt =====
-- include/kelcoro/common.hpp, `return_block<T&>`: what is stored and what is given back.
use kelcoro.Base.{◌≡◌, ◌≢◌, refl, arith, true, false, some}
use kelcoro.Node.{Ptr, null}
use kelcoro.ReturnBlock.References.{
  RefBlock, set_exception, return_value, return_exception, rethrow_or_result, new_block,
}

-- For a task that returns a reference: after `return_value` of an address that is not null the
-- result is that address, and after an exception, with or without a value before, it is that
-- exception.
rethrow_or_result-branches :
    (p e : Ptr)
    → p ≢ null
    → e ≢ null
    → (r : RefBlock) × (return_value p new_block ≡ some r)
      × (rethrow_or_result r ≡ some (true, p))
      × (rethrow_or_result (return_exception e r) ≡ some (false, e))
      × (rethrow_or_result (set_exception e new_block) ≡ some (false, e))
unfolding return_value rethrow_or_result return_exception set_exception
rethrow_or_result-branches p e value_there thrown =
    (record { storage = p; ex = null }, refl, ground arith, ground arith, ground arith)
