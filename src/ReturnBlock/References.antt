-- ===== src/ReturnBlock/References.antt =====
-- include/kelcoro/common.hpp: `return_block<T&>` and `return_block<void>`. An address or an exception of
-- 0 is null; an assertion that fails is `none`.
use kelcoro.Base.{Bool, true, false, not, Option, none, some, ◌==◌, if◌then◌else◌}
use kelcoro.Node.{Ptr, null}

-- `return_block<T&>`; the exception is held by a `std::exception_ptr`
pub record RefBlock : Type 0 where
  pub storage : Ptr
  pub ex : Ptr

abbrev pub new_block : RefBlock
new_block = record { storage = null; ex = null }

unfoldable pub has_exception : RefBlock → Bool
has_exception r = not (r.ex == null)

-- An exception that is there is replaced.
unfoldable pub set_exception : Ptr → RefBlock → RefBlock
set_exception e r = record r { ex = e }

unfoldable pub take_exception : RefBlock → Option (Ptr × RefBlock)
unfolding has_exception
take_exception r = if has_exception r then some (r.ex, record r { ex = null }) else none

unfoldable pub return_value : Ptr → RefBlock → Option RefBlock
return_value p r = if r.storage == null then some (record r { storage = p }) else none

-- `co_return dd::rvo`
unfoldable pub return_rvo : RefBlock → Option RefBlock
return_rvo r = if r.storage == null then none else some r

unfoldable pub return_exception : Ptr → RefBlock → RefBlock
unfolding set_exception
return_exception e r = set_exception e r

unfoldable pub result : RefBlock → Option Ptr
result r = if r.storage == null then none else some r.storage

unfoldable pub return_place : Ptr → RefBlock → RefBlock
return_place p r = record r { storage = p }

-- `result_or_rethrow` of a promise with such a block: the flag says whether it is the value or the
-- exception
unfoldable pub rethrow_or_result : RefBlock → Option (Bool × Ptr)
unfolding has_exception take_exception result
rethrow_or_result r =
    if has_exception r
    then elim (take_exception r) [ none ↦ none | some (e, r') ↦ some (false, e) ]
    else elim (result r) [ none ↦ none | some p ↦ some (true, p) ]

-- `return_block<void>`
pub record VoidBlock : Type 0 where
  pub void_ex : Ptr

unfoldable pub void_has_exception : VoidBlock → Bool
void_has_exception r = not (r.void_ex == null)

unfoldable pub void_set_exception : Ptr → VoidBlock → VoidBlock
void_set_exception e r = record { void_ex = e }

unfoldable pub void_take_exception : VoidBlock → Option (Ptr × VoidBlock)
unfolding void_has_exception
void_take_exception r =
    if void_has_exception r then some (r.void_ex, record { void_ex = null }) else none
