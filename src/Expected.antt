-- ===== src/Expected.antt =====
-- include/kelcoro/noexport/expected.hpp: what `when_all` and `when_any` give for one task.
use kelcoro.Base.{Bool, true, false, Option, none, some}

pub data Expected (V X : Type 0) : Type 0 where
  value : V → Expected V X
  unexpected : X → Expected V X

unfoldable pub has_value : {V X : Type 0} → Expected V X → Bool
has_value (value v) = true
has_value (unexpected x) = false

-- `operator*` and `error()`; a failed assertion is `none`
unfoldable pub get_value : {V X : Type 0} → Expected V X → Option V
get_value (value v) = some v
get_value (unexpected x) = none

unfoldable pub get_error : {V X : Type 0} → Expected V X → Option X
get_error (value v) = none
get_error (unexpected x) = some x
