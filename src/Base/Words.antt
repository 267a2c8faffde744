-- ===== src/Base/Words.antt =====
-- `size_t` and `uintptr_t` of the modelled target: 64 bits, arithmetic modulo `2 ^ 64`.
use Prim.Native.Nat.{ℕ, ◌+◌, ◌-◌, ◌%◌, ◌^◌}

abbrev pub size_mod : ℕ
size_mod = 2 ^ 64

abbrev pub size_add : ℕ → ℕ → ℕ
size_add a b = (a + b) % size_mod

-- `a - b` for `b < 2 ^ 64`
abbrev pub size_sub : ℕ → ℕ → ℕ
size_sub a b = (a + (size_mod - b)) % size_mod
