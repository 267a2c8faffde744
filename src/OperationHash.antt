-- ===== src/OperationHash.antt =====
-- include/kelcoro/operation_hash.hpp: the FNV-1a hash of an address, with 64-bit `size_t` and
-- pointers of 8 bytes, lowest byte first.
use Prim.Native.Nat.{bit_xor}
use kelcoro.Base.{ℕ, zero, suc, ◌*◌, ◌/◌, ◌%◌, size_mod}

abbrev pub fnv_offset_basis : ℕ
fnv_offset_basis = 14695981039346656037

abbrev pub fnv_prime : ℕ
fnv_prime = 1099511628211

-- the `n` lowest bytes of `ptr`, from the lowest on
unfoldable pub hash_bytes : ℕ → ℕ → ℕ → ℕ
hash_bytes zero ptr val = val
hash_bytes (suc n) ptr val =
    hash_bytes n (ptr / 256) (bit_xor val (ptr % 256) * fnv_prime % size_mod)

unfoldable pub do_hash : ℕ → ℕ
unfolding hash_bytes
do_hash ptr = hash_bytes 8 ptr fnv_offset_basis

-- `operation_hash` of a coroutine handle is that of the frame's address.
unfoldable pub calculate_operation_hash : ℕ → ℕ
unfolding do_hash
calculate_operation_hash handle = do_hash handle
