-- ===== src/FrameMemory/Sizes.antt =====
-- include/kelcoro/memory_support.hpp: `aligned` for an alignment that is a power of two.
use native.Mathlib.Nat.{mul-mod_left}
use kelcoro.Base.{
  ℕ, zero, suc, ◌+◌, ◌-◌, ◌*◌, ◌%◌, ◌≤◌, ◌<◌, ◌≡◌, refl, ap, ◌∙◌, true, false, ltb, ne→==, size_mod,
  size_add, arith,
}
use kelcoro.FrameMemory.{aligned, has_single_bit}
use kelcoro.FrameMemory.Masks.{pow, shl, shr, pow_positive, shl-shr, bit_and-pow, bit_and-mask}

pow-suc_even : (k : ℕ) → ltb (pow (suc k)) 2 ≡ false
pow-suc_even k = let p = pow_positive k in ground arith

has_single_bit-pow : (k : ℕ) → has_single_bit (pow k) ≡ true
has_single_bit-pow k =
    let p = pow_positive k in rw (ne→== (pow k) 0 (ground arith), bit_and-pow k) refl

shl-mul : (k q : ℕ) → shl k q ≡ q * pow k
shl-mul zero q = omega arith
shl-mul (suc k) q = omega (arith, shl-mul k q)

-- The size is cut to a multiple after the mask has been added.
aligned-pow :
    (k j size : ℕ)
    → shl k (pow j) ≡ size_mod
    → size + (pow k - 1) < size_mod
    → aligned (pow k) size ≡ shl k (shr k (size + (pow k - 1)))
unfolding aligned
aligned-pow zero j size all lt = omega arith
aligned-pow (suc k) j size all lt =
    let x = size + (pow (suc k) - 1) in
    let p = pow_positive k in
    let sum : size_add size (pow (suc k) - 1) ≡ x = omega arith in
    let mask : size_mod - 1 - (pow (suc k) - 1) ≡ shl (suc k) (pow j) - pow (suc k) = omega arith in
    let below : x < shl (suc k) (pow j) = omega arith in
    rw (pow-suc_even k, has_single_bit-pow (suc k), sum, mask) (bit_and-mask (suc k) j x below)

-- `aligned` gives the least multiple of 2 ^ k that is not below the size; the parts of the multiple
-- are its digits without the last k.
pub aligned-multiple :
    (k j size : ℕ)
    → shl k (pow j) ≡ size_mod
    → size + (pow k - 1) < size_mod
    → (size ≤ aligned (pow k) size)
      × (aligned (pow k) size < size + pow k)
      × (q : ℕ) × (aligned (pow k) size ≡ shl k q)
aligned-multiple k j size all lt =
    let (low, high) = shl-shr k (size + (pow k - 1)) in
    let p = pow_positive k in
    let e = aligned-pow k j size all lt in (omega arith, omega arith, shr k (size + (pow k - 1)), e)

pub shl-mod : (k q : ℕ) → shl k q % pow k ≡ 0
shl-mod k q = ap (λ v. v % pow k) (shl-mul k q) ∙ mul-mod_left q (pow k)
