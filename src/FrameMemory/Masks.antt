-- ===== src/FrameMemory/Masks.antt =====
-- Powers of two, and `bit_and` with a mask whose lowest digits are zero.
use Prim.Native.Nat.{bit_and, bit_and-bitwise, digits, min}
use kelcoro.Base.{ℕ, zero, suc, ◌+◌, ◌-◌, ◌*◌, ◌/◌, ◌%◌, ◌≤◌, ◌<◌, ◌≡◌, refl, sym, ap, ◌∙◌, arith}

digits_fuel :
    (n m a b : ℕ) → a ≤ n → a ≤ m → digits (λ y. zero) min n a b ≡ digits (λ y. zero) min m a b
digits_fuel zero zero a b h h' = refl
digits_fuel zero (suc m) zero b h h' = refl
digits_fuel zero (suc m) (suc a) b h h' = absurd (omega arith)
digits_fuel (suc n) zero zero b h h' = refl
digits_fuel (suc n) zero (suc a) b h h' = absurd (omega arith)
digits_fuel (suc n) (suc m) zero b h h' = refl
digits_fuel (suc n) (suc m) (suc a) b h h' =
    ap (λ v. v * 2 + min (suc a % 2) (b % 2))
      (digits_fuel n m (suc a / 2) (b / 2) (omega arith) (omega arith))

bit_and-halves : (a b : ℕ) → bit_and a b ≡ bit_and (a / 2) (b / 2) * 2 + min (a % 2) (b % 2)
bit_and-halves zero b = omega (arith, bit_and-bitwise zero b, bit_and-bitwise zero (b / 2))
bit_and-halves (suc a) b =
    bit_and-bitwise (suc a) b
    ∙ ap (λ v. v * 2 + min (suc a % 2) (b % 2))
        (digits_fuel a (suc a / 2) (suc a / 2) (b / 2) (omega arith) (omega arith)
          ∙ sym (bit_and-bitwise (suc a / 2) (b / 2)))

min-zero : (y : ℕ) → min y 0 ≡ 0
min-zero y = omega arith

min_one : (y : ℕ) → y < 2 → min y 1 ≡ y
min_one zero lt = refl
min_one (suc zero) lt = refl
min_one (suc (suc y)) lt = absurd (omega arith)

bit_and_even : (a b : ℕ) → bit_and a (2 * b) ≡ 2 * bit_and (a / 2) b
bit_and_even a b =
    let half : (2 * b) / 2 ≡ b = omega arith in
    let even : (2 * b) % 2 ≡ 0 = omega arith in
    bit_and-halves a (2 * b) ∙ rw (half, even, min-zero (a % 2)) (omega arith)

bit_and_odd : (a b : ℕ) → bit_and a (2 * b + 1) ≡ 2 * bit_and (a / 2) b + a % 2
bit_and_odd a b =
    let half : (2 * b + 1) / 2 ≡ b = omega arith in
    let odd : (2 * b + 1) % 2 ≡ 1 = omega arith in
    bit_and-halves a (2 * b + 1) ∙ rw (half, odd, min_one (a % 2) (omega arith)) (omega arith)

abbrev pub pow : ℕ → ℕ
pow zero = 1
pow (suc k) = 2 * pow k

-- j ones
abbrev pub ones : ℕ → ℕ
ones zero = 0
ones (suc j) = 2 * ones j + 1

-- k zeros behind a number, and a number without its last k digits
abbrev pub shl : ℕ → ℕ → ℕ
shl zero m = m
shl (suc k) m = 2 * shl k m

abbrev pub shr : ℕ → ℕ → ℕ
shr zero x = x
shr (suc k) x = shr k (x / 2)

pub pow_positive : (k : ℕ) → 1 ≤ pow k
pow_positive zero = omega arith
pow_positive (suc k) = omega (arith, pow_positive k)

ones-pow : (j : ℕ) → ones j + 1 ≡ pow j
ones-pow zero = refl
ones-pow (suc j) = omega (arith, ones-pow j)

bit_and-ones : (j x : ℕ) → x < pow j → bit_and x (ones j) ≡ x
bit_and-ones zero x lt = let e : x ≡ 0 = omega arith in rw (e) refl
bit_and-ones (suc j) x lt =
    bit_and_odd x (ones j) ∙ omega (arith, bit_and-ones j (x / 2) (omega arith))

bit_and-shl : (k x m : ℕ) → bit_and x (shl k m) ≡ shl k (bit_and (shr k x) m)
bit_and-shl zero x m = refl
bit_and-shl (suc k) x m = bit_and_even x (shl k m) ∙ ap (λ v. 2 * v) (bit_and-shl k (x / 2) m)

shr-shl : (k x m : ℕ) → x < shl k m → shr k x < m
shr-shl zero x m lt = lt
shr-shl (suc k) x m lt = shr-shl k (x / 2) m (omega arith)

shl-ones : (k j : ℕ) → shl k (ones j) + pow k ≡ shl k (pow j)
shl-ones zero j = ones-pow j
shl-ones (suc k) j = omega (arith, shl-ones k j)

pub shl-shr : (k x : ℕ) → (shl k (shr k x) ≤ x) × (x < shl k (shr k x) + pow k)
shl-shr zero x = (omega arith, omega arith)
shl-shr (suc k) x = let (low, high) = shl-shr k (x / 2) in (omega arith, omega arith)

pub shl-add : (k x y : ℕ) → shl k (x + y) ≡ shl k x + shl k y
shl-add zero x y = refl
shl-add (suc k) x y = omega (arith, shl-add k x y)

pub bit_and-pow : (k : ℕ) → bit_and (pow k) (pow k - 1) ≡ 0
bit_and-pow zero = refl
bit_and-pow (suc k) =
    let p = pow_positive k in
    let low : 2 * pow k - 1 ≡ 2 * (pow k - 1) + 1 = omega arith in
    let half : (2 * pow k) / 2 ≡ pow k = omega arith in
    rw (low) (bit_and_odd (2 * pow k) (pow k - 1) ∙ rw (half) (omega (arith, bit_and-pow k)))

-- The mask cuts off the last k digits.
pub bit_and-mask :
    (k j x : ℕ) → x < shl k (pow j) → bit_and x (shl k (pow j) - pow k) ≡ shl k (shr k x)
bit_and-mask k j x lt =
    let mask : shl k (pow j) - pow k ≡ shl k (ones j) = omega (arith, shl-ones k j) in
    rw (mask)
      (bit_and-shl k x (ones j) ∙ ap (shl k) (bit_and-ones j (shr k x) (shr-shl k x (pow j) lt)))
