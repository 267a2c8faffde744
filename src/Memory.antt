-- ===== src/Memory.antt =====
-- The memory that the objects of the library share: addresses are numbers, 0 is nullptr, and a store
-- says what lives where. Any access to what does not live is a `fault`, as is a failed `assert`.
-- Loops over pointers take fuel, and `no_fuel` says that it ran out.
pub mod Live
pub mod Returns
use kelcoro.Base.{ℕ, Option, none, some, Bool, ◌==◌, if◌then◌else◌}

abbrev pub Ptr : Type 0
Ptr = ℕ

abbrev pub null : Ptr
null = 0

abbrev pub Store : Type 0 → Type 0
Store C = Ptr → Option C

-- The store with the cell at `p` replaced; `none` ends the life of what stood there.
unfoldable pub put : {C : Type 0} → Store C → Ptr → Option C → Store C
put s p c a = if a == p then c else s a

pub data Run (C A : Type 0) : Type 0 where
  done : A → Store C → Run C A
  fault : Run C A
  no_fuel : Run C A

-- Code that reads and writes a store. The state of other objects is passed explicitly.
abbrev pub Cmd : Type 0 → Type 0 → Type 0
Cmd C A = Store C → Run C A

abbrev pub pure : {C A : Type 0} → A → Cmd C A
pure = done

abbrev pub starve : {C A : Type 0} → Cmd C A
starve s = no_fuel

module _ {C A B : Type 0} where
  abbrev pub continue : Run C A → (A → Cmd C B) → Run C B
  continue (done a s) k = k a s
  continue fault k = fault
  continue no_fuel k = no_fuel

  infixl 5 ◌>>=◌ ◌>>◌
  abbrev pub ◌>>=◌ : Cmd C A → (A → Cmd C B) → Cmd C B
  ◌>>=◌ m k s = continue (m s) k

  abbrev pub ◌>>◌ : Cmd C A → Cmd C B → Cmd C B
  ◌>>◌ m k = m >>= λ _. k

-- `assert(b)`
abbrev pub check : {C : Type 0} → Bool → Cmd C (Unit {0})
check b = if b then pure tt else λ s. fault

-- `*p`
unfoldable pub read : {C : Type 0} → Ptr → Cmd C C
read p s = if p == null then fault else elim (s p) [ none ↦ fault | some n ↦ done n s ]

abbrev pub write : {C : Type 0} → Ptr → C → Cmd C (Unit {0})
write p n s = done tt (put s p (some n))

-- The end of what lives at `p`.
abbrev pub free : {C : Type 0} → Ptr → Cmd C (Unit {0})
free p s = done tt (put s p none)
