-- ===== src/Memory/Returns.antt =====
-- A command that comes to its end, with what holds then of its result and the store.
use kelcoro.Base.{◌≡◌, refl}
use kelcoro.Memory.{Store, Run, done, fault, no_fuel, Cmd, continue}

pub data Returns {C A : Type 0} (P : A → Store C → Type 0) : Run C A → Type 0 where
  returns : {a : A} {s : Store C} → P a s → Returns P (done a s)

module _ {C A : Type 0} {P : A → Store C → Type 0} where
  -- Sequencing: what the first command ends in is where the second one starts.
  pub and_then :
      {B : Type 0} {Q : B → Store C → Type 0} {r : Run C A} {k : A → Cmd C B}
      → Returns P r
      → ((a : A) (s : Store C) → P a s → Returns Q (k a s))
      → Returns Q (continue r k)
  and_then (returns h) next = next _ _ h

  pub weaken :
      {Q : A → Store C → Type 0} {r : Run C A}
      → Returns P r
      → ((a : A) (s : Store C) → P a s → Q a s)
      → Returns Q r
  weaken (returns h) imp = returns (imp _ _ h)

-- Two continuations of one run agree if they agree where the run ends.
pub continue-congr :
    {C A B : Type 0} (r : Run C A) (f g : A → Cmd C B)
    → ((a : A) (s : Store C) → r ≡ done a s → f a s ≡ g a s)
    → continue r f ≡ continue r g
continue-congr (done a s) f g h = h a s refl
continue-congr fault f g h = refl
continue-congr no_fuel f g h = refl

pub continue_assoc :
    {C A B D : Type 0} (r : Run C A) (f : A → Cmd C B) (g : B → Cmd C D)
    → continue (continue r f) g ≡ continue r (λ a s. continue (f a s) g)
continue_assoc (done a s) f g = refl
continue_assoc fault f g = refl
continue_assoc no_fuel f g = refl

pub continue-eq-done :
    {C A B : Type 0} (r : Run C A) (f : A → Cmd C B) {b : B} {t : Store C}
    → continue r f ≡ done b t
    → (a : A) × (s : Store C) × (r ≡ done a s) × (f a s ≡ done b t)
continue-eq-done (done a s) f e = (a, s, refl, e)
continue-eq-done fault f e = cc
continue-eq-done no_fuel f e = cc
