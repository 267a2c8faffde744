-- ===== src/Base/Lists.antt =====
-- Lists measured, indexed and searched by native numbers, under the library's names.
use Prim.Native.Nat.{ℕ, zero, suc, ◌+◌, ◌<◌}
use mathlib.Core.Path.{◌≡◌, refl, ap}
use mathlib.Core.Logic.{◌≢◌, ◌⊎◌, inl, inr}
use mathlib.Core.Bool.{Bool, true, false, ◌||◌}
use mathlib.Core.List.{List, [], ◌∷◌, ◌++◌}
use mathlib.Core.Option.{Option, none, some}
use native.Mathlib.Omega.{arith}
use kelcoro.Base.Tests.{◌==◌, ltb}

module _ {ℓ} {A : Type ℓ} where
  abbrev pub length : List A → ℕ
  length [] = 0
  length (x ∷ xs) = suc (length xs)

  abbrev pub get_elem? : List A → ℕ → Option A
  get_elem? [] i = none
  get_elem? (x ∷ xs) zero = some x
  get_elem? (x ∷ xs) (suc i) = get_elem? xs i

  pub length-append : (xs ys : List A) → length (xs ++ ys) ≡ length xs + length ys
  length-append [] ys = omega arith
  length-append (x ∷ xs) ys = omega (arith, length-append xs ys)

-- A write out of bounds changes nothing.
module _ {ℓ} {A : Type ℓ} where
  abbrev pub set : List A → ℕ → A → List A
  set [] i v = []
  set (x ∷ xs) zero v = v ∷ xs
  set (x ∷ xs) (suc i) v = x ∷ set xs i v

  abbrev pub replicate : ℕ → A → List A
  replicate zero a = []
  replicate (suc n) a = a ∷ replicate n a

  pub length-set : (xs : List A) (i : ℕ) (v : A) → length (set xs i v) ≡ length xs
  length-set [] i v = refl
  length-set (x ∷ xs) zero v = refl
  length-set (x ∷ xs) (suc i) v = ap suc (length-set xs i v)

  pub length-replicate : (n : ℕ) (a : A) → length (replicate n a) ≡ n
  length-replicate zero a = refl
  length-replicate (suc n) a = ap suc (length-replicate n a)

  pub get_elem?-set :
      (xs : List A) (i j : ℕ) (v w : A)
      → get_elem? (set xs i v) j ≡ some w
      → ((i ≡ j) × (w ≡ v)) ⊎ ((i ≢ j) × (get_elem? xs j ≡ some w))
  get_elem?-set [] i j v w h = ground arith
  get_elem?-set (x ∷ xs) zero zero v w h = inl (refl, cc)
  get_elem?-set (x ∷ xs) zero (suc j) v w h = inr (ground arith, h)
  get_elem?-set (x ∷ xs) (suc i) zero v w h = inr (ground arith, h)
  get_elem?-set (x ∷ xs) (suc i) (suc j) v w h = ground (arith, get_elem?-set xs i j v w h)

  pub get_elem?_total : (xs : List A) (i : ℕ) → i < length xs → (x : A) × (get_elem? xs i ≡ some x)
  get_elem?_total [] i h = absurd (omega arith)
  get_elem?_total (x ∷ xs) zero h = (x, refl)
  get_elem?_total (x ∷ xs) (suc i) h = get_elem?_total xs i (omega arith)

  pub get_elem?_below :
      (xs : List A) (i : ℕ) (x : A) → get_elem? xs i ≡ some x → ltb i (length xs) ≡ true
  get_elem?_below [] i x e = ground arith
  get_elem?_below (y ∷ ys) zero x e = ground arith
  get_elem?_below (y ∷ ys) (suc i) x e = ground (arith, get_elem?_below ys i x e)

  pub get_elem?_beyond :
      (xs : List A) (i j : ℕ) (x : A)
      → get_elem? xs i ≡ none
      → get_elem? xs j ≡ some x
      → ltb j i ≡ true
  get_elem?_beyond [] i j x e f = ground arith
  get_elem?_beyond (y ∷ ys) zero j x e f = ground arith
  get_elem?_beyond (y ∷ ys) (suc i) zero x e f = ground arith
  get_elem?_beyond (y ∷ ys) (suc i) (suc j) x e f = ground (arith, get_elem?_beyond ys i j x e f)

-- An element behind copies of another.
module _ {ℓ} {A : Type ℓ} where
  pub get_elem?-replicate : (n j : ℕ) (a x : A) → get_elem? (replicate n a) j ≡ some x → x ≡ a
  get_elem?-replicate zero j a x e = ground arith
  get_elem?-replicate (suc n) zero a x e = cc
  get_elem?-replicate (suc n) (suc j) a x e = get_elem?-replicate n j a x e

  pub get_elem?_behind :
      (i : ℕ) (a x : A) (ys : List A) → get_elem? (replicate i a ++ x ∷ ys) i ≡ some x
  get_elem?_behind zero a x ys = refl
  get_elem?_behind (suc i) a x ys = get_elem?_behind i a x ys

  pub get_elem?_end : (i : ℕ) (a : A) → get_elem? (replicate i a ++ []) i ≡ none
  get_elem?_end zero a = refl
  get_elem?_end (suc i) a = get_elem?_end i a

  pub set_behind :
      (i : ℕ) (a x y : A) (ys : List A)
      → set (replicate i a ++ x ∷ ys) i y ≡ replicate i a ++ y ∷ ys
  set_behind zero a x y ys = refl
  set_behind (suc i) a x y ys = ap (λ l. a ∷ l) (set_behind i a x y ys)

  pub replicate_behind :
      (i : ℕ) (a : A) (ys : List A) → replicate i a ++ a ∷ ys ≡ replicate (suc i) a ++ ys
  replicate_behind zero a ys = refl
  replicate_behind (suc i) a ys = ap (λ l. a ∷ l) (replicate_behind i a ys)

  -- Where an element comes from.
  pub get_elem?_split :
      (i j : ℕ) (a x : A) (ys : List A)
      → get_elem? (replicate i a ++ ys) j ≡ some x
      → (x ≡ a) ⊎ ((k : ℕ) × (j ≡ i + k) × (get_elem? ys k ≡ some x))
  get_elem?_split zero j a x ys e = inr (j, omega arith, e)
  get_elem?_split (suc i) zero a x ys e = inl cc
  get_elem?_split (suc i) (suc j) a x ys e = elim (get_elem?_split i j a x ys e) [
    | inl h ↦ inl h
    | inr (k, at, h) ↦ inr (k, omega (arith, at), h)
  ]

-- Membership of a number, as a test.
abbrev pub has : ℕ → List ℕ → Bool
has a [] = false
has a (x ∷ xs) = a == x || has a xs

pub has-append : (a : ℕ) (xs ys : List ℕ) → has a (xs ++ ys) ≡ (has a xs || has a ys)
has-append a [] ys = refl
has-append a (x ∷ xs) ys = ground (arith, has-append a xs ys)

-- No number is in both lists.
abbrev pub Disjoint : List ℕ → List ℕ → Type 0
Disjoint xs ys = (a : ℕ) → has a xs ≡ true → has a ys ≡ false

abbrev pub All {ℓ κ} : {A : Type ℓ} → (A → Type κ) → List A → Type κ
All P [] = Unit
All P (x ∷ xs) = P x × All P xs
