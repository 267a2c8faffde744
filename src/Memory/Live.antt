-- ===== src/Memory/Live.antt =====
-- What is known of an access to a live cell.
use kelcoro.Base.{◌≡◌, ◌≢◌, false, Option, some, arith, ◌==◌}
use kelcoro.Memory.{Ptr, null, Store, put, done, read}

pub record Live {C : Type 0} (s : Store C) (p : Ptr) (n : C) : Type 0 where
  pub ne_null : p ≢ null
  pub holds : s p ≡ some n

module _ {C : Type 0} {s : Store C} {p : Ptr} {n : C} (v : Live s p n) where
  pub not_null : (p == null) ≡ false
  not_null = let h : p ≢ null = v.ne_null in ground arith

  pub read-live : read p s ≡ done n s
  unfolding read
  read-live = rw (not_null, v.holds)

  pub Live-put : (m : C) → Live (put s p (some m)) p m
  unfolding put
  Live-put m = record { ne_null = v.ne_null; holds = ground arith }

  -- A write elsewhere leaves the cell alone.
  pub Live-put_ne : (q : Ptr) (c : Option C) → p ≢ q → Live (put s q c) p n
  unfolding put
  Live-put_ne q c ne = record {
    ne_null = v.ne_null;
    holds = let h : s p ≡ some n = v.holds in ground arith;
  }
