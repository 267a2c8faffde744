-- ===== src/Tests/FrameSizes.antt =====
-- A resource that counts its allocations, aligned to 8, and a frame of 100 bytes from it.
use kelcoro.Base.{ℕ, ◌+◌, ◌-◌, ◌≡◌, refl, false, Option, none, some, arith}
use kelcoro.FrameMemory.{Resource, aligned, do_allocate, operator_delete}
use kelcoro.FrameMemory.Deleted.{operator_delete-do_allocate}

abbrev counting : Resource ℕ
counting = record {
  allocate = λ n s. (64, s + 1);
  deallocate = λ p n s. s - 1;
  is_empty = false;
  size_of = 8;
  align_of = 8;
}

abbrev nowhere : ℕ → Option ℕ
nowhere a = none

aligned_100 : aligned 8 100 ≡ 104
unfolding aligned
aligned_100 = refl

operator_delete-do_allocate_example :
    ((do_allocate counting 100 0 nowhere).0 ≡ 64)
    × (operator_delete counting 0 64 100 (do_allocate counting 100 0 nowhere).2 ≡ some 0)
operator_delete-do_allocate_example =
    operator_delete-do_allocate counting 3 61 8 100 0 1 64 0 nowhere
      (do_allocate counting 100 0 nowhere).2 refl refl refl (omega arith) refl refl (λ a le. refl)
