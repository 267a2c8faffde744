-- ===== src/FrameMemory/Deleted.antt =====
-- include/kelcoro/memory_support.hpp: what `operator new` has allocated and `operator delete` frees.
use kelcoro.Base.{
  ℕ, ◌+◌, ◌-◌, ◌%◌, ◌≤◌, ◌<◌, ◌≡◌, refl, sym, ap, ◌∙◌, false, ◌==◌, eq→==, size_mod, if◌then◌else◌,
  size_add, arith, Option, some,
}
use kelcoro.Node.{Ptr}
use kelcoro.FrameMemory.{aligned, Resource, do_allocate, operator_delete}
use kelcoro.FrameMemory.Masks.{pow, shl, shl-add}
use kelcoro.FrameMemory.Sizes.{aligned-multiple, shl-mod}

module _ {S : Type 0} (R : Resource S) where
  do_allocate_lem :
      (k size : ℕ) (r r' : S) (p : Ptr) (memory : Ptr → Option S)
      → R.is_empty ≡ false
      → R.align_of ≡ pow k
      → R.allocate (size_add (aligned (pow k) size) R.size_of) r ≡ (p, r')
      → do_allocate R size r memory
        ≡ (p, r', λ a. if a == p + aligned (pow k) size then some r' else memory a)
  unfolding do_allocate
  do_allocate_lem k size r r' p memory full align allocated =
      rw (do_allocate, full, align, allocated) refl

  -- A coroutine frame from a resource that is not empty is freed as it was allocated: after any
  -- writes below the end of the frame, `operator delete`, whose assertion holds, calls
  -- `deallocate` of the resource that `do_allocate` left behind the frame, with the address and
  -- the number of bytes of the allocation. The alignment of the resource is a power of two, of
  -- which `allocate` returns a multiple, and rounding the size up to it does not overflow.
  pub operator_delete-do_allocate :
      (k j u size : ℕ) (r r' : S) (p : Ptr) (made : S) (memory later : Ptr → Option S)
      → R.is_empty ≡ false
      → R.align_of ≡ pow k
      → shl k (pow j) ≡ size_mod
      → size + (pow k - 1) < size_mod
      → R.allocate (size_add (aligned (pow k) size) R.size_of) r ≡ (p, r')
      → p ≡ shl k u
      → ((a : Ptr) → p + size ≤ a → later a ≡ (do_allocate R size r memory).2 a)
      → ((do_allocate R size r memory).0 ≡ p)
        × (operator_delete R made p size later
            ≡ some (R.deallocate p (size_add (aligned (pow k) size) R.size_of) r'))
  unfolding do_allocate operator_delete
  operator_delete-do_allocate k j u size r r' p made memory later full align all lt allocated at
        same =
      let (low, high, q, multiple) = aligned-multiple k j size all lt in
      let n = aligned (pow k) size in
      let new = do_allocate_lem k size r r' p memory full align allocated in
      let place : later (p + n) ≡ some r' =
        same (p + n) (omega arith) ∙ (rw (new, eq→== (p + n) (p + n) refl) refl) in
      let even : (p + n) % pow k ≡ 0 =
        ap (λ a. a % pow k) (rw (at, multiple) (sym (shl-add k u q))) ∙ shl-mod k (u + q) in
      (
        ap (λ v. v.0) new,
        rw (operator_delete, full, align, even, place)
            (ap (λ a. some (R.deallocate p (size_add (aligned a size) R.size_of) r')) align),
      )
