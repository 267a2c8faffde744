-- ===== src/FrameMemory.antt =====
-- include/kelcoro/memory_support.hpp: `overload_new_delete`, the frame of a coroutine in memory from a
-- resource, and the resource behind it. The resource is a parameter.
pub mod Masks
pub mod Sizes
pub mod Deleted
use kelcoro.Base.{
  ℕ, suc, ◌+◌, ◌-◌, ◌%◌, Bool, true, false, not, ◌&&◌, Option, none, some, ◌==◌, ltb, size_mod,
  size_add, size_sub, if◌then◌else◌,
}
use kelcoro.Node.{Ptr}
use Prim.Native.Nat.{bit_and}

-- `~x`
abbrev pub size_not : ℕ → ℕ
size_not x = size_mod - 1 - x

-- `std::has_single_bit`
abbrev pub has_single_bit : ℕ → Bool
has_single_bit a = not (a == 0) && (bit_and a (a - 1) == 0)

unfoldable pub aligned : ℕ → ℕ → ℕ
aligned align size =
    if ltb align 2
    then size
    else if has_single_bit align
    then bit_and (size_add size (align - 1)) (size_not (align - 1))
    else size_add size ((align - size % align) % align)

-- A memory resource: its state, what `allocate` and `deallocate` do, `std::is_empty_v`, `sizeof` and
-- `alignof`.
pub record Resource (S : Type 0) : Type 0 where
  pub allocate : ℕ → S → Ptr × S
  pub deallocate : Ptr → ℕ → S → S
  pub is_empty : Bool
  pub size_of : ℕ
  pub align_of : ℕ

module _ {S : Type 0} (R : Resource S) where
  -- `do_allocate`: the frame, the resource that is left, and the memory, in which resources live
  unfoldable pub do_allocate : ℕ → S → (Ptr → Option S) → Ptr × S × (Ptr → Option S)
  unfolding aligned
  do_allocate frame_sz r memory = elim R.is_empty [
    | true ↦ let (p, r') = R.allocate frame_sz r in (p, r', memory)
    | false ↦
        let size = aligned R.align_of frame_sz in
        let (p, r') = R.allocate (size_add size R.size_of) r in
        (p, r', λ a. if a == p + size then some r' else memory a)
  ]

  -- `operator delete`: the resource after it; an empty resource is made on the spot. `none` is a failed
  -- assertion, or a place where no resource lives.
  unfoldable pub operator_delete : S → Ptr → ℕ → (Ptr → Option S) → Option S
  unfolding aligned
  operator_delete made ptr frame_sz memory = elim R.is_empty [
    | true ↦ some (R.deallocate ptr frame_sz made)
    | false ↦
        let size = aligned R.align_of frame_sz in
        if (ptr + size) % R.align_of == 0
        then elim (memory (ptr + size)) [
          | none ↦ none
          | some r ↦ some (R.deallocate ptr (size_add size R.size_of) r)
        ]
        else none
  ]
