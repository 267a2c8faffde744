-- ===== src/Tests/Blocks.antt =====
-- Allocation and stored results on concrete values.
use kelcoro.Base.{refl, none, some, arith}
use kelcoro.Memory.{Store, put}
use kelcoro.Memory.Returns.{Returns}
use kelcoro.StackResource.{ChunkHeader, StackResource, aligned, allocate}
use kelcoro.StackResource.Blocks.{
  FreeList, nil, cons, IsFree, IsResource, Fits, Allocated, allocate-IsBlock,
}

-- A buffer of 64 bytes at 1024, of which 48 are in use, and a free chunk of 256 bytes behind the header
-- at 4096.
abbrev free_chunk : ChunkHeader
free_chunk = record { b = 4128; m = 4128; e = 4384; freelist_next = 0 }

abbrev heap : Store ChunkHeader
heap = put (λ _. none) 4096 (some free_chunk)

abbrev nearly_full : StackResource
nearly_full = record {
  buffer = 1024;
  buffer_size = 64;
  b = 1024;
  m = 1072;
  e = 1088;
  freelist = 4096;
}

free_chunk-IsFree : IsFree free_chunk
free_chunk-IsFree = record {
  no_frames = refl;
  ordered = ground arith;
  small = ground arith;
  at_align = ground arith;
}

heap-FreeList : FreeList heap 4096 1
unfolding put
heap-FreeList =
    cons {h = free_chunk} (record { ne_null = ground arith; holds = refl }) free_chunk-IsFree nil

nearly_full-IsResource : IsResource heap nearly_full 1
nearly_full-IsResource = record {
  above = ground arith;
  below = ground arith;
  small = ground arith;
  at_align = ground arith;
  free = heap-FreeList;
}

hundred-Fits : Fits 8192 100 nearly_full
unfolding aligned
hundred-Fits = record {
  size = ground arith;
  whole = ground arith;
  real = ground arith;
  at_align = ground arith;
}

allocate-IsBlock_example : Returns (Allocated 100) (allocate 2 8192 100 nearly_full heap)
allocate-IsBlock_example =
    allocate-IsBlock 2 8192 100 nearly_full 1 nearly_full-IsResource hundred-Fits (ground arith)
