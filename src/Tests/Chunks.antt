-- ===== src/Tests/Chunks.antt =====
-- A `stack_resource` with a buffer and one chunk.
use kelcoro.Base.{◌+◌, ◌⊎◌, inr, refl, some, none, arith, [], ◌∷◌, ◌==◌, if◌then◌else◌}
use kelcoro.Memory.{Store, put}
use kelcoro.Memory.Live.{Live}
use kelcoro.Memory.Returns.{Returns}
use kelcoro.StackResource.{
  ChunkHeader, StackResource, aligned, allocate, deallocate, reuse_memory, destroy, move_assign,
}
use kelcoro.StackResource.Stacked.{bottom, block, chunk, nil, Holds, Keeps, regions_at}
use kelcoro.StackResource.Nested.{IsNew, allocate-Keeps}
use kelcoro.StackResource.Dropped.{deallocate-Keeps}
use kelcoro.StackResource.Freed.{Reused, reuse_memory-Reused, Freed, destroy-Freed}
use kelcoro.StackResource.Moved.{move_assign-Holds}

-- The buffer is full; a chunk of 256 bytes behind its header at 4096 has been in use and is empty.
abbrev header : ChunkHeader
header = record { b = 1024; m = 1072; e = 1072; freelist_next = 0 }

abbrev heap : Store ChunkHeader
heap = put (λ _. none) 4096 (some header)

abbrev grown : StackResource
grown = record { buffer = 1024; buffer_size = 48; b = 4128; m = 4128; e = 4384; freelist = 0 }

header-Live : Live heap 4096 header
unfolding put
header-Live = record { ne_null = ground arith; holds = refl }

grown-Holds : Holds heap grown ((1024, 1072) ∷ []) [] ((1024, aligned 40) ∷ [])
unfolding aligned
grown-Holds = record {
  start = 4096;
  stacked =
      chunk header-Live refl (ground arith) (ground arith) (ground arith) (ground arith)
        (block refl (ground arith) (ground arith) (bottom (ground arith) (ground arith)))
        (inr (ground arith), tt);
  chunks = nil;
  apart = (tt, (tt, tt));
}

chunk_at_8192 : IsNew 8192 300 grown-Holds
unfolding aligned
chunk_at_8192 = record {
  fits = record {
    size = ground arith;
    whole = ground arith;
    real = ground arith;
    at_align = ground arith;
  };
  used = (inr (ground arith), (inr (ground arith), tt));
  free = tt;
}

-- A block of 300 bytes does not fit.
allocate-Keeps_example :
    Returns
      (λ (p, r) t.
        Keeps t r ((p, aligned 300) ∷ (1024, aligned 40) ∷ []) (λ a. regions_at a grown-Holds)
        ⊎ Keeps t r
            ((p, aligned 300) ∷ (1024, aligned 40) ∷ [])
            (λ a. regions_at a grown-Holds + (if a == 8192 then 1 else 0)))
      (allocate 1 8192 300 grown heap)
allocate-Keeps_example = allocate-Keeps 1 8192 300 grown grown-Holds chunk_at_8192 (ground arith)

-- The block of the buffer goes back, past the empty chunk.
deallocate-Keeps_example :
    Returns (λ r t. Keeps t r [] (λ a. regions_at a grown-Holds)) (deallocate 2 1024 40 grown heap)
deallocate-Keeps_example = deallocate-Keeps 2 grown 1024 40 grown-Holds (ground arith)

reuse_memory-Reused_example :
    Returns
      (Reused heap grown ((1024, aligned 40) ∷ []) (λ a. regions_at a grown-Holds) 1)
      (reuse_memory 2 grown heap)
reuse_memory-Reused_example = reuse_memory-Reused 2 grown grown-Holds (ground arith)

destroy-Freed_example :
    Returns (λ _ t. Freed heap grown (λ a. regions_at a grown-Holds) t) (destroy 2 grown heap)
destroy-Freed_example = destroy-Freed 2 grown grown-Holds (ground arith)

-- A resource that is only a buffer elsewhere.
abbrev small : StackResource
small = record { buffer = 512; buffer_size = 16; b = 512; m = 512; e = 528; freelist = 0 }

small-Holds : Holds heap small [] [] []
small-Holds = record {
  start = 512;
  stacked = bottom (ground arith) (ground arith);
  chunks = nil;
  apart = (tt, tt);
}

move_assign-Holds_example :
    Returns
      (λ (this, that) t.
        Holds t this [] [] []
        × Holds t that [] [] []
        × Freed heap grown (λ a. regions_at a grown-Holds) t)
      (move_assign 2 grown small heap)
unfolding grown-Holds small-Holds
move_assign-Holds_example =
    move_assign-Holds 2 grown small grown-Holds small-Holds (λ a h. ground arith) (ground arith)
