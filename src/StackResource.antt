-- ===== src/StackResource.antt =====
-- include/kelcoro/stack_memory_resource.hpp: `stack_resource`, with `padding_len` of memory_support.hpp.
-- Addresses are numbers; the headers of the chunks are the cells of the memory. What `new` returns is
-- an argument.
pub mod Blocks
pub mod Stacked
pub mod Dropped
pub mod Freed
pub mod Taken
pub mod Nested
pub mod Moved
use kelcoro.Base.{
  ℕ, zero, suc, ◌+◌, ◌-◌, ◌*◌, ◌%◌, not, ◌&&◌, ◌||◌, Option, none, some, leb, ◌==◌, if◌then◌else◌,
  size_add, size_sub, size_mod,
}
use kelcoro.Memory
use kelcoro.Memory.{Ptr, null, done, pure, starve, ◌>>=◌, ◌>>◌, check, read, write, free}

-- `coroframe_align()` and `sizeof(chunk_header)`
abbrev pub align : ℕ
align = 16

abbrev pub header_size : ℕ
header_size = 32

-- `chunk_header`: while the chunk is in use, the state of the one before
pub record ChunkHeader : Type 0 where
  pub b : Ptr
  pub m : Ptr
  pub e : Ptr
  pub freelist_next : Ptr

abbrev pub Cmd : Type 0 → Type 0
Cmd = Memory.Cmd ChunkHeader

abbrev pub capacity : ChunkHeader → ℕ
capacity c = size_sub c.e c.b

-- `freelist` is the top of the list.
pub record StackResource : Type 0 where
  pub buffer : Ptr
  pub buffer_size : ℕ
  pub b : Ptr
  pub m : Ptr
  pub e : Ptr
  pub freelist : Ptr

-- from an aligned buffer
unfoldable pub new_resource : Ptr → ℕ → StackResource
new_resource buffer size = record {
  buffer = buffer;
  buffer_size = size;
  b = buffer;
  m = buffer;
  e = buffer + size;
  freelist = null;
}

unfoldable pub padding_len : ℕ → ℕ → ℕ
padding_len padding sz = (padding - sz % padding) % padding

unfoldable pub aligned : ℕ → ℕ
unfolding padding_len
aligned bytes = size_add bytes (padding_len align bytes)

-- `freelist_t::push`
unfoldable pub push : Ptr → Ptr → Cmd Ptr
push top chunk = do c ← read chunk; write chunk (record c { freelist_next = top }); pure chunk

-- The loop of `take_atleast`: the chunk, or nullptr, and the new top.
unfoldable pub take_loop : ℕ → Ptr → ℕ → Ptr → Ptr → Cmd (Ptr × Ptr)
take_loop zero top bytes prev c = starve
take_loop (suc k) top bytes prev c = if c == null then pure (null, top) else do
  h ← read c
  check (h.b == h.m)
  if leb bytes (capacity h)
      then (if prev == null then pure (c, h.freelist_next) else do
        p ← read prev
        write prev (record p { freelist_next = h.freelist_next })
        pure (c, top))
      else take_loop k top bytes c h.freelist_next

unfoldable pub take_atleast : ℕ → Ptr → ℕ → Cmd (Ptr × Ptr)
unfolding take_loop
take_atleast fuel top bytes = take_loop fuel top bytes null top

-- `drop_cur_chunk`
unfoldable pub drop_cur_chunk : StackResource → Cmd StackResource
unfolding push
drop_cur_chunk r = do
  check (r.b == r.m)
  check (not (r.b == r.buffer))
  let chunk = r.b - header_size
  c ← read chunk
  write chunk (record c { b = r.b; m = r.m; e = r.e })
  top ← push r.freelist chunk
  pure (record r { b = c.b; m = c.m; e = c.e; freelist = top })

-- the size of a new chunk
unfoldable pub alloc_bytes : StackResource → ℕ → ℕ
alloc_bytes r len = (len + size_sub r.e r.b + r.buffer_size) * 2 % size_mod

-- a chunk from the free list becomes the current one and keeps the state of the last one
unfoldable pub enter_chunk : Ptr → ℕ → StackResource → Cmd (Ptr × StackResource)
enter_chunk chunk l r = do
  c ← read chunk
  check (c.b == c.m)
  write chunk (record c { b = r.b; m = r.m; e = r.e })
  pure (c.b, record r { b = c.b; m = c.m + l; e = c.e })

-- a chunk that `new` has returned at `raw` does
unfoldable pub new_chunk : Ptr → ℕ → StackResource → Cmd (Ptr × StackResource)
unfolding alloc_bytes
new_chunk raw l r = do
  write raw (record { b = r.b; m = r.m; e = r.e; freelist_next = null })
  pure (
    raw + header_size,
    record r {
      b = raw + header_size;
      m = raw + header_size + l;
      e = raw + header_size + alloc_bytes r l;
    },
  )

-- `allocate`, where `new` would return `raw`: the address, and the resource afterwards
unfoldable pub allocate : ℕ → Ptr → ℕ → StackResource → Cmd (Ptr × StackResource)
unfolding aligned take_atleast enter_chunk new_chunk
allocate fuel raw len r =
    if leb (aligned len) (size_sub r.e r.m)
    then pure (r.m, record r { m = r.m + aligned len })
    else do
      (chunk, top) ← take_atleast fuel r.freelist (aligned len)
      if chunk == null
          then new_chunk raw (aligned len) (record r { freelist = top })
          else enter_chunk chunk (aligned len) (record r { freelist = top })

-- The loop of `deallocate` over the chunks, to where the pointer is.
unfoldable pub drop_until : ℕ → Ptr → ℕ → StackResource → Cmd StackResource
unfolding drop_cur_chunk
drop_until zero ptr len r = starve
drop_until (suc k) ptr len r =
    if ptr == size_sub r.m len
    then pure r
    else do check (leb ptr r.b || leb r.e ptr); r' ← drop_cur_chunk r; drop_until k ptr len r'

unfoldable pub deallocate : ℕ → Ptr → ℕ → StackResource → Cmd StackResource
unfolding drop_until aligned
deallocate fuel ptr len r = do
  check (ptr % 16 == 0)
  r' ← drop_until fuel ptr (aligned len) r
  pure (record r' { m = size_sub r'.m (aligned len) })

-- `reuse_memory`
unfoldable pub reuse_memory : ℕ → StackResource → Cmd StackResource
reuse_memory zero r = starve
reuse_memory (suc k) r =
    if r.b == r.buffer
    then pure r
    else do r' ← drop_cur_chunk (record r { m = r.b }); reuse_memory k r'

-- `delete[]` of what `new` has returned
unfoldable pub delete : Ptr → Cmd (Unit {0})
delete p = do c ← read p; free p

-- `freelist_t::drop_all`
unfoldable pub drop_all : ℕ → Ptr → Cmd (Unit {0})
unfolding delete
drop_all zero top = starve
drop_all (suc k) top =
    if top == null then pure tt else do c ← read top; delete top; drop_all k c.freelist_next

-- the destructor
unfoldable pub destroy : ℕ → StackResource → Cmd (Unit {0})
unfolding reuse_memory drop_all
destroy fuel r = do r' ← reuse_memory fuel r; drop_all fuel r'.freelist

-- what a move leaves behind
unfoldable pub moved_from : StackResource
moved_from = record {
  buffer = null;
  buffer_size = 0;
  b = null;
  m = null;
  e = null;
  freelist = null;
}

-- the move constructor: the new object and the other one
unfoldable pub move_construct : StackResource → StackResource × StackResource
unfolding moved_from
move_construct other = (other, moved_from)

-- the move assignment from another object: this object and the other one
unfoldable pub move_assign : ℕ → StackResource → StackResource → Cmd (StackResource × StackResource)
unfolding destroy move_construct
move_assign fuel r other = do destroy fuel r; pure (move_construct other)

-- `align_span`: by `std::align`, the aligned part of a span, or none
unfoldable pub align_span : Ptr → ℕ → Ptr × ℕ
unfolding padding_len
align_span ptr sz =
    if leb (padding_len align ptr) sz
    then (ptr + padding_len align ptr, sz - padding_len align ptr)
    else (null, 0)

-- the constructor
unfoldable pub from_span : Ptr → ℕ → StackResource
unfolding align_span new_resource
from_span ptr sz = let (buffer, size) = align_span ptr sz in new_resource buffer size
