-- ===== src/StackResource/Blocks.antt =====
-- include/kelcoro/stack_memory_resource.hpp: the blocks that `allocate` returns.
use kelcoro.Base.{
  sym, subst₂, eq→==, ℕ, zero, suc, ◌+◌, ◌-◌, ◌*◌, ◌%◌, ◌<◌, ◌≤◌, ◌≡◌, ◌≢◌, refl, ◌⊎◌, inl, inr,
  true, Bool-cases, some, arith, leb, ◌==◌, size_sub, size_mod,
}
use kelcoro.Memory.{Ptr, null, Store, put, done}
use kelcoro.Memory.Live.{Live-put, Live-put_ne, Live, not_null, read-live}
use kelcoro.Memory.Returns
use kelcoro.Memory.Returns.{Returns, returns}
use kelcoro.StackResource.{
  capacity, take_atleast, alloc_bytes, header_size, align, ChunkHeader, StackResource, aligned,
  take_loop, allocate, deallocate,
}

-- The aligned length is the least multiple of the alignment that is not below the length, if
-- adding the alignment to it does not overflow `size_t`.
aligned-least :
    (bytes : ℕ)
    → bytes + align < size_mod
    → (aligned bytes % align ≡ 0) × (bytes ≤ aligned bytes) × (aligned bytes < bytes + align)
unfolding aligned
aligned-least bytes small = omega arith

-- A chunk that is free holds nothing, and is aligned.
pub record IsFree (h : ChunkHeader) : Type 0 where
  pub no_frames : h.b ≡ h.m
  pub ordered : h.b ≤ h.e
  pub small : h.e < size_mod
  pub at_align : h.b % align ≡ 0

-- The free list, with the number of its chunks.
pub data FreeList (s : Store ChunkHeader) : Ptr → ℕ → Type 0 where
  nil : FreeList s null 0
  cons :
      {c : Ptr} {h : ChunkHeader} {n : ℕ}
      → Live s c h
      → IsFree h
      → FreeList s h.freelist_next n
      → FreeList s c (suc n)

pub record IsResource (s : Store ChunkHeader) (r : StackResource) (chunks : ℕ) : Type 0 where
  pub above : r.b ≤ r.m
  pub below : r.m ≤ r.e
  pub small : r.e < size_mod
  pub at_align : r.m % align ≡ 0
  pub free : FreeList s r.freelist chunks

-- The block of `l` bytes at `p` is the last one of the current chunk.
pub record IsBlock (p : Ptr) (l : ℕ) (r : StackResource) : Type 0 where
  pub above : r.b ≤ p
  pub ends : p + l ≡ r.m
  pub below : r.m ≤ r.e
  pub at_align : p % align ≡ 0
  pub small : r.e < size_mod

-- What is found, if anything: a free chunk that is large enough.
abbrev Taken : ℕ → Ptr × Ptr → Store ChunkHeader → Type 0
Taken l (c, top) t = (c ≡ null) ⊎ ((h : ChunkHeader) × Live t c h × IsFree h × (h.b + l ≤ h.e))

unlinked :
    {s : Store ChunkHeader} (c prev next : Ptr) {h p : ChunkHeader} (l : ℕ)
    → Live s c h
    → Live s prev p
    → IsFree h
    → h.b + l ≤ h.e
    → (h' : ChunkHeader) × Live (put s prev (some (record p { freelist_next = next }))) c h'
      × IsFree h'
      × (h'.b + l ≤ h'.e)
unlinked {s} c prev next {h} {p} l v w free fits = elim (Bool-cases (c == prev)) [
  | inl same ↦
      let e : c ≡ prev = ground arith in
      let cell : h ≡ p = cell_eq e in
      (
        record h { freelist_next = next },
        subst₂
            (λ a q.
              Live (put s prev (some (record a { freelist_next = next }))) q
                (record h { freelist_next = next }))
            cell (sym e) (Live-put w (record h { freelist_next = next })),
        record {
          no_frames = free.no_frames;
          ordered = free.ordered;
          small = free.small;
          at_align = free.at_align;
        },
        fits,
      )
  | inr other ↦ (h, Live-put_ne v prev _ (λ e. ground arith), free, fits)
]
  where
    cell_eq : c ≡ prev → h ≡ p
    cell_eq e = let a : s c ≡ some p = rw e w.holds in cc (a, v.holds)

capacity_room : (l : ℕ) (h : ChunkHeader) → IsFree h → leb l (capacity h) ≡ true → h.b + l ≤ h.e
capacity_room l h is fits =
    let ordered : h.b ≤ h.e = is.ordered in
    let small : h.e < size_mod = is.small in let le : l ≤ capacity h = ground arith in omega arith

take_loop-Taken :
    (k : ℕ) {s : Store ChunkHeader} (top : Ptr) (l : ℕ) (prev c : Ptr) (n : ℕ)
    → FreeList s c n
    → (prev ≡ null) ⊎ ((p : ChunkHeader) × Live s prev p)
    → n < k
    → Returns (Taken l) (take_loop k top l prev c s)
unfolding take_loop
take_loop-Taken zero top l prev c n free before h = absurd (omega arith)
take_loop-Taken (suc k) top l prev c n nil before h = returns (inl refl)
take_loop-Taken (suc k) top l prev c n (cons {h = hd} v is rest) before h =
    rw (not_null v, read-live v, eq→== hd.b hd.m is.no_frames)
      (elim (Bool-cases (leb l (capacity hd))) [
        | inl fits ↦
            let room : hd.b + l ≤ hd.e = capacity_room l hd is fits in
            elim before [
              | inl first ↦ rw (fits, eq→== prev 0 first) (returns (inr (hd, v, is, room)))
              | inr (p, w) ↦
                  rw (fits, not_null w, read-live w)
                    (returns (inr (unlinked c prev hd.freelist_next l v w is room)))
            ]
        | inr small ↦
            rw small (take_loop-Taken k top l c hd.freelist_next _ rest (inr (hd, v)) (omega arith))
      ])

take_atleast-Taken :
    (k : ℕ) {s : Store ChunkHeader} (top : Ptr) (l n : ℕ)
    → FreeList s top n
    → n < k
    → Returns (Taken l) (take_atleast k top l s)
unfolding take_atleast
take_atleast-Taken k top l n free h = take_loop-Taken k top l null top n free (inl refl) h

deallocate-IsBlock :
    (k : ℕ) (p : Ptr) (len : ℕ) (r : StackResource) (s : Store ChunkHeader)
    → IsBlock p (aligned len) r
    → deallocate (suc k) p len r s ≡ done (record r { m = p }) s
unfolding deallocate
deallocate-IsBlock k p len r s is =
    let l : ℕ = aligned len in
    let ends : p + l ≡ r.m = is.ends in
    let below : r.m ≤ r.e = is.below in
    let small : r.e < size_mod = is.small in
    let back : size_sub r.m l ≡ p = omega arith in
    rw (eq→== _ 0 is.at_align, back, eq→== p p refl, back) refl

-- The conditions of one allocation: sizes that do not overflow, and what `new` returns.
pub record Fits (raw : Ptr) (len : ℕ) (r : StackResource) : Type 0 where
  pub size : len + align < size_mod
  pub whole : raw + header_size + (aligned len + (r.e - r.b) + r.buffer_size) * 2 < size_mod
  pub real : raw ≢ null
  pub at_align : raw % align ≡ 0

new_chunk-IsBlock :
    {s : Store ChunkHeader} {chunks : ℕ} (raw : Ptr) (len : ℕ) (r : StackResource) (top : Ptr)
    → IsResource s r chunks
    → Fits raw len r
    → IsBlock (raw + header_size) (aligned len) (record r {
      b = raw + header_size;
      m = raw + header_size + aligned len;
      e = raw + header_size + alloc_bytes (record r { freelist = top }) (aligned len);
      freelist = top;
    })
unfolding alloc_bytes
new_chunk-IsBlock raw len r top is fits =
    let below : r.m ≤ r.e = is.below in
    let above : r.b ≤ r.m = is.above in
    let small : r.e < size_mod = is.small in
    let whole : raw + header_size + (aligned len + (r.e - r.b) + r.buffer_size) * 2 < size_mod =
      fits.whole in
    let at_align : raw % align ≡ 0 = fits.at_align in
    let bytes : alloc_bytes r (aligned len) ≡ (aligned len + (r.e - r.b) + r.buffer_size) * 2 =
      omega arith in
    record {
      above = omega arith;
      ends = refl;
      below = omega arith;
      at_align = omega arith;
      small = omega arith;
    }

-- What an allocation leaves: the block, which can be given back.
abbrev pub Allocated : ℕ → Ptr × StackResource → Store ChunkHeader → Type 0
Allocated len (p, r) t =
    IsBlock p (aligned len) r
    × ((k : ℕ) → deallocate (suc k) p len r t ≡ done (record r { m = p }) t)

Returns-IsBlock :
    (p : Ptr) (len : ℕ) (r : StackResource) (t : Store ChunkHeader)
    → IsBlock p (aligned len) r
    → Returns (Allocated len) (done (p, r) t)
Returns-IsBlock p len r t is = returns (is, λ k. deallocate-IsBlock k p len r t is)

-- On a well-formed resource `allocate` returns, from the current chunk, a free one or a new one:
-- an aligned block of the aligned length that ends at `m` and lies in the chunk that is current
-- then; and `deallocate` of it right afterwards returns with `m` back at its start and all else
-- the same. No size overflows, `new` returns an aligned address that is not null, and there is
-- more fuel than free chunks.
pub allocate-IsBlock :
    (fuel : ℕ) (raw : Ptr) (len : ℕ) (r : StackResource) {s : Store ChunkHeader} (chunks : ℕ)
    → IsResource s r chunks
    → Fits raw len r
    → chunks < fuel
    → Returns (Allocated len) (allocate fuel raw len r s)
unfolding allocate
allocate-IsBlock fuel raw len r {s} chunks is fits h =
    let below : r.m ≤ r.e = is.below in
    let above : r.b ≤ r.m = is.above in
    let small : r.e < size_mod = is.small in
    elim (Bool-cases (leb (aligned len) (size_sub r.e r.m))) [
      | inl room ↦
          let le : aligned len ≤ size_sub r.e r.m = ground arith in
          rw room (
            Returns-IsBlock r.m len (record r { m = r.m + aligned len }) s
              (record {
                above = is.above;
                ends = refl;
                below = omega arith;
                at_align = is.at_align;
                small = is.small;
              }))
      | inr full ↦ rw full (
          Returns.and_then (take_atleast-Taken fuel r.freelist (aligned len) chunks is.free h)
            λ a t taken. elim taken [
              | inl nothing ↦ rw (eq→== a.0 0 nothing) (
                  Returns-IsBlock _ len _
                    (put t raw (some (record { b = r.b; m = r.m; e = r.e; freelist_next = null })))
                    (new_chunk-IsBlock raw len r a.1 is fits))
              | inr (c, v, free, room) ↦
                  let no_frames : c.b ≡ c.m = free.no_frames in
                  rw (not_null v, read-live v, eq→== c.b c.m no_frames)
                    (Returns-IsBlock c.b len
                      (record r { b = c.b; m = c.m + aligned len; e = c.e; freelist = a.1 })
                      (put t a.0 (some (record c { b = r.b; m = r.m; e = r.e })))
                      (record {
                        above = omega arith;
                        ends = omega arith;
                        below = omega arith;
                        at_align = free.at_align;
                        small = free.small;
                      }))
            ])
    ]
