-- ===== src/StackResource/Nested.antt =====
-- include/kelcoro/stack_memory_resource.hpp: `allocate` and `deallocate` as a stack of blocks.
use native.Mathlib.Decide.{ℕ_discrete}
use kelcoro.Base.{
  sym, ℕ, ◌+◌, ◌-◌, ◌*◌, ◌%◌, ◌<◌, ◌≤◌, ◌≡◌, ◌≢◌, refl, ◌⊎◌, inl, inr, All, Bool-cases, some, arith,
  List, [], ◌∷◌, length, leb, ◌==◌, size_sub, size_mod, eq→==, ne→==, if◌then◌else◌,
}
use kelcoro.Memory.{Ptr, null, Store, put}
use kelcoro.Memory.Live.{Live-put, Live, read-live}
use kelcoro.Memory.Returns
use kelcoro.Memory.Returns.{Returns, returns}
use kelcoro.StackResource.{
  header_size, align, ChunkHeader, StackResource, allocate, aligned, alloc_bytes, enter_chunk,
  new_chunk,
}
use kelcoro.StackResource.Blocks.{Fits}
use kelcoro.StackResource.Stacked.{
  Region, Block, Apart, Apart-sym, Stacked, block, chunk, FreeChunks, frame-Stacked,
  frame-Stacked_at, frame-FreeChunks, regions_at, Stacked-bounds, Stacked-Apart, Stacked-aligned,
  AllApart, Holds, Keeps,
}
use kelcoro.StackResource.Taken.{
  Took, nothing, found, Removed, Removed-All, Removed-starts_at, take_atleast-Took,
}

-- The region that `new` would return for a chunk.
abbrev pub new_region : Ptr → ℕ → StackResource → Region
new_region raw len r = (raw, raw + header_size + (aligned len + (r.e - r.b) + r.buffer_size) * 2)

-- What `new` returns: aligned memory apart from all else, that does not end the address space.
pub record IsNew {s : Store ChunkHeader} {r : StackResource} {rs fs : List Region} {bs : List Block}
    (raw : Ptr) (len : ℕ) (h : Holds s r rs fs bs) : Type 0 where
  pub fits : Fits raw len r
  pub used : All (Apart (new_region raw len r)) ((h.start, r.e) ∷ rs)
  pub free : All (Apart (new_region raw len r)) fs

-- The current chunk gets a block at its end.
on_top :
    {s : Store ChunkHeader} {buffer size start b m e : ℕ} {rs : List Region} {bs : List Block}
    (len : ℕ)
    → Stacked s buffer size start b m e rs bs
    → len + align < size_mod
    → m + aligned len ≤ e
    → Stacked s buffer size start b (m + aligned len) e rs ((m, aligned len) ∷ bs)
unfolding aligned
on_top len st small room = block refl room (omega (arith, Stacked-aligned st)) st

AllApart-Removed :
    (x : Region) (rs : List Region) {fs gs : List Region}
    → Removed x fs gs
    → AllApart rs fs
    → AllApart rs gs × All (Apart x) rs
AllApart-Removed x [] r none_left = (tt, tt)
AllApart-Removed x (y ∷ ys) r (a, rest) =
    let (p, all) = Removed-All (Apart y) r a in
    let (kept, others) = AllApart-Removed x ys r rest in ((all, kept), (Apart-sym y x p, others))

-- The regions and blocks of an allocation.
abbrev Given : ℕ → List Block → (ℕ → ℕ) → Ptr × StackResource → Store ChunkHeader → Type 0
Given len bs regions (p, r) t = Keeps t r ((p, aligned len) ∷ bs) regions

enter_chunk-Given :
    {s t : Store ChunkHeader} {r : StackResource} {rs fs : List Region} {bs : List Block} (len : ℕ)
    (c top : Ptr) (h : Holds s r rs fs bs)
    → len + align < size_mod
    → Took s (aligned len) fs c top t
    → c ≢ null
    → Returns
        (Given len bs (λ a. regions_at a h))
        (enter_chunk c (aligned len) (record r { freelist = top }) t)
unfolding enter_chunk
enter_chunk-Given len c top h size (nothing none_found f same) some_found =
    absurd (some_found none_found)
enter_chunk-Given {s} {t} {r} {rs} {fs} {bs} len c top h size
      (found {h = hd} {gs = gs} v at empty room small al fits removed f below same) some_found =
    let region : Region = (c, hd.e) in
    let (kept, apart) = AllApart-Removed region ((h.start, r.e) ∷ rs) removed h.apart in
    let some_room : c < hd.e = omega arith in
    let st =
      frame-Stacked region (some (record hd { b = r.b; m = r.m; e = r.e })) some_room
        (frame-Stacked_at h.stacked h.chunks h.apart same) apart in
    let whole =
      chunk (Live-put v (record hd { b = r.b; m = r.m; e = r.e })) at
        (λ e. ground (arith, Stacked-Apart region h.stacked apart)) room small al st apart in
    rw (read-live v, eq→== hd.b hd.m (sym empty), empty)
      (returns (record {
        rs = (h.start, r.e) ∷ rs;
        fs = gs;
        holds = record {
          start = c;
          stacked = on_top len whole size fits;
          chunks = frame-FreeChunks region _ some_room f below;
          apart = (below, kept);
        };
        same = λ a. omega (arith, Removed-starts_at a removed);
      }))

-- The chunk that `new` has returned becomes the current one.
new_chunk-Given :
    {s t : Store ChunkHeader} {r : StackResource} {rs fs : List Region} {bs : List Block}
    (raw len top : ℕ) (h : Holds s r rs fs bs)
    → IsNew raw len h
    → 0 < aligned len
    → FreeChunks t top fs
    → ((a : Ptr) → t a ≡ s a)
    → Returns
        (Given len bs (λ a. regions_at a h + (if a == raw then 1 else 0)))
        (new_chunk raw (aligned len) (record r { freelist = top }) t)
unfolding new_chunk alloc_bytes put
new_chunk-Given {s} {t} {r} {rs} {fs} {bs} raw len top h new some_bytes f same =
    let (first, above, below, small) = Stacked-bounds h.stacked in
    let whole : raw + header_size + (aligned len + (r.e - r.b) + r.buffer_size) * 2 < size_mod =
      new.fits.whole in
    let al : raw % align ≡ 0 = new.fits.at_align in
    let bytes : (aligned len + size_sub r.e r.b + r.buffer_size) * 2 % size_mod
        ≡ (aligned len + (r.e - r.b) + r.buffer_size) * 2 =
      omega arith in
    let region = new_region raw len r in
    let header : ChunkHeader = record { b = r.b; m = r.m; e = r.e; freelist_next = null } in
    let some_room : region.0 < region.1 = omega arith in
    let st =
      frame-Stacked region (some header) some_room
        (frame-Stacked_at h.stacked h.chunks h.apart (λ a _. same a)) new.used in
    let live : Live (put t raw (some header)) raw header = record {
      ne_null = new.fits.real;
      holds = ground arith;
    } in
    let current =
      chunk live refl (λ e. ground (arith, Stacked-Apart region h.stacked new.used)) (omega arith)
        whole (omega arith) st new.used in
    rw bytes (
      returns (record {
        rs = (h.start, r.e) ∷ rs;
        fs = fs;
        holds = record {
          start = raw;
          stacked = on_top len current new.fits.size (omega arith);
          chunks = frame-FreeChunks region _ some_room f new.free;
          apart = (new.free, h.apart);
        };
        same = λ a. omega arith;
      }))

unchanged :
    {s t : Store ChunkHeader} {l c top : ℕ} {fs : List Region}
    → c ≡ null
    → Took s l fs c top t
    → FreeChunks t top fs × ((a : Ptr) → t a ≡ s a)
unchanged none_found (nothing e f same) = (f, same)
unchanged none_found (found v at empty room small al fits removed f below same) =
    absurd (v.ne_null none_found)

-- `allocate` pushes to a stack of blocks: it returns, with a block of the aligned length on top of
-- the others, which are held as they were over all chunks, disjoint and aligned; the chunks in use
-- and the free ones stay, or one more that `new` returned. What `new` would return is aligned and
-- apart from all regions, no size overflows, and there is more fuel than free chunks.
pub allocate-Keeps :
    (fuel : ℕ) (raw : Ptr) (len : ℕ) (r : StackResource) {s : Store ChunkHeader}
    {rs fs : List Region} {bs : List Block} (h : Holds s r rs fs bs)
    → IsNew raw len h
    → length fs < fuel
    → Returns
        (λ (p, r') t.
          Keeps t r' ((p, aligned len) ∷ bs) (λ a. regions_at a h)
          ⊎ Keeps t r' ((p, aligned len) ∷ bs) (λ a. regions_at a h + (if a == raw then 1 else 0)))
        (allocate fuel raw len r s)
unfolding allocate
allocate-Keeps fuel raw len r {s} {rs} {fs} {bs} h new enough =
    let (first, above, below, small) = Stacked-bounds h.stacked in
    elim (Bool-cases (leb (aligned len) (size_sub r.e r.m))) [
      | inl room ↦
          let le : aligned len ≤ size_sub r.e r.m = ground arith in
          rw room (
            returns (
              inl (record {
                rs = rs;
                fs = fs;
                holds = record {
                  start = h.start;
                  stacked = on_top len h.stacked new.fits.size (omega arith);
                  chunks = h.chunks;
                  apart = h.apart;
                };
                same = λ a. refl;
              })))
      | inr full ↦ rw full (
          Returns.and_then (take_atleast-Took fuel r.freelist (aligned len) h.chunks enough)
            λ (c, top) t took. given c top t took (ground arith))
    ]
  where
    given :
        (c top : ℕ) (t : Store ChunkHeader)
        → Took s (aligned len) fs c top t
        → 0 < aligned len
        → Returns
            (λ r t.
              Given len bs (λ a. regions_at a h) r t
              ⊎ Given len bs (λ a. regions_at a h + (if a == raw then 1 else 0)) r t)
            ((if c == null
                then new_chunk raw (aligned len) (record r { freelist = top })
                else enter_chunk c (aligned len) (record r { freelist = top }))
              t)
    given c top t took some_bytes = elim (ℕ_discrete c null) [
      | yes none_found ↦ rw (eq→== c null none_found) (
          Returns.weaken
            (new_chunk-Given raw len top h new some_bytes (unchanged none_found took).0
              (unchanged none_found took).1)
            (λ r t k. inr k))
      | no some_found ↦ rw (ne→== c null some_found) (
          Returns.weaken (enter_chunk-Given len c top h new.fits.size took some_found)
            (λ r t k. inl k))
    ]
