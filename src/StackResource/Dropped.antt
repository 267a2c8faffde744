-- ===== src/StackResource/Dropped.antt =====
-- include/kelcoro/stack_memory_resource.hpp, `deallocate`: the newest block goes back.
use kelcoro.Base.{
  sym, ℕ, zero, suc, ◌+◌, ◌-◌, ◌%◌, ◌<◌, ◌≡◌, ◌≢◌, refl, All, true, arith, List, ◌∷◌, length, leb,
  size_sub, size_mod, eq→==, ne→==, ◌||◌,
}
use kelcoro.Memory.{Ptr, Store, put}
use kelcoro.Memory.Live.{Live-put, Live, read-live}
use kelcoro.Memory.Returns
use kelcoro.Memory.Returns.{Returns, returns}
use kelcoro.StackResource.{
  header_size, align, ChunkHeader, StackResource, drop_cur_chunk, push, drop_until, deallocate,
  aligned,
}
use kelcoro.StackResource.Stacked.{
  Region, Block, Apart, Outside, Stacked, block, chunk, FreeChunks, cons, Stacked-bounds,
  Stacked-aligned, Stacked-Outside, frame-Stacked, frame-FreeChunks, AllApart, AllApart-cons, Holds,
  Keeps, starts_at, regions_at,
}

-- The chunk that is current holds no block.
pub drop_cur_chunk-Stacked :
    {s : Store ChunkHeader} (r : StackResource) {c start : ℕ} {h : ChunkHeader}
    {rs fs : List Region} {bs : List Block}
    → r.m ≡ r.b
    → Live s c h
    → r.b ≡ c + header_size
    → r.b ≢ r.buffer
    → r.b < r.e
    → r.e < size_mod
    → r.b % align ≡ 0
    → Stacked s r.buffer r.buffer_size start h.b h.m h.e rs bs
    → All (Apart (c, r.e)) ((start, h.e) ∷ rs)
    → FreeChunks s r.freelist fs
    → AllApart ((c, r.e) ∷ (start, h.e) ∷ rs) fs
    → Returns
        (λ r' t.
          (r' ≡ record r { b = h.b; m = h.m; e = h.e; freelist = c })
          × Stacked t r.buffer r.buffer_size start h.b h.m h.e rs bs
          × FreeChunks t c ((c, r.e) ∷ fs)
          × AllApart ((start, h.e) ∷ rs) ((c, r.e) ∷ fs)
          × ((a : Ptr) → a ≢ c → t a ≡ s a))
        (drop_cur_chunk r s)
unfolding drop_cur_chunk push put
drop_cur_chunk-Stacked {s} r {c} {start} {h} {rs} {fs} {bs} empty v at new room small al st apart
      free (below, others) =
    let back : r.b - header_size ≡ c = omega arith in
    let used : ChunkHeader = record h { b = r.b; m = r.m; e = r.e } in
    let v' = Live-put v used in
    let freed : ChunkHeader = record used { freelist_next = r.freelist } in
    let v'' = Live-put v' freed in
    let some_room : c < r.e = omega arith in
    rw (eq→== r.b r.m (sym empty), ne→== r.b r.buffer new, back, read-live v, read-live v')
      (returns (
        refl,
        frame-Stacked (c, r.e) _ some_room (frame-Stacked (c, r.e) _ some_room st apart) apart,
        cons v'' at empty room small al
            (frame-FreeChunks (c, r.e) _ some_room
              (frame-FreeChunks (c, r.e) _ some_room free below) below)
            below,
        AllApart-cons (c, r.e) ((start, h.e) ∷ rs) fs apart others,
        λ a ne. ground (arith, ne),
      ))

top_small :
    {s : Store ChunkHeader} {buffer size start b m e p l : ℕ} {rs : List Region} {bs : List Block}
    → Stacked s buffer size start b m e rs ((p, l) ∷ bs)
    → p + l < size_mod
top_small (block ends below al st) = omega (arith, Stacked-bounds st)
top_small (chunk v at new room small al st apart) = top_small st

top_aligned :
    {s : Store ChunkHeader} {buffer size start b m e p l : ℕ} {rs : List Region} {bs : List Block}
    → Stacked s buffer size start b m e rs ((p, l) ∷ bs)
    → p % align ≡ 0
top_aligned (block ends below al st) = Stacked-aligned st
top_aligned (chunk v at new room small al st apart) = top_aligned st

-- The chunks behind the newest block go to the free list.
drop_until-Keeps :
    (k : ℕ) {s : Store ChunkHeader} {buffer size start b m e top p l : ℕ} {rs fs : List Region}
    {bs : List Block}
    → Stacked s buffer size start b m e rs ((p, l) ∷ bs)
    → FreeChunks s top fs
    → AllApart ((start, e) ∷ rs) fs
    → length rs < k
    → Returns
        (λ r' t.
          (r'.m ≡ p + l)
          × Keeps t (record r' { m = p }) bs (λ a. starts_at a ((start, e) ∷ rs) + starts_at a fs))
        (drop_until k p l
          (record { buffer = buffer; buffer_size = size; b = b; m = m; e = e; freelist = top })
          s)
unfolding drop_until
drop_until-Keeps zero st free apart h = absurd (omega arith)
drop_until-Keeps (suc k) {start} {m} {p} {l} {rs} {fs} (block ends below al st) free apart h =
    let back : size_sub m l ≡ p = omega (arith, Stacked-bounds st) in
    rw (eq→== p (size_sub m l) (sym back)) (
      returns (
        ends,
        record {
          rs = rs;
          fs = fs;
          holds = record { start = start; stacked = st; chunks = free; apart = apart };
          same = λ a. refl;
        },
      ))
drop_until-Keeps (suc k) {b} {e} {p} {l} {fs}
      (chunk {c} {start} {h} {rs} v at new room small al st below) free apart fuel =
    let out : Outside (c, e) (p, l) = (Stacked-Outside (c, e) st below).0 in
    let other : p ≢ size_sub b l = λ same. ground (arith, top_small st) in
    let outside : (leb p b || leb e p) ≡ true = ground arith in
    rw (ne→== p (size_sub b l) other, outside)
      (Returns.and_then (drop_cur_chunk-Stacked _ refl v at new room small al st below free apart)
        λ r' t (is, st', free', apart', same). rw is (
          Returns.weaken (drop_until-Keeps k st' free' apart' (omega arith)) λ r'' u (ends, keeps).
            (
              ends,
              record {
                rs = keeps.rs;
                fs = keeps.fs;
                holds = keeps.holds;
                same = λ a. omega (arith, keeps.same a);
              },
            )))

-- `deallocate` pops from the stack of blocks: given the newest block it returns with none of its
-- assertions failing, in whatever chunk the block lies; the other blocks are held as they were,
-- and each chunk is still in use or free. There is more fuel than chunks in use.
pub deallocate-Keeps :
    (fuel : ℕ) {s : Store ChunkHeader} (r : StackResource) (p len : ℕ) {rs fs : List Region}
    {bs : List Block} (h : Holds s r rs fs ((p, aligned len) ∷ bs))
    → length rs < fuel
    → Returns (λ r' t. Keeps t r' bs (λ a. regions_at a h)) (deallocate fuel p len r s)
unfolding deallocate
deallocate-Keeps fuel r p len h enough = rw (eq→== _ 0 (top_aligned h.stacked)) (
    Returns.and_then (drop_until-Keeps fuel h.stacked h.chunks h.apart enough) λ r' t (ends, keeps).
      let back : size_sub r'.m (aligned len) ≡ p = omega (arith, top_small h.stacked) in
      rw back (returns keeps))
