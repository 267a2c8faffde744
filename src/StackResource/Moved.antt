-- ===== src/StackResource/Moved.antt =====
-- include/kelcoro/stack_memory_resource.hpp: the moves of `stack_resource`.
use kelcoro.Base.{◌∙◌, ℕ, ◌+◌, ◌<◌, ◌≡◌, ◌≢◌, arith, List, [], ◌∷◌, length, ◌==◌, if◌then◌else◌}
use kelcoro.Memory.{Ptr, null, Store}
use kelcoro.Memory.Returns
use kelcoro.Memory.Returns.{Returns, returns}
use kelcoro.StackResource.{ChunkHeader, StackResource, move_construct, moved_from, move_assign}
use kelcoro.StackResource.Stacked.{
  Region, Block, Stacked, bottom, block, chunk, FreeChunks, nil, cons, starts_at, regions_at, Holds,
}
use kelcoro.StackResource.Freed.{Freed, destroy-Freed, Stacked-bottom}

same-Stacked :
    {s t : Store ChunkHeader} {buffer size start b m e : ℕ} {rs : List Region} {bs : List Block}
    → Stacked s buffer size start b m e rs bs
    → ((a : Ptr) → starts_at a ((start, e) ∷ rs) ≢ 0 → t a ≡ s a)
    → Stacked t buffer size start b m e rs bs
same-Stacked (bottom small al) same = bottom small al
same-Stacked (block ends below al st) same = block ends below al (same-Stacked st same)
same-Stacked (chunk {c} v at new room small al st below) same =
    chunk (record { ne_null = v.ne_null; holds = same c (λ e. ground arith) ∙ v.holds }) at new room
      small al (same-Stacked st λ a some_here. same a (λ e. some_here (omega arith))) below

same-FreeChunks :
    {s t : Store ChunkHeader} {top : Ptr} {fs : List Region}
    → FreeChunks s top fs
    → ((a : Ptr) → starts_at a fs ≢ 0 → t a ≡ s a)
    → FreeChunks t top fs
same-FreeChunks nil same = nil
same-FreeChunks (cons {c} v at free room small al f below) same =
    cons (record { ne_null = v.ne_null; holds = same c (λ e. ground arith) ∙ v.holds }) at free room
      small al (same-FreeChunks f λ a some_here. same a (λ e. some_here (omega arith))) below

same-Holds :
    {s t : Store ChunkHeader} {r : StackResource} {rs fs : List Region} {bs : List Block}
    (h : Holds s r rs fs bs)
    → ((a : Ptr) → regions_at a h ≢ 0 → t a ≡ s a)
    → Holds t r rs fs bs
same-Holds h same = record {
  start = h.start;
  stacked = same-Stacked h.stacked λ a some_here. same a (λ e. some_here (omega arith));
  chunks = same-FreeChunks h.chunks λ a some_here. same a (λ e. some_here (omega arith));
  apart = h.apart;
}

-- Move assignment from another resource returns: exactly the chunks that the target had are
-- deleted, it holds the blocks and chunks of the other one, and that one holds nothing. No chunk
-- belongs to both, and there is more fuel than chunks of the target.
pub move_assign-Holds :
    (fuel : ℕ) {s : Store ChunkHeader} (r other : StackResource) {rs fs rs' fs' : List Region}
    {bs bs' : List Block} (h : Holds s r rs fs bs) (h' : Holds s other rs' fs' bs')
    → ((a : Ptr) → (if a == r.buffer then 1 else 0) < regions_at a h → regions_at a h' ≡ 0)
    → length rs + length fs < fuel
    → Returns
        (λ (this, that) t.
          Holds t this rs' fs' bs' × Holds t that [] [] [] × Freed s r (λ a. regions_at a h) t)
        (move_assign fuel r other s)
unfolding move_assign move_construct moved_from
move_assign-Holds fuel {s} r other h h' apart enough =
    Returns.and_then (destroy-Freed fuel r h enough) λ _ t freed. returns (
      same-Holds h' λ a some_here. (freed a).1 (kept a some_here),
      record {
        start = null;
        stacked = bottom (omega arith) (omega arith);
        chunks = nil;
        apart = (tt, tt);
      },
      freed,
    )
  where
    kept : (a : Ptr) → regions_at a h' ≢ 0 → regions_at a h ≡ (if a == r.buffer then 1 else 0)
    kept a some_here = ground (arith, Stacked-bottom a h.stacked, apart a)
