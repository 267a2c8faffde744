-- ===== src/StackResource/Freed.antt =====
-- include/kelcoro/stack_memory_resource.hpp: `reuse_memory`, `drop_all` and the destructor.
use mathlib.Core.List.{append_assoc}
use native.Mathlib.Decide.{ℕ_discrete}
use kelcoro.Base.{
  sym, ◌∙◌, ap, ℕ, zero, suc, ◌+◌, ◌%◌, ◌<◌, ◌≤◌, ◌≡◌, ◌≢◌, refl, All, none, arith, List, [], ◌∷◌,
  ◌++◌, length, ◌==◌, size_mod, eq→==, ne→==, if◌then◌else◌,
}
use kelcoro.Memory.{Ptr, Store, put}
use kelcoro.Memory.Live.{Live, not_null, read-live}
use kelcoro.Memory.Returns
use kelcoro.Memory.Returns.{Returns, returns}
use kelcoro.StackResource.{
  header_size, align, ChunkHeader, StackResource, reuse_memory, delete, drop_all, destroy,
}
use kelcoro.StackResource.Stacked.{
  Region, Block, Apart, Stacked, bottom, block, chunk, FreeChunks, nil, cons, frame-FreeChunks,
  AllApart, Holds, starts_at, regions_at,
}
use kelcoro.StackResource.Dropped.{drop_cur_chunk-Stacked}

-- The current memory without its blocks: it is the initial buffer, or a chunk on what it keeps.
data Peeled (s : Store ChunkHeader) (buffer size start b e : ℕ)
    : List Region → List Block → Type 0 where
  at_buffer : {bs : List Block} → b ≡ buffer → Peeled s buffer size start b e [] bs
  at_chunk :
      {start' : ℕ} {h : ChunkHeader} {rs : List Region} {bs : List Block} (xs : List Block)
      → Live s start h
      → b ≡ start + header_size
      → b ≢ buffer
      → b < e
      → e < size_mod
      → b % align ≡ 0
      → Stacked s buffer size start' h.b h.m h.e rs bs
      → All (Apart (start, e)) ((start', h.e) ∷ rs)
      → Peeled s buffer size start b e ((start', h.e) ∷ rs) (xs ++ bs)

peel_block :
    {s : Store ChunkHeader} {buffer size start b e : ℕ} {rs : List Region} {bs : List Block}
    (x : Block)
    → Peeled s buffer size start b e rs bs
    → Peeled s buffer size start b e rs (x ∷ bs)
peel_block x (at_buffer at) = at_buffer at
peel_block x (at_chunk xs v at new room small al below apart) =
    at_chunk (x ∷ xs) v at new room small al below apart

peel :
    {s : Store ChunkHeader} {buffer size start b m e : ℕ} {rs : List Region} {bs : List Block}
    → Stacked s buffer size start b m e rs bs
    → Peeled s buffer size start b e rs bs
peel (bottom small al) = at_buffer refl
peel (block {p} {l} ends below al st) = peel_block (p, l) (peel st)
peel (chunk v at new room small al st apart) = at_chunk [] v at new room small al st apart

-- What `reuse_memory` leaves: the blocks of the initial buffer.
pub record Reused (s : Store ChunkHeader) (r : StackResource) (bs : List Block) (regions : ℕ → ℕ)
    (chunks : ℕ) (r' : StackResource) (t : Store ChunkHeader) : Type 0 where
  pub dropped : List Block
  pub kept : List Block
  pub blocks : bs ≡ dropped ++ kept
  pub at_buffer : r'.b ≡ r.buffer
  pub free : List Region
  pub holds : Holds t r' [] free kept
  pub same : (a : ℕ) → regions_at a holds ≡ regions a
  pub number : length free ≡ chunks
  pub others : (a : ℕ) → regions a ≡ (if a == r.buffer then 1 else 0) → t a ≡ s a

-- The initial buffer is the last of the regions.
pub Stacked-bottom :
    (a : Ptr) {s : Store ChunkHeader} {buffer size start b m e : ℕ} {rs : List Region}
    {bs : List Block}
    → Stacked s buffer size start b m e rs bs
    → (if a == buffer then 1 else 0) ≤ starts_at a ((start, e) ∷ rs)
Stacked-bottom a (bottom small al) = omega arith
Stacked-bottom a (block ends below al st) = Stacked-bottom a st
Stacked-bottom a (chunk v at new room small al st apart) = omega (arith, Stacked-bottom a st)

Stacked-start :
    {s : Store ChunkHeader} {buffer size start b m e : ℕ} {bs : List Block}
    → Stacked s buffer size start b m e [] bs
    → (start ≡ buffer) × (b ≡ buffer)
Stacked-start (bottom small al) = (refl, refl)
Stacked-start (block ends below al st) = Stacked-start st

reuse_memory-Peeled :
    (k : ℕ) {s : Store ChunkHeader} (r : StackResource) {start : ℕ} {rs fs : List Region}
    {bs : List Block}
    → Peeled s r.buffer r.buffer_size start r.b r.e rs bs
    → Stacked s r.buffer r.buffer_size start r.b r.m r.e rs bs
    → FreeChunks s r.freelist fs
    → AllApart ((start, r.e) ∷ rs) fs
    → length rs < k
    → Returns
        (Reused s r bs
          (λ a. starts_at a ((start, r.e) ∷ rs) + starts_at a fs)
          (length rs + length fs))
        (reuse_memory k r s)
unfolding reuse_memory
reuse_memory-Peeled zero r here st free apart h = absurd (omega arith)
reuse_memory-Peeled (suc k) r {start} {rs} {fs} {bs} (at_buffer at) st free apart h =
    rw (eq→== r.b r.buffer at) (
      returns (record {
        dropped = [];
        kept = bs;
        blocks = refl;
        at_buffer = at;
        free = fs;
        holds = record { start = start; stacked = st; chunks = free; apart = apart };
        same = λ a. refl;
        number = omega arith;
        others = λ a none_here. refl;
      }))
reuse_memory-Peeled (suc k) {s} r {start} {fs}
      (at_chunk {start'} {h} {rs} {bs} xs v at new room small al below apart') st free apart fuel =
    rw (ne→== r.b r.buffer new) (
      Returns.and_then
        (drop_cur_chunk-Stacked (record r { m = r.b }) refl v at new room small al below apart' free
          apart)
        λ r' t (is, st', free', apart'', same). rw is (
          Returns.weaken (reuse_memory-Peeled k _ (peel st') st' free' apart'' (omega arith))
            λ r'' u reused. record {
              dropped = xs ++ reused.dropped;
              kept = reused.kept;
              blocks =
                  ap (λ z. xs ++ z) reused.blocks
                  ∙ sym (append_assoc xs reused.dropped reused.kept);
              at_buffer = reused.at_buffer;
              free = reused.free;
              holds = reused.holds;
              same = λ a. omega (arith, reused.same a);
              number = omega (arith, reused.number);
              others = λ a none_here.
                  reused.others a (ground (arith, Stacked-bottom a st'))
                  ∙ same a (λ e. ground (arith, Stacked-bottom a st'));
            }))

-- `reuse_memory` returns with the initial buffer current, every chunk free, and nothing else
-- written. The blocks that are still held afterwards are the oldest ones, those in the initial
-- buffer.
pub reuse_memory-Reused :
    (fuel : ℕ) {s : Store ChunkHeader} (r : StackResource) {rs fs : List Region} {bs : List Block}
    (h : Holds s r rs fs bs)
    → length rs < fuel
    → Returns (Reused s r bs (λ a. regions_at a h) (length rs + length fs)) (reuse_memory fuel r s)
reuse_memory-Reused fuel r h enough =
    reuse_memory-Peeled fuel r (peel h.stacked) h.stacked h.chunks h.apart enough

drop_all-gone :
    (k : ℕ) {s : Store ChunkHeader} {top : Ptr} {fs : List Region}
    → FreeChunks s top fs
    → length fs < k
    → Returns
        (λ _ t. (a : Ptr) → ((starts_at a fs ≢ 0) → t a ≡ none) × (starts_at a fs ≡ 0 → t a ≡ s a))
        (drop_all k top s)
unfolding drop_all delete put
drop_all-gone zero free h = absurd (omega arith)
drop_all-gone (suc k) nil h =
    returns (λ a. (λ some_here. absurd (some_here refl), λ none_here. refl))
drop_all-gone (suc k) {s} (cons {c} {h = hd} {fs} v at free room small al f below) h =
    rw (not_null v, read-live v, read-live v)
      (Returns.weaken
        (drop_all-gone k (frame-FreeChunks (c, hd.e) none (omega arith) f below) (omega arith))
        λ _ t rest a. elim (ℕ_discrete (starts_at a fs) 0) [
          | yes last ↦ (
            λ some_here. ground (arith, (rest a).1 last),
            λ none_here. ground (arith, (rest a).1 last),
          )
          | no more ↦ (λ _. (rest a).0 more, λ none_here. ground arith)
        ])

-- What the destructor leaves of the memory.
abbrev pub Freed : Store ChunkHeader → StackResource → (ℕ → ℕ) → Store ChunkHeader → Type 0
Freed s r regions t =
    (a : Ptr)
    → ((if a == r.buffer then 1 else 0) < regions a → t a ≡ none)
      × (regions a ≡ (if a == r.buffer then 1 else 0) → t a ≡ s a)

-- The destructor of a resource returns, touches nothing that is gone, and deletes exactly the
-- chunks of the resource, in use or free, whatever blocks are still given out; all else is left as
-- it was. There is more fuel than chunks.
pub destroy-Freed :
    (fuel : ℕ) {s : Store ChunkHeader} (r : StackResource) {rs fs : List Region} {bs : List Block}
    (h : Holds s r rs fs bs)
    → length rs + length fs < fuel
    → Returns (λ _ t. Freed s r (λ a. regions_at a h) t) (destroy fuel r s)
unfolding destroy
destroy-Freed fuel r h enough =
    Returns.and_then (reuse_memory-Reused fuel r h (omega arith)) λ r' t reused.
      Returns.weaken (drop_all-gone fuel reused.holds.chunks (omega (arith, reused.number)))
        λ _ u gone a.
          let (first, current) = Stacked-start reused.holds.stacked in
          let at : reused.holds.start ≡ r.buffer = first ∙ sym current ∙ reused.at_buffer in
          let same : (if a == reused.holds.start then 1 else 0) + 0 + starts_at a reused.free
              ≡ regions_at a h =
            reused.same a in
          let moved : (if a == r.buffer then 1 else 0) + 0 + starts_at a reused.free
              ≡ regions_at a h =
            rw at at same in
          let chunks : (if a == r.buffer then 1 else 0) + starts_at a reused.free ≡ regions_at a h =
            omega (arith, moved) in
          (
            λ some_here. (gone a).0 (λ none_here. omega (arith, chunks, none_here)),
            λ none_here. (gone a).1 (omega (arith, chunks)) ∙ reused.others a none_here,
          )
