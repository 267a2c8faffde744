-- ===== src/StackResource/Stacked.antt =====
-- include/kelcoro/stack_memory_resource.hpp: the chunks of a `stack_resource` and the blocks in them.
use kelcoro.Base.{
  Option, ◌∙◌, ℕ, ◌+◌, ◌-◌, ◌%◌, ◌<◌, ◌≤◌, ◌≡◌, ◌≢◌, refl, ◌⊎◌, inl, inr, All, Bool-cases, arith,
  List, [], ◌∷◌, leb, ◌==◌, size_mod, if◌then◌else◌,
}
use kelcoro.Memory.{Ptr, null, Store, put}
use kelcoro.Memory.Live.{Live-put_ne, Live}
use kelcoro.StackResource.{
  header_size, align, ChunkHeader, StackResource, from_span, align_span, padding_len, new_resource,
}

-- A piece of memory from its start up to its end, and a block by its address and length.
abbrev pub Region : Type 0
Region = ℕ × ℕ

abbrev pub Block : Type 0
Block = ℕ × ℕ

abbrev pub Apart : Region → Region → Type 0
Apart x y = (x.1 ≤ y.0) ⊎ (y.1 ≤ x.0)

abbrev pub Outside : Region → Block → Type 0
Outside x (p, l) = (p + l ≤ x.0) ⊎ (x.1 ≤ p)

-- The chunk in use starts at `start` and its memory at `b`; `m` and `e` are as in the resource. Below
-- it are the other chunks and, last, the initial buffer; the blocks are those given out, newest first.
pub data Stacked (s : Store ChunkHeader) (buffer size : ℕ)
    : Ptr → Ptr → Ptr → Ptr → List Region → List Block → Type 0 where
  bottom :
      buffer + size < size_mod
      → buffer % align ≡ 0
      → Stacked s buffer size buffer buffer buffer (buffer + size) [] []
  block :
      {start b p m e l : ℕ} {rs : List Region} {bs : List Block}
      → m ≡ p + l
      → m ≤ e
      → m % align ≡ 0
      → Stacked s buffer size start b p e rs bs
      → Stacked s buffer size start b m e rs ((p, l) ∷ bs)
  chunk :
      {c b e start : ℕ} {h : ChunkHeader} {rs : List Region} {bs : List Block}
      → Live s c h
      → b ≡ c + header_size
      → b ≢ buffer
      → b < e
      → e < size_mod
      → b % align ≡ 0
      → Stacked s buffer size start h.b h.m h.e rs bs
      → All (Apart (c, e)) ((start, h.e) ∷ rs)
      → Stacked s buffer size c b b e ((start, h.e) ∷ rs) bs

-- The free chunks, which are apart from each other.
pub data FreeChunks (s : Store ChunkHeader) : Ptr → List Region → Type 0 where
  nil : FreeChunks s null []
  cons :
      {c : ℕ} {h : ChunkHeader} {fs : List Region}
      → Live s c h
      → h.b ≡ c + header_size
      → h.m ≡ h.b
      → h.b < h.e
      → h.e < size_mod
      → h.b % align ≡ 0
      → FreeChunks s h.freelist_next fs
      → All (Apart (c, h.e)) fs
      → FreeChunks s c ((c, h.e) ∷ fs)

module _ {s : Store ChunkHeader} {buffer size : ℕ} where
  pub Stacked-bounds :
      {start b m e : ℕ} {rs : List Region} {bs : List Block}
      → Stacked s buffer size start b m e rs bs
      → (start ≤ b) × (b ≤ m) × (m ≤ e) × (e < size_mod)
  Stacked-bounds (bottom small al) = omega arith
  Stacked-bounds (block ends below al st) = omega (arith, Stacked-bounds st)
  Stacked-bounds (chunk v at new room small al st apart) = omega arith

  -- What is apart from all chunks is outside of all blocks.
  pub Stacked-Outside :
      {start b m e : ℕ} {rs : List Region} {bs : List Block} (x : Region)
      → Stacked s buffer size start b m e rs bs
      → All (Apart x) ((start, e) ∷ rs)
      → All (Outside x) bs
  Stacked-Outside x (bottom small al) apart = tt
  Stacked-Outside x (block ends below al st) apart =
      (ground (arith, Stacked-bounds st, apart.0), Stacked-Outside x st apart)
  Stacked-Outside x (chunk v at new room small al st below) apart = Stacked-Outside x st apart.1

  -- What is apart from all chunks is apart from the initial buffer.
  pub Stacked-Apart :
      {start b m e : ℕ} {rs : List Region} {bs : List Block} (x : Region)
      → Stacked s buffer size start b m e rs bs
      → All (Apart x) ((start, e) ∷ rs)
      → Apart x (buffer, buffer + size)
  Stacked-Apart x (bottom small al) apart = apart.0
  Stacked-Apart x (block ends below al st) apart = Stacked-Apart x st apart
  Stacked-Apart x (chunk v at new room small al st below) apart = Stacked-Apart x st apart.1

  -- A write to the header of a chunk that is apart from these.
  pub frame-Stacked :
      {start b m e : ℕ} {rs : List Region} {bs : List Block} (x : Region) (n : Option ChunkHeader)
      → x.0 < x.1
      → Stacked s buffer size start b m e rs bs
      → All (Apart x) ((start, e) ∷ rs)
      → Stacked (put s x.0 n) buffer size start b m e rs bs
  frame-Stacked x n some_room (bottom small al) apart = bottom small al
  frame-Stacked x n some_room (block ends below al st) apart =
      block ends below al (frame-Stacked x n some_room st apart)
  frame-Stacked x n some_room (chunk {c} v at new room small al st below) apart =
      chunk (Live-put_ne v x.0 n (λ same. ground (arith, apart.0))) at new room small al
        (frame-Stacked x n some_room st apart.1) below

  -- The next block is aligned.
  pub Stacked-aligned :
      {start b m e : ℕ} {rs : List Region} {bs : List Block}
      → Stacked s buffer size start b m e rs bs
      → m % align ≡ 0
  Stacked-aligned (bottom small al) = al
  Stacked-aligned (block ends below al st) = al
  Stacked-aligned (chunk v at new room small al st apart) = al

pub frame-FreeChunks :
    {s : Store ChunkHeader} {top : Ptr} {fs : List Region} (x : Region) (n : Option ChunkHeader)
    → x.0 < x.1
    → FreeChunks s top fs
    → All (Apart x) fs
    → FreeChunks (put s x.0 n) top fs
frame-FreeChunks x n some_room nil apart = nil
frame-FreeChunks x n some_room (cons v at free room small al f below) apart =
    cons (Live-put_ne v x.0 n (λ same. ground (arith, apart.0))) at free room small al
      (frame-FreeChunks x n some_room f apart.1) below

-- Each of the ones is apart from each of the others.
abbrev pub AllApart : List Region → List Region → Type 0
AllApart rs fs = All (λ r. All (Apart r) fs) rs

pub Apart-sym : (x y : Region) → Apart x y → Apart y x
Apart-sym x y a = ground arith

pub AllApart-cons :
    (x : Region) (rs fs : List Region) → All (Apart x) rs → AllApart rs fs → AllApart rs (x ∷ fs)
AllApart-cons x [] fs a b = tt
AllApart-cons x (r ∷ rs) fs (a, a') (b, b') = ((Apart-sym x r a, b), AllApart-cons x rs fs a' b')

-- A resource with its regions and blocks.
pub record Holds (s : Store ChunkHeader) (r : StackResource) (rs fs : List Region) (bs : List Block)
    : Type 0 where
  pub start : Ptr
  pub stacked : Stacked s r.buffer r.buffer_size start r.b r.m r.e rs bs
  pub chunks : FreeChunks s r.freelist fs
  pub apart : AllApart ((start, r.e) ∷ rs) fs

-- How many of the regions start at an address.
abbrev pub starts_at : ℕ → List Region → ℕ
starts_at a [] = 0
starts_at a (x ∷ xs) = (if a == x.0 then 1 else 0) + starts_at a xs

-- The same of all regions of a resource.
abbrev pub regions_at :
    {s : Store ChunkHeader} {r : StackResource} {rs fs : List Region} {bs : List Block}
    → ℕ
    → Holds s r rs fs bs
    → ℕ
regions_at {r} {rs} {fs} a h = starts_at a ((h.start, r.e) ∷ rs) + starts_at a fs

-- A new resource has no block and no chunk, and an aligned buffer.
pub from_span-Holds :
    {s : Store ChunkHeader} (ptr sz : ℕ) → ptr + sz < size_mod → Holds s (from_span ptr sz) [] [] []
unfolding from_span align_span padding_len new_resource
from_span-Holds {s} ptr sz small = elim (Bool-cases (leb (padding_len align ptr) sz)) [
  | inl fits ↦
      let le : padding_len align ptr ≤ sz = ground arith in
      rw fits (
        empty (ptr + padding_len align ptr) (sz - padding_len align ptr) (omega arith)
          (omega arith))
  | inr narrow ↦ rw narrow (empty null 0 (omega arith) (omega arith))
]
  where
    empty :
        (buffer size : ℕ)
        → buffer + size < size_mod
        → buffer % align ≡ 0
        → Holds s (new_resource buffer size) [] [] []
    empty buffer size small al = record {
      start = buffer;
      stacked = bottom small al;
      chunks = nil;
      apart = (tt, tt);
    }

-- The resource holds these blocks, in the regions that are given by their number at each address.
pub record Keeps (s : Store ChunkHeader) (r : StackResource) (bs : List Block) (regions : ℕ → ℕ)
    : Type 0 where
  pub rs : List Region
  pub fs : List Region
  pub holds : Holds s r rs fs bs
  pub same : (a : ℕ) → regions_at a holds ≡ regions a

-- The free chunks have room behind their headers.
some_room :
    {s : Store ChunkHeader} {top : Ptr} {fs : List Region}
    → FreeChunks s top fs
    → All (λ f. f.0 < f.1) fs
some_room nil = tt
some_room (cons v at free room small al f below) = (omega arith, some_room f)

apart_not_at :
    (c e : ℕ) (fs : List Region)
    → c < e
    → All (λ f. f.0 < f.1) fs
    → All (Apart (c, e)) fs
    → starts_at c fs ≡ 0
apart_not_at c e [] room rooms apart = refl
apart_not_at c e (f ∷ fs) room (r, rooms) (a, apart) =
    ground (arith, apart_not_at c e fs room rooms apart)

-- Writes to free chunks leave the others alone.
pub not_at :
    {s : Store ChunkHeader} {top : Ptr} (c e : ℕ) {fs : List Region}
    → c < e
    → FreeChunks s top fs
    → All (Apart (c, e)) fs
    → starts_at c fs ≡ 0
not_at c e {fs} room free apart = apart_not_at c e fs room (some_room free) apart

pub frame-Stacked_at :
    {s t : Store ChunkHeader} {buffer size start b m e : ℕ} {top : Ptr} {rs fs : List Region}
    {bs : List Block}
    → Stacked s buffer size start b m e rs bs
    → FreeChunks s top fs
    → AllApart ((start, e) ∷ rs) fs
    → ((a : Ptr) → starts_at a fs ≡ 0 → t a ≡ s a)
    → Stacked t buffer size start b m e rs bs
frame-Stacked_at (bottom small al) free apart same = bottom small al
frame-Stacked_at (block ends below al st) free apart same =
    block ends below al (frame-Stacked_at st free apart same)
frame-Stacked_at (chunk {c} {e} v at new room small al st below) free apart same =
    chunk
      (record {
        ne_null = v.ne_null;
        holds = same c (not_at c e (omega arith) free apart.0) ∙ v.holds;
      })
      at new room small al (frame-Stacked_at st free apart.1 same) below
