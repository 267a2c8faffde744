-- ===== src/StackResource/Taken.antt =====
-- include/kelcoro/stack_memory_resource.hpp, `freelist_t::take_atleast`: a chunk leaves the free list.
use kelcoro.Base.{
  sym, ◌∙◌, ℕ, zero, suc, ◌+◌, ◌%◌, ◌<◌, ◌≤◌, ◌≡◌, refl, inl, inr, All, true, Bool-cases, some,
  arith, List, ◌∷◌, length, leb, ◌==◌, size_mod, eq→==, if◌then◌else◌,
}
use kelcoro.Memory.{Ptr, null, Store, put}
use kelcoro.Memory.Live.{Live-put, Live-put_ne, Live, not_null, read-live}
use kelcoro.Memory.Returns
use kelcoro.Memory.Returns.{Returns, returns}
use kelcoro.StackResource.{header_size, align, capacity, ChunkHeader, take_loop, take_atleast}
use kelcoro.StackResource.Stacked.{
  Region, Apart, Apart-sym, FreeChunks, nil, cons, frame-FreeChunks, starts_at, not_at,
}

-- One of the regions is taken out.
pub data Removed (x : Region) : List Region → List Region → Type 0 where
  here : {ys : List Region} → Removed x (x ∷ ys) ys
  there : {ys zs : List Region} (y : Region) → Removed x ys zs → Removed x (y ∷ ys) (y ∷ zs)

pub Removed-All :
    (P : Region → Type 0) {x : Region} {ys zs : List Region}
    → Removed x ys zs
    → All P ys
    → P x × All P zs
Removed-All P here (p, all) = (p, all)
Removed-All P (there y r) (p, all) = let (q, rest) = Removed-All P r all in (q, (p, rest))

pub Removed-starts_at :
    (a : ℕ) {x : Region} {ys zs : List Region}
    → Removed x ys zs
    → starts_at a ys ≡ (if a == x.0 then 1 else 0) + starts_at a zs
Removed-starts_at a here = refl
Removed-starts_at a (there y r) = omega (arith, Removed-starts_at a r)

-- What the search in the list from `top` on leaves: the list as it was, or the list from `top'` on
-- without the chunk that was found, which is large enough.
pub data Took (s : Store ChunkHeader) (l : ℕ) (fs : List Region) (c top' : Ptr)
    (t : Store ChunkHeader) : Type 0 where
  nothing : c ≡ null → FreeChunks t top' fs → ((a : Ptr) → t a ≡ s a) → Took s l fs c top' t
  found :
      {h : ChunkHeader} {gs : List Region}
      → Live t c h
      → h.b ≡ c + header_size
      → h.m ≡ h.b
      → h.b < h.e
      → h.e < size_mod
      → h.b % align ≡ 0
      → h.b + l ≤ h.e
      → Removed (c, h.e) fs gs
      → FreeChunks t top' gs
      → All (Apart (c, h.e)) gs
      → ((a : Ptr) → starts_at a fs ≡ 0 → t a ≡ s a)
      → Took s l fs c top' t

large :
    (l : ℕ) (h : ChunkHeader)
    → h.b < h.e
    → h.e < size_mod
    → leb l (capacity h) ≡ true
    → h.b + l ≤ h.e
large l h room small fits = let le : l ≤ capacity h = ground arith in omega arith

unlinked :
    {s : Store ChunkHeader} {l prev c : ℕ} {p h : ChunkHeader} {fs : List Region}
    → Live s prev p
    → p.b ≡ prev + header_size
    → p.m ≡ p.b
    → p.b < p.e
    → p.e < size_mod
    → p.b % align ≡ 0
    → Live s c h
    → h.b ≡ c + header_size
    → h.m ≡ h.b
    → h.b < h.e
    → h.e < size_mod
    → h.b % align ≡ 0
    → h.b + l ≤ h.e
    → FreeChunks s h.freelist_next fs
    → All (Apart (c, h.e)) fs
    → Apart (prev, p.e) (c, h.e)
    → All (Apart (prev, p.e)) fs
    → Took s l
        ((prev, p.e) ∷ (c, h.e) ∷ fs)
        c
        prev
        (put s prev (some (record p { freelist_next = h.freelist_next })))
unfolding put
unlinked {prev} {c} {p} {h} v at empty room small al w at' empty' room' small' al' fits free below
      apart others =
    found (Live-put_ne w prev _ (λ same. ground arith)) at' empty' room' small' al' fits
      (there (prev, p.e) here)
      (cons (Live-put v _) at empty room small al
        (frame-FreeChunks (prev, p.e) _ (omega arith) free others) others)
      (Apart-sym (prev, p.e) (c, h.e) apart, below) (λ a none_here. ground arith)

continued :
    {s t : Store ChunkHeader} {l prev c c' : ℕ} {p : ChunkHeader} {fs : List Region}
    → Live s prev p
    → p.b ≡ prev + header_size
    → p.m ≡ p.b
    → p.b < p.e
    → p.e < size_mod
    → p.b % align ≡ 0
    → p.freelist_next ≡ c
    → FreeChunks s c fs
    → All (Apart (prev, p.e)) fs
    → Took s l fs c' c t
    → Took s l ((prev, p.e) ∷ fs) c' prev t
continued {prev} v at empty room small al next free apart (nothing e f same) =
    nothing e
      (cons (record { ne_null = v.ne_null; holds = same prev ∙ v.holds }) at empty room small al
        (rw next f) apart)
      same
continued {prev} {p} v at empty room small al next free apart
      (found {h} w at' empty' room' small' al' fits r f below same) =
    let (x, rest) = Removed-All (Apart (prev, p.e)) r apart in
    let kept = same prev (not_at prev p.e (omega arith) free apart) in
    found w at' empty' room' small' al' fits (there (prev, p.e) r)
      (cons (record { ne_null = v.ne_null; holds = kept ∙ v.holds }) at empty room small al
        (rw next f) rest)
      (Apart-sym (prev, p.e) (_, h.e) x, below) (λ a none_here. same a (omega (arith, none_here)))

-- The search behind a chunk that is too small.
take_loop-Took :
    (k : ℕ) {s : Store ChunkHeader} (top : Ptr) (l : ℕ) (prev c : Ptr) {p : ChunkHeader}
    {fs : List Region}
    → Live s prev p
    → p.b ≡ prev + header_size
    → p.m ≡ p.b
    → p.b < p.e
    → p.e < size_mod
    → p.b % align ≡ 0
    → p.freelist_next ≡ c
    → FreeChunks s c fs
    → All (Apart (prev, p.e)) fs
    → length fs < k
    → Returns
        (λ r t. (r.1 ≡ top) × Took s l ((prev, p.e) ∷ fs) r.0 prev t)
        (take_loop k top l prev c s)
unfolding take_loop
take_loop-Took zero top l prev c v at empty room small al next free apart h = absurd (omega arith)
take_loop-Took (suc k) top l prev c v at empty room small al next nil apart h =
    returns (refl, nothing refl (cons v at empty room small al (rw next nil) tt) (λ a. refl))
take_loop-Took (suc k) {s} top l prev c {p} v at empty room small al next
      (cons {h = hd} {fs = fs} w at' empty' room' small' al' free below) (apart, others) fuel =
    rw (not_null w, read-live w, eq→== hd.b hd.m (sym empty'))
      (elim (Bool-cases (leb l (capacity hd))) [
        | inl fits ↦
            rw (fits, not_null v, read-live v)
              (returns (
                refl,
                unlinked v at empty room small al w at' empty' room' small' al'
                    (large l hd room' small' fits) free below apart others,
              ))
        | inr tight ↦ rw tight (
            Returns.weaken
              (take_loop-Took k top l c hd.freelist_next w at' empty' room' small' al' refl free
                below (omega arith))
              λ r t (kept, took). (
                kept,
                continued v at empty room small al next
                    (cons w at' empty' room' small' al' free below) (apart, others) took,
              ))
      ])

pub take_atleast-Took :
    (k : ℕ) {s : Store ChunkHeader} (top : Ptr) (l : ℕ) {fs : List Region}
    → FreeChunks s top fs
    → length fs < k
    → Returns (λ r t. Took s l fs r.0 r.1 t) (take_atleast k top l s)
unfolding take_atleast take_loop
take_atleast-Took zero top l free h = absurd (omega arith)
take_atleast-Took (suc k) top l nil h = returns (nothing refl nil (λ a. refl))
take_atleast-Took (suc k) top l (cons {h = hd} {fs = fs} v at empty room small al free below) h =
    rw (not_null v, read-live v, eq→== hd.b hd.m (sym empty))
      (elim (Bool-cases (leb l (capacity hd))) [
        | inl fits ↦ rw fits (
            returns (
              found v at empty room small al (large l hd room small fits) here free below
                (λ a none_here. refl)))
        | inr tight ↦ rw tight (
            Returns.weaken
              (take_loop-Took k top l top hd.freelist_next v at empty room small al refl free below
                (omega arith))
              λ r t (kept, took). rw kept took)
      ])
