-- ===== src/Allocator/Blocks.antt =====
-- Well-formed heaps: aligned blocks inside the address space, no two of which overlap.
use mushix.Prelude.{
  ℕ, ◌+◌, ◌%◌, ◌^◌, ◌≤◌, ◌<◌, ◌≡◌, ◌⊎◌, inl, arith, [], ◌∷◌, ◌++◌, All, All-append, All-map,
}
use mushix.Allocator.{Header, Heap, header_size}

-- The end of a block as a number, which for a block of a heap is what `end_addr` computes.
abbrev pub finish : Header → ℕ
finish h = h.addr + h.size

-- A header is 32-aligned, its block holds at least the header, and ends inside the address space.
pub record IsBlock (h : Header) : Type 0 where
  pub aligned : h.addr % 32 ≡ 0
  pub granular : h.size % 32 ≡ 0
  pub holds_header : header_size ≤ h.size
  pub in_space : finish h < 2 ^ 64

abbrev pub Disjoint : Header → Header → Type 0
Disjoint a b = (finish a ≤ b.addr) ⊎ (finish b ≤ a.addr)

abbrev pub Apart : Heap → Type 0
Apart [] = Unit {0}
Apart (h ∷ hs) = All (Disjoint h) hs × Apart hs

pub record IsHeap (hs : Heap) : Type 0 where
  pub blocks : All IsBlock hs
  pub apart : Apart hs

-- The blocks follow one another without a gap from the first address to the last.
abbrev pub Tiles : ℕ → Heap → ℕ → Type 0
Tiles from [] to = from ≡ to
Tiles from (h ∷ hs) to = (h.addr ≡ from) × Tiles (finish h) hs to

-- The block lies between two addresses.
abbrev pub Within : ℕ → ℕ → Header → Type 0
Within from to h = (from ≤ h.addr) × (finish h ≤ to)

pub Tiles-le : (from : ℕ) (hs : Heap) (to : ℕ) → Tiles from hs to → from ≤ to
Tiles-le from [] to t = omega arith
Tiles-le from (h ∷ hs) to t = omega (arith, Tiles-le (finish h) hs to t.1)

Within-weaken :
    (from from' to : ℕ) (hs : Heap)
    → from ≤ from'
    → All (Within from' to) hs
    → All (Within from to) hs
Within-weaken from from' to hs le w =
    All-map (Within from' to) (Within from to) hs (λ h v. omega arith) w

pub Tiles-Within : (from : ℕ) (hs : Heap) (to : ℕ) → Tiles from hs to → All (Within from to) hs
Tiles-Within from [] to t = tt
Tiles-Within from (h ∷ hs) to t = (
  omega (arith, Tiles-le (finish h) hs to t.1),
  Within-weaken from (finish h) to hs (omega arith) (Tiles-Within (finish h) hs to t.1),
)

pub Tiles-Apart : (from : ℕ) (hs : Heap) (to : ℕ) → Tiles from hs to → Apart hs
Tiles-Apart from [] to t = tt
Tiles-Apart from (h ∷ hs) to t = (
  All-map (Within (finish h) to) (Disjoint h) hs (λ k v. inl v.0)
      (Tiles-Within (finish h) hs to t.1),
  Tiles-Apart (finish h) hs to t.1,
)

-- Every block of the first list is disjoint from every block of the second.
abbrev pub Separate : Heap → Heap → Type 0
Separate [] ks = Unit {0}
Separate (h ∷ hs) ks = All (Disjoint h) ks × Separate hs ks

pub Apart-append : (hs ks : Heap) → Apart hs → Apart ks → Separate hs ks → Apart (hs ++ ks)
Apart-append [] ks a b s = b
Apart-append (h ∷ hs) ks a b s =
    (All-append (Disjoint h) hs ks a.0 s.0, Apart-append hs ks a.1 b s.1)

-- Blocks inside a region are separate from what was disjoint from the region.
pub Within-Separate :
    (h : Header) (hs ks : Heap)
    → All (Within h.addr (finish h)) hs
    → All (Disjoint h) ks
    → Separate hs ks
Within-Separate h [] ks w d = tt
Within-Separate h (b ∷ hs) ks w d =
    (All-map (Disjoint h) (Disjoint b) ks (λ k p. omega arith) d, Within-Separate h hs ks w.1 d)

-- The same, for one block against the blocks that replace another.
pub Within-All-Disjoint :
    (b h : Header) (hs : Heap)
    → Disjoint b h
    → All (Within h.addr (finish h)) hs
    → All (Disjoint b) hs
Within-All-Disjoint b h hs d w =
    All-map (Within h.addr (finish h)) (Disjoint b) hs (λ k p. omega arith) w

-- A block of a heap may be replaced by blocks that tile its span.
pub IsHeap-replace :
    (h : Header) (bs hs : Heap)
    → IsHeap (h ∷ hs)
    → All IsBlock bs
    → Tiles h.addr bs (finish h)
    → IsHeap (bs ++ hs)
IsHeap-replace h bs hs v good t = record {
  blocks = All-append IsBlock bs hs good v.blocks.1;
  apart =
      Apart-append bs hs (Tiles-Apart h.addr bs (finish h) t) v.apart.1
        (Within-Separate h bs hs (Tiles-Within h.addr bs (finish h) t) v.apart.0);
}
