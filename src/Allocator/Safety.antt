-- ===== src/Allocator/Safety.antt =====
-- What allocation and deallocation keep: the heap stays well formed, and memory that is handed out
-- overlaps nothing that is in use.
use mushix.Prelude.{
  ℕ, ◌+◌, ◌%◌, ◌^◌, ◌≤◌, ◌<◌, ◌≡◌, ◌⊎◌, inl, inr, arith, false, [], ◌∷◌, ◌++◌, All, All-append,
  All-map, ok, some, subst,
}
use mushix.Allocator.{Header, Heap, alloc_with_options}
use mushix.Allocator.Blocks.{
  IsBlock, IsHeap, Apart, Disjoint, Tiles, Tiles-Within, Within-All-Disjoint, IsHeap-replace,
  finish,
}
use mushix.Allocator.Request.{IsLayout}
use mushix.Allocator.Heap.{Served, alloc_with_options_lem}

-- A block anywhere in a heap may be replaced by blocks that tile it.
IsHeap-splice :
    (before : Heap) (h : Header) (bs after : Heap)
    → IsHeap (before ++ (h ∷ after))
    → All IsBlock bs
    → Tiles h.addr bs (finish h)
    → IsHeap (before ++ (bs ++ after))
IsHeap-splice [] h bs after v good t = IsHeap-replace h bs after v good t
IsHeap-splice (b ∷ before) h bs after v good t =
    let inner =
      IsHeap-splice before h bs after (record { blocks = v.blocks.1; apart = v.apart.1 }) good t in
    record { blocks = (v.blocks.0, inner.blocks); apart = (spare before v.apart.0, inner.apart) }
  where
    spare :
        (ks : Heap) → All (Disjoint b) (ks ++ (h ∷ after)) → All (Disjoint b) (ks ++ (bs ++ after))
    spare [] d =
        All-append (Disjoint b) bs after
          (Within-All-Disjoint b h bs d.0 (Tiles-Within h.addr bs (finish h) t)) d.1
    spare (k ∷ ks) d = (d.0, spare ks d.1)

pub Served-IsHeap :
    {hs : Heap} {size j ptr : ℕ} {hs' : Heap} → IsHeap hs → Served hs size j ptr hs' → IsHeap hs'
Served-IsHeap {hs} v s = rw (s.result) (
    IsHeap-splice s.before s.chosen s.provided.blocks s.after (rw s.found at v) s.carved.good
      s.carved.tiles)

-- The bytes from `ptr` on are clear of a block.
abbrev pub Clear : ℕ → ℕ → Header → Type 0
Clear ptr size b = (finish b ≤ ptr) ⊎ (ptr + size ≤ b.addr)

-- The block is free, or clear of the bytes.
abbrev pub FreeOrClear : ℕ → ℕ → Header → Type 0
FreeOrClear ptr size b = (b.is_allocated ≡ false) ⊎ Clear ptr size b

splice-Clear :
    (before : Heap) (h : Header) (after : Heap) (ptr size : ℕ)
    → Apart (before ++ (h ∷ after))
    → h.is_allocated ≡ false
    → h.addr ≤ ptr
    → ptr + size ≤ finish h
    → All (FreeOrClear ptr size) (before ++ (h ∷ after))
splice-Clear [] h after ptr size a free lo hi =
    (inl free, All-map (Disjoint h) (FreeOrClear ptr size) after (λ b d. inr (omega arith)) a.0)
splice-Clear (b ∷ before) h after ptr size a free lo hi =
    (inr (clear before a.0), splice-Clear before h after ptr size a.1 free lo hi)
  where
    clear : (ks : Heap) → All (Disjoint b) (ks ++ (h ∷ after)) → Clear ptr size b
    clear [] d = omega arith
    clear (k ∷ ks) d = clear ks d.1

Served-Clear :
    {hs : Heap} {size j ptr : ℕ} {hs' : Heap}
    → IsHeap hs
    → Served hs size j ptr hs'
    → (ptr % 2 ^ j ≡ 0) × (0 < ptr) × All (FreeOrClear ptr size) hs
Served-Clear {size} {ptr} v s = (
  rw s.address s.carved.aligned,
  omega (arith, s.address, s.carved.inside),
  rw s.found (
      splice-Clear s.before s.chosen s.after ptr size ((rw s.found at v).apart) s.carved.free
        (omega (arith, s.address, s.carved.inside)) (omega (arith, s.address, s.carved.inside))),
)

-- An answer of `alloc_with_options` is one that a block of the heap served.
alloc_with_options-Served :
    (hs : Heap) (size j : ℕ) {ptr : ℕ} {hs' : Heap}
    → IsHeap hs
    → IsLayout size j
    → alloc_with_options hs size (2 ^ j) ≡ ok (some (ptr, hs'))
    → Served hs size j ptr hs'
alloc_with_options-Served hs size j {ptr} v l e = elim (alloc_with_options_lem hs size j v l) [
  | inl (q, ks, runs, s) ↦
      subst (λ k. Served hs size j ptr k) (cc (runs, e))
        (subst (λ p. Served hs size j p ks) (cc (runs, e)) s)
  | inr (null, _) ↦ absurd (cc (null, e))
]

-- When `alloc_with_options` serves a request with a layout from a well-formed heap, the heap that it
-- leaves is well formed: its blocks are in range and none overlaps another.
pub alloc_with_options-IsHeap :
    (hs : Heap) (size j ptr : ℕ) (hs' : Heap)
    → IsHeap hs
    → IsLayout size j
    → alloc_with_options hs size (2 ^ j) ≡ ok (some (ptr, hs'))
    → IsHeap hs'
alloc_with_options-IsHeap hs size j ptr hs' v l e =
    Served-IsHeap v (alloc_with_options-Served hs size j v l e)

-- What `alloc_with_options` hands out from a well-formed heap for a layout is aligned as the layout
-- asks and not null, and its bytes are clear of every block that was in use.
pub alloc_with_options-Clear :
    (hs : Heap) (size j ptr : ℕ) (hs' : Heap)
    → IsHeap hs
    → IsLayout size j
    → alloc_with_options hs size (2 ^ j) ≡ ok (some (ptr, hs'))
    → (ptr % 2 ^ j ≡ 0) × (0 < ptr) × All (FreeOrClear ptr size) hs
alloc_with_options-Clear hs size j ptr hs' v l e =
    Served-Clear v (alloc_with_options-Served hs size j v l e)
