-- ===== src/Allocator/Heap.antt =====
-- `alloc_with_options` and `dealloc` on a well-formed heap.
use mushix.Prelude.{
  ℕ, ◌^◌, ◌≡◌, ap, ◌⊎◌, inl, inr, refl, [], ◌∷◌, ◌++◌, All, Option, none, some, Result, ok,
}
use mushix.Allocator.{Header, Heap, Provided, provide, alloc_with_options}
use mushix.Allocator.Blocks.{IsHeap}
use mushix.Allocator.Request.{IsLayout, Carved, provide_lem}

-- The first block that can serve the request is replaced by the blocks carved out of it.
pub record Served (hs : Heap) (size j ptr : ℕ) (hs' : Heap) : Type 0 where
  pub before : Heap
  pub chosen : Header
  pub after : Heap
  pub provided : Provided
  pub found : hs ≡ before ++ (chosen ∷ after)
  pub first : All (λ h. provide h size (2 ^ j) ≡ ok none) before
  pub carved : Carved chosen size j provided
  pub result : hs' ≡ before ++ (provided.blocks ++ after)
  pub address : ptr ≡ provided.ptr

abbrev Answer : Heap → ℕ → ℕ → Result (Option (ℕ × Heap)) → Type 0
Answer hs size j r =
    ((ptr : ℕ) × (hs' : Heap) × (r ≡ ok (some (ptr, hs'))) × Served hs size j ptr hs')
    ⊎ ((r ≡ ok none) × All (λ h. provide h size (2 ^ j) ≡ ok none) hs)

Served-cons :
    (h : Header) {hs : Heap} {size j ptr : ℕ} {hs' : Heap}
    → provide h size (2 ^ j) ≡ ok none
    → Served hs size j ptr hs'
    → Served (h ∷ hs) size j ptr (h ∷ hs')
Served-cons h no_room s = record {
  before = h ∷ s.before;
  chosen = s.chosen;
  after = s.after;
  provided = s.provided;
  found = ap (λ l. h ∷ l) s.found;
  first = (no_room, s.first);
  carved = s.carved;
  result = ap (λ l. h ∷ l) s.result;
  address = s.address;
}

-- `alloc_with_options` never panics on a well-formed heap: it serves the request from the first
-- block that can, and is null exactly when none can.
pub alloc_with_options_lem :
    (hs : Heap) (size j : ℕ)
    → IsHeap hs
    → IsLayout size j
    → Answer hs size j (alloc_with_options hs size (2 ^ j))
unfolding alloc_with_options
alloc_with_options_lem [] size j v l = inr (refl, tt)
alloc_with_options_lem (h ∷ hs) size j v l = elim (provide_lem h size j v.blocks.0 l) [
  | inl (p, e, c) ↦ inl (
    p.ptr,
    p.blocks ++ hs,
    rw e,
    record {
      before = [];
      chosen = h;
      after = hs;
      provided = p;
      found = refl;
      first = tt;
      carved = c;
      result = refl;
      address = refl;
    },
  )
  | inr (e, _) ↦
      elim (alloc_with_options_lem hs size j (record { blocks = v.blocks.1; apart = v.apart.1 })
        l) [
          | inl (ptr, hs', e', s) ↦ inl (ptr, h ∷ hs', rw (e, e'), Served-cons h e s)
          | inr (e', all) ↦ inr (rw (e, e'), (e, all))
        ]
]
