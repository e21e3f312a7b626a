-- ===== src/Allocator/Reuse.antt =====
-- `dealloc`, and what becomes of a block that was freed.
use mushix.Prelude.{
  ℕ, ◌^◌, ◌<◌, ◌≡◌, ◌≢◌, ◌∙◌, ap, sym, inr, arith, false, [], ◌∷◌, ◌++◌, All, none, some, ok,
}
use mathlib.Core.List.{append_assoc}
use mushix.Allocator.{Header, Heap, Provided, provide, mark_free, dealloc, header_size}
use mushix.Word.{sub64}
use mushix.Allocator.Blocks.{IsBlock, IsHeap, Disjoint, finish}
use mushix.Allocator.Request.{IsLayout, Carved, refused}
use mushix.Allocator.Heap.{Served}
use mushix.Allocator.Safety.{Served-IsHeap}

abbrev pub freed : Header → Header
freed b = record b { is_allocated = false }

-- In a well-formed heap a header is found by its address, and only its flag changes.
pub mark_free_lem :
    (before : Heap) (b : Header) (after : Heap)
    → IsHeap (before ++ (b ∷ after))
    → mark_free (before ++ (b ∷ after)) b.addr ≡ some (before ++ (freed b ∷ after))
unfolding mark_free
mark_free_lem [] b after v = ground arith
mark_free_lem (k ∷ before) b after v =
    rw (mark_free_lem before b after (record { blocks = v.blocks.1; apart = v.apart.1 }))
      (ground (arith, differ before v.apart.0 v.blocks.1))
  where
    differ :
        (ks : Heap)
        → All (Disjoint k) (ks ++ (b ∷ after))
        → All IsBlock (ks ++ (b ∷ after))
        → k.addr ≢ b.addr
    differ [] d w = omega (arith, d.0, v.blocks.0.holds_header, w.0.holds_header)
    differ (x ∷ ks) d w = differ ks d.1 w.1

-- Freeing what was just handed out finds its block and frees that block and nothing else.
pub dealloc-Served :
    {hs : Heap} {size j ptr : ℕ} {hs' : Heap}
    → IsHeap hs
    → (s : Served hs size j ptr hs')
    → dealloc hs' ptr
      ≡ some (s.before ++ (s.carved.rest ∷ freed s.carved.own ∷ (s.carved.padding ++ s.after)))
unfolding dealloc
dealloc-Served {ptr} {hs'} v s =
    rw (at_header, regroup)
      (mark_free_lem (s.before ++ (c.rest ∷ [])) c.own (c.padding ++ s.after)
          (rw regroup at (Served-IsHeap v s))
        ∙ ap some (append_assoc s.before (c.rest ∷ []) (freed c.own ∷ (c.padding ++ s.after))))
  where
    open s use {carved as c}

    regroup : hs' ≡ (s.before ++ (c.rest ∷ [])) ++ (c.own ∷ (c.padding ++ s.after))
    regroup =
        s.result
        ∙ ap (λ bs. s.before ++ (bs ++ s.after)) c.parts
        ∙ sym (append_assoc s.before (c.rest ∷ []) (c.own ∷ (c.padding ++ s.after)))

    in_space : finish c.own < 2 ^ 64
    in_space = (rw c.parts at c.good).1.0.in_space

    at_header : sub64 ptr header_size ≡ c.own.addr
    at_header = omega (arith, s.address, c.own_lem, in_space)

-- A block that is carved for a request and freed again cannot serve a request of the same size and
-- alignment.
pub provide-freed :
    {h : Header} {size j : ℕ} {p : Provided}
    → (c : Carved h size j p) → IsLayout size j
    → provide (freed c.own) size (2 ^ j) ≡ ok none
provide-freed {size} {j} c l =
    refused (freed c.own) size j c.exponent own-IsBlock l c.rounds (inr (omega (arith, c.own_size)))
  where
    own-IsBlock : IsBlock (freed c.own)
    own-IsBlock = ground (arith, (rw c.parts at c.good).1.0)
