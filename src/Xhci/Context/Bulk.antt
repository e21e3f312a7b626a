-- ===== src/Xhci/Context/Bulk.antt =====
-- The input context of `configure_bulk_endpoint` of src/xhci.rs.
use mushix.Prelude.{
  ℕ, ◌+◌, ◌-◌, ◌*◌, ◌^◌, ◌<◌, ◌≡◌, ◌∙◌, ap, refl, arith, bit_and, bit_or, true, not, ◌∷◌, set,
  replicate, ltb, leb, ◌==◌, lt→ltb, if◌then◌else◌, ok,
}
use mushix.Word.{shl, u32}
use mushix.Word.Shift.{shl_lem, two-pow-lt}
use mushix.Word.Split.{bit_or-split}
use mushix.Xhci.Context.{
  EndpointType, bulk_in, bulk_out, raw_ep_type, InputContext, empty_ep, set_field, add_context,
  set_ep_ctx, set_last_valid_dci, configure_bulk_context,
}
use mushix.Xhci.Context.Laws.{endpoint, new_bulk_endpoint_lem, set_field_lem}

-- The type of a bulk endpoint by its address.
abbrev pub bulk_type : ℕ → EndpointType
bulk_type endpoint_address = if not (bit_and endpoint_address 0x80 == 0) then bulk_in else bulk_out

-- The slot context and the endpoint are to be changed, the endpoint's context is in its place, and
-- its index is the last valid one.
abbrev pub configured : (endpoint_address max_packet_size ring dci : ℕ) → InputContext
configured endpoint_address max_packet_size ring dci = record {
  input_ctrl_ctx = record { drop_context_bitmap = 0; add_context_bitmap = 1 + 2 ^ dci };
  device_ctx = record {
    slot_ctx = (dci * 2 ^ 27) ∷ replicate 7 0;
    ep_ctx =
        set (replicate 31 empty_ep) (dci - 1)
          (record (endpoint (raw_ep_type (bulk_type endpoint_address)) max_packet_size ring) {
            average_trb_length = max_packet_size;
          });
  };
}

pub configure_bulk_context_lem :
    (endpoint_address max_packet_size ring dci : ℕ)
    → max_packet_size < 2 ^ 16
    → ring < 2 ^ 64
    → 0 < dci
    → dci < 32
    → configure_bulk_context endpoint_address max_packet_size ring dci
      ≡ ok (configured endpoint_address max_packet_size ring dci)
unfolding configure_bulk_context add_context set_ep_ctx set_last_valid_dci
configure_bulk_context_lem endpoint_address mps ring dci hm hr hd hd' =
    rw
      (
        lt→ltb dci 32 hd',
        lt→ltb 0 dci hd,
        last,
        small,
        new_bulk_endpoint_lem (bulk_type endpoint_address) mps ring hm hr,
        index_word,
        bits,
      )
      refl
  where
    small : leb dci 31 ≡ true
    small = ground arith

    last : (if ltb 1 dci then dci else 1) ≡ dci
    last = ground arith

    index_word : set_field 31 27 (u32 dci) 0 ≡ dci * 2 ^ 27
    index_word =
        ap (λ (d : ℕ). set_field 31 27 d 0) (omega arith)
        ∙ set_field_lem 27 5 0 dci 0 refl (omega arith) (omega arith) (omega arith) (omega arith)
            (omega arith)
        ∙ omega arith

    bits : bit_or 1 (shl 32 1 dci) ≡ 1 + 2 ^ dci
    bits =
        ap (bit_or 1) (shl_lem 32 1 dci hd' (omega (arith, two-pow-lt dci 32 hd')) ∙ omega arith)
        ∙ ap (λ (n : ℕ). bit_or n (1 * 2 ^ dci + 0)) (omega arith)
        ∙ bit_or-split dci 0 1 1 0 (two-pow-lt 0 dci hd) (omega (arith, two-pow-lt 0 dci hd))
        ∙ omega arith
