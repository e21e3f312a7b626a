-- ===== src/Xhci/Trb/Setup.antt =====
-- The transfer type of a setup stage.
use mushix.Prelude.{ℕ, ◌<◌, ◌≡◌, ◌≢◌, arith, bit_and}
use mushix.Word.Split.{bit_and-split, bit_and-zero, zero-bit_and}
use mushix.Xhci.Trb.Stages.{setup_stage_trb, transfer_type}

-- For a request number below 128 and a length other than 0, the setup stage has transfer type 2,
-- an OUT data stage, whatever the request type says.
pub setup_stage_trb_lem :
    (request_type request value index length : ℕ)
    → request < 128
    → length ≢ 0
    → (setup_stage_trb request_type request value index length).control ≡ 0x20840
unfolding setup_stage_trb transfer_type
setup_stage_trb_lem request_type request value index length h ne = ground (arith, no_bit)
  where
    no_bit : bit_and request 128 ≡ 0
    no_bit = ground (arith, bit_and-split 7 0 request 1 0, bit_and-zero request, zero-bit_and 1)
