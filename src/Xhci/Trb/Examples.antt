-- ===== src/Xhci/Trb/Examples.antt =====
-- A concrete setup stage, and the fields of a block.
use mushix.Prelude.{◌≡◌, arith}
use mushix.Xhci.Trb.Stages.{setup_stage_trb, req_type_dir_device_to_host, req_get_descriptor}
use mushix.Xhci.Trb.Setup.{setup_stage_trb_lem}

-- GET_DESCRIPTOR reads from the device, and its data stage is OUT.
setup_stage_trb_lem_example :
    (setup_stage_trb req_type_dir_device_to_host req_get_descriptor 0x100 0 18).control ≡ 0x20840
setup_stage_trb_lem_example =
    setup_stage_trb_lem req_type_dir_device_to_host req_get_descriptor 0x100 0 18 (omega arith)
      (omega arith)
