-- ===== src/Xhci.antt =====
-- The USB host controller driver of src/xhci.rs.
pub mod Trb
pub mod Ring
pub mod Command
pub mod Event
pub mod Control
pub mod Identify
pub mod Driver
pub mod Storage
pub mod Scsi
pub mod Context
pub mod Regs
pub mod Descriptor
