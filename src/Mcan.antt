-- ===== src/Mcan.antt =====
-- drivers/can/mcan_hpmicro.c, the driver of the MCAN controller.
pub mod Types
pub mod Hal
pub mod Filter
pub mod State
pub mod Rx
pub mod Tx
pub mod Isr
pub mod Control
mod Tests
