-- ===== src/Can.antt =====
-- drivers/can/can_hpmicro.c, the driver of the classic CAN controller: filters, reception,
-- transmission, control and the interrupt handler.
pub mod Types
pub mod Hal
pub mod Filter
pub mod State
pub mod Rx
pub mod Tx
pub mod Control
pub mod Isr
mod Board
mod FilterTests
mod TxTests
mod RxTests
