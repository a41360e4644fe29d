-- ===== src/Dma.antt =====
-- drivers/dma/dma_hpmicro.c, the driver of the DMA controller. drivers/dma/dmav2_hpmicro.c has the
-- same text for the second generation of the controller.
pub mod Types
pub mod Channel
pub mod Configure
pub mod Isr
mod Tests
