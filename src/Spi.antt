-- ===== src/Spi.antt =====
-- The driver of the serial peripheral interface, drivers/spi/spi_hpmicro.c.
pub mod Types
pub mod Hal
pub mod Context
pub mod Config
pub mod Packet
pub mod Dma
pub mod Transceive
mod Tests
