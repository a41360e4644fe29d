-- ===== src/Adc.antt =====
-- The driver of the 12-bit converter, drivers/adc/adc_hpmicro_adc12.c.
pub mod Types
pub mod Hal
pub mod Sequence
pub mod Isr
pub mod Channels
pub mod Programmed
mod Tests
