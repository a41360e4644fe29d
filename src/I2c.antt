-- ===== src/I2c.antt =====
-- The I2C driver, drivers/i2c/i2c_hpmicro.c.
pub mod Types
pub mod Hal
pub mod Config
pub mod Transfer
pub mod Target
pub mod Isr
mod Tests
