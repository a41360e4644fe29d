-- ===== src/Gpio.antt =====
-- drivers/gpio/gpio_hpmicro.c, the driver of a GPIO port.
pub mod Types
pub mod Pin
pub mod Port
pub mod Irq
mod Tests
