-- ===== src/Udc.antt =====
-- The driver of the USB device controller, drivers/usb/udc/udc_hpmicro.c.
pub mod Types
pub mod Hal
pub mod Feed
pub mod Control
pub mod Handlers
pub mod Isr
pub mod Endpoint
pub mod Device
pub mod Queue
mod Tests
