-- ===== src/Camera.antt =====
-- The camera driver, drivers/video/camera_hpmicro.c.
pub mod Types
pub mod Hal
pub mod Isr
pub mod Format
pub mod Queue
pub mod Control
mod Tests
