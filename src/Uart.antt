-- ===== src/Uart.antt =====
-- The driver of the serial port, drivers/serial/uart_hpmicro.c, with `CONFIG_UART_ASYNC_API`,
-- `CONFIG_UART_INTERRUPT_DRIVEN` and `CONFIG_HPMICRO_UART_DIAG`.
pub mod Types
pub mod Hal
pub mod Config
pub mod Poll
pub mod Event
pub mod Rx
pub mod Tx
pub mod Isr
mod Tests
