-- ===== src/Lib.antt =====
-- A model of the Zephyr drivers for HPMicro's microcontrollers in this repository, with the theorems
-- that make the modelled parts correct.
--
-- The repository is a set of device drivers. Each driver keeps its data in a structure of its own
-- and registers a table of functions with Zephyr; the functions program a unit through the vendor's
-- library, and an interrupt handler calls back into the application. The drivers do not call each
-- other, so each is a component here. They share only the error numbers (Errno) and the kernel's
-- semaphores and mutexes (Zephyr).
--
-- What lies outside the repository is a parameter. The functions of the vendor's library and the
-- device-tree constants are the fields of a record `Hal` per driver, over an arbitrary type of
-- hardware states; the kernel's calls that a driver makes are the fields of a record `Os`, and their
-- documented behaviour, where a theorem relies on it, is a record of laws. Can.Board, Dma.Tests,
-- Pwm.Tests and the other files named Tests give such records by concrete functions and run the model
-- on them.
--
-- Numbers are natural numbers; where the source's arithmetic can leave the word, the reduction is
-- written out. Words are read bit by bit with the operations of Prelude.Bits. An access outside an
-- array and a call through a NULL pointer end the run: the model's function returns `none`.
-- In Udc and Camera, where the code reads or copies through a pointer that can be NULL, NULL is the
-- address 0 of the memory or gives an arbitrary word, as on the chip.
--
--   Prelude         tests on numbers, lists by index, machine words; no code of the repository
--   Errno, Zephyr   the results of the drivers, and the kernel's objects
--   Can             drivers/can/can_hpmicro.c, the classic CAN controller
--     Can.Types, Can.Hal    `struct hpm_can_data`, frames and buffers; the library and the kernel
--     Can.Filter            hpm_can_get_first_filter_index, hpm_can_add_rx_filter,
--                           hpm_can_remove_rx_filter
--     Can.State             hpm_can_get_state and the reading of the error flags
--     Can.Rx, Can.Tx        hpm_can_get_message; hpm_can_send, hpm_can_send_batch, their checks and
--                           the filling of transmit buffers
--     Can.Isr               hpm_can_isr and the completion and state change handlers
--     Can.Control           initialisation, mode, timing, start and stop
--   Mcan            drivers/can/mcan_hpmicro.c, the CAN controller with FD frames
--     Mcan.Types, Mcan.Hal  `struct hpm_mcan_data`; the library and the kernel
--     Mcan.Filter           hpm_mcan_add_rx_filter, hpm_mcan_remove_rx_filter, the two filter tables
--     Mcan.State            hpm_mcan_get_state
--     Mcan.Rx, Mcan.Tx      the messages of the FIFOs and buffers; hpm_mcan_send
--     Mcan.Isr, Mcan.Control  hpm_mcan_isr; initialisation, mode, timing, start and stop
--   Dma             drivers/dma/dma_hpmicro.c; drivers/dma/dmav2_hpmicro.c has the same text
--     Dma.Configure         dma_hpm_dma_configure and the codes of widths and bursts
--     Dma.Channel           the calls on a configured channel
--     Dma.Isr               dma_hpm_dma_irq_handler
--   Pwm             drivers/pwm/pwm_hpmicro.c; the driver keeps no state, so the state of the model
--                   is the sequence of the library's calls so far, the latest first
--     Pwm.V1, Pwm.V2        the set_cycles of the first and the second generation of the unit
--   Gpio            drivers/gpio/gpio_hpmicro.c
--   Uart            drivers/serial/uart_hpmicro.c
--     Uart.Config, Uart.Poll  uart_hpm_init, uart_hpm_configure_init; the polled and the
--                             interrupt-driven interfaces
--     Uart.Event              async_user_callback and the events of the asynchronous interface
--     Uart.Rx, Uart.Tx        uart_hpm_rx_enable, uart_hpm_rx_disable, the change of buffers;
--                             uart_hpm_tx, uart_hpm_tx_abort
--     Uart.Isr                uart_hpm_isr, uart_hpm_dma_callback, the diagnosis
--   I2c             drivers/i2c/i2c_hpmicro.c
--     I2c.Config, I2c.Target  initialisation and speed; the registration of a target
--     I2c.Transfer            hpmicro_i2c_transfer, hpmicro_restart_i2c
--     I2c.Isr                 hpmicro_i2c_isr, part by part
--   Flash           drivers/flash/flash_hpmicro.c
--   Spi             drivers/spi/spi_hpmicro.c
--     Spi.Config              spi_hpm_configure, spi_hpm_init, spi_hpm_release
--     Spi.Context             what Zephyr's context of a transfer promises
--     Spi.Packet              spi_hpm_transfer_next_packet, its callback, spi_hpm_isr
--     Spi.Dma, Spi.Transceive  the streams and the wait for them; transceive_dma, transceive
--   Adc             drivers/adc/adc_hpmicro_adc12.c
--     Adc.Sequence            the checks of a channel, the reading and its sequence
--     Adc.Channels, Adc.Isr   the channels of a word; hpmicro_adc12_isr
--   Camera          drivers/video/camera_hpmicro.c
--     Camera.Isr              hpmicro_cam_isr
--     Camera.Format, Camera.Queue, Camera.Control  the formats, the buffers, the rest of the calls
--   Udc             drivers/usb/udc/udc_hpmicro.c
--     Udc.Feed                udc_hpm_ep_feed, udc_hpm_ep_try_feed
--     Udc.Control             the setup packet and the stages of a control transfer
--     Udc.Handlers, Udc.Isr   the completed transfers; udc_hpm_isr
--     Udc.Endpoint, Udc.Device  the functions of `udc_hpm_api`
--     Udc.Queue               the abstract view of an endpoint, a queue with a flag, of which the
--                             functions are shown to be operations
--
-- A module's children named for a property hold its proofs. Files named Tests, FilterTests, TxTests
-- and RxTests hold runs at concrete inputs.
--
-- Bounds and fuel. The receive loop of hpm_can_isr runs while the controller has messages; it is
-- recursion on fuel, and more fuel than there are pending messages is enough (Can.Isr.Drain). The
-- loop of hpm_can_remove_rx_filter is given as many rounds as there are filters, and a round can only
-- lower their number. The loops of the DMA and PWM drivers have constant bounds and are recursion on
-- the number of rounds that are left.
--
-- The empty loop of hpm_mcan_send that waits for the last frame, the loops of the serial port and of
-- I2C on their FIFOs, the erase loop of the flash, the loops of transceive_dma, of the camera and of
-- the converter, and the walk along the descriptors of a USB transfer are recursion on fuel, and
-- `none` says that one has not ended. Each theorem that needs an end gives a number of rounds that is
-- enough: one for each descriptor of a transfer (Udc.Isr.Chain), one more than there are bytes in both
-- directions (Spi.Transceive.Drains), two more than there are waiting buffers (Camera.Isr.Conserved),
-- 33 for the channels of a word (Adc.Programmed).
--
-- Concurrency. A driver call is one step. What other threads and the interrupt do while a call waits
-- on a semaphore is part of the kernel's record: a theorem on a send without a callback names the
-- step of the completion handler that wakes it. The application's callback of the serial port can call
-- the driver, and what it does is a parameter.
--
-- Not modelled: log messages; the frequency queries and initialisations that only call the library;
-- device-tree expansion; and the drivers for Ethernet, SD card, the 16-bit ADC, clocks, pins, the
-- MIPI receiver and display, which no file of the library is about.
mod Prelude
pub mod Errno
pub mod Zephyr
pub mod Can
pub mod Mcan
pub mod Dma
pub mod Pwm
pub mod Uart
pub mod Spi
pub mod Adc
pub mod Camera
pub mod Udc
pub mod Gpio
pub mod I2c
pub mod Flash
