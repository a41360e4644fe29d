-- ===== src/Uart/Poll.antt =====
-- The polled and the interrupt-driven interfaces. `tx_data` and `rx_data` are memory from the
-- pointer on, by the offset.
pub mod Fifo
use hpm_support.Prelude.{
  ℕ, zero, suc, ◌+◌, ◌%◌, Bool, true, false, not, ◌&&◌, ◌||◌, Option, none, some, ltb, ◌==◌,
  if◌then◌else◌, word_and,
}
use hpm_support.Uart.Types.{Dev}
use hpm_support.Uart.Hal.{Hal}

abbrev pub write_byte : ℕ → ℕ → (ℕ → ℕ) → ℕ → ℕ
write_byte i v mem j = if j == i then v else mem j

abbrev shares_bit : ℕ → ℕ → Bool
shares_bit a m = not (word_and 32 a m == 0)

module _ {Hw : Type 0} (hal : Hal Hw) where
  -- `uart_hpm_poll_in`: the result, and what stands in `*c`, where the library writes on success.
  unfoldable pub poll_in : ℕ → Hw → (ℕ × ℕ) × Hw
  poll_in c hw =
      let ((received, v), hw') = hal.receive_byte hw in (if received then (0, v) else (1, c), hw')

  -- `uart_hpm_poll_out`
  abbrev pub poll_out : ℕ → Hw → Hw
  poll_out c hw = hal.send_byte c hw

  -- The loop of `uart_hpm_fifo_fill`: at most `n` rounds are left, `num_tx` bytes are sent.
  unfoldable pub fill_loop : ℕ → ℕ → ℕ → (ℕ → ℕ) → Hw → ℕ × Hw
  fill_loop zero len num_tx tx_data hw = (num_tx, hw)
  fill_loop (suc n) len num_tx tx_data hw =
      let rest = fill_loop n len (num_tx + 1) tx_data (hal.send_byte (tx_data num_tx) hw) in
      if ltb num_tx len && ltb num_tx 16 then rest else (num_tx, hw)

  -- `uart_hpm_fifo_fill`, with a length that is not negative
  unfoldable pub fifo_fill : (ℕ → ℕ) → ℕ → Hw → ℕ × Hw
  unfolding fill_loop
  fifo_fill tx_data len hw =
      if hal.transmitter_empty hw then fill_loop 17 len 0 tx_data hw else (0, hw)

  -- The loop of `uart_hpm_fifo_read`: at most `n` rounds are left; `num_rx` is a byte and counts
  -- modulo 256. `none` says that the loop has not ended.
  unfoldable pub read_loop : ℕ → ℕ → ℕ → (ℕ → ℕ) → Hw → Option ((ℕ × (ℕ → ℕ)) × Hw)
  read_loop zero size num_rx rx_data hw = none
  read_loop (suc n) size num_rx rx_data hw =
      let ((received, v), hw') = hal.receive_byte hw in
      let data' = if received then write_byte num_rx v rx_data else rx_data in
      let rest = read_loop n size ((num_rx + 1) % 256) data' hw' in
      if ltb num_rx size && hal.data_ready hw then rest else some ((num_rx, rx_data), hw)

  -- `uart_hpm_fifo_read`, with a size that is not negative
  unfoldable pub fifo_read : ℕ → (ℕ → ℕ) → ℕ → Hw → Option ((ℕ × (ℕ → ℕ)) × Hw)
  unfolding read_loop
  fifo_read fuel rx_data size hw = read_loop fuel size 0 rx_data hw

  -- `uart_hpm_irq_tx_enable`, `_disable`, `_ready` and `_complete`
  abbrev pub irq_tx_enable : Hw → Hw
  irq_tx_enable hw = hal.enable_tx_irq (hal.irq_enable hw)

  abbrev pub irq_tx_disable : Hw → Hw
  irq_tx_disable hw = hal.disable_tx_irq hw

  abbrev pub irq_tx_ready : Hw → ℕ
  irq_tx_ready hw = if hal.transmitter_empty hw then 1 else 0

  abbrev pub irq_tx_complete : Hw → ℕ
  irq_tx_complete hw = if hal.transmitter_empty hw then 1 else 0

  -- `uart_hpm_irq_rx_enable`, `_disable` and `_ready`
  abbrev pub irq_rx_enable : Hw → Hw
  irq_rx_enable hw = hal.enable_rx_irq (hal.irq_enable hw)

  abbrev pub irq_rx_disable : Hw → Hw
  irq_rx_disable hw = hal.disable_rx_irq hw

  abbrev pub irq_rx_ready : Hw → ℕ
  irq_rx_ready hw = if hal.data_ready hw then 1 else 0

  -- `uart_hpm_irq_is_pending`
  abbrev pub irq_is_pending : Hw → ℕ
  irq_is_pending hw =
      let id = hal.irq_id hw in
      if shares_bit id hal.id_rx_data_avail || shares_bit id hal.id_tx_slot_avail then 1 else 0

-- `uart_hpm_irq_callback_set`
abbrev pub irq_callback_set : {Hw : Type 0} → Option ℕ → ℕ → Dev Hw → Dev Hw
irq_callback_set cb arg d = record d { user_cb = cb; user_data = arg }
