-- ===== src/Spi/Packet.antt =====
-- The transfers without DMA: spi_hpm_transfer_next_packet, spi_hpm_master_transfer_callback and
-- spi_hpm_isr.
pub mod Words
use hpm_support.Prelude.{ℕ, ◌+◌, ◌==◌, min, max, Bool, true, false, ◌&&◌, ◌||◌, if◌then◌else◌, ltb}
use hpm_support.Errno.{success}
use hpm_support.Spi.Types.{
  TransMode, write_read_together, write_only, read_only, other_mode, Control, Ints, Dev,
}
use hpm_support.Spi.Hal.{Os, Hal}
use hpm_support.Spi.Config.{on_hw, on_ctx, keep}

-- The mode and the sizes of a packet
pub record Packet : Type 0 where
  pub mode : TransMode
  pub tx_size : ℕ
  pub rx_size : ℕ

-- The packet for two sizes of which one at least is not 0
unfoldable pub packet_of : ℕ → ℕ → Packet
packet_of tx rx =
    if tx == 0
    then record { mode = read_only; tx_size = tx; rx_size = rx }
    else if rx == 0
    then record { mode = write_only; tx_size = tx; rx_size = rx }
    else if tx == rx
    then record { mode = write_read_together; tx_size = tx; rx_size = rx }
    else if ltb rx tx
    then record { mode = write_read_together; tx_size = rx; rx_size = rx }
    else record { mode = write_read_together; tx_size = tx; rx_size = tx }

-- `spi_rx_fifo_threshold_int | spi_tx_fifo_threshold_int | spi_end_int`, and single ones
abbrev pub all_ints : Ints
all_ints = record { rx_threshold = true; tx_threshold = true; end_ = true }

abbrev pub end_int : Ints
end_int = record { rx_threshold = false; tx_threshold = false; end_ = true }

abbrev pub threshold_ints : Ints
threshold_ints = record { rx_threshold = true; tx_threshold = true; end_ = false }

module _ {BufSet Ctx Hw : Type 0} (os : Os BufSet Ctx Hw) (hal : Hal Hw) where
  -- The end of a transfer
  unfoldable pub complete_all : Dev Ctx Hw → Dev Ctx Hw
  complete_all d = on_ctx (λ c. os.complete success (os.cs_control false c)) d

  abbrev pub commanded : Bool × Dev Ctx Hw → Dev Ctx Hw
  commanded (true, d) = on_hw (hal.enable_interrupt all_ints) d
  commanded (false, d) = d

  abbrev pub command : Control → Bool × Dev Ctx Hw → Dev Ctx Hw
  command c (true, d) = commanded (keep (hal.write_command c d.hw) d)
  command c (false, d) = d

  -- The start of a packet
  unfoldable pub start_packet : Packet → Dev Ctx Hw → Dev Ctx Hw
  start_packet p d =
      let c = record (hal.default_control) { trans_mode = p.mode } in
      let s : Dev Ctx Hw = record d {
        control_config = c;
        transfer_len = max p.rx_size p.tx_size;
        tx_buf = os.tx_buf d.ctx;
        rx_buf = os.rx_buf d.ctx;
      } in
      command c (keep (hal.control_init c p.tx_size p.rx_size s.hw) s)

  -- The packet that comes next in a context
  abbrev pub packet_at : Ctx → Packet
  packet_at c =
      packet_of (min (os.tx_len c) hal.transfer_count_max)
        (min (os.rx_len c) hal.transfer_count_max)

  -- `spi_hpm_transfer_next_packet`
  unfoldable pub transfer_next_packet : Dev Ctx Hw → Dev Ctx Hw
  transfer_next_packet d =
      if (os.tx_len d.ctx == 0) && (os.rx_len d.ctx == 0)
      then complete_all d
      else start_packet (packet_at d.ctx) d

  -- The context after a count of words
  abbrev pub advance : ℕ → ℕ → Ctx → Ctx
  advance tx rx c = os.update_rx 1 rx (os.update_tx 1 tx c)

  -- `spi_hpm_master_transfer_callback`
  unfoldable pub master_transfer_callback : Dev Ctx Hw → Dev Ctx Hw
  master_transfer_callback d =
      transfer_next_packet (on_ctx (advance d.transfer_len d.transfer_len) d)

  -- The part for the end of a packet
  unfoldable pub end_of_packet : Dev Ctx Hw → Dev Ctx Hw
  end_of_packet d =
      on_hw (hal.clear_interrupt_status end_int)
        (master_transfer_callback (on_hw (hal.disable_interrupt all_ints) d))

  abbrev pub moved_word : Bool × Dev Ctx Hw → Dev Ctx Hw
  moved_word (true, d) = on_hw (hal.clear_interrupt_status threshold_ints) d
  moved_word (false, d) = d

  -- One word of a packet, in each mode
  unfoldable pub move_word : TransMode → ℕ → Dev Ctx Hw → Dev Ctx Hw
  move_word read_only w d =
      moved_word (keep (hal.read_data w d.rx_buf 1 d.hw) (record d { rx_buf = d.rx_buf + 1 }))
  move_word write_only w d =
      moved_word (keep (hal.write_data w d.tx_buf 1 d.hw) (record d { tx_buf = d.tx_buf + 1 }))
  move_word write_read_together w d = moved_word (
      keep (hal.write_read_data w d.tx_buf 1 d.rx_buf 1 d.hw)
        (record d { tx_buf = d.tx_buf + 1; rx_buf = d.rx_buf + 1 }))
  move_word other_mode w d = d

  -- `spi_hpm_isr`
  unfoldable pub isr : Dev Ctx Hw → Dev Ctx Hw
  isr d =
      let irq = hal.get_interrupt_status d.hw in
      if irq.end_
      then end_of_packet d
      else if irq.rx_threshold || irq.tx_threshold
      then move_word d.control_config.trans_mode (hal.get_data_length_in_bytes d.hw) d
      else d
