-- ===== src/Spi/Dma.antt =====
-- The streams: spi_hpm_dma_callback, spi_hpm_dma_tx_load, spi_hpm_dma_rx_load and
-- wait_dma_rx_tx_done. The wait is recursion on fuel; `none` says that it has not ended.
use hpm_support.Prelude.{
  ℕ, zero, suc, ◌==◌, Bool, true, false, ◌||◌, Option, none, some, if◌then◌else◌,
}
use hpm_support.Errno.{Status, success, ok, err, eio}
use hpm_support.Spi.Types.{
  Flags, Stream, memory_to_peripheral, peripheral_to_memory, peripheral_to_peripheral, Dev,
}
use hpm_support.Spi.Hal.{Os, Hal}
use hpm_support.Spi.Config.{on_ctx, keep}

abbrev pub no_flags : Flags
no_flags = record { error = false; rx_done = false; tx_done = false }

abbrev pub ended_or {ℓ} : {A : Type ℓ} → Option A → Option A → Option A
ended_or (some a) rest = some a
ended_or none rest = rest

module _ {BufSet Ctx Hw : Type 0} (os : Os BufSet Ctx Hw) (hal : Hal Hw) where
  -- The flags after the callback of a channel
  abbrev pub flags_of : Bool → ℕ → Dev Ctx Hw → Flags
  flags_of failed channel d =
      if failed
      then record (d.status_flags) { error = true }
      else if channel == d.dma_tx.channel
      then record (d.status_flags) { tx_done = true }
      else if channel == d.dma_rx.channel
      then record (d.status_flags) { rx_done = true }
      else record (d.status_flags) { error = true }

  -- `spi_hpm_dma_callback`; `failed` says that the status is not 0.
  unfoldable pub dma_callback : Bool → ℕ → Dev Ctx Hw → Dev Ctx Hw
  dma_callback failed channel d =
      on_ctx (os.complete success) (record d { status_flags = flags_of failed channel d })

  -- The configurations of the streams
  abbrev pub tx_stream : ℕ → ℕ → Stream → Stream
  tx_stream buf len s = record {
    channel = s.channel;
    channel_direction = if buf == 0 then peripheral_to_peripheral else memory_to_peripheral;
    source_burst_length = 1;
    source_address = if buf == 0 then hal.dummy_tx_buffer else buf;
    source_inc = if buf == 0 then false else true;
    dest_address = hal.data_register;
    dest_inc = false;
    block_size = len;
  }

  abbrev pub rx_stream : ℕ → ℕ → Stream → Stream
  rx_stream buf len s = record {
    channel = s.channel;
    channel_direction = if buf == 0 then peripheral_to_peripheral else peripheral_to_memory;
    source_burst_length = 1;
    source_address = hal.data_register;
    source_inc = false;
    dest_address = if buf == 0 then hal.dummy_rx_buffer else buf;
    dest_inc = if buf == 0 then false else true;
    block_size = len;
  }

  -- `spi_hpm_dma_tx_load`
  unfoldable pub dma_tx_load : ℕ → ℕ → Dev Ctx Hw → Status × Dev Ctx Hw
  dma_tx_load buf len d =
      let s = tx_stream buf len d.dma_tx in keep (hal.dma_config s d.hw) (record d { dma_tx = s })

  -- `spi_hpm_dma_rx_load`
  unfoldable pub dma_rx_load : ℕ → ℕ → Dev Ctx Hw → Status × Dev Ctx Hw
  dma_rx_load buf len d =
      let s = rx_stream buf len d.dma_rx in keep (hal.dma_config s d.hw) (record d { dma_rx = s })

  -- What a return of the wait ends with, if it ends the loop
  abbrev pub waited : Status × Dev Ctx Hw → Option (Status × Dev Ctx Hw)
  waited (err e, d) = some (err e, d)
  waited (ok u, d) =
      if d.status_flags.error
      then some (err eio, d)
      else if d.status_flags.rx_done || d.status_flags.tx_done
      then some (success, d)
      else none

  -- `wait_dma_rx_tx_done`
  unfoldable pub wait_dma_rx_tx_done : ℕ → Dev Ctx Hw → Option (Status × Dev Ctx Hw)
  wait_dma_rx_tx_done zero d = none
  wait_dma_rx_tx_done (suc n) d =
      let r = os.wait_for_completion d in
      let rest = wait_dma_rx_tx_done n r.1 in ended_or (waited r) rest
