-- ===== src/Dma/Channel.antt =====
-- The calls of drivers/dma/dma_hpmicro.c on a configured channel: start, stop, suspend, resume,
-- reload, status and initialisation.
pub mod Sound
use hpm_support.Prelude.{
  ℕ, zero, suc, Bool, true, false, Option, none, some, List, [], if◌then◌else◌, replicate,
}
use hpm_support.Errno.{Status, success, err, einval, efault}
use hpm_support.Dma.Types.{
  ChConfig, Direction, memory_to_memory, Channel, Dev, Hal, put_channel, on_channel,
}

-- A channel after the memset of `dma_hpm_dma_init`.
abbrev pub zero_config : ChConfig
zero_config = record {
  src_addr = 0;
  dst_addr = 0;
  src_width = 0;
  dst_width = 0;
  src_burst_size = 0;
  src_handshake = false;
  dst_handshake = false;
  src_addr_ctrl = 0;
  dst_addr_ctrl = 0;
  size_in_byte = 0;
}

-- `struct dma_status`, as far as the driver fills it in.
pub record DmaStatus : Type 0 where
  pub busy : Bool
  pub pending_length : ℕ
  pub dir : Direction

module _ {Hw : Type 0} (hal : Hal Hw) where
  -- `dma_hpm_dma_start`
  unfoldable pub start : ℕ → Dev Hw → Option (Status × Dev Hw)
  start i d = on_channel i d λ c.
      if c.valid
      then (
        success,
        put_channel i (record c { busy = true }) (record d { hw = hal.enable_channel i d.hw }),
      )
      else (err efault, d)

  -- `dma_hpm_dma_stop`
  unfoldable pub stop : ℕ → Dev Hw → Option (Status × Dev Hw)
  stop i d = on_channel i d λ c.
      if c.busy
      then (
        success,
        put_channel i (record c { valid = false; busy = false })
            (record d { hw = hal.clear_transfer_status i (hal.abort_channel i d.hw) }),
      )
      else (success, put_channel i (record c { valid = false }) d)

  -- `dma_hpm_dma_suspend`
  unfoldable pub suspend : ℕ → Dev Hw → Option (Status × Dev Hw)
  suspend i d = on_channel i d λ c.
      if c.busy then (success, record d { hw = hal.disable_channel i d.hw }) else (err einval, d)

  -- `dma_hpm_dma_resume`
  unfoldable pub resume : ℕ → Dev Hw → Option (Status × Dev Hw)
  resume i d = on_channel i d λ c.
      if c.busy then (success, record d { hw = hal.enable_channel i d.hw }) else (err einval, d)

  -- `dma_hpm_dma_reload`; the interrupt lock is as before when it returns.
  unfoldable pub reload : ℕ → ℕ → ℕ → ℕ → Dev Hw → Option (Status × Dev Hw)
  reload i src dst size d = on_channel i d λ c.
      let cfg = record (c.ch_config) { src_addr = src; dst_addr = dst; size_in_byte = size } in
      let (done, hw') = hal.setup_channel i cfg d.hw in
      if c.valid
      then (
        if done then success else err efault,
        put_channel i (record c { ch_config = cfg }) (record d { hw = hw' }),
      )
      else (err efault, d)

  -- `dma_hpm_dma_get_status` with `hpm_dma_get_transfer_size`
  unfoldable pub get_status : ℕ → Dev Hw → Option DmaStatus
  get_status i d = on_channel i d λ c. record {
    busy = c.busy;
    pending_length = if c.busy then hal.transfer_size i d.hw else 0;
    dir = c.direction;
  }

-- `dma_hpm_dma_init`: the channels of a controller with `n` of them.
unfoldable pub init : ℕ → List Channel
init n = replicate n (record {
  user_data = none;
  dma_callback = none;
  ch_config = zero_config;
  direction = memory_to_memory;
  valid = false;
  busy = false;
})
