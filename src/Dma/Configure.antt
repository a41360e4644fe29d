-- ===== src/Dma/Configure.antt =====
-- `dma_hpm_dma_configure` of drivers/dma/dma_hpmicro.c with `hpm_dma_get_transfer_width` and
-- `hpm_dma_get_transfer_burst`.
pub mod Codes
pub mod Outcome
pub mod Faults
use hpm_support.Prelude.{
  ℕ, ◌-◌, ◌%◌, ◌^◌, Bool, true, false, Option, none, some, ltb, ◌==◌, if◌then◌else◌, length,
}
use hpm_support.Errno.{Result, ok, err, Status, success, einval, enotsup, efault}
use hpm_support.Dma.Types.{
  ChConfig, Direction, memory_to_memory, memory_to_peripheral, peripheral_to_memory,
  peripheral_to_peripheral, other, DmaConfig, Channel, Dev, Hal, put_channel, on_channel,
}

-- The `switch` of `hpm_dma_get_transfer_width`: the power of two that a width is.
unfoldable pub width_case : ℕ → Option ℕ
width_case n =
    if n == 1
    then some 0
    else if n == 2
    then some 1
    else if n == 4
    then some 2
    else if n == 8
    then some 3
    else none

-- The `switch` of `hpm_dma_get_transfer_burst`.
unfoldable pub burst_case : ℕ → Option ℕ
burst_case n =
    if n == 1
    then some 0
    else if n == 2
    then some 1
    else if n == 4
    then some 2
    else if n == 8
    then some 3
    else if n == 16
    then some 4
    else if n == 32
    then some 5
    else if n == 64
    then some 6
    else if n == 128
    then some 7
    else if n == 256
    then some 8
    else if n == 512
    then some 9
    else if n == 1024
    then some 10
    else none

-- A code that the controller does not have is an error too.
abbrev pub within_max : ℕ → ℕ → Result ℕ
within_max top code = if ltb top code then err einval else ok code

-- `src_mode` and `dst_mode` of a direction: whether each side does a handshake.
unfoldable pub handshakes : Direction → Option (Bool × Bool)
handshakes memory_to_memory = some (false, false)
handshakes memory_to_peripheral = some (false, true)
handshakes peripheral_to_memory = some (true, false)
handshakes peripheral_to_peripheral = some (true, true)
handshakes other = none

module _ {Hw : Type 0} (hal : Hal Hw) where
  unfoldable pub get_transfer_width : ℕ → Result ℕ
  unfolding width_case
  get_transfer_width n = elim (width_case n) [
    | none ↦ err einval
    | some k ↦ within_max hal.width_max (hal.width_code k)
  ]

  unfoldable pub get_transfer_burst : ℕ → Result ℕ
  unfolding burst_case
  get_transfer_burst n = elim (burst_case n) [
    | none ↦ err einval
    | some k ↦ within_max hal.burst_max (hal.burst_code k)
  ]

  -- The int result in the `uint32_t data_size` or `burst_size` of the caller.
  abbrev pub as_u32 : Result ℕ → ℕ
  as_u32 (ok n) = n
  as_u32 (err e) = 2 ^ 32 - hal.einval_code

  -- The channel configuration once the direction and the three sizes are known, which go to fields
  -- of 8 bits.
  abbrev pub make_config : DmaConfig → Bool × Bool → ℕ → ℕ → ℕ → ChConfig
  make_config c modes sw dw burst = record {
    src_addr = hal.local_to_sys c.source_address;
    dst_addr = hal.local_to_sys c.dest_address;
    src_width = sw % 256;
    dst_width = dw % 256;
    src_burst_size = burst % 256;
    src_handshake = modes.0;
    dst_handshake = modes.1;
    src_addr_ctrl = c.source_addr_adj;
    dst_addr_ctrl = c.dest_addr_adj;
    size_in_byte = c.block_size;
  }

  -- `if (config->dma_callback)`: the callback and its user data are kept together.
  abbrev pub put_callback : Option ℕ → Option ℕ → Channel → Channel
  put_callback none arg ch = ch
  put_callback (some cb) arg ch = record ch { user_data = arg; dma_callback = some cb }

  -- From the sizes on. Each is an unsigned word and is tested for being below 0.
  unfoldable pub apply : ℕ → DmaConfig → Bool × Bool → Bool → Channel → Dev Hw → Status × Dev Hw
  apply i c modes key ch d =
      let sw = as_u32 (get_transfer_width c.source_data_size) in
      let dw = as_u32 (get_transfer_width c.dest_data_size) in
      let burst = as_u32 (get_transfer_burst c.source_burst_length) in
      let cfg = make_config c modes sw dw burst in
      let (done, hw') = hal.setup_channel i cfg d.hw in
      let ch' =
        put_callback c.dma_callback c.user_data
          (record ch { ch_config = cfg; valid = true; busy = false }) in
      if ltb sw 0
      then (err einval, d)
      else if ltb dw 0
      then (err einval, d)
      else if ltb burst 0
      then (err einval, d)
      else (
        if done then success else err efault,
        put_channel i ch' (record d { irq_locked = key; hw = hw' }),
      )

  -- The controller when the direction is looked at: the request is routed, a busy channel stopped.
  abbrev pub prepare : ℕ → ℕ → Bool → Hw → Hw
  prepare i slot busy hw =
      let hw' = hal.dmamux_config i slot hw in
      if busy then hal.clear_transfer_status i (hal.abort_channel i hw') else hw'

  -- The part behind the checks of the arguments. The return on an unknown direction leaves the
  -- interrupts locked, as the code does.
  unfoldable pub configure_channel : ℕ → DmaConfig → Channel → Dev Hw → Status × Dev Hw
  configure_channel i c ch d =
      let ch' = record ch { valid = false; direction = c.channel_direction } in
      let d' : Dev Hw =
        put_channel i ch'
          (record d { irq_locked = true; hw = prepare i c.dma_slot ch.busy d.hw }) in
      elim (handshakes c.channel_direction) [
        | none ↦ (err einval, d')
        | some modes ↦ apply i c modes d.irq_locked ch' d'
      ]

  -- `dma_hpm_dma_configure`; `none` for the configuration is NULL, and the number of channels is
  -- the length of the array.
  unfoldable pub configure : ℕ → Option DmaConfig → Dev Hw → Option (Status × Dev Hw)
  configure i none d = some (err einval, d)
  configure i (some c) d =
      if ltb hal.dma_requests c.dma_slot
      then some (err enotsup, d)
      else if ltb (length d.data_cb) i
      then some (err einval, d)
      else on_channel i d (λ ch. configure_channel i c ch d)
