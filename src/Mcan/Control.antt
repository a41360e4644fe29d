-- ===== src/Mcan/Control.antt =====
-- Control in drivers/can/mcan_hpmicro.c: initialisation, mode, bit timing, start and stop, the state
-- callback, clock and capabilities.
use hpm_support.Prelude.{Bool, true, false, not, ◌&&◌, ℕ, none, some, if◌then◌else◌}
use hpm_support.Errno.{Status, success, ok, err, ebusy, enotsup, eagain, ealready, enetdown, enosys}
use hpm_support.Can.Types.{NodeMode, normal, loopback_internal, listen_only, Mode, Timing, Pointer}
use hpm_support.Can.Control.{bitrate}
use hpm_support.Mcan.Types.{Config, McanData, Dev}
use hpm_support.Mcan.Hal.{Hal, Os}

-- The fields that `hpm_mcan_init` sets before the pins: both semaphores are full.
abbrev pub init_data : {Hw : Type 0} → Os Hw → McanData → McanData
init_data os s = record s {
  inst_mutex = os.mutex_init;
  tx_mutex = os.mutex_init;
  tx_sem = os.sem_init 32 32;
  tx_fin_sem = os.sem_init 1 1;
  filter_rtr = 0;
  filter_rtr_mask = 0;
}

-- The configuration that it hands to `mcan_init`, with the lengths of the tables.
abbrev pub init_config : McanData → Config → Config
init_config s c = record c {
  ext_elem_count = s.ext.filter_count;
  std_elem_count = s.std.filter_count;
}

module _ {Hw : Type 0} (hal : Hal Hw) where
  -- `mcan_init` with the status turned into an error.
  abbrev pub apply_config : Dev Hw → Status × Dev Hw
  apply_config d =
      let (done, hw') =
        hal.init d.drv.config d.drv.ext.filters d.drv.std.filters (hal.clock_freq d.hw) d.hw in
      (if done then success else err eagain, record d { hw = hw' })

  -- `hpm_mcan_init` from the pins on: the message buffer, the configuration, the interrupt.
  unfoldable pub init_unit : Dev Hw → Status × Dev Hw
  init_unit d =
      let (placed, hw1) = hal.set_msg_buf_attr d.hw in
      let b : Dev Hw = if hal.buf_in_ahb_ram then record d { hw = hw1 } else d in
      let (st, c) = apply_config (record b {
        drv = record (b.drv) { config = init_config b.drv hal.default_config };
        hw = hal.set_up_clock b.hw;
      }) in
      if hal.buf_in_ahb_ram && not placed
      then (err eagain, b)
      else elim st [ ok u ↦ (success, record c { hw = hal.irq_config c.hw }) | err e ↦ (err e, c) ]

  -- `hpm_mcan_init`
  unfoldable pub init : Os Hw → Dev Hw → Status × Dev Hw
  unfolding init_unit
  init os d =
      let (pins, hw1) = hal.apply_pinctrl d.hw in
      let d1 : Dev Hw = record d { drv = init_data os d.drv; has_sent_out = true; hw = hw1 } in
      elim pins [ some e ↦ (err e, d1) | none ↦ init_unit d1 ]

  -- The node mode that `hpm_mcan_set_mode` chooses, and the registers that it changes.
  unfoldable pub node_mode : Mode → NodeMode
  node_mode m =
      if m.loopback then loopback_internal else if m.listenonly then listen_only else normal

  abbrev pub mode_registers : Mode → Hw → Hw
  mode_registers m hw =
      if m.loopback
      then hal.set_loopback (hal.set_mon_test hw)
      else if m.listenonly
      then hal.set_mon hw
      else hal.clear_mon_test hw

  -- `hpm_mcan_set_mode`; `fd` is `CONFIG_CAN_FD_MODE`.
  unfoldable pub set_mode : Bool → Mode → Dev Hw → Status × Dev Hw
  unfolding node_mode
  set_mode fd m d =
      let s = d.drv in
      let c' = record (s.config) {
        mode = node_mode m;
        enable_canfd = if fd && m.fd then true else s.config.enable_canfd;
      } in
      if s.started then (err ebusy, d) else if not fd && m.fd then (err enotsup, d) else (
        success,
        record d { drv = record s { config = c'; mode = m }; hw = mode_registers m d.hw },
      )

  -- `hpm_mcan_set_timing`
  unfoldable pub set_timing : Timing → Dev Hw → Status × Dev Hw
  set_timing t d =
      let s = d.drv in
      let c = record (s.config) { baudrate = bitrate (hal.clock_freq d.hw) t } in
      if s.started
      then (err ebusy, d)
      else apply_config (record d { drv = record s { config = c } })

  -- `hpm_mcan_set_timing_data`
  unfoldable pub set_timing_data : Timing → Dev Hw → Status × Dev Hw
  set_timing_data t d =
      let s = d.drv in
      let c = record (s.config) { baudrate_fd = bitrate (hal.clock_freq d.hw) t } in
      if s.started
      then (err ebusy, d)
      else apply_config (record d { drv = record s { config = c } })

  -- `hpm_mcan_start`
  unfoldable pub start : Dev Hw → Status × Dev Hw
  start d = if d.drv.started then (err ealready, d) else (
    success,
    record d { drv = record (d.drv) { started = true }; hw = (apply_config d).1.hw },
  )

  -- `hpm_mcan_stop`
  unfoldable pub stop : Dev Hw → Status × Dev Hw
  stop d =
      if d.drv.started
      then (success, record d { drv = record (d.drv) { started = false }; hw = hal.deinit d.hw })
      else (err ealready, d)

  -- `hpm_mcan_get_core_clock`
  unfoldable pub get_core_clock : Dev Hw → ℕ
  get_core_clock d = hal.clock_freq d.hw

-- `hpm_mcan_recover`
unfoldable pub recover : {Hw : Type 0} → Dev Hw → Status
recover d = if d.drv.started then err enosys else err enetdown

-- `hpm_mcan_set_state_change_callback`
unfoldable pub set_state_change_callback : {Hw : Type 0} → Pointer → Pointer → Dev Hw → Dev Hw
set_state_change_callback cb arg d = record d {
  drv = record (d.drv) { state_change_cb = cb; state_change_cb_data = arg };
}

-- `hpm_mcan_get_capabilities`: the node mode, and whether `CAN_MODE_FD` is added.
unfoldable pub get_capabilities : {Hw : Type 0} → Bool → Dev Hw → NodeMode × Bool
get_capabilities fd d = (d.drv.config.mode, fd)
