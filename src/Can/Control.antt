-- ===== src/Can/Control.antt =====
-- Control in drivers/can/can_hpmicro.c: initialisation, mode, bit timing, start and stop, the state
-- callback, clock and capabilities.
pub mod Lifecycle
use hpm_support.Prelude.{
  ℕ, ◌+◌, ◌*◌, ◌/◌, ◌%◌, ◌^◌, Bool, true, false, not, ◌&&◌, none, some, if◌then◌else◌,
}
use hpm_support.Errno.{Status, success, ok, err, ebusy, enotsup, eagain, ealready, enetdown, enosys}
use hpm_support.Can.Types.{
  NodeMode, normal, loopback_internal, listen_only, Mode, Config, Timing, Pointer, CanData, Dev,
}
use hpm_support.Can.Hal.{Hal, Os}

-- The bit rate that `hpm_can_set_timing` computes, in 32-bit words; the prescaler is not 0.
unfoldable pub bitrate : ℕ → Timing → ℕ
bitrate freq t = freq / (t.prescaler * (1 + t.prop_seg + t.phase_seg1 + t.phase_seg2) % 2 ^ 32)

-- The node mode that `hpm_can_set_mode` chooses.
unfoldable pub node_mode : Mode → NodeMode
node_mode m = if m.loopback then loopback_internal else if m.listenonly then listen_only else normal

-- The fields that `hpm_can_init` sets before the pins.
abbrev pub init_data : {Hw : Type 0} → Os Hw → CanData → CanData
init_data os s = record s {
  inst_mutex = os.mutex_init;
  tx_mutex = os.mutex_init;
  tx_sem = os.sem_init 1 1;
  can_filter_count = 0;
  tx_fin_sem = os.sem_init 0 1;
  filter_rtr = 0;
  filter_rtr_mask = 0;
}

-- The configuration that it hands to `can_init`.
abbrev pub init_config : Config → Config
init_config c = record c {
  baudrate_fd = 5000000;
  irq_txrx_enable_mask = record {
    receive = true;
    tx_primary_buf = true;
    tx_secondary_buf = true;
    error = true;
  };
  irq_error_enable_mask = record { bus_error = true; arbitration_lost = true; passive = true };
  filter_list_num = 0;
}

module _ {Hw : Type 0} (hal : Hal Hw) where
  -- `can_init` with the status turned into an error.
  abbrev pub apply_config : Dev Hw → Status × Dev Hw
  apply_config d =
      let (done, hw') = hal.init d.drv.config d.drv.filter_list (hal.clock_freq d.hw) d.hw in
      (if done then success else err eagain, record d { hw = hw' })

  -- `hpm_can_init`
  unfoldable pub init : Os Hw → Dev Hw → Status × Dev Hw
  init os d =
      let (pins, hw1) = hal.apply_pinctrl d.hw in
      let s = init_data os d.drv in
      let d1 : Dev Hw = record d { drv = s; hw = hw1 } in
      let d2 : Dev Hw = record d {
        drv = record s { config = init_config hal.default_config };
        hw = hal.set_source_divider hw1;
      } in
      let (st, d3) = apply_config d2 in
      elim pins [
        | some e ↦ (err e, d1)
        | none ↦ elim st [
          | ok u ↦ (success, record d3 { hw = hal.irq_config d3.hw })
          | err e ↦ (err e, d3)
        ]
      ]

  -- `hpm_can_set_mode`; `fd` is `CONFIG_CAN_FD_MODE`.
  unfoldable pub set_mode : Bool → Mode → Dev Hw → Status × Dev Hw
  unfolding node_mode
  set_mode fd m d =
      let s = d.drv in
      let c = s.config in
      let c' = record c {
        mode = node_mode m;
        enable_canfd = if fd && m.fd then true else c.enable_canfd;
      } in
      if s.started then (err ebusy, d) else if not fd && m.fd then (err enotsup, d) else (
        success,
        record d {
          drv = record s { config = c'; mode = m };
          hw = hal.set_node_mode (node_mode m) d.hw;
        },
      )

  -- `hpm_can_set_timing`
  unfoldable pub set_timing : Timing → Dev Hw → Status × Dev Hw
  unfolding bitrate
  set_timing t d =
      let s = d.drv in
      let c = record (s.config) { baudrate = bitrate (hal.clock_freq d.hw) t } in
      if s.started
      then (err ebusy, d)
      else apply_config (record d { drv = record s { config = c } })

  -- `hpm_can_set_timing_data`
  unfoldable pub set_timing_data : Timing → Dev Hw → Status × Dev Hw
  unfolding bitrate
  set_timing_data t d =
      let s = d.drv in
      let c = record (s.config) { baudrate_fd = bitrate (hal.clock_freq d.hw) t } in
      if s.started
      then (err ebusy, d)
      else apply_config (record d { drv = record s { config = c } })

  -- `hpm_can_start`
  unfoldable pub start : Dev Hw → Status × Dev Hw
  start d = if d.drv.started then (err ealready, d) else (
    success,
    record d { drv = record (d.drv) { started = true }; hw = (apply_config d).1.hw },
  )

  -- `hpm_can_stop`
  unfoldable pub stop : Dev Hw → Status × Dev Hw
  stop d =
      if d.drv.started
      then (success, record d { drv = record (d.drv) { started = false }; hw = hal.deinit d.hw })
      else (err ealready, d)

  -- `hpm_can_get_core_clock`
  unfoldable pub get_core_clock : Dev Hw → ℕ
  get_core_clock d = hal.clock_freq d.hw

-- `hpm_can_recover`
unfoldable pub recover : {Hw : Type 0} → Dev Hw → Status
recover d = if d.drv.started then err enosys else err enetdown

-- `hpm_can_set_state_change_callback`
unfoldable pub set_state_change_callback : {Hw : Type 0} → Pointer → Pointer → Dev Hw → Dev Hw
set_state_change_callback cb arg d = record d {
  drv = record (d.drv) { state_change_cb = cb; state_change_cb_data = arg };
}

-- `hpm_can_get_capabilities`: the node mode, and whether `CAN_MODE_FD` is added.
unfoldable pub get_capabilities : {Hw : Type 0} → Bool → Dev Hw → NodeMode × Bool
get_capabilities fd d = (d.drv.config.mode, fd)
