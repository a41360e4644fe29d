-- ===== src/Camera/Control.antt =====
-- The stream, the signal and the initialisation: hpmicro_cam_stream_start to hpmicro_cam_init.
use hpm_support.Prelude.{ℕ, Bool, ◌&&◌, Option, none, some, if◌then◌else◌}
use hpm_support.Errno.{Errno, Status, success, Result, ok, err, einval, ealready}
use hpm_support.Camera.Types.{Interface, interface_none, dvp, mipi_csi, Dev}
use hpm_support.Camera.Hal.{Os, Hal, Config, Name, name_dvp, name_mipi, other_name}
use hpm_support.Camera.Isr.{on_hw}

module _ {Fifo Hw : Type 0} (os : Os Fifo Hw) (hal : Hal Hw) (cfg : Config) where
  -- `hpmicro_cam_stream_start`, `hpmicro_cam_stream_stop`
  unfoldable pub stream_start : Dev Fifo Hw → Status × Dev Fifo Hw
  stream_start d = (success, on_hw os hal cfg hal.cam_start d)

  unfoldable pub stream_stop : Dev Fifo Hw → Status × Dev Fifo Hw
  stream_stop d = (success, on_hw os hal cfg hal.cam_stop_safely d)

  -- `hpmicro_cam_set_ctrl`, `hpmicro_cam_get_ctrl`
  unfoldable pub set_ctrl : Dev Fifo Hw → Status × Dev Fifo Hw
  set_ctrl d = (success, d)

  unfoldable pub get_ctrl : Dev Fifo Hw → Status × Dev Fifo Hw
  get_ctrl d = (success, d)

  -- `hpmicro_cam_get_caps`: `min_vbuf_count`
  unfoldable pub get_caps : Bool → Result ℕ
  get_caps is_out = if is_out then ok 2 else err einval

  -- `hpmicro_cam_set_signal`
  unfoldable pub set_signal : Option ℕ → Dev Fifo Hw → Status × Dev Fifo Hw
  set_signal s d = elim d.signal [
    | none ↦ (success, record d { signal = s })
    | some old ↦ elim s [
      | none ↦ (success, record d { signal = none })
      | some new ↦ (err ealready, d)
    ]
  ]

  -- The interface of a name
  abbrev pub interface_of : Name → Interface
  interface_of name_dvp = dvp
  interface_of name_mipi = mipi_csi
  interface_of other_name = interface_none

  abbrev pub select_source : Name → Hw → Hw
  select_source name_dvp hw = if cfg.pixelmux then hal.select_dvp hw else hw
  select_source name_mipi hw =
      if cfg.mipi && cfg.has_phy && cfg.has_phy_init then hal.init_receiver hw else hw
  select_source other_name hw = hw

  abbrev pub after_pins : Option Errno × Hw → Dev Fifo Hw → Status × Dev Fifo Hw
  after_pins (some e, hw) d = (err e, record d { hw = hw })
  after_pins (none, hw) d = (
    success,
    record d {
      camera_interface = interface_of cfg.interface_name;
      hw = hal.irq_config (hal.set_up_clock (select_source cfg.interface_name hw));
    },
  )

  -- `hpmicro_cam_init`
  unfoldable pub init : Dev Fifo Hw → Status × Dev Fifo Hw
  init d =
      let e : Dev Fifo Hw = record d {
        fifo_in = os.fifo_init;
        fifo_out = os.fifo_init;
        cam_buffer = none;
      } in
      after_pins (hal.apply_pinctrl d.hw) e
