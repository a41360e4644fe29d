-- ===== src/Uart/Config.antt =====
-- Initialisation and configuration.
pub mod Accepted
use mathlib.Core.Option
use hpm_support.Prelude.{ℕ, Bool, true, false, Option, none, some, if◌then◌else◌}
use hpm_support.Errno.{Errno, Result, Status, success, ok, err, enotsup}
use hpm_support.Uart.Types.{
  Parity, DataBits, StopBits, FlowCtrl, no_parity, odd, even, mark, space, bits_5, bits_6, bits_7,
  bits_8, bits_9, half, one, one_and_half, two, no_flow_ctrl, rts_cts, dtr_dsr, rs485, UartConfig,
  UartCfg, Dev,
}
use hpm_support.Uart.Hal.{Hal, SdkConfig}

-- The settings of the device tree.
abbrev pub requested : UartCfg → UartConfig
requested cfg = record {
  baudrate = cfg.baud_rate;
  parity = cfg.parity;
  stop_bits = cfg.stop_bits;
  data_bits = cfg.data_bits;
  flow_ctrl = cfg.flow_ctrl;
}

module _ {Hw : Type 0} (hal : Hal Hw) where
  -- The four `switch` statements of `uart_hpm_configure_init`; `none` is their `default`.
  unfoldable pub parity_of : Parity → Option ℕ
  parity_of no_parity = some hal.parity_none
  parity_of odd = some hal.parity_odd
  parity_of even = some hal.parity_even
  parity_of mark = none
  parity_of space = none

  unfoldable pub word_length_of : DataBits → Option ℕ
  word_length_of bits_5 = some hal.word_length_5_bits
  word_length_of bits_6 = some hal.word_length_6_bits
  word_length_of bits_7 = some hal.word_length_7_bits
  word_length_of bits_8 = some hal.word_length_8_bits
  word_length_of bits_9 = none

  unfoldable pub stop_bits_of : StopBits → Option ℕ
  stop_bits_of half = none
  stop_bits_of one = some hal.stop_bits_1
  stop_bits_of one_and_half = some hal.stop_bits_1_5
  stop_bits_of two = some hal.stop_bits_2

  unfoldable pub flow_ctrl_of : FlowCtrl → Option Bool
  flow_ctrl_of no_flow_ctrl = some false
  flow_ctrl_of rts_cts = some true
  flow_ctrl_of dtr_dsr = none
  flow_ctrl_of rs485 = none

  -- The library's configuration before the `switch` statements.
  unfoldable pub base_config : UartCfg → UartConfig → Hw → SdkConfig
  base_config cfg c hw =
      let default : SdkConfig = record (hal.default_config) {
        src_freq_in_hz = hal.clock_frequency hw;
        baudrate = c.baudrate;
      } in
      if cfg.async_capable
      then record default {
        fifo_enable = true;
        dma_enable = true;
        tx_fifo_level = hal.tx_fifo_trg_not_full;
        rx_fifo_level = hal.rx_fifo_trg_gt_three_quarters;
      }
      else default

  -- The library's configuration for a request, if each `switch` knows its value.
  unfoldable pub config_of : UartCfg → UartConfig → Hw → Option SdkConfig
  unfolding parity_of word_length_of stop_bits_of flow_ctrl_of base_config
  config_of cfg c hw = Option.bind (parity_of c.parity) λ p.
      Option.bind (word_length_of c.data_bits) λ w. Option.bind (stop_bits_of c.stop_bits) λ s.
        Option.map
          (λ f. record (base_config cfg c hw) {
            parity = p;
            word_length = w;
            num_of_stop_bits = s;
            auto_flow_ctrl_en = f;
          })
          (flow_ctrl_of c.flow_ctrl)

  -- The end of `uart_hpm_configure_init`: the loopback and `uart_init`.
  unfoldable pub start : UartCfg → Option SdkConfig → Dev Hw → Result ℕ × Dev Hw
  start cfg none d = (err enotsup, d)
  start cfg (some c) d =
      let hw = if cfg.loopback_en then hal.enable_loopback d.hw else hal.disable_loopback d.hw in
      let (stat, hw') = hal.init c hw in (ok stat, record d { hw = hw' })

  -- `uart_hpm_configure_init`; `ok` holds the library's status, which is 0 for success.
  unfoldable pub configure_init : UartCfg → UartConfig → Dev Hw → Result ℕ × Dev Hw
  unfolding config_of start
  configure_init cfg c d =
      let d' : Dev Hw = record d { hw = hal.set_up_clock d.hw } in
      start cfg (config_of cfg c d'.hw) d'

  -- `uart_hpm_configure_get`
  abbrev pub configure_get : Dev Hw → UartConfig
  configure_get d = d.uart_config

  -- `uart_hpm_init` after the pins
  unfoldable pub init_unit : UartCfg → Dev Hw → Dev Hw
  unfolding configure_init
  init_unit cfg d =
      let d' = (configure_init cfg (requested cfg) (record d { uart_config = requested cfg })).1 in
      record d' { hw = hal.irq_config d'.hw }

  -- `uart_hpm_init` once the pins are set
  unfoldable pub after_pins : UartCfg → Option Errno → Dev Hw → Status × Dev Hw
  unfolding init_unit
  after_pins cfg (some e) d = (err e, d)
  after_pins cfg none d = (success, init_unit cfg d)

  -- `uart_hpm_init`
  unfoldable pub init : UartCfg → Dev Hw → Status × Dev Hw
  unfolding init_unit after_pins
  init cfg d =
      let d' : Dev Hw = record d { self_dev = if cfg.async_capable then true else d.self_dev } in
      let (ret, hw) = hal.apply_pinctrl d'.hw in after_pins cfg ret (record d' { hw = hw })
