-- ===== src/Uart/Config/Accepted.antt =====
-- The requests that `uart_hpm_configure_init` of drivers/serial/uart_hpmicro.c accepts.
use hpm_support.Prelude.{
  ℕ, ◌≡◌, ◌≢◌, ◌↔◌, ◌⊎◌, inl, inr, refl, sym, ap, ◌∙◌, if◌then◌else◌, true, Option, none, some,
}
use hpm_support.Errno.{Errno, success, ok, err, enotsup}
use hpm_support.Uart.Types.{
  Parity, DataBits, StopBits, FlowCtrl, no_parity, odd, even, mark, space, bits_5, bits_6, bits_7,
  bits_8, bits_9, half, one, one_and_half, two, no_flow_ctrl, rts_cts, dtr_dsr, rs485, UartConfig,
  UartCfg, Dev,
}
use hpm_support.Uart.Hal.{Hal, SdkConfig}
use hpm_support.Uart.Config.{
  parity_of, word_length_of, stop_bits_of, flow_ctrl_of, config_of, base_config, after_pins, start,
  configure_init, init_unit, init, requested,
}

-- What the driver supports.
abbrev pub SupportsParity : Parity → Type 0
SupportsParity p = (p ≢ mark) × (p ≢ space)

abbrev pub SupportsFlow : FlowCtrl → Type 0
SupportsFlow f = (f ≢ dtr_dsr) × (f ≢ rs485)

pub record IsSupported (c : UartConfig) : Type 0 where
  pub parity : SupportsParity c.parity
  pub data_bits : c.data_bits ≢ bits_9
  pub stop_bits : c.stop_bits ≢ half
  pub flow_ctrl : SupportsFlow c.flow_ctrl

-- Either the value is refused and not supported, or it is supported and translated.
abbrev Cases : {A : Type 0} → Option A → Type 0 → Type 0
Cases {A} o P = ((o ≡ none) × (¬ P)) ⊎ (P × ((n : A) × (o ≡ some n)))

ok-err : (n : ℕ) (e : Errno) → ok n ≢ err e
ok-err n e h = cc

module _ {Hw : Type 0} (hal : Hal Hw) where
  parity_of-cases : (p : Parity) → Cases (parity_of hal p) (SupportsParity p)
  unfolding parity_of
  parity_of-cases no_parity = inr ((λ e. cc, λ e. cc), (_, refl))
  parity_of-cases odd = inr ((λ e. cc, λ e. cc), (_, refl))
  parity_of-cases even = inr ((λ e. cc, λ e. cc), (_, refl))
  parity_of-cases mark = inl (refl, λ h. h.0 refl)
  parity_of-cases space = inl (refl, λ h. h.1 refl)

  word_length_of-cases : (b : DataBits) → Cases (word_length_of hal b) (b ≢ bits_9)
  unfolding word_length_of
  word_length_of-cases bits_5 = inr (λ e. cc, (_, refl))
  word_length_of-cases bits_6 = inr (λ e. cc, (_, refl))
  word_length_of-cases bits_7 = inr (λ e. cc, (_, refl))
  word_length_of-cases bits_8 = inr (λ e. cc, (_, refl))
  word_length_of-cases bits_9 = inl (refl, λ h. h refl)

  stop_bits_of-cases : (b : StopBits) → Cases (stop_bits_of hal b) (b ≢ half)
  unfolding stop_bits_of
  stop_bits_of-cases half = inl (refl, λ h. h refl)
  stop_bits_of-cases one = inr (λ e. cc, (_, refl))
  stop_bits_of-cases one_and_half = inr (λ e. cc, (_, refl))
  stop_bits_of-cases two = inr (λ e. cc, (_, refl))

  flow_ctrl_of-cases : (f : FlowCtrl) → Cases (flow_ctrl_of hal f) (SupportsFlow f)
  unfolding flow_ctrl_of
  flow_ctrl_of-cases no_flow_ctrl = inr ((λ e. cc, λ e. cc), (_, refl))
  flow_ctrl_of-cases rts_cts = inr ((λ e. cc, λ e. cc), (_, refl))
  flow_ctrl_of-cases dtr_dsr = inl (refl, λ h. h.0 refl)
  flow_ctrl_of-cases rs485 = inl (refl, λ h. h.1 refl)

  config_of-cases :
      (cfg : UartCfg) (c : UartConfig) (hw : Hw) → Cases (config_of hal cfg c hw) (IsSupported c)
  unfolding config_of mathlib.Core.Option.bind
  config_of-cases cfg c hw = elim (parity_of-cases c.parity) [
    | inl p ↦ inl (rw p.0 refl, λ h. p.1 h.parity)
    | inr p ↦ elim (word_length_of-cases c.data_bits) [
      | inl w ↦ inl (rw (p.1.1, w.0) refl, λ h. w.1 h.data_bits)
      | inr w ↦ elim (stop_bits_of-cases c.stop_bits) [
        | inl s ↦ inl (rw (p.1.1, w.1.1, s.0) refl, λ h. s.1 h.stop_bits)
        | inr s ↦ elim (flow_ctrl_of-cases c.flow_ctrl) [
          | inl f ↦ inl (rw (p.1.1, w.1.1, s.1.1, f.0) refl, λ h. f.1 h.flow_ctrl)
          | inr f ↦ inr (
            record { parity = p.0; data_bits = w.0; stop_bits = s.0; flow_ctrl = f.0 },
            (
              record (base_config hal cfg c hw) {
                parity = p.1.0;
                word_length = w.1.0;
                num_of_stop_bits = s.1.0;
                auto_flow_ctrl_en = f.1.0;
              },
              rw (p.1.1, w.1.1, s.1.1, f.1.1) refl,
            ),
          )
        ]
      ]
    ]
  ]

  -- The device after the clock of the unit has been set.
  abbrev pub clocked : Dev Hw → Dev Hw
  clocked d = record d { hw = hal.set_up_clock d.hw }

  start-some :
      (cfg : UartCfg) (k : SdkConfig) (d : Dev Hw)
      → (start hal cfg (some k) d).0
        ≡ ok
            (hal.init k
              (if cfg.loopback_en then hal.enable_loopback d.hw else hal.disable_loopback d.hw)).0
  unfolding start
  start-some cfg k d = refl

  -- A request is refused with `-ENOTSUP`, the clock of the unit being all that has changed, exactly
  -- when it asks for mark or space parity, 9 data bits, half a stop bit, or another flow control
  -- than none and RTS/CTS.
  pub configure_init-IsSupported :
      (cfg : UartCfg) (c : UartConfig) (d : Dev Hw)
      → (configure_init hal cfg c d ≡ (err enotsup, clocked d)) ↔ (¬ IsSupported c)
  unfolding configure_init start
  configure_init-IsSupported cfg c d = elim (config_of-cases cfg c (hal.set_up_clock d.hw)) [
    | inl n ↦ (λ e. n.1, λ h. rw n.0 refl)
    | inr s ↦ (
      λ e. absurd (
          ok-err _ _ (
            sym (start-some cfg _ (clocked d))
            ∙ sym (ap (λ o. (start hal cfg o (clocked d)).0) s.1.1)
            ∙ ap (λ r. r.0) e)),
      λ h. absurd (h s.0),
    )
  ]

  -- The initialisation of a device whose settings are not supported returns 0 all the same: the
  -- library has not initialised the unit, and the interrupt of the device is set up.
  pub init-IsSupported :
      (cfg : UartCfg) (d : Dev Hw)
      → (hal.apply_pinctrl d.hw).0 ≡ none
      → ¬ IsSupported (requested cfg)
      → ((init hal cfg d).0 ≡ success)
        × ((init hal cfg d).1.hw ≡ hal.irq_config (hal.set_up_clock (hal.apply_pinctrl d.hw).1))
  unfolding init after_pins init_unit
  init-IsSupported cfg d e n =
      let s : Dev Hw = record d {
        self_dev = if cfg.async_capable then true else d.self_dev;
        hw = (hal.apply_pinctrl d.hw).1;
        uart_config = requested cfg;
      } in
      let r = (configure_init-IsSupported cfg (requested cfg) s).1 n in
      rw e (refl, ap (λ x. hal.irq_config x.1.hw) r)
