-- ===== src/Udc/Device.antt =====
-- The functions of `udc_hpm_api` for the device, and udc_hpm_driver_preinit.
use hpm_support.Prelude.{ℕ, zero, suc, ◌+◌, ◌==◌, Bool, true, false, if◌then◌else◌, not}
use hpm_support.Errno.{Status, success, ok, err, enotsup}
use hpm_support.Udc.Types.{Caps, Flags, Speed, full_speed, high_speed, Dev}
use hpm_support.Udc.Hal.{Stack, Usb}
use hpm_support.Udc.Feed.{on_hw}

-- The causes that `udc_hpm_init` enables
abbrev pub int_mask : Flags
int_mask = record { ue = true; uee = true; sle = true; pce = true; ure = true }

-- The capabilities of the endpoint `i` of a direction
abbrev pub caps_of : Bool → ℕ → Caps
caps_of in_dir i = record {
  in_ = in_dir;
  out = not in_dir;
  control = i == 0;
  bulk = not (i == 0);
  interrupt = not (i == 0);
  iso = not (i == 0);
  mps = if i == 0 then 64 else 1024;
}

module _ {Core Hw : Type 0} (stack : Stack Core Hw) (usb : Usb Hw) where
  -- `udc_hpm_device_speed`; its assertion on low speed is compiled out.
  unfoldable pub device_speed : Dev Core Hw → Speed
  device_speed d = if usb.port_speed d.hw == 2 then high_speed else full_speed

  -- `udc_hpm_host_wakeup`
  unfoldable pub host_wakeup : Dev Core Hw → Status × Dev Core Hw
  host_wakeup d = (err enotsup, d)

  -- `udc_hpm_set_address`
  unfoldable pub set_address : ℕ → Dev Core Hw → Status × Dev Core Hw
  set_address addr d = (success, on_hw (usb.set_address addr) d)

  -- `udc_hpm_enable`, `udc_hpm_disable`
  unfoldable pub enable : Dev Core Hw → Status × Dev Core Hw
  enable d = (success, on_hw (usb.set_run true) d)

  unfoldable pub disable : Dev Core Hw → Status × Dev Core Hw
  disable d = (success, on_hw (usb.set_run false) d)

  -- `udc_hpm_init`, `udc_hpm_shutdown`
  unfoldable pub init : Dev Core Hw → Status × Dev Core Hw
  init d = (success, on_hw (λ hw. usb.irq_enable (usb.init int_mask hw)) d)

  unfoldable pub shutdown : Dev Core Hw → Status × Dev Core Hw
  shutdown d = (success, on_hw (λ hw. usb.deinit (usb.irq_disable hw)) d)

  -- `udc_hpm_lock`, `udc_hpm_unlock`
  unfoldable pub lock : Dev Core Hw → Status × Dev Core Hw
  lock d = stack.lock_internal d

  unfoldable pub unlock : Dev Core Hw → Status × Dev Core Hw
  unlock d = stack.unlock_internal d

  -- The endpoints of one direction from the number `i` on, of which `n` are left
  unfoldable pub register_eps : Bool → ℕ → ℕ → Core → Status × Core
  register_eps in_dir zero i c = (success, c)
  register_eps in_dir (suc n) i c =
      let ep = if in_dir then 128 + i else i in
      let (st, r) = stack.register_ep ep (caps_of in_dir i) c in
      let rest = register_eps in_dir n (suc i) r in elim st [ ok _ ↦ rest | err e ↦ (err e, r) ]

  abbrev pub registered : Status × Core → Dev Core Hw → Status × Dev Core Hw
  registered (ok u, c) d = (
    success,
    record d {
      core = stack.set_caps false usb.mps0_64 true c;
      hw = usb.apply_pinctrl (usb.clock_add_to_group d.hw);
    },
  )
  registered (err e, c) d = (err e, record d { core = c })

  abbrev pub then_in : ℕ → Status × Core → Status × Core
  then_in n (ok u, c) = register_eps true n 0 c
  then_in n (err e, c) = (err e, c)

  -- `udc_hpm_driver_preinit` for `num_of_eps`
  unfoldable pub driver_preinit : ℕ → Dev Core Hw → Status × Dev Core Hw
  driver_preinit num_of_eps d =
      registered (then_in num_of_eps (register_eps false num_of_eps 0 (stack.mutex_init d.core))) d
