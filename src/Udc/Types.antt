-- ===== src/Udc/Types.antt =====
-- The data of drivers/usb/udc/udc_hpmicro.c. An endpoint's structure is named by the endpoint's
-- address, and a buffer by a number; a pointer is an address, and NULL is 0.
use hpm_support.Prelude.{ℕ, Bool, List}
use hpm_support.Errno.{Status}

-- `struct net_buf`: the address of its data, and how much of it there is. `room` is what the kernel keeps besides,
-- from which it tells how many bytes still fit; `zlp` and `setup` are the flags of its user data.
pub record Buf : Type 0 where
  pub addr : ℕ
  pub len : ℕ
  pub room : ℕ
  pub zlp : Bool
  pub setup : Bool

-- The capabilities and the fixed part of `struct udc_ep_config`
pub record Caps : Type 0 where
  pub in_ : Bool
  pub out : Bool
  pub control : Bool
  pub bulk : Bool
  pub interrupt : Bool
  pub iso : Bool
  pub mps : ℕ

pub record EpConfig : Type 0 where
  pub addr : ℕ
  pub attributes : ℕ
  pub mps : ℕ

-- The stages of a control transfer that the driver asks for
pub data Stage : Type 0 where
  data_out data_in status_out status_in no_data : Stage

pub data Event : Type 0 where
  reset suspend resume vbus_ready vbus_removed error : Event

-- The five causes that the driver enables, as one word of flags
pub record Flags : Type 0 where
  pub ue : Bool
  pub uee : Bool
  pub sle : Bool
  pub pce : Bool
  pub ure : Bool

-- `struct usb_setup_packet`, decoded, with the address at which it lies
pub record Setup : Type 0 where
  pub at : ℕ
  pub standard : Bool
  pub to_device : Bool
  pub set_address : Bool
  pub value : ℕ
  pub length : ℕ

-- `dcd_qtd_t`, a descriptor of a part of a transfer
pub record Qtd : Type 0 where
  pub halted : Bool
  pub xact_err : Bool
  pub buffer_err : Bool
  pub active : Bool
  pub expected_bytes : ℕ
  pub total_bytes : ℕ
  pub next : ℕ

pub data Speed : Type 0 where
  full_speed high_speed : Speed

-- A buffer with which the driver has called `udc_submit_ep_event`, with what it reports
pub record Given : Type 0 where
  pub buf : ℕ
  pub status : Status

-- The device: what Zephyr's layer keeps (`core`), the controller, the buffers, the memory by its
-- addresses, the flags `stat.halted` and `stat.enabled` of the endpoints, and the buffers given back
-- so far, the oldest first.
pub record Dev (Core Hw : Type 0) : Type 0 where
  pub core : Core
  pub hw : Hw
  pub bufs : ℕ → Buf
  pub mem : ℕ → ℕ
  pub halted : ℕ → Bool
  pub enabled : ℕ → Bool
  pub given : List Given
