-- ===== src/Udc/Hal.antt =====
-- What drivers/usb/udc/udc_hpmicro.c calls and does not define: Zephyr's layer of device controllers
-- with its buffers and its heap (`Stack`), and the vendor's library with the registers (`Usb`). What
-- the application does in an event is part of the function that submits the event.
use hpm_support.Prelude.{ℕ, Bool, Option}
use hpm_support.Errno.{Status}
use hpm_support.Udc.Types.{Buf, Caps, EpConfig, Stage, Event, Flags, Setup, Qtd, Dev}

pub record Stack (Core Hw : Type 0) : Type 0 where
  -- the flag and the queue of an endpoint
  pub is_busy : ℕ → Core → Bool
  pub set_busy : ℕ → Bool → Core → Core
  pub buf_peek : ℕ → Core → Option ℕ
  pub buf_get : ℕ → Core → Option ℕ × Core
  pub buf_put : ℕ → ℕ → Core → Core
  pub buf_get_all : ℕ → Core → Option ℕ × Core
  -- `net_buf_tailroom`, `net_buf_tail`, `net_buf_add`, `net_buf_unref`
  pub tailroom : Buf → ℕ
  pub tail : Buf → ℕ
  pub add : ℕ → Buf → Buf
  pub unref : ℕ → Dev Core Hw → Dev Core Hw
  -- `udc_ep_buf_has_zlp`, `udc_ep_buf_clear_zlp`, `udc_ep_buf_set_setup`
  pub has_zlp : Buf → Bool
  pub clear_zlp : Buf → Buf
  pub set_setup : Buf → Buf
  -- the heap of memory that is not cached
  pub heap_alloc : ℕ → Core → ℕ × Core
  pub heap_free : ℕ → Core → Core
  -- the control transfers
  pub ctrl_alloc : ℕ → ℕ → Dev Core Hw → Option ℕ × Dev Core Hw
  pub ctrl_update_stage : ℕ → Dev Core Hw → Dev Core Hw
  pub ctrl_stage_is : Stage → Core → Bool
  pub data_stage_length : ℕ → Dev Core Hw → ℕ
  pub ctrl_submit_s_in_status : Dev Core Hw → Status × Dev Core Hw
  pub ctrl_submit_s_status : Dev Core Hw → Status × Dev Core Hw
  pub ctrl_submit_status : ℕ → Dev Core Hw → Status × Dev Core Hw
  pub ctrl_submit_s_out_status : ℕ → Dev Core Hw → Status × Dev Core Hw
  -- the events
  pub submit_ep_event : ℕ → Status → Dev Core Hw → Status × Dev Core Hw
  pub submit_event : Event → Status → Dev Core Hw → Dev Core Hw
  pub set_suspended : Bool → Core → Core
  -- `udc_ep_disable_internal` and, for a control endpoint with a packet size,
  -- `udc_ep_enable_internal`; both call the driver's own functions for the endpoint
  pub ep_disable_internal : ℕ → Dev Core Hw → Dev Core Hw
  pub ep_enable_internal : ℕ → ℕ → Dev Core Hw → Status × Dev Core Hw
  pub lock_internal : Dev Core Hw → Status × Dev Core Hw
  pub unlock_internal : Dev Core Hw → Status × Dev Core Hw
  pub mutex_init : Core → Core
  pub register_ep : ℕ → Caps → Core → Status × Core
  -- `data->caps` with `rwup`, `mps0` and `hs`
  pub set_caps : Bool → ℕ → Bool → Core → Core

pub record Usb (Hw : Type 0) : Type 0 where
  -- `usb_device_edpt_xfer` with the address of the data and its length
  pub edpt_xfer : ℕ → ℕ → ℕ → Hw → Bool × Hw
  pub edpt_stall : ℕ → Hw → Hw
  pub edpt_clear_stall : ℕ → Hw → Hw
  pub edpt_open : EpConfig → Hw → Hw
  pub edpt_close : ℕ → Hw → Hw
  pub set_address : ℕ → Hw → Hw
  pub status_flags : Hw → Flags
  pub interrupts : Hw → Flags
  pub clear_status_flags : Flags → Hw → Hw
  pub bus_reset : ℕ → Hw → Hw
  pub suspend_status : Hw → Bool
  pub get_address : Hw → ℕ
  pub port_ccs : Hw → Bool
  pub port_speed : Hw → ℕ
  pub edpt_complete_status : Hw → ℕ
  pub clear_edpt_complete_status : ℕ → Hw → Hw
  pub setup_status : Hw → ℕ
  pub clear_setup_status : ℕ → Hw → Hw
  -- the queue heads: the first descriptor and the buffer of an index, and the packet of index 0
  pub attached_qtd : ℕ → Hw → ℕ
  pub attached_buffer : ℕ → Hw → ℕ
  pub setup_request : Hw → Setup
  pub qtd : ℕ → Hw → Qtd
  -- `USB_SOC_DCD_QTD_NEXT_INVALID`, `USB_SOS_DCD_MAX_QHD_COUNT`, `UDC_MPS0_64`
  pub next_invalid : ℕ
  pub max_qhd_count : ℕ
  pub mps0_64 : ℕ
  pub init : Flags → Hw → Hw
  pub deinit : Hw → Hw
  pub irq_enable : Hw → Hw
  pub irq_disable : Hw → Hw
  -- the bit `RS` of `USBCMD`
  pub set_run : Bool → Hw → Hw
  pub clock_add_to_group : Hw → Hw
  pub apply_pinctrl : Hw → Hw
