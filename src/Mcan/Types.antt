-- ===== src/Mcan/Types.antt =====
-- The data of drivers/can/mcan_hpmicro.c. Frames, filters, modes, states and timings are the types
-- of Zephyr that drivers/can/can_hpmicro.c uses too.
use hpm_support.Prelude.{ℕ, Bool, List}
use hpm_support.Zephyr.{Sem, Mutex}
use hpm_support.Can.Types.{NodeMode, Mode, Pointer, Call}

-- `MCAN_CAN_ID_TYPE_*`; the driver keeps a table of filters for each.
pub data IdType : Type 0 where
  extended standard : IdType

-- `mcan_filter_elem_t`. Its `filter_type` and `filter_config` are the same in every element.
pub record FilterElem : Type 0 where
  pub can_id_type : IdType
  pub filter_id : ℕ
  pub filter_mask : ℕ

-- `mcan_rx_message_t`
pub record RxMessage : Type 0 where
  pub std_id : ℕ
  pub ext_id : ℕ
  pub use_ext_id : Bool
  pub canfd_frame : Bool
  pub rtr : Bool
  pub bitrate_switch : Bool
  pub dlc : ℕ
  pub payload : List ℕ

-- `mcan_tx_frame_t`
pub record TxFrame : Type 0 where
  pub std_id : ℕ
  pub ext_id : ℕ
  pub use_ext_id : Bool
  pub canfd_frame : Bool
  pub rtr : Bool
  pub bitrate_switch : Bool
  pub dlc : ℕ
  pub payload : List ℕ

-- `mcan_config_t`, the fields that the driver sets to other than a constant. The two lists of
-- filters are left out: they are the driver's tables, which `Hal.init` is given.
pub record Config : Type 0 where
  pub mode : NodeMode
  pub enable_canfd : Bool
  pub baudrate : ℕ
  pub baudrate_fd : ℕ
  pub ext_elem_count : ℕ
  pub std_elem_count : ℕ

-- The filters of one identifier type in `struct hpm_mcan_data`, with their callbacks.
pub record Table : Type 0 where
  pub filter_count : ℕ
  pub filters_index : List ℕ
  pub filters : List FilterElem
  pub rx_cb : List Pointer
  pub rx_cb_arg : List Pointer

-- `struct hpm_mcan_data`. Of the arrays for the 32 transmit buffers the driver uses element 0.
pub record McanData : Type 0 where
  pub mode : Mode
  pub config : Config
  pub ext : Table
  pub std : Table
  pub filter_rtr : ℕ
  pub filter_rtr_mask : ℕ
  pub inst_mutex : Mutex
  pub tx_mutex : Mutex
  pub tx_sem : Sem
  pub tx_fin_sem : Sem
  pub tx_fin_cb : Pointer
  pub tx_fin_cb_arg : Pointer
  pub state_change_cb : Pointer
  pub state_change_cb_data : Pointer
  pub started : Bool

-- The device, with the driver's global flag, and the calls of user functions, the latest first.
pub record Dev (Hw : Type 0) : Type 0 where
  pub drv : McanData
  pub has_sent_out : Bool
  pub hw : Hw
  pub calls : List Call
