-- ===== src/I2c/Types.antt =====
-- The data of drivers/i2c/i2c_hpmicro.c. A pointer into the array of messages is the array and an
-- index; an access outside the array ends the run.
use hpm_support.Prelude.{ℕ, Bool, Option, List}
use hpm_support.Zephyr.{Sem, Mutex}

-- `struct i2c_msg` with its flags; `read` is false for `I2C_MSG_WRITE`.
pub record Msg : Type 0 where
  pub buf : ℕ
  pub len : ℕ
  pub read : Bool
  pub stop : Bool
  pub restart : Bool
  pub ten_bit : Bool

-- `HPM_I2C_STATUS_*`
pub data Status : Type 0 where
  slave_idle slave_begin_write slave_next_write not_addrhit addrhit : Status

-- `struct hpmicro_i2c_current_transfer`; `msgs` points to the message `pos` of the array.
pub record Transfer : Type 0 where
  pub msgs : List Msg
  pub pos : ℕ
  pub curr_buf : ℕ
  pub curr_len : ℕ
  pub curr_index : ℕ
  pub nr_msgs : ℕ
  pub addr : ℕ
  pub status : Status

-- `struct i2c_target_config`; `id` tells one structure from another.
pub record Target : Type 0 where
  pub id : ℕ
  pub address : ℕ
  pub ten_bit : Bool

-- The calls of a target's callbacks
pub data Call : Type 0 where
  write_requested read_requested read_processed stop : Call
  write_received : ℕ → Call

-- The device: `struct hpmicro_i2c_data`, the unit, the memory by its addresses, and the calls of the
-- target's callbacks, the latest first.
pub record Dev (Hw : Type 0) : Type 0 where
  pub transfer : Transfer
  pub slave : Option Target
  pub completion : Sem
  pub mutex : Mutex
  pub hw : Hw
  pub mem : ℕ → ℕ
  pub calls : List Call

-- The events by which interrupts are enabled, and a word of them
pub data Event : Type 0 where
  address_hit transaction_complete fifo_full fifo_empty : Event

pub record Events : Type 0 where
  pub address_hit : Bool
  pub transaction_complete : Bool
  pub fifo_full : Bool
  pub fifo_empty : Bool

-- The fields of `CTRL` that the driver sets.
pub record Ctrl : Type 0 where
  pub write : Bool
  pub start : Bool
  pub addr : Bool
  pub stop : Bool
  pub phase_data : Bool
  pub datacnt : ℕ

-- The speeds of Zephyr, and the configuration word
pub data Speed : Type 0 where
  standard fast fast_plus high ultra other : Speed

pub record DevConfig : Type 0 where
  pub speed : Speed
  pub ten_bit : Bool

-- `i2c_mode_*` of the library
pub data Mode : Type 0 where
  normal_mode fast_mode fast_plus_mode : Mode
