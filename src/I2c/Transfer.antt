-- ===== src/I2c/Transfer.antt =====
-- `hpmicro_i2c_transfer` and `hpmicro_restart_i2c`.
pub mod Absent
use mathlib.Core.Option
use hpm_support.Prelude.{
  ℕ, zero, suc, ◌+◌, ◌%◌, Bool, true, false, not, Option, none, some, List, [], ◌∷◌, ltb, ◌==◌,
  if◌then◌else◌, get_elem?,
}
use hpm_support.Errno.{success, err, einval, enxio}
use hpm_support.I2c.Types.{
  Msg, Status, slave_idle, not_addrhit, slave_begin_write, slave_next_write, addrhit, Transfer,
  Ctrl, address_hit, transaction_complete, fifo_empty, Target, Dev,
}
use hpm_support.I2c.Hal.{Hal, Os}
use hpm_support.I2c.Config.{unlock}

abbrev pub is_not_addrhit : Status → Bool
is_not_addrhit slave_idle = false
is_not_addrhit slave_begin_write = false
is_not_addrhit slave_next_write = false
is_not_addrhit not_addrhit = true
is_not_addrhit addrhit = false

module _ {Hw : Type 0} (hal : Hal Hw) where
  abbrev pub on_hw : (Hw → Hw) → Dev Hw → Dev Hw
  on_hw f d = record d { hw = f d.hw }

  -- The word that the two functions write to `CTRL` for the message `m`
  abbrev pub ctrl_of : Msg → Bool → ℕ → Ctrl
  ctrl_of m starts len = record {
    write = not m.read;
    start = starts;
    addr = starts;
    stop = m.stop;
    phase_data = ltb 0 len;
    datacnt = if ltb 0 len then hal.datacnt_map len else 0;
  }

  -- The writes to the registers from `STATUS` to `CMD`
  unfoldable pub issue : Ctrl → ℕ → Hw → Hw
  issue c addr hw =
      hal.issue_transmission
        (hal.set_ctrl c (hal.set_addr addr (hal.clear_fifo (hal.clear_cmpl hw))))

  -- What `hpmicro_i2c_transfer` stores; the address is cut to 8 bits.
  abbrev pub transfer_of : List Msg → ℕ → ℕ → Msg → Transfer
  transfer_of msgs num_msgs addr m = record {
    msgs = msgs;
    pos = 0;
    curr_buf = m.buf;
    curr_len = m.len;
    curr_index = 0;
    nr_msgs = num_msgs;
    addr = addr % 256;
    status = slave_idle;
  }

  -- The start of a transfer, for a registered target and for a controller
  unfoldable pub start_transfer : Option Target → Msg → Dev Hw → Dev Hw
  unfolding issue
  start_transfer (some t) m d = on_hw (hal.enable_irq (address_hit ∷ transaction_complete ∷ [])) d
  start_transfer none m d =
      on_hw
        (λ hw.
          issue (ctrl_of m true d.transfer.curr_len) d.transfer.addr
            (hal.enable_10bit_address_mode m.ten_bit hw))
        d

  -- `hpmicro_restart_i2c` for the message that `msgs` points to, and whether it returned 0
  unfoldable pub restart_at : Msg → ℕ → Dev Hw → Bool × Dev Hw
  unfolding issue
  restart_at m size d =
      let c = ctrl_of m m.restart d.transfer.curr_len in
      let events =
        if m.restart
        then address_hit ∷ transaction_complete ∷ []
        else fifo_empty ∷ transaction_complete ∷ [] in
      if ltb hal.transfer_count_max size
      then (false, d)
      else (true, on_hw (λ hw. hal.enable_irq events (issue c d.transfer.addr hw)) d)

  module _ (os : Os Hw) where
    -- `hpmicro_i2c_transfer` up to `k_sem_take`
    unfoldable pub begin_transfer : List Msg → ℕ → ℕ → Msg → Dev Hw → Dev Hw
    unfolding start_transfer
    begin_transfer msgs num_msgs addr m d =
        let l = os.lock_mutex d in
        let s : Dev Hw = record l { transfer = transfer_of msgs num_msgs addr m } in
        on_hw (hal.enable_irq (address_hit ∷ transaction_complete ∷ []))
          (start_transfer s.slave m s)

    -- `hpmicro_i2c_transfer` for a first message `m`
    unfoldable pub transfer_first :
        List Msg → ℕ → ℕ → Msg → Dev Hw → hpm_support.Errno.Status × Dev Hw
    unfolding begin_transfer
    transfer_first msgs num_msgs addr m d =
        let w = os.take_completion (begin_transfer msgs num_msgs addr m d) in
        if ltb hal.transfer_count_max m.len
        then (err einval, d)
        else (if is_not_addrhit w.transfer.status then err enxio else success, unlock hal os w)

    -- `hpmicro_i2c_transfer`
    unfoldable pub transfer : List Msg → ℕ → ℕ → Dev Hw → Option (hpm_support.Errno.Status × Dev Hw)
    unfolding transfer_first
    transfer msgs num_msgs addr d =
        if num_msgs == 0
        then some (success, d)
        else Option.map (λ m. transfer_first msgs num_msgs addr m d) (get_elem? msgs 0)
