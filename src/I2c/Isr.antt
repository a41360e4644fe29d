-- ===== src/I2c/Isr.antt =====
-- `hpmicro_i2c_isr`. Its loops run while the FIFO has room or bytes; they are recursion on fuel, and
-- `none` says that a loop has not ended, or that a pointer left the array of messages.
pub mod Written
pub mod Received
use mathlib.Core.Option
use hpm_support.Prelude.{
  ℕ, zero, suc, ◌+◌, ◌%◌, Bool, true, false, not, ◌&&◌, ◌||◌, Option, none, some, List, [], ◌∷◌,
  ltb, ◌==◌, if◌then◌else◌, get_elem?,
}
use hpm_support.I2c.Types.{
  Msg, Status, slave_idle, slave_begin_write, slave_next_write, not_addrhit, addrhit, Transfer,
  Event, Events, address_hit, transaction_complete, fifo_full, fifo_empty, Call, write_requested,
  read_requested, read_processed, write_received, stop, Target, Dev,
}
use hpm_support.I2c.Hal.{Hal, App, Os}
use hpm_support.I2c.Transfer.{on_hw, restart_at, is_not_addrhit}

-- `x + 1` and `x - 1` on `uint32_t`
abbrev pub next : ℕ → ℕ
next x = (x + 1) % 4294967296

abbrev pub previous : ℕ → ℕ
previous x = (x + 4294967295) % 4294967296

abbrev pub is_addrhit : Status → Bool
is_addrhit slave_idle = false
is_addrhit slave_begin_write = false
is_addrhit slave_next_write = false
is_addrhit not_addrhit = false
is_addrhit addrhit = true

abbrev pub is_begin_write : Status → Bool
is_begin_write slave_idle = false
is_begin_write slave_begin_write = true
is_begin_write slave_next_write = false
is_begin_write not_addrhit = false
is_begin_write addrhit = false

abbrev pub store : ℕ → ℕ → (ℕ → ℕ) → ℕ → ℕ
store a v mem x = if x == a then v else mem x

module _ {Hw : Type 0} where
  abbrev pub put_status : Status → Dev Hw → Dev Hw
  put_status s d = record d { transfer = record (d.transfer) { status = s } }

  abbrev pub put_index : ℕ → Dev Hw → Dev Hw
  put_index i d = record d { transfer = record (d.transfer) { curr_index = i } }

  abbrev pub call : Call → Dev Hw → Dev Hw
  call c d = record d { calls = c ∷ d.calls }

  -- `transfer->msgs++` and the load of the message that it points to then
  abbrev pub load_next : Dev Hw → Option (Dev Hw)
  load_next d =
      Option.map
        (λ m. record d {
          transfer = record (d.transfer) {
            pos = d.transfer.pos + 1;
            curr_buf = Msg.buf m;
            curr_len = Msg.len m;
            curr_index = 0;
          };
        })
        (get_elem? d.transfer.msgs (d.transfer.pos + 1))

  -- Whether the message that `msgs` points to is a read
  abbrev pub reads : Dev Hw → Option Bool
  reads d = Option.map (λ m. Msg.read m) (get_elem? d.transfer.msgs d.transfer.pos)

module _ {Hw : Type 0} (hal : Hal Hw) (app : App) (os : Os Hw) where
  abbrev pub give : Dev Hw → Dev Hw
  give d = record d { completion = os.sem_give d.completion }

  -- The branch for a hit of the address, by the registered target
  abbrev pub hit_target : Dev Hw → Dev Hw
  hit_target d =
      let r =
        if hal.dir_slave_read == hal.get_direction d.hw
        then call write_requested (on_hw hal (hal.enable_irq (fifo_full ∷ [])) d)
        else on_hw hal (hal.enable_irq (fifo_empty ∷ [])) (put_status slave_begin_write d) in
      on_hw hal (λ hw. hal.clear_status address_hit (hal.disable_irq (address_hit ∷ []) hw)) r

  unfoldable pub address_is_hit : Option Target → Dev Hw → Option (Dev Hw)
  address_is_hit (some t) d = some (hit_target d)
  address_is_hit none d =
      Option.map
        (λ read. on_hw hal (hal.enable_irq (if read then fifo_full ∷ [] else fifo_empty ∷ [])) d)
        (reads d)

  -- The branch for an address that has not been hit
  unfoldable pub address_is_missed : Dev Hw → Dev Hw
  address_is_missed d =
      let m = put_status not_addrhit d in
      if is_addrhit d.transfer.status
      then d
      else give (
          on_hw hal
            (λ hw.
              hal.issue_transmission
                (hal.set_ctrl_stop_only (hal.disable_irq (fifo_full ∷ fifo_empty ∷ []) hw)))
            m)

  -- The first part of `hpmicro_i2c_isr`
  unfoldable pub address_phase : Events → Events → Dev Hw → Option (Dev Hw)
  address_phase status irq d =
      if status.address_hit && irq.address_hit
      then address_is_hit d.slave (on_hw hal (hal.clear_status address_hit) (put_status addrhit d))
      else some (address_is_missed d)

  -- The loop that writes the message to the FIFO: at most `n` rounds are left.
  unfoldable pub fill_fifo : ℕ → Dev Hw → Option (Dev Hw)
  fill_fifo zero d = none
  fill_fifo (suc n) d =
      let t = d.transfer in
      let w =
        on_hw hal (hal.write_byte (d.mem (t.curr_buf + t.curr_index)))
          (put_index (next t.curr_index) d) in
      let rest = fill_fifo n w in
      if hal.fifo_is_full d.hw
      then some d
      else if next t.curr_index == t.curr_len
      then some (on_hw hal (hal.disable_irq (fifo_empty ∷ [])) w)
      else rest

  -- The byte that a target sends
  abbrev pub target_byte : Dev Hw → Dev Hw
  target_byte d =
      if is_begin_write d.transfer.status
      then put_status slave_next_write
          (call read_processed (on_hw hal (hal.write_byte (app.processed_byte d.calls)) d))
      else call read_requested (on_hw hal (hal.write_byte (app.requested_byte d.calls)) d)

  unfoldable pub transmit_by : Option Target → ℕ → Dev Hw → Option (Dev Hw)
  transmit_by (some t) fuel d = some (target_byte d)
  transmit_by none fuel d =
      if ltb 0 d.transfer.curr_len && not (is_not_addrhit d.transfer.status)
      then fill_fifo fuel d
      else some d

  -- The part `transmit` of `hpmicro_i2c_isr`
  unfoldable pub transmit_phase : ℕ → Events → Events → Dev Hw → Option (Dev Hw)
  transmit_phase fuel status irq d =
      if status.fifo_empty && irq.fifo_empty then transmit_by d.slave fuel d else some d

  -- The loop that hands the bytes of the FIFO to the target
  unfoldable pub drain_target : ℕ → Dev Hw → Option (Dev Hw)
  drain_target zero d = none
  drain_target (suc n) d =
      let (v, hw) = hal.read_byte d.hw in
      let rest = drain_target n (call (write_received v) (record d { hw = hw })) in
      if hal.fifo_is_empty d.hw then some d else rest

  abbrev pub store_byte : Dev Hw → Dev Hw
  store_byte d =
      let (v, hw) = hal.read_byte d.hw in
      let t = d.transfer in
      put_index (next t.curr_index)
        (record d { mem = store (t.curr_buf + t.curr_index) v d.mem; hw = hw })

  -- The loop that stores the bytes of the FIFO in the message
  unfoldable pub drain_all : ℕ → Dev Hw → Option (Dev Hw)
  drain_all zero d = none
  drain_all (suc n) d =
      let rest = drain_all n (store_byte d) in if hal.fifo_is_empty d.hw then some d else rest

  abbrev pub restart : Dev Hw → Option (Bool × Dev Hw)
  restart d =
      Option.map (λ m. restart_at hal m d.transfer.curr_len d)
        (get_elem? d.transfer.msgs d.transfer.pos)

  abbrev pub stop_unless : Bool × Dev Hw → Dev Hw
  stop_unless (done, d) = if done then d else on_hw hal hal.add_ctrl_stop d

  -- The end of a message whose last byte was in a full FIFO
  unfoldable pub message_received : Dev Hw → Option (Dev Hw)
  message_received d =
      let off = on_hw hal (hal.disable_irq (fifo_full ∷ [])) d in
      let less : Dev Hw = record off {
        transfer = record (off.transfer) { nr_msgs = previous off.transfer.nr_msgs };
      } in
      Option.bind (load_next less)
        (λ l. if l.transfer.nr_msgs == 0 then some l else Option.map stop_unless (restart l))

  unfoldable pub receive_by : Option Target → ℕ → Dev Hw → Option (Dev Hw)
  receive_by (some t) fuel d = drain_target fuel d
  receive_by none fuel d = Option.bind (drain_all fuel d) (λ r.
      if (r.transfer.curr_index == r.transfer.curr_len) && ltb 0 r.transfer.curr_len
      then message_received r
      else some r)

  -- The part `receive` of `hpmicro_i2c_isr`
  unfoldable pub receive_phase : ℕ → Events → Dev Hw → Option (Dev Hw)
  receive_phase fuel status d = if status.fifo_full then receive_by d.slave fuel d else some d

  -- The loop that stores what is left of a message in the FIFO
  unfoldable pub drain_rest : ℕ → Dev Hw → Option (Dev Hw)
  drain_rest zero d = none
  drain_rest (suc n) d =
      let s = store_byte d in
      let rest = drain_rest n s in
      if not (hal.fifo_is_empty d.hw) && ltb d.transfer.curr_index d.transfer.curr_len
      then if s.transfer.curr_index == s.transfer.curr_len then some s else rest
      else some d

  -- The end of a transaction: the next message or the end of the transfer
  unfoldable pub next_message : Dev Hw → Option (Dev Hw)
  next_message d =
      let less : Dev Hw = record d {
        transfer = record (d.transfer) { nr_msgs = previous d.transfer.nr_msgs };
      } in
      if d.transfer.nr_msgs == 0
      then some (give d)
      else if ltb 0 less.transfer.nr_msgs && is_addrhit d.transfer.status
      then Option.bind (load_next less) (λ l. Option.map (λ r. r.1) (restart l))
      else some (give less)

  unfoldable pub complete_by : Option Target → ℕ → Dev Hw → Option (Dev Hw)
  complete_by (some t) fuel d =
      Option.map (λ r. give (call stop r))
        (if hal.dir_master_read == hal.get_direction d.hw then drain_target fuel d else some d)
  complete_by none fuel d =
      Option.bind
        (if hal.dir_master_read == hal.get_direction d.hw then drain_rest fuel d else some d)
        next_message

  -- The part `complete` of `hpmicro_i2c_isr`
  unfoldable pub complete_phase : ℕ → Events → Dev Hw → Option (Dev Hw)
  complete_phase fuel status d =
      let c =
        on_hw hal
          (λ hw.
            hal.clear_status transaction_complete
              (hal.disable_irq (transaction_complete ∷ fifo_full ∷ fifo_empty ∷ []) hw))
          d in
      if status.transaction_complete then complete_by c.slave fuel c else some d

  -- `hpmicro_i2c_isr`
  unfoldable pub isr : ℕ → Dev Hw → Option (Dev Hw)
  isr fuel d =
      let status = hal.get_status d.hw in
      let irq = hal.get_irq_setting d.hw in
      Option.bind (address_phase status irq d) (λ a.
        Option.bind (transmit_phase fuel status irq a)
          (λ t. Option.bind (receive_phase fuel status t) (complete_phase fuel status)))
