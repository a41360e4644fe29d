-- ===== src/Mcan/Rx/Remote.antt =====
-- Remote frames in drivers/can/mcan_hpmicro.c.
use hpm_support.Prelude.{
  ℕ, ◌≡◌, ◌∙◌, refl, true, false, Option, none, some, List, [], ◌∷◌, arith, Bool-cases, inl, inr,
  word_and, word_and-lt, test_bit-word_and, test_bit-zero, eq_of_test_bit,
}
use hpm_support.Zephyr.{forever}
use hpm_support.Can.Types.{CanFilter, Pointer}
use hpm_support.Mcan.Types.{IdType, extended, standard, RxMessage, Table, McanData, Dev}
use hpm_support.Mcan.Hal.{Hal, Os}
use hpm_support.Mcan.Filter.{
  put_table, add_at, add_rx_filter, add_rx_filter_ext, add_rx_filter_std, drop_found, remove_entry,
  remove_rx_filter, get_first_filter_index, lock_inst, ext_filter_num_max, std_filter_num_max,
}
use mathlib.Core.Bool.{xor}
use hpm_support.Prelude.{ltb}
use hpm_support.Mcan.Rx.{dispatch}

-- Both RTR words are 0, as `hpm_mcan_init` leaves them.
pub record HasNoRtr (s : McanData) : Type 0 where
  pub rtr : s.filter_rtr ≡ 0
  pub rtr_mask : s.filter_rtr_mask ≡ 0

zero_and : (w : ℕ) → word_and 32 0 w ≡ 0
zero_and w =
    eq_of_test_bit 32 (word_and 32 0 w) 0 (word_and-lt 32 0 w) (omega arith)
      (λ i l. test_bit-word_and 32 0 w i l ∙ rw (test_bit-zero i))

put_table-HasNoRtr :
    (k : IdType) (t : Table) (s : McanData) → HasNoRtr s → HasNoRtr (put_table k t s)
put_table-HasNoRtr extended t s h = record { rtr = h.rtr; rtr_mask = h.rtr_mask }
put_table-HasNoRtr standard t s h = record { rtr = h.rtr; rtr_mask = h.rtr_mask }

-- The calls that change the filters, each with its arguments.
pub data Op : Type 0 where
  add : Pointer → Pointer → CanFilter → Op
  remove : ℕ → Op

module _ {Hw : Type 0} (hal : Hal Hw) (os : Os Hw) where
  abbrev pub call : Op → Dev Hw → Dev Hw
  call (add cb arg f) d = (add_rx_filter hal os cb arg f d).1
  call (remove id) d = remove_rx_filter hal os id d

  -- The calls in order.
  abbrev pub run : List Op → Dev Hw → Dev Hw
  run [] d = d
  run (o ∷ os') d = run os' (call o d)

  -- What other threads do while a call waits for the mutex leaves the RTR words.
  abbrev pub LockKeepsRtr : Type 0
  LockKeepsRtr = (d : Dev Hw) → HasNoRtr d.drv → HasNoRtr (os.lock_inst_mutex forever d).1.drv

  add_at-HasNoRtr :
      (k : IdType) (i cb : ℕ) (arg : Pointer) (f : CanFilter) (d : Dev Hw)
      → f.rtr ≡ false
      → HasNoRtr d.drv
      → HasNoRtr (add_at hal os k i cb arg f d).drv
  unfolding add_at
  add_at-HasNoRtr extended i cb arg f d e h =
      rw (e, h.rtr, h.rtr_mask) (record { rtr = zero_and _; rtr_mask = zero_and _ })
  add_at-HasNoRtr standard i cb arg f d e h =
      rw (e, h.rtr, h.rtr_mask) (record { rtr = zero_and _; rtr_mask = zero_and _ })

  add_rx_filter_ext-HasNoRtr :
      (keeps : LockKeepsRtr) (cb arg : Pointer) (f : CanFilter) (d : Dev Hw)
      → f.rtr ≡ false
      → HasNoRtr d.drv
      → HasNoRtr (add_rx_filter_ext hal os cb arg f d).1.drv
  unfolding add_rx_filter_ext
  add_rx_filter_ext-HasNoRtr keeps none arg f d e h = h
  add_rx_filter_ext-HasNoRtr keeps (some cb) arg f d e h =
      let l = lock_inst hal os d in
      elim (Bool-cases (ltb l.drv.ext.filter_count ext_filter_num_max)) [
        | inl t ↦ rw t (add_at-HasNoRtr extended l.drv.ext.filter_count cb arg f l e (keeps d h))
        | inr t ↦ rw t (keeps d h)
      ]

  add_rx_filter_std-HasNoRtr :
      (keeps : LockKeepsRtr) (cb arg : Pointer) (f : CanFilter) (d : Dev Hw)
      → f.rtr ≡ false
      → HasNoRtr d.drv
      → HasNoRtr (add_rx_filter_std hal os cb arg f d).1.drv
  unfolding add_rx_filter_std
  add_rx_filter_std-HasNoRtr keeps none arg f d e h = h
  add_rx_filter_std-HasNoRtr keeps (some cb) arg f d e h =
      let l = lock_inst hal os d in
      elim (Bool-cases (ltb l.drv.std.filter_count std_filter_num_max)) [
        | inl t ↦ rw t (add_at-HasNoRtr standard l.drv.std.filter_count cb arg f l e (keeps d h))
        | inr t ↦ rw t (keeps d h)
      ]

  drop_found-HasNoRtr :
      (k : IdType) (o : Option ℕ) (d : Dev Hw)
      → HasNoRtr d.drv
      → HasNoRtr (drop_found hal os k o d).drv
  drop_found-HasNoRtr k none d h = h
  drop_found-HasNoRtr extended (some i) d h = record { rtr = h.rtr; rtr_mask = h.rtr_mask }
  drop_found-HasNoRtr standard (some i) d h = record { rtr = h.rtr; rtr_mask = h.rtr_mask }

  remove_entry-HasNoRtr :
      (k : IdType) (id : ℕ) (d : Dev Hw)
      → HasNoRtr d.drv
      → HasNoRtr (remove_entry hal os k id d).drv
  unfolding remove_entry
  remove_entry-HasNoRtr k id d = drop_found-HasNoRtr k _ d

  add_rx_filter-HasNoRtr :
      (keeps : LockKeepsRtr) (cb arg : Pointer) (f : CanFilter) (d : Dev Hw)
      → HasNoRtr d.drv
      → HasNoRtr (add_rx_filter hal os cb arg f d).1.drv
  unfolding add_rx_filter
  add_rx_filter-HasNoRtr keeps cb arg f d h = elim (Bool-cases f.rtr) [
    | inl e ↦ rw e h
    | inr e ↦ elim (Bool-cases f.others) [
      | inl o ↦ simp (e, o) h
      | inr o ↦ elim (Bool-cases f.ide) [
        | inl i ↦ simp (e, o, i) (add_rx_filter_ext-HasNoRtr keeps cb arg f d e h)
        | inr i ↦ simp (e, o, i) (add_rx_filter_std-HasNoRtr keeps cb arg f d e h)
      ]
    ]
  ]

  call-HasNoRtr :
      (keeps : LockKeepsRtr) (o : Op) (d : Dev Hw) → HasNoRtr d.drv → HasNoRtr (call o d).drv
  unfolding remove_rx_filter
  call-HasNoRtr keeps (add cb arg f) d h = add_rx_filter-HasNoRtr keeps cb arg f d h
  call-HasNoRtr keeps (remove id) d h =
      let l = lock_inst hal os d in
      let r =
        remove_entry-HasNoRtr standard id (remove_entry hal os extended id l)
          (remove_entry-HasNoRtr extended id l (keeps d h)) in
      record { rtr = r.rtr; rtr_mask = r.rtr_mask }

  run-HasNoRtr :
      (keeps : LockKeepsRtr) (ops : List Op) (d : Dev Hw)
      → HasNoRtr d.drv
      → HasNoRtr (run ops d).drv
  run-HasNoRtr keeps [] d h = h
  run-HasNoRtr keeps (o ∷ os') d h = run-HasNoRtr keeps os' (call o d) (call-HasNoRtr keeps o d h)

  dispatch-remote :
      (o : Option ℕ) (m : RxMessage) (d : Dev Hw)
      → m.rtr ≡ true
      → HasNoRtr d.drv
      → dispatch hal o m d ≡ d
  unfolding dispatch xor
  dispatch-remote none m d e h = refl
  dispatch-remote (some i) m d e h = simp (e, h.rtr, h.rtr_mask, zero_and (hal.shift_one i))

  -- From the RTR words that the initialisation leaves, no sequence of calls that add and remove
  -- filters makes the driver deliver a remote frame: a message with the RTR bit calls no function
  -- and changes nothing, whichever filter it passes.
  pub run-remote :
      (ops : List Op) (d : Dev Hw) (m : RxMessage)
      → LockKeepsRtr
      → HasNoRtr d.drv
      → m.rtr ≡ true
      → dispatch hal (get_first_filter_index m (run ops d).drv) m (run ops d) ≡ run ops d
  run-remote ops d m keeps h e = dispatch-remote _ m (run ops d) e (run-HasNoRtr keeps ops d h)
