-- ===== src/Can/Filter/Table.antt =====
-- The filter table under `hpm_can_add_rx_filter`: its invariant, what an accepted filter leaves
-- behind, the full table, and the delivery of a frame to the filter's callback.
use hpm_support.Prelude.{
  ℕ, ◌+◌, ◌≤◌, ◌<◌, ◌≡◌, ◌≢◌, ◌∙◌, refl, ap, Bool, true, false, none, some, arith, lt→ltb, get_or,
  length, length-set, test_bit, get_or-set_self, get_or-set_ne, test_bit-set_bit_self,
  test_bit-clear_bit_self, test_bit-set_bit_ne, test_bit-clear_bit_ne,
}
use hpm_support.Errno.{ok, err, enospc}
use hpm_support.Zephyr.{forever}
use hpm_support.Can.Types.{CanFilter, Pointer, CanData, Dev}
use hpm_support.Can.Hal.{Hal, Os, OsLaws, locked, put_inst_mutex}
use hpm_support.Can.Filter.{
  filter_num_max, no_filter, entry, put_bit, install, add_at, add_rx_filter,
}

-- The table's invariant: at most 16 filters, in arrays of 16, and the controller's configuration
-- counts the same number.
pub record IsTable (s : CanData) : Type 0 where
  pub count_le : s.can_filter_count ≤ filter_num_max
  pub filters : length s.filter_list ≡ filter_num_max
  pub callbacks : length s.rx_cb ≡ filter_num_max
  pub arguments : length s.rx_cb_arg ≡ filter_num_max
  pub counted : s.config.filter_list_num ≡ s.can_filter_count

test_bit-put_bit_self : (b : Bool) (w i : ℕ) → test_bit (put_bit b w i) i ≡ b
test_bit-put_bit_self true w i = test_bit-set_bit_self w i
test_bit-put_bit_self false w i = test_bit-clear_bit_self w i

test_bit-put_bit_ne : (b : Bool) (w i j : ℕ) → i ≢ j → test_bit (put_bit b w i) j ≡ test_bit w j
test_bit-put_bit_ne true w i j h = test_bit-set_bit_ne w i j h
test_bit-put_bit_ne false w i j h = test_bit-clear_bit_ne w i j h

-- What a filter that was accepted at slot `i` leaves behind in the driver's data.
pub record Added (i cb : ℕ) (arg : Pointer) (f : CanFilter) (s t : CanData) : Type 0 where
  pub table : IsTable t
  pub count : t.can_filter_count ≡ i + 1
  pub filter : get_or t.filter_list i no_filter ≡ entry i f
  pub callback : get_or t.rx_cb i none ≡ some cb
  pub argument : get_or t.rx_cb_arg i none ≡ arg
  pub rtr : test_bit t.filter_rtr i ≡ f.rtr
  pub rtr_mask : test_bit t.filter_rtr_mask i ≡ f.rtr
  pub other_filter :
      (k : ℕ) → i ≢ k → get_or t.filter_list k no_filter ≡ get_or s.filter_list k no_filter
  pub other_callback : (k : ℕ) → i ≢ k → get_or t.rx_cb k none ≡ get_or s.rx_cb k none
  pub other_argument : (k : ℕ) → i ≢ k → get_or t.rx_cb_arg k none ≡ get_or s.rx_cb_arg k none
  pub other_rtr : (k : ℕ) → i ≢ k → test_bit t.filter_rtr k ≡ test_bit s.filter_rtr k
  pub other_rtr_mask : (k : ℕ) → i ≢ k → test_bit t.filter_rtr_mask k ≡ test_bit s.filter_rtr_mask k
  pub unlocked : t.inst_mutex.lock_count ≡ 0

-- Slot `i` of a table holds the filter `f` with its callback and argument.
pub record Holds (i cb : ℕ) (arg : Pointer) (f : CanFilter) (t : CanData) : Type 0 where
  pub below : i < t.can_filter_count
  pub filter : get_or t.filter_list i no_filter ≡ entry i f
  pub callback : get_or t.rx_cb i none ≡ some cb
  pub argument : get_or t.rx_cb_arg i none ≡ arg
  pub rtr : test_bit t.filter_rtr i ≡ f.rtr
  pub rtr_mask : test_bit t.filter_rtr_mask i ≡ f.rtr

-- The slot of the filter that was added holds it.
pub Added-Holds :
    (i cb : ℕ) (arg : Pointer) (f : CanFilter) (s t : CanData)
    → Added i cb arg f s t
    → Holds i cb arg f t
Added-Holds i cb arg f s t a = record {
  below = omega (arith, a.count);
  filter = a.filter;
  callback = a.callback;
  argument = a.argument;
  rtr = a.rtr;
  rtr_mask = a.rtr_mask;
}

-- A filter that is added later leaves the filters of the slots before as they are.
pub Added-keeps-Holds :
    (i cb j cb' : ℕ) (arg arg' : Pointer) (f f' : CanFilter) (s t : CanData)
    → s.can_filter_count ≡ j
    → Holds i cb arg f s
    → Added j cb' arg' f' s t
    → Holds i cb arg f t
Added-keeps-Holds i cb j cb' arg arg' f f' s t e h a =
    let n : j ≢ i = λ q. absurd (omega (arith, h.below, e, q)) in
    record {
      below = omega (arith, h.below, e, a.count);
      filter = a.other_filter i n ∙ h.filter;
      callback = a.other_callback i n ∙ h.callback;
      argument = a.other_argument i n ∙ h.argument;
      rtr = a.other_rtr i n ∙ h.rtr;
      rtr_mask = a.other_rtr_mask i n ∙ h.rtr_mask;
    }

module _ {Hw : Type 0} (hal : Hal Hw) (os : Os Hw) (laws : OsLaws os) (d : Dev Hw) where
  add_at-Added :
      (cb : ℕ) (arg : Pointer) (f : CanFilter)
      → IsTable d.drv
      → d.drv.can_filter_count < filter_num_max
      → d.drv.inst_mutex.lock_count ≡ 0
      → Added d.drv.can_filter_count cb arg f d.drv
          (add_at hal os d.drv.can_filter_count cb arg f
            (put_inst_mutex (locked d.drv.inst_mutex) d)).drv
  unfolding add_at install
  add_at-Added cb arg f v h u =
      let i = d.drv.can_filter_count in
      let s = d.drv in
      record {
        table = record {
          count_le = omega arith;
          filters = length-set s.filter_list i (entry i f) ∙ v.filters;
          callbacks = length-set s.rx_cb i (some cb) ∙ v.callbacks;
          arguments = length-set s.rx_cb_arg i arg ∙ v.arguments;
          counted = refl;
        };
        count = refl;
        filter = get_or-set_self s.filter_list i (entry i f) no_filter (omega (arith, v.filters));
        callback = get_or-set_self s.rx_cb i (some cb) none (omega (arith, v.callbacks));
        argument = get_or-set_self s.rx_cb_arg i arg none (omega (arith, v.arguments));
        rtr = test_bit-put_bit_self f.rtr s.filter_rtr i;
        rtr_mask = test_bit-put_bit_self f.rtr s.filter_rtr_mask i;
        other_filter = λ k n. get_or-set_ne s.filter_list (entry i f) no_filter n;
        other_callback = λ k n. get_or-set_ne s.rx_cb (some cb) none n;
        other_argument = λ k n. get_or-set_ne s.rx_cb_arg arg none n;
        other_rtr = λ k n. test_bit-put_bit_ne f.rtr s.filter_rtr i k n;
        other_rtr_mask = λ k n. test_bit-put_bit_ne f.rtr s.filter_rtr_mask i k n;
        unlocked =
            omega (arith, ap (λ m. m.lock_count) (laws.mutex_unlock_lem (locked s.inst_mutex)));
      }

  -- With room in the table and its mutex free, a filter is accepted with the number of filters as
  -- its id: the entry of the table, both RTR bits, callback and argument of its slot are set, those
  -- of every other slot are kept, the table's invariant holds, the controller is initialised with the new table, and the mutex is free again.
  pub add_rx_filter-Added :
      (cb : ℕ) (arg : Pointer) (f : CanFilter)
      → IsTable d.drv
      → d.drv.can_filter_count < filter_num_max
      → d.drv.inst_mutex.lock_count ≡ 0
      → let (r, d') = add_rx_filter hal os (some cb) arg f d in
        (r ≡ ok d.drv.can_filter_count)
        × Added d.drv.can_filter_count cb arg f d.drv d'.drv
        × (d'.hw ≡ (hal.init d'.drv.config d'.drv.filter_list (hal.clock_freq d.hw) d.hw).1)
  unfolding add_rx_filter
  add_rx_filter-Added cb arg f v h u =
      rw (laws.lock_inst_mutex_lem forever d u, lt→ltb d.drv.can_filter_count 16 h)
        (refl, add_at-Added cb arg f v h u, unfold add_at install in refl)

  -- With 16 filters in the table the call fails with -ENOSPC, and the device is as it was but for
  -- the mutex of the instance, which stays locked after the call.
  pub add_rx_filter-full :
      (cb : ℕ) (arg : Pointer) (f : CanFilter)
      → d.drv.can_filter_count ≡ filter_num_max
      → d.drv.inst_mutex.lock_count ≡ 0
      → let (r, d') = add_rx_filter hal os (some cb) arg f d in
        (r ≡ err enospc)
        × (d'.drv.inst_mutex.lock_count ≡ 1)
        × (d' ≡ put_inst_mutex d'.drv.inst_mutex d)
  unfolding add_rx_filter
  add_rx_filter-full cb arg f h u =
      rw (laws.lock_inst_mutex_lem forever d u, h) (refl, omega arith, refl)
