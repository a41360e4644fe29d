-- ===== src/Mcan/Filter.antt =====
-- The receive filters of drivers/can/mcan_hpmicro.c: `hpm_mcan_get_first_filter_index`,
-- `hpm_mcan_add_rx_filter` with its two halves, `hpm_mcan_remove_rx_filter`.
pub mod Alias
use hpm_support.Prelude.{
  ℕ, zero, suc, ◌+◌, ◌-◌, Bool, true, false, ◌||◌, Option, none, some, List, ltb, ◌==◌,
  if◌then◌else◌, get_or, set, word_or, word_and, word_not,
}
use hpm_support.Errno.{Result, ok, err, einval, enospc, enotsup}
use hpm_support.Zephyr.{forever}
use hpm_support.Can.Types.{CanFilter, Pointer}
use hpm_support.Mcan.Types.{
  IdType, extended, standard, FilterElem, RxMessage, Config, Table, McanData, Dev,
}
use hpm_support.Mcan.Hal.{Hal, Os}

abbrev pub ext_filter_num_max : ℕ
ext_filter_num_max = 64

abbrev pub std_filter_num_max : ℕ
std_filter_num_max = 128

-- The array element that a read out of range would give; no read is out of range.
abbrev pub no_filter : FilterElem
no_filter = record { can_id_type = standard; filter_id = 0; filter_mask = 0 }

-- The comparison of an identifier with one filter.
unfoldable pub accepts : FilterElem → ℕ → Bool
accepts f id = word_or 32 id f.filter_mask == word_or 32 f.filter_id f.filter_mask

-- A loop of `hpm_mcan_get_first_filter_index`: `n` rounds are left, `i` is the next.
unfoldable pub first_from : ℕ → ℕ → ℕ → List FilterElem → Option ℕ
first_from zero i id l = none
first_from (suc n) i id l =
    let rest = first_from n (i + 1) id l in
    if accepts (get_or l i no_filter) id then some i else rest

-- `hpm_mcan_get_first_filter_index`; `none` stands for the (uint32_t)-EINVAL that it returns.
unfoldable pub get_first_filter_index : RxMessage → McanData → Option ℕ
unfolding first_from
get_first_filter_index m s =
    if m.use_ext_id
    then first_from s.ext.filter_count 0 m.ext_id s.ext.filters
    else first_from s.std.filter_count 0 m.std_id s.std.filters

abbrev pub table_of : IdType → McanData → Table
table_of extended s = s.ext
table_of standard s = s.std

-- The table of a type, and the number of its filters in the configuration.
abbrev pub put_table : IdType → Table → McanData → McanData
put_table extended t s = record s {
  ext = t;
  config = record (s.config) { ext_elem_count = t.filter_count };
}
put_table standard t s = record s {
  std = t;
  config = record (s.config) { std_elem_count = t.filter_count };
}

-- The element that is written for a filter.
abbrev pub elem_of : IdType → CanFilter → FilterElem
elem_of k f = record { can_id_type = k; filter_id = f.id; filter_mask = word_not 32 f.mask }

-- The word with the bits of `m` set or cleared.
abbrev pub put_flag : Bool → ℕ → ℕ → ℕ
put_flag b w m = if b then word_or 32 w m else word_and 32 w (word_not 32 m)

-- The table with the filter at slot `i`, and with its callback there.
abbrev pub install : IdType → ℕ → CanFilter → Table → Table
install k i f t = record t {
  filter_count = t.filter_count + 1;
  filters_index = set t.filters_index i i;
  filters = set t.filters i (elem_of k f);
}

abbrev pub put_callback : ℕ → ℕ → Pointer → Table → Table
put_callback i cb arg t = record t {
  rx_cb = set t.rx_cb i (some cb);
  rx_cb_arg = set t.rx_cb_arg i arg;
}

-- The table without the entry at slot `i`, where the last entry has been moved unless it is that
-- one.
abbrev pub drop_entry : ℕ → Table → Table
drop_entry i t =
    let final = t.filter_count - 1 in
    record t {
      filter_count = final;
      filters_index =
          if i == final
          then t.filters_index
          else set t.filters_index i (get_or t.filters_index final 0);
      filters =
          if i == final then t.filters else set t.filters i (get_or t.filters final no_filter);
    }

-- The first slot that holds an id, from slot `i` on with `n` rounds left.
unfoldable pub find_index : ℕ → ℕ → ℕ → List ℕ → Option ℕ
find_index zero i id l = none
find_index (suc n) i id l =
    let rest = find_index n (i + 1) id l in if get_or l i 0 == id then some i else rest

module _ {Hw : Type 0} (hal : Hal Hw) (os : Os Hw) where
  -- `mcan_init` on the configuration and the tables, its result ignored.
  abbrev pub reinit : Dev Hw → Dev Hw
  reinit d = record d {
    hw = (hal.init d.drv.config d.drv.ext.filters d.drv.std.filters (hal.clock_freq d.hw) d.hw).1;
  }

  abbrev pub lock_inst : Dev Hw → Dev Hw
  lock_inst d = (os.lock_inst_mutex forever d).1

  abbrev pub unlock_inst : Dev Hw → Dev Hw
  unlock_inst d = record d {
    drv = record (d.drv) { inst_mutex = os.mutex_unlock d.drv.inst_mutex };
  }

  -- The two functions that add a filter, from the free slot on. They share the RTR words.
  unfoldable pub add_at : IdType → ℕ → ℕ → Pointer → CanFilter → Dev Hw → Dev Hw
  add_at k i cb arg f d =
      let s = put_table k (install k i f (table_of k d.drv)) d.drv in
      let r = reinit (record d {
        drv = record s {
          filter_rtr = put_flag f.rtr s.filter_rtr (hal.shift_one i);
          filter_rtr_mask = put_flag f.rtr s.filter_rtr_mask (hal.shift_one i);
        };
      }) in
      unlock_inst (record r { drv = put_table k (put_callback i cb arg (table_of k r.drv)) r.drv })

  -- `hpm_mcan_add_rx_filter_ext`. The return at a full table keeps the mutex, as the code does.
  unfoldable pub add_rx_filter_ext : Pointer → Pointer → CanFilter → Dev Hw → Result ℕ × Dev Hw
  unfolding add_at
  add_rx_filter_ext none arg f d = (err einval, d)
  add_rx_filter_ext (some cb) arg f d =
      let l = lock_inst d in
      let i = l.drv.ext.filter_count in
      if ltb i ext_filter_num_max then (ok i, add_at extended i cb arg f l) else (err enospc, l)

  -- `hpm_mcan_add_rx_filter_std`
  unfoldable pub add_rx_filter_std : Pointer → Pointer → CanFilter → Dev Hw → Result ℕ × Dev Hw
  unfolding add_at
  add_rx_filter_std none arg f d = (err einval, d)
  add_rx_filter_std (some cb) arg f d =
      let l = lock_inst d in
      let i = l.drv.std.filter_count in
      if ltb i std_filter_num_max then (ok i, add_at standard i cb arg f l) else (err enospc, l)

  -- `hpm_mcan_add_rx_filter`: of the flags of a filter only CAN_FILTER_IDE may be set.
  unfoldable pub add_rx_filter : Pointer → Pointer → CanFilter → Dev Hw → Result ℕ × Dev Hw
  unfolding add_rx_filter_ext add_rx_filter_std
  add_rx_filter cb arg f d =
      if f.rtr || f.others
      then (err enotsup, d)
      else if f.ide
      then add_rx_filter_ext cb arg f d
      else add_rx_filter_std cb arg f d

  -- The body of a loop of `hpm_mcan_remove_rx_filter`, at the slot that was found, if any.
  abbrev pub drop_found : IdType → Option ℕ → Dev Hw → Dev Hw
  drop_found k none d = d
  drop_found k (some i) d =
      reinit (record d { drv = put_table k (drop_entry i (table_of k d.drv)) d.drv })

  -- One half of `hpm_mcan_remove_rx_filter`.
  unfoldable pub remove_entry : IdType → ℕ → Dev Hw → Dev Hw
  unfolding find_index
  remove_entry k id d =
      let t = table_of k d.drv in drop_found k (find_index t.filter_count 0 id t.filters_index) d

  -- `hpm_mcan_remove_rx_filter`
  unfoldable pub remove_rx_filter : ℕ → Dev Hw → Dev Hw
  unfolding remove_entry
  remove_rx_filter id d =
      unlock_inst (remove_entry standard id (remove_entry extended id (lock_inst d)))

-- `hpm_mcan_get_max_filters`
unfoldable pub get_max_filters : Bool → ℕ
get_max_filters ide = if ide then ext_filter_num_max else std_filter_num_max
