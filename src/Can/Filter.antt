-- ===== src/Can/Filter.antt =====
-- The filter table of drivers/can/can_hpmicro.c: `hpm_can_get_first_filter_index`,
-- `hpm_can_add_rx_filter`, `hpm_can_remove_rx_filter` and `hpm_can_get_max_filters`.
pub mod Match
pub mod Lookup
pub mod Table
pub mod Remove
pub mod Reuse
use hpm_support.Prelude.{
  ℕ, zero, suc, ◌+◌, ◌-◌, Bool, true, false, not, ◌&&◌, ◌||◌, Option, none, some, List, ltb, ◌==◌,
  if◌then◌else◌, get_or, set, set_bit, clear_bit, word_or, word_not,
}
use hpm_support.Errno.{Result, ok, err, einval, enospc}
use hpm_support.Zephyr.{forever}
use hpm_support.Can.Types.{
  RxBuf, IdMode, standard, extended, FilterConfig, CanFilter, Pointer, CanData, Dev,
}
use hpm_support.Can.Hal.{Hal, Os}

-- `HPM_CAN_FILTER_NUM_MAX`
abbrev pub filter_num_max : ℕ
filter_num_max = 16

-- The array element that a read out of range would give; no read is out of range.
abbrev pub no_filter : FilterConfig
no_filter = record { index = 0; id_mode = standard; enable = false; code = 0; mask = 0 }

-- The test of one filter in `hpm_can_get_first_filter_index`.
abbrev pub is_extended : IdMode → Bool
is_extended extended = true
is_extended standard = false

unfoldable pub accepts : FilterConfig → RxBuf → Bool
accepts f buf =
    (buf.extend_id && is_extended f.id_mode || not buf.extend_id && not (is_extended f.id_mode))
    && word_or 32 buf.id f.mask == word_or 32 f.code f.mask

-- The loop of `hpm_can_get_first_filter_index`: `n` rounds are left, `i` is the next.
unfoldable pub first_from : ℕ → ℕ → RxBuf → List FilterConfig → Option ℕ
first_from zero i buf l = none
first_from (suc n) i buf l =
    let rest = first_from n (i + 1) buf l in
    if accepts (get_or l i no_filter) buf then some i else rest

-- `none` stands for the (uint32_t)-EINVAL that the function returns.
unfoldable pub get_first_filter_index : RxBuf → CanData → Option ℕ
unfolding first_from
get_first_filter_index buf data' = first_from data'.can_filter_count 0 buf data'.filter_list

-- The entry that `hpm_can_add_rx_filter` writes for a filter at slot `i`.
abbrev pub entry : ℕ → CanFilter → FilterConfig
entry i f = record {
  index = i;
  id_mode = if f.ide then extended else standard;
  enable = true;
  code = f.id;
  mask = word_not 32 f.mask;
}

-- Bit `i` of a word set to `b`.
abbrev pub put_bit : Bool → ℕ → ℕ → ℕ
put_bit b w i = if b then set_bit w i else clear_bit w i

-- What `hpm_can_add_rx_filter` stores between taking the slot and calling `can_init`.
unfoldable pub install : CanFilter → ℕ → CanData → CanData
install f i s = record s {
  can_filter_count = s.can_filter_count + 1;
  filter_list = set s.filter_list i (entry i f);
  config = record (s.config) { filter_list_num = s.can_filter_count + 1 };
  filter_rtr = put_bit f.rtr s.filter_rtr i;
  filter_rtr_mask = put_bit f.rtr s.filter_rtr_mask i;
}

-- The array once `last_filter` has been copied over slot `i`, unless that is the final slot.
abbrev pub fill_slot : ℕ → ℕ → ℕ → List FilterConfig → List FilterConfig
fill_slot i final last l = if i == final then l else set l i (get_or l last no_filter)

module _ {Hw : Type 0} (hal : Hal Hw) (os : Os Hw) where
  -- `can_init` on the configuration and the filter array, its result ignored.
  abbrev pub reinit : Dev Hw → Dev Hw
  reinit d = record d {
    hw = (hal.init d.drv.config d.drv.filter_list (hal.clock_freq d.hw) d.hw).1;
  }

  -- `hpm_can_add_rx_filter` from the free slot on: the table, the controller, the callback.
  unfoldable pub add_at : ℕ → ℕ → Pointer → CanFilter → Dev Hw → Dev Hw
  unfolding install
  add_at i cb arg f l =
      let r = reinit (record l { drv = install f i l.drv }) in
      record r {
        drv = record (r.drv) {
          rx_cb = set r.drv.rx_cb i (some cb);
          rx_cb_arg = set r.drv.rx_cb_arg i arg;
          inst_mutex = os.mutex_unlock r.drv.inst_mutex;
        };
      }

  -- `hpm_can_add_rx_filter`. The early return at a full table keeps the mutex, as the code does.
  unfoldable pub add_rx_filter : Pointer → Pointer → CanFilter → Dev Hw → Result ℕ × Dev Hw
  unfolding add_at
  add_rx_filter none arg f d = (err einval, d)
  add_rx_filter (some cb) arg f d =
      let l = (os.lock_inst_mutex forever d).1 in
      let i = l.drv.can_filter_count in
      if ltb i filter_num_max then (ok i, add_at i cb arg f l) else (err enospc, l)

  -- The body of the loop of `hpm_can_remove_rx_filter` at a slot that holds the id; `last` is where
  -- `last_filter` points.
  unfoldable pub drop_slot : ℕ → ℕ → Dev Hw → Dev Hw
  drop_slot last i d =
      let s = d.drv in
      reinit (record d {
        drv = record s {
          filter_list = fill_slot i (s.can_filter_count - 1) last s.filter_list;
          can_filter_count = s.can_filter_count - 1;
          config = record (s.config) { filter_list_num = s.can_filter_count - 1 };
        };
      })

  -- The loop, `i` up to a count that a removal lowers; `n` rounds suffice where the count is at
  -- most `i + n`.
  unfoldable pub remove_from : ℕ → ℕ → ℕ → ℕ → Dev Hw → Dev Hw
  unfolding drop_slot
  remove_from zero i last id d = d
  remove_from (suc n) i last id d =
      let here = (get_or d.drv.filter_list i no_filter).index == id in
      let rest = remove_from n (i + 1) last id (if here then drop_slot last i d else d) in
      if ltb i d.drv.can_filter_count then rest else d

  -- `hpm_can_remove_rx_filter`
  unfoldable pub remove_rx_filter : ℕ → Dev Hw → Dev Hw
  unfolding remove_from
  remove_rx_filter id d =
      let l = (os.lock_inst_mutex forever d).1 in
      let n = l.drv.can_filter_count in
      let r = if ltb 0 n then remove_from n 0 (n - 1) id l else l in
      record r { drv = record (r.drv) { inst_mutex = os.mutex_unlock r.drv.inst_mutex } }

-- `hpm_can_get_max_filters`
unfoldable pub get_max_filters : Bool → ℕ
get_max_filters ide = filter_num_max
