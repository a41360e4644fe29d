-- ===== src/Can/Filter/Reuse.antt =====
-- What `hpm_can_remove_rx_filter` leaves for later frames and later filters when it removes a filter
-- that is not the last one.
use hpm_support.Prelude.{ℕ, ◌-◌, ◌<◌, ◌≡◌, ◌∙◌, sym, ap, true, false, none, some, arith, get_or}
use hpm_support.Can.Types.{CanFilter, Pointer, Dev, RxBuf}
use hpm_support.Can.Hal.{Hal, Os, OsLaws}
use hpm_support.Can.Filter.{
  no_filter, remove_rx_filter, accepts, add_rx_filter, get_first_filter_index,
}
use hpm_support.Can.Filter.Lookup.{get_first_filter_index-IsFirst}
use hpm_support.Can.Filter.Remove.{index_at, IsPlaced, remove_rx_filter-Removed}
use hpm_support.Can.Filter.Table.{IsTable, add_rx_filter-Added}
use hpm_support.Errno.{ok}

module _ {Hw : Type 0} (hal : Hal Hw) (os : Os Hw) (laws : OsLaws os) (d : Dev Hw) where
  -- Removing a filter that is not the last hands its callback to the last one: a frame that the
  -- last filter accepts, and none before slot `i` does, is found at slot `i`, whose callback and
  -- argument are still those of the filter that was removed.
  pub remove_rx_filter-misroutes :
      (i : ℕ) (b : RxBuf)
      → IsTable d.drv
      → IsPlaced d.drv
      → i < d.drv.can_filter_count - 1
      → d.drv.inst_mutex.lock_count ≡ 0
      → accepts (get_or d.drv.filter_list (d.drv.can_filter_count - 1) no_filter) b ≡ true
      → ((k : ℕ) → k < i → accepts (get_or d.drv.filter_list k no_filter) b ≡ false)
      → let s = (remove_rx_filter hal os i d).drv in
        (get_first_filter_index b s ≡ some i)
        × (get_or s.rx_cb i none ≡ get_or d.drv.rx_cb i none)
        × (get_or s.rx_cb_arg i none ≡ get_or d.drv.rx_cb_arg i none)
  remove_rx_filter-misroutes i b v placed c u last earlier =
      let s = (remove_rx_filter hal os i d).drv in
      let r = remove_rx_filter-Removed hal os laws d i v placed (omega arith) u in
      (
        (get_first_filter_index-IsFirst b s i).1 (record {
          from = omega arith;
          below = omega (arith, r.count);
          accepted = ap (λ f. accepts f b) (r.moved c) ∙ last;
          earlier = λ k p q. ap (λ f. accepts f b) (r.others k (omega arith)) ∙ earlier k q;
        }),
        ap (λ l. get_or l i none) r.callbacks,
        ap (λ l. get_or l i none) r.arguments,
      )

  -- After such a removal the next filter that is added gets an id that an installed one has: slot
  -- `i` and the new slot hold the same index.
  pub remove_rx_filter-duplicates :
      (i cb : ℕ) (arg : Pointer) (f : CanFilter)
      → IsTable d.drv
      → IsPlaced d.drv
      → i < d.drv.can_filter_count - 1
      → d.drv.inst_mutex.lock_count ≡ 0
      → let (r, d') = add_rx_filter hal os (some cb) arg f (remove_rx_filter hal os i d) in
        (r ≡ ok (d.drv.can_filter_count - 1))
        × (index_at d'.drv i ≡ d.drv.can_filter_count - 1)
        × (index_at d'.drv (d.drv.can_filter_count - 1) ≡ d.drv.can_filter_count - 1)
  remove_rx_filter-duplicates i cb arg f v placed c u =
      let n = d.drv.can_filter_count - 1 in
      let e = remove_rx_filter hal os i d in
      let r = remove_rx_filter-Removed hal os laws d i v placed (omega arith) u in
      let a =
        add_rx_filter-Added hal os laws e cb arg f r.table (omega (arith, r.count, v.count_le))
          r.unlocked in
      (
        a.0 ∙ ap ok r.count,
        ap (λ g. g.index) (a.1.other_filter i (omega (arith, r.count)) ∙ r.moved c)
            ∙ placed n (omega arith),
        ap (index_at (add_rx_filter hal os (some cb) arg f e).1.drv) (sym r.count)
            ∙ ap (λ g. g.index) a.1.filter
            ∙ r.count,
      )
