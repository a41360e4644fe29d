-- ===== src/Can/Filter/Remove.antt =====
-- `hpm_can_remove_rx_filter`: what the loop does to the table, and what it leaves of the callbacks.
use mathlib.Core.Path.{subst}
use native.Mathlib.Decide.{ℕ_discrete}
use hpm_support.Prelude.{
  ℕ, zero, suc, ◌+◌, ◌-◌, ◌≤◌, ◌<◌, ◌≡◌, ◌≢◌, ◌∙◌, refl, sym, ap, false, List, arith, ltb, lt→ltb,
  ltb→lt, ==_iff, ◌==◌, get_or, get_or-set_self, get_or-set_ne, length, length-set, Bool-cases, inl,
  inr,
}
use hpm_support.Zephyr.{forever}
use hpm_support.Can.Types.{FilterConfig, CanData, Dev}
use hpm_support.Can.Hal.{Hal, Os, OsLaws, locked, put_inst_mutex}
use hpm_support.Can.Filter.{no_filter, fill_slot, drop_slot, remove_from, remove_rx_filter}
use hpm_support.Can.Filter.Table.{IsTable}

abbrev pub index_at : CanData → ℕ → ℕ
index_at s k = (get_or s.filter_list k no_filter).index

-- Each installed filter has its slot's number for an index, as after additions alone.
abbrev pub IsPlaced : CanData → Type 0
IsPlaced s = (k : ℕ) → k < s.can_filter_count → index_at s k ≡ k

==_ne : (a b : ℕ) → a ≢ b → (a == b) ≡ false
==_ne a b h = ground arith

get_or-fill_slot_ne :
    (i final last k : ℕ) (l : List FilterConfig)
    → k ≢ i
    → get_or (fill_slot i final last l) k no_filter ≡ get_or l k no_filter
get_or-fill_slot_ne i final last k l h = elim (Bool-cases (i == final)) [
  | inl t ↦ rw t
  | inr f ↦ rw f (get_or-set_ne l (get_or l last no_filter) no_filter (λ e. h (sym e)))
]

get_or-fill_slot_self :
    (i final last : ℕ) (l : List FilterConfig)
    → i < final
    → i < length l
    → get_or (fill_slot i final last l) i no_filter ≡ get_or l last no_filter
get_or-fill_slot_self i final last l h c =
    rw (==_ne i final (omega arith)) (get_or-set_self l i (get_or l last no_filter) no_filter c)

length-fill_slot :
    (i final last : ℕ) (l : List FilterConfig) → length (fill_slot i final last l) ≡ length l
length-fill_slot i final last l = elim (Bool-cases (i == final)) [
  | inl t ↦ rw t
  | inr f ↦ rw f (length-set l i (get_or l last no_filter))
]

module _ {Hw : Type 0} (hal : Hal Hw) (os : Os Hw) where
  -- A loop over slots that do not hold the id changes nothing.
  remove_from-none :
      (n i last id : ℕ) (d : Dev Hw)
      → ((k : ℕ) → i ≤ k → k < d.drv.can_filter_count → index_at d.drv k ≢ id)
      → remove_from hal os n i last id d ≡ d
  unfolding remove_from
  remove_from-none zero i last id d h = refl
  remove_from-none (suc n) i last id d h = elim (Bool-cases (ltb i d.drv.can_filter_count)) [
    | inr f ↦ rw f
    | inl t ↦
        rw (t, ==_ne (index_at d.drv i) id (h i (omega arith) (ltb→lt _ _ t)))
          (remove_from-none n (i + 1) last id d (λ k p q. h k (omega arith) q))
  ]

  -- A round at a slot that holds the id, where no later slot holds it once it has been dropped.
  remove_from-here :
      (n i last id : ℕ) (d : Dev Hw)
      → i < d.drv.can_filter_count
      → index_at d.drv i ≡ id
      → ((k : ℕ)
          → i < k
          → k < d.drv.can_filter_count - 1
          → index_at (drop_slot hal os last i d).drv k ≢ id)
      → remove_from hal os (suc n) i last id d ≡ drop_slot hal os last i d
  unfolding remove_from
  remove_from-here n i last id d c hit after =
      rw (lt→ltb i d.drv.can_filter_count c, (==_iff (index_at d.drv i) id).1 hit)
        (remove_from-none n (i + 1) last id (drop_slot hal os last i d)
          (λ k p q. after k (omega arith) q))

  -- A loop that meets the id at slot `j` alone drops that slot.
  remove_from-hit :
      (n i j last id : ℕ) (d : Dev Hw)
      → i ≤ j
      → j < i + n
      → j < d.drv.can_filter_count
      → ((k : ℕ) → i ≤ k → k < j → index_at d.drv k ≢ id)
      → index_at d.drv j ≡ id
      → ((k : ℕ)
          → j < k
          → k < d.drv.can_filter_count - 1
          → index_at (drop_slot hal os last j d).drv k ≢ id)
      → remove_from hal os n i last id d ≡ drop_slot hal os last j d
  unfolding remove_from
  remove_from-hit zero i j last id d p q c before hit after = absurd (omega arith)
  remove_from-hit (suc n) i j last id d p q c before hit after = elim (ℕ_discrete i j) [
    | yes e ↦
        remove_from-here n i last id d (omega arith) (ap (index_at d.drv) e ∙ hit) (
          subst
            (λ x.
              (k : ℕ)
              → x < k
              → k < d.drv.can_filter_count - 1
              → index_at (drop_slot hal os last x d).drv k ≢ id)
            (sym e) after)
        ∙ ap (λ x. drop_slot hal os last x d) e
    | no ne ↦
        rw
          (
            lt→ltb i d.drv.can_filter_count (omega arith),
            ==_ne (index_at d.drv i) id (before i (omega arith) (omega arith)),
          )
          (remove_from-hit n (i + 1) j last id d (omega arith) (omega arith) c
            (λ k p q. before k (omega arith) q) hit after)
  ]

module _ {Hw : Type 0} (hal : Hal Hw) (os : Os Hw) (laws : OsLaws os) (d : Dev Hw) where
  -- The later slots of a table in place do not hold `i` once slot `i` has been dropped.
  after_drop :
      (i : ℕ)
      → IsPlaced d.drv
      → i < d.drv.can_filter_count
      → (k : ℕ) → i < k
      → k < d.drv.can_filter_count - 1
      → index_at (drop_slot hal os (d.drv.can_filter_count - 1) i d).drv k ≢ i
  unfolding drop_slot
  after_drop i placed c k p q e =
      let n = d.drv.can_filter_count - 1 in
      absurd (
        omega (
          arith,
          placed k (omega arith),
          ap (λ f. f.index) (get_or-fill_slot_ne i n n k d.drv.filter_list (omega arith)),
        ))

  -- Removing filter `i` of a table in place drops slot `i`.
  remove_loop :
      (i : ℕ)
      → IsPlaced d.drv
      → i < d.drv.can_filter_count
      → remove_from hal os d.drv.can_filter_count 0 (d.drv.can_filter_count - 1) i d
        ≡ drop_slot hal os (d.drv.can_filter_count - 1) i d
  remove_loop i placed c =
      remove_from-hit hal os d.drv.can_filter_count 0 i (d.drv.can_filter_count - 1) i d
        (omega arith) (omega arith) c (λ k p q. omega (arith, placed k (omega arith))) (placed i c)
        (after_drop i placed c)

-- What is left when filter `i` has been removed from a table in place.
pub record Removed (i : ℕ) (s t : CanData) : Type 0 where
  pub table : IsTable t
  pub count : t.can_filter_count ≡ s.can_filter_count - 1
  pub moved :
      i < s.can_filter_count - 1
      → get_or t.filter_list i no_filter ≡ get_or s.filter_list (s.can_filter_count - 1) no_filter
  pub others : (k : ℕ) → k ≢ i → get_or t.filter_list k no_filter ≡ get_or s.filter_list k no_filter
  pub callbacks : t.rx_cb ≡ s.rx_cb
  pub arguments : t.rx_cb_arg ≡ s.rx_cb_arg
  pub rtr : t.filter_rtr ≡ s.filter_rtr
  pub rtr_mask : t.filter_rtr_mask ≡ s.filter_rtr_mask
  pub unlocked : t.inst_mutex.lock_count ≡ 0

module _ {Hw : Type 0} (hal : Hal Hw) (os : Os Hw) (laws : OsLaws os) (d : Dev Hw) where
  abbrev with_lock : Dev Hw
  with_lock = put_inst_mutex (locked d.drv.inst_mutex) d

  -- The lock around the loop changes nothing but the mutex.
  remove_rx_filter-dropped :
      (i : ℕ)
      → IsPlaced d.drv
      → i < d.drv.can_filter_count
      → d.drv.inst_mutex.lock_count ≡ 0
      → remove_rx_filter hal os i d ≡ (
          let r = drop_slot hal os (d.drv.can_filter_count - 1) i with_lock in
          record r { drv = record (r.drv) { inst_mutex = os.mutex_unlock r.drv.inst_mutex } })
  unfolding remove_rx_filter
  remove_rx_filter-dropped i placed c u = rw (
    laws.lock_inst_mutex_lem forever d u,
    lt→ltb 0 d.drv.can_filter_count (omega arith),
    remove_loop hal os laws with_lock i placed c,
  )

  -- Removing filter `i` of a table in place removes it alone: the last filter takes its slot, the
  -- other slots and the table's invariant are kept, and the mutex is free again. The callbacks,
  -- their arguments and the RTR bits stay where they are, those of the removed slot too.
  pub remove_rx_filter-Removed :
      (i : ℕ)
      → IsTable d.drv
      → IsPlaced d.drv
      → i < d.drv.can_filter_count
      → d.drv.inst_mutex.lock_count ≡ 0
      → Removed i d.drv (remove_rx_filter hal os i d).drv
  remove_rx_filter-Removed i v placed c u =
      let n = d.drv.can_filter_count - 1 in
      let l = d.drv.filter_list in
      rw (remove_rx_filter-dropped i placed c u) (
        unfold drop_slot in
        record {
          table = record {
            count_le = omega (arith, v.count_le);
            filters = length-fill_slot i n n l ∙ v.filters;
            callbacks = v.callbacks;
            arguments = v.arguments;
            counted = refl;
          };
          count = refl;
          moved = λ h. get_or-fill_slot_self i n n l h (omega (arith, v.filters, v.count_le));
          others = λ k h. get_or-fill_slot_ne i n n k l h;
          callbacks = refl;
          arguments = refl;
          rtr = refl;
          rtr_mask = refl;
          unlocked =
              omega
                (arith, ap (λ m. m.lock_count) (laws.mutex_unlock_lem (locked d.drv.inst_mutex)));
        })
