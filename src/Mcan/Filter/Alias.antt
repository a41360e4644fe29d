-- ===== src/Mcan/Filter/Alias.antt =====
-- The ids of filters of the two identifier types.
use mathlib.Core.Path.{subst}
use hpm_support.Prelude.{
  ℕ, zero, suc, ◌+◌, ◌-◌, ◌≤◌, ◌<◌, ◌≡◌, ◌≢◌, ◌∙◌, refl, sym, ap, false, some, List, arith, get_or,
  set, length, get_or-set_self, get_or-set_ne, ◌==◌, if◌then◌else◌, Bool-cases, inl, inr,
}
use hpm_support.Zephyr.{forever}
use hpm_support.Mcan.Types.{IdType, extended, standard, Table, Dev}
use hpm_support.Can.Hal.{locked}
use hpm_support.Mcan.Hal.{Hal, Os, OsLaws, put_inst_mutex}
use hpm_support.Mcan.Filter.{
  no_filter, find_index, table_of, drop_entry, drop_found, remove_entry, remove_rx_filter,
}

-- Every filter of the table has its slot as its id, as `hpm_mcan_add_rx_filter` gives them.
pub record IsPlaced (t : Table) : Type 0 where
  pub placed : (k : ℕ) → k < t.filter_count → get_or t.filters_index k 0 ≡ k

find_index-IsPlaced :
    (n i id : ℕ) (l : List ℕ)
    → ((k : ℕ) → k < i + n → get_or l k 0 ≡ k)
    → i ≤ id
    → id < i + n
    → find_index n i id l ≡ some id
unfolding find_index
find_index-IsPlaced zero i id l h lo hi = absurd (omega arith)
find_index-IsPlaced (suc n) i id l h lo hi = elim (Bool-cases (i == id)) [
  | inl e ↦ let e' : i ≡ id = ground arith in rw (h i (omega arith), e) (ap some e')
  | inr e ↦
      rw (h i (omega arith), e)
        (find_index-IsPlaced n (i + 1) id l (λ k l'. h k (omega arith)) (ground arith)
          (omega arith))
]

-- The arrays have room for the filters that the table counts.
pub record Fits (t : Table) : Type 0 where
  pub indices : t.filter_count ≤ length t.filters_index
  pub elements : t.filter_count ≤ length t.filters

-- `t'` is `t` without the filter of slot `i`: one filter less, the last one moved to slot `i` unless it
-- was that one, every other slot as it was, and the callbacks and their arguments not moved.
pub record Dropped (i : ℕ) (t t' : Table) : Type 0 where
  pub count : t'.filter_count + 1 ≡ t.filter_count
  pub moved_index :
      i < t'.filter_count → get_or t'.filters_index i 0 ≡ get_or t.filters_index t'.filter_count 0
  pub moved :
      i < t'.filter_count
      → get_or t'.filters i no_filter ≡ get_or t.filters t'.filter_count no_filter
  pub other_index : (k : ℕ) → i ≢ k → get_or t'.filters_index k 0 ≡ get_or t.filters_index k 0
  pub others : (k : ℕ) → i ≢ k → get_or t'.filters k no_filter ≡ get_or t.filters k no_filter
  pub callbacks : t'.rx_cb ≡ t.rx_cb
  pub arguments : t'.rx_cb_arg ≡ t.rx_cb_arg

moved_to {ℓ} :
    {A : Type ℓ} (l : List A) (i final : ℕ) (a : A)
    → i < final
    → final < length l
    → get_or (if i == final then l else set l i (get_or l final a)) i a ≡ get_or l final a
moved_to l i final a h r =
    let e : (i == final) ≡ false = ground (arith, h) in
    rw e (get_or-set_self l i (get_or l final a) a (omega (arith, h, r)))

kept_at {ℓ} :
    {A : Type ℓ} (l : List A) (i final k : ℕ) (a : A)
    → i ≢ k
    → get_or (if i == final then l else set l i (get_or l final a)) k a ≡ get_or l k a
kept_at l i final k a n = elim (Bool-cases (i == final)) [
  | inl e ↦ rw e refl
  | inr e ↦ rw e (get_or-set_ne l (get_or l final a) a n)
]

drop_entry-Dropped :
    (i : ℕ) (t : Table) → Fits t → i < t.filter_count → Dropped i t (drop_entry i t)
drop_entry-Dropped i t f h = record {
  count = omega (arith, h);
  moved_index =
      λ l. moved_to t.filters_index i (t.filter_count - 1) 0 l (omega (arith, h, f.indices));
  moved = λ l. moved_to t.filters i (t.filter_count - 1) no_filter l (omega (arith, h, f.elements));
  other_index = λ k n. kept_at t.filters_index i (t.filter_count - 1) k 0 n;
  others = λ k n. kept_at t.filters i (t.filter_count - 1) k no_filter n;
  callbacks = refl;
  arguments = refl;
}

module _ {Hw : Type 0} (hal : Hal Hw) (os : Os Hw) (laws : OsLaws os) where
  remove_entry-IsPlaced :
      (k : IdType) (id : ℕ) (d : Dev Hw)
      → IsPlaced (table_of k d.drv)
      → id < (table_of k d.drv).filter_count
      → remove_entry hal os k id d ≡ drop_found hal os k (some id) d
  unfolding remove_entry
  remove_entry-IsPlaced k id d p h =
      let t = table_of k d.drv in
      ap (λ o. drop_found hal os k o d)
        (find_index-IsPlaced t.filter_count 0 id t.filters_index (λ i l. p.placed i (omega arith))
          (omega arith) (omega arith))

  -- With the filters of both tables in their slots, within arrays that have room, and the mutex
  -- free: the removal of an id that both tables have removes a filter from each. Of each table the
  -- last filter is moved to the slot, unless it was the one, the other slots are kept, and the
  -- callbacks and their arguments are not moved.
  pub remove_rx_filter-both :
      (id : ℕ) (d : Dev Hw)
      → IsPlaced d.drv.ext
      → IsPlaced d.drv.std
      → Fits d.drv.ext
      → Fits d.drv.std
      → id < d.drv.ext.filter_count
      → id < d.drv.std.filter_count
      → d.drv.inst_mutex.lock_count ≡ 0
      → let d' = remove_rx_filter hal os id d in
        Dropped id d.drv.ext d'.drv.ext × Dropped id d.drv.std d'.drv.std
  unfolding remove_rx_filter
  remove_rx_filter-both id d pe ps fe fs he hs u =
      let l = put_inst_mutex (locked d.drv.inst_mutex) d in
      let a = ap (λ r. r.1) (laws.lock_inst_mutex_lem forever d u) in
      let b = remove_entry-IsPlaced extended id l pe he in
      let c = remove_entry-IsPlaced standard id (drop_found hal os extended (some id) l) ps hs in
      let e =
        ap (λ x. remove_entry hal os standard id (remove_entry hal os extended id x)) a
        ∙ ap (remove_entry hal os standard id) b
        ∙ c in
      (
        subst (Dropped id d.drv.ext) (sym (ap (λ x. x.drv.ext) e))
            (drop_entry-Dropped id d.drv.ext fe he),
        subst (Dropped id d.drv.std) (sym (ap (λ x. x.drv.std) e))
            (drop_entry-Dropped id d.drv.std fs hs),
      )
