-- ===== src/Can/Filter/Lookup.antt =====
-- Which filter `hpm_can_get_first_filter_index` finds.
use hpm_support.Prelude.{
  ℕ, zero, suc, ◌+◌, ◌≤◌, ◌<◌, ◌≡◌, ◌↔◌, ◌∙◌, sym, ap, true, false, none, some, List, arith,
  Bool-cases, inl, inr, get_or,
}
use mathlib.Core.Path.{subst}
use native.Mathlib.Decide.{ℕ_discrete}
use hpm_support.Can.Types.{RxBuf, FilterConfig, CanData}
use hpm_support.Can.Filter.{accepts, no_filter, first_from, get_first_filter_index}

-- Slot `j` is the first in [i, e) whose entry accepts the frame.
pub record IsFirst (l : List FilterConfig) (b : RxBuf) (i e j : ℕ) : Type 0 where
  pub from : i ≤ j
  pub below : j < e
  pub accepted : accepts (get_or l j no_filter) b ≡ true
  pub earlier : (k : ℕ) → i ≤ k → k < j → accepts (get_or l k no_filter) b ≡ false

module _ (b : RxBuf) (l : List FilterConfig) where
  first_from-IsFirst : (n i j : ℕ) → first_from n i b l ≡ some j → IsFirst l b i (i + n) j
  unfolding first_from
  first_from-IsFirst zero i j h = cc
  first_from-IsFirst (suc n) i j h = elim (Bool-cases (accepts (get_or l i no_filter) b)) [
    | inl t ↦
        let e : i ≡ j = ground arith in
        record {
          from = omega arith;
          below = omega arith;
          accepted = rw (← e) t;
          earlier = λ k p q. absurd (omega arith);
        }
    | inr f ↦
        let r = first_from-IsFirst n (i + 1) j (rw f at h) in
        record {
          from = omega (arith, r.from);
          below = omega (arith, r.below);
          accepted = r.accepted;
          earlier = λ k p q. elim (ℕ_discrete i k) [
            | yes e ↦ rw (← e) f
            | no ne ↦ r.earlier k (omega arith) q
          ];
        }
  ]

  first_from_of_IsFirst : (n i j : ℕ) → IsFirst l b i (i + n) j → first_from n i b l ≡ some j
  unfolding first_from
  first_from_of_IsFirst zero i j f = absurd (omega (arith, f.from, f.below))
  first_from_of_IsFirst (suc n) i j f = elim (ℕ_discrete i j) [
    | yes e ↦ rw (ap (λ k. accepts (get_or l k no_filter) b) e ∙ f.accepted) (ap some e)
    | no ne ↦ rw (f.earlier i (omega arith) (omega (arith, f.from))) (
        first_from_of_IsFirst n (i + 1) j (record {
          from = omega (arith, f.from);
          below = omega (arith, f.below);
          accepted = f.accepted;
          earlier = λ k p q. f.earlier k (omega arith) q;
        }))
  ]

  first_from-none :
      (n i : ℕ)
      → first_from n i b l ≡ none
      → (k : ℕ) → i ≤ k
      → k < i + n
      → accepts (get_or l k no_filter) b ≡ false
  unfolding first_from
  first_from-none zero i h k p q = absurd (omega arith)
  first_from-none (suc n) i h k p q = elim (Bool-cases (accepts (get_or l i no_filter) b)) [
    | inl t ↦ cc (rw t at h)
    | inr f ↦ elim (ℕ_discrete i k) [
      | yes e ↦ rw (← e) f
      | no ne ↦ first_from-none n (i + 1) (rw f at h) k (omega arith) (omega arith)
    ]
  ]

-- The index that is found is the first of the installed filters that accepts the frame, and that
-- filter's index is always found.
pub get_first_filter_index-IsFirst :
    (b : RxBuf) (s : CanData) (j : ℕ)
    → (get_first_filter_index b s ≡ some j) ↔ IsFirst s.filter_list b 0 s.can_filter_count j
unfolding get_first_filter_index
get_first_filter_index-IsFirst b s j =
    let e : 0 + s.can_filter_count ≡ s.can_filter_count = omega arith in
    (
      λ h.
          subst (λ n. IsFirst s.filter_list b 0 n j) e
            (first_from-IsFirst b s.filter_list s.can_filter_count 0 j h),
      λ f.
          first_from_of_IsFirst b s.filter_list s.can_filter_count 0 j
            (subst (λ n. IsFirst s.filter_list b 0 n j) (sym e) f),
    )

-- Where no index is found, no installed filter accepts the frame.
pub get_first_filter_index-none :
    (b : RxBuf) (s : CanData)
    → get_first_filter_index b s ≡ none
    → (k : ℕ) → k < s.can_filter_count
    → accepts (get_or s.filter_list k no_filter) b ≡ false
unfolding get_first_filter_index
get_first_filter_index-none b s h k l =
    first_from-none b s.filter_list s.can_filter_count 0 h k (omega arith) (omega arith)
