-- ===== src/Pwm/V1/Scale.antt =====
-- The scales that `hpmicro_pwm_v1_set_cycles` finds for a period and a pulse.
use mathlib.Core.Option
use native.Mathlib.Nat.{div-lt_iff_lt-mul}
use native.Mathlib.Decide.{dec_lt}
use hpm_support.Prelude.{
  ℕ, zero, suc, ◌+◌, ◌*◌, ◌/◌, ◌≤◌, ◌<◌, ◌≡◌, ◌↔◌, ◌⊎◌, ◌∙◌, sym, true, Option, none, some, ltb,
  leb, arith, Bool-cases, Option-cases, inl, inr,
}
use hpm_support.Pwm.Types.{sub_u32}
use hpm_support.Pwm.V1.{search, Reload, long_reload, reload_of}

-- The value fits into 24 bits at the scale `i`.
abbrev pub Fits : ℕ → ℕ → Type 0
Fits v i = v < 16777216 * (i + 1)

leb-Fits : (v i : ℕ) → (leb (v / (i + 1)) 16777215 ≡ true) ↔ Fits v i
leb-Fits v i =
    let (there, back) = div-lt_iff_lt-mul {k = i + 1} {x = v} {y = 16777216} (omega arith) in
    (
      λ e. let l : v / (i + 1) < 16777216 = ground arith in omega (arith, there l),
      λ h. let l : v / (i + 1) < 16777216 = back (omega arith) in ground arith,
    )

-- A scale that a search from `i` on found, with the scaled value.
pub record Scaled (i v q k : ℕ) : Type 0 where
  pub from : i ≤ k
  pub quotient : q ≡ v / (k + 1)
  pub fits : Fits v k
  pub least : (j : ℕ) → i ≤ j → Fits v j → k ≤ j

-- A round of the search, by whether the value fits.
search-Fits : (n i v : ℕ) → Fits v i → search (suc n) i v ≡ some (v / (i + 1), i)
unfolding search
search-Fits n i v h = rw ((leb-Fits v i).1 h)

search-next : (n i v : ℕ) → (¬ Fits v i) → search (suc n) i v ≡ search n (i + 1) v
unfolding search
search-next n i v h = elim (Bool-cases (leb (v / (i + 1)) 16777215)) [
  | inl t ↦ absurd (h ((leb-Fits v i).0 t))
  | inr f ↦ rw f
]

search-Scaled : (n i v q k : ℕ) → search n i v ≡ some (q, k) → Scaled i v q k × (k < i + n)
unfolding search
search-Scaled zero i v q k e = cc
search-Scaled (suc n) i v q k e = elim (dec_lt v (16777216 * (i + 1))) [
  | yes h ↦
      let e' : Path (Option (ℕ × ℕ)) (some (v / (i + 1), i)) (some (q, k)) =
        sym (search-Fits n i v h) ∙ e in
      let eq : q ≡ v / (i + 1) = cc in
      let ek : k ≡ i = cc in
      (
        record {
          from = omega arith;
          quotient = rw ek eq;
          fits = rw ek h;
          least = λ j l f. omega arith;
        },
        omega arith,
      )
  | no h ↦
      let (s, l) = search-Scaled n (i + 1) v q k (sym (search-next n i v h) ∙ e) in
      (
        record {
          from = omega (arith, s.from);
          quotient = s.quotient;
          fits = s.fits;
          least = λ j l' f. elim (dec_lt i j) [
            | yes a ↦ s.least j (omega arith) f
            | no a ↦ absurd (h (omega (arith, f)))
          ];
        },
        omega arith,
      )
]

search-none : (n i v : ℕ) → (search (suc n) i v ≡ none) ↔ (16777216 * (i + n + 1) ≤ v)
unfolding search
search-none zero i v = elim (dec_lt v (16777216 * (i + 1))) [
  | yes h ↦ (λ e. cc (sym (search-Fits zero i v h) ∙ e), λ l. absurd (omega (arith, h)))
  | no h ↦ (λ e. omega arith, λ l. search-next zero i v h)
]
search-none (suc n) i v = elim (dec_lt v (16777216 * (i + 1))) [
  | yes h ↦ (λ e. cc (sym (search-Fits (suc n) i v h) ∙ e), λ l. absurd (omega (arith, h)))
  | no h ↦
      let (there, back) = search-none n (i + 1) v in
      (
        λ e. omega (arith, there (sym (search-next (suc n) i v h) ∙ e)),
        λ l. search-next (suc n) i v h ∙ back (omega arith),
      )
]

some_ne_none : {A : Type 0} (o : Option A) (a : A) → o ≡ some a → ¬ (Path (Option A) o none)
some_ne_none o a e h = cc

-- A period is refused just when it does not fit into 24 bits, and it or the difference of the
-- period and the pulse does not fit at a scale of 17 either.
pub reload_of-none :
    (period pulse : ℕ)
    → (reload_of period pulse ≡ none)
      ↔ ((16777215 < period) × ((285212672 ≤ period) ⊎ (285212672 ≤ sub_u32 period pulse)))
unfolding reload_of Option.bind
reload_of-none period pulse = elim (Bool-cases (ltb 16777215 period)) [
  | inr f ↦ (λ e. cc (rw f at e), λ h. absurd (ground arith))
  | inl t ↦
      let l : 16777215 < period = ground arith in
      let outer = search-none 15 1 period in
      let inner = search-none 16 0 (sub_u32 period pulse) in
      elim (Option-cases (search 16 1 period)) [
        | inl a ↦ (λ e. (l, inl (omega (arith, outer.0 a))), λ h. rw (t, a))
        | inr (a, ea) ↦ elim (Option-cases (search 17 0 (sub_u32 period pulse))) [
          | inl b ↦ (λ e. (l, inr (omega (arith, inner.0 b))), λ h. rw (t, ea, b))
          | inr (b, eb) ↦ (
            λ e. cc (rw (t, ea, eb) at e),
            λ h. elim (h.1) [
              | inl g ↦ absurd (some_ne_none _ _ ea (outer.1 (omega arith)))
              | inr g ↦ absurd (some_ne_none _ _ eb (inner.1 (omega arith)))
            ],
          )
        ]
      ]
]

-- The values of a period that does not fit into 24 bits: the reload value and the compare value are
-- the period and the difference at the least scale at which they fit, from 1 and from 0 on.
pub record LongReload (period pulse : ℕ) (r : Reload) : Type 0 where
  pub reload : Scaled 1 period r.rld r.xrld
  pub reload_top : r.xrld ≤ 16
  pub compare : Scaled 0 (sub_u32 period pulse) r.rld_cmp r.xrld_cmp
  pub compare_top : r.xrld_cmp ≤ 16
  pub reload_fits : r.rld ≤ 16777215
  pub compare_fits : r.rld_cmp ≤ 16777215

Scaled-fits24 : (i v q k : ℕ) → Scaled i v q k → q ≤ 16777215
Scaled-fits24 i v q k s =
    let l : v / (k + 1) < 16777216 =
      (div-lt_iff_lt-mul {k = k + 1} {x = v} {y = 16777216} (omega arith)).1
        (omega (arith, s.fits)) in
    omega (arith, s.quotient)

-- A period between 2 ^ 24 and 17 * 2 ^ 24 whose difference with the pulse is below 17 * 2 ^ 24 has
-- such values.
pub reload_of-LongReload :
    (period pulse : ℕ)
    → 16777216 ≤ period
    → period < 285212672
    → sub_u32 period pulse < 285212672
    → (r : Reload) × (reload_of period pulse ≡ some r) × LongReload period pulse r
unfolding reload_of Option.bind
reload_of-LongReload period pulse low high diff =
    let t : ltb 16777215 period ≡ true = ground arith in
    elim (Option-cases (search 16 1 period)) [
      | inl a ↦ absurd (omega (arith, (search-none 15 1 period).0 a))
      | inr ((q, k), ea) ↦ elim (Option-cases (search 17 0 (sub_u32 period pulse))) [
        | inl b ↦ absurd (omega (arith, (search-none 16 0 (sub_u32 period pulse)).0 b))
        | inr ((q', k'), eb) ↦
            let (s, l) = search-Scaled 16 1 period q k ea in
            let (s', l') = search-Scaled 17 0 (sub_u32 period pulse) q' k' eb in
            (
              long_reload (q, k) (q', k'),
              rw (t, ea, eb),
              record {
                reload = s;
                reload_top = omega arith;
                compare = s';
                compare_top = omega arith;
                reload_fits = Scaled-fits24 1 period q k s;
                compare_fits = Scaled-fits24 0 (sub_u32 period pulse) q' k' s';
              },
            )
      ]
    ]
