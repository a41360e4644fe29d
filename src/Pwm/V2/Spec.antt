-- ===== src/Pwm/V2/Spec.antt =====
-- What the calls of `hpmicro_pwm_v2_set_cycles` amount to: a period for each counter and a falling
-- edge for each channel, those of the last call that was accepted.
use native.Mathlib.Decide.{ℕ_discrete}
use hpm_support.Prelude.{
  ℕ, ◌≤◌, ◌≡◌, ◌≢◌, ◌∙◌, refl, sym, ap, Bool, true, false, ◌&&◌, ◌||◌, Option, none, some, List, [],
  ◌∷◌, ltb, leb, ◌==◌, if◌then◌else◌, arith, Bool-cases, inl, inr,
}
use hpm_support.Errno.{Status, success, err, enotsup}
use hpm_support.Pwm.Types.{Hal, sub_u32, Call}
use hpm_support.Pwm.V2.{counter_of, shadow_reload, shadow_cmp2, run_calls, set_cycles}
use hpm_support.Pwm.V2.Layout.{
  shadow_reload-eq, cmp2_inj, cmp1_ne_cmp2, reload_ne_cmp2, reload_ne_cmp1,
}
use hpm_support.Pwm.V2.Shadow.{shadow, shadow-run_calls}

-- The arguments of a call.
pub record Request : Type 0 where
  pub channel : ℕ
  pub period : ℕ
  pub pulse : ℕ
  pub flags : ℕ

eq_tests : (a b x y : ℕ) → (a ≡ b → x ≡ y) → (x ≡ y → a ≡ b) → (a == b) ≡ (x == y)
eq_tests a b x y f g = elim (ℕ_discrete a b) [
  | yes e ↦ let e' = f e in ground arith
  | no n ↦ let n' : x ≢ y = λ e. n (g e) in ground arith
]

test_ne : (a b : ℕ) → a ≢ b → (a == b) ≡ false
test_ne a b n = ground arith

module _ (hal : Hal Call) (dead : ℕ) where
  abbrev pub set_request : Request → List Call → Status × List Call
  set_request r t = set_cycles hal dead r.channel r.period r.pulse r.flags t

  -- The calls of the library after a list of requests, the latest first.
  abbrev pub run : List Request → List Call
  run [] = []
  run (r ∷ rs) = (set_request r (run rs)).1

  -- The requests that are served.
  abbrev pub is_served : Request → Bool
  is_served r =
      leb r.channel 7
      && (leb r.period 16777215
          && (r.flags == hal.polarity_inverted || r.flags == hal.polarity_normal))

  -- The falling edge of a channel, and the period of a counter.
  abbrev pub edge_of : List Request → ℕ → Option ℕ
  edge_of [] c = none
  edge_of (r ∷ rs) c =
      if is_served r
      then (if r.channel == c then some (sub_u32 r.period r.pulse) else edge_of rs c)
      else edge_of rs c

  abbrev pub period_of : List Request → ℕ → Option ℕ
  period_of [] n = none
  period_of (r ∷ rs) n =
      if is_served r
      then (if counter_of r.channel == n then some r.period else period_of rs n)
      else period_of rs n

  -- A request is served, and then its calls follow, or refused without a call.
  record Served (r : Request) (t : List Call) : Type 0 where
    in_range : r.channel ≤ 7
    inv : Bool
    runs : set_request r t ≡ (success, run_calls hal dead r.channel r.period r.pulse inv t)

  set_request-Served : (r : Request) (t : List Call) → is_served r ≡ true → Served r t
  unfolding set_cycles
  set_request-Served r t e =
      let a : ltb 7 r.channel ≡ false = ground arith in
      let b : ltb 16777215 r.period ≡ false = ground arith in
      elim (Bool-cases (r.flags == hal.polarity_inverted)) [
        | inl f ↦ record { in_range = ground arith; inv = true; runs = rw (a, f, b) }
        | inr f ↦
            let g : (r.flags == hal.polarity_normal) ≡ true = ground arith in
            record { in_range = ground arith; inv = false; runs = rw (a, f, g, b) }
      ]

  set_request-refused :
      (r : Request) (t : List Call) → is_served r ≡ false → set_request r t ≡ (err enotsup, t)
  unfolding set_cycles
  set_request-refused r t e = elim (Bool-cases (ltb 7 r.channel)) [
    | inl a ↦ rw a
    | inr a ↦ elim (Bool-cases (r.flags == hal.polarity_inverted)) [
      | inl f ↦ let b : ltb 16777215 r.period ≡ true = ground arith in rw (a, f, b)
      | inr f ↦ elim (Bool-cases (r.flags == hal.polarity_normal)) [
        | inl g ↦ let b : ltb 16777215 r.period ≡ true = ground arith in rw (a, f, g, b)
        | inr g ↦ rw (a, f, g)
      ]
    ]
  ]

  run_calls_cmp2 :
      (c p q : ℕ) (inv : Bool) (t : List Call) (c' : ℕ)
      → c ≤ 7
      → c' ≤ 7
      → shadow (run_calls hal dead c p q inv t) (shadow_cmp2 c')
        ≡ (if c == c' then some (sub_u32 p q) else shadow t (shadow_cmp2 c'))
  run_calls_cmp2 c p q inv t c' h h' =
      let e =
        eq_tests (shadow_cmp2 c) (shadow_cmp2 c') c c' (cmp2_inj c c' h h') (ap shadow_cmp2) in
      shadow-run_calls hal dead c p q inv t (shadow_cmp2 c')
      ∙ rw (e, test_ne _ _ (cmp1_ne_cmp2 c c' h h'), test_ne _ _ (reload_ne_cmp2 c c' h h'))

  run_calls_reload :
      (c p q : ℕ) (inv : Bool) (t : List Call) (c' : ℕ)
      → c ≤ 7
      → c' ≤ 7
      → shadow (run_calls hal dead c p q inv t) (shadow_reload c')
        ≡ (if counter_of c == counter_of c' then some p else shadow t (shadow_reload c'))
  run_calls_reload c p q inv t c' h h' =
      let e =
        eq_tests (shadow_reload c) (shadow_reload c') (counter_of c) (counter_of c')
          (λ e. omega (arith, e, shadow_reload-eq c h, shadow_reload-eq c' h'))
          (λ e. omega (arith, e, shadow_reload-eq c h, shadow_reload-eq c' h')) in
      shadow-run_calls hal dead c p q inv t (shadow_reload c')
      ∙ rw (
        e,
        test_ne _ _ (λ z. reload_ne_cmp1 c' c h' h (sym z)),
        test_ne _ _ (λ z. reload_ne_cmp2 c' c h' h (sym z)),
      )

  -- After any requests the registers of a channel hold what the requests amount to.
  pub run-edge_of :
      (rs : List Request) (c : ℕ)
      → c ≤ 7
      → (shadow (run rs) (shadow_cmp2 c) ≡ edge_of rs c)
        × (shadow (run rs) (shadow_reload c) ≡ period_of rs (counter_of c))
  run-edge_of [] c h = (refl, refl)
  run-edge_of (r ∷ rs) c h = elim (Bool-cases (is_served r)) [
    | inl e ↦
        let s = set_request-Served r (run rs) e in
        let (edge, period) = run-edge_of rs c h in
        (
          ap (λ x. shadow x.1 (shadow_cmp2 c)) s.runs
              ∙ run_calls_cmp2 r.channel r.period r.pulse s.inv (run rs) c s.in_range h
              ∙ rw (e, edge),
          ap (λ x. shadow x.1 (shadow_reload c)) s.runs
              ∙ run_calls_reload r.channel r.period r.pulse s.inv (run rs) c s.in_range h
              ∙ rw (e, period),
        )
    | inr e ↦
        let s = set_request-refused r (run rs) e in
        let (edge, period) = run-edge_of rs c h in
        (
          ap (λ x. shadow x.1 (shadow_cmp2 c)) s ∙ edge ∙ rw e,
          ap (λ x. shadow x.1 (shadow_reload c)) s ∙ period ∙ rw e,
        )
  ]
