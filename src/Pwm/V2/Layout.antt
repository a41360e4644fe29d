-- ===== src/Pwm/V2/Layout.antt =====
-- The numbering of the shadow registers and compare units of drivers/pwm/pwm_hpmicro.c.
use hpm_support.Prelude.{ℕ, ◌+◌, ◌*◌, ◌/◌, ◌%◌, ◌≤◌, ◌<◌, ◌≡◌, ◌≢◌, ◌↔◌, arith}
use hpm_support.Pwm.V2.{counter_of, cmp_index1, cmp_index2, shadow_reload, shadow_cmp1, shadow_cmp2}

pub shadow_reload-eq : (c : ℕ) → c ≤ 7 → shadow_reload c ≡ c / 2 * 5
shadow_reload-eq c h = omega arith

pub shadow_cmp1-eq : (c : ℕ) → c ≤ 7 → shadow_cmp1 c ≡ c / 2 * 5 + 1 + c % 2 * 2
shadow_cmp1-eq c h = omega arith

pub shadow_cmp2-eq : (c : ℕ) → c ≤ 7 → shadow_cmp2 c ≡ c / 2 * 5 + 2 + c % 2 * 2
shadow_cmp2-eq c h = omega arith

pub cmp2_inj : (c c' : ℕ) → c ≤ 7 → c' ≤ 7 → shadow_cmp2 c ≡ shadow_cmp2 c' → c ≡ c'
cmp2_inj c c' h h' e = omega (arith, e, shadow_cmp2-eq c h, shadow_cmp2-eq c' h')

pub cmp1_ne_cmp2 : (c c' : ℕ) → c ≤ 7 → c' ≤ 7 → shadow_cmp1 c ≢ shadow_cmp2 c'
cmp1_ne_cmp2 c c' h h' e = omega (arith, e, shadow_cmp1-eq c h, shadow_cmp2-eq c' h')

pub reload_ne_cmp2 : (c c' : ℕ) → c ≤ 7 → c' ≤ 7 → shadow_reload c ≢ shadow_cmp2 c'
reload_ne_cmp2 c c' h h' e = omega (arith, e, shadow_reload-eq c h, shadow_cmp2-eq c' h')

pub reload_ne_cmp1 : (c c' : ℕ) → c ≤ 7 → c' ≤ 7 → shadow_reload c ≢ shadow_cmp1 c'
reload_ne_cmp1 c c' h h' e = omega (arith, e, shadow_reload-eq c h, shadow_cmp1-eq c' h')

-- Two channels have no shadow register of a compare unit and no compare unit in common, and a
-- reload register just when they have a counter in common.
pub record Disjoint (c c' : ℕ) : Type 0 where
  pub cmp11 : shadow_cmp1 c ≢ shadow_cmp1 c'
  pub cmp12 : shadow_cmp1 c ≢ shadow_cmp2 c'
  pub cmp22 : shadow_cmp2 c ≢ shadow_cmp2 c'
  pub unit11 : cmp_index1 c ≢ cmp_index1 c'
  pub unit12 : cmp_index1 c ≢ cmp_index2 c'
  pub unit22 : cmp_index2 c ≢ cmp_index2 c'
  pub reload1 : shadow_reload c ≢ shadow_cmp1 c'
  pub reload2 : shadow_reload c ≢ shadow_cmp2 c'
  pub shared : (shadow_reload c ≡ shadow_reload c') ↔ (counter_of c ≡ counter_of c')

cmp_index1-eq : (c : ℕ) → c ≤ 7 → cmp_index1 c ≡ c * 2
cmp_index1-eq c h = omega arith

cmp_index2-eq : (c : ℕ) → c ≤ 7 → cmp_index2 c ≡ c * 2 + 1
cmp_index2-eq c h = omega arith

-- Two different channels of the unit are disjoint.
pub channels-Disjoint : (c c' : ℕ) → c ≤ 7 → c' ≤ 7 → c ≢ c' → Disjoint c c'
channels-Disjoint c c' h h' n =
    let a = cmp_index1-eq c h in
    let a' = cmp_index1-eq c' h' in
    let b = cmp_index2-eq c h in
    let b' = cmp_index2-eq c' h' in
    record {
      cmp11 = λ e. n (omega (arith, e, shadow_cmp1-eq c h, shadow_cmp1-eq c' h'));
      cmp12 = cmp1_ne_cmp2 c c' h h';
      cmp22 = λ e. n (cmp2_inj c c' h h' e);
      unit11 = λ e. n (omega (arith, e, a, a'));
      unit12 = λ e. omega (arith, e, a, b');
      unit22 = λ e. n (omega (arith, e, b, b'));
      reload1 = reload_ne_cmp1 c c' h h';
      reload2 = reload_ne_cmp2 c c' h h';
      shared = (
        λ e. omega (arith, e, shadow_reload-eq c h, shadow_reload-eq c' h'),
        λ e. omega (arith, e, shadow_reload-eq c h, shadow_reload-eq c' h'),
      );
    }

-- The registers of a channel are within the 20 shadow registers and 16 compare units.
pub shadow_cmp2-lt : (c : ℕ) → c ≤ 7 → (shadow_cmp2 c < 20) × (cmp_index2 c < 16)
shadow_cmp2-lt c h = (omega (arith, shadow_cmp2-eq c h), omega (arith, cmp_index2-eq c h))
