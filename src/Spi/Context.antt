-- ===== src/Spi/Context.antt =====
-- What Zephyr documents of the context of a transfer, drivers/spi/spi_context.h there: the parts of
-- each direction that are left, of which the first is the one that the driver sees.
use hpm_support.Prelude.{
  ℕ, ◌+◌, ◌-◌, ◌<◌, ◌≤◌, ◌≡◌, ◌==◌, ltb, false, arith, List, [], ◌∷◌, if◌then◌else◌, Bool-cases,
  inl, inr,
}
use hpm_support.Spi.Hal.{Os}

-- A part: the address of its memory, or 0 for none, and its length
pub record Part : Type 0 where
  pub addr : ℕ
  pub len : ℕ

abbrev pub head_len : List Part → ℕ
head_len [] = 0
head_len (p ∷ ps) = p.len

abbrev pub head_addr : List Part → ℕ
head_addr [] = 0
head_addr (p ∷ ps) = p.addr

abbrev pub size : List Part → ℕ
size [] = 0
size (p ∷ ps) = p.len + size ps

-- No part is empty.
abbrev pub ArePositive : List Part → Type 0
ArePositive [] = Unit
ArePositive (p ∷ ps) = (0 < p.len) × ArePositive ps

-- The parts after `n` bytes of the first; a count beyond its end is refused.
unfoldable pub shift : ℕ → List Part → List Part
shift n [] = []
shift n (p ∷ ps) =
    if ltb p.len n
    then p ∷ ps
    else if p.len == n
    then ps
    else record { addr = if p.addr == 0 then 0 else p.addr + n; len = p.len - n } ∷ ps

pub record CtxLaws {BufSet Ctx Hw : Type 0} (os : Os BufSet Ctx Hw) (tx rx : Ctx → List Part)
    : Type 0 where
  pub tx_len_lem : (c : Ctx) → os.tx_len c ≡ head_len (tx c)
  pub rx_len_lem : (c : Ctx) → os.rx_len c ≡ head_len (rx c)
  pub update_tx_tx : (n : ℕ) (c : Ctx) → tx (os.update_tx 1 n c) ≡ shift n (tx c)
  pub update_tx_rx : (n : ℕ) (c : Ctx) → rx (os.update_tx 1 n c) ≡ rx c
  pub update_rx_tx : (n : ℕ) (c : Ctx) → tx (os.update_rx 1 n c) ≡ tx c
  pub update_rx_rx : (n : ℕ) (c : Ctx) → rx (os.update_rx 1 n c) ≡ shift n (rx c)

-- A count within the first part takes as much off the whole.
pub size-shift : (n : ℕ) (ps : List Part) → n ≤ head_len ps → size (shift n ps) + n ≡ size ps
unfolding shift
size-shift n [] h = omega arith
size-shift n (p ∷ ps) h =
    let rest = size ps in
    elim (Bool-cases (p.len == n)) [
      | inl e ↦
          let a : ltb p.len n ≡ false = ground arith in
          let b : rest + n ≡ p.len + rest = ground (arith, e) in rw (a, e) b
      | inr e ↦
          let a : ltb p.len n ≡ false = ground (arith, h) in
          let b : p.len - n + rest + n ≡ p.len + rest = omega (arith, h) in rw (a, e) b
    ]

-- What is left of parts that are not empty is not empty.
pub shift-ArePositive : (n : ℕ) (ps : List Part) → ArePositive ps → ArePositive (shift n ps)
unfolding shift
shift-ArePositive n [] h = tt
shift-ArePositive n (p ∷ ps) h = elim (Bool-cases (ltb p.len n)) [
  | inl a ↦ rw a h
  | inr a ↦ elim (Bool-cases (p.len == n)) [
    | inl e ↦ rw (a, e) h.1
    | inr e ↦ let pos : 0 < p.len - n = ground (arith, a, e) in rw (a, e) (pos, h.1)
  ]
]
