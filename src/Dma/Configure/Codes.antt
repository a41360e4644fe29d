-- ===== src/Dma/Configure/Codes.antt =====
-- The configuration that `dma_hpm_dma_configure` makes, field by field: addresses, handshakes, and
-- the codes of the widths and of the burst length.
use hpm_support.Prelude.{
  ℕ, zero, suc, ◌-◌, ◌%◌, ◌^◌, ◌<◌, ◌≤◌, ◌≡◌, ◌≢◌, ◌∙◌, refl, ap, Bool, true, false, none, some,
  arith, ltb, ◌==◌,
}
use hpm_support.Errno.{ok, err, einval}
use hpm_support.Dma.Types.{
  ChConfig, Direction, memory_to_memory, memory_to_peripheral, peripheral_to_memory,
  peripheral_to_peripheral, other, DmaConfig, Hal,
}
use hpm_support.Dma.Configure.{
  width_case, burst_case, within_max, handshakes, get_transfer_width, get_transfer_burst, as_u32,
  make_config,
}

-- Whether a transfer of this direction reads from a peripheral, and whether it writes to one.
abbrev pub from_peripheral : Direction → Bool
from_peripheral memory_to_memory = false
from_peripheral memory_to_peripheral = false
from_peripheral peripheral_to_memory = true
from_peripheral peripheral_to_peripheral = true
from_peripheral other = false

abbrev pub to_peripheral : Direction → Bool
to_peripheral memory_to_memory = false
to_peripheral memory_to_peripheral = true
to_peripheral peripheral_to_memory = false
to_peripheral peripheral_to_peripheral = true
to_peripheral other = false

ne→== : {a b : ℕ} → a ≢ b → (a == b) ≡ false
ne→== h = ground (arith, h)

-- `r` is the 8-bit code of the size `n`, where the sizes are the powers of two below `2 ^ top` and the
-- controller has the codes up to `code_max`. For every other size it is the error code.
pub record CodeOf (code : ℕ → ℕ) (code_max failed top n r : ℕ) : Type 0 where
  pub supported : (k : ℕ) → k < top → n ≡ 2 ^ k → code k ≤ code_max → r ≡ code k % 256
  pub too_large : (k : ℕ) → k < top → n ≡ 2 ^ k → code_max < code k → r ≡ failed % 256
  pub unknown : ((k : ℕ) → k < top → n ≢ 2 ^ k) → r ≡ failed % 256

pub width_case-pow : (k : ℕ) → k < 4 → width_case (2 ^ k) ≡ some k
unfolding width_case
width_case-pow zero l = refl
width_case-pow (suc zero) l = refl
width_case-pow (suc (suc zero)) l = refl
width_case-pow (suc (suc (suc zero))) l = refl
width_case-pow (suc (suc (suc (suc k)))) l = absurd (omega (arith, l))

width_case-none : (n : ℕ) → ((k : ℕ) → k < 4 → n ≢ 2 ^ k) → width_case n ≡ none
unfolding width_case
width_case-none n h =
    let a : n ≢ 1 = h 0 (omega arith) in
    let b : n ≢ 2 = h 1 (omega arith) in
    let c : n ≢ 4 = h 2 (omega arith) in
    let d : n ≢ 8 = h 3 (omega arith) in rw (ne→== a, ne→== b, ne→== c, ne→== d)

pub burst_case-pow : (k : ℕ) → k < 11 → burst_case (2 ^ k) ≡ some k
unfolding burst_case
burst_case-pow zero l = refl
burst_case-pow (suc zero) l = refl
burst_case-pow (suc (suc zero)) l = refl
burst_case-pow (suc (suc (suc zero))) l = refl
burst_case-pow (suc (suc (suc (suc zero)))) l = refl
burst_case-pow (suc (suc (suc (suc (suc zero))))) l = refl
burst_case-pow (suc (suc (suc (suc (suc (suc zero)))))) l = refl
burst_case-pow (suc (suc (suc (suc (suc (suc (suc zero))))))) l = refl
burst_case-pow (suc (suc (suc (suc (suc (suc (suc (suc zero)))))))) l = refl
burst_case-pow (suc (suc (suc (suc (suc (suc (suc (suc (suc zero))))))))) l = refl
burst_case-pow (suc (suc (suc (suc (suc (suc (suc (suc (suc (suc zero)))))))))) l = refl
burst_case-pow (suc (suc (suc (suc (suc (suc (suc (suc (suc (suc (suc k))))))))))) l =
    absurd (omega (arith, l))

burst_case-none : (n : ℕ) → ((k : ℕ) → k < 11 → n ≢ 2 ^ k) → burst_case n ≡ none
unfolding burst_case
burst_case-none n h =
    let e0 : (n == 1) ≡ false = ne→== (h 0 (omega arith)) in
    let e1 : (n == 2) ≡ false = ne→== (h 1 (omega arith)) in
    let e2 : (n == 4) ≡ false = ne→== (h 2 (omega arith)) in
    let e3 : (n == 8) ≡ false = ne→== (h 3 (omega arith)) in
    let e4 : (n == 16) ≡ false = ne→== (h 4 (omega arith)) in
    let e5 : (n == 32) ≡ false = ne→== (h 5 (omega arith)) in
    let e6 : (n == 64) ≡ false = ne→== (h 6 (omega arith)) in
    let e7 : (n == 128) ≡ false = ne→== (h 7 (omega arith)) in
    let e8 : (n == 256) ≡ false = ne→== (h 8 (omega arith)) in
    let e9 : (n == 512) ≡ false = ne→== (h 9 (omega arith)) in
    let e10 : (n == 1024) ≡ false = ne→== (h 10 (omega arith)) in
    rw (e0, e1, e2, e3, e4, e5, e6, e7, e8, e9, e10)

handshakes-peripheral :
    (x : Direction) (modes : Bool × Bool)
    → handshakes x ≡ some modes
    → (modes.0 ≡ from_peripheral x) × (modes.1 ≡ to_peripheral x)
unfolding handshakes
handshakes-peripheral memory_to_memory modes h = (cc, cc)
handshakes-peripheral memory_to_peripheral modes h = (cc, cc)
handshakes-peripheral peripheral_to_memory modes h = (cc, cc)
handshakes-peripheral peripheral_to_peripheral modes h = (cc, cc)
handshakes-peripheral other modes h = cc

within_max-ok : (top code : ℕ) → code ≤ top → within_max top code ≡ ok code
within_max-ok top code h = let b : ltb top code ≡ false = ground (arith, h) in rw b

within_max-err : (top code : ℕ) → top < code → within_max top code ≡ err einval
within_max-err top code h = let b : ltb top code ≡ true = ground (arith, h) in rw b

module _ {Hw : Type 0} (hal : Hal Hw) where
  -- The configuration of a channel for the transfer `c`.
  pub record Programmed (c : DmaConfig) (cfg : ChConfig) : Type 0 where
    pub source : cfg.src_addr ≡ hal.local_to_sys c.source_address
    pub dest : cfg.dst_addr ≡ hal.local_to_sys c.dest_address
    pub source_adj : cfg.src_addr_ctrl ≡ c.source_addr_adj
    pub dest_adj : cfg.dst_addr_ctrl ≡ c.dest_addr_adj
    pub size : cfg.size_in_byte ≡ c.block_size
    pub source_handshake : cfg.src_handshake ≡ from_peripheral c.channel_direction
    pub dest_handshake : cfg.dst_handshake ≡ to_peripheral c.channel_direction
    pub src_width :
        CodeOf hal.width_code hal.width_max
          (2 ^ 32 - hal.einval_code)
          4
          c.source_data_size
          cfg.src_width
    pub dst_width :
        CodeOf hal.width_code hal.width_max
          (2 ^ 32 - hal.einval_code)
          4
          c.dest_data_size
          cfg.dst_width
    pub burst :
        CodeOf hal.burst_code hal.burst_max
          (2 ^ 32 - hal.einval_code)
          11
          c.source_burst_length
          cfg.src_burst_size

  get_transfer_width-some :
      (n k : ℕ)
      → width_case n ≡ some k
      → get_transfer_width hal n ≡ within_max hal.width_max (hal.width_code k)
  unfolding get_transfer_width
  get_transfer_width-some n k w = rw (w, get_transfer_width)

  get_transfer_width-none : (n : ℕ) → width_case n ≡ none → get_transfer_width hal n ≡ err einval
  unfolding get_transfer_width
  get_transfer_width-none n w = rw (w, get_transfer_width)

  get_transfer_width-CodeOf :
      (n : ℕ)
      → CodeOf hal.width_code hal.width_max
          (2 ^ 32 - hal.einval_code)
          4
          n
          (as_u32 hal (get_transfer_width hal n) % 256)
  get_transfer_width-CodeOf n = record {
    supported = λ k l e m.
        ap (λ x. as_u32 hal x % 256)
          (get_transfer_width-some n k (ap width_case e ∙ width_case-pow k l)
            ∙ within_max-ok hal.width_max (hal.width_code k) m);
    too_large = λ k l e m.
        ap (λ x. as_u32 hal x % 256)
          (get_transfer_width-some n k (ap width_case e ∙ width_case-pow k l)
            ∙ within_max-err hal.width_max (hal.width_code k) m);
    unknown = λ h. ap (λ x. as_u32 hal x % 256) (get_transfer_width-none n (width_case-none n h));
  }

  get_transfer_burst-some :
      (n k : ℕ)
      → burst_case n ≡ some k
      → get_transfer_burst hal n ≡ within_max hal.burst_max (hal.burst_code k)
  unfolding get_transfer_burst
  get_transfer_burst-some n k w = rw (w, get_transfer_burst)

  get_transfer_burst-none : (n : ℕ) → burst_case n ≡ none → get_transfer_burst hal n ≡ err einval
  unfolding get_transfer_burst
  get_transfer_burst-none n w = rw (w, get_transfer_burst)

  get_transfer_burst-CodeOf :
      (n : ℕ)
      → CodeOf hal.burst_code hal.burst_max
          (2 ^ 32 - hal.einval_code)
          11
          n
          (as_u32 hal (get_transfer_burst hal n) % 256)
  get_transfer_burst-CodeOf n = record {
    supported = λ k l e m.
        ap (λ x. as_u32 hal x % 256)
          (get_transfer_burst-some n k (ap burst_case e ∙ burst_case-pow k l)
            ∙ within_max-ok hal.burst_max (hal.burst_code k) m);
    too_large = λ k l e m.
        ap (λ x. as_u32 hal x % 256)
          (get_transfer_burst-some n k (ap burst_case e ∙ burst_case-pow k l)
            ∙ within_max-err hal.burst_max (hal.burst_code k) m);
    unknown = λ h. ap (λ x. as_u32 hal x % 256) (get_transfer_burst-none n (burst_case-none n h));
  }

  pub make_config-Programmed :
      (c : DmaConfig) (modes : Bool × Bool)
      → handshakes c.channel_direction ≡ some modes
      → Programmed c (
          make_config hal c modes
            (as_u32 hal (get_transfer_width hal c.source_data_size))
            (as_u32 hal (get_transfer_width hal c.dest_data_size))
            (as_u32 hal (get_transfer_burst hal c.source_burst_length)))
  make_config-Programmed c modes h =
      let p = handshakes-peripheral c.channel_direction modes h in
      record {
        source = refl;
        dest = refl;
        source_adj = refl;
        dest_adj = refl;
        size = refl;
        source_handshake = p.0;
        dest_handshake = p.1;
        src_width = get_transfer_width-CodeOf c.source_data_size;
        dst_width = get_transfer_width-CodeOf c.dest_data_size;
        burst = get_transfer_burst-CodeOf c.source_burst_length;
      }
