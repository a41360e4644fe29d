-- ===== src/Dma/Configure/Faults.antt =====
-- What `dma_hpm_dma_configure` lets through, and where it stops half way.
use native.Mathlib.Decide.{dec_lt}
use hpm_support.Prelude.{
  ℕ, ◌-◌, ◌%◌, ◌^◌, ◌≤◌, ◌<◌, ◌≡◌, ◌≢◌, sym, ◌↔◌, ◌∙◌, refl, ap, Bool, true, false, none, some,
  arith, ltb, length, get_elem?, if◌then◌else◌, get_elem?-set_self, get_elem?-some, get_elem?-lt,
  get_elem?-ge, Bool-cases, inl, inr,
}
use hpm_support.Errno.{err, Status, success, einval, efault}
use hpm_support.Dma.Types.{DmaConfig, Channel, Dev, Hal, put_channel}
use hpm_support.Dma.Configure.{width_case, handshakes, prepare, configure_channel, configure}
use hpm_support.Dma.Configure.Codes.{width_case-pow}
use hpm_support.Dma.Configure.Outcome.{configure-Configured}

status-ne-einval :
    (b : Bool) (s : Status) → s ≡ (if b then success else err efault) → s ≢ err einval
status-ne-einval true s e h = cc
status-ne-einval false s e h = cc

module _ {Hw : Type 0} (hal : Hal Hw) where
  width_case-ne : (n k : ℕ) → width_case n ≡ none → k < 4 → n ≢ 2 ^ k
  width_case-ne n k w l q =
      let e : none ≡ some k = sym w ∙ ap width_case q ∙ width_case-pow k l in cc

  -- A width that the controller has no code for is not refused: the error code itself, as an
  -- unsigned word cut to the 8 bits of the field, is stored as the width of the source, and the channel is marked valid.
  pub configure-unsupported_width :
      (i : ℕ) (c : DmaConfig) (modes : Bool × Bool) (ch : Channel) (d : Dev Hw)
      → get_elem? d.data_cb i ≡ some ch
      → c.dma_slot ≤ hal.dma_requests
      → handshakes c.channel_direction ≡ some modes
      → width_case c.source_data_size ≡ none
      → (r : Status × Dev Hw) × (ch' : Channel) × (configure hal i (some c) d ≡ some r)
        × (r.0 ≢ err einval)
        × (get_elem? r.1.data_cb i ≡ some ch')
        × (ch'.valid ≡ true)
        × (ch'.ch_config.src_width ≡ (2 ^ 32 - hal.einval_code) % 256)
  configure-unsupported_width i c modes ch d e slot dir w =
      let (cfg, r, run, p, st, done) = configure-Configured hal i c modes ch d e slot dir in
      let (ch', at, stored, inst) = done.stored in
      (
        r,
        ch',
        run,
        status-ne-einval _ _ st,
        at,
        stored.valid,
        ap (λ x. x.src_width) stored.config
            ∙ p.src_width.unknown (λ k l q. width_case-ne c.source_data_size k w l q),
      )

  -- A direction that the driver does not name is refused after the interrupts have been locked: the
  -- call returns -EINVAL with the interrupts still locked, and the channel is no longer valid.
  pub configure-other_direction :
      (i : ℕ) (c : DmaConfig) (ch : Channel) (d : Dev Hw)
      → get_elem? d.data_cb i ≡ some ch
      → c.dma_slot ≤ hal.dma_requests
      → handshakes c.channel_direction ≡ none
      → (d' : Dev Hw) × (configure hal i (some c) d ≡ some (err einval, d'))
        × (d'.irq_locked ≡ true)
        × (get_elem? d'.data_cb i
            ≡ some (record ch { valid = false; direction = c.channel_direction }))
  unfolding configure configure_channel
  configure-other_direction i c ch d e slot dir =
      let a : ltb hal.dma_requests c.dma_slot ≡ false = ground arith in
      let b : ltb (length d.data_cb) i ≡ false = ground (arith, get_elem?-lt d.data_cb i e) in
      let ch' = record ch { valid = false; direction = c.channel_direction } in
      (
        put_channel i ch'
            (record d { irq_locked = true; hw = prepare hal i c.dma_slot ch.busy d.hw }),
        rw (a, b, e, dir, configure_channel) refl,
        refl,
        get_elem?-set_self d.data_cb i ch' (get_elem?-lt d.data_cb i e),
      )

  configure_inside :
      (i : ℕ) (c : DmaConfig) (d : Dev Hw)
      → configure hal i (some c) d ≡ none
      → (c.dma_slot ≤ hal.dma_requests) × (length d.data_cb ≤ i) × (i ≤ length d.data_cb)
  unfolding configure
  configure_inside i c d h = elim (Bool-cases (ltb hal.dma_requests c.dma_slot)) [
    | inl t ↦ cc (rw t at h)
    | inr f ↦ elim (Bool-cases (ltb (length d.data_cb) i)) [
      | inl t ↦ cc (rw (f, t) at h)
      | inr g ↦ elim (dec_lt i (length d.data_cb)) [
        | yes l ↦ let (ch, e) = get_elem?-some d.data_cb i l in cc (rw (f, g, e) at h)
        | no n ↦ (ground arith, omega arith, ground arith)
      ]
    ]
  ]

  configure_edge :
      (i : ℕ) (c : DmaConfig) (d : Dev Hw)
      → c.dma_slot ≤ hal.dma_requests
      → i ≡ length d.data_cb
      → configure hal i (some c) d ≡ none
  unfolding configure
  configure_edge i c d slot e =
      let a : ltb hal.dma_requests c.dma_slot ≡ false = ground arith in
      let b : ltb (length d.data_cb) i ≡ false = ground arith in
      rw (a, b, get_elem?-ge d.data_cb i (omega arith))

  -- The call leaves the array of channels exactly when the request is in range and the channel
  -- number is the number of channels, which the bounds check lets through.
  pub configure-none :
      (i : ℕ) (c : DmaConfig) (d : Dev Hw)
      → (configure hal i (some c) d ≡ none)
        ↔ ((c.dma_slot ≤ hal.dma_requests) × (i ≡ length d.data_cb))
  configure-none i c d = (
    λ h. let (a, b, e) = configure_inside i c d h in (a, omega arith),
    λ h. configure_edge i c d h.0 h.1,
  )
