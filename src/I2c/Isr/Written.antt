-- ===== src/I2c/Isr/Written.antt =====
-- The data of a controller's transfer in drivers/i2c/i2c_hpmicro.c.
use mathlib.Core.List.{append-nil, append_assoc}
use hpm_support.Prelude.{
  ℕ, zero, suc, ◌+◌, ◌-◌, ◌<◌, ◌≡◌, ◌∙◌, refl, sym, ap, true, false, none, some, List, [], ◌∷◌,
  ◌++◌, arith, ◌==◌, lt→ltb, bytes_at, min, ◌≢◌, Bool-cases, inl, inr,
}
use hpm_support.I2c.Types.{Event, Events, fifo_empty, addrhit, Dev}
use hpm_support.I2c.Hal.{Hal, App, Os}
use hpm_support.I2c.Transfer.{is_not_addrhit}
use hpm_support.I2c.Isr.{fill_fifo, transmit_by, transmit_phase, next, put_index}

-- The FIFO takes bytes while it has room, and keeps their order; `sent` are the bytes written so far.
pub record FifoLaws {Hw : Type 0} (hal : Hal Hw) (room : Hw → ℕ) (sent : Hw → List ℕ) : Type 0 where
  pub full_lem : (hw : Hw) → hal.fifo_is_full hw ≡ (room hw == 0)
  pub room_lem : (v : ℕ) (hw : Hw) → room (hal.write_byte v hw) ≡ room hw - 1
  pub sent_lem : (v : ℕ) (hw : Hw) → sent (hal.write_byte v hw) ≡ sent hw ++ (v ∷ [])
  pub irq_lem : (es : List Event) (hw : Hw) → sent (hal.disable_irq es hw) ≡ sent hw

-- From `d` to `d'` the next `k` bytes of the message have been written, and nothing else of the
-- transfer has changed.
pub record Writes {Hw : Type 0} (sent : Hw → List ℕ) (k : ℕ) (d d' : Dev Hw) : Type 0 where
  pub bytes :
      sent d'.hw ≡ sent d.hw ++ bytes_at d.mem (d.transfer.curr_buf + d.transfer.curr_index) k
  pub transfer : d'.transfer ≡ record (d.transfer) { curr_index = d.transfer.curr_index + k }

module _ {Hw : Type 0} (hal : Hal Hw) (app : App) (os : Os Hw) where
  fill_fifo-Writes :
      (room : Hw → ℕ) (sent : Hw → List ℕ) (n k : ℕ) (d : Dev Hw)
      → FifoLaws hal room sent
      → k ≡ min (d.transfer.curr_len - d.transfer.curr_index) (room d.hw)
      → k < n
      → d.transfer.curr_index < d.transfer.curr_len
      → d.transfer.curr_len < 4294967296
      → (d' : Dev Hw) × (fill_fifo hal app os n d ≡ some d') × Writes sent k d d'
  unfolding fill_fifo
  fill_fifo-Writes room sent zero k d laws e l i b = absurd (omega (arith, l))
  fill_fifo-Writes room sent (suc n) zero d laws e l i b =
      let r : room d.hw ≡ 0 = omega (arith, e, i) in
      let f : hal.fifo_is_full d.hw ≡ true = laws.full_lem d.hw ∙ rw r refl in
      let z : d.transfer.curr_index + 0 ≡ d.transfer.curr_index = omega arith in
      (d, rw f refl, record { bytes = sym (append-nil (sent d.hw)); transfer = rw z refl })
  fill_fifo-Writes room sent (suc n) (suc k) d laws e l i b =
      let t = d.transfer in
      let v = d.mem (t.curr_buf + t.curr_index) in
      let hw' = hal.write_byte v d.hw in
      let p : next t.curr_index ≡ t.curr_index + 1 = omega (arith, i, b) in
      let f : hal.fifo_is_full d.hw ≡ false = laws.full_lem d.hw ∙ ground (arith, e) in
      let w : Dev Hw = record (put_index (next t.curr_index) d) { hw = hw' } in
      elim (Bool-cases (next t.curr_index == t.curr_len)) [
        | inl q ↦
            let u : next t.curr_index ≡ t.curr_len = ground (arith, q) in
            let z : k ≡ 0 = omega (arith, e, u, p) in
            (
              record w { hw = hal.disable_irq (fifo_empty ∷ []) hw' },
              rw (f, q) refl,
              record {
                bytes = laws.irq_lem (fifo_empty ∷ []) hw' ∙ laws.sent_lem v d.hw ∙ rw z refl;
                transfer = rw (z, p) refl;
              },
            )
        | inr q ↦
            let u : next t.curr_index ≢ t.curr_len = ground (arith, q) in
            let m : k ≡ min (t.curr_len - next t.curr_index) (room hw') =
              omega (arith, e, p, laws.room_lem v d.hw) in
            let j : next t.curr_index < t.curr_len = ground (arith, i, p, u) in
            let (d', x, y) = fill_fifo-Writes room sent n k w laws m (omega (arith, l)) j b in
            let g : t.curr_buf + next t.curr_index ≡ t.curr_buf + t.curr_index + 1 =
              omega (arith, p) in
            let z : next t.curr_index + k ≡ t.curr_index + suc k = omega (arith, p) in
            (
              d',
              rw (f, q) x,
              record {
                bytes =
                    y.bytes
                    ∙ rw (laws.sent_lem v d.hw, g)
                        (append_assoc (sent d.hw) (v ∷ [])
                          (bytes_at d.mem (t.curr_buf + t.curr_index + 1) k));
                transfer = y.transfer ∙ rw z refl;
              },
            )
      ]

  -- While the FIFO has asked for bytes of a controller's message and some are left, the interrupt
  -- writes the next ones in order, as many as the FIFO has room for, and counts them. As many rounds
  -- as there is room, and one, are enough.
  pub transmit_phase-Writes :
      (room : Hw → ℕ) (sent : Hw → List ℕ) (status irq : Events) (d : Dev Hw)
      → FifoLaws hal room sent
      → d.slave ≡ none
      → status.fifo_empty ≡ true
      → irq.fifo_empty ≡ true
      → d.transfer.status ≡ addrhit
      → d.transfer.curr_index < d.transfer.curr_len
      → d.transfer.curr_len < 4294967296
      → (d' : Dev Hw) × (transmit_phase hal app os (suc (room d.hw)) status irq d ≡ some d')
        × Writes sent (min (d.transfer.curr_len - d.transfer.curr_index) (room d.hw)) d d'
  unfolding transmit_phase transmit_by
  transmit_phase-Writes room sent status irq d laws s f g h i b =
      let k = min (d.transfer.curr_len - d.transfer.curr_index) (room d.hw) in
      let (d', x, y) =
        fill_fifo-Writes room sent (suc (room d.hw)) k d laws refl (omega arith) i b in
      let t = lt→ltb 0 d.transfer.curr_len (omega (arith, i)) in
      let n = ap (λ c. is_not_addrhit c) h in (d', simp (s, f, g, t, n) x, y)
