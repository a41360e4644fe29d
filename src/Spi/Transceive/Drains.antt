-- ===== src/Spi/Transceive/Drains.antt =====
-- The loop of transceive_dma on a controller on which everything succeeds.
use mathlib.Core.Option
use mathlib.Core.Path.{subst}
use hpm_support.Prelude.{
  ℕ, zero, suc, ◌+◌, ◌<◌, ◌≤◌, ◌≡◌, ◌==◌, ◌∙◌, refl, ap, sym, arith, min, Bool, true, false, ◌&&◌,
  ◌||◌, Option, some, List, [], ◌∷◌, Bool-cases, inl, inr,
}
use hpm_support.Errno.{Status, success, ok, err}
use hpm_support.Spi.Types.{
  TransMode, read_only, write_only, write_read_together, other_mode, Control, Stream, Dev,
}
use hpm_support.Spi.Hal.{Os, Hal}
use hpm_support.Spi.Context.{
  Part, head_len, size, shift, CtxLaws, size-shift, ArePositive, shift-ArePositive,
}
use hpm_support.Spi.Config.{on_ctx, bind, keep}
use hpm_support.Spi.Packet.{Packet, packet_of, packet_at}
use hpm_support.Spi.Dma.{no_flags, waited, ended_or, dma_tx_load, dma_rx_load, wait_dma_rx_tx_done}
use hpm_support.Spi.Transceive.{
  start_tx, start_rx, load_tx, load_rx, start_streams, dma_round, dma_loop, wait_idle, packet_done,
  after_start, after_wait, control_after,
}

-- A packet is within the sizes it is made for, and not empty unless both are.
packet_of-tx : (t r : ℕ) → Packet.tx_size (packet_of t r) ≤ t
unfolding packet_of
packet_of-tx t r = ground arith

packet_of-rx : (t r : ℕ) → Packet.rx_size (packet_of t r) ≤ r
unfolding packet_of
packet_of-rx t r = ground arith

packet_of-positive :
    (t r : ℕ) → 0 < t + r → 0 < Packet.tx_size (packet_of t r) + Packet.rx_size (packet_of t r)
unfolding packet_of
packet_of-positive t r h = ground (arith, h)

-- Every call succeeds, a wait ends with the flag of one of the two streams set, either one, and the lists of parts as they were, and the unit
-- is idle.
pub record Succeeds {BufSet Ctx Hw : Type 0} (os : Os BufSet Ctx Hw) (hal : Hal Hw)
    (tx rx : Ctx → List Part) : Type 0 where
  pub config_ok : (s : Stream) (hw : Hw) → (hal.dma_config s hw).0 ≡ success
  pub start_ok : (n : ℕ) (hw : Hw) → (hal.dma_start n hw).0 ≡ success
  pub setup_ok : (c : Control) (t r : ℕ) (hw : Hw) → (hal.setup_dma_transfer c t r hw).0 ≡ true
  pub wait_ok : (d : Dev Ctx Hw) → (os.wait_for_completion d).0 ≡ success
  pub wait_error : (d : Dev Ctx Hw) → (os.wait_for_completion d).1.status_flags.error ≡ false
  pub wait_done :
      (d : Dev Ctx Hw)
      → let f = (os.wait_for_completion d).1.status_flags in (f.rx_done || f.tx_done) ≡ true
  pub wait_parts :
      (d : Dev Ctx Hw)
      → (tx (os.wait_for_completion d).1.ctx ≡ tx d.ctx)
        × (rx (os.wait_for_completion d).1.ctx ≡ rx d.ctx)
  pub idle_ok : (hw : Hw) → (hal.is_active hw).0 ≡ false
  pub max_positive : 0 < hal.transfer_count_max

module _ {BufSet Ctx Hw : Type 0} (os : Os BufSet Ctx Hw) (hal : Hal Hw) (dma : Bool)
    (tx rx : Ctx → List Part) (laws : CtxLaws os tx rx) (good : Succeeds os hal tx rx) where
  bind-ok :
      (r : Status × Dev Ctx Hw) (f : Dev Ctx Hw → Status × Dev Ctx Hw)
      → r.0 ≡ success
      → bind r f ≡ f r.1
  bind-ok (ok u, d) f h = refl
  bind-ok (err e, d) f h = cc

  ok-pair : (r : Status × Dev Ctx Hw) → r.0 ≡ success → r ≡ (success, r.1)
  ok-pair r h = ap (λ (s : Status). (s, r.1)) h

  -- The streams start, in the same context.
  Starts : Packet → Dev Ctx Hw → Type 0
  Starts p d = (e : Dev Ctx Hw) × (start_streams os hal dma p d ≡ (success, e)) × (e.ctx ≡ d.ctx)

  both-Starts :
      (t r : ℕ) (d : Dev Ctx Hw)
      → (e : Dev Ctx Hw) × (bind (load_rx os hal dma r d) (λ x.
            bind (load_tx os hal dma t x) (λ y. bind (start_tx os hal dma y) (start_rx os hal dma)))
          ≡ (success, e))
        × (e.ctx ≡ d.ctx)
  unfolding dma_tx_load dma_rx_load
  both-Starts t r d =
      let a = load_rx os hal dma r d in
      let b = load_tx os hal dma t a.1 in
      let c = start_tx os hal dma b.1 in
      let e = start_rx os hal dma c.1 in
      (
        e.1,
        bind-ok a
              (λ x.
                bind (load_tx os hal dma t x)
                  (λ y. bind (start_tx os hal dma y) (start_rx os hal dma)))
              (good.config_ok _ _)
            ∙ bind-ok b (λ y. bind (start_tx os hal dma y) (start_rx os hal dma))
                (good.config_ok _ _)
            ∙ bind-ok c (start_rx os hal dma) (good.start_ok _ _)
            ∙ ok-pair e (good.start_ok _ _),
        refl,
      )

  start_streams-ok :
      (m : TransMode) (t r : ℕ) (d : Dev Ctx Hw)
      → Starts (record { mode = m; tx_size = t; rx_size = r }) d
  unfolding Starts start_streams dma_tx_load dma_rx_load
  start_streams-ok read_only t r d =
      let a = load_rx os hal dma r d in
      let e = start_rx os hal dma a.1 in
      (
        e.1,
        bind-ok a (start_rx os hal dma) (good.config_ok _ _) ∙ ok-pair e (good.start_ok _ _),
        refl,
      )
  start_streams-ok write_only t r d =
      let a = load_tx os hal dma t d in
      let e = start_tx os hal dma a.1 in
      (
        e.1,
        bind-ok a (start_tx os hal dma) (good.config_ok _ _) ∙ ok-pair e (good.start_ok _ _),
        refl,
      )
  start_streams-ok write_read_together t r d = both-Starts t r d
  start_streams-ok other_mode t r d = both-Starts t r d

  -- A round goes on with the parts shifted by the packet.
  Advances : Packet → Dev Ctx Hw → Option (Bool × Status × Dev Ctx Hw) → Type 0
  Advances p d o =
      (r : Dev Ctx Hw) × (o ≡ some (true, success, r))
      × (tx r.ctx ≡ shift p.tx_size (tx d.ctx))
      × (rx r.ctx ≡ shift p.rx_size (rx d.ctx))

  after_wait-Advances :
      (f : ℕ) (p : Packet) (d w : Dev Ctx Hw)
      → tx w.ctx ≡ tx d.ctx
      → rx w.ctx ≡ rx d.ctx
      → Advances p d (after_wait os hal dma (suc f) p (success, w))
  unfolding Advances wait_idle
  after_wait-Advances f p d w ht hr =
      let i = (keep (hal.is_active w.hw) w).1 in
      let c = i.ctx in
      (
        packet_done os hal dma p i,
        rw (good.idle_ok w.hw) refl,
        laws.update_rx_tx p.rx_size (os.update_tx 1 p.tx_size c)
            ∙ laws.update_tx_tx p.tx_size c
            ∙ ap (shift p.tx_size) ht,
        laws.update_rx_rx p.rx_size (os.update_tx 1 p.tx_size c)
            ∙ ap (shift p.rx_size) (laws.update_tx_rx p.tx_size c ∙ hr),
      )

  waited-ok :
      (r : Status × Dev Ctx Hw)
      → r.0 ≡ success
      → r.1.status_flags.error ≡ false
      → (r.1.status_flags.rx_done || r.1.status_flags.tx_done) ≡ true
      → waited os hal r ≡ some (success, r.1)
  waited-ok (ok u, d) h e x = rw (e, x) refl
  waited-ok (err c, d) h e x = cc

  wait-done :
      (f : ℕ) (d : Dev Ctx Hw)
      → wait_dma_rx_tx_done os hal (suc f) d ≡ some (success, (os.wait_for_completion d).1)
  unfolding wait_dma_rx_tx_done
  wait-done f d =
      let r = os.wait_for_completion d in
      ap (λ o. ended_or o (wait_dma_rx_tx_done os hal f r.1))
        (waited-ok r (good.wait_ok d) (good.wait_error d) (good.wait_done d))

  dma_round-Advances :
      (f : ℕ) (c : Control) (d : Dev Ctx Hw)
      → Advances (packet_at os hal d.ctx) d (dma_round os hal dma (suc f) c d)
  unfolding dma_round Starts Option.bind
  dma_round-Advances f c d =
      let p = packet_at os hal d.ctx in
      let (e, h, x) =
        start_streams-ok p.mode p.tx_size p.rx_size (record d { status_flags = no_flags }) in
      let s = (keep (hal.setup_dma_transfer c p.tx_size p.rx_size e.hw) e).1 in
      let w = (os.wait_for_completion s).1 in
      let parts = good.wait_parts s in
      let a = after_wait-Advances f p d w (parts.0 ∙ ap tx x) (parts.1 ∙ ap rx x) in
      let q : after_start os hal dma (suc f) p c (success, e)
          ≡ after_wait os hal dma (suc f) p (success, w) =
        rw (good.setup_ok c p.tx_size p.rx_size e.hw, wait-done f s) refl in
      subst (Advances p d) (sym (ap (after_start os hal dma (suc f) p c) h ∙ q)) a

  -- No part is left when the first has no byte.
  no_part : (ps : List Part) → ArePositive ps → head_len ps ≡ 0 → ps ≡ []
  no_part [] a h = refl
  no_part (p ∷ ps) a h = absurd (omega (arith, a.0, h))

  -- A round takes something off the parts.
  round-lt :
      (d r : Dev Ctx Hw)
      → ((os.rx_len d.ctx == 0) && (os.tx_len d.ctx == 0)) ≡ false
      → tx r.ctx ≡ shift (Packet.tx_size (packet_at os hal d.ctx)) (tx d.ctx)
      → rx r.ctx ≡ shift (Packet.rx_size (packet_at os hal d.ctx)) (rx d.ctx)
      → size (tx r.ctx) + size (rx r.ctx) < size (tx d.ctx) + size (rx d.ctx)
  round-lt d r h ht hr =
      let m = hal.transfer_count_max in
      let t = min (os.tx_len d.ctx) m in
      let u = min (os.rx_len d.ctx) m in
      let some_left : 0 < os.tx_len d.ctx + os.rx_len d.ctx = ground (arith, h) in
      let pos : 0 < t + u = omega (arith, some_left, good.max_positive) in
      let a = packet_of-positive t u pos in
      let bt : Packet.tx_size (packet_of t u) ≤ head_len (tx d.ctx) =
        omega (arith, packet_of-tx t u, laws.tx_len_lem d.ctx) in
      let br : Packet.rx_size (packet_of t u) ≤ head_len (rx d.ctx) =
        omega (arith, packet_of-rx t u, laws.rx_len_lem d.ctx) in
      let st = size-shift (Packet.tx_size (packet_of t u)) (tx d.ctx) bt in
      let sr = size-shift (Packet.rx_size (packet_of t u)) (rx d.ctx) br in
      rw (ht, hr) (omega (arith, st, sr, a))

  -- When every call succeeds and each wait ends with the flag of one stream or the other, the loop on parts that are not empty ends with success
  -- and with no part left in either direction, and takes the chip select back; more rounds than there
  -- are bytes in the two directions are enough, with one round for each of its waits.
  pub dma_loop-drains :
      (f n : ℕ) (c : Control) (d : Dev Ctx Hw)
      → ArePositive (tx d.ctx)
      → ArePositive (rx d.ctx)
      → size (tx d.ctx) + size (rx d.ctx) < n
      → (r : Dev Ctx Hw) × (dma_loop os hal dma (suc f) n c d
          ≡ some (success, on_ctx (os.cs_control false) r))
        × (tx r.ctx ≡ [])
        × (rx r.ctx ≡ [])
  unfolding dma_loop Advances Option.bind
  dma_loop-drains f zero c d pt pr l = absurd (omega (arith, l))
  dma_loop-drains f (suc n) c d pt pr l =
      let k = control_after os hal dma c d in
      let (r, x, ht, hr) = dma_round-Advances f k d in
      elim (Bool-cases ((os.rx_len d.ctx == 0) && (os.tx_len d.ctx == 0))) [
        | inl h ↦
            let t0 : os.tx_len d.ctx ≡ 0 = ground (arith, h) in
            let r0 : os.rx_len d.ctx ≡ 0 = ground (arith, h) in
            (
              d,
              rw h refl,
              no_part (tx d.ctx) pt (sym (laws.tx_len_lem d.ctx) ∙ t0),
              no_part (rx d.ctx) pr (sym (laws.rx_len_lem d.ctx) ∙ r0),
            )
        | inr h ↦
            let p = packet_at os hal d.ctx in
            let qt = subst ArePositive (sym ht) (shift-ArePositive p.tx_size (tx d.ctx) pt) in
            let qr = subst ArePositive (sym hr) (shift-ArePositive p.rx_size (rx d.ctx) pr) in
            let (e, y, z, w) =
              dma_loop-drains f n k r qt qr (omega (arith, round-lt d r h ht hr, l)) in
            (e, rw (h, x) y, z, w)
      ]
