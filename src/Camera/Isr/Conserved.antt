-- ===== src/Camera/Isr/Conserved.antt =====
-- The buffers over hpmicro_cam_isr.
use mathlib.Core.Option
use hpm_support.Prelude.{
  ℕ, suc, ◌+◌, ◌<◌, ◌≡◌, ◌==◌, ◌∙◌, refl, ap, sym, arith, inl, inr, Option, none, some, List, [],
  ◌∷◌, ◌++◌, length, if◌then◌else◌, if_ind, Option-cases,
}
use hpm_support.Camera.Types.{
  Vbuf, Outcome, buf_error, Cause, start_of_frame, fb1_done, fb2_done, Dev,
}
use hpm_support.Camera.Hal.{Os, Hal, Config}
use hpm_support.Camera.Isr.{
  on_hw, cam_addr, unless_own, frame_starts, hand_out, invalidate, raise, frame_done, release,
  transfer_done, transfers, isr,
}
use hpm_support.Camera.Isr.Rounds.{
  FifoLaws, weight, weight-append, list_of, Looked, match_buffer-Found, search_next-Looked,
}

-- How often a list holds the buffer `k`
abbrev pub is_id : ℕ → ℕ → ℕ
is_id k i = if k == i then 1 else 0

abbrev pub count : ℕ → List Vbuf → ℕ
count k vs = weight (is_id k) vs

length-weight : (vs : List Vbuf) → length vs ≡ weight (λ i. 1) vs
length-weight [] = refl
length-weight (v ∷ vs) = omega (arith, length-weight vs)

module _ {Fifo Hw : Type 0} (os : Os Fifo Hw) (hal : Hal Hw) (cfg : Config)
    (items : Fifo → List Vbuf) (laws : FifoLaws os items) where
  -- The buffers in the two FIFOs
  abbrev pub held : (ℕ → ℕ) → Dev Fifo Hw → ℕ
  held w d = weight w (items d.fifo_in) + weight w (items d.fifo_out)

  abbrev Keeps : (ℕ → ℕ) → Dev Fifo Hw → Option (Dev Fifo Hw) → Type 0
  Keeps w d o = (r : Dev Fifo Hw) × (o ≡ some r) × (held w r ≡ held w d)

  raise-held :
      (w : ℕ → ℕ) (r : Outcome) (d : Dev Fifo Hw) → held w (raise os hal cfg r d) ≡ held w d
  unfolding raise
  raise-held w r d = elim (Option-cases d.signal) [
    | inl e ↦ rw e refl
    | inr (s, e) ↦ rw e (if_ind (λ (x : Dev Fifo Hw). held w x ≡ held w d) cfg.poll refl refl)
  ]

  hand_out-held :
      (w : ℕ → ℕ) (o : Option Vbuf) (d : Dev Fifo Hw)
      → held w (hand_out os hal cfg o d) ≡ weight w (list_of o) + held w d
  unfolding hand_out
  hand_out-held w none d = omega arith
  hand_out-held w (some v) d =
      let s = record v { timestamp = os.uptime_32 d.hw } in
      let c = invalidate os hal cfg s d in
      let i : c.fifo_in ≡ d.fifo_in =
        if_ind (λ (x : Dev Fifo Hw). x.fifo_in ≡ d.fifo_in) (hal.dc_is_enabled d.hw) refl refl in
      let o : c.fifo_out ≡ d.fifo_out =
        if_ind (λ (x : Dev Fifo Hw). x.fifo_out ≡ d.fifo_out) (hal.dc_is_enabled d.hw) refl refl in
      let a : weight w (items c.fifo_in) ≡ weight w (items d.fifo_in) =
        ap (λ q. weight w (items q)) i in
      let b : weight w (items (os.fifo_put s c.fifo_out))
          ≡ weight w (items d.fifo_out ++ (s ∷ [])) =
        ap (weight w) (laws.put_items s c.fifo_out ∙ ap (λ q. items q ++ (s ∷ [])) o) in
      omega (arith, a, b, weight-append w (items d.fifo_out) (s ∷ []))

  release-held :
      (w : ℕ → ℕ) (o : Option Vbuf) (d : Dev Fifo Hw) → held w (release os hal cfg o d) ≡ held w d
  release-held w none d = refl
  release-held w (some b) d = refl

  frame_done-Keeps :
      (w : ℕ → ℕ) (n addr : ℕ) (d : Dev Fifo Hw)
      → length (items d.fifo_in) < n
      → Keeps w d (frame_done os hal cfg (suc n) addr d)
  unfolding frame_done
  frame_done-Keeps w n addr d l =
      let (v, q, x, y) = match_buffer-Found os hal cfg items laws w n addr d l in
      let m : Dev Fifo Hw = record d { fifo_in = q } in
      let h = hand_out os hal cfg v m in
      (
        raise os hal cfg buf_error h,
        rw x refl,
        raise-held w buf_error h ∙ hand_out-held w v m ∙ omega (arith, y),
      )

  transfer_done-Keeps :
      (w : ℕ → ℕ) (n : ℕ) (cause : Cause) (addr index : ℕ) (d : Dev Fifo Hw)
      → length (items d.fifo_in) < n
      → Keeps w d (transfer_done os hal cfg (suc n) cause addr index d)
  unfolding transfer_done
  transfer_done-Keeps w n cause addr index d l =
      let c = on_hw os hal cfg (hal.clear_status cause) d in
      if_ind (Keeps w d) (cam_addr os hal cfg c.cam_buffer c.hw == addr)
        (release os hal cfg c.cam_buffer c, refl, release-held w c.cam_buffer c)
        (frame_done-Keeps w n addr (record c { cam_dmafb_index = index }) l)

  transfers-Keeps :
      (w : ℕ → ℕ) (n : ℕ) (d : Dev Fifo Hw)
      → length (items d.fifo_in) < n
      → Keeps w d (transfers os hal cfg (suc n) d)
  unfolding transfers
  transfers-Keeps w n d l =
      if_ind (Keeps w d) (hal.is_raised fb1_done d.hw)
        (transfer_done-Keeps w n fb1_done (hal.dmasa_fb1 (hal.clear_status fb1_done d.hw)) 0 d l)
        (if_ind (Keeps w d) (hal.is_raised fb2_done d.hw)
          (transfer_done-Keeps w n fb2_done (hal.dmasa_fb2 (hal.clear_status fb2_done d.hw)) 1 d l)
          (frame_done-Keeps w n 0 d l))

  unless_own-Looked :
      (w : ℕ → ℕ) (n : ℕ) (o : Option Vbuf) (d : Dev Fifo Hw)
      → length (items d.fifo_in) < n
      → Looked os hal cfg items laws w d (unless_own os hal cfg o (suc n) d)
  unless_own-Looked w n none d l = search_next-Looked os hal cfg items laws w n d l
  unless_own-Looked w n (some b) d l = (d.fifo_in, d.hw, refl, refl)

  frame_starts-Looked :
      (w : ℕ → ℕ) (n : ℕ) (d : Dev Fifo Hw)
      → length (items d.fifo_in) < n
      → Looked os hal cfg items laws w d (frame_starts os hal cfg (suc n) d)
  unfolding frame_starts
  frame_starts-Looked w n d l =
      let c = on_hw os hal cfg (hal.clear_status start_of_frame) d in
      if_ind (Looked os hal cfg items laws w d) (hal.is_raised start_of_frame d.hw)
        (unless_own-Looked w n d.cam_buffer c l) (d.fifo_in, d.hw, refl, refl)

  abbrev left : Option (Dev Fifo Hw) → ℕ
  left none = 0
  left (some d) = length (items d.fifo_in)

  -- The interrupt handler ends, and no buffer is lost or duplicated: whatever the causes, each buffer
  -- is as often in the two FIFOs as before. Two rounds more than there are waiting buffers
  -- are enough for each of its loops.
  pub isr-conserves :
      (k n : ℕ) (d : Dev Fifo Hw)
      → length (items d.fifo_in) < n
      → (r : Dev Fifo Hw) × (isr os hal cfg (suc n) d ≡ some r)
        × (count k (items r.fifo_in) + count k (items r.fifo_out)
            ≡ count k (items d.fifo_in) + count k (items d.fifo_out))
  unfolding isr Option.bind
  isr-conserves k n d l =
      let (q, hw, x, y) = frame_starts-Looked (is_id k) n d l in
      let (p, _, u, v) = frame_starts-Looked (λ i. 1) n d l in
      let m : Dev Fifo Hw = record d { fifo_in = q; hw = hw } in
      let e : length (items q) ≡ length (items p) = sym (ap left x) ∙ ap left u in
      let f : length (items p) ≡ length (items d.fifo_in) =
        length-weight (items p) ∙ v ∙ sym (length-weight (items d.fifo_in)) in
      let (r, z, h) = transfers-Keeps (is_id k) n m (omega (arith, e, f, l)) in
      (r, rw x z, h ∙ omega (arith, y))
