-- ===== src/Camera/Isr/Deliver.antt =====
-- A frame that has been stored, in hpmicro_cam_isr.
use mathlib.Core.Option
use hpm_support.Prelude.{
  ℕ, suc, ◌≡◌, ◌==◌, ◌∙◌, refl, ap, true, false, none, some, List, [], ◌∷◌, ◌++◌, if_ind,
}
use hpm_support.Camera.Types.{Vbuf, buf_error, start_of_frame, fb1_done, Dev}
use hpm_support.Camera.Hal.{Os, Hal, Config}
use hpm_support.Camera.Isr.{
  match_buffer, frame_starts, hand_out, raise, frame_done, transfer_done, transfers, isr,
}
use hpm_support.Camera.Isr.Rounds.{FifoLaws, head_of, tail_of}

module _ {Fifo Hw : Type 0} (os : Os Fifo Hw) (hal : Hal Hw) (cfg : Config)
    (items : Fifo → List Vbuf) (laws : FifoLaws os items) where
  -- The buffer with the time of the end of its transfer
  abbrev pub stamped : Vbuf → Hw → Vbuf
  stamped v hw = record v { timestamp = os.uptime_32 (hal.clear_status fb1_done hw) }

  -- The driver has no buffer of its own, and there is a signal.
  abbrev pub streaming : ℕ → Dev Fifo Hw → Dev Fifo Hw
  streaming s d = record d { cam_buffer = none; signal = some s }

  hand_out-state :
      (v : Vbuf) (d : Dev Fifo Hw)
      → (hw : Hw) × (hand_out os hal cfg (some v) d ≡ record d {
        fifo_out = os.fifo_put (record v { timestamp = os.uptime_32 d.hw }) d.fifo_out;
        hw = hw;
      })
  unfolding hand_out
  hand_out-state v d =
      let s = record v { timestamp = os.uptime_32 d.hw } in
      if_ind
        (λ (x : Dev Fifo Hw).
          (hw : Hw) × (record x { fifo_out = os.fifo_put s x.fifo_out }
            ≡ record d { fifo_out = os.fifo_put s d.fifo_out; hw = hw }))
        (hal.dc_is_enabled d.hw) (_, refl) (d.hw, refl)

  raise-poll :
      (s : ℕ) (d : Dev Fifo Hw)
      → cfg.poll ≡ true
      → raise os hal cfg buf_error (streaming s d)
        ≡ record (streaming s d) { raised = buf_error ∷ d.raised }
  unfolding raise
  raise-poll s d p = rw p refl

  -- When the transfer to the first address has ended, no frame starts, the driver has no buffer of its
  -- own, the word read in its place is another address, and the first waiting buffer is the one at the
  -- address, this buffer goes to the end of the FIFO of the application with the time, and the others
  -- wait in their order. The signal, if polling is configured, is raised with an error.
  pub isr-delivers :
      (n s : ℕ) (d : Dev Fifo Hw) (v : Vbuf) (vs : List Vbuf)
      → hal.is_raised start_of_frame d.hw ≡ false
      → hal.is_raised fb1_done d.hw ≡ true
      → cfg.poll ≡ true
      → items d.fifo_in ≡ v ∷ vs
      → (v.buffer == hal.dmasa_fb1 (hal.clear_status fb1_done d.hw)) ≡ true
      → (os.null_word (hal.clear_status fb1_done d.hw)
          == hal.dmasa_fb1 (hal.clear_status fb1_done d.hw))
        ≡ false
      → (r : Dev Fifo Hw) × (isr os hal cfg (suc n) (streaming s d) ≡ some r)
        × (items r.fifo_in ≡ vs)
        × (items r.fifo_out ≡ items d.fifo_out ++ (stamped v d.hw ∷ []))
        × (r.raised ≡ buf_error ∷ d.raised)
  unfolding isr frame_starts transfers transfer_done frame_done match_buffer Option.bind
  isr-delivers n s d v vs a b p h m z =
      let q = (os.fifo_get d.fifo_in).1 in
      let g : (os.fifo_get d.fifo_in).0 ≡ some v = laws.get_lem d.fifo_in ∙ ap head_of h in
      let e : Dev Fifo Hw = record (streaming s d) {
        fifo_in = q;
        cam_dmafb_index = 0;
        hw = hal.clear_status fb1_done d.hw;
      } in
      let (hw, x) = hand_out-state v e in
      let f : Dev Fifo Hw = record e {
        fifo_out = os.fifo_put (stamped v d.hw) d.fifo_out;
        hw = hw;
      } in
      (
        record f { raised = buf_error ∷ d.raised },
        rw (a, b, z, g, m)
            (ap (λ (y : Dev Fifo Hw). some (raise os hal cfg buf_error y)) x
              ∙ ap (λ (y : Dev Fifo Hw). some y) (raise-poll s f p)),
        laws.get_items d.fifo_in ∙ ap tail_of h,
        laws.put_items (stamped v d.hw) d.fifo_out,
        refl,
      )
