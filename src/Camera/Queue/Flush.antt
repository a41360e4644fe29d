-- ===== src/Camera/Queue/Flush.antt =====
-- A flush that cancels, hpmicro_cam_flush.
use hpm_support.Prelude.{
  ℕ, zero, suc, ◌<◌, ◌≡◌, ◌∙◌, refl, ap, sym, arith, inl, inr, true, none, some, List, [], ◌∷◌,
  ◌++◌, length, if_ind, Option-cases, append_nil, append_assoc, Option,
}
use hpm_support.Errno.{success}
use hpm_support.Camera.Types.{Vbuf, Outcome, buf_aborted, Dev}
use hpm_support.Camera.Hal.{Os, Hal, Config}
use hpm_support.Camera.Isr.{raise}
use hpm_support.Camera.Isr.Rounds.{FifoLaws, head_of, tail_of}
use hpm_support.Camera.Queue.{cancel_all, abort, flush, flushed}

module _ {Fifo Hw : Type 0} (os : Os Fifo Hw) (hal : Hal Hw) (cfg : Config)
    (items : Fifo → List Vbuf) (laws : FifoLaws os items) where
  raise-fifos :
      (o : Outcome) (d : Dev Fifo Hw)
      → ((raise os hal cfg o d).fifo_in ≡ d.fifo_in)
        × ((raise os hal cfg o d).fifo_out ≡ d.fifo_out)
  unfolding raise
  raise-fifos o d = elim (Option-cases d.signal) [
    | inl e ↦ rw e (refl, refl)
    | inr (s, e) ↦ rw e (
        if_ind (λ (x : Dev Fifo Hw). (x.fifo_in ≡ d.fifo_in) × (x.fifo_out ≡ d.fifo_out)) cfg.poll
          (refl, refl) (refl, refl))
  ]

  Cancels : List Vbuf → Dev Fifo Hw → Option (Dev Fifo Hw) → Type 0
  Cancels vs d o =
      (r : Dev Fifo Hw) × (o ≡ some r)
      × (items r.fifo_in ≡ [])
      × (items r.fifo_out ≡ items d.fifo_out ++ vs)

  cancel_all-Cancels :
      (n : ℕ) (d : Dev Fifo Hw) (vs : List Vbuf)
      → items d.fifo_in ≡ vs
      → length vs < n
      → Cancels vs d (cancel_all os hal cfg n d)
  unfolding cancel_all Cancels
  cancel_all-Cancels zero d vs h l = absurd (omega (arith, l))
  cancel_all-Cancels (suc n) d [] h l =
      let q = (os.fifo_get d.fifo_in).1 in
      let g : (os.fifo_get d.fifo_in).0 ≡ none = laws.get_lem d.fifo_in ∙ ap head_of h in
      (
        record d { fifo_in = q },
        rw g refl,
        laws.get_items d.fifo_in ∙ ap tail_of h,
        sym (append_nil (items d.fifo_out)),
      )
  cancel_all-Cancels (suc n) d (v ∷ vs) h l =
      let q = (os.fifo_get d.fifo_in).1 in
      let g : (os.fifo_get d.fifo_in).0 ≡ some v = laws.get_lem d.fifo_in ∙ ap head_of h in
      let m : Dev Fifo Hw = record d { fifo_in = q; fifo_out = os.fifo_put v d.fifo_out } in
      let a = abort os hal cfg v q d in
      let k = raise-fifos buf_aborted m in
      let i : items a.fifo_in ≡ vs = ap items k.0 ∙ laws.get_items d.fifo_in ∙ ap tail_of h in
      let (r, x, y, z) = cancel_all-Cancels n a vs i (omega (arith, l)) in
      (
        r,
        rw g x,
        y,
        z
            ∙ ap (λ l. l ++ vs) (ap items k.1 ∙ laws.put_items v d.fifo_out)
            ∙ append_assoc (items d.fifo_out) (v ∷ []) vs,
      )

  -- A flush that cancels ends with success when it is given one round more than there are waiting
  -- buffers: none waits any more, and they follow those of the application in their order.
  pub flush-cancel :
      (n : ℕ) (d : Dev Fifo Hw)
      → length (items d.fifo_in) < n
      → (r : Dev Fifo Hw) × (flush os hal cfg n true d ≡ some (success, r))
        × (items r.fifo_in ≡ [])
        × (items r.fifo_out ≡ items d.fifo_out ++ items d.fifo_in)
  unfolding flush Cancels
  flush-cancel n d l =
      let (r, x, y, z) = cancel_all-Cancels n d (items d.fifo_in) refl l in
      (r, ap (flushed os hal cfg) x, y, z)
