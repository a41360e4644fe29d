-- ===== src/Camera/Isr.antt =====
-- hpmicro_cam_isr, as compiled without HPMICRO_CAM_ENABLE_EOF. Its loops are recursion on fuel, and
-- `none` says that one has not ended. A read through the NULL pointer `cam_buffer` gives a word of the
-- memory, as it does on the chip.
pub mod Rounds
pub mod Conserved
pub mod Deliver
use mathlib.Core.Option
use hpm_support.Prelude.{
  ℕ, zero, suc, ◌+◌, ◌-◌, ◌%◌, ◌==◌, Bool, true, false, not, ◌&&◌, Option, none, some, List, [],
  ◌∷◌, if◌then◌else◌,
}
use hpm_support.Camera.Types.{
  Vbuf, Outcome, buf_error, Cause, start_of_frame, fb1_done, fb2_done, Dev,
}
use hpm_support.Camera.Hal.{Os, Hal, Config}

-- Whether a buffer is the one that a search started with
abbrev pub is_first : Option ℕ → ℕ → Bool
is_first none id = false
is_first (some f) id = f == id

-- The buffer that a search started with
abbrev pub first_or : Option ℕ → ℕ → Option ℕ
first_or none id = some id
first_or (some f) id = some f

module _ {Fifo Hw : Type 0} (os : Os Fifo Hw) (hal : Hal Hw) (cfg : Config) where
  abbrev pub on_hw : (Hw → Hw) → Dev Fifo Hw → Dev Fifo Hw
  on_hw f d = record d { hw = f d.hw }

  -- `cam_buffer->buffer`
  abbrev pub cam_addr : Option Vbuf → Hw → ℕ
  cam_addr (some b) hw = b.buffer
  cam_addr none hw = os.null_word hw

  -- What the start of a frame does with a buffer that can be the next one
  abbrev pub use_next : Vbuf → Dev Fifo Hw → Option (Dev Fifo Hw)
  use_next v d =
      if not (v.buffer == hal.dmasa_fb1 d.hw) && (d.cam_dmafb_index == 0)
      then some (on_hw (hal.update_buffer v.buffer) d)
      else if not (v.buffer == hal.dmasa_fb2 d.hw) && (d.cam_dmafb_index == 1)
      then some (on_hw (hal.update_buffer2 v.buffer) d)
      else none

  abbrev pub requeue : Vbuf → Fifo → Dev Fifo Hw → Dev Fifo Hw
  requeue v q d = record d { fifo_in = os.fifo_put v q }

  -- A round that does not find one ends when the first buffer has come again.
  abbrev pub next_round :
      Option ℕ → Vbuf → Dev Fifo Hw → Option (Dev Fifo Hw) → Option (Dev Fifo Hw)
  next_round first v d rest = if is_first first v.id then some d else rest

  abbrev pub used_or :
      Vbuf → Fifo → Option (Dev Fifo Hw) → Option (Dev Fifo Hw) → Option (Dev Fifo Hw)
  used_or v q (some d) rest = some (record d { fifo_in = os.fifo_put v q })
  used_or v q none rest = rest

  abbrev pub next_with :
      Option ℕ
      → Option Vbuf
      → Fifo
      → Dev Fifo Hw
      → (Vbuf → Option (Dev Fifo Hw))
      → Option (Dev Fifo Hw)
  next_with first none q d rest = some (record d { fifo_in = q })
  next_with first (some v) q d rest =
      used_or v q (use_next v d) (next_round first v (requeue v q d) (rest v))

  -- The search of the start of a frame, with the buffer it started with
  unfoldable pub search_next : ℕ → Option ℕ → Dev Fifo Hw → Option (Dev Fifo Hw)
  search_next zero first d = none
  search_next (suc n) first d =
      let (o, q) = os.fifo_get d.fifo_in in
      next_with first o q d (λ v. search_next n (first_or first v.id) (requeue v q d))

  -- While the unit has the driver's own buffer, it keeps it.
  abbrev pub unless_own : Option Vbuf → ℕ → Dev Fifo Hw → Option (Dev Fifo Hw)
  unless_own none fuel d = search_next fuel none d
  unless_own (some b) fuel d = some d

  -- The part for the start of a frame
  unfoldable pub frame_starts : ℕ → Dev Fifo Hw → Option (Dev Fifo Hw)
  frame_starts fuel d =
      let c = on_hw (hal.clear_status start_of_frame) d in
      if hal.is_raised start_of_frame d.hw then unless_own d.cam_buffer fuel c else some d

  abbrev pub match_with :
      ℕ
      → Option ℕ
      → Option Vbuf
      → Fifo
      → Dev Fifo Hw
      → (Vbuf → Option (Option Vbuf × Dev Fifo Hw))
      → Option (Option Vbuf × Dev Fifo Hw)
  match_with addr first none q d rest = some (none, record d { fifo_in = q })
  match_with addr first (some v) q d rest =
      if v.buffer == addr
      then some (some v, record d { fifo_in = q })
      else if is_first first v.id
      then some (none, requeue v q d)
      else rest v

  -- The search for the buffer at an address: the buffer, and the device without it
  unfoldable pub match_buffer : ℕ → ℕ → Option ℕ → Dev Fifo Hw → Option (Option Vbuf × Dev Fifo Hw)
  match_buffer zero addr first d = none
  match_buffer (suc n) addr first d =
      let (o, q) = os.fifo_get d.fifo_in in
      match_with addr first o q d (λ v. match_buffer n addr (first_or first v.id) (requeue v q d))

  -- The cache lines of a buffer
  abbrev pub invalidate : Vbuf → Dev Fifo Hw → Dev Fifo Hw
  invalidate v d =
      let from = hal.align_down v.buffer in
      let to = hal.align_up ((v.buffer + v.bytesused) % 4294967296) in
      if hal.dc_is_enabled d.hw
      then on_hw (hal.dc_invalidate from ((to + (4294967296 - from)) % 4294967296)) d
      else d

  -- A buffer with its frame goes to the application.
  unfoldable pub hand_out : Option Vbuf → Dev Fifo Hw → Dev Fifo Hw
  hand_out none d = d
  hand_out (some v) d =
      let s = record v { timestamp = os.uptime_32 d.hw } in
      let c = invalidate s d in record c { fifo_out = os.fifo_put s c.fifo_out }

  unfoldable pub raise : Outcome → Dev Fifo Hw → Dev Fifo Hw
  raise r d = elim d.signal [
    | none ↦ d
    | some s ↦ if cfg.poll then record d { raised = r ∷ d.raised } else d
  ]

  -- The part `done`, for the buffer at an address
  unfoldable pub frame_done : ℕ → ℕ → Dev Fifo Hw → Option (Dev Fifo Hw)
  frame_done fuel addr d =
      Option.map (λ (v, r). raise buf_error (hand_out v r)) (match_buffer fuel addr none d)

  abbrev pub release : Option Vbuf → Dev Fifo Hw → Dev Fifo Hw
  release none d = d
  release (some b) d = record d { cam_buffer = none; hw = os.buffer_release b d.hw }

  -- The end of a DMA transfer to one of the two addresses
  unfoldable pub transfer_done : ℕ → Cause → ℕ → ℕ → Dev Fifo Hw → Option (Dev Fifo Hw)
  transfer_done fuel cause addr index d =
      let c = on_hw (hal.clear_status cause) d in
      if cam_addr c.cam_buffer c.hw == addr
      then some (release c.cam_buffer c)
      else frame_done fuel addr (record c { cam_dmafb_index = index })

  -- The parts for the ends of transfers
  unfoldable pub transfers : ℕ → Dev Fifo Hw → Option (Dev Fifo Hw)
  transfers fuel d =
      if hal.is_raised fb1_done d.hw
      then transfer_done fuel fb1_done (hal.dmasa_fb1 (hal.clear_status fb1_done d.hw)) 0 d
      else if hal.is_raised fb2_done d.hw
      then transfer_done fuel fb2_done (hal.dmasa_fb2 (hal.clear_status fb2_done d.hw)) 1 d
      else frame_done fuel 0 d

  -- `hpmicro_cam_isr`
  unfoldable pub isr : ℕ → Dev Fifo Hw → Option (Dev Fifo Hw)
  isr fuel d = Option.bind (frame_starts fuel d) (transfers fuel)
