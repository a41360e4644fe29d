-- ===== src/Camera/Queue.antt =====
-- The calls that move buffers: hpmicro_cam_enqueue, hpmicro_cam_dequeue and hpmicro_cam_flush. The
-- loops of the last are recursion on fuel, and `none` says that one has not ended.
pub mod Flush
use hpm_support.Prelude.{
  ℕ, zero, suc, ◌*◌, ◌%◌, Bool, true, false, Option, none, some, if◌then◌else◌,
}
use hpm_support.Errno.{Status, success, err, einval, eagain}
use hpm_support.Zephyr.{Timeout}
use hpm_support.Camera.Types.{Vbuf, buf_aborted, Dev}
use hpm_support.Camera.Hal.{Os, Hal, Config}
use hpm_support.Camera.Isr.{raise}

module _ {Fifo Hw : Type 0} (os : Os Fifo Hw) (hal : Hal Hw) (cfg : Config) where
  -- `hpmicro_cam_enqueue`
  unfoldable pub enqueue : Bool → Vbuf → Dev Fifo Hw → Status × Dev Fifo Hw
  enqueue is_out v d =
      let s = os.sleep d in
      let b = record v { bytesused = (s.cam_config.height * s.pitch) % 4294967296 } in
      if is_out then (success, record s { fifo_in = os.fifo_put b s.fifo_in }) else (err einval, d)

  abbrev pub dequeued : Option Vbuf × Dev Fifo Hw → Status × Option Vbuf × Dev Fifo Hw
  dequeued (none, d) = (err eagain, none, d)
  dequeued (some v, d) = (success, some v, d)

  -- `hpmicro_cam_dequeue`; for another endpoint `*vbuf` is not written.
  unfoldable pub dequeue : Bool → Timeout → Dev Fifo Hw → Status × Option Vbuf × Dev Fifo Hw
  dequeue is_out timeout d =
      if is_out then dequeued (os.wait_out timeout d) else (err einval, none, d)

  -- The loop that waits for the buffers to be processed
  unfoldable pub wait_processed : ℕ → Dev Fifo Hw → Option (Dev Fifo Hw)
  wait_processed zero d = none
  wait_processed (suc n) d =
      let s = os.sleep d in
      let rest = wait_processed n s in if os.fifo_is_empty s.fifo_in then some s else rest

  -- A buffer goes to the application without a frame.
  abbrev pub abort : Vbuf → Fifo → Dev Fifo Hw → Dev Fifo Hw
  abort v q d =
      raise os hal cfg buf_aborted (record d { fifo_in = q; fifo_out = os.fifo_put v d.fifo_out })

  abbrev pub cancelled :
      Option Vbuf → Fifo → Dev Fifo Hw → (Dev Fifo Hw → Option (Dev Fifo Hw)) → Option (Dev Fifo Hw)
  cancelled none q d rest = some (record d { fifo_in = q })
  cancelled (some v) q d rest = rest (abort v q d)

  -- The loop that gives the buffers back
  unfoldable pub cancel_all : ℕ → Dev Fifo Hw → Option (Dev Fifo Hw)
  cancel_all zero d = none
  cancel_all (suc n) d = let r = os.fifo_get d.fifo_in in cancelled r.0 r.1 d (cancel_all n)

  abbrev pub flushed : Option (Dev Fifo Hw) → Option (Status × Dev Fifo Hw)
  flushed none = none
  flushed (some d) = some (success, d)

  -- `hpmicro_cam_flush`
  unfoldable pub flush : ℕ → Bool → Dev Fifo Hw → Option (Status × Dev Fifo Hw)
  flush fuel cancel d = flushed (if cancel then cancel_all fuel d else wait_processed fuel d)
