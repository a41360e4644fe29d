-- ===== src/Can/Rx/Copy.antt =====
-- The byte loops of `hpm_can_get_message` and `convert_can_frame_to_can_frame`, and a frame that
-- goes from one driver to another.
use hpm_support.Prelude.{
  ℕ, zero, suc, ◌+◌, ◌≤◌, ◌<◌, ◌≡◌, ◌∙◌, refl, false, List, arith, get_or, set, length, length-set,
  get_or-set_self, get_or-set_ne,
}
use native.Mathlib.Decide.{ℕ_discrete}
use hpm_support.Can.Types.{Frame, RxBuf, TxBuf}
use hpm_support.Can.Hal.{Hal}
use hpm_support.Can.Rx.{copy_bytes}

pub length-copy_bytes : (n i : ℕ) (src dst : List ℕ) → length (copy_bytes n i src dst) ≡ length dst
unfolding copy_bytes
length-copy_bytes zero i src dst = refl
length-copy_bytes (suc n) i src dst =
    length-copy_bytes n (i + 1) src (set dst i (get_or src i 0)) ∙ length-set dst i (get_or src i 0)

-- The bytes before the range are kept.
pub copy_bytes-before :
    (n i k : ℕ) (src dst : List ℕ) → k < i → get_or (copy_bytes n i src dst) k 0 ≡ get_or dst k 0
unfolding copy_bytes
copy_bytes-before zero i k src dst h = refl
copy_bytes-before (suc n) i k src dst h =
    copy_bytes-before n (i + 1) k src (set dst i (get_or src i 0)) (omega arith)
    ∙ get_or-set_ne dst (get_or src i 0) 0 (λ (e : i ≡ k). absurd (omega arith))

-- The bytes behind the range are kept.
pub copy_bytes-after :
    (n i k : ℕ) (src dst : List ℕ)
    → i + n ≤ k
    → get_or (copy_bytes n i src dst) k 0 ≡ get_or dst k 0
unfolding copy_bytes
copy_bytes-after zero i k src dst h = refl
copy_bytes-after (suc n) i k src dst h =
    copy_bytes-after n (i + 1) k src (set dst i (get_or src i 0)) (omega arith)
    ∙ get_or-set_ne dst (get_or src i 0) 0 (λ (e : i ≡ k). absurd (omega arith))

-- The bytes in the range are the source's, where the destination has room.
pub copy_bytes-within :
    (n i k : ℕ) (src dst : List ℕ)
    → i ≤ k
    → k < i + n
    → i + n ≤ length dst
    → get_or (copy_bytes n i src dst) k 0 ≡ get_or src k 0
unfolding copy_bytes
copy_bytes-within zero i k src dst p q r = absurd (omega arith)
copy_bytes-within (suc n) i k src dst p q r = elim (ℕ_discrete i k) [
  | yes e ↦ rw (← e) (
      copy_bytes-before n (i + 1) i src (set dst i (get_or src i 0)) (omega arith)
      ∙ get_or-set_self dst i (get_or src i 0) 0 (omega arith))
  | no ne ↦
      copy_bytes-within n (i + 1) k src (set dst i (get_or src i 0)) (omega arith) (omega arith)
        (omega (arith, length-set dst i (get_or src i 0)))
]

-- Two frames agree in all but the ESI flag, and, but for a remote frame, in the first `n` bytes.
pub record Agrees (n : ℕ) (f g : Frame) : Type 0 where
  pub id : g.id ≡ f.id
  pub dlc : g.dlc ≡ f.dlc
  pub flags : g.flags ≡ record (f.flags) { esi = false }
  pub bytes : f.flags.rtr ≡ false → (k : ℕ) → k < n → get_or g.payload k 0 ≡ get_or f.payload k 0

module _ {Hw : Type 0} (hal : Hal Hw) where
  -- What the bus and the two controllers do with a transmit buffer: the receiver's buffer has the
  -- same header, and, unless the frame is a remote one, the data bytes that the length code counts.
  pub record IsBus (wire : TxBuf → RxBuf) : Type 0 where
    pub id_lem : (t : TxBuf) → t.id < 536870912 → (wire t).id ≡ t.id
    pub dlc_lem : (t : TxBuf) → t.dlc < 16 → (wire t).dlc ≡ t.dlc
    pub extend_lem : (t : TxBuf) → (wire t).extend_id ≡ t.extend_id
    pub remote_lem : (t : TxBuf) → (wire t).remote_frame ≡ t.remote_frame
    pub fd_lem : (t : TxBuf) → (wire t).canfd_frame ≡ t.canfd_frame
    pub brs_lem : (t : TxBuf) → (wire t).bitrate_switch ≡ t.bitrate_switch
    pub data_lem :
        (t : TxBuf) (k : ℕ)
        → t.remote_frame ≡ false
        → k < hal.dlc_to_bytes t.dlc
        → get_or (wire t).payload k 0 ≡ get_or t.payload k 0
