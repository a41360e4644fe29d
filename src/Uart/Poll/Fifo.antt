-- ===== src/Uart/Poll/Fifo.antt =====
-- `uart_hpm_fifo_fill` and `uart_hpm_fifo_read` of drivers/serial/uart_hpmicro.c against the list of
-- bytes that the unit sends and holds.
use hpm_support.Prelude.{
  ℕ, zero, suc, ◌+◌, ◌-◌, ◌%◌, ◌≤◌, ◌<◌, ◌≡◌, ◌∙◌, refl, ap, sym, Bool, true, false, not, ◌&&◌,
  some, List, [], ◌∷◌, arith, ltb, lt→ltb, if◌then◌else◌, length, is_empty, take, take-nil, drop,
  Bool-cases, inl, inr, min,
}
use hpm_support.Uart.Hal.{Hal}
use hpm_support.Uart.Poll.{write_byte, fill_loop, fifo_fill, read_loop, fifo_read}

-- The receiver holds the list of bytes `held`.
pub record FifoLaws {Hw : Type 0} (hal : Hal Hw) (held : Hw → List ℕ) : Type 0 where
  pub ready_lem : (hw : Hw) → hal.data_ready hw ≡ not (is_empty (held hw))
  pub receive_lem :
      (b : ℕ) (bs : List ℕ) (hw : Hw)
      → held hw ≡ b ∷ bs
      → ((hal.receive_byte hw).0 ≡ (true, b)) × (held (hal.receive_byte hw).1 ≡ bs)

-- The bytes written from the index `i` on.
abbrev pub stored : ℕ → List ℕ → (ℕ → ℕ) → ℕ → ℕ
stored i [] mem = mem
stored i (b ∷ bs) mem = stored (i + 1) bs (write_byte i b mem)

and_false : (a b : Bool) → b ≡ false → (a && b) ≡ false
and_false true b e = e
and_false false b e = refl

drop-nil : (n : ℕ) → drop {A = ℕ} n [] ≡ []
drop-nil zero = refl
drop-nil (suc n) = refl

module _ {Hw : Type 0} (hal : Hal Hw) where
  -- `n` bytes of `tx_data` from the index `i` on are sent in order.
  abbrev pub send_from : ℕ → ℕ → (ℕ → ℕ) → Hw → Hw
  send_from zero i tx_data hw = hw
  send_from (suc n) i tx_data hw = send_from n (i + 1) tx_data (hal.send_byte (tx_data i) hw)

  fill_loop-send_from :
      (n k len i : ℕ) (tx_data : ℕ → ℕ) (hw : Hw)
      → k ≡ min (len - i) (16 - i)
      → k < n
      → fill_loop hal n len i tx_data hw ≡ (i + k, send_from k i tx_data hw)
  unfolding fill_loop
  fill_loop-send_from zero k len i tx_data hw e l = absurd (omega (arith, l))
  fill_loop-send_from (suc n) zero len i tx_data hw e l =
      let f : (ltb i len && ltb i 16) ≡ false = ground (arith, e) in
      let g : i + 0 ≡ i = omega arith in rw (f, g) refl
  fill_loop-send_from (suc n) (suc k) len i tx_data hw e l =
      let f : ltb i len ≡ true = lt→ltb i len (omega (arith, e)) in
      let f' : ltb i 16 ≡ true = lt→ltb i 16 (omega (arith, e)) in
      let g : i + 1 + k ≡ i + suc k = omega arith in
      rw (f, f')
        (fill_loop-send_from n k len (i + 1) tx_data (hal.send_byte (tx_data i) hw)
            (omega (arith, e)) (omega (arith, l))
          ∙ rw g refl)

  -- When the transmitter is empty, the first 16 bytes of the data, or all of them if there are fewer,
  -- are sent in order and their number is returned; otherwise nothing is sent and 0 is returned.
  pub fifo_fill-send_from :
      (tx_data : ℕ → ℕ) (len : ℕ) (hw : Hw)
      → fifo_fill hal tx_data len hw ≡ (
          if hal.transmitter_empty hw
          then (min len 16, send_from (min len 16) 0 tx_data hw)
          else (0, hw))
  unfolding fifo_fill
  fifo_fill-send_from tx_data len hw = elim (Bool-cases (hal.transmitter_empty hw)) [
    | inl t ↦
        rw (t, fill_loop-send_from 17 (min len 16) len 0 tx_data hw (omega arith) (omega arith))
          (ap (λ k. (k, send_from (min len 16) 0 tx_data hw)) (omega arith))
    | inr t ↦ rw t refl
  ]

  read_loop-stop :
      (n size i : ℕ) (mem : ℕ → ℕ) (hw : Hw)
      → (ltb i size && hal.data_ready hw) ≡ false
      → read_loop hal (suc n) size i mem hw ≡ some ((i, mem), hw)
  unfolding read_loop
  read_loop-stop n size i mem hw e = rw e refl

  read_loop-step :
      (held : Hw → List ℕ) (n size i x : ℕ) (bs : List ℕ) (mem : ℕ → ℕ) (hw : Hw)
      → FifoLaws hal held
      → held hw ≡ x ∷ bs
      → i < size
      → read_loop hal (suc n) size i mem hw
        ≡ read_loop hal n size ((i + 1) % 256) (write_byte i x mem) (hal.receive_byte hw).1
  unfolding read_loop
  read_loop-step held n size i x bs mem hw laws h l =
      let r = (laws.receive_lem x bs hw h).0 in
      let e : hal.data_ready hw ≡ true = laws.ready_lem hw ∙ ap (λ c. not (is_empty c)) h in
      rw (lt→ltb i size l, e, r) refl

  read_loop-held :
      (held : Hw → List ℕ) (bs : List ℕ) (k fuel size i : ℕ) (mem : ℕ → ℕ) (hw : Hw)
      → FifoLaws hal held
      → held hw ≡ bs
      → length bs < fuel
      → i + k ≡ size
      → size ≤ 255
      → (hw' : Hw) × (read_loop hal fuel size i mem hw
          ≡ some ((i + length (take k bs), stored i (take k bs) mem), hw'))
        × (held hw' ≡ drop k bs)
  read_loop-held held bs k zero size i mem hw laws h l m b = absurd (omega (arith, l))
  read_loop-held held [] k (suc n) size i mem hw laws h l m b =
      let e : hal.data_ready hw ≡ false = laws.ready_lem hw ∙ ap (λ c. not (is_empty c)) h in
      let z : i + 0 ≡ i = omega arith in
      (
        hw,
        read_loop-stop n size i mem hw (and_false (ltb i size) _ e) ∙ rw (take-nil k, z) refl,
        h ∙ sym (drop-nil k),
      )
  read_loop-held held (x ∷ bs) zero (suc n) size i mem hw laws h l m b =
      let e : ltb i size ≡ false = ground (arith, m) in
      let z : i + 0 ≡ i = omega arith in
      (hw, read_loop-stop n size i mem hw (rw e refl) ∙ rw z refl, h)
  read_loop-held held (x ∷ bs) (suc k) (suc n) size i mem hw laws h l m b =
      let c = (laws.receive_lem x bs hw h).1 in
      let (hw', r, t) =
        read_loop-held held bs k n size (i + 1) (write_byte i x mem) (hal.receive_byte hw).1 laws c
          (omega (arith, l)) (omega (arith, m)) b in
      let w : (i + 1) % 256 ≡ i + 1 = omega (arith, m, b) in
      let z : i + suc (length (take k bs)) ≡ i + 1 + length (take k bs) = omega arith in
      (hw', read_loop-step held n size i x bs mem hw laws h (omega (arith, m)) ∙ rw (w, z) r, t)

  -- With room for at most 255 bytes, the bytes that the receiver holds, as many as there is room for,
  -- are read in order from the start of the memory on; the result is their number and the rest stays
  -- in the receiver. As many rounds as it holds bytes, and one, are enough.
  pub fifo_read-held :
      (held : Hw → List ℕ) (rx_data : ℕ → ℕ) (size : ℕ) (hw : Hw)
      → FifoLaws hal held
      → size ≤ 255
      → (hw' : Hw) × (fifo_read hal (suc (length (held hw))) rx_data size hw
          ≡ some ((length (take size (held hw)), stored 0 (take size (held hw)) rx_data), hw'))
        × (held hw' ≡ drop size (held hw))
  unfolding fifo_read
  fifo_read-held held rx_data size hw laws b =
      let (hw', r, t) =
        read_loop-held held (held hw) size (suc (length (held hw))) size 0 rx_data hw laws refl
          (omega arith) (omega arith) b in
      let z : 0 + length (take size (held hw)) ≡ length (take size (held hw)) = omega arith in
      (hw', r ∙ rw z refl, t)

  read_loop-wraps :
      (held : Hw → List ℕ) (bs : List ℕ) (fuel size i : ℕ) (mem : ℕ → ℕ) (hw : Hw)
      → FifoLaws hal held
      → held hw ≡ bs
      → length bs < fuel
      → i < 256
      → 256 ≤ size
      → (mem' : ℕ → ℕ) × (hw' : Hw) × (read_loop hal fuel size i mem hw
          ≡ some (((i + length bs) % 256, mem'), hw'))
        × (held hw' ≡ [])
  read_loop-wraps held bs zero size i mem hw laws h l m b = absurd (omega (arith, l))
  read_loop-wraps held [] (suc n) size i mem hw laws h l m b =
      let e : hal.data_ready hw ≡ false = laws.ready_lem hw ∙ ap (λ c. not (is_empty c)) h in
      let z : (i + 0) % 256 ≡ i = omega (arith, m) in
      (mem, hw, read_loop-stop n size i mem hw (and_false (ltb i size) _ e) ∙ rw z refl, h)
  read_loop-wraps held (x ∷ bs) (suc n) size i mem hw laws h l m b =
      let c = (laws.receive_lem x bs hw h).1 in
      let j : ℕ = (i + 1) % 256 in
      let (mem', hw', r, t) =
        read_loop-wraps held bs n size j (write_byte i x mem) (hal.receive_byte hw).1 laws c
          (omega (arith, l)) (omega arith) b in
      let z : (i + suc (length bs)) % 256 ≡ (j + length bs) % 256 = omega arith in
      (mem', hw', read_loop-step held n size i x bs mem hw laws h (omega (arith, m, b)) ∙ rw z r, t)

  -- With room for 256 bytes or more, everything that the receiver holds is read, and the result is the
  -- number of those bytes modulo 256.
  pub fifo_read-wraps :
      (held : Hw → List ℕ) (rx_data : ℕ → ℕ) (size : ℕ) (hw : Hw)
      → FifoLaws hal held
      → 256 ≤ size
      → (mem' : ℕ → ℕ) × (hw' : Hw) × (fifo_read hal (suc (length (held hw))) rx_data size hw
          ≡ some ((length (held hw) % 256, mem'), hw'))
        × (held hw' ≡ [])
  unfolding fifo_read
  fifo_read-wraps held rx_data size hw laws b =
      let (mem', hw', r, t) =
        read_loop-wraps held (held hw) (suc (length (held hw))) size 0 rx_data hw laws refl
          (omega arith) (omega arith) b in
      let z : (0 + length (held hw)) % 256 ≡ length (held hw) % 256 = omega arith in
      (mem', hw', r ∙ rw z refl, t)
