-- ===== src/Spi/Packet/Words.antt =====
-- The words of a packet that is only sent, in spi_hpm_isr.
use hpm_support.Prelude.{
  append_assoc, append_nil, ℕ, zero, suc, ◌+◌, ◌≡◌, ◌∙◌, refl, ap, sym, true, List, [], ◌∷◌, ◌++◌,
}
use hpm_support.Spi.Types.{Ints, write_only, Dev}
use hpm_support.Spi.Hal.{Os, Hal}
use hpm_support.Spi.Packet.{threshold_ints, move_word, isr}

-- A word that was sent: its bytes and the address it was read from
pub record Word : Type 0 where
  pub width : ℕ
  pub addr : ℕ

-- The unit asks for words of `w` bytes, takes each and keeps the list of them.
pub record Sends {Hw : Type 0} (hal : Hal Hw) (w : ℕ) (sent : Hw → List Word) : Type 0 where
  pub asks : (hw : Hw) → hal.get_interrupt_status hw ≡ threshold_ints
  pub width_lem : (hw : Hw) → hal.get_data_length_in_bytes hw ≡ w
  pub takes : (a : ℕ) (hw : Hw) → (hal.write_data w a 1 hw).0 ≡ true
  pub sent_lem :
      (a : ℕ) (hw : Hw)
      → sent (hal.write_data w a 1 hw).1 ≡ sent hw ++ (record { width = w; addr = a } ∷ [])
  pub clear_lem : (i : Ints) (hw : Hw) → sent (hal.clear_interrupt_status i hw) ≡ sent hw

-- `k` words of `w` bytes, one byte apart
abbrev pub words_from : ℕ → ℕ → ℕ → List Word
words_from w a zero = []
words_from w a (suc k) = record { width = w; addr = a } ∷ words_from w (a + 1) k

module _ {BufSet Ctx Hw : Type 0} (os : Os BufSet Ctx Hw) (hal : Hal Hw) where
  abbrev pub interrupts : ℕ → Dev Ctx Hw → Dev Ctx Hw
  interrupts zero d = d
  interrupts (suc k) d = interrupts k (isr os hal d)

  -- One interrupt sends the word at `tx_buf`.
  isr-sent :
      (w : ℕ) (sent : Hw → List Word) (d : Dev Ctx Hw)
      → Sends hal w sent
      → d.control_config.trans_mode ≡ write_only
      → (sent (isr os hal d).hw ≡ sent d.hw ++ (record { width = w; addr = d.tx_buf } ∷ []))
        × ((isr os hal d).tx_buf ≡ d.tx_buf + 1)
        × ((isr os hal d).control_config ≡ d.control_config)
  unfolding isr move_word
  isr-sent w sent d s m =
      let (t, hw) = hal.write_data w d.tx_buf 1 d.hw in
      rw (s.asks d.hw, s.width_lem d.hw, m, s.takes d.tx_buf d.hw)
        (s.clear_lem threshold_ints hw ∙ s.sent_lem d.tx_buf d.hw, refl, refl)

  -- In a packet that is only sent, `k` interrupts that ask for words send `k` words, in order, the
  -- first from `tx_buf` on and each from one byte behind the last, however many bytes a word has.
  pub interrupts-words :
      (w k : ℕ) (sent : Hw → List Word) (d : Dev Ctx Hw)
      → Sends hal w sent
      → d.control_config.trans_mode ≡ write_only
      → sent (interrupts k d).hw ≡ sent d.hw ++ words_from w d.tx_buf k
  interrupts-words w zero sent d s m = sym (append_nil (sent d.hw))
  interrupts-words w (suc k) sent d s m =
      let (a, b, c) = isr-sent w sent d s m in
      interrupts-words w k sent (isr os hal d) s (ap (λ x. x.trans_mode) c ∙ m)
      ∙ rw (a, b)
          (append_assoc (sent d.hw) (record { width = w; addr = d.tx_buf } ∷ [])
            (words_from w (d.tx_buf + 1) k))
