-- ===== src/I2c/Isr/Received.antt =====
-- The bytes that a controller receives in drivers/i2c/i2c_hpmicro.c.
use mathlib.Core.Option
use hpm_support.Prelude.{
  ℕ, zero, suc, ◌+◌, ◌<◌, ◌≡◌, ◌∙◌, refl, ap, Bool, true, false, ◌&&◌, none, some, List, [], ◌∷◌,
  arith, ◌==◌, ltb, lt→ltb, if◌then◌else◌, get_elem?, length, take, take-nil, is_empty,
}
use hpm_support.I2c.Types.{Event, Events, transaction_complete, fifo_full, fifo_empty, Dev}
use hpm_support.I2c.Hal.{Hal, App, Os}
use hpm_support.I2c.Isr.{
  store, store_byte, next, previous, drain_all, drain_rest, message_received, receive_by,
  receive_phase, give, next_message, complete_by, complete_phase,
}

-- The FIFO holds the list of bytes `held`, which the interrupt flags do not touch.
pub record HeldLaws {Hw : Type 0} (hal : Hal Hw) (held : Hw → List ℕ) : Type 0 where
  pub empty_lem : (hw : Hw) → hal.fifo_is_empty hw ≡ is_empty (held hw)
  pub read_lem :
      (v : ℕ) (vs : List ℕ) (hw : Hw)
      → held hw ≡ v ∷ vs
      → ((hal.read_byte hw).0 ≡ v) × (held (hal.read_byte hw).1 ≡ vs)
  pub irq_lem : (es : List Event) (hw : Hw) → held (hal.disable_irq es hw) ≡ held hw
  pub clear_lem : (e : Event) (hw : Hw) → held (hal.clear_status e hw) ≡ held hw
  pub irq_direction :
      (es : List Event) (hw : Hw) → hal.get_direction (hal.disable_irq es hw) ≡ hal.get_direction hw
  pub clear_direction :
      (e : Event) (hw : Hw) → hal.get_direction (hal.clear_status e hw) ≡ hal.get_direction hw

-- The bytes stored from the address `a` on.
abbrev pub stored_at : ℕ → List ℕ → (ℕ → ℕ) → ℕ → ℕ
stored_at a [] mem = mem
stored_at a (v ∷ vs) mem = stored_at (a + 1) vs (store a v mem)

-- From `d` to `d'` the bytes `vs` have been stored in the message, and nothing else of the transfer
-- and the driver has changed.
pub record Stores {Hw : Type 0} (vs : List ℕ) (d d' : Dev Hw) : Type 0 where
  pub mem : d'.mem ≡ stored_at (d.transfer.curr_buf + d.transfer.curr_index) vs d.mem
  pub transfer :
      d'.transfer ≡ record (d.transfer) { curr_index = d.transfer.curr_index + length vs }
  pub completion : d'.completion ≡ d.completion

==_self : (a : ℕ) → (a == a) ≡ true
==_self a = ground arith

module _ {Hw : Type 0} (hal : Hal Hw) (app : App) (os : Os Hw) where
  Stores-nil : (d : Dev Hw) → Stores [] d d
  Stores-nil d =
      let z : d.transfer.curr_index + 0 ≡ d.transfer.curr_index = omega arith in
      record { mem = refl; transfer = rw z refl; completion = refl }

  -- One byte and the rest.
  Stores-cons :
      (held : Hw → List ℕ) (v : ℕ) (vs ws : List ℕ) (d d' : Dev Hw)
      → HeldLaws hal held
      → held d.hw ≡ v ∷ ws
      → next d.transfer.curr_index ≡ d.transfer.curr_index + 1
      → Stores vs (store_byte hal app os d) d'
      → Stores (v ∷ vs) d d'
  Stores-cons held v vs ws d d' laws h p s =
      let i = d.transfer.curr_index in
      let g : d.transfer.curr_buf + next i ≡ d.transfer.curr_buf + i + 1 = omega (arith, p) in
      let z : next i + length vs ≡ i + suc (length vs) = omega (arith, p) in
      record {
        mem = s.mem ∙ rw (g, (laws.read_lem v ws d.hw h).0) refl;
        transfer = s.transfer ∙ rw z refl;
        completion = s.completion;
      }

  drain_all-Stores :
      (held : Hw → List ℕ) (vs : List ℕ) (n : ℕ) (d : Dev Hw)
      → HeldLaws hal held
      → held d.hw ≡ vs
      → length vs < n
      → d.transfer.curr_index + length vs < 4294967296
      → (d' : Dev Hw) × (drain_all hal app os n d ≡ some d') × Stores vs d d'
  unfolding drain_all
  drain_all-Stores held vs zero d laws h l b = absurd (omega (arith, l))
  drain_all-Stores held [] (suc n) d laws h l b =
      let e : hal.fifo_is_empty d.hw ≡ true = laws.empty_lem d.hw ∙ ap (λ c. is_empty c) h in
      (d, rw e refl, Stores-nil d)
  drain_all-Stores held (v ∷ vs) (suc n) d laws h l b =
      let e : hal.fifo_is_empty d.hw ≡ false = laws.empty_lem d.hw ∙ ap (λ c. is_empty c) h in
      let p : next d.transfer.curr_index ≡ d.transfer.curr_index + 1 = omega (arith, b) in
      let (d', x, y) =
        drain_all-Stores held vs n (store_byte hal app os d) laws (laws.read_lem v vs d.hw h).1
          (omega (arith, l)) (omega (arith, b, p)) in
      (d', rw e x, Stores-cons held v vs vs d d' laws h p y)

  drain_rest-Stores :
      (held : Hw → List ℕ) (vs : List ℕ) (k n : ℕ) (d : Dev Hw)
      → HeldLaws hal held
      → held d.hw ≡ vs
      → length vs < n
      → d.transfer.curr_index + k ≡ d.transfer.curr_len
      → d.transfer.curr_len < 4294967296
      → (d' : Dev Hw) × (drain_rest hal app os n d ≡ some d') × Stores (take k vs) d d'
  unfolding drain_rest
  drain_rest-Stores held vs k zero d laws h l e b = absurd (omega (arith, l))
  drain_rest-Stores held [] k (suc n) d laws h l e b =
      let f : hal.fifo_is_empty d.hw ≡ true = laws.empty_lem d.hw ∙ ap (λ c. is_empty c) h in
      (d, rw f refl, rw (take-nil k) (Stores-nil d))
  drain_rest-Stores held (v ∷ vs) zero (suc n) d laws h l e b =
      let f : hal.fifo_is_empty d.hw ≡ false = laws.empty_lem d.hw ∙ ap (λ c. is_empty c) h in
      let g : ltb d.transfer.curr_index d.transfer.curr_len ≡ false = ground (arith, e) in
      (d, rw (f, g) refl, Stores-nil d)
  drain_rest-Stores held (v ∷ vs) (suc zero) (suc n) d laws h l e b =
      let f : hal.fifo_is_empty d.hw ≡ false = laws.empty_lem d.hw ∙ ap (λ c. is_empty c) h in
      let g = lt→ltb d.transfer.curr_index d.transfer.curr_len (omega (arith, e)) in
      let p : next d.transfer.curr_index ≡ d.transfer.curr_index + 1 = omega (arith, e, b) in
      let q : (next d.transfer.curr_index == d.transfer.curr_len) ≡ true = ground (arith, e, p) in
      let s = store_byte hal app os d in
      (s, rw (f, g, q) refl, Stores-cons held v [] vs d s laws h p (Stores-nil s))
  drain_rest-Stores held (v ∷ vs) (suc (suc k)) (suc n) d laws h l e b =
      let f : hal.fifo_is_empty d.hw ≡ false = laws.empty_lem d.hw ∙ ap (λ c. is_empty c) h in
      let g = lt→ltb d.transfer.curr_index d.transfer.curr_len (omega (arith, e)) in
      let p : next d.transfer.curr_index ≡ d.transfer.curr_index + 1 = omega (arith, e, b) in
      let q : (next d.transfer.curr_index == d.transfer.curr_len) ≡ false = ground (arith, e, p) in
      let s = store_byte hal app os d in
      let (d', x, y) =
        drain_rest-Stores held vs (suc k) n s laws (laws.read_lem v vs d.hw h).1 (omega (arith, l))
          (omega (arith, e, p)) b in
      (d', rw (f, g, q) x, Stores-cons held v (take (suc k) vs) vs d d' laws h p y)

  abbrev is_received : Dev Hw → Bool
  is_received d = (d.transfer.curr_index == d.transfer.curr_len) && ltb 0 d.transfer.curr_len

  received-last :
      (vs : List ℕ) (d d' : Dev Hw)
      → Stores vs d d'
      → d.transfer.curr_index + length vs ≡ d.transfer.curr_len
      → 0 < d.transfer.curr_len
      → get_elem? d.transfer.msgs (d.transfer.pos + 1) ≡ none
      → (if is_received d' then message_received hal app os d' else some d') ≡ none
  unfolding message_received Option.bind
  received-last vs d d' y e p g =
      let l : d'.transfer.curr_len ≡ d.transfer.curr_len = ap (λ t. t.curr_len) y.transfer in
      let i : d'.transfer.curr_index ≡ d.transfer.curr_index + length vs =
        ap (λ t. t.curr_index) y.transfer in
      let m : get_elem? d'.transfer.msgs (d'.transfer.pos + 1) ≡ none =
        ap (λ t. get_elem? t.msgs (t.pos + 1)) y.transfer ∙ g in
      let c : is_received d' ≡ true = ground (arith, l, i, e, p) in simp (c, m)

  -- A controller's message ends with a full FIFO, after which nothing of the message is missing, and
  -- it is the last of the transfer: the interrupt reads a message beyond the end of the array,
  -- however many rounds its loop is given.
  pub receive_phase-last :
      (held : Hw → List ℕ) (vs : List ℕ) (fuel : ℕ) (status : Events) (d : Dev Hw)
      → HeldLaws hal held
      → held d.hw ≡ vs
      → d.slave ≡ none
      → status.fifo_full ≡ true
      → d.transfer.curr_index + length vs ≡ d.transfer.curr_len
      → 0 < d.transfer.curr_len
      → d.transfer.curr_len < 4294967296
      → get_elem? d.transfer.msgs (d.transfer.pos + 1) ≡ none
      → receive_phase hal app os (suc (length vs + fuel)) status d ≡ none
  unfolding receive_phase receive_by message_received Option.bind
  receive_phase-last held vs fuel status d laws h s f e p b g =
      let (d', x, y) =
        drain_all-Stores held vs (suc (length vs + fuel)) d laws h (omega arith)
          (omega (arith, e, b)) in
      simp (f, s, x) (received-last vs d d' y e p g)

  next_message-last :
      (d : Dev Hw)
      → d.transfer.nr_msgs ≡ 1
      → next_message hal app os d
        ≡ some (give hal app os (record d { transfer = record (d.transfer) { nr_msgs = 0 } }))
  unfolding next_message
  next_message-last d e =
      let f : (d.transfer.nr_msgs == 0) ≡ false = ground (arith, e) in
      let g : previous d.transfer.nr_msgs ≡ 0 = omega (arith, e) in simp (f, g)

  -- The device after the interrupts and the flag of the completion have been cleared.
  abbrev acknowledged : Dev Hw → Dev Hw
  acknowledged d = record d {
    hw =
        hal.clear_status transaction_complete
          (hal.disable_irq (transaction_complete ∷ fifo_full ∷ fifo_empty ∷ []) d.hw);
  }

  complete_phase-acknowledged :
      (fuel : ℕ) (status : Events) (d : Dev Hw)
      → status.transaction_complete ≡ true
      → complete_phase hal app os fuel status d
        ≡ complete_by hal app os d.slave fuel (acknowledged d)
  unfolding complete_phase
  complete_phase-acknowledged fuel status d f = rw f refl

  complete_by-drained :
      (fuel : ℕ) (c r : Dev Hw)
      → (hal.dir_master_read == hal.get_direction c.hw) ≡ true
      → drain_rest hal app os fuel c ≡ some r
      → complete_by hal app os none fuel c ≡ next_message hal app os r
  unfolding complete_by Option.bind
  complete_by-drained fuel c r t x = rw (t, x) refl

  -- The last message of a controller's transfer, a read, is complete: the interrupt stores the bytes
  -- that the FIFO holds behind those that it has stored before, never beyond the end of the
  -- message's buffer, no message is left, and it gives the semaphore of the completion. As many
  -- rounds as the FIFO holds bytes, and one, are enough.
  pub complete_phase-last :
      (held : Hw → List ℕ) (k : ℕ) (status : Events) (d : Dev Hw)
      → HeldLaws hal held
      → d.slave ≡ none
      → status.transaction_complete ≡ true
      → hal.get_direction d.hw ≡ hal.dir_master_read
      → d.transfer.curr_index + k ≡ d.transfer.curr_len
      → d.transfer.curr_len < 4294967296
      → d.transfer.nr_msgs ≡ 1
      → (d' : Dev Hw) × (complete_phase hal app os (suc (length (held d.hw))) status d ≡ some d')
        × (d'.mem
            ≡ stored_at (d.transfer.curr_buf + d.transfer.curr_index) (take k (held d.hw)) d.mem)
        × (d'.transfer.nr_msgs ≡ 0)
        × (d'.completion ≡ os.sem_give d.completion)
  complete_phase-last held k status d laws s f g e b n =
      let events = transaction_complete ∷ fifo_full ∷ fifo_empty ∷ [] in
      let fuel = suc (length (held d.hw)) in
      let off = hal.disable_irq events d.hw in
      let c = acknowledged d in
      let h : held c.hw ≡ held d.hw =
        laws.clear_lem transaction_complete off ∙ laws.irq_lem events d.hw in
      let t : (hal.dir_master_read == hal.get_direction c.hw) ≡ true =
        rw (laws.clear_direction transaction_complete off, laws.irq_direction events d.hw, g)
          (==_self hal.dir_master_read) in
      let (r, x, y) = drain_rest-Stores held (held d.hw) k fuel c laws h (omega arith) e b in
      let m : r.transfer.nr_msgs ≡ 1 = ap (λ u. u.nr_msgs) y.transfer ∙ n in
      (
        give hal app os (record r { transfer = record (r.transfer) { nr_msgs = 0 } }),
        complete_phase-acknowledged fuel status d f
            ∙ ap (λ o. complete_by hal app os o fuel c) s
            ∙ complete_by-drained fuel c r t x
            ∙ next_message-last r m,
        y.mem,
        refl,
        ap (λ u. os.sem_give u) y.completion,
      )
