-- ===== src/Uart/Isr/Stream.antt =====
-- The bytes that the receive timeouts of drivers/serial/uart_hpmicro.c report to the application.
use hpm_support.Prelude.{
  ℕ, zero, suc, ◌+◌, ◌-◌, ◌≤◌, ◌<◌, ◌≡◌, ◌∙◌, sym, refl, ap, some, List, [], ◌∷◌, ◌++◌, arith,
  lt→ltb, bytes_at,
}
use mathlib.Core.List.{append-nil, append_assoc}
use hpm_support.Errno.{success}
use hpm_support.Uart.Types.{
  UartCfg, Event, tx_done, tx_aborted, rx_rdy, rx_buf_request, rx_buf_released, rx_disabled,
  dma_rx_dev, Dev,
}
use hpm_support.Uart.Hal.{Hal, App, word, add32, sub32}
use hpm_support.Uart.Event.{evt_rx_rdy}
use hpm_support.Uart.Rx.{flush_pending, async_rx_flush, suspend_rx}
use hpm_support.Uart.Isr.{rx_timeout}

bytes_at-append :
    (mem : ℕ → ℕ) (i n m : ℕ) → bytes_at mem i n ++ bytes_at mem (i + n) m ≡ bytes_at mem i (n + m)
bytes_at-append mem i zero m =
    let e : 0 + m ≡ m = omega arith in let f : i + 0 ≡ i = omega arith in rw (e, f) refl
bytes_at-append mem i (suc n) m =
    let e : i + suc n ≡ i + 1 + n = omega arith in
    let f : suc n + m ≡ suc (n + m) = omega arith in
    rw (e, f) (ap (λ xs. mem i ∷ xs) (bytes_at-append mem (i + 1) n m))

-- The bytes that the events, the latest first, give to the application, in order.
abbrev pub delivered : (ℕ → ℕ) → List Event → List ℕ
delivered mem [] = []
delivered mem (rx_rdy buf len offset ∷ es) = delivered mem es ++ bytes_at mem (buf + offset) len
delivered mem (tx_done buf len ∷ es) = delivered mem es
delivered mem (tx_aborted buf len ∷ es) = delivered mem es
delivered mem (rx_buf_request ∷ es) = delivered mem es
delivered mem (rx_buf_released buf ∷ es) = delivered mem es
delivered mem (rx_disabled ∷ es) = delivered mem es

-- The state of a flush that reports `len` bytes.
abbrev pub flushed : {Hw : Type 0} → ℕ → Dev Hw → Dev Hw
flushed zero d = record d {
  dma_rxinfo = record (d.dma_rxinfo) { current_size = 0 };
  diag = record (d.diag) { rx_flush_zero = add32 d.diag.rx_flush_zero 1 };
}
flushed (suc k) d = record d {
  dma_rxinfo = record (d.dma_rxinfo) {
    current_size = suc k;
    current_offset = d.dma_rxinfo.current_offset + suc k;
  };
  diag = record (d.diag) { rx_flush_nonzero = add32 d.diag.rx_flush_nonzero 1 };
  events = rx_rdy d.dma_rxinfo.current_buf (suc k) d.dma_rxinfo.current_offset ∷ d.events;
}

-- The receive channel: how many bytes it has yet to write is what `dma_get_status` reports, and
-- suspending it or disabling the receive interrupt does not change that.
pub record DmaLaws {Hw : Type 0} (hal : Hal Hw) (cfg : UartCfg) (left : Hw → ℕ) : Type 0 where
  pub get_status_lem :
      (hw : Hw) → hal.dma_get_status dma_rx_dev cfg.rx_channel hw ≡ ((success, left hw), hw)
  pub disable_irq_lem : (hw : Hw) → left (hal.disable_rx_irq hw) ≡ left hw
  pub suspend_lem : (hw : Hw) → left (hal.dma_suspend dma_rx_dev cfg.rx_channel hw).1 ≡ left hw

-- The application does not call the driver when it is given bytes.
abbrev pub KeepsOnReady : {Hw : Type 0} → App Hw → Type 0
KeepsOnReady {Hw} app =
    (cb arg buf len offset : ℕ) (d : Dev Hw) → app.on_event cb arg (rx_rdy buf len offset) d ≡ d

-- A reception of which all but the last `n` bytes of the buffer have been reported.
pub record IsSynced {Hw : Type 0} (cb n : ℕ) (d : Dev Hw) : Type 0 where
  pub callback : d.idle_user_callback ≡ some cb
  pub sync : d.dma_rxinfo.current_offset + n ≡ d.dma_rxinfo.current_total_size
  pub bound : d.dma_rxinfo.current_total_size < word

sub32-sub32 : (o n p t : ℕ) → o + n ≡ t → t < word → p ≤ n → sub32 (sub32 t o) p ≡ n - p
sub32-sub32 o n p t e b l = omega arith

add32-lt : (o k : ℕ) → o + k < word → add32 o k ≡ o + k
add32-lt o k h = omega arith

module _ {Hw : Type 0} (hal : Hal Hw) (app : App Hw) (cfg : UartCfg) where
  flush_pending-len :
      (k p cb : ℕ) (d : Dev Hw)
      → KeepsOnReady app
      → sub32 (sub32 d.dma_rxinfo.current_total_size d.dma_rxinfo.current_offset) p ≡ k
      → d.idle_user_callback ≡ some cb
      → d.dma_rxinfo.current_offset + k < word
      → flush_pending hal app cfg p d ≡ flushed k d
  unfolding flush_pending evt_rx_rdy
  flush_pending-len zero p cb d keeps e c b = rw e refl
  flush_pending-len (suc k) p cb d keeps e c b =
      rw
        (
          e,
          lt→ltb 0 (suc k) (omega arith),
          c,
          keeps,
          add32-lt d.dma_rxinfo.current_offset (suc k) b,
        )
        refl

  pub flush_pending-IsSynced :
      (n p cb : ℕ) (d : Dev Hw)
      → KeepsOnReady app
      → IsSynced cb n d
      → p ≤ n
      → flush_pending hal app cfg p d ≡ flushed (n - p) d
  flush_pending-IsSynced n p cb d keeps s l =
      flush_pending-len (n - p) p cb d keeps
        (sub32-sub32 d.dma_rxinfo.current_offset n p d.dma_rxinfo.current_total_size s.sync s.bound
          l)
        s.callback (omega (arith, s.sync, s.bound, l))

  pub async_rx_flush-IsSynced :
      (left : Hw → ℕ) (n cb : ℕ) (d : Dev Hw)
      → DmaLaws hal cfg left
      → KeepsOnReady app
      → IsSynced cb n d
      → left d.hw ≤ n
      → async_rx_flush hal app cfg d ≡ flushed (n - left d.hw) d
  unfolding async_rx_flush
  async_rx_flush-IsSynced left n cb d laws keeps s l =
      simp (laws.get_status_lem d.hw, flush_pending-IsSynced n (left d.hw) cb d keeps s l)

-- From `d` to `d'` the application is given the bytes of the current buffer that were the last
-- `n`, up to those that are now the last `p`.
pub record Reports {Hw : Type 0} (mem : ℕ → ℕ) (cb n p : ℕ) (d d' : Dev Hw) : Type 0 where
  pub synced : IsSynced cb p d'
  pub bytes :
      delivered mem d'.events
      ≡ delivered mem d.events
        ++ bytes_at mem (d.dma_rxinfo.current_buf + d.dma_rxinfo.current_offset) (n - p)
  pub buf : d'.dma_rxinfo.current_buf ≡ d.dma_rxinfo.current_buf
  pub offset : d'.dma_rxinfo.current_offset ≡ d.dma_rxinfo.current_offset + (n - p)

pub flushed-Reports :
    {Hw : Type 0} (mem : ℕ → ℕ) (cb n p k : ℕ) (d : Dev Hw)
    → IsSynced cb n d
    → p ≤ n
    → n - p ≡ k
    → Reports mem cb n p d (flushed k d)
flushed-Reports mem cb n p zero d s l e = record {
  synced = record { callback = s.callback; sync = omega (arith, s.sync, l, e); bound = s.bound };
  bytes = rw e (sym (append-nil (delivered mem d.events)));
  buf = refl;
  offset = omega (arith, e);
}
flushed-Reports mem cb n p (suc k) d s l e = record {
  synced = record { callback = s.callback; sync = omega (arith, s.sync, l, e); bound = s.bound };
  bytes = rw e refl;
  buf = refl;
  offset = omega (arith, e);
}

Reports-trans :
    {Hw : Type 0} (mem : ℕ → ℕ) (cb n p q : ℕ) (a b c : Dev Hw)
    → p ≤ n
    → q ≤ p
    → Reports mem cb n p a b
    → Reports mem cb p q b c
    → Reports mem cb n q a c
Reports-trans mem cb n p q a b c l m r s =
    let i = a.dma_rxinfo.current_buf + a.dma_rxinfo.current_offset in
    let j : b.dma_rxinfo.current_buf + b.dma_rxinfo.current_offset ≡ i + (n - p) =
      omega (arith, r.buf, r.offset) in
    let k : n - p + (p - q) ≡ n - q = omega (arith, l, m) in
    record {
      synced = s.synced;
      bytes =
          s.bytes
          ∙ rw (r.bytes, j, sym k, sym (bytes_at-append mem i (n - p) (p - q)))
              (append_assoc (delivered mem a.events) (bytes_at mem i (n - p))
                (bytes_at mem (i + (n - p)) (p - q)));
      buf = s.buf ∙ r.buf;
      offset = omega (arith, l, m, r.offset, s.offset);
    }

module _ {Hw : Type 0} (hal : Hal Hw) (app : App Hw) (cfg : UartCfg) where
  rx_timeout-Reports :
      (left : Hw → ℕ) (mem : ℕ → ℕ) (cb n : ℕ) (d : Dev Hw)
      → DmaLaws hal cfg left
      → KeepsOnReady app
      → IsSynced cb n d
      → left d.hw ≤ n
      → Reports mem cb n (left d.hw) d (rx_timeout hal app cfg d)
  unfolding rx_timeout
  rx_timeout-Reports left mem cb n d laws keeps s l =
      let c : Dev Hw =
        suspend_rx hal app cfg (record d {
          diag = record (d.diag) { irq_rx_timeout = add32 d.diag.irq_rx_timeout 1 };
        }) in
      let t : IsSynced cb n c = record { callback = s.callback; sync = s.sync; bound = s.bound } in
      let e = laws.suspend_lem d.hw in
      let r = flushed-Reports mem cb n (left d.hw) (n - left d.hw) c t l refl in
      let f = async_rx_flush-IsSynced hal app cfg left n cb c laws keeps t (rw e l) in
      rw (f, e)
        (record {
          synced = record {
            callback = r.synced.callback;
            sync = r.synced.sync;
            bound = r.synced.bound;
          };
          bytes = r.bytes;
          buf = r.buf;
          offset = r.offset;
        })

  -- The controller has written more of the buffer, whenever a timeout occurs.
  abbrev pub Falls : (Hw → ℕ) → ℕ → List Hw → Type 0
  Falls left n [] = Unit {0}
  Falls left n (hw ∷ hws) = (left hw ≤ n) × Falls left (left hw) hws

  -- What is left to be written at the last timeout.
  abbrev pub last_left : (Hw → ℕ) → ℕ → List Hw → ℕ
  last_left left n [] = n
  last_left left n (hw ∷ hws) = last_left left (left hw) hws

  -- A timeout at each of the states of the hardware.
  abbrev pub timeouts : List Hw → Dev Hw → Dev Hw
  timeouts [] d = d
  timeouts (hw ∷ hws) d = timeouts hws (rx_timeout hal app cfg (record d { hw = hw }))

  last_left-le :
      (left : Hw → ℕ) (n : ℕ) (hws : List Hw) → Falls left n hws → last_left left n hws ≤ n
  last_left-le left n [] h = omega arith
  last_left-le left n (hw ∷ hws) h =
      let r = last_left-le left (left hw) hws h.1 in omega (arith, r, h.0)

  -- However many receive timeouts occur while the controller fills the current buffer, the
  -- application that takes its bytes from the events is given exactly the bytes that were written
  -- since the last report up to the last timeout, each once and in order, and the driver's offset
  -- says how far that is.
  pub timeouts-Reports :
      (left : Hw → ℕ) (mem : ℕ → ℕ) (cb n : ℕ) (hws : List Hw) (d : Dev Hw)
      → DmaLaws hal cfg left
      → KeepsOnReady app
      → IsSynced cb n d
      → Falls left n hws
      → Reports mem cb n (last_left left n hws) d (timeouts hws d)
  timeouts-Reports left mem cb n [] d laws keeps s h = record {
    synced = s;
    bytes = let e : n - n ≡ 0 = omega arith in rw e (sym (append-nil (delivered mem d.events)));
    buf = refl;
    offset = omega arith;
  }
  timeouts-Reports left mem cb n (hw ∷ hws) d laws keeps s h =
      let c : Dev Hw = record d { hw = hw } in
      let t : IsSynced cb n c = record { callback = s.callback; sync = s.sync; bound = s.bound } in
      let a = rx_timeout-Reports left mem cb n c laws keeps t h.0 in
      let b =
        timeouts-Reports left mem cb (left hw) hws (rx_timeout hal app cfg c) laws keeps a.synced
          h.1 in
      let r =
        Reports-trans mem cb n (left hw) (last_left left n (hw ∷ hws)) c _ _ h.0
          (last_left-le left (left hw) hws h.1) a b in
      record { synced = r.synced; bytes = r.bytes; buf = r.buf; offset = r.offset }
