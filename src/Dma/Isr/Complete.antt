-- ===== src/Dma/Isr/Complete.antt =====
-- A transfer from its configuration to its end.
use hpm_support.Prelude.{
  ℕ, ◌≤◌, ◌≡◌, refl, Bool, true, false, some, ◌∷◌, get_elem?, get_elem?-set_self, get_elem?-lt,
  length-set, arith,
}
use hpm_support.Errno.{Status, success}
use hpm_support.Dma.Types.{DmaConfig, Channel, Dev, Hal, put_channel}
use hpm_support.Dma.Configure.{handshakes, configure}
use hpm_support.Dma.Configure.Outcome.{configure-Configured}
use hpm_support.Dma.Channel.{start}
use hpm_support.Dma.Isr.{callback, handle_channel}

module _ {Hw : Type 0} (hal : Hal Hw) where
  -- A started transfer that has come to its end: the one call that was made since, and the channel.
  pub record Ended (i cb : ℕ) (c : DmaConfig) (d d' : Dev Hw) : Type 0 where
    pub call :
        d'.calls
        ≡ record { callback = cb; user_data = c.user_data; channel = i; success = true } ∷ d.calls
    pub channel :
        (ch : Channel) × (get_elem? d'.data_cb i ≡ some ch) × (ch.valid ≡ true) × (ch.busy ≡ false)

  -- The transfer in its three steps.
  pub record Transfer (i cb : ℕ) (c : DmaConfig) (d : Dev Hw) : Type 0 where
    pub configured : Status × Dev Hw
    pub started : Dev Hw
    pub running : Channel
    pub ended : Dev Hw
    pub configures : configure hal i (some c) d ≡ some configured
    pub starts : start hal i configured.1 ≡ some (success, started)
    pub runs : get_elem? started.data_cb i ≡ some running
    pub busy : running.busy ≡ true
    pub ends : handle_channel hal i running started ≡ some ended
    pub outcome : Ended i cb c d ended

  -- A channel that is configured with a callback and started is busy; if the controller reports the
  -- end of its transfer, the handler calls that callback once, with its user data and a status of
  -- success, and the channel is idle and can be started again.
  pub handle_channel-Transfer :
      (i cb : ℕ) (c : DmaConfig) (modes : Bool × Bool) (ch : Channel) (d : Dev Hw)
      → get_elem? d.data_cb i ≡ some ch
      → c.dma_slot ≤ hal.dma_requests
      → handshakes c.channel_direction ≡ some modes
      → c.dma_callback ≡ some cb
      → ((hw : Hw) → (hal.check_transfer_status i hw).0.tc ≡ true)
      → Transfer i cb c d
  unfolding start handle_channel callback
  handle_channel-Transfer i cb c modes ch d e slot dir given tc =
      let (cfg, r, run, p, st, done) = configure-Configured hal i c modes ch d e slot dir in
      let (ch1, at, stored, inst) = done.stored in
      let (called, arg) = inst.installed cb given in
      let d1 = r.1 in
      let ch2 = record ch1 { busy = true } in
      let d2 = put_channel i ch2 (record d1 { hw = hal.enable_channel i d1.hw }) in
      let l = get_elem?-lt d1.data_cb i at in
      let ch3 = record ch2 { busy = false } in
      let d3 = put_channel i ch3 (record d2 { hw = (hal.check_transfer_status i d2.hw).1 }) in
      record {
        configured = r;
        started = d2;
        running = ch2;
        ended = record d3 {
          calls =
              record { callback = cb; user_data = ch1.user_data; channel = i; success = true }
              ∷ d3.calls;
        };
        configures = run;
        starts = rw (at, stored.valid);
        runs = get_elem?-set_self d1.data_cb i ch2 l;
        busy = refl;
        ends = rw (tc (hal.enable_channel i d1.hw), called);
        outcome = record {
          call = rw (arg, done.calls);
          channel = (
            ch3,
            get_elem?-set_self d2.data_cb i ch3 (omega (arith, length-set d1.data_cb i ch2)),
            stored.valid,
            refl,
          );
        };
      }
