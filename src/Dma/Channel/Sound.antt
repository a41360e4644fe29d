-- ===== src/Dma/Channel/Sound.antt =====
-- The calls of the driver on channels that have not been configured.
use mathlib.Core.Path.{subst}
use mathlib.Core.Option
use native.Mathlib.Decide.{ℕ_discrete}
use hpm_support.Prelude.{
  ℕ, ◌<◌, ◌≡◌, ◌∙◌, refl, sym, ap, false, Option, some, List, [], ◌∷◌, length, get_elem?, set,
  get_elem?-set_self, get_elem?-set_ne, get_elem?-lt, get_elem?-some, length-set,
}
use hpm_support.Errno.{Status, success, err, einval, efault}
use hpm_support.Dma.Types.{Channel, Dev, Hal, put_channel}
use hpm_support.Dma.Channel.{start, stop, suspend, resume, reload}

-- A channel that has never been configured, or has been stopped since.
pub record IsUnconfigured (c : Channel) : Type 0 where
  pub valid : c.valid ≡ false
  pub busy : c.busy ≡ false

-- A call on a channel, by the name of the DMA API.
pub data Op : Type 0 where
  start_op stop_op suspend_op resume_op : Op
  reload_op : ℕ → ℕ → ℕ → Op

pub some_inj : {A : Type 0} {a b : A} → Path (Option A) (some a) (some b) → a ≡ b
some_inj e = cc

module _ {Hw : Type 0} (P : Channel → Type 0) where
  -- Every channel has the property.
  abbrev pub Every : Dev Hw → Type 0
  Every d = (k : ℕ) (c : Channel) → get_elem? d.data_cb k ≡ some c → P c

  pub put_channel-Every :
      (i : ℕ) (c : Channel) (d : Dev Hw)
      → i < length d.data_cb
      → P c
      → Every d
      → Every (put_channel i c d)
  put_channel-Every i c d l s all k c' e = elim (ℕ_discrete i k) [
    | yes p ↦
        subst P
          (some_inj
            (sym (get_elem?-set_self d.data_cb i c l) ∙ ap (get_elem? (set d.data_cb i c)) p ∙ e))
          s
    | no n ↦ all k c' (sym (get_elem?-set_ne d.data_cb c n) ∙ e)
  ]

module _ {Hw : Type 0} (hal : Hal Hw) where
  abbrev pub call : ℕ → Op → Dev Hw → Option (Status × Dev Hw)
  call i start_op d = start hal i d
  call i stop_op d = stop hal i d
  call i suspend_op d = suspend hal i d
  call i resume_op d = resume hal i d
  call i (reload_op src dst size) d = reload hal i src dst size d

  -- The calls in order, each on its channel; `none` where one leaves the array of channels.
  abbrev pub run : List (ℕ × Op) → Dev Hw → Option (Dev Hw)
  run [] d = some d
  run (o ∷ os) d = Option.bind (call o.0 o.1 d) (λ r. run os r.1)

  -- Every call names a channel of the controller.
  abbrev pub InRange : ℕ → List (ℕ × Op) → Type 0
  InRange n [] = Unit {0}
  InRange n (o ∷ os) = (o.0 < n) × InRange n os

  -- What one call leaves behind on a controller none of whose channels is configured.
  record Untouched (d : Dev Hw) (r : Status × Dev Hw) : Type 0 where
    hw : r.1.hw ≡ d.hw
    count : length r.1.data_cb ≡ length d.data_cb
    every : Every IsUnconfigured r.1

  call-Untouched :
      (i : ℕ) (o : Op) (d : Dev Hw) (c : Channel)
      → get_elem? d.data_cb i ≡ some c
      → Every IsUnconfigured d
      → (r : Status × Dev Hw) × (call i o d ≡ some r) × Untouched d r
  unfolding start stop suspend resume reload
  call-Untouched i start_op d c e all =
      ((err efault, d), rw (e, (all i c e).valid), record { hw = refl; count = refl; every = all })
  call-Untouched i stop_op d c e all =
      let c' = record c { valid = false } in
      (
        (success, put_channel i c' d),
        rw (e, (all i c e).busy),
        record {
          hw = refl;
          count = length-set d.data_cb i c';
          every =
              put_channel-Every IsUnconfigured i c' d (get_elem?-lt d.data_cb i e)
                (record { valid = refl; busy = (all i c e).busy }) all;
        },
      )
  call-Untouched i suspend_op d c e all =
      ((err einval, d), rw (e, (all i c e).busy), record { hw = refl; count = refl; every = all })
  call-Untouched i resume_op d c e all =
      ((err einval, d), rw (e, (all i c e).busy), record { hw = refl; count = refl; every = all })
  call-Untouched i (reload_op src dst size) d c e all =
      ((err efault, d), rw (e, (all i c e).valid), record { hw = refl; count = refl; every = all })

  -- On a controller none of whose channels has been configured, every sequence of starts, stops,
  -- suspensions, resumptions and reloads of its channels goes through without touching a register
  -- and leaves every channel unconfigured and idle.
  pub run-IsUnconfigured :
      (ops : List (ℕ × Op)) (d : Dev Hw)
      → InRange (length d.data_cb) ops
      → Every IsUnconfigured d
      → (d' : Dev Hw) × (run ops d ≡ some d') × (d'.hw ≡ d.hw) × Every IsUnconfigured d'
  unfolding Option.bind
  run-IsUnconfigured [] d h all = (d, refl, refl, all)
  run-IsUnconfigured (o ∷ os) d h all =
      let (c, e) = get_elem?-some d.data_cb o.0 h.0 in
      let (r, eq, u) = call-Untouched o.0 o.1 d c e all in
      let (d', run', same, all') =
        run-IsUnconfigured os r.1 (subst (λ n. InRange n os) (sym u.count) h.1) u.every in
      (d', rw eq run', same ∙ u.hw, all')
