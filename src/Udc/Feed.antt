-- ===== src/Udc/Feed.antt =====
-- udc_hpm_ep_feed and udc_hpm_ep_try_feed. `nocache` is `CONFIG_NOCACHE_MEMORY`.
use hpm_support.Prelude.{
  ℕ, ◌+◌, ◌-◌, ◌==◌, Bool, true, false, ◌&&◌, Option, none, some, if◌then◌else◌, ltb, leb, test_bit,
}
use hpm_support.Errno.{Status, success, ok, err, ebusy, eacces, eio}
use hpm_support.Udc.Types.{Buf, Dev}
use hpm_support.Udc.Hal.{Stack, Usb}

-- `memset(p, 0, n)` and `memcpy(to, from, n)`
abbrev pub clear_at : ℕ → ℕ → (ℕ → ℕ) → ℕ → ℕ
clear_at p n mem a = if leb p a && ltb a (p + n) then 0 else mem a

abbrev pub copy_at : ℕ → ℕ → ℕ → (ℕ → ℕ) → ℕ → ℕ
copy_at to from n mem a = if leb to a && ltb a (to + n) then mem (from + (a - to)) else mem a

abbrev pub at {ℓ} : {A : Type ℓ} → ℕ → A → (ℕ → A) → ℕ → A
at k v f x = if x == k then v else f x

-- `USB_EP_DIR_IS_IN`
unfoldable pub is_in : ℕ → Bool
is_in ep = test_bit ep 7

module _ {Core Hw : Type 0} where
  abbrev pub on_core : (Core → Core) → Dev Core Hw → Dev Core Hw
  on_core f d = record d { core = f d.core }

  abbrev pub on_hw : (Hw → Hw) → Dev Core Hw → Dev Core Hw
  on_hw f d = record d { hw = f d.hw }

  abbrev pub put_buf : ℕ → Buf → Dev Core Hw → Dev Core Hw
  put_buf k b d = record d { bufs = at k b d.bufs }

  abbrev pub copy : ℕ → ℕ → ℕ → Dev Core Hw → Dev Core Hw
  copy to from n d = record d { mem = copy_at to from n d.mem }

  -- The result of `k_heap_alloc`, and the cleared memory
  abbrev pub cleared : ℕ → ℕ × Core → Dev Core Hw → ℕ × Dev Core Hw
  cleared size (p, c) d =
      (p, record d { core = c; mem = if p == 0 then d.mem else clear_at p size d.mem })

  abbrev pub transferred : Bool × Hw → Dev Core Hw → Bool × Dev Core Hw
  transferred (status, hw) d = (status, record d { hw = hw })

module _ {Core Hw : Type 0} (stack : Stack Core Hw) (usb : Usb Hw) (nocache : Bool) where
  -- `udc_hpm_nocache_alloc`, `udc_hpm_nocache_free`
  unfoldable pub nocache_alloc : ℕ → Dev Core Hw → ℕ × Dev Core Hw
  nocache_alloc size d = cleared size (stack.heap_alloc size d.core) d

  unfoldable pub nocache_free : ℕ → Dev Core Hw → Dev Core Hw
  nocache_free p d = if p == 0 then d else on_core (stack.heap_free p) d

  -- Where the data of a transfer goes or comes from, and its length
  abbrev pub out_target : ℕ → Dev Core Hw → ℕ × Dev Core Hw
  out_target b d =
      let len = stack.tailroom (d.bufs b) in
      if nocache
      then if len == 0 then (0, d) else nocache_alloc len d
      else (stack.tail (d.bufs b), d)

  abbrev pub filled : ℕ → ℕ × Dev Core Hw → ℕ × Dev Core Hw
  filled b (p, d) = (p, copy p (Buf.addr (d.bufs b)) (Buf.len (d.bufs b)) d)

  abbrev pub in_source : ℕ → Dev Core Hw → ℕ × Dev Core Hw
  in_source b d =
      if nocache
      then filled b
          (if Buf.len (d.bufs b) == 0 then (0, d) else nocache_alloc (Buf.len (d.bufs b)) d)
      else (Buf.addr (d.bufs b), d)

  abbrev pub xfer : ℕ → ℕ → ℕ × Dev Core Hw → Bool × Dev Core Hw
  xfer ep len (p, d) = transferred (usb.edpt_xfer ep p len d.hw) d

  unfoldable pub start_xfer : ℕ → ℕ → Dev Core Hw → Bool × Dev Core Hw
  start_xfer ep b d =
      if is_in ep
      then xfer ep (Buf.len (d.bufs b)) (in_source b d)
      else xfer ep (stack.tailroom (d.bufs b)) (out_target b d)

  abbrev pub fed : ℕ → Bool × Dev Core Hw → Status × Dev Core Hw
  fed ep (true, d) = (success, d)
  fed ep (false, d) = (err eio, on_core (stack.set_busy ep false) d)

  -- `udc_hpm_ep_feed`
  unfoldable pub ep_feed : ℕ → ℕ → Dev Core Hw → Status × Dev Core Hw
  ep_feed ep b d =
      if stack.is_busy ep d.core
      then (err ebusy, d)
      else fed ep (start_xfer ep b (on_core (stack.set_busy ep true) d))

  -- What `udc_hpm_ep_try_feed` makes of the result
  abbrev pub tried : Status → Status
  tried (ok u) = success
  tried (err ebusy) = success
  tried (err eacces) = success
  tried (err e) = err eio

  abbrev pub feed_head : ℕ → Option ℕ → Dev Core Hw → Status × Dev Core Hw
  feed_head ep none d = (success, d)
  feed_head ep (some b) d = let (st, r) = ep_feed ep b d in (tried st, r)

  -- `udc_hpm_ep_try_feed`
  unfoldable pub ep_try_feed : ℕ → Dev Core Hw → Status × Dev Core Hw
  ep_try_feed ep d = feed_head ep (stack.buf_peek ep d.core) d
