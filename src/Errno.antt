-- ===== src/Errno.antt =====
-- The results that the drivers return. A C function that returns `0` or a count on success and
-- `-Exxx` on failure returns `ok` of that value, or `err` of the error's name.
use hpm_support.Prelude.{◌≡◌, ◌↔◌, refl, Bool, true, false}

pub data Errno : Type 0 where
  einval ebusy eagain enospc enotsup enetdown enetunreach eio ealready enosys efault : Errno
  enomem enobufs eacces econnaborted enxio enodev : Errno

pub data Result {ℓ} (A : Type ℓ) : Type ℓ where
  ok : A → Result A
  err : Errno → Result A

-- A function whose only success is 0.
abbrev pub Status : Type 0
Status = Result (Unit {0})

abbrev pub success : Status
success = ok tt

abbrev pub is_ok {ℓ} : {A : Type ℓ} → Result A → Bool
is_ok (ok a) = true
is_ok (err e) = false

-- `if (ret != 0) return ret;` before the rest of a call: on an error the state stays as it is.
abbrev pub on_ok {ℓ} : {S : Type ℓ} → Status → Status × S → S → Status × S
on_ok (ok u) rest s = rest
on_ok (err e) rest s = (err e, s)

-- The first of two results that is an error.
abbrev pub both : Status → Status → Status
both (ok u) r = r
both (err e) r = err e

pub both-success : (a b : Status) → (both a b ≡ success) ↔ ((a ≡ success) × (b ≡ success))
both-success (ok u) b = (λ h. (refl, h), λ h. h.1)
both-success (err e) b = (λ h. cc, λ h. cc)

-- What holds of an error at the old state and of the rest of the call holds of the whole.
pub on_ok_ind {ℓ κ} :
    {S : Type ℓ} (P : Status × S → Type κ) (st : Status) (rest : Status × S) (s : S)
    → ((e : Errno) → P (err e, s))
    → P rest
    → P (on_ok st rest s)
on_ok_ind P (ok u) rest s failed done = done
on_ok_ind P (err e) rest s failed done = failed e
