-- ===== src/Udc/Isr/Chain.antt =====
-- The walk along the descriptors of a transfer in udc_hpm_isr, and the bits of the endpoints.
use hpm_support.Prelude.{
  ℕ, zero, suc, ◌+◌, ◌-◌, ◌%◌, ◌<◌, ◌≤◌, ◌≡◌, ◌==◌, ◌∙◌, refl, arith, Bool, true, false, ◌||◌, none,
  some, List, [], ◌∷◌, if◌then◌else◌, length, Bool-cases, inl, inr,
}
use hpm_support.Udc.Types.{Qtd}
use hpm_support.Udc.Hal.{Stack, Usb}
use hpm_support.Udc.Feed.{is_in}
use hpm_support.Udc.Isr.{ep_idx2bit, ep_addr_of, is_faulty, add_bytes, transfer_length}

-- A descriptor that is not done without a fault
abbrev pub is_undone : Qtd → Bool
is_undone q = is_faulty q || q.active

abbrev pub any_undone : List Qtd → Bool
any_undone [] = false
any_undone (q ∷ qs) = is_undone q || any_undone qs

-- The bytes that the descriptors have moved
abbrev pub moved : List Qtd → ℕ
moved [] = 0
moved (q ∷ qs) = (q.expected_bytes - q.total_bytes) + moved qs

-- No descriptor counts more bytes left than it had, which fits in a word.
abbrev pub IsCounted : List Qtd → Type 0
IsCounted [] = Unit
IsCounted (q ∷ qs) =
    (q.total_bytes ≤ q.expected_bytes) × (q.expected_bytes < 4294967296) × IsCounted qs

module _ {Hw : Type 0} (usb : Usb Hw) where
  -- The descriptors from the address `p` on are `qs`, and the last of them ends the chain.
  abbrev pub IsChain : ℕ → List Qtd → Hw → Type 0
  IsChain p [] hw = ⊥
  IsChain p (q ∷ []) hw = (usb.qtd p hw ≡ q) × ((q.next == usb.next_invalid) ≡ true)
  IsChain p (q ∷ r ∷ qs) hw =
      (usb.qtd p hw ≡ q) × ((q.next == usb.next_invalid) ≡ false) × IsChain q.next (r ∷ qs) hw

add_bytes-lt :
    (n : ℕ) (q : Qtd)
    → q.total_bytes ≤ q.expected_bytes
    → q.expected_bytes < 4294967296
    → n + (q.expected_bytes - q.total_bytes) < 4294967296
    → add_bytes n q ≡ n + (q.expected_bytes - q.total_bytes)
add_bytes-lt n q c w b = omega (arith, c, w, b)

module _ {Core Hw : Type 0} (stack : Stack Core Hw) (usb : Usb Hw) (nocache : Bool) where
  transfer_length-from :
      (k n p : ℕ) (qs : List Qtd) (hw : Hw)
      → IsChain usb p qs hw
      → IsCounted qs
      → n + moved qs < 4294967296
      → length qs ≤ k
      → transfer_length stack usb nocache k p n hw
        ≡ some (if any_undone qs then none else some (n + moved qs))
  unfolding transfer_length
  transfer_length-from k n p [] hw h c b l = absurd h
  transfer_length-from zero n p (q ∷ qs) hw h c b l = absurd (omega (arith, l))
  transfer_length-from (suc k) n p (q ∷ []) hw h c b l =
      let e = add_bytes-lt n q c.0 c.1 (omega (arith, b)) in
      let z : n + (q.expected_bytes - q.total_bytes + 0) ≡ n + (q.expected_bytes - q.total_bytes) =
        omega arith in
      elim (Bool-cases (is_undone q)) [
        | inl u ↦ rw (h.0, u) refl
        | inr u ↦ rw (h.0, u, h.1, e, z) refl
      ]
  transfer_length-from (suc k) n p (q ∷ r ∷ qs) hw h c b l =
      let e = add_bytes-lt n q c.0 c.1 (omega (arith, b)) in
      let m = n + (q.expected_bytes - q.total_bytes) in
      let z : n + moved (q ∷ r ∷ qs) ≡ m + moved (r ∷ qs) = omega arith in
      let i =
        transfer_length-from k m q.next (r ∷ qs) hw h.2 c.2 (omega (arith, b, z))
          (omega (arith, l)) in
      elim (Bool-cases (is_undone q)) [
        | inl u ↦ rw (h.0, u) refl
        | inr u ↦ rw (h.0, u, h.1, e, z) i
      ]

  -- The length of a transfer whose descriptors do not count more bytes left than they had, and have
  -- moved less than 2 ^ 32 in all, is the sum of what each has moved if all of them are done without a
  -- fault, and there is none otherwise; as many rounds as there are descriptors are enough.
  pub transfer_length-moved :
      (k p : ℕ) (qs : List Qtd) (hw : Hw)
      → IsChain usb p qs hw
      → IsCounted qs
      → moved qs < 4294967296
      → length qs ≤ k
      → transfer_length stack usb nocache k p 0 hw
        ≡ some (if any_undone qs then none else some (moved qs))
  transfer_length-moved k p qs hw h c b l =
      let z : 0 + moved qs ≡ moved qs = omega arith in
      transfer_length-from k 0 p qs hw h c (omega (arith, b)) l ∙ rw z refl

-- The bit of an index is that of its endpoint's number, and 16 above it for an endpoint to the host.
pub ep_idx2bit-ep_addr_of :
    (i : ℕ)
    → i < 32
    → (ep_idx2bit i ≡ ep_addr_of i % 128 + (if is_in (ep_addr_of i) then 16 else 0))
      × (ep_idx2bit i < 32)
unfolding is_in
ep_idx2bit-ep_addr_of i h = ground arith

pub ep_idx2bit-injective : (i j : ℕ) → i < 32 → j < 32 → ep_idx2bit i ≡ ep_idx2bit j → i ≡ j
ep_idx2bit-injective i j h l e = ground (arith, h, l, e)
