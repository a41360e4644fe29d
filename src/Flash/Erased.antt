-- ===== src/Flash/Erased.antt =====
-- What drivers/flash/flash_hpmicro.c reads and erases.
use hpm_support.Prelude.{
  ℕ, zero, suc, ◌+◌, ◌*◌, ◌%◌, ◌<◌, ◌≤◌, ◌≡◌, refl, ap, true, false, none, some, ◌∷◌, arith, ltb,
  lt→ltb, if◌then◌else◌, take, bytes_at, Bool-cases, inl, inr,
}
use hpm_support.Flash.{NorConfig, Dev, Hal, init, ensure_init, read, erase_loop, erase}

-- A ROM that reads the bytes of the flash.
abbrev pub ReadsFlash : {Hw : Type 0} → Hal Hw → (Hw → ℕ → ℕ) → Type 0
ReadsFlash {Hw} hal byte =
    (c : NorConfig) (offset n : ℕ) (hw : Hw)
    → hal.nor_read c offset n hw ≡ ((0, bytes_at (byte hw) offset n), hw)

take-bytes_at : (mem : ℕ → ℕ) (n m i : ℕ) → n ≤ m → take n (bytes_at mem i m) ≡ bytes_at mem i n
take-bytes_at mem zero m i l = refl
take-bytes_at mem (suc n) zero i l = absurd (omega (arith, l))
take-bytes_at mem (suc n) (suc m) i l =
    ap (λ xs. mem i ∷ xs) (take-bytes_at mem n m (i + 1) (omega (arith, l)))

-- `k` times `step`
abbrev pub steps : ℕ → ℕ → ℕ
steps zero step = 0
steps (suc k) step = step + steps k step

abbrev pub sector_bytes : {Hw : Type 0} → Dev Hw → ℕ
sector_bytes d = d.nor_config.sector_size_kbytes * 1024

module _ {Hw : Type 0} (hal : Hal Hw) where
  ensure_init-initted : (d : Dev Hw) → d.initted ≡ true → ensure_init hal d ≡ d
  unfolding ensure_init
  ensure_init-initted d e = ap (λ b. if b then d else (init hal (record d { initted = true })).1) e

  -- From a ROM that reads the flash, a read of any size returns 0 and the bytes from the offset on,
  -- as many as the size says, and changes nothing once the driver is initialised.
  pub read-bytes_at :
      (byte : Hw → ℕ → ℕ) (offset size : ℕ) (d : Dev Hw)
      → ReadsFlash hal byte
      → d.initted ≡ true
      → read hal offset size d ≡ ((0, bytes_at (byte d.hw) offset size), d)
  unfolding read
  read-bytes_at byte offset size d rom e = elim (Bool-cases (ltb size 4)) [
    | inl t ↦
        rw (ensure_init-initted d e, rom, t)
          (ap (λ bs. ((0, bs), d)) (take-bytes_at (byte d.hw) size 4 offset (ground (arith, t))))
    | inr t ↦ rw (ensure_init-initted d e, rom d.nor_config offset size d.hw, t) refl
  ]

  -- `n` sectors are erased, from the offset on, each `step` behind the last.
  abbrev pub erase_sectors : ℕ → NorConfig → ℕ → ℕ → Hw → Hw
  erase_sectors zero c offset step hw = hw
  erase_sectors (suc n) c offset step hw =
      erase_sectors n c (offset + step) step (hal.erase_sector c offset hw).1

  -- The ROM erases every sector that it is asked to.
  abbrev pub ErasesAll : Type 0
  ErasesAll = (c : NorConfig) (offset : ℕ) (hw : Hw) → (hal.erase_sector c offset hw).0 ≡ 0

  erase_loop-sectors :
      (n k step : ℕ) (c : NorConfig) (offset size i : ℕ) (hw : Hw)
      → ErasesAll
      → c.sector_size_kbytes * 1024 ≡ step
      → k < n
      → size ≤ i + steps k step
      → i + steps k step < size + step
      → offset + size + step < 4294967296
      → erase_loop hal n c offset size i 0 hw ≡ some (0, erase_sectors k c (offset + i) step hw)
  unfolding erase_loop
  erase_loop-sectors zero k step c offset size i hw all e l a b w = absurd (omega (arith, l))
  erase_loop-sectors (suc n) zero step c offset size i hw all e l a b w =
      let f : ltb i size ≡ false = ground (arith, a) in rw f refl
  erase_loop-sectors (suc n) (suc k) step c offset size i hw all e l a b w =
      let f : ltb i size ≡ true = lt→ltb i size (omega (arith, b)) in
      let o : (offset + i) % 4294967296 ≡ offset + i = omega (arith, b, w) in
      let j : (i + step) % 4294967296 ≡ i + step = omega (arith, b, w) in
      let q : offset + i + step ≡ offset + (i + step) = omega arith in
      let hw' = (hal.erase_sector c (offset + i) hw).1 in
      rw (f, e, o, j, all, q)
        (erase_loop-sectors n k step c offset size (i + step) hw' all e (omega (arith, l))
          (omega (arith, a)) (omega (arith, b)) w)

  -- With a ROM that erases what it is asked to, an erase of 4 bytes or more on an initialised driver
  -- erases the sectors from the offset on, in order and each once, as many as are needed to hold
  -- the size, and returns 0; as many rounds as sectors, and one, are enough.
  pub erase-sectors :
      (k offset size : ℕ) (d : Dev Hw)
      → ErasesAll
      → d.initted ≡ true
      → 4 ≤ size
      → size ≤ steps k (sector_bytes d)
      → steps k (sector_bytes d) < size + sector_bytes d
      → offset + size + sector_bytes d < 4294967296
      → erase hal (suc k) offset size d
        ≡ some (0, record d { hw = erase_sectors k d.nor_config offset (sector_bytes d) d.hw })
  unfolding erase
  erase-sectors k offset size d all e m a b w =
      let f : ltb size 4 ≡ false = ground (arith, m) in
      let z : offset + 0 ≡ offset = omega arith in
      let r =
        erase_loop-sectors (suc k) k (sector_bytes d) d.nor_config offset size 0 d.hw all refl
          (omega arith) (omega (arith, a)) (omega (arith, b)) w in
      rw (ensure_init-initted d e, f, r, z) refl

  erase_loop-stuck :
      (n : ℕ) (c : NorConfig) (offset size : ℕ) (hw : Hw)
      → ErasesAll
      → c.sector_size_kbytes ≡ 0
      → 0 < size
      → erase_loop hal n c offset size 0 0 hw ≡ none
  unfolding erase_loop
  erase_loop-stuck zero c offset size hw all e l = refl
  erase_loop-stuck (suc n) c offset size hw all e l =
      let f = lt→ltb 0 size l in
      let hw' = (hal.erase_sector c ((offset + 0) % 4294967296) hw).1 in
      let g : (0 + c.sector_size_kbytes * 1024) % 4294967296 ≡ 0 = omega (arith, e) in
      rw (f, all, g) (erase_loop-stuck n c offset size hw' all e l)

  -- On a driver whose configuration has a sector size of 0, as a failed configuration can leave it,
  -- an erase that the ROM takes never ends.
  pub erase-stuck :
      (fuel offset size : ℕ) (d : Dev Hw)
      → ErasesAll
      → d.initted ≡ true
      → d.nor_config.sector_size_kbytes ≡ 0
      → erase hal fuel offset size d ≡ none
  unfolding erase
  erase-stuck fuel offset size d all e z = elim (Bool-cases (ltb size 4)) [
    | inl t ↦ rw t refl
    | inr t ↦
        rw
          (
            t,
            ensure_init-initted d e,
            erase_loop-stuck fuel d.nor_config offset size d.hw all z (ground (arith, t)),
          )
          refl
  ]
