-- ===== src/Flash.antt =====
-- The flash driver, drivers/flash/flash_hpmicro.c. The functions of the ROM are parameters (`Hal`), and
-- their statuses are numbers, with 0 for success.
pub mod Erased
mod Tests
use mathlib.Core.Option
use hpm_support.Prelude.{
  ℕ, zero, suc, ◌+◌, ◌*◌, ◌%◌, Bool, true, Option, none, some, List, ltb, ◌==◌, if◌then◌else◌, take,
}

-- `xpi_nor_config_t`: what the driver reads of it, and the rest by a number.
pub record NorConfig : Type 0 where
  pub sector_size_kbytes : ℕ
  pub others : ℕ

-- `xpi_nor_property_*`
pub data Property : Type 0 where
  total_size sector_size block_size page_size : Property

-- The module's variables and the flash. The lock of the interrupts that an operation takes around its
-- calls of the ROM, and gives back, is left out.
pub record Dev (Hw : Type 0) : Type 0 where
  pub initted : Bool
  pub nor_config : NorConfig
  pub flash_size : ℕ
  pub sector_size : ℕ
  pub block_size : ℕ
  pub page_size : ℕ
  pub hw : Hw

pub record Hal (Hw : Type 0) : Type 0 where
  -- `rom_xpi_nor_auto_config` with the option words of the device tree
  pub auto_config : Hw → (ℕ × NorConfig) × Hw
  -- `rom_xpi_nor_get_property`: the variable after the call, by the variable before it
  pub get_property : NorConfig → Property → ℕ → Hw → ℕ × Hw
  -- `rom_xpi_nor_read`, by configuration, offset and size; the memory that it has filled
  pub nor_read : NorConfig → ℕ → ℕ → Hw → (ℕ × List ℕ) × Hw
  pub nor_program : NorConfig → ℕ → List ℕ → Hw → ℕ × Hw
  pub erase_sector : NorConfig → ℕ → Hw → ℕ × Hw

module _ {Hw : Type 0} (hal : Hal Hw) where
  -- `flash_hpmicro_init` after a successful configuration
  abbrev pub read_properties : Dev Hw → Dev Hw
  read_properties d =
      let (total, h1) = hal.get_property d.nor_config total_size d.flash_size d.hw in
      let (sector, h2) = hal.get_property d.nor_config sector_size d.sector_size h1 in
      let (block, h3) = hal.get_property d.nor_config block_size d.block_size h2 in
      let (page, h4) = hal.get_property d.nor_config page_size d.page_size h3 in
      record d {
        initted = true;
        flash_size = total;
        sector_size = sector;
        block_size = block;
        page_size = page;
        hw = h4;
      }

  -- `flash_hpmicro_init`
  unfoldable pub init : Dev Hw → ℕ × Dev Hw
  init d =
      let ((status, config), hw) = hal.auto_config d.hw in
      let d' : Dev Hw = record d { nor_config = config; hw = hw } in
      if status == 0 then (0, read_properties d') else (status, d')

  -- The first lines of the three operations
  unfoldable pub ensure_init : Dev Hw → Dev Hw
  unfolding init
  ensure_init d = if d.initted then d else (init (record d { initted = true })).1

  -- `flash_hpmicro_read`: the status and the bytes in `data`
  unfoldable pub read : ℕ → ℕ → Dev Hw → (ℕ × List ℕ) × Dev Hw
  read offset size d =
      let e = ensure_init d in
      let ((s4, temp), h4) = hal.nor_read e.nor_config offset 4 e.hw in
      let (r, h) = hal.nor_read e.nor_config offset size e.hw in
      if ltb size 4 then ((s4, take size temp), record e { hw = h4 }) else (r, record e { hw = h })

  -- `flash_hpmicro_write`
  unfoldable pub write : ℕ → List ℕ → Dev Hw → ℕ × Dev Hw
  write offset bytes d =
      let e = ensure_init d in
      let (status, hw) = hal.nor_program e.nor_config offset bytes e.hw in
      (status, record e { hw = hw })

  -- The loop of `flash_hpmicro_erase`: at most `n` rounds are left, `i` is where it stands and
  -- `status` what it has met; `none` says that it has not ended.
  unfoldable pub erase_loop : ℕ → NorConfig → ℕ → ℕ → ℕ → ℕ → Hw → Option (ℕ × Hw)
  erase_loop zero c offset size i status hw = none
  erase_loop (suc n) c offset size i status hw =
      let (s, hw') = hal.erase_sector c ((offset + i) % 4294967296) hw in
      let rest =
        erase_loop n c offset size ((i + c.sector_size_kbytes * 1024) % 4294967296) s hw' in
      if ltb i size then if s == 0 then rest else some (s, hw') else some (status, hw)

  -- `flash_hpmicro_erase`; a size below 4 ends in an empty loop.
  unfoldable pub erase : ℕ → ℕ → ℕ → Dev Hw → Option (ℕ × Dev Hw)
  erase fuel offset size d =
      let e = ensure_init d in
      if ltb size 4
      then none
      else Option.map (λ r. (r.0, record e { hw = r.1 }))
          (erase_loop fuel e.nor_config offset size 0 0 e.hw)
