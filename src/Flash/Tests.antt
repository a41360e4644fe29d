-- ===== src/Flash/Tests.antt =====
-- Runs of drivers/flash/flash_hpmicro.c on a simulated flash, and the instances of its theorems.
use hpm_support.Prelude.{ℕ, ◌%◌, ◌≡◌, refl, true, some, List, [], ◌∷◌, ◌++◌, arith, bytes_at}
use hpm_support.Flash.{Dev, Hal, erase}
use hpm_support.Flash.Erased.{sector_bytes, erase_sectors, erase-sectors}

-- The flash is the list of the offsets that have been erased; byte `i` of it is `i % 256`.
abbrev hal : Hal (List ℕ)
hal = record {
  auto_config = λ w. ((0, record { sector_size_kbytes = 4; others = 0 }), w);
  get_property = λ c p old w. (old, w);
  nor_read = λ c offset n w. ((0, bytes_at (λ i. i % 256) offset n), w);
  nor_program = λ c offset bytes w. (0, w);
  erase_sector = λ c offset w. (0, w ++ (offset ∷ []));
}

abbrev dev : ℕ → Dev (List ℕ)
dev kbytes = record {
  initted = true;
  nor_config = record { sector_size_kbytes = kbytes; others = 0 };
  flash_size = 0;
  sector_size = 0;
  block_size = 0;
  page_size = 0;
  hw = [];
}

-- 5000 bytes from 8192 on lie in two sectors of 4096 bytes.
erase-sectors_example :
    erase hal 3 8192 5000 (dev 4)
    ≡ some (
      0,
      record (dev 4) {
        hw = erase_sectors hal 2 ((dev 4).nor_config) 8192 (sector_bytes (dev 4)) [];
      },
    )
erase-sectors_example =
    erase-sectors hal 2 8192 5000 (dev 4) (λ c offset w. refl) refl (omega arith) (omega arith)
      (omega arith) (omega arith)
