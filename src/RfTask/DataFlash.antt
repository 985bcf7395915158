-- ===== src/RfTask/DataFlash.antt =====
-- The DataFlash that firmware/src/rf_task.c keeps its bond in, which the vendor's ROM drives: the
-- 24 bytes at `RF_BOND_EEPROM_OFF` through `EEPROM_READ`, `EEPROM_ERASE` and `EEPROM_WRITE`.
use open_controller.Prelude.{ℕ, ◌≡◌, Bool, true, Option, some, List, length, replicate}

-- Reading fails or gives the bytes; the other two say whether they have succeeded.
pub record Flash : Type 1 where
  pub Page : Type 0
  pub read : Page → Option (List ℕ)
  pub erase : Page → Page × Bool
  pub write : Page → List ℕ → Page × Bool

-- A part in order: a read gives as many bytes as asked for, an erased page reads as ones, and keeps what is written to it.
pub record Works (flash : Flash) : Type 0 where
  pub reads :
      (page : flash.Page) (bytes : List ℕ) → flash.read page ≡ some bytes → length bytes ≡ 24
  pub erases : (page : flash.Page) → (flash.erase page).1 ≡ true
  pub erased : (page : flash.Page) → flash.read (flash.erase page).0 ≡ some (replicate 24 0xff)
  pub written :
      (page : flash.Page) (bytes : List ℕ)
      → flash.read page ≡ some (replicate 24 0xff)
      → length bytes ≡ 24
      → flash.read (flash.write page bytes).0 ≡ some bytes
