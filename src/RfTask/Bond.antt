-- ===== src/RfTask/Bond.antt =====
-- The bond of firmware/src/rf_task.c with its dongle, in memory and in the DataFlash: from
-- `rf_bond_checksum` to `rf_clear_bond_flash`.
pub mod Bytes
pub mod RoundTrip
pub mod Corruption
mod Tests
use open_controller.Prelude.{
  ℕ, zero, suc, ◌+◌, ◌*◌, ◌/◌, ◌^◌, Bool, true, false, not, ◌&&◌, ◌||◌, Option, none, some, List,
  [], ◌∷◌, ◌++◌, ◌==◌, if◌then◌else◌, get_or, take, drop, replicate, u8, u32,
}
use open_controller.RfTask.DataFlash.{Flash}

-- `RF_BOND_MAGIC`, `RF_BOND_VERSION` and `RF_DEFAULT_ACCESS_ADDR`
abbrev pub bond_magic : ℕ
bond_magic = 0x3244424b

abbrev pub bond_version : ℕ
bond_version = 1

abbrev pub default_access_addr : ℕ
default_access_addr = 0x71764126

-- `has_bond`, `stored_dongle_mac`, `stored_session_aa` and `stored_type_tag`
pub record Bond : Type 0 where
  pub has_bond : Bool
  pub dongle_mac : List ℕ
  pub session_aa : ℕ
  pub type_tag : ℕ

-- An `rf_bond_record_t` is the bytes that it takes up; a word lies in them with its low byte first.
abbrev pub word : List ℕ → ℕ → ℕ
word bytes i =
    get_or bytes i 0
    + 2 ^ 8 * get_or bytes (i + 1) 0
    + 2 ^ 16 * get_or bytes (i + 2) 0
    + 2 ^ 24 * get_or bytes (i + 3) 0

abbrev pub word_bytes : ℕ → List ℕ
word_bytes w = u8 w ∷ u8 (w / 2 ^ 8) ∷ u8 (w / 2 ^ 16) ∷ u8 (w / 2 ^ 24) ∷ []

-- The loop of `rf_bond_checksum`: the sum so far, the bytes and rounds that are left.
pub sum_bytes : ℕ → List ℕ → ℕ → ℕ
sum_bytes sum bytes zero = sum
sum_bytes sum [] (suc n) = sum
sum_bytes sum (b ∷ bytes) (suc n) = sum_bytes (u32 (sum + b)) bytes n

-- `rf_bond_checksum`, over all but the record's last word.
abbrev pub bond_checksum : List ℕ → ℕ
bond_checksum bytes = sum_bytes 0 bytes 20

-- `rf_bond_record_valid`
unfoldable pub bond_record_valid : List ℕ → Bool
bond_record_valid bytes =
    if not (word bytes 0 == bond_magic) || not (get_or bytes 4 0 == bond_version)
    then false
    else if not (word bytes 20 == bond_checksum bytes)
    then false
    else not (word bytes 8 == 0 || word bytes 8 == default_access_addr)

-- `rf_build_bond_record`, up to the checksum.
pub bond_fields : Bond → List ℕ
bond_fields b =
    word_bytes bond_magic
    ++ bond_version ∷ b.type_tag ∷ 0 ∷ 0 ∷ word_bytes b.session_aa
    ++ b.dongle_mac
    ++ 0 ∷ 0 ∷ []

-- `rf_build_bond_record`
pub build_bond_record : Bond → List ℕ
build_bond_record b = let fields = bond_fields b in fields ++ word_bytes (bond_checksum fields)

-- `rf_bond_record_matches`
pub record_matches : List ℕ → List ℕ → Bool
record_matches [] bytes = true
record_matches (a ∷ bytes) [] = false
record_matches (a ∷ bytes) (b ∷ others) = let rest = record_matches bytes others in a == b && rest

-- `rf_bond_flash_is_erased`
pub flash_is_erased : List ℕ → Bool
flash_is_erased [] = true
flash_is_erased (b ∷ bytes) = let rest = flash_is_erased bytes in b == 0xff && rest

-- What `rf_load_bond_from_flash` makes of the bytes it reads, if it can.
pub load_read : Option (List ℕ) → Bond → Bond × Bool
load_read none b = (b, false)
load_read (some bytes) b = if not (bond_record_valid bytes) then (b, false) else (
  record {
    has_bond = true;
    dongle_mac = take 6 (drop 12 bytes);
    session_aa = word bytes 8;
    type_tag = get_or bytes 5 0;
  },
  true,
)

module _ (flash : Flash) where
  open flash use {Page, read, erase, write}

  -- `rf_load_bond_from_flash`, which gives whether it has found a bond.
  unfoldable pub load_bond_from_flash : Page → Bond → Bond × Bool
  load_bond_from_flash page b = load_read (read page) b

  -- `EEPROM_WRITE`, once the page needs no erasing or has been erased.
  pub write_record : Bond → Page → Page
  write_record b page = (write page (build_bond_record b)).0

  -- The erasing in front of it, which can fail.
  pub erase_and_write : Bond → Page → Page
  erase_and_write b page =
      let (erased, done) = erase page in if done then write_record b erased else erased

  -- What `rf_save_bond_to_flash` does once it has read the page, or could not.
  pub save_read : Option (List ℕ) → Bond → Page → Page
  save_read none b page = erase_and_write b page
  save_read (some current) b page =
      if bond_record_valid current && record_matches current (build_bond_record b)
      then page
      else if flash_is_erased current
      then write_record b page
      else erase_and_write b page

  -- `rf_save_bond_to_flash`
  unfoldable pub save_bond_to_flash : Bond → Page → Page
  save_bond_to_flash b page = if not b.has_bond then page else save_read (read page) b page

  -- `rf_clear_bond_flash`
  pub clear_bond_flash : Page → Page
  clear_bond_flash page = (erase page).0

-- `rf_clear_bond_ram`
unfoldable pub clear_bond_ram : Bond → Bond
clear_bond_ram b = record {
  has_bond = false;
  dongle_mac = replicate 6 0;
  session_aa = 0;
  type_tag = 0;
}
