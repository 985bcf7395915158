-- ===== src/RfTask/Bond/Tests.antt =====
-- A flash in memory, runs of the bond's code on it, and instances of its theorems.
use open_controller.Prelude.{
  ℕ, ◌≡◌, refl, true, false, none, some, List, [], ◌∷◌, ◌==◌, ==_iff, if◌then◌else◌, length,
  replicate, set, inl, inr, Bool-cases, arith,
}
use open_controller.RfTask.DataFlash.{Flash, Works}
use open_controller.RfTask.Bond.{
  Bond, bond_record_valid, bond_fields, build_bond_record, sum_bytes, load_bond_from_flash,
  save_bond_to_flash, clear_bond_flash, clear_bond_ram,
}
use open_controller.RfTask.Bond.Bytes.{is_session}
use open_controller.RfTask.Bond.RoundTrip.{load-save}
use open_controller.RfTask.Bond.Corruption.{one_byte_detected}

abbrev memory : Flash
memory = record {
  Page = List ℕ;
  read = λ page. if length page == 24 then some page else none;
  erase = λ page. (replicate 24 0xff, true);
  write = λ page bytes. (bytes, true);
}

memory-reads :
    (page bytes : List ℕ)
    → (if length page == 24 then some page else none) ≡ some bytes
    → length bytes ≡ 24
memory-reads page bytes h = elim (Bool-cases (length page == 24)) [
  | inl e ↦ ground arith
  | inr e ↦ ground arith
]

memory-written :
    (page bytes : List ℕ)
    → length bytes ≡ 24
    → (if length bytes == 24 then some bytes else none) ≡ some bytes
memory-written page bytes h = rw ((==_iff (length bytes) 24).1 h)

memory-Works : Works memory
memory-Works = record {
  reads = memory-reads;
  erases = λ page. refl;
  erased = λ page. refl;
  written = λ page bytes r h. memory-written page bytes h;
}

abbrev bond : Bond
bond = record {
  has_bond = true;
  dongle_mac = 0xbd ∷ 0xc3 ∷ 0xab ∷ 0x10 ∷ 0x53 ∷ 0x5c ∷ [];
  session_aa = 0x12345678;
  type_tag = 3;
}

abbrev garbage : List ℕ
garbage = replicate 24 7

load-save_example :
    (load_bond_from_flash memory (save_bond_to_flash memory bond garbage) (clear_bond_ram bond)
      ≡ (bond, true))
    × (load_bond_from_flash memory (clear_bond_flash memory garbage) (clear_bond_ram bond)
        ≡ (clear_bond_ram bond, false))
unfolding is_session
load-save_example =
    load-save memory memory-Works bond (clear_bond_ram bond) garbage
      (record { has = refl; mac_length = refl; tag_lt = omega arith; aa_lt = omega arith })

abbrev stored : List ℕ
stored =
    0x4b ∷ 0x42 ∷ 0x44 ∷ 0x32 ∷ 1 ∷ 3 ∷ 0 ∷ 0 ∷ 0x78 ∷ 0x56 ∷ 0x34 ∷ 0x12 ∷ 0xbd ∷ 0xc3 ∷ 0xab
    ∷ 0x10 ∷ 0x53 ∷ 0x5c ∷ 0 ∷ 0 ∷ 0x05 ∷ 0x05 ∷ 0 ∷ 0 ∷ []

stored_test : build_bond_record bond ≡ stored
unfolding build_bond_record bond_fields sum_bytes
stored_test = refl

valid_test : bond_record_valid stored ≡ true
unfolding bond_record_valid sum_bytes
valid_test = refl

one_byte_detected_example : bond_record_valid (set stored 9 0x57) ≡ false
one_byte_detected_example =
    one_byte_detected stored 9 0x57 (omega arith) refl (omega arith) (omega arith) valid_test
      (omega arith)
