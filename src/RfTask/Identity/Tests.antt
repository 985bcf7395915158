-- ===== src/RfTask/Identity/Tests.antt =====
-- An address that reads as erased, and an instance of the theorem on blank addresses.
use open_controller.Prelude.{ℕ, ◌≡◌, refl, inr, true, List, [], ◌∷◌}
use open_controller.RfTask.Bond.{Bond}
use open_controller.RfTask.Link.{idle, shut}
use open_controller.RfTask.Link.Histories.{Input, ticked, reported, run, booted}
use open_controller.RfTask.Identity.{keyboard_mac_valid}
use open_controller.RfTask.Identity.Blank.{blank_silent}

abbrev erased : List ℕ
erased = 0xFF ∷ 0xFF ∷ 0xFF ∷ 0xFF ∷ 0xFF ∷ 0xFF ∷ []

abbrev stored : Bond
stored = record {
  has_bond = true;
  dongle_mac = 1 ∷ 2 ∷ 3 ∷ 4 ∷ 5 ∷ 6 ∷ [];
  session_aa = 0x12345678;
  type_tag = 2;
}

abbrev pressing : List Input
pressing = reported (0 ∷ 0 ∷ 4 ∷ 0 ∷ 0 ∷ 0 ∷ 0 ∷ 0 ∷ []) ∷ ticked 5000 5000 true ∷ []

blank_silent_example :
    ((run (booted erased (keyboard_mac_valid 0 erased) stored) pressing).state ≡ idle)
    × ((run (booted erased (keyboard_mac_valid 0 erased) stored) pressing).radio.mode ≡ shut)
blank_silent_example = blank_silent 0 erased stored pressing (inr (inr refl))
