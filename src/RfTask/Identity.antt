-- ===== src/RfTask/Identity.antt =====
-- The keyboard's address, `rf_init_keyboard_identity` of firmware/src/rf_task.c. The vendor's
-- `GetMACAddress` is taken by what it returns and by the bytes that it leaves in `keyboard_mac`.
pub mod Blank
mod Tests
use open_controller.Prelude.{ℕ, Bool, true, false, not, ◌&&◌, List, [], ◌∷◌, ◌==◌, if◌then◌else◌}

-- `all_zero` and `all_ff` behind the loop, as `byte` is 0x00 and 0xFF.
unfoldable pub are_all : ℕ → List ℕ → Bool
are_all byte [] = true
are_all byte (b ∷ mac) = let rest = are_all byte mac in b == byte && rest

-- `rf_init_keyboard_identity` with `KBD_FACTORY_MAC`: whether the address is valid.
unfoldable pub keyboard_mac_valid : ℕ → List ℕ → Bool
keyboard_mac_valid returned mac =
    if not (returned == 0) then false else not (are_all 0x00 mac) && not (are_all 0xFF mac)
