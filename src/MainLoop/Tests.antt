-- ===== src/MainLoop/Tests.antt =====
-- Runs of the dispatch and the services at concrete inputs, and instances of their theorems.
use open_controller.Prelude.{◌≡◌, refl, true, false, List, [], ◌∷◌, ◌++◌, arith}
use open_controller.SleepProtocol.{arbitrate, on_frame, is_state_changing}
use open_controller.MainLoop.{
  ota_drain, Build, Answers, Device, power_up, sleep_part, command, handle_uart_frame,
  openboot_service, power_service, flush_bond_save, rf_disconnect,
}
use open_controller.MainLoop.Histories.{
  Event, frame, pass, any_call, is_request_explicit, is_request_update, services, apply, run,
}
use open_controller.MainLoop.Update.{update_entered}
use open_controller.MainLoop.Sleep.{observe, no_wish}

abbrev build : Build
build = record { host_wake = true; diag_dump = false; freq_rtc = 32768; backlog_us = 500000 }

abbrev answers : Answers
answers = record { has_bond = true; identity_valid = true; pairing_entered = true }

-- A6 81 has come.
abbrev updating : Device
updating = record power_up { openboot_entry_pending = true }

-- Unlock, ask for sleep, and a pass that begins the drain.
abbrev asking : List Event
asking = frame answers 0xA6 0x56 [] ∷ frame answers 0xA6 0x54 [] ∷ pass 100 true 100 true ∷ []

update_entered_example :
    ((openboot_service build 100 false updating).1 ≡ flush_bond_save ∷ rf_disconnect ∷ [])
    × (any_call is_request_update
          (run build updating
            (pass 100 false 100 false ∷ asking ++ pass 800 false 800 false ∷ [])).1
        ≡ true)
unfolding ota_drain
update_entered_example =
    update_entered build updating 100 false 100 false asking 800 false 800 false refl refl
      (omega arith)

asked :
    any_call is_request_explicit
      (services build 200 true 200 true (observe build power_up no_wish asking).0).1
    ≡ true
unfolding services openboot_service power_service any_call is_request_explicit is_request_update
    observe apply handle_uart_frame sleep_part command on_frame arbitrate is_state_changing
asked = refl
