-- ===== src/System/Renewal.antt =====
-- A6 56 behind the hand-over of a request for sleep, firmware/src/main.c and power_sleep.c.
use open_controller.Prelude.{ℕ, ◌≡◌, ap, ◌∙◌, true, false, ◌&&◌, List, [], ◌∷◌, if◌then◌else◌}
use open_controller.KeyboardUart.Parser.{callback}
use open_controller.MainLoop.{Device, handle_uart_frame}
use open_controller.MainLoop.Sleep.{frame-keeps}
use open_controller.PowerSleep.{PowerSleep}
use open_controller.SleepProtocol.{SleepProto, on_frame, arbitrate, is_state_changing}
use open_controller.System.{Board, System, heard, answers, frame, hear, apply, run}
use open_controller.System.Effects.{
  perform_all-device, perform_all-power, sleep_part-power, handle-power,
}
use open_controller.System.Heeding.{Said, listen, hears, said}

-- What A6 56 leaves of a request.
reset_lem :
    (board : Board) (now : ℕ) (payload : List ℕ) (s : System)
    → s.power.explicit_request ≡ true
    → ((frame board now 0xA6 0x56 payload s).device.sleep_proto.sleep_pending ≡ false)
      × ((frame board now 0xA6 0x56 payload s).power.explicit_request ≡ true)
unfolding frame on_frame is_state_changing arbitrate
reset_lem board now payload s asked =
    let (d, calls) = handle_uart_frame board.build (answers s.link) s.device 0xA6 0x56 payload in
    let s' = record s { device = d } in
    let (proto, update) = frame-keeps board.build (answers s.link) s.device 0xA6 0x56 payload in
    let power =
      perform_all-power now calls s'
      ∙ handle-power now board.build (answers s.link) s.device 0xA6 0x56 payload s.power in
    let (auto, explicit) = sleep_part-power now s.device 0xA6 0x56 s.power in
    (
      ap (λ (d : Device). d.sleep_proto.sleep_pending) (perform_all-device now calls s')
          ∙ ap (λ (q : SleepProto). q.sleep_pending) proto,
      ap (λ (p : PowerSleep). p.explicit_request) power ∙ explicit ∙ ap (λ e. e && true) asked,
    )

-- A request that has been handed to the idle callback outlasts the host's A6 56, at whatever state of
-- the module that has not left for the bootloader: the host wants no sleep any more, the reducer has
-- dropped it, and the callback's request stands.
request_outlasts_reset :
    (board : Board) (s : System) (w : Said) (now : ℕ) (payload : List ℕ) (len : ℕ)
    → s.left ≡ false
    → s.power.explicit_request ≡ true
    → ((said board s w (heard now (callback 0xA6 0x56 payload len) ∷ [])).sleep ≡ false)
      × ((run board s
            (heard now (callback 0xA6 0x56 payload len) ∷ [])).device.sleep_proto.sleep_pending
          ≡ false)
      × ((run board s (heard now (callback 0xA6 0x56 payload len) ∷ [])).power.explicit_request
          ≡ true)
unfolding said run hears listen apply hear
request_outlasts_reset board s w now payload len left asked =
    let (pending, explicit) = reset_lem board now payload s asked in
    (
      ap (λ b. (if b then w else listen w 0xA6 0x56).sleep) left,
      ap
            (λ b.
              (if b
                then s
                else frame board now 0xA6 0x56 payload s).device.sleep_proto.sleep_pending)
            left
          ∙ pending,
      ap (λ b. (if b then s else frame board now 0xA6 0x56 payload s).power.explicit_request) left
          ∙ explicit,
    )
