-- ===== src/MainLoop/Sleep.antt =====
-- The explicit sleep of firmware/src/main.c is asked for only as the host wants it.
use open_controller.Prelude.{
  ℕ, ◌≡◌, refl, sym, ap, ◌∙◌, inl, inr, Bool, true, false, not, ◌&&◌, ◌||◌, List, [], ◌∷◌, ◌==◌,
  if◌then◌else◌, Bool-cases, arith,
}
use open_controller.SleepProtocol.{SleepProto, arbitrate, on_frame, is_state_changing}
use open_controller.MainLoop.{
  Call, Build, Answers, Device, power_up, sleep_part, command, handle_uart_frame, openboot_service,
  power_service,
}
use open_controller.MainLoop.Histories.{
  is_request_explicit, is_request_update, any_call, Event, frame, pass, services, apply,
}

-- What the host has said: that it knows the sleep protocol, that it wants an update, and that it
-- wants sleep and has not withdrawn that by a command that changes state.
pub record Wish : Type 0 where
  pub unlocked : Bool
  pub update : Bool
  pub sleep : Bool

unfoldable pub hear : Wish → ℕ → ℕ → Wish
hear w cmd sub =
    if cmd == 0xA6 && sub == 0x56
    then record w { unlocked = true; sleep = false }
    else if cmd == 0xA6 && sub == 0x54
    then record w { sleep = w.sleep || w.unlocked && not w.update }
    else record w {
      update = w.update || cmd == 0xA6 && sub == 0x81;
      sleep = w.sleep && not (is_state_changing cmd sub);
    }

-- A sleep asked for uses the wish up.
unfoldable pub wish : Wish → Event → List Call → Wish
wish w (frame ans cmd sub payload) calls = hear w cmd sub
wish w (pass now fifo_idle later tx_idle) calls = record w {
  sleep = w.sleep && not (any_call is_request_explicit calls);
}

unfoldable pub observe : Build → Device → Wish → List Event → Device × Wish
observe build d w [] = (d, w)
observe build d w (e ∷ es) =
    let (d1, calls) = apply build d e in observe build d1 (wish w e calls) es

record Agrees (d : Device) (w : Wish) : Type 0 where
  unlocked_lem : d.sleep_proto.unlocked ≡ w.unlocked
  update_lem : d.openboot_entry_pending ≡ w.update
  sleep_lem : d.sleep_proto.sleep_pending ≡ true → w.sleep ≡ true

on_frame-Agrees :
    (p : SleepProto) (cmd sub : ℕ) (w : Wish)
    → p.unlocked ≡ w.unlocked
    → (p.sleep_pending ≡ true → w.sleep ≡ true)
    → ((on_frame p cmd sub w.update).0.unlocked ≡ (hear w cmd sub).unlocked)
      × ((on_frame p cmd sub w.update).0.sleep_pending ≡ true → (hear w cmd sub).sleep ≡ true)
unfolding on_frame arbitrate hear is_state_changing
on_frame-Agrees p cmd sub w h k = (ground arith, λ e. ground arith)

command-keeps :
    (build : Build) (ans : Answers) (d : Device) (sub : ℕ)
    → ((command build ans d sub).0.sleep_proto ≡ d.sleep_proto)
      × ((command build ans d sub).0.openboot_entry_pending
          ≡ d.openboot_entry_pending || sub == 0x81)
unfolding command
command-keeps build ans d sub = (ground arith, ground arith)

-- The dispatch takes up the reducer's state, and notes an update.
pub frame-keeps :
    (build : Build) (ans : Answers) (d : Device) (cmd sub : ℕ) (payload : List ℕ)
    → ((handle_uart_frame build ans d cmd sub payload).0.sleep_proto
        ≡ (on_frame d.sleep_proto cmd sub d.openboot_entry_pending).0)
      × ((handle_uart_frame build ans d cmd sub payload).0.openboot_entry_pending
          ≡ d.openboot_entry_pending || cmd == 0xA6 && sub == 0x81)
unfolding handle_uart_frame sleep_part
frame-keeps build ans d cmd sub payload =
    let (a, b) = command-keeps build ans (sleep_part d cmd sub).0 sub in
    elim (Bool-cases (cmd == 0xA1)) [
      | inl e ↦ let k : (cmd == 0xA6) ≡ false = ground arith in rw (e, k) (refl, ground arith)
      | inr e ↦ elim (Bool-cases (cmd == 0xA6)) [
        | inl k ↦ rw (e, k) (a, b)
        | inr k ↦ rw (e, k) (refl, ground arith)
      ]
    ]

hear-update :
    (w : Wish) (cmd sub : ℕ) → (hear w cmd sub).update ≡ w.update || cmd == 0xA6 && sub == 0x81
unfolding hear
hear-update w cmd sub = ground arith

frame-Agrees :
    (build : Build) (ans : Answers) (d : Device) (cmd sub : ℕ) (payload : List ℕ) (w : Wish)
    → Agrees d w
    → Agrees (handle_uart_frame build ans d cmd sub payload).0 (hear w cmd sub)
frame-Agrees build ans d cmd sub payload w g =
    let (a, b) = frame-keeps build ans d cmd sub payload in
    let (u, p) = on_frame-Agrees d.sleep_proto cmd sub w g.unlocked_lem g.sleep_lem in
    let proto = a ∙ ap (λ o. (on_frame d.sleep_proto cmd sub o).0) g.update_lem in
    record {
      unlocked_lem = ap (λ (x : SleepProto). x.unlocked) proto ∙ u;
      update_lem =
          b ∙ ap (λ o. o || cmd == 0xA6 && sub == 0x81) g.update_lem ∙ sym (hear-update w cmd sub);
      sleep_lem = λ e. p (sym (ap (λ (x : SleepProto). x.sleep_pending) proto) ∙ e);
    }

services-Agrees :
    (build : Build) (now : ℕ) (fifo_idle : Bool) (later : ℕ) (tx_idle : Bool) (d : Device)
    (w : Wish)
    → Agrees d w
    → Agrees
        (services build now fifo_idle later tx_idle d).0
        (wish w (pass now fifo_idle later tx_idle) (services build now fifo_idle later tx_idle d).1)
unfolding services openboot_service power_service wish any_call is_request_explicit
    is_request_update
services-Agrees build now fifo_idle later tx_idle d w g =
    let h = g.unlocked_lem in
    let k = g.update_lem in
    let l = g.sleep_lem in
    record { unlocked_lem = ground arith; update_lem = ground arith; sleep_lem = λ e. ground arith }

pub services-asked :
    (build : Build) (now : ℕ) (fifo_idle : Bool) (later : ℕ) (tx_idle : Bool) (d : Device)
    → any_call is_request_explicit (services build now fifo_idle later tx_idle d).1 ≡ true
    → (d.sleep_proto.sleep_pending ≡ true) × (d.openboot_entry_pending ≡ false) × (tx_idle ≡ true)
unfolding services openboot_service power_service any_call is_request_explicit is_request_update
services-asked build now fifo_idle later tx_idle d h = (ground arith, ground arith, ground arith)

observe-Agrees :
    (build : Build) (d : Device) (w : Wish) (es : List Event)
    → Agrees d w
    → Agrees (observe build d w es).0 (observe build d w es).1
unfolding observe apply wish
observe-Agrees build d w [] g = g
observe-Agrees build d w (frame ans cmd sub payload ∷ es) g =
    observe-Agrees build (handle_uart_frame build ans d cmd sub payload).0 (hear w cmd sub) es
      (frame-Agrees build ans d cmd sub payload w g)
observe-Agrees build d w (pass now fifo_idle later tx_idle ∷ es) g =
    observe-Agrees build (services build now fifo_idle later tx_idle d).0
      (wish w (pass now fifo_idle later tx_idle) (services build now fifo_idle later tx_idle d).1)
      es (services-Agrees build now fifo_idle later tx_idle d w g)

abbrev pub no_wish : Wish
no_wish = record { unlocked = false; update = false; sleep = false }

-- If, after any history of frames and passes since power-up, a pass asks for the explicit sleep,
-- then the host has asked for it with A6 54 behind an A6 56 and has neither withdrawn that by a
-- command that changes state, nor had it carried out since; no update has been asked for; and the
-- UART has nothing left to send.
pub sleep_wanted :
    (build : Build) (es : List Event) (now : ℕ) (fifo_idle : Bool) (later : ℕ) (tx_idle : Bool)
    → any_call is_request_explicit
        (services build now fifo_idle later tx_idle (observe build power_up no_wish es).0).1
      ≡ true
    → ((observe build power_up no_wish es).1.sleep ≡ true)
      × ((observe build power_up no_wish es).1.update ≡ false)
      × (tx_idle ≡ true)
sleep_wanted build es now fifo_idle later tx_idle h =
    let g =
      observe-Agrees build power_up no_wish es (record {
        unlocked_lem = refl;
        update_lem = refl;
        sleep_lem = λ e. absurd (ground arith);
      }) in
    let (a, b, c) =
      services-asked build now fifo_idle later tx_idle (observe build power_up no_wish es).0 h in
    (g.sleep_lem a, sym g.update_lem ∙ b, c)
