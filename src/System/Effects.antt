-- ===== src/System/Effects.antt =====
-- What the calls of firmware/src/main.c do to its own state and to deep sleep's.
use open_controller.Prelude.{
  ℕ, ◌≡◌, refl, ap, ◌∙◌, Bool, not, ◌&&◌, ◌||◌, List, [], ◌∷◌, ◌++◌, ◌==◌, Bool-cases, inl, inr,
  arith,
}
use open_controller.MainLoop as Main
use open_controller.MainLoop.{
  Build, Answers, Device, reply, sleep_part, command, handle_uart_frame, openboot_service,
  power_service,
}
use open_controller.MainLoop.Histories.{services, any_call, is_request_explicit, is_request_update}
use open_controller.SleepProtocol.{Action, on_frame, is_state_changing}
use open_controller.PowerSleep.{
  PowerSleep, set_autosleep, note_activity, request_explicit, cancel_explicit,
}
use open_controller.System.{System, follow, perform, perform_all}

perform-device : (now : ℕ) (c : Main.Call) (s : System) → (perform now c s).device ≡ s.device
unfolding perform follow
perform-device now c s = ground arith

pub perform_all-device :
    (now : ℕ) (cs : List Main.Call) (s : System) → (perform_all now cs s).device ≡ s.device
unfolding perform_all
perform_all-device now [] s = refl
perform_all-device now (c ∷ cs) s =
    perform_all-device now cs (perform now c s) ∙ perform-device now c s

-- What a call does to deep sleep's state.
unfoldable pub power_after : ℕ → Main.Call → PowerSleep → PowerSleep
power_after now (Main.set_autosleep on) p = set_autosleep p on now
power_after now Main.note_activity p = note_activity p now
power_after now Main.cancel_explicit p = cancel_explicit p
power_after now Main.request_explicit p = request_explicit p
power_after now c p = p

unfoldable pub power_all : ℕ → List Main.Call → PowerSleep → PowerSleep
power_all now [] p = p
power_all now (c ∷ cs) p = power_all now cs (power_after now c p)

perform-power :
    (now : ℕ) (c : Main.Call) (s : System) → (perform now c s).power ≡ power_after now c s.power
unfolding perform power_after follow
perform-power now c s = ground arith

pub perform_all-power :
    (now : ℕ) (cs : List Main.Call) (s : System)
    → (perform_all now cs s).power ≡ power_all now cs s.power
unfolding perform_all power_all
perform_all-power now [] s = refl
perform_all-power now (c ∷ cs) s =
    perform_all-power now cs (perform now c s) ∙ ap (power_all now cs) (perform-power now c s)

pub power_all-append :
    (now : ℕ) (cs ds : List Main.Call) (p : PowerSleep)
    → power_all now (cs ++ ds) p ≡ power_all now ds (power_all now cs p)
unfolding power_all
power_all-append now [] ds p = refl
power_all-append now (c ∷ cs) ds p = power_all-append now cs ds (power_after now c p)

-- The dispatch behind the sleep protocol leaves deep sleep alone.
pub command-power :
    (now : ℕ) (build : Build) (ans : Answers) (d : Device) (sub : ℕ) (p : PowerSleep)
    → power_all now (command build ans d sub).1 p ≡ p
unfolding command power_all power_after
command-power now build ans d sub p = ground arith

reply-power : (now : ℕ) (a : Action) (p : PowerSleep) → power_all now (reply a) p ≡ p
unfolding reply power_all power_after
reply-power now a p = ground arith

-- The sleep protocol's part carries auto-sleep over and withdraws a request.
pub sleep_part-power :
    (now : ℕ) (d : Device) (cmd sub : ℕ) (p : PowerSleep)
    → ((power_all now (sleep_part d cmd sub).1 p).autosleep
        ≡ (on_frame d.sleep_proto cmd sub d.openboot_entry_pending).0.autosleep)
      × ((power_all now (sleep_part d cmd sub).1 p).explicit_request
          ≡ (p.explicit_request && not (is_state_changing cmd sub)))
unfolding sleep_part power_all power_after reply set_autosleep note_activity cancel_explicit
sleep_part-power now d cmd sub p = (ground arith, ground arith)

-- The two services only ever ask for a sleep.
pub services-power :
    (now at : ℕ) (build : Build) (fifo_idle : Bool) (later : ℕ) (tx_idle : Bool) (d : Device)
    (p : PowerSleep)
    → ((power_all at (services build now fifo_idle later tx_idle d).1 p).autosleep ≡ p.autosleep)
      × ((power_all at (services build now fifo_idle later tx_idle d).1 p).explicit_request
          ≡ p.explicit_request
            || any_call is_request_explicit (services build now fifo_idle later tx_idle d).1)
unfolding services openboot_service power_service power_all power_after request_explicit any_call
    is_request_explicit is_request_update
services-power now at build fifo_idle later tx_idle d p = (ground arith, ground arith)

-- Of a frame, only the sleep protocol's part matters to deep sleep.
pub handle-power :
    (now : ℕ) (build : Build) (ans : Answers) (d : Device) (cmd sub : ℕ) (payload : List ℕ)
    (p : PowerSleep)
    → power_all now (handle_uart_frame build ans d cmd sub payload).1 p
      ≡ power_all now (sleep_part d cmd sub).1 p
unfolding handle_uart_frame power_all power_after
handle-power now build ans d cmd sub payload p =
    let (d1, calls) = sleep_part d cmd sub in
    elim (Bool-cases (cmd == 0xA1)) [
      | inl e ↦ rw e (power_all-append now calls (Main.queue_hid_report payload ∷ []) p)
      | inr e ↦ elim (Bool-cases (cmd == 0xA6)) [
        | inl k ↦
            rw (e, k)
              (power_all-append now calls (command build ans d1 sub).1 p
                ∙ command-power now build ans d1 sub (power_all now calls p))
        | inr k ↦ rw (e, k) refl
      ]
    ]
