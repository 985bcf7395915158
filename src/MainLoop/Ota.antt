-- ===== src/MainLoop/Ota.antt =====
-- An update outranks sleep in firmware/src/main.c.
use open_controller.Prelude.{
  ℕ, ◌≡◌, refl, inl, inr, Bool, true, false, List, [], ◌∷◌, ◌==◌, Bool-cases, arith,
}
use open_controller.MainLoop.{
  Call, Build, Answers, Device, reply, sleep_part, command, handle_uart_frame, openboot_service,
  power_service, queue_hid_report,
}
use open_controller.SleepProtocol.{Action, none, send_ready, arm, cancel, on_frame}
use open_controller.MainLoop.Histories.{
  is_request_explicit, is_request_update, any_call, any_call-append, Event, frame, pass, services,
  apply, run,
}

-- What an update in hand keeps: it stays in hand, and nothing asks for sleep.
record Kept (o : Device × List Call) : Type 0 where
  pending : o.0.openboot_entry_pending ≡ true
  awake : any_call is_request_explicit o.1 ≡ false

command-Kept :
    (build : Build) (ans : Answers) (d : Device) (sub : ℕ)
    → d.openboot_entry_pending ≡ true
    → Kept (command build ans d sub)
unfolding command any_call is_request_explicit
command-Kept build ans d sub h = record { pending = ground arith; awake = ground arith }

power-Kept :
    (build : Build) (now : ℕ) (tx_idle : Bool) (d : Device)
    → d.openboot_entry_pending ≡ true
    → Kept (power_service build now tx_idle d)
unfolding power_service any_call is_request_explicit
power-Kept build now tx_idle d h = record { pending = ground arith; awake = ground arith }

openboot-Kept :
    (build : Build) (now : ℕ) (fifo_idle : Bool) (d : Device)
    → d.openboot_entry_pending ≡ true
    → Kept (openboot_service build now fifo_idle d)
unfolding openboot_service any_call is_request_explicit
openboot-Kept build now fifo_idle d h = record { pending = ground arith; awake = ground arith }

reply-awake : (a : Action) → any_call is_request_explicit (reply a) ≡ false
unfolding reply any_call is_request_explicit
reply-awake send_ready = refl
reply-awake none = refl
reply-awake arm = refl
reply-awake cancel = refl

sleep_part-Kept :
    (d : Device) (cmd sub : ℕ) → d.openboot_entry_pending ≡ true → Kept (sleep_part d cmd sub)
unfolding sleep_part any_call is_request_explicit
sleep_part-Kept d cmd sub h =
    let (proto, action) = on_frame d.sleep_proto cmd sub d.openboot_entry_pending in
    record {
      pending = h;
      awake =
          any_call-append is_request_explicit (reply action) _ (reply-awake action) (ground arith);
    }

frame-Kept :
    (build : Build) (ans : Answers) (d : Device) (cmd sub : ℕ) (payload : List ℕ)
    → d.openboot_entry_pending ≡ true
    → Kept (handle_uart_frame build ans d cmd sub payload)
unfolding handle_uart_frame any_call is_request_explicit
frame-Kept build ans d cmd sub payload h =
    let s = sleep_part-Kept d cmd sub h in
    let c = command-Kept build ans (sleep_part d cmd sub).0 sub s.pending in
    elim (Bool-cases (cmd == 0xA1)) [
      | inl e ↦ rw e (record {
        pending = s.pending;
        awake =
            any_call-append is_request_explicit (sleep_part d cmd sub).1
              (queue_hid_report payload ∷ []) s.awake refl;
      })
      | inr e ↦ elim (Bool-cases (cmd == 0xA6)) [
        | inl k ↦
            rw (e, k)
              (record {
                pending = c.pending;
                awake =
                    any_call-append is_request_explicit (sleep_part d cmd sub).1
                      (command build ans (sleep_part d cmd sub).0 sub).1 s.awake c.awake;
              })
        | inr k ↦ rw (e, k) s
      ]
    ]

services-Kept :
    (build : Build) (now : ℕ) (fifo_idle : Bool) (later : ℕ) (tx_idle : Bool) (d : Device)
    → d.openboot_entry_pending ≡ true
    → Kept (services build now fifo_idle later tx_idle d)
unfolding services
services-Kept build now fifo_idle later tx_idle d h =
    let o = openboot-Kept build now fifo_idle d h in
    let d1 = (openboot_service build now fifo_idle d).0 in
    let calls = (openboot_service build now fifo_idle d).1 in
    let p = power-Kept build later tx_idle d1 o.pending in
    elim (Bool-cases (any_call is_request_update calls)) [
      | inl e ↦ rw e o
      | inr e ↦ rw e (record {
        pending = p.pending;
        awake =
            any_call-append is_request_explicit calls (power_service build later tx_idle d1).1
              o.awake p.awake;
      })
    ]

apply-Kept :
    (build : Build) (d : Device) (e : Event)
    → d.openboot_entry_pending ≡ true
    → Kept (apply build d e)
unfolding apply
apply-Kept build d (frame ans cmd sub payload) h = frame-Kept build ans d cmd sub payload h
apply-Kept build d (pass now fifo_idle later tx_idle) h =
    services-Kept build now fifo_idle later tx_idle d h

-- Once the bootloader is to be entered, no history of frames and passes withdraws that or asks for
-- the explicit sleep.
ota_wins :
    (build : Build) (d : Device) (es : List Event)
    → d.openboot_entry_pending ≡ true
    → ((run build d es).0.openboot_entry_pending ≡ true)
      × (any_call is_request_explicit (run build d es).1 ≡ false)
unfolding run any_call
ota_wins build d [] h = (h, refl)
ota_wins build d (e ∷ es) h =
    let a = apply-Kept build d e h in
    let (p, q) = ota_wins build (apply build d e).0 es a.pending in
    elim (Bool-cases (any_call is_request_update (apply build d e).1)) [
      | inl k ↦ rw k (a.pending, a.awake)
      | inr k ↦ rw k (
        p,
        any_call-append is_request_explicit (apply build d e).1 (run build (apply build d e).0 es).1
            a.awake q,
      )
    ]
