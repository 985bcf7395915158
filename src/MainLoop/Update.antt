-- ===== src/MainLoop/Update.antt =====
-- The bootloader is entered within the bound of `OpenBoot_Service` in firmware/src/main.c.
use open_controller.Prelude.{
  ℕ, ◌≡◌, inl, inr, Bool, true, List, [], ◌∷◌, ◌++◌, ◌==◌, Bool-cases, sub32, ◌≤◌, arith,
}
use open_controller.MainLoop.{
  ota_drain, Build, Answers, Device, sleep_part, command, handle_uart_frame, openboot_service,
  power_service, flush_bond_save, rf_disconnect,
}
use open_controller.MainLoop.Histories.{
  is_request_update, any_call, any_call-right, Event, frame, pass, services, apply, run,
}

-- The drain in front of the update, begun at a time.
record Draining (start : ℕ) (d : Device) : Type 0 where
  state_lem : d.openboot_state ≡ 1
  start_lem : d.openboot_start ≡ start

command-Draining :
    (build : Build) (ans : Answers) (d : Device) (sub start : ℕ)
    → Draining start d
    → Draining start (command build ans d sub).0
unfolding command
command-Draining build ans d sub start g =
    let h = g.state_lem in
    let k = g.start_lem in record { state_lem = ground arith; start_lem = ground arith }

frame-Draining :
    (build : Build) (ans : Answers) (d : Device) (cmd sub : ℕ) (payload : List ℕ) (start : ℕ)
    → Draining start d
    → Draining start (handle_uart_frame build ans d cmd sub payload).0
unfolding handle_uart_frame sleep_part
frame-Draining build ans d cmd sub payload start g =
    let s : Draining start (sleep_part d cmd sub).0 = record {
      state_lem = g.state_lem;
      start_lem = g.start_lem;
    } in
    elim (Bool-cases (cmd == 0xA1)) [
      | inl e ↦ rw e s
      | inr e ↦ elim (Bool-cases (cmd == 0xA6)) [
        | inl k ↦ rw (e, k) (command-Draining build ans (sleep_part d cmd sub).0 sub start s)
        | inr k ↦ rw (e, k) s
      ]
    ]

services-Draining :
    (build : Build) (now : ℕ) (fifo_idle : Bool) (later : ℕ) (tx_idle : Bool) (d : Device)
    (start : ℕ)
    → Draining start d
    → Draining start (services build now fifo_idle later tx_idle d).0
unfolding services openboot_service power_service any_call
services-Draining build now fifo_idle later tx_idle d start g =
    let h = g.state_lem in
    let k = g.start_lem in record { state_lem = ground arith; start_lem = ground arith }

apply-Draining :
    (build : Build) (d : Device) (e : Event) (start : ℕ)
    → Draining start d
    → Draining start (apply build d e).0
unfolding apply
apply-Draining build d (frame ans cmd sub payload) start g =
    frame-Draining build ans d cmd sub payload start g
apply-Draining build d (pass now fifo_idle later tx_idle) start g =
    services-Draining build now fifo_idle later tx_idle d start g

last_pass :
    (build : Build) (start : ℕ) (d : Device) (now : ℕ) (fifo_idle : Bool) (later : ℕ)
    (tx_idle : Bool)
    → Draining start d
    → ota_drain build ≤ sub32 now start
    → any_call is_request_update (apply build d (pass now fifo_idle later tx_idle)).1 ≡ true
unfolding apply services openboot_service any_call is_request_update
last_pass build start d now fifo_idle later tx_idle g h =
    let k = g.state_lem in let l = g.start_lem in ground arith

first_pass :
    (build : Build) (d : Device) (start : ℕ) (f : Bool) (l : ℕ) (t : Bool)
    → d.openboot_entry_pending ≡ true
    → d.openboot_state ≡ 0
    → Draining start (apply build d (pass start f l t)).0
unfolding apply services openboot_service power_service any_call is_request_update
first_pass build d start f l t h k = record { state_lem = ground arith; start_lem = ground arith }

first_calls :
    (build : Build) (d : Device) (start : ℕ) (f : Bool)
    → d.openboot_entry_pending ≡ true
    → d.openboot_state ≡ 0
    → (openboot_service build start f d).1 ≡ flush_bond_save ∷ rf_disconnect ∷ []
unfolding openboot_service
first_calls build d start f h k = ground arith

leaving_within :
    (build : Build) (start : ℕ) (d : Device) (es : List Event) (now : ℕ) (fifo_idle : Bool)
    (later : ℕ) (tx_idle : Bool)
    → Draining start d
    → ota_drain build ≤ sub32 now start
    → any_call is_request_update (run build d (es ++ pass now fifo_idle later tx_idle ∷ [])).1
      ≡ true
unfolding run any_call is_request_update
leaving_within build start d [] now fifo_idle later tx_idle g h =
    let e = last_pass build start d now fifo_idle later tx_idle g h in rw e e
leaving_within build start d (e ∷ es) now fifo_idle later tx_idle g h =
    let rest =
      leaving_within build start (apply build d e).0 es now fifo_idle later tx_idle
        (apply-Draining build d e start g) h in
    elim (Bool-cases (any_call is_request_update (apply build d e).1)) [
      | inl k ↦ rw k k
      | inr k ↦ rw k (any_call-right is_request_update (apply build d e).1 _ rest)
    ]

-- With the bootloader to be entered and its service idle, the first pass saves the bond and
-- disconnects, and whatever frames and passes follow, the bootloader has been entered at the latest
-- in the pass that comes once the drain's bound has gone by since the first.
pub update_entered :
    (build : Build) (d : Device) (start : ℕ) (f : Bool) (l : ℕ) (t : Bool) (es : List Event)
    (now : ℕ) (fifo_idle : Bool) (later : ℕ) (tx_idle : Bool)
    → d.openboot_entry_pending ≡ true
    → d.openboot_state ≡ 0
    → ota_drain build ≤ sub32 now start
    → ((openboot_service build start f d).1 ≡ flush_bond_save ∷ rf_disconnect ∷ [])
      × (any_call is_request_update
            (run build d (pass start f l t ∷ es ++ pass now fifo_idle later tx_idle ∷ [])).1
          ≡ true)
unfolding run
update_entered build d start f l t es now fifo_idle later tx_idle h k b =
    let e = pass start f l t in
    let rest =
      leaving_within build start (apply build d e).0 es now fifo_idle later tx_idle
        (first_pass build d start f l t h k) b in
    (
      first_calls build d start f h k,
      elim (Bool-cases (any_call is_request_update (apply build d e).1)) [
        | inl k ↦ rw k k
        | inr k ↦ rw k (any_call-right is_request_update (apply build d e).1 _ rest)
      ],
    )
