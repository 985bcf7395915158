-- ===== src/MainLoop.antt =====
-- The command dispatch of firmware/src/main.c and the services of its loop that leave it, for the
-- bootloader and for deep sleep (`KBD_DEEP_SLEEP` set, `KBD_SLEEP_BENCH_HOOK` not). Calls of the
-- other parts are recorded; their answers are arguments.
pub mod Histories
pub mod Ota
pub mod Update
pub mod Sleep
mod Tests
use open_controller.Prelude.{
  ℕ, ◌+◌, Bool, true, false, not, ◌&&◌, ◌||◌, List, [], ◌∷◌, ◌++◌, ltb, ◌==◌, if◌then◌else◌, sub32,
}
use open_controller.RtcClock.{ticks_us}
use open_controller.SleepProtocol.{
  SleepProto, Action, none, send_ready, arm, cancel, status_ready, reset, on_frame,
  is_state_changing,
}

-- The calls that leave main.c.
pub data Call : Type 0 where
  set_autosleep : Bool → Call
  note_activity : Call
  cancel_explicit : Call
  request_explicit : Call
  send_status : ℕ → Call
  send_battery : ℕ → Call
  queue_hid_report : List ℕ → Call
  rf_disconnect : Call
  drop_queue_unless_reselected : Call
  select_2g4 : Call
  enter_pairing : Call
  clear_bond : Call
  flush_bond_save : Call
  diag_dump_send : Call
  diag_dump_zero : Call
  mask_interrupts : Call
  request_update : Call

-- `KBD_HOST_WAKE`, `KBD_UART_DIAG_DUMP`, `FREQ_RTC` and `KBD_HOST_WAKE_BACKLOG_MAX_US`.
pub record Build : Type 0 where
  pub host_wake : Bool
  pub diag_dump : Bool
  pub freq_rtc : ℕ
  pub backlog_us : ℕ

-- The bounds on the two drains, in ticks.
unfoldable pub ota_drain : Build → ℕ
ota_drain build = ticks_us build.freq_rtc 20000

unfoldable pub sleep_drain : Build → ℕ
sleep_drain build = ticks_us build.freq_rtc (20000 + build.backlog_us)

-- What `RF_Select2G4`, `RF_IdentityValid` and `RF_EnterPairing` answer.
pub record Answers : Type 0 where
  pub has_bond : Bool
  pub identity_valid : Bool
  pub pairing_entered : Bool

-- `sleep_proto`, `transport_is_2g4`, `openboot_entry_pending`, and the statics of the two services.
pub record Device : Type 0 where
  pub sleep_proto : SleepProto
  pub transport_is_2g4 : Bool
  pub openboot_entry_pending : Bool
  pub openboot_state : ℕ
  pub openboot_start : ℕ
  pub power_state : ℕ
  pub power_start : ℕ

abbrev pub power_up : Device
power_up = record {
  sleep_proto = reset;
  transport_is_2g4 = false;
  openboot_entry_pending = false;
  openboot_state = 0;
  openboot_start = 0;
  power_state = 0;
  power_start = 0;
}

-- The answer to the unlock command.
unfoldable pub reply : Action → List Call
reply send_ready = send_status status_ready ∷ []
reply none = []
reply arm = []
reply cancel = []

-- The top of `handle_uart_frame`, which every accepted frame passes.
unfoldable pub sleep_part : Device → ℕ → ℕ → Device × List Call
sleep_part d cmd sub =
    let (proto, action) = on_frame d.sleep_proto cmd sub d.openboot_entry_pending in
    (
      record d { sleep_proto = proto },
      reply action
          ++ set_autosleep proto.autosleep
            ∷ note_activity
            ∷ (if is_state_changing cmd sub then cancel_explicit ∷ [] else []),
    )

-- The switch over the sub-command of an A6 frame.
unfoldable pub command : Build → Answers → Device → ℕ → Device × List Call
command build ans d sub =
    if sub == 0x11
    then (
      record d { transport_is_2g4 = false },
      rf_disconnect ∷ drop_queue_unless_reselected ∷ send_status 0x34 ∷ send_status 0x36 ∷ [],
    )
    else if sub == 0x30
    then (
      record d { transport_is_2g4 = true },
      select_2g4 ∷ send_status 0x34 ∷ send_status (if ans.has_bond then 0x35 else 0x36) ∷ [],
    )
    else if sub == 0x31 || sub == 0x32 || sub == 0x33
    then (
      record d { transport_is_2g4 = false },
      rf_disconnect
          ∷ drop_queue_unless_reselected
          ∷ send_status 0x34
          ∷ send_status 0x36
          ∷ send_status 0x23
          ∷ [],
    )
    else if sub == 0x51
    then (
      d,
      if not d.transport_is_2g4
          then []
          else if not ans.identity_valid
          then send_status 0x36 ∷ []
          else if ans.pairing_entered
          then enter_pairing ∷ send_status 0x31 ∷ send_status 0x23 ∷ []
          else enter_pairing ∷ send_status 0x32 ∷ [],
    )
    else if sub == 0x52
    then (d, rf_disconnect ∷ clear_bond ∷ send_status 0x33 ∷ [])
    else if sub == 0x53
    then (d, send_battery 100 ∷ [])
    else if sub == 0x63
    then (
      record d { transport_is_2g4 = true },
      if ans.identity_valid
          then rf_disconnect ∷ clear_bond ∷ enter_pairing ∷ send_status 0x31 ∷ send_status 0x23 ∷ []
          else send_status 0x36 ∷ [],
    )
    else if sub == 0x58
    then (d, if build.host_wake then send_status 0x38 ∷ [] else [])
    else if sub == 0x71
    then (d, if build.diag_dump then diag_dump_send ∷ [] else [])
    else if sub == 0x72
    then (d, if build.diag_dump then diag_dump_zero ∷ [] else [])
    else if sub == 0x81
    then (record d { openboot_entry_pending = true }, [])
    else (d, [])

-- `handle_uart_frame`
unfoldable pub handle_uart_frame : Build → Answers → Device → ℕ → ℕ → List ℕ → Device × List Call
unfolding sleep_part
handle_uart_frame build ans d cmd sub payload =
    let (d1, calls) = sleep_part d cmd sub in
    if cmd == 0xA1
    then (d1, calls ++ queue_hid_report payload ∷ [])
    else if not (cmd == 0xA6)
    then (d1, calls)
    else let (d2, more) = command build ans d1 sub in (d2, calls ++ more)

-- `OpenBoot_Service`, with the clock and `KeyboardUart_FifoIdle`; `openboot_request_update` does
-- not return.
unfoldable pub openboot_service : Build → ℕ → Bool → Device → Device × List Call
openboot_service build now fifo_idle d =
    if d.openboot_state == 0
    then (if not d.openboot_entry_pending then (d, []) else (
      record d { openboot_start = now; openboot_state = 1 },
      flush_bond_save ∷ rf_disconnect ∷ [],
    ))
    else if not fifo_idle && ltb (sub32 now d.openboot_start) (ota_drain build)
    then (d, [])
    else (d, mask_interrupts ∷ request_update ∷ [])

-- `sleep_proto.sleep_pending = 0`
abbrev pub withdraw : Device → Device
withdraw d = record d { sleep_proto = record d.sleep_proto { sleep_pending = false } }

-- `Power_Service`, with the clock and `KeyboardUart_TxIdle`.
unfoldable pub power_service : Build → ℕ → Bool → Device → Device × List Call
power_service build now tx_idle d =
    if d.power_state == 0
    then (if not d.sleep_proto.sleep_pending
        then (d, [])
        else if d.openboot_entry_pending
        then (withdraw d, [])
        else (record d { power_start = now; power_state = 1 }, []))
    else if not d.sleep_proto.sleep_pending || d.openboot_entry_pending
    then (record (withdraw d) { power_state = 0 }, [])
    else if not tx_idle
    then (if ltb (sub32 now d.power_start) (sleep_drain build)
        then (d, [])
        else (record (withdraw d) { power_state = 0 }, []))
    else (
      record (withdraw d) { power_state = 0 },
      flush_bond_save ∷ rf_disconnect ∷ request_explicit ∷ [],
    )
